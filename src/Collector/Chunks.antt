-- ===== src/Collector/Chunks.antt =====
-- `chunk_message` of collector/reporting.py: a text is cut into numbered parts that fit a message of
-- Telegram. Texts are lists of code points.
pub mod Newlines
pub mod Parts
pub mod Fewer
pub mod Total
use lite_checker.Prelude.{
  ℕ, zero, suc, ◌+◌, ◌-◌, ◌/◌, ◌%◌, Bool, true, false, ◌&&◌, ◌||◌, Option, none, some, List, [],
  ◌∷◌, ◌++◌, map, keep, length, take, drop, ltb, leb, nat_eq, ◌==◌, if◌then◌else◌,
}

abbrev starts_line : List ℕ → Bool
starts_line [] = false
starts_line (c ∷ cs) = c == 10

-- `.replace("\r\n", "\n")`
unfoldable pub join_crlf : List ℕ → List ℕ
join_crlf [] = []
join_crlf (c ∷ cs) = let rest = join_crlf cs in if c == 13 && starts_line cs then rest else c ∷ rest

-- `.replace("\r", "\n")`
abbrev pub newline_of : ℕ → ℕ
newline_of c = if c == 13 then 10 else c

-- `_clean_message`; `shown` says that the category is none of Cc, Cf and Cs
unfoldable pub clean_message : (ℕ → Bool) → List ℕ → List ℕ
clean_message shown text = keep (λ c. c == 10 || shown c) (map newline_of (join_crlf text))

-- "(пустой отчет)"
abbrev pub empty_text : List ℕ
empty_text =
    40 ∷ 1087 ∷ 1091 ∷ 1089 ∷ 1090 ∷ 1086 ∷ 1081 ∷ 32 ∷ 1086 ∷ 1090 ∷ 1095 ∷ 1077 ∷ 1090 ∷ 41 ∷ []

abbrev pub or_empty : List ℕ → List ℕ
or_empty [] = empty_text
or_empty (c ∷ cs) = c ∷ cs

-- `rfind("\n")`
unfoldable pub last_newline : List ℕ → Option ℕ
last_newline [] = none
last_newline (c ∷ cs) = elim (last_newline cs) [
  | some i ↦ some (i + 1)
  | none ↦ if c == 10 then some 0 else none
]

abbrev pub cut_at : ℕ → Option ℕ → ℕ
cut_at maximum none = maximum
cut_at maximum (some i) = i + 1

-- `end - offset`, for the text from the offset on
unfoldable pub part_length : ℕ → List ℕ → ℕ
part_length maximum rest =
    if leb (length rest) maximum
    then length rest
    else cut_at maximum (last_newline (take maximum rest))

-- the loop of `_split_payload`, for at most so many parts
unfoldable pub split_within : ℕ → ℕ → List ℕ → List (List ℕ)
split_within zero maximum rest = []
split_within (suc fuel) maximum [] = []
split_within (suc fuel) maximum (c ∷ cs) =
    let n = part_length maximum (c ∷ cs) in
    take n (c ∷ cs) ∷ split_within fuel maximum (drop n (c ∷ cs))

-- `_split_payload`: each part takes a character, so that there are no more parts than characters
unfoldable pub split_payload : ℕ → List ℕ → List (List ℕ)
unfolding split_within
split_payload maximum text = split_within (length text) maximum text

-- `str` of a number
unfoldable pub digits_within : ℕ → ℕ → List ℕ
digits_within zero n = (48 + n) ∷ []
digits_within (suc fuel) n = elim (ltb n 10) [
  | true ↦ (48 + n) ∷ []
  | false ↦ digits_within fuel (n / 10) ++ ((48 + n % 10) ∷ [])
]

abbrev pub digits : ℕ → List ℕ
digits n = digits_within n n

-- f"[{index}/{count}]\n"
unfoldable pub mark : ℕ → ℕ → List ℕ
unfolding digits_within
mark index count = b'[' ∷ (digits index ++ (b'/' ∷ (digits count ++ (b']' ∷ 10 ∷ []))))

-- the list of the marked parts, from an index on
unfoldable pub mark_from : ℕ → ℕ → List (List ℕ) → List (List ℕ)
unfolding mark
mark_from index count [] = []
mark_from index count (part ∷ parts) =
    (mark index count ++ part) ∷ mark_from (index + 1) count parts

-- the chunks, or `ValueError`
pub data Chunked : Type 0 where
  chunked : List (List ℕ) → Chunked
  too_small unfinished : Chunked

-- `while True`
unfoldable pub chunk_from : ℕ → ℕ → List ℕ → ℕ → Chunked
unfolding split_payload mark_from
chunk_from zero limit text expected = unfinished
chunk_from (suc fuel) limit text expected =
    let overhead = length (mark expected expected) in
    let parts = split_payload (limit - overhead) text in
    elim (ltb overhead limit) [
      | false ↦ too_small
      | true ↦ elim (length (digits (length parts)) == length (digits expected)) [
        | true ↦ chunked (mark_from 1 (length parts) parts)
        | false ↦ chunk_from fuel limit text (length parts)
      ]
    ]

unfoldable pub chunk_cleaned : ℕ → List ℕ → Chunked
unfolding chunk_from
chunk_cleaned limit text =
    if ltb limit 16
    then too_small
    else if leb (length text) limit
    then chunked (text ∷ [])
    else chunk_from limit limit text 2

-- `chunk_message`
unfoldable pub chunk_message : (ℕ → Bool) → ℕ → List ℕ → Chunked
unfolding chunk_cleaned clean_message
chunk_message shown limit message = chunk_cleaned limit (or_empty (clean_message shown message))
