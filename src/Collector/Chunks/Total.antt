-- ===== src/Collector/Chunks/Total.antt =====
-- Cutting a text always ends, with chunks that fit.
use lite_checker.Prelude.{
  ℕ, zero, suc, ◌+◌, ◌-◌, ◌*◌, ◌/◌, ◌%◌, ◌≤◌, ◌<◌, ◌≡◌, ◌⊎◌, refl, Bool, true, false, List, [], ◌∷◌,
  ◌++◌, length, length-append, leb, ltb, nat_eq, ◌==◌, nat_beq_iff, Bool-cases, inl, inr, arith,
  All, concat,
}
use lite_checker.Collector.Chunks.{
  digits_within, digits, mark, mark_from, split_payload, Chunked, chunked, too_small, unfinished,
  chunk_from, chunk_cleaned, chunk_message, or_empty, clean_message,
}
use lite_checker.Collector.Chunks.Parts.{Fits, split_within-whole}
use lite_checker.Collector.Chunks.Fewer.{split_within-fewer}

digits_within-some : (k n : ℕ) → 1 ≤ length (digits_within k n)
unfolding digits_within
digits_within-some zero n = omega arith
digits_within-some (suc k) n = elim (Bool-cases (ltb n 10)) [
  | inl t ↦ rw (t, digits_within) (omega arith)
  | inr t ↦
      rw (t, digits_within)
        (omega (arith, length-append (digits_within k (n / 10)) ((48 + n % 10) ∷ [])))
]

digits_within-longer :
    (k l m n : ℕ) → m ≤ n → m ≤ k → n ≤ l → length (digits_within k m) ≤ length (digits_within l n)
unfolding digits_within
digits_within-longer zero l m n h a b = digits_within-some l n
digits_within-longer (suc k) zero m n h a b =
    let small : m ≡ 0 = omega arith in rw small (omega arith)
digits_within-longer (suc k) (suc l) m n h a b = elim (Bool-cases (ltb m 10)) [
  | inl t ↦ rw (t, digits_within) (digits_within-some (suc l) n)
  | inr t ↦
      let big : ltb n 10 ≡ false = ground (arith, t) in
      let rest =
        digits_within-longer k l (m / 10) (n / 10) (omega arith) (ground (arith, t))
          (ground (arith, t)) in
      rw (t, big, digits_within)
        (omega (
          arith,
          length-append (digits_within k (m / 10)) ((48 + m % 10) ∷ []),
          length-append (digits_within l (n / 10)) ((48 + n % 10) ∷ []),
        ))
]

abbrev pub width : ℕ → ℕ
width n = length (digits n)

width_mono : (m n : ℕ) → m ≤ n → width m ≤ width n
width_mono m n h = digits_within-longer m n m n h (omega arith) (omega arith)

length-mark : (i n : ℕ) → length (mark i n) ≡ 4 + width i + width n
unfolding mark
length-mark i n = omega (
  arith,
  length-append (digits i) (b'/' ∷ (digits n ++ (b']' ∷ 10 ∷ []))),
  length-append (digits n) (b']' ∷ 10 ∷ []),
)

mark_from-Fits :
    (i n maximum limit : ℕ) (parts : List (List ℕ))
    → All (Fits maximum) parts
    → 4 + 2 * width n + maximum ≤ limit
    → i + length parts ≤ n + 1
    → All (Fits limit) (mark_from i n parts)
unfolding mark_from
mark_from-Fits i n maximum limit [] h room within = tt
mark_from-Fits i n maximum limit (part ∷ parts) ((some_of, fits), h) room within =
    let marked = length-mark i n in
    let joined = length-append (mark i n) part in
    let narrow = width_mono i n (omega arith) in
    ((omega arith, omega arith), mark_from-Fits (i + 1) n maximum limit parts h room (omega arith))

-- Each chunk fits. They are the text alone, or parts of which the text is made, each marked with its
-- number and how many there are.
abbrev pub IsChunks : ℕ → List ℕ → List (List ℕ) → Type 0
IsChunks limit text cs =
    All (Fits limit) cs
    × ((cs ≡ text ∷ [])
        ⊎ ((parts : List (List ℕ)) × (cs ≡ mark_from 1 (length parts) parts)
            × (concat parts ≡ text)))

abbrev pub IsChunked : ℕ → List ℕ → Chunked → Type 0
IsChunked limit text (chunked cs) = IsChunks limit text cs
IsChunked limit text too_small = (limit < 16) ⊎ (limit < 2 * width (length text) + 5)
IsChunked limit text unfinished = ⊥

module _ (limit : ℕ) (text : List ℕ) (filled : 1 ≤ length text) where
  abbrev room : ℕ → ℕ
  room e = limit - length (mark e e)

  abbrev parts_of : ℕ → List (List ℕ)
  parts_of e = split_payload (room e) text

  -- the number of the parts is as wide as what was expected
  abbrev Wider : ℕ → Type 0
  Wider e = length (mark e e) < limit → width e ≤ width (length (parts_of e))

  Wider-again : (e : ℕ) → length (mark e e) < limit → Wider e → Wider (length (parts_of e))
  unfolding split_payload
  Wider-again e some_room wider more =
      let n = length (parts_of e) in
      let a = length-mark e e in
      let b = length-mark n n in
      let w = wider some_room in
      width_mono n (length (parts_of n)) (
        split_within-fewer (length text) (length text) (room n) (room e) 0 text text (omega arith)
          (omega arith) (omega arith) refl)

  finished :
      (e : ℕ)
      → length (mark e e) < limit
      → width (length (parts_of e)) ≡ width e
      → IsChunks limit text (mark_from 1 (length (parts_of e)) (parts_of e))
  unfolding split_payload
  finished e some_room same =
      let (whole, fit, fewer) =
        split_within-whole (length text) (room e) text (omega arith) (omega arith) in
      let a = length-mark e e in
      (
        mark_from-Fits 1 (length (parts_of e)) (room e) limit (parts_of e) fit (omega arith)
            (omega arith),
        inr (parts_of e, refl, whole),
      )

  narrow_again :
      (e : ℕ) → length (mark e e) < limit → width (length (parts_of e)) ≤ width (length text)
  unfolding split_payload
  narrow_again e some_room =
      let (whole, fit, fewer) =
        split_within-whole (length text) (room e) text (omega arith) (omega arith) in
      width_mono (length (parts_of e)) (length text) fewer

  chunk_from-IsChunked :
      (fuel e : ℕ)
      → width e ≤ width (length text)
      → limit + 1 ≤ fuel + width e
      → 1 ≤ fuel
      → Wider e
      → IsChunked limit text (chunk_from fuel limit text e)
  unfolding chunk_from split_payload
  chunk_from-IsChunked zero e narrow enough some_fuel wider = absurd (omega arith)
  chunk_from-IsChunked (suc fuel) e narrow enough some_fuel wider =
      let a = length-mark e e in
      elim (Bool-cases (ltb (length (mark e e)) limit)) [
        | inr t ↦ rw (t, chunk_from) (inr (ground (arith, t)))
        | inl t ↦
            rw (t, chunk_from)
              (elim (Bool-cases (width (length (parts_of e)) == width e)) [
                | inl u ↦ rw u (finished e (ground (arith, t)) ((nat_beq_iff _ _).0 u))
                | inr u ↦ rw u (
                    let some_room : length (mark e e) < limit = ground (arith, t) in
                    let wide = wider some_room in
                    let changed : ¬ (width (length (parts_of e)) ≡ width e) =
                      λ same. absurd (cc (u, (nat_beq_iff _ _).1 same)) in
                    chunk_from-IsChunked fuel (length (parts_of e)) (narrow_again e some_room)
                      (omega arith) (omega arith) (Wider-again e some_room wider))
              ])
      ]

one_digit : (n : ℕ) → n < 10 → width n ≡ 1
unfolding digits_within
one_digit zero h = refl
one_digit (suc n) h = let t : ltb (suc n) 10 ≡ true = ground arith in rw (t, digits_within) refl

width_two : (n : ℕ) → width 2 ≤ width n
width_two n =
    let least = digits_within-some n n in let two = one_digit 2 (omega arith) in omega arith

chunk_cleaned-IsChunked :
    (limit : ℕ) (text : List ℕ) → 1 ≤ length text → IsChunked limit text (chunk_cleaned limit text)
unfolding chunk_cleaned
chunk_cleaned-IsChunked limit text filled = elim (Bool-cases (ltb limit 16)) [
  | inl t ↦ rw t (inl (ground (arith, t)))
  | inr t ↦ rw t (elim (Bool-cases (leb (length text) limit)) [
    | inl u ↦ rw u (((filled, ground (arith, u)), tt), inl refl)
    | inr u ↦
        let two = one_digit 2 (omega arith) in
        let first = digits_within-some (length text) (length text) in
        rw u (
          chunk_from-IsChunked limit text filled limit 2 (omega arith) (omega arith)
            (ground (arith, t))
            (λ more. width_two (length (split_payload (limit - length (mark 2 2)) text))))
  ])
]

or_empty-some : (text : List ℕ) → 1 ≤ length (or_empty text)
or_empty-some [] = omega arith
or_empty-some (c ∷ cs) = omega arith

-- For each message and limit, cutting the message ends. It gives chunks of at least one and at most
-- `limit` characters: the cleaned text alone, or parts of which the cleaned text is made, in order,
-- each under its number and the number of all parts. It fails only for a limit below 16, or one that
-- has no room for the marks: below 5 and twice the digits of the text's length.
pub chunk_message-IsChunked :
    (shown : ℕ → Bool) (limit : ℕ) (message : List ℕ)
    → IsChunked limit (or_empty (clean_message shown message)) (chunk_message shown limit message)
unfolding chunk_message
chunk_message-IsChunked shown limit message =
    chunk_cleaned-IsChunked limit (or_empty (clean_message shown message))
      (or_empty-some (clean_message shown message))
