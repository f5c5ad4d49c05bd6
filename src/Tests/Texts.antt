-- ===== src/Tests/Texts.antt =====
-- A text of two lines that is longer than a message.
use lite_checker.Prelude.{ℕ, zero, suc, ◌≡◌, refl, Bool, true, List, [], ◌∷◌, ◌++◌}
use lite_checker.Collector.Chunks.{
  chunked, chunk_message, clean_message, or_empty, join_crlf, chunk_cleaned, chunk_from,
  split_payload, split_within, part_length, last_newline, mark_from, mark, digits_within,
}
use lite_checker.Collector.Chunks.Total.{IsChunked, chunk_message-IsChunked}

abbrev many : ℕ → List ℕ
many zero = []
many (suc n) = 97 ∷ many n

abbrev shows : ℕ → Bool
shows c = true

-- eight letters, the end of a line, and twelve letters
abbrev two_lines : List ℕ
two_lines = many 8 ++ (13 ∷ 10 ∷ many 12)

-- the first part ends with the line; the rest is cut at ten characters
abbrev three_chunks : List (List ℕ)
three_chunks =
    (91 ∷ 49 ∷ 47 ∷ 51 ∷ 93 ∷ 10 ∷ (many 8 ++ (10 ∷ [])))
    ∷ (91 ∷ 50 ∷ 47 ∷ 51 ∷ 93 ∷ 10 ∷ many 10)
    ∷ (91 ∷ 51 ∷ 47 ∷ 51 ∷ 93 ∷ 10 ∷ many 2)
    ∷ []

two_lines-cut : chunk_message shows 16 two_lines ≡ chunked three_chunks
unfolding chunk_message clean_message join_crlf chunk_cleaned chunk_from split_payload split_within
    part_length last_newline mark_from mark digits_within
two_lines-cut = refl

chunk_message-IsChunked_example :
    IsChunked 16 (or_empty (clean_message shows two_lines)) (chunk_message shows 16 two_lines)
chunk_message-IsChunked_example = chunk_message-IsChunked shows 16 two_lines
