-- ===== src/Collector/Chunks/Parts.antt =====
-- The parts of a text: together they are the text, and each of them fits.
use lite_checker.Prelude.{
  ℕ, zero, suc, ◌≤◌, ◌<◌, ◌≡◌, refl, ap, ◌∙◌, Option, none, some, List, [], ◌∷◌, ◌++◌, length, take,
  drop, length-take, length-drop, leb, Bool-cases, inl, inr, arith, All, concat,
}
use lite_checker.Collector.Chunks.{last_newline, cut_at, part_length, split_within}
use lite_checker.Collector.Chunks.Newlines.{newline_at-lt, last_newline-at}

-- a part takes a character, at most what is left, and fits
abbrev pub IsCut : ℕ → List ℕ → ℕ → Type 0
IsCut maximum rest n = (1 ≤ n) × (n ≤ length rest) × (n ≤ maximum)

cut_at-IsCut :
    (maximum : ℕ) (rest : List ℕ) (last : Option ℕ)
    → last_newline (take maximum rest) ≡ last
    → 1 ≤ maximum
    → maximum < length rest
    → IsCut maximum rest (cut_at maximum last)
cut_at-IsCut maximum rest none e h big = (h, omega arith, omega arith)
cut_at-IsCut maximum rest (some i) e h big =
    let inside = newline_at-lt (take maximum rest) i (last_newline-at (take maximum rest) i e) in
    let size = length-take maximum rest in (omega arith, omega arith, omega arith)

pub part_length-IsCut :
    (maximum c : ℕ) (cs : List ℕ)
    → 1 ≤ maximum
    → IsCut maximum (c ∷ cs) (part_length maximum (c ∷ cs))
unfolding part_length
part_length-IsCut maximum c cs h = elim (Bool-cases (leb (length (c ∷ cs)) maximum)) [
  | inl t ↦ rw t (omega arith, omega arith, ground arith)
  | inr t ↦ rw t (cut_at-IsCut maximum (c ∷ cs) _ refl h (ground arith))
]

abbrev pub Fits : ℕ → List ℕ → Type 0
Fits maximum part = (1 ≤ length part) × (length part ≤ maximum)

pub take-drop : (n : ℕ) (xs : List ℕ) → take n xs ++ drop n xs ≡ xs
take-drop zero xs = refl
take-drop (suc n) [] = refl
take-drop (suc n) (x ∷ xs) = ap (λ ys. x ∷ ys) (take-drop n xs)

pub split_within-whole :
    (fuel maximum : ℕ) (rest : List ℕ)
    → 1 ≤ maximum
    → length rest ≤ fuel
    → (concat (split_within fuel maximum rest) ≡ rest)
      × All (Fits maximum) (split_within fuel maximum rest)
      × (length (split_within fuel maximum rest) ≤ length rest)
unfolding split_within
split_within-whole zero maximum [] h enough = (refl, tt, omega arith)
split_within-whole zero maximum (c ∷ cs) h enough = absurd (omega arith)
split_within-whole (suc fuel) maximum [] h enough = (refl, tt, omega arith)
split_within-whole (suc fuel) maximum (c ∷ cs) h enough =
    let n = part_length maximum (c ∷ cs) in
    let (some_of, inside, fits) = part_length-IsCut maximum c cs h in
    let left = length-drop n (c ∷ cs) in
    let size = length-take n (c ∷ cs) in
    let (whole, all, fewer) = split_within-whole fuel maximum (drop n (c ∷ cs)) h (omega arith) in
    (
      ap (λ ys. take n (c ∷ cs) ++ ys) whole ∙ take-drop n (c ∷ cs),
      ((omega arith, omega arith), all),
      omega arith,
    )
