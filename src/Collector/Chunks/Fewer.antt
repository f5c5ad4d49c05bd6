-- ===== src/Collector/Chunks/Fewer.antt =====
-- Larger parts are not more of them, although a part ends with a line where it can.
use lite_checker.Prelude.{
  ℕ, zero, suc, ◌+◌, ◌-◌, ◌≤◌, ◌<◌, ◌≡◌, refl, ap, sym, ◌∙◌, subst, true, false, Option, none, some,
  List, [], ◌∷◌, length, take, drop, length-take, length-drop, leb, ltb, Bool-cases, inl, inr,
  arith,
}
use lite_checker.Collector.Chunks.{last_newline, cut_at, part_length, split_within}
use lite_checker.Collector.Chunks.Newlines.{
  newline_at, newline_at-lt, newline_at-take, newline_at-drop, last_newline-at, newline_at-last,
}
use lite_checker.Collector.Chunks.Parts.{part_length-IsCut}

module _ (small large : ℕ) (le : small ≤ large) (xs : List ℕ) (j : ℕ) where
  -- a newline that ends the small part is not behind the end of the large one
  reached :
      (i : ℕ)
      → newline_at xs i ≡ true
      → i < small
      → j ≤ i
      → i + 1 ≤ j + cut_at large (last_newline (take large (drop j xs)))
  reached i at inside from =
      let place : j + (i - j) ≡ i = omega arith in
      let here : newline_at (take large (drop j xs)) (i - j) ≡ true =
        newline_at-take large (drop j xs) (i - j) (omega arith)
        ∙ newline_at-drop j xs (i - j)
        ∙ ap (newline_at xs) place
        ∙ at in
      let (k, e, far) = newline_at-last (take large (drop j xs)) (i - j) here in rw e (omega arith)

  -- without a newline in the small part, the large one ends behind it
  passed :
      (last : Option ℕ)
      → last_newline (take small xs) ≡ none
      → last_newline (take large (drop j xs)) ≡ last
      → small ≤ j + cut_at large last
  passed none bare e = omega arith
  passed (some i) bare e = elim (Bool-cases (ltb (j + i) small)) [
    | inr t ↦ ground (arith, t)
    | inl t ↦
        let inside : i < large = ground (arith, t) in
        let here : newline_at xs (j + i) ≡ true =
          sym (newline_at-drop j xs i)
          ∙ sym (newline_at-take large (drop j xs) i inside)
          ∙ last_newline-at (take large (drop j xs)) i e in
        let (k, f, far) =
          newline_at-last (take small xs) (j + i)
            (newline_at-take small xs (j + i) (ground (arith, t)) ∙ here) in
        absurd (cc (bare, f))
  ]

  cut_ahead :
      (last : Option ℕ)
      → last_newline (take small xs) ≡ last
      → cut_at small last ≤ j + cut_at large (last_newline (take large (drop j xs)))
  cut_ahead none e = passed _ e refl
  cut_ahead (some i) e =
      let at = last_newline-at (take small xs) i e in
      let short = newline_at-lt (take small xs) i at in
      let size = length-take small xs in
      let inside : i < small = omega arith in
      elim (Bool-cases (ltb i j)) [
        | inl t ↦ ground (arith, t)
        | inr t ↦
            reached i (sym (newline_at-take small xs i inside) ∙ at) inside (ground (arith, t))
      ]

  part_length-ahead :
      part_length small xs ≤ length xs → part_length small xs ≤ j + part_length large (drop j xs)
  unfolding part_length
  part_length-ahead inside =
      let left = length-drop j xs in
      elim (Bool-cases (leb (length (drop j xs)) large)) [
        | inl t ↦ rw t (omega arith)
        | inr t ↦
            let over : leb (length xs) small ≡ false = ground (arith, t) in
            rw (t, over) (cut_ahead _ refl)
      ]

drop-nil : (n : ℕ) → drop {A = ℕ} n [] ≡ []
drop-nil zero = refl
drop-nil (suc n) = refl

drop-drop : (m n : ℕ) (xs : List ℕ) → drop m (drop n xs) ≡ drop (n + m) xs
drop-drop m zero xs = let same : 0 + m ≡ m = omega arith in rw same refl
drop-drop m (suc n) [] = rw (drop-nil m, drop-nil (suc n + m)) refl
drop-drop m (suc n) (x ∷ xs) =
    let same : suc n + m ≡ suc (n + m) = omega arith in rw same (drop-drop m n xs)

-- from any place on, larger parts are at most as many
pub split_within-fewer :
    (k l small large j : ℕ) (xs ys : List ℕ)
    → 1 ≤ small
    → small ≤ large
    → length xs ≤ k
    → drop j xs ≡ ys
    → length (split_within l large ys) ≤ length (split_within k small xs)
unfolding split_within
split_within-fewer k zero small large j xs ys h le enough e = omega arith
split_within-fewer k (suc l) small large j xs [] h le enough e = omega arith
split_within-fewer k (suc l) small large j [] (y ∷ ys) h le enough e = absurd (cc (e, drop-nil j))
split_within-fewer zero (suc l) small large j (x ∷ xs) (y ∷ ys) h le enough e = absurd (omega arith)
split_within-fewer (suc k) (suc l) small large j (x ∷ xs) (y ∷ ys) h le enough e =
    let n = part_length small (x ∷ xs) in
    let m = part_length large (y ∷ ys) in
    let (some_of, inside, fits) = part_length-IsCut small x xs h in
    let ahead : n ≤ j + m =
      subst (λ zs. n ≤ j + part_length large zs) e
        (part_length-ahead small large le (x ∷ xs) j inside) in
    let left = length-drop n (x ∷ xs) in
    let place : n + ((j + m) - n) ≡ j + m = omega arith in
    let rest : drop ((j + m) - n) (drop n (x ∷ xs)) ≡ drop m (y ∷ ys) =
      drop-drop ((j + m) - n) n (x ∷ xs)
      ∙ ap (λ i. drop i (x ∷ xs)) place
      ∙ sym (drop-drop m j (x ∷ xs))
      ∙ ap (drop m) e in
    let fewer =
      split_within-fewer k l small large ((j + m) - n) (drop n (x ∷ xs)) (drop m (y ∷ ys)) h le
        (omega arith) rest in
    omega arith
