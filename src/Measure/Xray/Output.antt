-- ===== src/Measure/Xray/Output.antt =====
-- The bounded output is the start of what the process wrote, and tells whether there was more.
use lite_checker.Prelude.{
  ℕ, zero, suc, ◌-◌, ◌≡◌, refl, subst, false, ◌||◌, List, [], ◌∷◌, ◌++◌, ltb, length, take,
  length-append, length-take, arith, concat,
}
use mathlib.Core.List.{append_assoc, append-nil}
use lite_checker.Measure.Xray.{bounded_version_output}

take-nil : (n : ℕ) → take {A = ℕ} n [] ≡ []
take-nil zero = refl
take-nil (suc n) = refl

take-append : (n : ℕ) (xs ys : List ℕ) → take n (xs ++ ys) ≡ take n xs ++ take (n - length xs) ys
take-append n [] ys = let same : n - 0 ≡ n = omega arith in rw (take-nil n, same) refl
take-append zero (x ∷ xs) ys = let same : 0 - suc (length xs) ≡ 0 = omega arith in rw same refl
take-append (suc n) (x ∷ xs) ys =
    let same : suc n - suc (length xs) ≡ n - length xs = omega arith in
    rw (same, take-append n xs ys) refl

bounded-loop :
    (limit : ℕ) (written : List ℕ) (chunks : List (List ℕ))
    → bounded_version_output limit (take limit written) (ltb limit (length written)) chunks
      ≡ (take limit (written ++ concat chunks), ltb limit (length (written ++ concat chunks)))
unfolding bounded_version_output
bounded-loop limit written [] = rw (append-nil written) refl
bounded-loop limit written (c ∷ cs) =
    let room : limit - length (take limit written) ≡ limit - length written =
      omega (arith, length-take limit written) in
    let flag : (ltb limit (length written) || ltb (limit - length written) (length c))
        ≡ ltb limit (length (written ++ c)) =
      ground (arith, length-append written c) in
    rw (room, ← take-append limit written c)
      (rw flag (rw (← append_assoc written c (concat cs)) (bounded-loop limit (written ++ c) cs)))

-- Under any limit and for chunks however cut, the body is the first bytes of the whole output,
-- up to the limit, and the overflow says exactly whether the output was longer.
pub bounded_version_output-take :
    (limit : ℕ) (chunks : List (List ℕ))
    → bounded_version_output limit [] false chunks
      ≡ (take limit (concat chunks), ltb limit (length (concat chunks)))
bounded_version_output-take limit chunks =
    let none_over : ltb limit 0 ≡ false = ground arith in
    subst
      (λ w.
        bounded_version_output limit w false chunks
        ≡ (take limit (concat chunks), ltb limit (length (concat chunks))))
      (take-nil limit)
      (subst
        (λ t.
          bounded_version_output limit (take limit []) t chunks
          ≡ (take limit (concat chunks), ltb limit (length (concat chunks))))
        none_over (bounded-loop limit [] chunks))
