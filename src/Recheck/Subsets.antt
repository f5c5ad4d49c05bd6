-- ===== src/Recheck/Subsets.antt =====
-- Sets of target ids, and what `_uncertain` does to them.
use lite_checker.Prelude.{
  String, true, List, [], ◌∷◌, ◌≡◌, inl, inr, refl, ap, subst, arith, map, contains, string_eq,
  eq_iff, All, Some,
}
use lite_checker.Models.{ProbeResult, ProbeStage, ResultStatus, up, down, unknown, status_beq}
use lite_checker.Recheck.{uncertain, subset, withdraw, ids}

pub All-Some :
    {A : Type 0} (P : A → Type 0) (xs : List A) (y : A) → All P xs → Some (λ x. x ≡ y) xs → P y
All-Some P [] y h m = elim m [ ]
All-Some P (x ∷ xs) y h (inl e) = subst P e h.0
All-Some P (x ∷ xs) y h (inr m) = All-Some P xs y h.1 m

pub All-of_Some :
    {A : Type 0} (P : A → Type 0) (xs : List A) → ((y : A) → Some (λ x. x ≡ y) xs → P y) → All P xs
All-of_Some P [] h = tt
All-of_Some P (x ∷ xs) h = (h x (inl refl), All-of_Some P xs (λ y m. h y (inr m)))

pub contains_mono :
    (i : String) (xs ys : List String)
    → subset xs ys ≡ true
    → contains xs i ≡ true
    → contains ys i ≡ true
unfolding subset
contains_mono i [] ys h e = absurd (cc e)
contains_mono i (x ∷ xs) ys h e = ground (arith, eq_iff x i, contains_mono i xs ys)

subset_weaken : (x : String) (xs ys : List String) → subset xs ys ≡ true → subset xs (x ∷ ys) ≡ true
unfolding subset
subset_weaken x [] ys h = refl
subset_weaken x (z ∷ xs) ys h = ground (arith, subset_weaken x xs ys)

pub subset_refl : (xs : List String) → subset xs xs ≡ true
unfolding subset
subset_refl [] = refl
subset_refl (x ∷ xs) = ground (arith, eq_iff x x, subset_weaken x xs xs (subset_refl xs))

pub ids-map-uncertain :
    (stage : ProbeStage) (code : String) (rs : List ProbeResult)
    → ids (map (uncertain stage code) rs) ≡ ids rs
unfolding uncertain
ids-map-uncertain stage code [] = refl
ids-map-uncertain stage code (r ∷ rest) =
    ap (λ l. r.target_id ∷ l) (ids-map-uncertain stage code rest)

pub ids-withdraw :
    (stage : ProbeStage) (code : String) (rs : List ProbeResult)
    → ids (withdraw stage code rs) ≡ ids rs
unfolding withdraw uncertain
ids-withdraw stage code [] = refl
ids-withdraw stage code (r ∷ rest) = ground (arith, ids-withdraw stage code rest)

pub status_beq_iff : (s : ResultStatus) → s ≡ down → status_beq s down ≡ true
status_beq_iff up e = absurd (cc e)
status_beq_iff down e = refl
status_beq_iff unknown e = absurd (cc e)
