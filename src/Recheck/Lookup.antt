-- ===== src/Recheck/Lookup.antt =====
-- The dictionaries of recheck.py, keyed by the target id; of two entries the later one counts.
use lite_checker.Prelude.{
  String, true, false, Option, none, some, List, [], ◌∷◌, ◌≡◌, refl, arith, eq_iff, string_eq, ◌==◌,
  if◌then◌else◌, contains, Some, inl, inr, Bool-cases, ◌⊎◌, ◌∙◌,
}
use lite_checker.Models.{TargetConfig, ProbeResult}

abbrev pub ids : List ProbeResult → List String
ids [] = []
ids (r ∷ rest) = r.target_id ∷ ids rest

-- `{t.target_id: t for t in targets}.get(i)`
unfoldable pub find_target : List TargetConfig → String → Option TargetConfig
find_target [] i = none
find_target (t ∷ rest) i = elim (find_target rest i) [
  | some u ↦ some u
  | none ↦ if t.target_id == i then some t else none
]

-- `{r.target_id: r for r in results}.get(i)`
unfoldable pub find_result : List ProbeResult → String → Option ProbeResult
find_result [] i = none
find_result (r ∷ rest) i = elim (find_result rest i) [
  | some s ↦ some s
  | none ↦ if r.target_id == i then some r else none
]

-- What is found stands in the list, and has the id.
pub find_result-eq_some :
    (rs : List ProbeResult) (i : String) (s : ProbeResult)
    → find_result rs i ≡ some s
    → Some (λ x. x ≡ s) rs × (s.target_id ≡ i)
unfolding find_result
find_result-eq_some [] i s e = cc
find_result-eq_some (r ∷ rest) i s e = go (find_result rest i) refl (find_result-eq_some rest i s) e
  where
    go :
        (o : Option ProbeResult)
        → find_result rest i ≡ o
        → (find_result rest i ≡ some s → Some (λ x. x ≡ s) rest × (s.target_id ≡ i))
        → elim o [ some x ↦ some x | none ↦ if r.target_id == i then some r else none ] ≡ some s
        → Some (λ x. x ≡ s) (r ∷ rest) × (s.target_id ≡ i)
    go (some x) f ih e = let (here, same) = ih (f ∙ e) in (inr here, same)
    go none f ih e =
        let same : r ≡ s = ground (arith, eq_iff r.target_id i) in
        (inl same, ground (arith, eq_iff r.target_id i))

-- An id of the list is found.
pub find_result-contains :
    (rs : List ProbeResult) (i : String)
    → contains (ids rs) i ≡ true
    → (s : ProbeResult) × (find_result rs i ≡ some s)
unfolding find_result
find_result-contains [] i h = absurd (cc h)
find_result-contains (r ∷ rest) i h =
    go (find_result rest i) (Bool-cases (r.target_id == i)) (λ c. find_result-contains rest i c)
      refl
  where
    go :
        (o : Option ProbeResult)
        → ((r.target_id == i) ≡ true) ⊎ ((r.target_id == i) ≡ false)
        → (contains (ids rest) i ≡ true → (s : ProbeResult) × (find_result rest i ≡ some s))
        → find_result rest i ≡ o
        → (s : ProbeResult) × (elim o [
          | some x ↦ some x
          | none ↦ if r.target_id == i then some r else none
        ]
            ≡ some s)
    go (some x) d ih f = (x, refl)
    go none (inl y) ih f = (r, rw y)
    go none (inr y) ih f = absurd (let (s, g) = ih (ground arith) in cc (f, g))
