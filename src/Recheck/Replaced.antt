-- ===== src/Recheck/Replaced.antt =====
-- The results after the second ones have taken the place of the failures.
use lite_checker.Prelude.{
  String, true, false, Option, none, some, List, [], ◌∷◌, ◌≡◌, inl, inr, refl, ap, ◌∙◌, arith, keep,
  contains, string_eq, eq_iff, All, Some, returned,
}
use lite_checker.Models.{ProbeResult, down}
use lite_checker.Recheck.Lookup.{find_result-eq_some, find_result-contains}
use lite_checker.Recheck.{is_down, subset, replacement, replace_results, attempts, ids, find_result}
use lite_checker.Recheck.Subsets.{All-Some, contains_mono, status_beq_iff}
use lite_checker.Recheck.Controlled.{DownIs}

-- the log of the attempts finds every second result
pub attempts_total :
    (second first : List ProbeResult)
    → subset (ids first) (ids second) ≡ true
    → (log : List (ProbeResult × ProbeResult)) × (attempts second first ≡ returned log)
unfolding attempts subset
attempts_total second [] h = ([], refl)
attempts_total second (r ∷ rest) h =
    let (s, e) = find_result-contains second r.target_id (ground arith) in
    let (log, f) = attempts_total second rest (ground arith) in
    ((r, s) ∷ log, rw (e, attempts) (rw (f, attempts) refl))

pub down_kept :
    (results : List ProbeResult) (r : ProbeResult)
    → Some (λ x. x ≡ r) results
    → r.status ≡ down
    → contains (ids (keep is_down results)) r.target_id ≡ true
down_kept [] r m d = elim m [ ]
down_kept (x ∷ rest) r (inl e) d =
    rw (status_beq_iff x.status (ap (λ (y : ProbeResult). y.status) e ∙ d))
      (ground (arith, eq_iff x.target_id r.target_id, ap (λ (y : ProbeResult). y.target_id) e))
down_kept (x ∷ rest) r (inr m) d = ground (arith, down_kept rest r m d)

module _ (second : List ProbeResult) where
  replace_one-DownIs :
      (P : ProbeResult → Type 0) (r : ProbeResult)
      → DownIs P second
      → (r.status ≡ down → contains (ids second) r.target_id ≡ true)
      → (o : Option ProbeResult) → find_result second r.target_id ≡ o
      → (replacement o r).status ≡ down
      → P (replacement o r)
  replace_one-DownIs P r h covered none e d =
      absurd (let (s, f) = find_result-contains second r.target_id (covered d) in cc (e, f))
  replace_one-DownIs P r h covered (some s) e d =
      All-Some (λ x. x.status ≡ down → P x) second s h
        (find_result-eq_some second r.target_id s e).0 d

  pub replace_results-DownIs :
      (P : ProbeResult → Type 0) (results : List ProbeResult)
      → DownIs P second
      → All (λ r. r.status ≡ down → contains (ids second) r.target_id ≡ true) results
      → DownIs P (replace_results second results)
  unfolding replace_results
  replace_results-DownIs P [] h covered = tt
  replace_results-DownIs P (r ∷ rest) h covered = (
    replace_one-DownIs P r h covered.0 (find_result second r.target_id) refl,
    replace_results-DownIs P rest h covered.1,
  )

-- Position by position, a result keeps its target, and stays as it was unless that target failed.
abbrev pub Kept : List String → List ProbeResult → List ProbeResult → Type 0
Kept failed [] [] = Unit
Kept failed (r ∷ rs) (s ∷ ss) =
    (s.target_id ≡ r.target_id) × (contains failed r.target_id ≡ false → s ≡ r) × Kept failed rs ss
Kept failed _ _ = ⊥

pub Kept-refl : (failed : List String) (rs : List ProbeResult) → Kept failed rs rs
Kept-refl failed [] = tt
Kept-refl failed (r ∷ rs) = (refl, λ h. refl, Kept-refl failed rs)

found-contains :
    (rs : List ProbeResult) (s : ProbeResult)
    → Some (λ x. x ≡ s) rs
    → contains (ids rs) s.target_id ≡ true
found-contains [] s m = elim m [ ]
found-contains (x ∷ rest) s (inl e) =
    ground (arith, eq_iff x.target_id s.target_id, ap (λ (y : ProbeResult). y.target_id) e)
found-contains (x ∷ rest) s (inr m) = ground (arith, found-contains rest s m)

module _ (second : List ProbeResult) (failed : List String) where
  replacement-id :
      (r : ProbeResult) (o : Option ProbeResult)
      → find_result second r.target_id ≡ o
      → (replacement o r).target_id ≡ r.target_id
  replacement-id r none e = refl
  replacement-id r (some s) e = (find_result-eq_some second r.target_id s e).1

  replacement-eq :
      (r : ProbeResult) (o : Option ProbeResult)
      → subset (ids second) failed ≡ true
      → find_result second r.target_id ≡ o
      → contains failed r.target_id ≡ false
      → replacement o r ≡ r
  replacement-eq r none h e c = refl
  replacement-eq r (some s) h e c =
      let (m, same) = find_result-eq_some second r.target_id s e in
      absurd (
        cc (
          contains_mono s.target_id (ids second) failed h (found-contains second s m),
          ap (contains failed) same,
        ))

  pub replace_results-Kept :
      (results : List ProbeResult)
      → subset (ids second) failed ≡ true
      → Kept failed results (replace_results second results)
  unfolding replace_results
  replace_results-Kept [] h = tt
  replace_results-Kept (r ∷ rest) h = (
    replacement-id r (find_result second r.target_id) refl,
    replacement-eq r (find_result second r.target_id) h refl,
    replace_results-Kept rest h,
  )
