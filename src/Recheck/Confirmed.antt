-- ===== src/Recheck/Confirmed.antt =====
-- The results of `confirm_failures`, and what stands behind a DOWN among them.
use lite_checker.Prelude.{
  true, List, [], ◌∷◌, ◌≡◌, refl, subst, keep, contains, string_eq, All, Outcome, returned,
}
use lite_checker.Models.{TargetConfig, ProbeResult, down}
use lite_checker.Probe.{ControlResult}
use lite_checker.Recheck.{
  Pass, is_down, subset, second_pass, replace_results, Confirmation, finish, confirm_first,
  confirm_failures, ids,
}
use lite_checker.Recheck.Subsets.{All-of_Some, contains_mono}
use lite_checker.Recheck.Controlled.{IsConfirmed, Closed, second_pass-Closed}
use lite_checker.Recheck.Replaced.{
  Kept, Kept-refl, attempts_total, down_kept, replace_results-DownIs, replace_results-Kept,
}

-- The attempts, and the replacement of the results, for a closed second pass.
module _ (p : Pass) (targets : List TargetConfig) (results : List ProbeResult)
    (control : ControlResult) where
  abbrev first : List ProbeResult
  first = keep is_down results

  covered :
      (second : List ProbeResult)
      → subset (ids first) (ids second) ≡ true
      → All (λ r. r.status ≡ down → contains (ids second) r.target_id ≡ true) results
  covered second h =
      All-of_Some _ results
        (λ r m d. contains_mono r.target_id (ids first) (ids second) h (down_kept results r m d))

  abbrev Confirms : List ProbeResult → Outcome Confirmation → Type 0
  Confirms f o =
      (c : Confirmation) × (o ≡ returned c)
      × Kept (ids f) results c.results
      × All (λ r. r.status ≡ down → IsConfirmed p targets f control r) c.results

  finish-Closed :
      (pass : List ProbeResult × ControlResult)
      → Closed (IsConfirmed p targets first control) first pass
      → (c : Confirmation) × (finish results first pass ≡ returned c)
        × Kept (ids first) results c.results
        × All (λ r. r.status ≡ down → IsConfirmed p targets first control r) c.results
  unfolding finish
  finish-Closed (second, last) h =
      let (log, e) = attempts_total second first h.0.0 in
      (
        record { results = replace_results second results; control = last; attempts = log },
        rw (e, finish),
        replace_results-Kept second (ids first) results h.0.1,
        replace_results-DownIs second (IsConfirmed p targets first control) results h.1
            (covered second h.0.0),
      )

  confirm_first-IsConfirmed :
      (f : List ProbeResult)
      → first ≡ f
      → (c : Confirmation) × (confirm_first p targets results control f ≡ returned c)
        × Kept (ids first) results c.results
        × All (λ r. r.status ≡ down → IsConfirmed p targets first control r) c.results
  unfolding confirm_first
  confirm_first-IsConfirmed [] e = (
    record { results = results; control = control; attempts = [] },
    refl,
    Kept-refl (ids first) results,
    All-of_Some _ results (λ r m d. absurd (cc (down_kept results r m d))),
  )
  confirm_first-IsConfirmed (x ∷ rest) e =
      subst (λ f. Confirms first (finish results f (second_pass p targets f control))) e
        (finish-Closed (second_pass p targets first control)
          (second_pass-Closed p targets first control))

  -- The confirmation pass always returns (no result is missing from its log). The results keep their
  -- targets and their order, and those of targets that did not fail are unchanged. Every target that
  -- it leaves DOWN was seen DOWN by the second probe, in time, with the agent's own network found
  -- working before the first probe, before the second and after it.
  pub confirm_failures-IsConfirmed :
      (c : Confirmation) × (confirm_failures p targets results control ≡ returned c)
      × Kept (ids first) results c.results
      × All (λ r. r.status ≡ down → IsConfirmed p targets first control r) c.results
  unfolding confirm_failures
  confirm_failures-IsConfirmed = confirm_first-IsConfirmed first refl
