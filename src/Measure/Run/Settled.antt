-- ===== src/Measure/Run/Settled.antt =====
-- The status of a run against its reason, and what stands behind a run that is UP.
use lite_checker.Prelude.{
  ◌≡◌, ◌⊎◌, refl, String, Bool, true, false, ◌&&◌, Option, none, some, List, any_of, contains, inl,
  inr, string_eq, if◌then◌else◌,
}
use lite_checker.Models.{ProbeResult, ResultStatus, up, unknown, deadline, xray, agent_network}
use lite_checker.Probe.{ControlResult}
use lite_checker.Recheck.{Confirmation}
use lite_checker.Measure.Xray.{XrayVersion}
use lite_checker.Measure.Report.{run_reasons}
use lite_checker.Measure.Run.{
  unknown_at, reconcile_run_status, up_if, code_of, first_run, after_control, Verdict, verdict_of,
}

-- UP without a reason, or UNKNOWN with a known one
abbrev pub IsRun : ResultStatus × Option String → Type 0
IsRun (s, reason) =
    ((s ≡ up) × (reason ≡ none))
    ⊎ ((s ≡ unknown) × (code : String) × (reason ≡ some code) × (contains run_reasons code ≡ true))

-- what is UNKNOWN was refused by policy
abbrev pub IsComplete : List ProbeResult → Type 0
IsComplete rs =
    (any_of (unknown_at deadline) rs ≡ false)
    × (any_of (unknown_at xray) rs ≡ false)
    × (any_of (unknown_at agent_network) rs ≡ false)

-- the chain of tests, by their values
abbrev reconciled : (late broken lost : Bool) → ResultStatus × Option String
reconciled late broken lost =
    if late
    then (unknown, some "deadline")
    else if broken
    then (unknown, some "probe-incomplete")
    else if lost
    then (unknown, some "agent-network")
    else (up, none)

reconciled-IsRun :
    (a b c : Bool)
    → IsRun (reconciled a b c)
      × ((reconciled a b c).0 ≡ up → (a ≡ false) × (b ≡ false) × (c ≡ false))
reconciled-IsRun true b c = (inr (refl, _, refl, refl), λ h. absurd (cc h))
reconciled-IsRun false true c = (inr (refl, _, refl, refl), λ h. absurd (cc h))
reconciled-IsRun false false true = (inr (refl, _, refl, refl), λ h. absurd (cc h))
reconciled-IsRun false false false = (inl (refl, refl), λ h. (refl, refl, refl))

reconcile_run_status-IsRun :
    (rs : List ProbeResult) (s : ResultStatus) (reason : Option String)
    → IsRun (s, reason)
    → IsRun (reconcile_run_status rs s reason)
      × ((reconcile_run_status rs s reason).0 ≡ up → (s ≡ up) × IsComplete rs)
unfolding reconcile_run_status
reconcile_run_status-IsRun rs s reason (inl (e, n)) =
    let h =
      reconciled-IsRun (any_of (unknown_at deadline) rs) (any_of (unknown_at xray) rs)
        (any_of (unknown_at agent_network) rs) in
    rw (e, n) (h.0, λ u. (refl, h.1 u))
reconcile_run_status-IsRun rs s reason (inr (e, code, n, k)) =
    rw (e, n) (inr (refl, code, refl, k), λ u. absurd (cc u))

-- the codes that a version checker may give
abbrev pub IsKnown : XrayVersion → Type 0
IsKnown v = contains run_reasons (code_of v.error_code) ≡ true

-- the first status, by the tests
abbrev started : (compatible ok : Bool) → String → ResultStatus × Option String
started compatible ok code =
    if compatible
    then (if ok then (up, none) else (unknown, some "agent-network"))
    else (unknown, some code)

started-IsRun :
    (compatible ok : Bool) (code : String)
    → contains run_reasons code ≡ true
    → IsRun (started compatible ok code)
      × ((started compatible ok code).0 ≡ up → (ok ≡ true) × (compatible ≡ true))
started-IsRun true true code k = (inl (refl, refl), λ u. (refl, refl))
started-IsRun true false code k = (inr (refl, _, refl, refl), λ u. absurd (cc u))
started-IsRun false ok code k = (inr (refl, code, refl, k), λ u. absurd (cc u))

first_run-IsRun :
    (control : ControlResult) (v : XrayVersion)
    → IsKnown v
    → IsRun (first_run control v)
      × ((first_run control v).0 ≡ up → (control.ok ≡ true) × (v.compatible ≡ true))
unfolding first_run
first_run-IsRun control v known = started-IsRun v.compatible control.ok (code_of v.error_code) known

after_control-IsRun :
    (ok : Bool) (run : ResultStatus × Option String)
    → IsRun run
    → IsRun (after_control ok run) × ((after_control ok run).0 ≡ up → (ok ≡ true) × (run.0 ≡ up))
after_control-IsRun true run h = (h, λ u. (refl, u))
after_control-IsRun false run h = (inr (refl, _, refl, refl), λ u. absurd (cc u))

-- What a verdict says: its status and its reason agree; a run that is UP had the agent's network
-- working at both checks, and each of its results is an observation of the target or a refusal.
abbrev pub IsSettled : Verdict → Type 0
IsSettled v =
    IsRun (v.run_status, v.run_reason)
    × ((v.control_status ≡ up) ⊎ (v.control_status ≡ unknown))
    × (v.run_status ≡ up → (v.control_status ≡ up) × IsComplete v.results)

pub up_if-cases : (b : Bool) → (up_if b ≡ up) ⊎ (up_if b ≡ unknown)
up_if-cases true = inl refl
up_if-cases false = inr refl

pub verdict_of-IsSettled :
    (control : ControlResult) (v : XrayVersion) (k : Confirmation)
    → IsKnown v
    → IsSettled (verdict_of control v k)
verdict_of-IsSettled control v k known =
    let first = first_run-IsRun control v known in
    let checked = after_control-IsRun k.control.ok (first_run control v) first.0 in
    let last = reconcile_run_status-IsRun k.results _ _ checked.0 in
    (
      last.0,
      up_if-cases (control.ok && k.control.ok),
      λ u.
          let (closed, complete) = last.1 u in
          let (after, before) = checked.1 closed in (rw ((first.1 before).0, after) refl, complete),
    )

-- What a verdict says of the checks: the control status is UP only if both checks passed, and the run
-- only if Xray was compatible besides.
abbrev pub IsChecked : ControlResult → XrayVersion → Confirmation → Verdict → Type 0
IsChecked control x k v =
    (v.results ≡ k.results)
    × (v.control_status ≡ up → (control.ok ≡ true) × (k.control.ok ≡ true))
    × (v.run_status ≡ up → (control.ok ≡ true) × (k.control.ok ≡ true) × (x.compatible ≡ true))

pub up_if-up : (a b : Bool) → up_if (a && b) ≡ up → (a ≡ true) × (b ≡ true)
up_if-up true true u = (refl, refl)
up_if-up true false u = absurd (cc u)
up_if-up false b u = absurd (cc u)

pub verdict_of-IsChecked :
    (control : ControlResult) (v : XrayVersion) (k : Confirmation)
    → IsKnown v
    → IsChecked control v k (verdict_of control v k)
verdict_of-IsChecked control v k known =
    let first = first_run-IsRun control v known in
    let checked = after_control-IsRun k.control.ok (first_run control v) first.0 in
    let last = reconcile_run_status-IsRun k.results _ _ checked.0 in
    (
      refl,
      up_if-up control.ok k.control.ok,
      λ u.
          let (after, before) = checked.1 (last.1 u).0 in
          let (passed, compatible) = first.1 before in (passed, after, compatible),
    )
