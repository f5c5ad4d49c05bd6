-- ===== src/Measure/Cycle/Reported.antt =====
-- What a cycle reports, whatever its subscription, its probes and its budget.
use lite_checker.Prelude.{
  ◌≡◌, String, Bool, true, ◌&&◌, not, Option, none, some, List, [], keep, All, returned,
  if◌then◌else◌, string_eq,
}
use lite_checker.Models.{ProbeResult, ResultStatus, up, down, unknown, status_beq}
use lite_checker.Probe.{ControlResult}
use lite_checker.Recheck.{is_down}
use lite_checker.Recheck.Controlled.{IsConfirmed}
use lite_checker.State.{ok}
use lite_checker.State.Snapshots.Store.{SnapshotDecision}
use lite_checker.Measure.Xray.{XrayVersion}
use lite_checker.Recheck.{Confirmation, confirm_failures}
use lite_checker.Measure.Run.Settled.{IsChecked}
use lite_checker.Measure.Run.{Verdict}
use lite_checker.Measure.Run.Settled.{IsSettled, IsKnown}
use lite_checker.Measure.Report.{short_version, known_reason, is_none}
use lite_checker.Measure.Cycle.{Cycle, xray_info, first_results, pass}

-- what the version checker may answer
abbrev pub IsChecker : Option (Option XrayVersion) → Type 0
IsChecker none = Unit
IsChecker (some none) = Unit
IsChecker (some (some v)) = IsKnown v × (short_version v.version ≡ true)

-- without a snapshot there is nothing to say; otherwise each DOWN was confirmed
abbrev pub IsEvidence : Cycle → ControlResult → Option SnapshotDecision → List ProbeResult → Type 0
IsEvidence c control none rs = rs ≡ []
IsEvidence c control (some d) rs =
    let ts = d.snapshot.targets in
    All
      (λ r.
        r.status ≡ down
        → IsConfirmed (pass c) ts (keep is_down (first_results c ts control (xray_info c control)))
            control r)
      rs

-- what the checks of the cycle gave: those before the first probe, and the last of the confirmation
abbrev pub IsFounded : Cycle → ControlResult → Option SnapshotDecision → Verdict → Type 0
IsFounded c control none v = (v.run_status ≡ unknown) × (v.control_status ≡ up → control.ok ≡ true)
IsFounded c control (some d) v =
    let ts = d.snapshot.targets in
    (k : Confirmation) × (confirm_failures (pass c) ts
        (first_results c ts control (xray_info c control)) control
      ≡ returned k)
    × IsChecked control (xray_info c control) k v

-- a verdict that can be reported
abbrev pub IsVerdict : Cycle → ControlResult → Option SnapshotDecision → Verdict → Type 0
IsVerdict c control d v =
    IsSettled v
    × (short_version v.xray_version ≡ true)
    × IsEvidence c control d v.results
    × IsFounded c control d v
    × (d ≡ none → v.run_reason ≡ some "no-valid-snapshot")

abbrev IsShort : XrayVersion → Type 0
IsShort v = IsKnown v × (short_version v.version ≡ true)

-- a report whose parts agree passes its validation
abbrev tested : (control run : ResultStatus) → Option String → (short : Bool) → Bool
tested control run reason short =
    not (status_beq control down)
    && not (status_beq run down)
    && known_reason reason
    && short
    && (if status_beq run up then is_none reason else not (is_none reason))
