-- ===== src/Measure/Run.antt =====
-- The status of a run and its reason (measurement.py), from the control checks, the version of Xray
-- and the results.
pub mod Settled
use lite_checker.Prelude.{
  ℕ, String, Bool, true, false, ◌&&◌, Option, none, some, List, any_of, string_eq, nat_eq, ◌==◌,
  if◌then◌else◌,
}
use lite_checker.Models.{
  ProbeResult, ResultStatus, ProbeStage, up, unknown, xray, deadline, agent_network, status_beq,
}
use lite_checker.Probe.{ControlResult}
use lite_checker.Recheck.{Confirmation}
use lite_checker.Measure.Xray.{XrayVersion}

abbrev pub stage_beq : ProbeStage → ProbeStage → Bool
stage_beq deadline deadline = true
stage_beq xray xray = true
stage_beq agent_network agent_network = true
stage_beq _ _ = false

-- `stage in unknown_stages`
abbrev pub unknown_at : ProbeStage → ProbeResult → Bool
unknown_at stage r = status_beq r.status unknown && stage_beq r.stage stage

-- `_reconcile_run_status`
unfoldable pub reconcile_run_status :
    List ProbeResult → ResultStatus → Option String → ResultStatus × Option String
reconcile_run_status results status reason =
    if status_beq status unknown
    then (status, reason)
    else if any_of (unknown_at deadline) results
    then (unknown, some "deadline")
    else if any_of (unknown_at xray) results
    then (unknown, some "probe-incomplete")
    else if any_of (unknown_at agent_network) results
    then (unknown, some "agent-network")
    else (status, reason)

abbrev pub up_if : Bool → ResultStatus
up_if t = if t then up else unknown

abbrev pub no_version : XrayVersion
no_version = record { version = none; compatible = true; error_code = none }

abbrev pub checked_version : Option XrayVersion → XrayVersion
checked_version none = record {
  version = none;
  compatible = false;
  error_code = some "xray-version-unavailable";
}
checked_version (some v) = v

abbrev pub code_of : Option String → String
code_of none = "xray-version-unavailable"
code_of (some code) = if code == "" then "xray-version-unavailable" else code

-- the status of the run before the confirmation
unfoldable pub first_run : ControlResult → XrayVersion → ResultStatus × Option String
first_run control v =
    if v.compatible
    then (if control.ok then (up, none) else (unknown, some "agent-network"))
    else (unknown, some (code_of v.error_code))

-- a failed last check makes the run uncertain
abbrev pub after_control : Bool → ResultStatus × Option String → ResultStatus × Option String
after_control true run = run
after_control false run = (unknown, some "agent-network")

-- what the cycle says of its run
pub record Verdict : Type 0 where
  pub results : List ProbeResult
  pub control_status : ResultStatus
  pub run_status : ResultStatus
  pub run_reason : Option String
  pub xray_version : Option (List ℕ)

abbrev pub verdict_of : ControlResult → XrayVersion → Confirmation → Verdict
verdict_of control v k =
    let run =
      reconcile_run_status k.results (after_control k.control.ok (first_run control v)).0
        (after_control k.control.ok (first_run control v)).1 in
    record {
      results = k.results;
      control_status = up_if (control.ok && k.control.ok);
      run_status = run.0;
      run_reason = run.1;
      xray_version = v.version;
    }
