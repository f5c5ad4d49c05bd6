-- ===== src/Measure/Probes.antt =====
-- `_run_control` and `_run_probes` of measurement.py: what the checks of a cycle give within its
-- budget. The control checker and the prober are arguments.
use lite_checker.Prelude.{
  ℕ, String, false, Option, none, some, List, [], map, string_eq, nat_eq, ◌==◌, if◌then◌else◌,
}
use lite_checker.Models.{
  TargetConfig, ProbeResult, ProbeStage, CheckKind, unknown, sni, xray, deadline, policy,
}
use lite_checker.Probe.{ControlResult}

-- what the prober gives: results, `TimeoutError`, or another exception
pub data Probed : Type 0 where
  answered : List ProbeResult → Probed
  overran broke : Probed

-- `_run_control`
unfoldable pub run_control : Option ControlResult → ℕ → ControlResult
run_control answer budget =
    let failed : ControlResult = record {
      ok = false;
      error_code = some "control-failed";
      latency_ms = none;
    } in
    if budget == 0 then failed else elim answer [ none ↦ failed | some c ↦ c ]

abbrev pub unknown_stage : CheckKind → ProbeStage → ProbeStage
unknown_stage sni xray = policy
unknown_stage k stage = stage

abbrev pub unknown_result : ProbeStage → String → TargetConfig → ProbeResult
unknown_result stage code t = record {
  target_id = t.target_id;
  label = t.label;
  address = t.address;
  port = t.port;
  status = unknown;
  stage = unknown_stage t.check_kind stage;
  latency_ms = none;
  resolved_ips = [];
  error_code = some code;
  check_kind = t.check_kind;
}

-- `_unknown_results`
unfoldable pub unknown_results : List TargetConfig → ProbeStage → String → List ProbeResult
unknown_results targets stage code = map (unknown_result stage code) targets

abbrev pub results_of : List TargetConfig → Probed → List ProbeResult
results_of targets (answered rs) = rs
results_of targets overran = unknown_results targets deadline "deadline"
results_of targets broke = unknown_results targets xray "probe-error"

-- `_run_probes`
unfoldable pub run_probes :
    Option (List TargetConfig → ControlResult → ℕ → Probed)
    → List TargetConfig
    → ControlResult
    → ℕ
    → List ProbeResult
unfolding unknown_results
run_probes prober targets control budget =
    if budget == 0 then unknown_results targets deadline "deadline" else elim prober [
      | none ↦ unknown_results targets xray "probe-error"
      | some p ↦ results_of targets (p targets control budget)
    ]
