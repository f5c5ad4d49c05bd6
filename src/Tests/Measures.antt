-- ===== src/Tests/Measures.antt =====
-- One cycle of an agent whose one target fails twice, and the parts of a cycle alone.
use lite_checker.Prelude.{
  ◌↔◌, concat, ℕ, ◌≡◌, refl, true, false, none, some, List, [], ◌∷◌, length, take, ltb, nat_eq,
  string_eq, returned,
}
use lite_checker.Json.{end, get}
use lite_checker.Models.{TargetConfig, ProbeResult, vpn, domain, up, down, vless_e2e}
use lite_checker.State.Snapshots.{
  sort_targets, insert_target, differs, insert_id, snapshot_diff, sort_ids, sorted_targets,
}
use lite_checker.Measure.Report.{accepts_report}
use lite_checker.Probe.{ControlResult}
use lite_checker.State.{Host, absent, ok, locked, write_object, read_object}
use lite_checker.State.Sequence.{next, next_body, read_next, next_of}
use lite_checker.State.Snapshots.Store.{
  no_snapshot, consider, consider_over, consider_sorted, load_snapshot,
}
use lite_checker.Measure.Fetch.{Response, responds, bytes, fetched, fetch}
use lite_checker.Measure.Fetch.Bounded.{IsGiven, fetch-IsBody}
use lite_checker.Measure.Xray.{XrayVersion, bounded_version_output}
use lite_checker.Measure.Xray.Output.{bounded_version_output-take}
use lite_checker.Recheck.{
  confirm_failures, distinct, confirm_first, finish, attempts, find_result, second_pass,
  after_check, reprobe, closing, any_down, batch_valid, retry_targets, find_target, subset,
  all_endpoints, closing_check, replace_results, same_endpoint,
}
use lite_checker.Measure.Probes.{Probed, answered, run_control, run_probes}
use lite_checker.Measure.Run.{Verdict, first_run, reconcile_run_status}
use lite_checker.Measure.Cycle.{
  Cycle, Files, refresh, report_of, judge, measure, first_results, measure_cycle, xray_info,
}

abbrev sample_response : Response
sample_response = record {
  status_code = 200;
  content_encodings = [];
  ages = "0" ∷ [];
  content_lengths = "3" ∷ [];
  body = bytes (118 ∷ 108 ∷ []) ∷ bytes (101 ∷ []) ∷ [];
}

abbrev sample_body : List ℕ
sample_body = 118 ∷ 108 ∷ 101 ∷ []

response-fetched : fetch 3 (responds sample_response) ≡ fetched sample_body
unfolding fetch
response-fetched = refl

fetch-IsBody_example :
    (fetch 3 (responds sample_response) ≡ fetched sample_body)
    ↔ ((r : Response) × (responds sample_response ≡ responds r) × IsGiven 3 r sample_body)
fetch-IsBody_example = fetch-IsBody 3 (responds sample_response) sample_body

abbrev xray_output : List (List ℕ)
xray_output = (88 ∷ 114 ∷ []) ∷ (97 ∷ 121 ∷ []) ∷ []

bounded_version_output-take_example :
    bounded_version_output 3 [] false xray_output
    ≡ (take 3 (concat xray_output), ltb 3 (length (concat xray_output)))
bounded_version_output-take_example = bounded_version_output-take 3 xray_output

abbrev pub target : TargetConfig
target = record {
  target_id = "t1";
  config_fingerprint = "f1";
  label = "first";
  address = "vpn.example";
  port = 443;
  address_kind = domain;
  outbound = end;
  check_kind = vpn;
}

abbrev failing : ProbeResult
failing = record {
  target_id = "t1";
  label = "first";
  address = "vpn.example";
  port = 443;
  status = down;
  stage = vless_e2e;
  latency_ms = none;
  resolved_ips = [];
  error_code = some "tunnel-failed";
  check_kind = vpn;
}

abbrev fine : ControlResult
fine = record { ok = true; latency_ms = some 5; error_code = none }

abbrev always_failing : List TargetConfig → ControlResult → ℕ → Probed
always_failing targets control budget = answered (failing ∷ [])

abbrev pub works : Host
works = record { acquires = true; writes = true; releases = true }

abbrev known_version : XrayVersion
known_version = record { version = some (b'1' ∷ []); compatible = true; error_code = none }

abbrev pub sample_cycle : Cycle
sample_cycle = record {
  observed_at = 1000;
  remaining = λ i. 60000000;
  control = some fine;
  subscription = some (target ∷ []);
  revision = λ ts. "r1";
  snapshot_host = works;
  version_checker = some (some known_version);
  prober = some always_failing;
  retry_remaining = λ i. 30000000;
  retry_slept = true;
  retry_control = some fine;
  retry_prober = some always_failing;
  last_control = some fine;
  sequence_host = works;
  duration_ms = 12000;
  app_version = none;
}

abbrev pub sample_files : Files
sample_files = record { snapshot = no_snapshot; sequence = absent }

-- the target is confirmed as DOWN, and the run itself is UP
abbrev sample_verdict : Verdict
sample_verdict = record {
  results = failing ∷ [];
  control_status = up;
  run_status = up;
  run_reason = none;
  xray_version = some (b'1' ∷ []);
}

measure_cycle-works :
    (measure_cycle sample_cycle sample_files).0
    ≡ returned (report_of sample_cycle 0 (refresh sample_cycle no_snapshot).0 sample_verdict)
unfolding confirm_failures distinct confirm_first finish attempts find_result second_pass
    after_check reprobe closing any_down batch_valid retry_targets find_target subset all_endpoints
    closing_check replace_results same_endpoint sort_targets insert_target differs insert_id
    snapshot_diff sort_ids sorted_targets consider consider_over consider_sorted load_snapshot
    measure_cycle refresh judge measure first_results xray_info run_control run_probes
    accepts_report first_run reconcile_run_status next next_body read_next next_of locked
    write_object read_object get
measure_cycle-works = refl
