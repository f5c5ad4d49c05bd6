-- ===== src/Tests/Cycles.antt =====
-- One run of an agent, the acknowledgement that it leaves, and the decisions on three subscriptions.
use lite_checker.Prelude.{
  ◌≡◌, refl, String, ℕ, true, false, none, some, Option, returned, leb, ◌&&◌, ◌+◌, ◌*◌, string_eq,
  arith, [], ◌∷◌, List, decimal,
}
use lite_checker.Json.{end, get, has_key}
use lite_checker.Models.{TargetConfig}
use lite_checker.State.{Host, absent, ok, locked, write_object, read_object}
use lite_checker.State.Acks.{record_ack, is_recent}
use lite_checker.State.Acks.Recent.{record_ack-is_recent}
use lite_checker.State.Sequence.{next, next_body, read_next, next_of}
use lite_checker.State.Snapshots.{
  sort_targets, insert_target, differs, insert_id, snapshot_diff, sort_ids, sorted_targets,
}
use lite_checker.State.Snapshots.Store.{consider, consider_over, consider_sorted, load_snapshot}
use lite_checker.State.Pending.{
  pending_identity, read_pending, envelope, identity_at, load, save, save_over, replace_if_event,
  replace_over, clear, clear_over, is_pending, same_identity, agreed, checked_pending,
  is_version_one, from_envelope, is_envelope, from_object, report_value,
}
use lite_checker.State.Pending.Delivery.{perform_all, perform}
use lite_checker.Recheck.{
  confirm_failures, distinct, confirm_first, finish, attempts, find_result, second_pass,
  after_check, reprobe, closing, any_down, batch_valid, retry_targets, find_target, subset,
  all_endpoints, closing_check, replace_results, same_endpoint,
}
use lite_checker.Measure.Report.{accepts_report}
use lite_checker.Measure.Probes.{run_control, run_probes}
use lite_checker.Measure.Run.{first_run, reconcile_run_status}
use lite_checker.Measure.Cycle.{refresh, judge, measure, first_results, measure_cycle, xray_info}
use lite_checker.Agent.{
  AgentReport, model_dump, deliver_report, deliver_current, deliver_locked, retry_pending,
  count_dropped, check_and_send, send_current,
}
use lite_checker.Agent.Cycle.{Setup, Agent, run_cycle, run_once}
use lite_checker.State.Snapshots.Chain.{Consideration, Chain}
use lite_checker.Tests.Measures.{sample_cycle, sample_files, works, target}
use lite_checker.Tests.Agents.{calm}

-- every time has the same text, that of the hour 9
abbrev show_hour : ℕ → String
show_hour t = "2026-01-01T09:00:00+00:00"

abbrev read_hour : String → Option ℕ
read_hour s = some 32400000000

ack-recorded : (record_ack show_hour works "a1:b1:0" 32400000000 absent).0 ≡ ok tt
unfolding record_ack locked write_object
ack-recorded = refl

-- thirty seconds later the acknowledgement is recent for one minute
record_ack-is_recent_example :
    is_recent read_hour 32430000000 60 works
      (record_ack show_hour works "a1:b1:0" 32400000000 absent).1
    ≡ returned (leb 32400000000 32430000000 && leb 32430000000 (32400000000 + 60 * 1000000))
record_ack-is_recent_example =
    record_ack-is_recent show_hour read_hour works works "a1:b1:0" 32400000000 32430000000 60 absent
      refl ack-recorded refl refl (omega arith)

abbrev setup : Setup
setup = record {
  agent_id = "a1";
  boot_id = "b1";
  measurement = sample_cycle;
  delivery = calm;
  others_of = λ r. end;
  ack_host = some works;
  accepted_at = 32400000000;
  show_time = show_hour;
}

abbrev fresh_agent : Agent
fresh_agent = record {
  files = sample_files;
  world = record { file = absent; tick = 0; sent = [] };
  acks = absent;
  last_accepted_event_id = none;
}

abbrev first_report : AgentReport
first_report = record { event_id = "a1:b1:0"; sequence = 0; dropped_report_count = 0; others = end }

-- the run returns, so that the theorem gives the acceptance of its report
run_once-works : (run_once setup fresh_agent).0 ≡ returned first_report
unfolding run_once run_cycle record_ack confirm_failures distinct confirm_first finish attempts
    find_result second_pass after_check reprobe closing any_down batch_valid retry_targets
    find_target subset all_endpoints closing_check replace_results same_endpoint sort_targets
    insert_target differs insert_id snapshot_diff sort_ids sorted_targets consider consider_over
    consider_sorted load_snapshot measure_cycle refresh judge measure first_results xray_info
    run_control run_probes accepts_report first_run reconcile_run_status next next_body read_next
    next_of locked write_object read_object get deliver_report deliver_current deliver_locked
    retry_pending count_dropped check_and_send send_current load read_pending perform_all perform
    from_object is_envelope has_key envelope from_envelope is_version_one identity_at
    checked_pending report_value agreed pending_identity same_identity model_dump clear clear_over
    is_pending replace_if_event replace_over save save_over decimal
run_once-works = refl

abbrev revision : List TargetConfig → String
revision ts = "r"

abbrev cannot_write : Host
cannot_write = record { acquires = true; writes = false; releases = true }

-- a first snapshot, one that is not written, and one with a new configuration
abbrev considered : List Consideration
considered =
    record { host = works; targets = target ∷ []; now = 1 }
    ∷ record { host = cannot_write; targets = target ∷ []; now = 2 }
    ∷ record { host = works; targets = record target { config_fingerprint = "f2" } ∷ []; now = 3 }
    ∷ []
