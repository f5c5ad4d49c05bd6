-- ===== src/Tests/Reports.antt =====
-- The collector: an agent reports twice, and falls silent.
use lite_checker.Prelude.{
  ◌↔◌, Some, ℕ, ◌≡◌, refl, String, Bool, true, false, none, some, List, [], ◌∷◌, any_of, decimal,
  subst, string_eq, nat_eq, ◌==◌,
}
use lite_checker.Collector.Rows.{
  report, Agent, Db, Event, Limits, done, first_where, update_where, count_where, sum_where,
  delete_where, transaction,
}
use lite_checker.Collector.Rows.Valid.{IsValidOutbox}
use lite_checker.Collector.History.{
  prune_history, prune_notifications, prune_events, unlink_all, unlink, trim_completed, protected,
  newer,
}
use lite_checker.Collector.History.Spares.{awaits, prune_history-event}
use lite_checker.Collector.Names.{safe_name}
use lite_checker.Collector.Queue.{fresh, insert_notification, ensure_pending_capacity}
use lite_checker.Collector.Outbox.{Claim}
use lite_checker.Collector.Reports.{
  AgentReport, Messages, accept_report, is_event, event_of, accept_from, accept_event, accept_new,
  store_report, rate_window, payloads, insert_event, record_agent, enqueue_all, upsert_boot, seen,
}
use lite_checker.Collector.Reports.Accepted.{accept_report-Accepted}
use lite_checker.Collector.Reports.Verdicts.{Accepted, AcceptedAnswer}
use lite_checker.Collector.Reports.Retried.{Knows, accept_report-retried}
use lite_checker.Collector.Registry.{AgentIdentity, sync_registry}
use lite_checker.Collector.Registry.Synced.{Synced, sync_registry-Synced}
use lite_checker.Collector.Reports.Kept.{accept_report-IsValidOutbox}
use lite_checker.Collector.Reading.{notification_delivered}
use lite_checker.Collector.Reading.Delivered.{
  IsReportRow, IsCompleted, notification_delivered-valid,
}
use lite_checker.Collector.Offline.{
  offline_transitions, offline_rows, offline_row, go_offline, silent, evidence_us, mark_offline,
}
use lite_checker.Collector.Offline.Settled.{SweptAnswer, offline_transitions-Settled}
use lite_checker.Collector.Run.{
  Operation, accept, claim, acknowledge, sweep, perform_all, perform_all-IsValidOutbox,
}

abbrev pub limits : Limits
limits = record {
  offline_threshold = 300;
  report_burst = 10;
  report_window_us = 60000000;
  event_retention_us = 1000000000;
  max_events_per_agent = 5;
  completed_retention_us = 1000000000;
  max_completed_notifications = 5;
  max_dead_letters_per_agent = 3;
  max_pending_notifications_per_agent = 10;
  max_pending_notifications_global = 20;
  max_pending_chunks_per_agent = 30;
  max_pending_chunks_global = 60;
}

abbrev moscow : Agent
moscow = record {
  agent_id = "msk";
  city = "Moscow";
  name = "first";
  expected_interval_seconds = 60;
  active = true;
  last_seen_us = none;
  offline = false;
  offline_since_us = none;
  max_sequence = none;
  activated_at_us = 1000;
  rate_window_started_us = none;
  rate_count = 0;
}

abbrev pub start : Db
start = record { agents = moscow ∷ []; boots = []; events = []; notifications = []; last_id = 0 }

abbrev pub messages : Messages
messages = record {
  report_chunks = "[1/2] first" ∷ "[2/2] second" ∷ [];
  recovery_chunks = "RECOVERY" ∷ [];
}

abbrev pub first_report : AgentReport
first_report = record {
  event_id = "msk:b1:0";
  agent_id = "msk";
  boot_id = "b1";
  sequence = 0;
  observed_at_us = 1500;
  payload_digest = "d0";
}

abbrev alert : Agent → ℕ → ℕ → Bool → List String
alert a seen now never = a.agent_id ∷ []

pub start-IsValidOutbox : IsValidOutbox start
start-IsValidOutbox = record { rows = tt; order = tt; given = tt }

abbrev pub two_chunks : Claim
two_chunks = record {
  notification_id = 1;
  kind = report;
  chunk_index = 0;
  chunk_count = 2;
  body = "[1/2] first";
}

abbrev calls : List Operation
calls =
    accept messages first_report 2000 "msk"
    ∷ claim "w1" 3000 1000000
    ∷ acknowledge two_chunks "w1" (some 4000)
    ∷ sweep alert 400000000
    ∷ []

perform_all-IsValidOutbox_example : IsValidOutbox (perform_all limits calls start)
perform_all-IsValidOutbox_example = perform_all-IsValidOutbox limits calls start start-IsValidOutbox

abbrev pub after_report : Db
after_report = (accept_report limits messages first_report 2000 "msk" start).1

first_accepted :
    accept_report limits messages first_report 2000 "msk" start
    ≡ (done (record { is_new = true; recovered = false }), after_report)
unfolding accept_report transaction accept_from accept_event accept_new store_report first_where
    safe_name decimal rate_window payloads insert_event record_agent enqueue_all insert_notification
    fresh upsert_boot seen update_where count_where sum_where ensure_pending_capacity prune_history
    prune_notifications prune_events delete_where unlink_all unlink trim_completed protected newer
first_accepted = refl

first_known : Knows first_report (event_of limits messages first_report 2000) after_report
unfolding accept_report transaction accept_from accept_event accept_new store_report first_where
    safe_name decimal rate_window payloads insert_event record_agent enqueue_all insert_notification
    fresh upsert_boot seen update_where count_where sum_where ensure_pending_capacity prune_history
    prune_notifications prune_events delete_where unlink_all unlink trim_completed protected newer
first_known = (_, refl, refl, refl)

accept_report-retried_example :
    Knows first_report (event_of limits messages first_report 2000) after_report
    × (accept_report limits messages first_report 9000 "msk" after_report
        ≡ (done (record { is_new = false; recovered = false }), after_report))
accept_report-retried_example =
    accept_report-retried limits limits messages messages first_report 2000 9000 "msk" start
      after_report after_report false first_accepted first_known

offline_transitions-Settled_example :
    SweptAnswer limits alert 400000000 start (offline_transitions limits alert 400000000 start)
offline_transitions-Settled_example = offline_transitions-Settled limits alert 400000000 start

-- the sweep does mark the silent agent
swept :
    any_of (λ (a : Agent). a.offline) (offline_transitions limits alert 400000000 start).1.agents
    ≡ true
unfolding offline_transitions offline_rows offline_row go_offline silent evidence_us mark_offline
    insert_notification fresh ensure_pending_capacity count_where sum_where update_where
    delete_where transaction
swept = refl

first_stands : Accepted limits messages first_report 2000 start false after_report
first_stands =
    subst (AcceptedAnswer limits messages first_report 2000 start "msk") first_accepted
      (accept_report-Accepted limits messages first_report 2000 start "msk")

abbrev is_first : Event → Bool
is_first = is_event limits messages first_report 2000

abbrev first_event : Event
first_event = event_of limits messages first_report 2000

first_found : first_where is_first after_report.events ≡ some first_event
first_found = first_stands.stands

first_awaited : any_of (awaits "msk:b1:0") after_report.notifications ≡ true
first_awaited = first_stands.queued

-- long after the retention
prune_history-event_example :
    first_where is_first (prune_history limits "msk" 9000000000 0 after_report).events
    ≡ some first_event
prune_history-event_example =
    prune_history-event limits "msk" 9000000000 0 after_report is_first first_event first_found
      first_awaited

-- the agent is renamed, after its first report
abbrev renamed : List AgentIdentity
renamed =
    record { agent_id = "msk"; city = "Moscow"; name = "renamed"; expected_interval_seconds = 30 }
    ∷ []

moscow_found : first_where (λ a. a.agent_id == "msk") start.agents ≡ some moscow
unfolding first_where
moscow_found = refl

sync_registry-Synced_example : Synced "msk" (sync_registry renamed 5000 start).agents moscow true
sync_registry-Synced_example = sync_registry-Synced renamed 5000 start "msk" moscow moscow_found

notification_delivered-valid_example : (notification_delivered "msk:b1:0" after_report ≡ true) ↔ (
    Some (IsReportRow "msk:b1:0") after_report.notifications
    × IsCompleted "msk:b1:0" after_report.notifications)
notification_delivered-valid_example =
    notification_delivered-valid "msk:b1:0" after_report (
      accept_report-IsValidOutbox limits messages first_report 2000 "msk" start start-IsValidOutbox)
