-- ===== src/Tests/Dispatches.antt =====
-- A dispatcher that drains the two chunks of a report.
use lite_checker.Prelude.{◌+◌, ◌<◌, ◌≡◌, refl, true, [], decimal, string_eq, nat_eq, arith}
use lite_checker.Collector.Rows.{
  first_where, update_where, count_where, sum_where, delete_where, transaction,
}
use lite_checker.Collector.Rows.Valid.{IsValidOutbox}
use lite_checker.Collector.History.{
  prune_history, prune_notifications, prune_events, unlink_all, unlink, trim_completed, protected,
  newer,
}
use lite_checker.Collector.Names.{safe_name}
use lite_checker.Collector.Queue.{fresh, insert_notification, ensure_pending_capacity}
use lite_checker.Collector.Reports.{
  accept_report, accept_from, accept_event, accept_new, store_report, rate_window, payloads,
  insert_event, record_agent, enqueue_all, upsert_boot, seen,
}
use lite_checker.Collector.Reports.Kept.{accept_report-IsValidOutbox}
use lite_checker.Collector.Dispatch.{Dispatcher, Desk, delivered, unfinished, drain}
use lite_checker.Collector.Dispatch.Less.{all_waiting}
use lite_checker.Collector.Dispatch.Ends.{drain-IsEnd}
use lite_checker.Tests.Reports.{
  limits, messages, first_report, start, start-IsValidOutbox, after_report,
}

-- a dispatcher alone, whose sender always works
abbrev sample_dispatcher : Dispatcher
sample_dispatcher = record {
  limits = limits;
  owner = "d1";
  lease = 180000000;
  max_delivery_attempts = 5;
  retry_delay = 60000000;
  clock = λ t. 3000 + t;
  sender = λ t body. delivered;
  others = λ t. [];
  lock_acquired = true;
}

abbrev sample_desk : Desk
sample_desk = record { db = after_report; tick = 0; sent = [] }

two_wait : all_waiting after_report.notifications ≡ 2
unfolding accept_report transaction accept_from accept_event accept_new store_report first_where
    safe_name decimal rate_window payloads insert_event record_agent enqueue_all insert_notification
    fresh upsert_boot seen update_where count_where sum_where ensure_pending_capacity prune_history
    prune_notifications prune_events delete_where unlink_all unlink trim_completed protected newer
two_wait = refl

few : all_waiting after_report.notifications < 8
few = omega (arith, two_wait)

drain-IsEnd_example :
    (¬ ((drain sample_dispatcher 8 sample_desk).0 ≡ unfinished))
    × IsValidOutbox (drain sample_dispatcher 8 sample_desk).1.db
drain-IsEnd_example =
    drain-IsEnd sample_dispatcher (λ t. refl) 8 sample_desk
      (accept_report-IsValidOutbox limits messages first_report 2000 "msk" start
        start-IsValidOutbox)
      few
