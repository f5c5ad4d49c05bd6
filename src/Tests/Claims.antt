-- ===== src/Tests/Claims.antt =====
-- Two owners claim the chunks of a report.
use lite_checker.Prelude.{
  ◌≡◌, ◌≢◌, refl, String, true, none, some, decimal, string_eq, nat_eq, false≢true, arith, ◌&&◌,
  leb,
}
use lite_checker.Collector.Rows.{
  Db, done, first_where, update_where, count_where, sum_where, delete_where, transaction,
}
use lite_checker.Collector.History.{
  prune_history, prune_notifications, prune_events, unlink_all, unlink, trim_completed, protected,
  newer,
}
use lite_checker.Collector.Names.{safe_name}
use lite_checker.Collector.Queue.{fresh, insert_notification, ensure_pending_capacity}
use lite_checker.Collector.Outbox.{
  claim_notification, claim_body, claim_head, claim_row, due, held_by_other, claimable, take_lease,
}
use lite_checker.Collector.Outbox.Lease.{
  ClaimedAnswer, claim_notification-Claimed, claim_notification-excludes,
}
use lite_checker.Collector.Reports.{
  accept_report, accept_from, accept_event, accept_new, store_report, rate_window, payloads,
  insert_event, record_agent, enqueue_all, upsert_boot, seen,
}
use lite_checker.Tests.Reports.{after_report, two_chunks}

claim_notification-Claimed_example :
    ClaimedAnswer "w1" 3000 1000000 after_report (claim_notification "w1" 3000 1000000 after_report)
claim_notification-Claimed_example = claim_notification-Claimed "w1" 3000 1000000 after_report

abbrev after_claim : Db
after_claim = (claim_notification "w1" 3000 1000000 after_report).1

first_claimed :
    claim_notification "w1" 3000 1000000 after_report ≡ (done (some two_chunks), after_claim)
unfolding accept_report transaction accept_from accept_event accept_new store_report first_where
    safe_name decimal rate_window payloads insert_event record_agent enqueue_all insert_notification
    fresh upsert_boot seen update_where count_where sum_where ensure_pending_capacity prune_history
    prune_notifications prune_events delete_where unlink_all unlink trim_completed protected newer
    claim_notification claim_body claim_head claim_row due held_by_other claimable take_lease
first_claimed = refl

abbrev w1 : String
w1 = "w1"

abbrev w2 : String
w2 = "w2"

w2_not_w1 : w2 ≢ w1
w2_not_w1 e = absurd (false≢true ((string_eq.same_iff w2 w1).1 e))

w2_valid : (safe_name "w2" && leb 1000000 1000000 && leb 1000000 300000000) ≡ true
unfolding safe_name
w2_valid = refl

claim_notification-excludes_example :
    claim_notification "w2" 4000 1000000 after_claim ≡ (done none, after_claim)
claim_notification-excludes_example =
    claim_notification-excludes "w1" "w2" 3000 4000 1000000 1000000 after_report after_claim
      two_chunks first_claimed w2_not_w1 (omega arith) w2_valid
