-- ===== src/Collector/DeadLetters.antt =====
-- The failures of collector/db.py's outbox: a notification is retried, parked as a dead letter, armed
-- again in its place, or queued again as a new one.
use lite_checker.Prelude.{
  ℕ, ◌+◌, ◌-◌, String, Bool, true, false, Option, none, some, ◌&&◌, ◌||◌, not, ltb, leb, length,
  drop, any_of, string_eq, nat_eq, ◌==◌, if◌then◌else◌,
}
use lite_checker.Collector.Rows.{
  Notification, Db, Answer, done, failed, Tx, transaction, Limits, for_requeue, update_where,
  first_where, count_where, claim_lost, bad_argument, dead_letter_not_found, dead_letter_invalid,
  requeue_conflict, backpressure,
}
use lite_checker.Collector.Names.{safe_name, safe_error_code}
use lite_checker.Collector.Queue.{insert_notification, ensure_pending_capacity}
use lite_checker.Collector.Outbox.{Claim, has_id, claim_stands}

-- the row after a failed delivery
unfoldable pub fail_row : String → ℕ → ℕ → Bool → Notification → Notification
fail_row code now delay terminal n = record n {
  attempt_count = n.attempt_count + 1;
  next_attempt_us = if terminal then none else some (now + delay);
  last_error_code = some code;
  last_error_at_us = some now;
  dead_letter = terminal;
  dead_letter_at_us = if terminal then some now else none;
  lease_owner = none;
  lease_until_us = none;
}

module _ (c : Claim) (owner code : String) (now : ℕ) (permanent : Bool)
    (max_attempts delay : ℕ) where
  abbrev pub terminal : Notification → Bool
  terminal n = permanent || leb max_attempts (n.attempt_count + 1)

  unfoldable pub failure_row : Option Notification → Tx Bool
  failure_row none db = failed claim_lost
  failure_row (some n) db =
      if claim_stands c owner n
      then done (
        terminal n,
        record db {
          notifications =
              update_where (has_id c.notification_id) (fail_row code now delay (terminal n))
                db.notifications;
        },
      )
      else failed claim_lost

  -- The delay is in microseconds, at most an hour.
  unfoldable pub record_notification_failure : Db → Answer Bool × Db
  record_notification_failure db =
      if safe_name owner
        && safe_error_code code
        && leb 1 max_attempts
        && leb max_attempts 100
        && leb delay 3600000000
      then transaction (λ d. failure_row (first_where (has_id c.notification_id) d.notifications) d)
          db
      else (failed bad_argument, db)

unfoldable pub rearm : ℕ → Notification → Notification
rearm now n = record n {
  dead_letter = false;
  dead_letter_at_us = none;
  attempt_count = 0;
  next_attempt_us = some now;
  last_error_code = none;
  last_error_at_us = none;
  lease_owner = none;
  lease_until_us = none;
}

-- a dead letter that nobody has queued again
abbrev pub unresolved : Notification → Bool
unresolved n = n.dead_letter && not n.requeued

unfoldable pub retry_dead_letters : ℕ → Db → ℕ × Db
retry_dead_letters now db =
    let p = λ (n : Notification). not n.completed && unresolved n in
    (
      count_where p db.notifications,
      record db { notifications = update_where p (rearm now) db.notifications },
    )

unfoldable pub mark_requeued : ℕ → ℕ → Notification → Notification
mark_requeued clone now n = record n {
  requeued_notification_id = some clone;
  requeued_at_us = some now;
  requeued = true;
}

module _ (l : Limits) (id now : ℕ) where
  -- the rows that the last UPDATE selects
  abbrev pub unmarked : Notification → Bool
  unmarked m = has_id id m && not m.requeued

  unfoldable pub requeue_link : Answer (ℕ × Db) → Answer (ℕ × Db)
  requeue_link (failed e) = failed e
  requeue_link (done (clone, db)) =
      if any_of unmarked db.notifications
      then done (
        clone,
        record db {
          notifications = update_where unmarked (mark_requeued clone now) db.notifications;
        },
      )
      else failed requeue_conflict

  -- The remaining chunks of a dead letter become a new notification, once. Each of them is one chunk
  -- again, since none is longer than the limit of `chunk_message`.
  unfoldable pub requeue_copy : Notification → Tx ℕ
  requeue_copy n db =
      let chunks = drop n.next_chunk n.bodies in
      if ltb n.next_chunk n.chunk_count && length chunks == n.chunk_count - n.next_chunk
      then (if ensure_pending_capacity l n.agent_id 1 (length chunks) db
          then requeue_link (
              insert_notification n.kind n.agent_id n.event_id now (some now) chunks
                (for_requeue id) db)
          else failed backpressure)
      else failed dead_letter_invalid

  unfoldable pub requeue_row : Option Notification → Tx ℕ
  requeue_row none db = failed dead_letter_not_found
  requeue_row (some n) db =
      if n.completed || not n.dead_letter
      then failed dead_letter_not_found
      else if n.requeued
      then elim n.requeued_notification_id [
        | none ↦ failed dead_letter_not_found
        | some clone ↦ done (clone, db)
      ]
      else requeue_copy n db

  unfoldable pub requeue_dead_letter : Db → Answer ℕ × Db
  requeue_dead_letter db =
      if leb 1 id
      then transaction (λ d. requeue_row (first_where (has_id id) d.notifications) d) db
      else (failed bad_argument, db)
