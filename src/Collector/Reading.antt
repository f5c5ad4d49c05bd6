-- ===== src/Collector/Reading.antt =====
-- The queries of collector/db.py that only read: counts, progress, and whether an event's report was
-- delivered.
pub mod Delivered
use lite_checker.Prelude.{
  ℕ, String, Bool, true, false, Option, none, some, List, [], ◌∷◌, ◌&&◌, not, leb, take, keep,
  length, option_beq, string_eq, nat_eq, ◌==◌, if◌then◌else◌,
}
use lite_checker.Collector.Rows.{
  Kind, report, note_kind_beq, Notification, Agent, Db, DbError, Answer, done, failed, bad_argument,
  pending, first_where, count_where, outbox_empty,
}
use lite_checker.Collector.Reports.{is_agent}
use lite_checker.Collector.DeadLetters.{unresolved}

unfoldable pub last_seen : String → Db → Option ℕ
last_seen agent db = elim (first_where (is_agent agent) db.agents) [
  | none ↦ none
  | some a ↦ a.last_seen_us
]

unfoldable pub event_count : Db → ℕ
event_count db = length db.events

unfoldable pub pending_notification_count : Db → ℕ
pending_notification_count db = count_where pending db.notifications

unfoldable pub dead_letter_count : Db → ℕ
dead_letter_count db = count_where unresolved db.notifications

-- `event_id = ? AND kind = 'REPORT' AND requeued = 0`
abbrev pub report_of : String → Notification → Bool
report_of event n =
    option_beq n.event_id (some event) && note_kind_beq n.kind report && not n.requeued

abbrev pub delivered_row : Notification → Bool
delivered_row n = n.completed && not n.dead_letter && n.next_chunk == n.chunk_count

abbrev pub all_rows : (Notification → Bool) → List Notification → Bool
all_rows p [] = true
all_rows p (n ∷ ns) = p n && all_rows p ns

unfoldable pub notification_delivered : String → Db → Bool
notification_delivered event db =
    let rows = keep (report_of event) db.notifications in
    not (length rows == 0) && all_rows delivered_row rows

-- `DeadLetter`
pub record DeadLetter : Type 0 where
  pub notification_id : ℕ
  pub kind : Kind
  pub next_chunk : ℕ
  pub chunk_count : ℕ
  pub attempt_count : ℕ
  pub error_code : Option String
  pub failed_at_us : Option ℕ

abbrev pub dead_letter_of : List Notification → List DeadLetter
dead_letter_of [] = []
dead_letter_of (n ∷ ns) =
    record {
      notification_id = n.notification_id;
      kind = n.kind;
      next_chunk = n.next_chunk;
      chunk_count = n.chunk_count;
      attempt_count = n.attempt_count;
      error_code = n.last_error_code;
      failed_at_us = n.dead_letter_at_us;
    }
    ∷ dead_letter_of ns

unfoldable pub dead_letters : ℕ → Db → Answer (List DeadLetter)
dead_letters limit db =
    if leb 1 limit && leb limit 1000
    then done (dead_letter_of (take limit (keep unresolved db.notifications)))
    else failed bad_argument

abbrev pub kinds_of : List Notification → List Kind
kinds_of [] = []
kinds_of (n ∷ ns) = n.kind ∷ kinds_of ns

unfoldable pub pending_notification_kinds : Db → List Kind
pending_notification_kinds db = kinds_of (keep pending db.notifications)

-- the id, the next chunk and the number of chunks
unfoldable pub oldest_pending_progress : Db → Answer (ℕ × ℕ × ℕ)
oldest_pending_progress db = elim (first_where pending db.notifications) [
  | none ↦ failed outbox_empty
  | some n ↦ done (n.notification_id, n.next_chunk, n.chunk_count)
]
