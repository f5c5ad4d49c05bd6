-- ===== src/Collector/Queue.antt =====
-- `_enqueue_notification` and `_ensure_pending_capacity` of collector/db.py.
use lite_checker.Prelude.{
  ℕ, ◌+◌, ◌-◌, String, Bool, false, Option, none, List, [], ◌∷◌, ◌++◌, ◌&&◌, leb, length, any_of,
  string_eq, nat_eq, ◌==◌, if◌then◌else◌,
}
use lite_checker.Collector.Rows.{
  Kind, DedupeKey, key_beq, Notification, Db, done, failed, Tx, Limits, pending, count_where,
  sum_where, database_error,
}

-- A new row: the columns that the INSERT does not name have their defaults.
unfoldable pub fresh :
    ℕ → Kind → String → Option String → ℕ → Option ℕ → List String → DedupeKey → Notification
fresh id kind agent event now next_attempt chunks key = record {
  notification_id = id;
  kind = kind;
  agent_id = agent;
  event_id = event;
  created_at_us = now;
  next_chunk = 0;
  chunk_count = length chunks;
  completed = false;
  lease_owner = none;
  lease_until_us = none;
  dedupe_key = key;
  attempt_count = 0;
  next_attempt_us = next_attempt;
  last_error_code = none;
  last_error_at_us = none;
  dead_letter = false;
  dead_letter_at_us = none;
  requeued_notification_id = none;
  requeued_at_us = none;
  requeued = false;
  bodies = chunks;
}

-- `INSERT INTO notifications` and its chunks. The unique index on the key, and the checks that a
-- notification has a chunk, are errors of the database.
unfoldable pub insert_notification :
    Kind → String → Option String → ℕ → Option ℕ → List String → DedupeKey → Tx ℕ
insert_notification kind agent event now next_attempt chunks key db =
    if any_of (λ (n : Notification). key_beq n.dedupe_key key) db.notifications
    then failed database_error
    else if length chunks == 0
    then failed database_error
    else done (
      db.last_id + 1,
      record db {
        last_id = db.last_id + 1;
        notifications =
            db.notifications
            ++ fresh (db.last_id + 1) kind agent event now next_attempt chunks key ∷ [];
      },
    )

abbrev pub remaining : Notification → ℕ
remaining n = n.chunk_count - n.next_chunk

abbrev pub pending_of : String → Notification → Bool
pending_of agent n = pending n && n.agent_id == agent

-- There is room for `additions` more notifications with `chunks` chunks; else `CollectorBackpressure`.
unfoldable pub ensure_pending_capacity : Limits → String → ℕ → ℕ → Db → Bool
ensure_pending_capacity l agent additions chunks db =
    leb (count_where (pending_of agent) db.notifications + additions)
      l.max_pending_notifications_per_agent
    && leb (count_where pending db.notifications + additions) l.max_pending_notifications_global
    && leb (sum_where (pending_of agent) remaining db.notifications + chunks)
        l.max_pending_chunks_per_agent
    && leb (sum_where pending remaining db.notifications + chunks) l.max_pending_chunks_global
