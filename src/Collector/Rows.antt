-- ===== src/Collector/Rows.antt =====
-- The tables of collector/db.py that the operations read and write, and what an operation answers.
-- Times are microseconds since the epoch. The rows of `notifications` stand in the order of their
-- ids, those of `agents` too, and those of `events` in the order of insertion. A row of `notification_chunks` is the entry of
-- `bodies` at its index: the foreign key deletes it with its notification.
pub mod Tables
pub mod Valid
pub mod Queries
use lite_checker.Prelude.{
  ℕ, ◌+◌, String, Bool, true, false, Option, none, some, List, [], ◌∷◌, ◌≡◌, refl, ◌&&◌, ◌||◌, not,
  ◌⊎◌, inl, inr, string_eq, nat_eq, option_beq, ◌==◌, if◌then◌else◌,
}

pub data Kind : Type 0 where
  report recovery offline_alert : Kind

abbrev pub note_kind_beq : Kind → Kind → Bool
note_kind_beq report report = true
note_kind_beq recovery recovery = true
note_kind_beq offline_alert offline_alert = true
note_kind_beq _ _ = false

-- The text of `dedupe_key`: "KIND:event", "OFFLINE:agent:time" or "REQUEUE:id".
pub data DedupeKey : Type 0 where
  for_event : Kind → Option String → DedupeKey
  for_offline : String → ℕ → DedupeKey
  for_requeue : ℕ → DedupeKey

abbrev pub key_beq : DedupeKey → DedupeKey → Bool
key_beq (for_event k e) (for_event l f) = note_kind_beq k l && option_beq e f
key_beq (for_offline a t) (for_offline b u) = (a == b) && (t == u)
key_beq (for_requeue i) (for_requeue j) = i == j
key_beq _ _ = false

pub record Notification : Type 0 where
  pub notification_id : ℕ
  pub kind : Kind
  pub agent_id : String
  pub event_id : Option String
  pub created_at_us : ℕ
  pub next_chunk : ℕ
  pub chunk_count : ℕ
  pub completed : Bool
  pub lease_owner : Option String
  pub lease_until_us : Option ℕ
  pub dedupe_key : DedupeKey
  pub attempt_count : ℕ
  pub next_attempt_us : Option ℕ
  pub last_error_code : Option String
  pub last_error_at_us : Option ℕ
  pub dead_letter : Bool
  pub dead_letter_at_us : Option ℕ
  pub requeued_notification_id : Option ℕ
  pub requeued_at_us : Option ℕ
  pub requeued : Bool
  pub bodies : List String

pub record Agent : Type 0 where
  pub agent_id : String
  pub city : String
  pub name : String
  pub expected_interval_seconds : ℕ
  pub active : Bool
  pub last_seen_us : Option ℕ
  pub offline : Bool
  pub offline_since_us : Option ℕ
  pub max_sequence : Option ℕ
  pub activated_at_us : ℕ
  pub rate_window_started_us : Option ℕ
  pub rate_count : ℕ

pub record Boot : Type 0 where
  pub agent_id : String
  pub boot_id : String
  pub max_sequence : ℕ

-- An event. The columns that no operation reads again, and the rows of `results`, are left out.
pub record Event : Type 0 where
  pub event_id : String
  pub agent_id : String
  pub boot_id : String
  pub sequence : ℕ
  pub observed_at_us : ℕ
  pub received_at_us : ℕ
  pub payload_digest : String

pub record Db : Type 0 where
  pub agents : List Agent
  pub boots : List Boot
  pub events : List Event
  pub notifications : List Notification
  -- the greatest id that AUTOINCREMENT has given
  pub last_id : ℕ

pub data DbError : Type 0 where
  -- `CollectorDBError` with its code
  agent_inactive sequence_conflict rate_limited backpressure kind_invalid claim_lost outbox_corrupt
        outbox_empty dead_letter_not_found dead_letter_invalid requeue_conflict database_error :
      DbError
  -- `ValueError` of an argument
  bad_argument : DbError

pub data Answer {ℓ} (A : Type ℓ) : Type ℓ where
  done : A → Answer A
  failed : DbError → Answer A

-- The body of a `with self._transaction()` block: it reads and writes the database, or raises.
abbrev pub Tx : Type 0 → Type 0
Tx A = Db → Answer (A × Db)

-- `BEGIN IMMEDIATE`, and then `COMMIT`, or `ROLLBACK` when the body raises.
abbrev pub commit : {A : Type 0} → Db → Answer (A × Db) → Answer A × Db
commit db (done (a, db')) = (done a, db')
commit db (failed e) = (failed e, db)

unfoldable pub transaction : {A : Type 0} → Tx A → Db → Answer A × Db
transaction body db = commit db (body db)

-- The configuration of `CollectorDB`.
pub record Limits : Type 0 where
  pub offline_threshold : ℕ
  pub report_burst : ℕ
  pub report_window_us : ℕ
  pub event_retention_us : ℕ
  pub max_events_per_agent : ℕ
  pub completed_retention_us : ℕ
  pub max_completed_notifications : ℕ
  pub max_dead_letters_per_agent : ℕ
  pub max_pending_notifications_per_agent : ℕ
  pub max_pending_notifications_global : ℕ
  pub max_pending_chunks_per_agent : ℕ
  pub max_pending_chunks_global : ℕ

-- `completed = 0 AND dead_letter = 0`
abbrev pub pending : Notification → Bool
pending n = not n.completed && not n.dead_letter

-- `UPDATE ... WHERE p`
module _ {A : Type 0} where
  unfoldable pub update_where : (A → Bool) → (A → A) → List A → List A
  update_where p f [] = []
  update_where p f (x ∷ xs) = (if p x then f x else x) ∷ update_where p f xs

  -- the first row that a query finds
  unfoldable pub first_where : (A → Bool) → List A → Option A
  first_where p [] = none
  first_where p (x ∷ xs) = if p x then some x else first_where p xs

  -- `DELETE ... WHERE p`
  unfoldable pub delete_where : (A → Bool) → List A → List A
  delete_where p [] = []
  delete_where p (x ∷ xs) = let rest = delete_where p xs in if p x then rest else x ∷ rest

  -- `SELECT COUNT(*) ... WHERE p`
  unfoldable pub count_where : (A → Bool) → List A → ℕ
  count_where p [] = 0
  count_where p (x ∷ xs) = (if p x then 1 else 0) + count_where p xs

  -- `SELECT COALESCE(SUM(v), 0) ... WHERE p`
  unfoldable pub sum_where : (A → Bool) → (A → ℕ) → List A → ℕ
  sum_where p v [] = 0
  sum_where p v (x ∷ xs) = (if p x then v x else 0) + sum_where p v xs
