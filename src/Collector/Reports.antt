-- ===== src/Collector/Reports.antt =====
-- `CollectorDB.accept_report` of collector/db.py. The texts of the notifications and the digest of a
-- report are arguments: collector/reporting.py writes the texts and `chunk_message` cuts them.
pub mod Enqueued
pub mod Queued
pub mod Booted
pub mod Accepted
pub mod Verdicts
pub mod Written
pub mod Retried
pub mod Kept
use Prim.Native.String.{◌++◌ as join}
use lite_checker.Prelude.{
  ℕ, ◌+◌, ◌-◌, String, Bool, true, false, Option, none, some, List, [], ◌∷◌, ◌++◌, ◌&&◌, ◌||◌, not,
  ltb, leb, max, length, any_of, string_eq, nat_eq, option_beq, ◌==◌, if◌then◌else◌, decimal,
}
use lite_checker.Collector.Rows.{
  Kind, report, recovery, Agent, Boot, Event, Notification, Db, DbError, Answer, done, failed, Tx,
  transaction, Limits, for_event, pending, update_where, first_where, count_where, agent_inactive,
  sequence_conflict, backpressure, rate_limited, bad_argument, database_error,
}
use lite_checker.Collector.Names.{safe_name}
use lite_checker.Collector.History.{prune_history}
use lite_checker.Collector.Queue.{insert_notification, ensure_pending_capacity}

-- The fields of `AgentReport` that the database compares; `payload_digest` is `_safe_report_digest`.
pub record AgentReport : Type 0 where
  pub event_id : String
  pub agent_id : String
  pub boot_id : String
  pub sequence : ℕ
  pub observed_at_us : ℕ
  pub payload_digest : String

-- The chunks of the messages: `chunk_message` of `format_report` and of `format_recovery`.
pub record Messages : Type 0 where
  pub report_chunks : List String
  pub recovery_chunks : List String

pub record AcceptResult : Type 0 where
  pub is_new : Bool
  pub recovered : Bool

-- the body of a step that writes, and returns nothing
abbrev pub and_store : Answer Db → (Db → Answer Db) → Answer Db
and_store (failed e) f = failed e
and_store (done db) f = f db

abbrev pub no_id : Answer (ℕ × Db) → Answer Db
no_id (failed e) = failed e
no_id (done (id, db)) = done db

-- `notification_payloads`, the recovery first
unfoldable pub payloads : Messages → Bool → List (Kind × List String)
payloads m recovered =
    if recovered
    then (recovery, m.recovery_chunks) ∷ (report, m.report_chunks) ∷ []
    else (report, m.report_chunks) ∷ []

abbrev pub total_chunks : List (Kind × List String) → ℕ
total_chunks [] = 0
total_chunks ((k, chunks) ∷ rest) = length chunks + total_chunks rest

-- `_enqueue_notification` for every payload
unfoldable pub enqueue_all : String → String → ℕ → List (Kind × List String) → Db → Answer Db
enqueue_all agent event now [] db = done db
enqueue_all agent event now ((k, chunks) ∷ rest) db =
    and_store
      (no_id
        (insert_notification k agent (some event) now none chunks (for_event k (some event)) db))
      (enqueue_all agent event now rest)

-- `INSERT ... ON CONFLICT DO UPDATE SET max_sequence = MAX(...)`
unfoldable pub upsert_boot : String → String → ℕ → List Boot → List Boot
upsert_boot agent boot sequence bs =
    let p = λ (b : Boot). b.agent_id == agent && b.boot_id == boot in
    if any_of p bs
    then update_where p (λ (b : Boot). record b { max_sequence = max b.max_sequence sequence }) bs
    else bs ++ record { agent_id = agent; boot_id = boot; max_sequence = sequence } ∷ []

-- the start of the rate window and the reports counted in it
unfoldable pub rate_window : Limits → ℕ → Agent → ℕ × ℕ
rate_window l now a = elim a.rate_window_started_us [
  | none ↦ (now, 0)
  | some started ↦
      if ltb now started || leb l.report_window_us (now - started)
      then (now, 0)
      else (started, a.rate_count)
]

unfoldable pub seen : ℕ → ℕ → ℕ → ℕ → Agent → Agent
seen now sequence started count a = record a {
  last_seen_us = some (elim a.last_seen_us [ none ↦ now | some t ↦ max t now ]);
  offline = false;
  offline_since_us = none;
  max_sequence = some sequence;
  rate_window_started_us = some started;
  rate_count = count + 1;
}

abbrev pub is_agent : String → Agent → Bool
is_agent id a = a.agent_id == id

-- `dead_letter = 1 AND requeued = 0` of one agent
abbrev pub dead_of : String → Notification → Bool
dead_of agent n = n.agent_id == agent && n.dead_letter && not n.requeued

-- the sequence is not above the agent's greatest
abbrev pub repeats : ℕ → Option ℕ → Bool
repeats sequence none = false
repeats sequence (some s) = leb sequence s

module _ (l : Limits) (m : Messages) (r : AgentReport) (now : ℕ) where
  abbrev pub event_of : Event
  event_of = record {
    event_id = r.event_id;
    agent_id = r.agent_id;
    boot_id = r.boot_id;
    sequence = r.sequence;
    observed_at_us = r.observed_at_us;
    received_at_us = now;
    payload_digest = r.payload_digest;
  }

  abbrev pub is_event : Event → Bool
  is_event e = e.event_id == r.event_id

  -- `UNIQUE(agent_id, boot_id, sequence)`
  abbrev pub same_boot_sequence : Event → Bool
  same_boot_sequence e =
      e.agent_id == r.agent_id && e.boot_id == r.boot_id && e.sequence == r.sequence

  -- the columns that an accepted event is compared by
  unfoldable pub same_payload : Event → Bool
  same_payload e = same_boot_sequence e && e.payload_digest == r.payload_digest

  unfoldable pub insert_event : Db → Answer Db
  insert_event db =
      if any_of (λ e. is_event e || same_boot_sequence e) db.events
      then failed database_error
      else done (record db { events = db.events ++ event_of ∷ [] })

  unfoldable pub record_agent : ℕ → ℕ → Db → Db
  record_agent started count db = record db {
    boots = upsert_boot r.agent_id r.boot_id r.sequence db.boots;
    agents = update_where (is_agent r.agent_id) (seen now r.sequence started count) db.agents;
  }

  abbrev pub pruned : Bool → Answer Db → Answer (AcceptResult × Db)
  pruned recovered (failed e) = failed e
  pruned recovered (done db) = done (
    record { is_new = true; recovered = recovered },
    prune_history l r.agent_id now l.max_events_per_agent db,
  )

  -- what is written once the report is let in
  unfoldable pub store_report : Agent → ℕ → ℕ → Db → Answer (AcceptResult × Db)
  store_report a started count db =
      let ps = payloads m a.offline in
      if ensure_pending_capacity l r.agent_id (length ps) (total_chunks ps) db
      then pruned a.offline (
          and_store (insert_event db)
            (λ d. enqueue_all r.agent_id r.event_id now ps (record_agent started count d)))
      else failed backpressure

  unfoldable pub accept_new : Agent → Tx AcceptResult
  accept_new a db =
      if repeats r.sequence a.max_sequence
      then failed sequence_conflict
      else if leb l.max_dead_letters_per_agent (count_where (dead_of r.agent_id) db.notifications)
      then failed backpressure
      else let (started, count) = rate_window l now a in
        if leb l.report_burst count
        then failed rate_limited
        else store_report a started count
            (prune_history l r.agent_id now (max 1 (l.max_events_per_agent - 1)) db)

  unfoldable pub accept_event : Agent → Option Event → Tx AcceptResult
  accept_event a none db = accept_new a db
  accept_event a (some e) db =
      if same_payload e
      then done (record { is_new = false; recovered = false }, db)
      else failed sequence_conflict

  unfoldable pub accept_from : Option Agent → Tx AcceptResult
  accept_from none db = failed agent_inactive
  accept_from (some a) db =
      if a.active then accept_event a (first_where is_event db.events) db else failed agent_inactive

  unfoldable pub accept_report : String → Db → Answer AcceptResult × Db
  accept_report agent db =
      if r.agent_id == agent
        && safe_name r.boot_id
        && r.event_id == join agent (join ":" (join r.boot_id (join ":" (decimal r.sequence))))
      then transaction (λ d. accept_from (first_where (is_agent r.agent_id) d.agents) d) db
      else (failed bad_argument, db)
