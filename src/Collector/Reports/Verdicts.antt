-- ===== src/Collector/Reports/Verdicts.antt =====
-- What `accept_report` may answer, and when.
use Prim.Native.String.{◌++◌ as join}
use lite_checker.Prelude.{
  List, [], ◌∷◌, ℕ, ◌-◌, max, ◌≡◌, Bool, true, false, none, some, refl, ◌⊎◌, inl, any_of, length,
  if◌then◌else◌, ◌&&◌, String, string_eq, nat_eq, leb, ◌==◌, decimal,
}
use lite_checker.Collector.Rows.{
  Kind, report, recovery, Agent, Event, Db, Answer, done, failed, DbError, agent_inactive,
  sequence_conflict, backpressure, rate_limited, database_error, bad_argument, Limits, first_where,
  update_where, count_where, commit,
}
use lite_checker.Collector.Names.{safe_name}
use lite_checker.Collector.History.{prune_history}
use lite_checker.Collector.History.Spares.{awaits}
use lite_checker.Collector.Queue.{ensure_pending_capacity}
use lite_checker.Collector.Reports.Booted.{BootNoted}
use lite_checker.Collector.Reports.Queued.{AllQueued}
use lite_checker.Collector.Reports.{
  AgentReport, Messages, repeats, AcceptResult, and_store, payloads, total_chunks, enqueue_all,
  rate_window, seen, is_agent, dead_of, event_of, is_event, same_payload, insert_event,
  record_agent,
}

module _ (l : Limits) (m : Messages) (r : AgentReport) (now : ℕ) (db : Db) where
  -- what is to be sent: the report, and before it the recovery of an agent that was offline
  abbrev pub messages : Bool → List (Kind × List String)
  messages false = (report, m.report_chunks) ∷ []
  messages true = (recovery, m.recovery_chunks) ∷ (report, m.report_chunks) ∷ []

  -- The report is let in: its agent is active and has sent nothing as late, its limits are not
  -- reached, and its event is new; afterwards the agent is marked as seen, its boot has its greatest
  -- sequence and the others have theirs, the event stands in the table, and each of its messages has a
  -- pending row with its chunks.
  pub record Accepted (recovered : Bool) (db' : Db) : Type 0 where
    pub row : Agent
    pub found : first_where (is_agent r.agent_id) db.agents ≡ some row
    pub active : row.active ≡ true
    pub unseen : first_where (is_event l m r now) db.events ≡ none
    pub rises : repeats r.sequence row.max_sequence ≡ false
    pub letters :
        leb l.max_dead_letters_per_agent (count_where (dead_of r.agent_id) db.notifications) ≡ false
    pub in_burst : leb l.report_burst (rate_window l now row).1 ≡ false
    pub recovers : recovered ≡ row.offline
    pub marks :
        db'.agents
        ≡ update_where
            (is_agent r.agent_id)
            (seen now r.sequence (rate_window l now row).0 (rate_window l now row).1)
            db.agents
    pub stands : first_where (is_event l m r now) db'.events ≡ some (event_of l m r now)
    pub queued : any_of (awaits r.event_id) db'.notifications ≡ true
    pub boots : BootNoted r.agent_id r.boot_id r.sequence db.boots db'.boots
    pub letters_queued : AllQueued r.agent_id r.event_id now (messages recovered) db'.notifications

  -- The report is one that was let in before.
  pub record Repeated : Type 0 where
    pub row : Event
    pub found : first_where (is_event l m r now) db.events ≡ some row
    pub same : same_payload l m r now row ≡ true

  -- the texts of the messages, stored after the event
  abbrev pub stored : Bool → ℕ → ℕ → Db → Answer Db
  stored recovered started count d = and_store (insert_event l m r now d) (λ u.
      enqueue_all r.agent_id r.event_id now (payloads m recovered)
        (record_agent l m r now started count u))

  -- the tables after the first pruning
  abbrev pub first_pruned : Db
  first_pruned = prune_history l r.agent_id now (max 1 (l.max_events_per_agent - 1)) db

  -- `event_id` is the agent, the boot and the sequence
  abbrev pub named : String → Bool
  named agent =
      r.agent_id == agent
      && safe_name r.boot_id
      && r.event_id == join agent (join ":" (join r.boot_id (join ":" (decimal r.sequence))))

  -- Why a report is refused, for each error.
  pub data Refused : DbError → Type 0 where
    no_agent : first_where (is_agent r.agent_id) db.agents ≡ none → Refused agent_inactive
    inactive :
        (a : Agent)
        → first_where (is_agent r.agent_id) db.agents ≡ some a
        → a.active ≡ false
        → Refused agent_inactive
    other_payload :
        (e : Event)
        → first_where (is_event l m r now) db.events ≡ some e
        → same_payload l m r now e ≡ false
        → Refused sequence_conflict
    old_sequence :
        (a : Agent)
        → first_where (is_agent r.agent_id) db.agents ≡ some a
        → repeats r.sequence a.max_sequence ≡ true
        → Refused sequence_conflict
    dead_letters :
        leb l.max_dead_letters_per_agent (count_where (dead_of r.agent_id) db.notifications) ≡ true
        → Refused backpressure
    no_room :
        (a : Agent)
        → first_where (is_agent r.agent_id) db.agents ≡ some a
        → ensure_pending_capacity l r.agent_id
            (length (payloads m a.offline))
            (total_chunks (payloads m a.offline))
            first_pruned
          ≡ false
        → Refused backpressure
    too_often :
        (a : Agent)
        → first_where (is_agent r.agent_id) db.agents ≡ some a
        → leb l.report_burst (rate_window l now a).1 ≡ true
        → Refused rate_limited
    unwritten :
        (a : Agent)
        → first_where (is_agent r.agent_id) db.agents ≡ some a
        → stored a.offline (rate_window l now a).0 (rate_window l now a).1 first_pruned
          ≡ failed database_error
        → Refused database_error

  -- A call with another agent's or a misshapen id is an error of its argument.
  abbrev pub RefusedBy : String → DbError → Type 0
  RefusedBy agent e =
      ((named agent ≡ true) × Refused e) ⊎ (named agent ≡ false) × (e ≡ bad_argument)

  abbrev pub AcceptedBody : Answer (AcceptResult × Db) → Type 0
  AcceptedBody (failed e) = Refused e
  AcceptedBody (done (x, db')) =
      if x.is_new then Accepted x.recovered db' else (db' ≡ db) × Repeated

  abbrev pub AcceptedAnswer : String → Answer AcceptResult × Db → Type 0
  AcceptedAnswer agent (failed e, db') = (db' ≡ db) × RefusedBy agent e
  AcceptedAnswer agent (done x, db') =
      if x.is_new then Accepted x.recovered db' else (db' ≡ db) × Repeated

  pub commit-Accepted :
      (agent : String) (a : Answer (AcceptResult × Db))
      → named agent ≡ true
      → AcceptedBody a
      → AcceptedAnswer agent (commit db a)
  commit-Accepted agent (failed e) n h = (refl, inl (n, h))
  commit-Accepted agent (done (x, db')) n h = h
