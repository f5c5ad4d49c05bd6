-- ===== src/Collector/Reports/Kept.antt =====
-- The well-formed outbox under `accept_report`.
use lite_checker.Prelude.{
  ℕ, Bool, Option, none, some, inl, inr, any_of, length, Bool-cases, ◌||◌, String, string_eq,
  nat_eq, leb,
}
use lite_checker.Collector.Rows.{
  Agent, Event, Db, Answer, done, failed, Limits, count_where, transaction,
}
use lite_checker.Collector.Rows.Valid.{IsValidOutbox}
use lite_checker.Collector.History.Keeps.{prune_history-IsValidOutbox}
use lite_checker.Collector.Queue.{ensure_pending_capacity}
use lite_checker.Collector.Outbox.Invariant.{Kept, commit-IsValidOutbox, guard-IsValidOutbox}
use lite_checker.Collector.Reports.Enqueued.{StoreKept, and_store-StoreKept, enqueue_all-StoreKept}
use lite_checker.Collector.Reports.{
  AgentReport, Messages, repeats, payloads, total_chunks, rate_window, dead_of, is_event,
  same_payload, same_boot_sequence, insert_event, record_agent, pruned, store_report, accept_new,
  accept_event, accept_from, accept_report,
}

module _ (l : Limits) (m : Messages) (r : AgentReport) (now : ℕ) where
  insert_event-StoreKept : (db : Db) → IsValidOutbox db → StoreKept (insert_event l m r now db)
  unfolding insert_event
  insert_event-StoreKept db v =
      elim (Bool-cases
        (any_of (λ e. is_event l m r now e || same_boot_sequence l m r now e) db.events)) [
          | inl e ↦ rw e tt
          | inr e ↦ rw e (record { rows = v.rows; order = v.order; given = v.given })
        ]

  record_agent-IsValidOutbox :
      (started count : ℕ) (db : Db)
      → IsValidOutbox db
      → IsValidOutbox (record_agent l m r now started count db)
  unfolding record_agent
  record_agent-IsValidOutbox started count db v = record {
    rows = v.rows;
    order = v.order;
    given = v.given;
  }

  pruned-Kept :
      (recovered : Bool) (x : Answer Db) → StoreKept x → Kept (pruned l m r now recovered x)
  pruned-Kept recovered (failed e) h = tt
  pruned-Kept recovered (done d) h =
      prune_history-IsValidOutbox l r.agent_id now l.max_events_per_agent d h

  store_report-Kept :
      (a : Agent) (started count : ℕ) (db : Db)
      → IsValidOutbox db
      → Kept (store_report l m r now a started count db)
  unfolding store_report
  store_report-Kept a started count db v =
      let ps = payloads m a.offline in
      elim (Bool-cases (ensure_pending_capacity l r.agent_id (length ps) (total_chunks ps) db)) [
        | inr e ↦ rw e tt
        | inl e ↦ rw e (
            pruned-Kept a.offline _ (
              and_store-StoreKept _ _ (insert_event-StoreKept db v) (λ d w.
                enqueue_all-StoreKept r.agent_id r.event_id now ps _
                  (record_agent-IsValidOutbox started count d w))))
      ]

  accept_new-Kept : (a : Agent) (db : Db) → IsValidOutbox db → Kept (accept_new l m r now a db)
  unfolding accept_new
  accept_new-Kept a db v = elim (Bool-cases (repeats r.sequence a.max_sequence)) [
    | inl h ↦ rw h tt
    | inr h ↦
        rw h
          (elim (Bool-cases (
            leb l.max_dead_letters_per_agent (count_where (dead_of r.agent_id) db.notifications))) [
              | inl i ↦ rw i tt
              | inr i ↦ rw i (elim (Bool-cases (leb l.report_burst (rate_window l now a).1)) [
                | inl j ↦ rw j tt
                | inr j ↦ rw j (
                    store_report-Kept a _ _ _ (prune_history-IsValidOutbox l r.agent_id now _ db v))
              ])
            ])
  ]

  accept_event-Kept :
      (a : Agent) (o : Option Event) (db : Db)
      → IsValidOutbox db
      → Kept (accept_event l m r now a o db)
  unfolding accept_event
  accept_event-Kept a none db v = accept_new-Kept a db v
  accept_event-Kept a (some x) db v = elim (Bool-cases (same_payload l m r now x)) [
    | inl s ↦ rw s v
    | inr s ↦ rw s tt
  ]

  accept_from-Kept :
      (o : Option Agent) (db : Db) → IsValidOutbox db → Kept (accept_from l m r now o db)
  unfolding accept_from
  accept_from-Kept none db v = tt
  accept_from-Kept (some a) db v = elim (Bool-cases a.active) [
    | inr e ↦ simp e tt
    | inl e ↦ simp e (accept_event-Kept a _ db v)
  ]

  pub accept_report-IsValidOutbox :
      (agent : String) (db : Db)
      → IsValidOutbox db
      → IsValidOutbox (accept_report l m r now agent db).1
  unfolding accept_report transaction
  accept_report-IsValidOutbox agent db v =
      guard-IsValidOutbox _ _ _ (commit-IsValidOutbox db _ v (accept_from-Kept _ db v)) v
