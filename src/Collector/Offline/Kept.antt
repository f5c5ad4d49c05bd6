-- ===== src/Collector/Offline/Kept.antt =====
-- The well-formed outbox under a sweep of `offline_transitions`.
use lite_checker.Prelude.{
  ℕ, String, Bool, none, List, [], ◌∷◌, inl, inr, length, any_of, string_eq, Bool-cases,
}
use lite_checker.Collector.Rows.{
  offline_alert, Agent, Db, Answer, done, failed, transaction, Limits, for_offline, update_where,
}
use lite_checker.Collector.Rows.Valid.{IsValidOutbox}
use lite_checker.Collector.Queue.{ensure_pending_capacity}
use lite_checker.Collector.Outbox.Invariant.{Kept, commit-IsValidOutbox, insert_notification-Kept}
use lite_checker.Collector.Offline.{
  OfflineTransition, evidence_us, never_seen, silent, mark_offline, marked, with_transition,
  go_offline, offline_row, prepend, and_rows, offline_rows, offline_transitions,
}

module _ (l : Limits) (alert : Agent → ℕ → ℕ → Bool → List String) (now : ℕ) where
  with_transition-Kept :
      (a : Agent) (x : Answer (ℕ × Db)) → Kept x → Kept (with_transition l alert now a x)
  with_transition-Kept a (failed e) h = tt
  with_transition-Kept a (done (i, d)) h = h

  go_offline-Kept :
      (a : Agent) (body : List String) (db : Db)
      → IsValidOutbox db
      → Kept (go_offline l alert now a body db)
  unfolding go_offline
  go_offline-Kept a body db v = elim (Bool-cases (any_of (marked a) db.agents)) [
    | inr e ↦ rw e v
    | inl e ↦ rw e (
        with_transition-Kept a _ (
          insert_notification-Kept offline_alert a.agent_id none now none body
            (for_offline a.agent_id now)
            (record db { agents = update_where (marked a) (mark_offline now) db.agents })
            (record { rows = v.rows; order = v.order; given = v.given })))
  ]

  offline_row-Kept : (a : Agent) (db : Db) → IsValidOutbox db → Kept (offline_row l alert now a db)
  unfolding offline_row
  offline_row-Kept a db v = elim (Bool-cases (silent l now a)) [
    | inr e ↦ rw e v
    | inl e ↦
        rw e
          (elim (Bool-cases (
            ensure_pending_capacity l a.agent_id 1
              (length (alert a (evidence_us a) now (never_seen a))) db)) [
                | inl f ↦ rw f (go_offline-Kept a _ db v)
                | inr f ↦ rw f tt
              ])
  ]

  prepend-Kept :
      (ts : List OfflineTransition) (y : Answer (List OfflineTransition × Db))
      → Kept y
      → Kept (prepend l alert now ts y)
  prepend-Kept ts (failed e) h = tt
  prepend-Kept ts (done (us, d)) h = h

  and_rows-Kept :
      (x : Answer (List OfflineTransition × Db)) (f : Db → Answer (List OfflineTransition × Db))
      → Kept x
      → ((d : Db) → IsValidOutbox d → Kept (f d))
      → Kept (and_rows l alert now x f)
  and_rows-Kept (failed e) f h k = tt
  and_rows-Kept (done (ts, d)) f h k = prepend-Kept ts (f d) (k d h)

  offline_rows-Kept :
      (rows : List Agent) (db : Db) → IsValidOutbox db → Kept (offline_rows l alert now rows db)
  unfolding offline_rows
  offline_rows-Kept [] db v = v
  offline_rows-Kept (a ∷ rows) db v =
      and_rows-Kept _ (offline_rows l alert now rows) (offline_row-Kept a db v)
        (offline_rows-Kept rows)

  pub offline_transitions-IsValidOutbox :
      (db : Db) → IsValidOutbox db → IsValidOutbox (offline_transitions l alert now db).1
  unfolding offline_transitions transaction
  offline_transitions-IsValidOutbox db v = commit-IsValidOutbox db _ v (offline_rows-Kept _ db v)
