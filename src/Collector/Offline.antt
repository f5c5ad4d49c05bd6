-- ===== src/Collector/Offline.antt =====
-- `CollectorDB.offline_transitions` of collector/db.py. The alert, which collector/reporting.py
-- writes and `chunk_message` cuts, is an argument.
pub mod Settled
pub mod Turned
pub mod Kept
use lite_checker.Prelude.{
  ℕ, ◌+◌, ◌*◌, ◌/◌, String, Bool, true, false, Option, none, some, List, [], ◌∷◌, ◌++◌, ◌&&◌, not,
  ltb, max, length, any_of, string_eq, ◌==◌, if◌then◌else◌,
}
use lite_checker.Collector.Rows.{
  offline_alert, Agent, Db, Answer, done, failed, Tx, transaction, Limits, for_offline,
  update_where, delete_where, backpressure,
}
use lite_checker.Collector.Queue.{insert_notification, ensure_pending_capacity}

pub record OfflineTransition : Type 0 where
  pub agent : Agent
  pub last_seen_us : ℕ
  pub offline_since_us : ℕ
  pub never_seen : Bool

-- `active = 1 AND offline = 0`
abbrev pub watched : Agent → Bool
watched a = a.active && not a.offline

-- when the agent was seen, or else activated
unfoldable pub evidence_us : Agent → ℕ
evidence_us a = elim a.last_seen_us [ none ↦ a.activated_at_us | some t ↦ t ]

abbrev pub never_seen : Agent → Bool
never_seen a = elim a.last_seen_us [ none ↦ true | some _ ↦ false ]

-- not seen for two and a half intervals, and for the configured seconds
unfoldable pub silent : Limits → ℕ → Agent → Bool
unfolding evidence_us
silent l now a = not (
    ltb now (
      evidence_us a
      + max l.offline_threshold ((a.expected_interval_seconds * 5 + 1) / 2) * 1000000))

-- `offline = 1, offline_since_us = ?`
unfoldable pub mark_offline : ℕ → Agent → Agent
mark_offline now a = record a { offline = true; offline_since_us = some now }

abbrev pub marked : Agent → Agent → Bool
marked a b = b.agent_id == a.agent_id && watched b

module _ (l : Limits) (alert : Agent → ℕ → ℕ → Bool → List String) (now : ℕ) where
  abbrev pub transition : Agent → OfflineTransition
  transition a = record {
    agent = a;
    last_seen_us = evidence_us a;
    offline_since_us = now;
    never_seen = never_seen a;
  }

  abbrev pub with_transition : Agent → Answer (ℕ × Db) → Answer (List OfflineTransition × Db)
  with_transition a (failed e) = failed e
  with_transition a (done (id, db)) = done (transition a ∷ [], db)

  unfoldable pub go_offline : Agent → List String → Tx (List OfflineTransition)
  go_offline a body db =
      if any_of (marked a) db.agents
      then with_transition a (
          insert_notification offline_alert a.agent_id none now none body
            (for_offline a.agent_id now)
            (record db { agents = update_where (marked a) (mark_offline now) db.agents }))
      else done ([], db)

  -- one turn of the loop
  unfoldable pub offline_row : Agent → Tx (List OfflineTransition)
  offline_row a db =
      let body = alert a (evidence_us a) now (never_seen a) in
      if not (silent l now a)
      then done ([], db)
      else if ensure_pending_capacity l a.agent_id 1 (length body) db
      then go_offline a body db
      else failed backpressure

  abbrev pub prepend :
      List OfflineTransition
      → Answer (List OfflineTransition × Db)
      → Answer (List OfflineTransition × Db)
  prepend ts (failed e) = failed e
  prepend ts (done (us, db)) = done (ts ++ us, db)

  abbrev pub and_rows :
      Answer (List OfflineTransition × Db)
      → (Db → Answer (List OfflineTransition × Db))
      → Answer (List OfflineTransition × Db)
  and_rows (failed e) f = failed e
  and_rows (done (ts, db)) f = prepend ts (f db)

  unfoldable pub offline_rows : List Agent → Tx (List OfflineTransition)
  offline_rows [] db = done ([], db)
  offline_rows (a ∷ rest) db = and_rows (offline_row a db) (offline_rows rest)

  unfoldable pub offline_transitions : Db → Answer (List OfflineTransition) × Db
  offline_transitions db =
      transaction (λ d. offline_rows (delete_where (λ a. not (watched a)) d.agents) d) db
