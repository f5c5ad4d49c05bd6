-- ===== src/Collector/Offline/Turned.antt =====
-- The loop of `offline_transitions` in collector/db.py, turn by turn.
use lite_checker.Prelude.{
  ℕ, ◌≡◌, String, Bool, true, false, none, List, [], ◌∷◌, arith, ◌⊎◌, refl, sym, ap, ◌∙◌, ◌++◌, All,
  Some, inl, inr, length, any_of, string_eq, nat_eq, ◌==◌, Bool-cases, and-eq_true, false≢true,
}
use lite_checker.Collector.Rows.{
  offline_alert, Agent, Db, Answer, done, failed, DbError, backpressure, database_error, Limits,
  for_offline, key_beq, update_where,
}
use lite_checker.Collector.Queue.{insert_notification, ensure_pending_capacity}
use lite_checker.Collector.Offline.{
  OfflineTransition, watched, evidence_us, never_seen, silent, mark_offline, marked,
  with_transition, go_offline, offline_row, prepend, and_rows, offline_rows,
}

module _ (l : Limits) (alert : Agent → ℕ → ℕ → Bool → List String) (now : ℕ) where
  -- the agents that are watched and silent are among the rows still to come
  abbrev pub Awaited : List Agent → List Agent → Type 0
  Awaited rows agents =
      All (λ b. watched b ≡ true → silent l now b ≡ true → Some (λ a. a ≡ b) rows) agents

  -- a watched agent that is not marked is not the one that was
  others :
      (a : Agent) (rows : List Agent) (b : Agent)
      → Some (λ x. x ≡ b) (a ∷ rows)
      → marked a b ≡ false
      → watched b ≡ true
      → Some (λ x. x ≡ b) rows
  others a rows b (inr k) e w = k
  others a rows b (inl k) e w = absurd (
      same ((string_eq.same_iff b.agent_id a.agent_id).1 (ap (λ (x : Agent). x.agent_id) (sym k))) e
        w)
    where
      same : (b.agent_id == a.agent_id) ≡ true → marked a b ≡ false → watched b ≡ true → ⊥
      same i e w = ground arith

  Awaited-marked :
      (a : Agent) (rows agents : List Agent)
      → Awaited (a ∷ rows) agents
      → Awaited rows (update_where (marked a) (mark_offline now) agents)
  unfolding update_where mark_offline
  Awaited-marked a rows [] h = tt
  Awaited-marked a rows (b ∷ agents) h = elim (Bool-cases (marked a b)) [
    | inl e ↦ rw e (
      (λ w. absurd (false≢true (and-eq_true b.active false w).1)),
      Awaited-marked a rows agents h.1,
    )
    | inr e ↦ rw e ((λ w s. others a rows b (h.0 w s) e w), Awaited-marked a rows agents h.1)
  ]

  Awaited-unmarked :
      (a : Agent) (rows agents : List Agent)
      → any_of (marked a) agents ≡ false
      → Awaited (a ∷ rows) agents
      → Awaited rows agents
  Awaited-unmarked a rows [] q h = tt
  Awaited-unmarked a rows (b ∷ agents) q h = (
    (λ w s. others a rows b (h.0 w s) (ground arith) w),
    Awaited-unmarked a rows agents (ground arith) h.1,
  )

  Awaited-spoken :
      (a : Agent) (rows agents : List Agent)
      → silent l now a ≡ false
      → Awaited (a ∷ rows) agents
      → Awaited rows agents
  Awaited-spoken a rows [] q h = tt
  Awaited-spoken a rows (b ∷ agents) q h =
      ((λ w s. later (h.0 w s) s), Awaited-spoken a rows agents q h.1)
    where
      later : Some (λ x. x ≡ b) (a ∷ rows) → silent l now b ≡ true → Some (λ x. x ≡ b) rows
      later (inr k) s = k
      later (inl k) s = absurd (cc (ap (silent l now) k, q, s))

  abbrev pub body_of : Agent → List String
  body_of a = alert a (evidence_us a) now (never_seen a)

  -- in this database, the alert for the agent has no room, or its row is not valid
  abbrev pub NoRow : Agent → Db → DbError → Type 0
  NoRow a d e =
      ((e ≡ backpressure) × (ensure_pending_capacity l a.agent_id 1 (length (body_of a)) d ≡ false))
      ⊎ ((e ≡ database_error)
          × (ensure_pending_capacity l a.agent_id 1 (length (body_of a)) d ≡ true)
          × ((any_of (λ n. key_beq n.dedupe_key (for_offline a.agent_id now)) d.notifications
                ≡ true)
              ⊎ ((length (body_of a) == 0) ≡ true)))

  -- The loop stopped at a silent agent, after the turns of the rows before it.
  pub record Stopped (rows : List Agent) (db : Db) (e : DbError) : Type 0 where
    pub before : List Agent
    pub agent : Agent
    pub after : List Agent
    pub splits : rows ≡ before ++ agent ∷ after
    pub made : List OfflineTransition
    pub reached : Db
    pub turned : offline_rows l alert now before db ≡ done (made, reached)
    pub silent_there : silent l now agent ≡ true
    pub reason : NoRow agent reached e

  -- what turns of the loop from `db` on leave of the rows that are still to come
  abbrev pub Turned : List Agent → Db → List Agent → Answer (List OfflineTransition × Db) → Type 0
  Turned turned db rows (failed e) = Stopped turned db e
  Turned turned db rows (done (ts, d)) = Awaited rows d.agents

  -- a single turn
  abbrev TurnedOne : Agent → List Agent → Db → Answer (List OfflineTransition × Db) → Type 0
  TurnedOne a rows db (failed e) = NoRow a db e
  TurnedOne a rows db (done (ts, d)) = Awaited rows d.agents

  with_transition-Turned :
      (a : Agent) (rows : List Agent) (db d : Db)
      → d.notifications ≡ db.notifications
      → ensure_pending_capacity l a.agent_id 1 (length (body_of a)) db ≡ true
      → Awaited rows d.agents
      → TurnedOne a rows db (
          with_transition l alert now a (
            insert_notification offline_alert a.agent_id none now none
              (body_of a)
              (for_offline a.agent_id now)
              d))
  unfolding insert_notification
  with_transition-Turned a rows db d same room h =
      elim (Bool-cases
        (any_of (λ n. key_beq n.dedupe_key (for_offline a.agent_id now)) d.notifications)) [
          | inl e ↦ rw e (
              inr (
                refl,
                room,
                inl (
                    ap (any_of (λ n. key_beq n.dedupe_key (for_offline a.agent_id now))) (sym same)
                    ∙ e),
              ))
          | inr e ↦ rw e (elim (Bool-cases (length (body_of a) == 0)) [
            | inl f ↦ simp f (inr (refl, room, inr refl))
            | inr f ↦ simp f h
          ])
        ]

  -- when no row is marked, nobody with the id is watched
  go_offline-Turned :
      (a : Agent) (rows : List Agent) (db : Db)
      → ensure_pending_capacity l a.agent_id 1 (length (body_of a)) db ≡ true
      → Awaited (a ∷ rows) db.agents
      → TurnedOne a rows db (go_offline l alert now a (body_of a) db)
  unfolding go_offline
  go_offline-Turned a rows db room h = elim (Bool-cases (any_of (marked a) db.agents)) [
    | inl e ↦ rw e (
        with_transition-Turned a rows db
          (record db { agents = update_where (marked a) (mark_offline now) db.agents }) refl room
          (Awaited-marked a rows db.agents h))
    | inr e ↦ rw e (Awaited-unmarked a rows db.agents e h)
  ]

  -- the turn of an agent that has spoken, and that of one that has not
  offline_row-Turned :
      (a : Agent) (rows : List Agent) (db : Db)
      → Awaited (a ∷ rows) db.agents
      → ((silent l now a ≡ false)
          × TurnedOne a rows db (offline_row l alert now a db)
          × (offline_row l alert now a db ≡ done ([], db)))
        ⊎ ((silent l now a ≡ true) × TurnedOne a rows db (offline_row l alert now a db))
  unfolding offline_row
  offline_row-Turned a rows db h = elim (Bool-cases (silent l now a)) [
    | inr e ↦ rw e (inl (refl, Awaited-spoken a rows db.agents e h, refl))
    | inl e ↦ rw e (
        inr (
          refl,
          elim (Bool-cases (ensure_pending_capacity l a.agent_id 1 (length (body_of a)) db)) [
            | inl f ↦ simp f (go_offline-Turned a rows db f h)
            | inr f ↦ simp f (inl (refl, refl))
          ],
        ))
  ]

  -- the first turn, and then the others
  and_rows-Turned :
      (a : Agent) (rows : List Agent) (db : Db) (x : Answer (List OfflineTransition × Db))
      → offline_row l alert now a db ≡ x
      → ((silent l now a ≡ false) × TurnedOne a rows db x × (x ≡ done ([], db)))
        ⊎ ((silent l now a ≡ true) × TurnedOne a rows db x)
      → ((d : Db) → Awaited rows d.agents → Turned rows d [] (offline_rows l alert now rows d))
      → Turned (a ∷ rows) db [] (and_rows l alert now x (offline_rows l alert now rows))
  unfolding offline_rows
  and_rows-Turned a rows db (failed e) q (inl (s, t, p)) k = absurd (cc p)
  and_rows-Turned a rows db (failed e) q (inr (s, t)) k = record {
    before = [];
    agent = a;
    after = rows;
    splits = refl;
    made = [];
    reached = db;
    turned = refl;
    silent_there = s;
    reason = t;
  }
  and_rows-Turned a rows db (done (ts, d)) q h k =
      join (offline_rows l alert now rows d) (k d awaited)
    where
      awaited : Awaited rows d.agents
      awaited = elim h [ inl (s, t, p) ↦ t | inr (s, t) ↦ t ]

      join :
          (y : Answer (List OfflineTransition × Db))
          → Turned rows d [] y
          → Turned (a ∷ rows) db [] (prepend l alert now ts y)
      join (done (us, u)) g = g
      join (failed e) g = record {
        before = a ∷ g.before;
        agent = g.agent;
        after = g.after;
        splits = ap (λ as_. a ∷ as_) g.splits;
        made = ts ++ g.made;
        reached = g.reached;
        turned = rw q (rw g.turned refl);
        silent_there = g.silent_there;
        reason = g.reason;
      }

  pub offline_rows-Turned :
      (rows : List Agent) (db : Db)
      → Awaited rows db.agents
      → Turned rows db [] (offline_rows l alert now rows db)
  unfolding offline_rows
  offline_rows-Turned [] db h = h
  offline_rows-Turned (a ∷ rows) db h =
      and_rows-Turned a rows db (offline_row l alert now a db) refl (offline_row-Turned a rows db h)
        (offline_rows-Turned rows)
