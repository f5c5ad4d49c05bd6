-- ===== src/Collector/Offline/Settled.antt =====
-- The agents after a sweep of `offline_transitions`.
use lite_checker.Prelude.{
  ℕ, ◌≡◌, String, Bool, true, false, List, [], ◌∷◌, not, refl, All, Some, inl, inr, string_eq,
  nat_eq, Bool-cases,
}
use lite_checker.Collector.Rows.{
  Agent, Db, Answer, done, failed, transaction, commit, Limits, delete_where,
}
use lite_checker.Collector.Rows.Tables.{All-map}
use lite_checker.Collector.Offline.{OfflineTransition, watched, silent, offline_transitions}
use lite_checker.Collector.Offline.Turned.{Awaited, Turned, Stopped, offline_rows-Turned}

module _ (l : Limits) (alert : Agent → ℕ → ℕ → Bool → List String) (now : ℕ) where
  -- no agent is watched and silent
  abbrev pub Settled : List Agent → Type 0
  Settled agents = All (λ b. watched b ≡ true → silent l now b ≡ false) agents

  -- the rows that the SELECT finds
  abbrev pub selected : List Agent → List Agent
  selected = delete_where (λ a. not (watched a))

  selected-head :
      (a : Agent) (agents : List Agent)
      → watched a ≡ true
      → Some (λ x. x ≡ a) (selected (a ∷ agents))
  unfolding delete_where
  selected-head a agents w = rw w (inl refl)

  selected-tail :
      (a b : Agent) (agents : List Agent)
      → Some (λ x. x ≡ b) (selected agents)
      → Some (λ x. x ≡ b) (selected (a ∷ agents))
  unfolding delete_where
  selected-tail a b agents h = elim (Bool-cases (watched a)) [
    | inl e ↦ rw e (inr h)
    | inr e ↦ rw e h
  ]

  selected-All :
      (agents : List Agent)
      → All (λ b. watched b ≡ true → Some (λ x. x ≡ b) (selected agents)) agents
  selected-All [] = tt
  selected-All (a ∷ agents) = (
    selected-head a agents,
    All-map _ _ agents (λ b k w. selected-tail a b agents (k w)) (selected-All agents),
  )

  Awaited-none : (agents : List Agent) → Awaited l alert now [] agents → Settled agents
  Awaited-none agents h =
      All-map _ _ agents
        (λ b k w. elim (Bool-cases (silent l now b)) [ inl s ↦ absurd (k w s) | inr s ↦ s ]) h

  abbrev pub SweptAnswer : Db → Answer (List OfflineTransition) × Db → Type 0
  SweptAnswer db (failed e, db') = (db' ≡ db) × Stopped l alert now (selected db.agents) db e
  SweptAnswer db (done ts, db') = Settled db'.agents

  commit-Swept :
      (db : Db) (x : Answer (List OfflineTransition × Db))
      → Turned l alert now (selected db.agents) db [] x
      → SweptAnswer db (commit db x)
  commit-Swept db (failed e) h = (refl, h)
  commit-Swept db (done (ts, d)) h = Awaited-none d.agents h

  -- After a sweep that returns, every active agent that is not marked as offline has been seen, or
  -- was activated, within the threshold; after one that raises nothing is changed, and
  -- the loop had come to a silent agent, for whose alert there was no room then, or, with room, no chunk or
  -- a key that was there.
  pub offline_transitions-Settled : (db : Db) → SweptAnswer db (offline_transitions l alert now db)
  unfolding offline_transitions transaction
  offline_transitions-Settled db = commit-Swept db _ (
      offline_rows-Turned l alert now _ db
        (All-map _ _ db.agents (λ b k w s. k w) (selected-All db.agents)))
