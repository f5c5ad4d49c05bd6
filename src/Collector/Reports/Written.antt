-- ===== src/Collector/Reports/Written.antt =====
-- What the writes of `accept_report` leave before the last pruning.
use lite_checker.Prelude.{
  ℕ, ◌≡◌, Bool, true, false, none, some, List, [], ◌∷◌, ◌++◌, refl, sym, subst, inl, inr, any_of,
  Bool-cases, ◌||◌, string_eq, nat_eq, beq_refl,
}
use lite_checker.Collector.Rows.{
  Agent, Boot, Db, Answer, done, failed, database_error, Limits, first_where, update_where,
}
use lite_checker.Collector.Rows.Queries.{first_where-append_new}
use lite_checker.Collector.History.Spares.{awaits}
use lite_checker.Collector.Reports.Enqueued.{Enqueued, enqueue_all-Enqueued}
use lite_checker.Collector.Reports.{
  AgentReport, Messages, payloads, enqueue_all, seen, is_agent, event_of, is_event,
  same_boot_sequence, insert_event, record_agent,
}
use lite_checker.Collector.Reports.Booted.{BootNoted, upsert_boot-BootNoted}
use lite_checker.Collector.Reports.Queued.{OnDone, AllQueued, enqueue_all-AllQueued}
use lite_checker.Collector.Reports.Verdicts.{stored, messages}

module _ (l : Limits) (m : Messages) (r : AgentReport) (now : ℕ) (db : Db) where
  is_event-event_of : is_event l m r now (event_of l m r now) ≡ true
  is_event-event_of = beq_refl r.event_id

  -- what the writes leave before the last pruning
  abbrev pub Written : List Agent → Answer Db → Type 0
  Written rows (failed e) = e ≡ database_error
  Written rows (done d) =
      (d.agents ≡ rows)
      × (first_where (is_event l m r now) d.events ≡ some (event_of l m r now))
      × (any_of (awaits r.event_id) d.notifications ≡ true)

  Enqueued-Written :
      (d : Db) (x : Answer Db)
      → first_where (is_event l m r now) d.events ≡ some (event_of l m r now)
      → Enqueued r.event_id d x
      → Written d.agents x
  Enqueued-Written d (failed e) f h = h
  Enqueued-Written d (done u) f (a, b, c) = (a, rw b f, c)

  payloads-Enqueued :
      (recovered : Bool) (d : Db)
      → Enqueued r.event_id d (enqueue_all r.agent_id r.event_id now (payloads m recovered) d)
  unfolding payloads
  payloads-Enqueued true d = enqueue_all-Enqueued r.agent_id r.event_id now _ _ d
  payloads-Enqueued false d = enqueue_all-Enqueued r.agent_id r.event_id now _ _ d

  pub inserted-Written :
      (recovered : Bool) (started count : ℕ) (d : Db)
      → first_where (is_event l m r now) d.events ≡ none
      → Written
          (update_where (is_agent r.agent_id) (seen now r.sequence started count) d.agents)
          (stored l m r now db recovered started count d)
  unfolding insert_event record_agent
  inserted-Written recovered started count d f =
      elim (Bool-cases
        (any_of (λ e. is_event l m r now e || same_boot_sequence l m r now e) d.events)) [
          | inl e ↦ rw e refl
          | inr e ↦ rw e (
              Enqueued-Written
                (record_agent l m r now started count
                  (record d { events = d.events ++ event_of l m r now ∷ [] }))
                _
                (first_where-append_new (is_event l m r now) d.events (event_of l m r now) f
                  is_event-event_of)
                (payloads-Enqueued recovered _))
        ]

  -- the messages and the boot
  abbrev pub Noted : Bool → Db → Db → Type 0
  Noted recovered d u =
      BootNoted r.agent_id r.boot_id r.sequence d.boots u.boots
      × AllQueued r.agent_id r.event_id now (messages l m r now db recovered) u.notifications

  enqueued-Noted :
      (recovered : Bool) (bs : List Boot) (d u : Db)
      → BootNoted r.agent_id r.boot_id r.sequence d.boots bs
      → u.boots ≡ bs
      → OnDone (Noted recovered d) (enqueue_all r.agent_id r.event_id now (payloads m recovered) u)
  unfolding payloads
  enqueued-Noted recovered bs d u noted same = split recovered
    where
      named :
          (b : Bool) (a : Answer Db)
          → OnDone
              (λ v.
                (v.boots ≡ bs)
                × AllQueued r.agent_id r.event_id now (messages l m r now db b) v.notifications)
              a
          → OnDone (Noted b d) a
      named b (failed e) h = tt
      named b (done v) h =
          (subst (BootNoted r.agent_id r.boot_id r.sequence d.boots) (sym h.0) noted, h.1)

      split :
          (b : Bool) → OnDone (Noted b d) (enqueue_all r.agent_id r.event_id now (payloads m b) u)
      split true =
          named true _ (enqueue_all-AllQueued r.agent_id r.event_id now bs (payloads m true) u same)
      split false =
          named false _
            (enqueue_all-AllQueued r.agent_id r.event_id now bs (payloads m false) u same)

  pub stored-Noted :
      (recovered : Bool) (started count : ℕ) (d : Db)
      → OnDone (Noted recovered d) (stored l m r now db recovered started count d)
  unfolding insert_event record_agent
  stored-Noted recovered started count d =
      elim (Bool-cases
        (any_of (λ e. is_event l m r now e || same_boot_sequence l m r now e) d.events)) [
          | inl e ↦ rw e tt
          | inr e ↦ rw e (
              enqueued-Noted recovered _ d _
                (upsert_boot-BootNoted r.agent_id r.boot_id r.sequence d.boots) refl)
        ]
