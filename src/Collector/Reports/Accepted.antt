-- ===== src/Collector/Reports/Accepted.antt =====
-- What `accept_report` answers and writes, in every case.
use lite_checker.Prelude.{
  ℕ, ◌-◌, max, ◌≡◌, true, false, Option, none, some, refl, sym, ap, ◌∙◌, inl, inr, length,
  Bool-cases, subst, String, string_eq, nat_eq, leb,
}
use lite_checker.Collector.Rows.{
  Agent, Event, Db, Answer, done, failed, Limits, first_where, update_where, count_where,
  transaction,
}
use lite_checker.Collector.History.{prune_history}
use lite_checker.Collector.History.Spares.{
  any_of-prune_notifications, prune_history-event, prune_history-no_event, prune_history-agents,
}
use lite_checker.Collector.Queue.{ensure_pending_capacity}
use lite_checker.Collector.Reports.{
  AgentReport, Messages, repeats, payloads, total_chunks, rate_window, seen, is_agent, dead_of,
  is_event, same_payload, pruned, store_report, accept_new, accept_event, accept_from,
  accept_report,
}
use lite_checker.Collector.Reports.Verdicts.{
  Refused, no_agent, inactive, other_payload, old_sequence, dead_letters, no_room, too_often,
  unwritten, stored, first_pruned, named, AcceptedBody, AcceptedAnswer, commit-Accepted,
}
use lite_checker.Collector.Reports.Queued.{OnDone, AllQueued-prune}
use lite_checker.Collector.Reports.Written.{Written, inserted-Written, Noted, stored-Noted}

module _ (l : Limits) (m : Messages) (r : AgentReport) (now : ℕ) (db : Db) where
  module _ (a : Agent) (found : first_where (is_agent r.agent_id) db.agents ≡ some a)
      (active : a.active ≡ true) (new : first_where (is_event l m r now) db.events ≡ none) where
    pruned-Accepted :
        (x : Answer Db)
        → stored l m r now db a.offline
            (rate_window l now a).0
            (rate_window l now a).1
            (first_pruned l m r now db)
          ≡ x
        → repeats r.sequence a.max_sequence ≡ false
        → leb l.max_dead_letters_per_agent (count_where (dead_of r.agent_id) db.notifications)
          ≡ false
        → leb l.report_burst (rate_window l now a).1 ≡ false
        → Written l m r now db
            (update_where
              (is_agent r.agent_id)
              (seen now r.sequence (rate_window l now a).0 (rate_window l now a).1)
              db.agents)
            x
        → AcceptedBody l m r now db (pruned l m r now a.offline x)
    pruned-Accepted (failed e) x h i j w =
        subst (Refused l m r now db) (sym w) (unwritten a found (x ∙ ap failed w))
    pruned-Accepted (done d) x h i j (w, f, q) =
        let noted : Noted l m r now db a.offline (first_pruned l m r now db) d =
          subst (OnDone (Noted l m r now db a.offline (first_pruned l m r now db))) x
            (stored-Noted l m r now db a.offline _ _ _) in
        record {
          row = a;
          found = found;
          active = active;
          unseen = new;
          rises = h;
          letters = i;
          in_burst = j;
          recovers = refl;
          marks = unfold prune_history in w;
          stands = prune_history-event l r.agent_id now l.max_events_per_agent d _ _ f q;
          queued =
              unfold prune_history in any_of-prune_notifications r.event_id l now d.notifications q;
          boots = unfold prune_history in noted.0;
          letters_queued =
              unfold prune_history in
              AllQueued-prune r.agent_id r.event_id now l _ d.notifications noted.1;
        }

    let_in :
        repeats r.sequence a.max_sequence ≡ false
        → leb l.max_dead_letters_per_agent (count_where (dead_of r.agent_id) db.notifications)
          ≡ false
        → leb l.report_burst (rate_window l now a).1 ≡ false
        → AcceptedBody l m r now db (
            store_report l m r now a
              (rate_window l now a).0
              (rate_window l now a).1
              (first_pruned l m r now db))
    unfolding store_report
    let_in h i j =
        let ps = payloads m a.offline in
        elim (Bool-cases (
          ensure_pending_capacity l r.agent_id (length ps) (total_chunks ps)
            (first_pruned l m r now db))) [
              | inr e ↦ rw e (no_room a found e)
              | inl e ↦ rw e (
                  pruned-Accepted _ refl h i j (
                    subst
                      (λ rows.
                        Written l m r now db
                          (update_where (is_agent r.agent_id)
                            (seen now r.sequence (rate_window l now a).0 (rate_window l now a).1)
                            rows)
                          (stored l m r now db a.offline (rate_window l now a).0
                            (rate_window l now a).1 (first_pruned l m r now db)))
                      (prune_history-agents l r.agent_id now (max 1 (l.max_events_per_agent - 1))
                        db)
                      (inserted-Written l m r now db a.offline (rate_window l now a).0
                        (rate_window l now a).1 (first_pruned l m r now db)
                        (prune_history-no_event l r.agent_id now _ db _ new))))
            ]

    accept_new-Accepted : AcceptedBody l m r now db (accept_new l m r now a db)
    unfolding accept_new
    accept_new-Accepted = elim (Bool-cases (repeats r.sequence a.max_sequence)) [
      | inl h ↦ rw h (old_sequence a found h)
      | inr h ↦
          rw h
            (elim (Bool-cases (
              leb l.max_dead_letters_per_agent
                (count_where (dead_of r.agent_id) db.notifications))) [
                  | inl i ↦ rw i (dead_letters i)
                  | inr i ↦ rw i (elim (Bool-cases (leb l.report_burst (rate_window l now a).1)) [
                    | inl j ↦ rw j (too_often a found j)
                    | inr j ↦ rw j (let_in h i j)
                  ])
                ])
    ]

  accept_event-Accepted :
      (a : Agent) (o : Option Event)
      → first_where (is_agent r.agent_id) db.agents ≡ some a
      → a.active ≡ true
      → first_where (is_event l m r now) db.events ≡ o
      → AcceptedBody l m r now db (accept_event l m r now a o db)
  unfolding accept_event
  accept_event-Accepted a none f h e = accept_new-Accepted a f h e
  accept_event-Accepted a (some x) f h e = elim (Bool-cases (same_payload l m r now x)) [
    | inl s ↦ rw s (refl, record { row = x; found = e; same = s })
    | inr s ↦ rw s (other_payload x e s)
  ]

  accept_from-Accepted :
      (o : Option Agent)
      → first_where (is_agent r.agent_id) db.agents ≡ o
      → AcceptedBody l m r now db (accept_from l m r now o db)
  unfolding accept_from
  accept_from-Accepted none f = no_agent f
  accept_from-Accepted (some a) f = elim (Bool-cases a.active) [
    | inr e ↦ simp e (inactive a f e)
    | inl e ↦ simp e (accept_event-Accepted a _ f e refl)
  ]

  pub accept_report-Accepted :
      (agent : String) → AcceptedAnswer l m r now db agent (accept_report l m r now agent db)
  unfolding accept_report transaction
  accept_report-Accepted agent = elim (Bool-cases (named l m r now db agent)) [
    | inr e ↦ rw e (refl, inr (e, refl))
    | inl e ↦ simp e (commit-Accepted l m r now db agent _ e (accept_from-Accepted _ refl))
  ]
