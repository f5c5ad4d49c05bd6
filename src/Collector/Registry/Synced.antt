-- ===== src/Collector/Registry/Synced.antt =====
-- What `_sync_registry` makes of an agent that the table has.
use lite_checker.Prelude.{
  ℕ, ◌≡◌, ◌∙◌, refl, sym, ap, subst, arith, String, Bool, true, false, Option, none, some, List, [],
  ◌∷◌, map, contains, string_eq, nat_eq, ◌==◌, ◌||◌, ◌&&◌, if◌then◌else◌, Bool-cases, inl, inr,
}
use lite_checker.Collector.Rows.{Agent, Db, first_where, update_where}
use lite_checker.Collector.Rows.Tables.{first_where-update_where, first_where-All, All-of}
use lite_checker.Collector.Reports.{is_agent}
use lite_checker.Collector.Registry.{
  AgentIdentity, identifiers, deactivate, insert_agent, new_agent, rename, reactivate, sync_row,
  sync_agent, sync_agents, sync_registry,
}

-- The row of the id: its greatest sequence is kept, and it is active as `active` says.
pub record Synced (id : String) (agents : List Agent) (a : Agent) (active : Bool) : Type 0 where
  pub row : Agent
  pub found : first_where (is_agent id) agents ≡ some row
  pub same_sequence : row.max_sequence ≡ a.max_sequence
  pub activity : row.active ≡ active

insert_agent-other :
    (id : String) (x : Agent) (agents : List Agent) {b : Agent}
    → is_agent id x ≡ false
    → first_where (is_agent id) agents ≡ some b
    → first_where (is_agent id) (insert_agent x agents) ≡ some b
unfolding insert_agent first_where
insert_agent-other id x [] n e = absurd (cc e)
insert_agent-other id x (y ∷ agents) {b} n e =
    ground (arith, insert_agent-other id x agents {b = b} n)

map-deactivate :
    (id : String) (ids : List String) (agents : List Agent) {a : Agent}
    → first_where (is_agent id) agents ≡ some a
    → first_where (is_agent id) (map (deactivate ids) agents) ≡ some (deactivate ids a)
unfolding first_where deactivate
map-deactivate id ids [] e = absurd (cc e)
map-deactivate id ids (x ∷ agents) {a} e = ground (arith, map-deactivate id ids agents {a = a})

deactivate-sequence :
    (ids : List String) (a : Agent) → (deactivate ids a).max_sequence ≡ a.max_sequence
unfolding deactivate
deactivate-sequence ids a = ground arith

deactivate-active :
    (ids : List String) (a : Agent)
    → (deactivate ids a).active ≡ (contains ids a.agent_id && a.active)
unfolding deactivate
deactivate-active ids a = ground arith

module _ (now : ℕ) (i : AgentIdentity) (id : String) where
  -- an update of the rows of the identity
  updated-Synced :
      (f : Agent → Agent) (agents : List Agent) (b : Agent) (active : Bool)
      → first_where (is_agent id) agents ≡ some b
      → ((x : Agent) → (f x).agent_id ≡ x.agent_id)
      → ((x : Agent) → (f x).max_sequence ≡ x.max_sequence)
      → (if is_agent i.agent_id b then (f b).active else b.active) ≡ active
      → Synced id (update_where (is_agent i.agent_id) f agents) b active
  updated-Synced f agents b active e same kept act =
      let found =
        first_where-update_where (is_agent id) (is_agent i.agent_id) f agents
          (λ x. ap (λ j. j == id) (same x)) e in
      elim (Bool-cases (is_agent i.agent_id b)) [
        | inl q ↦ record {
          row = f b;
          found = found ∙ ap (λ c. some (if c then f b else b)) q;
          same_sequence = kept b;
          activity = ground arith;
        }
        | inr q ↦ record {
          row = b;
          found = found ∙ ap (λ c. some (if c then f b else b)) q;
          same_sequence = refl;
          activity = ground arith;
        }
      ]

  -- what either update does to a row
  abbrev chosen : Bool → Agent → Agent
  chosen c = if c then rename now i else reactivate now i

  chosen-same : (c : Bool) (y : Agent) → (chosen c y).agent_id ≡ y.agent_id
  unfolding rename reactivate
  chosen-same true y = refl
  chosen-same false y = refl

  chosen-kept : (c : Bool) (y : Agent) → (chosen c y).max_sequence ≡ y.max_sequence
  unfolding rename reactivate
  chosen-kept true y = refl
  chosen-kept false y = refl

  chosen-active : (c : Bool) (y : Agent) → y.active ≡ c → (chosen c y).active ≡ true
  unfolding rename reactivate
  chosen-active true y e = e
  chosen-active false y e = refl

  sync_row-Synced :
      (o : Option Agent) (agents : List Agent) (b : Agent)
      → first_where (is_agent i.agent_id) agents ≡ o
      → first_where (is_agent id) agents ≡ some b
      → Synced id (sync_row now i o agents) b (if i.agent_id == id then true else b.active)
  unfolding sync_row
  sync_row-Synced none agents b n e = elim (Bool-cases (i.agent_id == id)) [
    | inl p ↦ absurd (
        cc (
          sym (
            subst (λ j. first_where (is_agent j) agents ≡ none)
              ((string_eq.same_iff i.agent_id id).0 p) n)
          ∙ e))
    | inr p ↦ rw p (record {
      row = b;
      found = insert_agent-other id (new_agent now i) agents p e;
      same_sequence = refl;
      activity = refl;
    })
  ]
  sync_row-Synced (some x) agents b n e =
      let named : b.agent_id ≡ id =
        (string_eq.same_iff b.agent_id id).0
          (first_where-All (λ _. Unit {0}) (is_agent id) agents b (All-of (λ _. tt) agents) e).1 in
      let update = updated-Synced (chosen x.active) agents b in
      elim (Bool-cases (i.agent_id == id)) [
        | inl p ↦
            let q : i.agent_id ≡ id = (string_eq.same_iff i.agent_id id).0 p in
            let here = (string_eq.same_iff b.agent_id i.agent_id).1 (named ∙ sym q) in
            let x_b : x ≡ b =
              cc (sym (subst (λ j. first_where (is_agent j) agents ≡ some x) q n) ∙ e) in
            rw p (
              update true e (chosen-same x.active) (chosen-kept x.active)
                (rw here (chosen-active x.active b (ap (λ (y : Agent). y.active) (sym x_b)))))
        | inr p ↦
            let there : is_agent i.agent_id b ≡ false = elim (Bool-cases (is_agent i.agent_id b)) [
              | inr f ↦ f
              | inl t ↦ absurd (
                  cc (
                    sym p
                    ∙ (string_eq.same_iff i.agent_id id).1
                        (sym ((string_eq.same_iff b.agent_id i.agent_id).0 t) ∙ named)))
            ] in
            rw p (update b.active e (chosen-same x.active) (chosen-kept x.active) (rw there refl))
      ]

sync_agents-Synced :
    (now : ℕ) (is : List AgentIdentity) (id : String) (agents : List Agent) (b : Agent)
    → first_where (is_agent id) agents ≡ some b
    → Synced id (sync_agents now is agents) b (contains (identifiers is) id || b.active)
unfolding sync_agents sync_agent
sync_agents-Synced now [] id agents b e = record {
  row = b;
  found = e;
  same_sequence = refl;
  activity = refl;
}
sync_agents-Synced now (i ∷ is) id agents b e =
    let one = sync_row-Synced now i id _ agents b refl e in
    let rest = sync_agents-Synced now is id _ one.row one.found in
    record {
      row = rest.row;
      found = rest.found;
      same_sequence = rest.same_sequence ∙ one.same_sequence;
      activity = ground (arith, rest.activity, one.activity);
    }

-- After the configuration is read, an agent that the table had is still there with its greatest
-- sequence, so that an old report is refused also after the agent was inactive; and it is active
-- when it is configured, and only then.
pub sync_registry-Synced :
    (is : List AgentIdentity) (now : ℕ) (db : Db) (id : String) (a : Agent)
    → first_where (is_agent id) db.agents ≡ some a
    → Synced id (sync_registry is now db).agents a (contains (identifiers is) id)
unfolding sync_registry
sync_registry-Synced is now db id a e =
    let named : contains (identifiers is) a.agent_id ≡ contains (identifiers is) id =
      ap (contains (identifiers is)) (
        (string_eq.same_iff a.agent_id id).0
          (first_where-All (λ _. Unit {0}) (is_agent id) db.agents a (All-of (λ _. tt) db.agents)
            e).1) in
    let d = map-deactivate id (identifiers is) db.agents e in
    let s = sync_agents-Synced now is id _ _ d in
    record {
      row = s.row;
      found = s.found;
      same_sequence = s.same_sequence ∙ deactivate-sequence (identifiers is) a;
      activity = ground (arith, s.activity, deactivate-active (identifiers is) a, named);
    }
