-- ===== src/Collector/Registry.antt =====
-- `CollectorDB._sync_registry` of collector/db.py: the configured agents and the table of agents.
pub mod Synced
use Prim.Native.Nat.{Ordering}
use Prim.Native.String.{compare}
use lite_checker.Prelude.{
  ℕ, String, Bool, true, false, Option, none, some, List, [], ◌∷◌, map, contains, string_eq, nat_eq,
  ◌==◌, if◌then◌else◌,
}
use lite_checker.Collector.Rows.{Agent, Db, first_where, update_where}
use lite_checker.Collector.Reports.{is_agent}

-- `AgentIdentity` of collector/auth.py, which has a positive interval
pub record AgentIdentity : Type 0 where
  pub agent_id : String
  pub city : String
  pub name : String
  pub expected_interval_seconds : ℕ

abbrev pub identifiers : List AgentIdentity → List String
identifiers [] = []
identifiers (i ∷ rest) = i.agent_id ∷ identifiers rest

-- `active = 0` for an agent that is not configured
unfoldable pub deactivate : List String → Agent → Agent
deactivate ids a = if contains ids a.agent_id then a else record a { active = false }

-- the row stands in the order of the ids
unfoldable pub insert_agent : Agent → List Agent → List Agent
insert_agent a [] = a ∷ []
insert_agent a (b ∷ rest) =
    let later = insert_agent a rest in
    if elim (compare a.agent_id b.agent_id) [ Ordering.lt ↦ true | _ ↦ false ]
    then a ∷ b ∷ rest
    else b ∷ later

module _ (activated_at_us : ℕ) (i : AgentIdentity) where
  -- the columns that the INSERT does not name have their defaults
  abbrev pub new_agent : Agent
  new_agent = record {
    agent_id = i.agent_id;
    city = i.city;
    name = i.name;
    expected_interval_seconds = i.expected_interval_seconds;
    active = true;
    last_seen_us = none;
    offline = false;
    offline_since_us = none;
    max_sequence = none;
    activated_at_us = activated_at_us;
    rate_window_started_us = none;
    rate_count = 0;
  }

  unfoldable pub rename : Agent → Agent
  rename a = record a {
    city = i.city;
    name = i.name;
    expected_interval_seconds = i.expected_interval_seconds;
    activated_at_us = if a.activated_at_us == 0 then activated_at_us else a.activated_at_us;
  }

  unfoldable pub reactivate : Agent → Agent
  reactivate a = record a {
    city = i.city;
    name = i.name;
    expected_interval_seconds = i.expected_interval_seconds;
    active = true;
    last_seen_us = none;
    offline = false;
    offline_since_us = none;
    activated_at_us = activated_at_us;
    rate_window_started_us = none;
    rate_count = 0;
  }

  unfoldable pub sync_row : Option Agent → List Agent → List Agent
  sync_row none agents = insert_agent new_agent agents
  sync_row (some a) agents =
      update_where (is_agent i.agent_id) (if a.active then rename else reactivate) agents

  -- one turn of the loop
  unfoldable pub sync_agent : List Agent → List Agent
  sync_agent agents = sync_row (first_where (is_agent i.agent_id) agents) agents

unfoldable pub sync_agents : ℕ → List AgentIdentity → List Agent → List Agent
sync_agents now [] agents = agents
sync_agents now (i ∷ rest) agents = sync_agents now rest (sync_agent now i agents)

unfoldable pub sync_registry : List AgentIdentity → ℕ → Db → Db
sync_registry is now db = record db {
  agents = sync_agents now is (map (deactivate (identifiers is)) db.agents);
}
