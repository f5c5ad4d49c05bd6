-- ===== src/Agent/Cycle.antt =====
-- `run_cycle` and `run_agent(once=True)` of agent.py: a measurement, the delivery of its report and
-- the acknowledgement of an accepted one.
pub mod Once
use Prim.Native.String.{◌++◌}
use lite_checker.Prelude.{
  ℕ, String, Bool, true, false, Option, none, some, decimal, option_beq, string_eq, Outcome,
  returned, raised, other_error, if◌then◌else◌,
}
use lite_checker.Json.{Fields}
use lite_checker.State.{Reply, ok, refused, File, Host}
use lite_checker.State.Acks.{record_ack}
use lite_checker.Measure.Report.{Report}
use lite_checker.Measure.Cycle
use lite_checker.Measure.Cycle.{Files, measure_cycle}
use lite_checker.Agent.{AgentReport, Surroundings, World, deliver_report}

-- the settings of an agent, and what it meets in one cycle
pub record Setup : Type 0 where
  pub agent_id : String
  pub boot_id : String
  pub measurement : Cycle.Cycle
  pub delivery : Surroundings
  -- the other fields of the report's dump
  pub others_of : Report → Fields
  -- the store of acknowledgements, where there is one
  pub ack_host : Option Host
  pub accepted_at : ℕ
  -- `isoformat`
  pub show_time : ℕ → String

-- the files and the memory of the agent
pub record Agent : Type 0 where
  pub files : Files
  pub world : World
  pub acks : File
  pub last_accepted_event_id : Option String

module _ (s : Setup) where
  -- the report that the measurement gives to the delivery
  abbrev pub to_deliver : Report → AgentReport
  to_deliver r = record {
    event_id = s.agent_id ++ ":" ++ s.boot_id ++ ":" ++ decimal r.sequence;
    sequence = r.sequence;
    dropped_report_count = 0;
    others = s.others_of r;
  }

  abbrev after_record : AgentReport → Agent → Reply (Unit {0}) × File → Outcome AgentReport × Agent
  after_record q a (refused e, f) = (raised other_error, record a { acks = f })
  after_record q a (ok u, f) = (returned q, record a { acks = f })

  abbrev if_stored : AgentReport → Agent → Option Host → Outcome AgentReport × Agent
  if_stored q a none = (returned q, a)
  if_stored q a (some h) =
      after_record q a (record_ack s.show_time h q.event_id s.accepted_at a.acks)

  -- the memory and the file of the acknowledgement
  abbrev acknowledge : AgentReport → Agent → Outcome AgentReport × Agent
  acknowledge q a = if_stored q (record a { last_accepted_event_id = some q.event_id }) s.ack_host

  abbrev after_delivery : Agent → Reply (AgentReport × Bool) × World → Outcome AgentReport × Agent
  after_delivery a (refused e, w) = (raised other_error, record a { world = w })
  after_delivery a (ok (q, false), w) = (returned q, record a { world = w })
  after_delivery a (ok (q, true), w) = acknowledge q (record a { world = w })

  abbrev after_measure : Agent → Outcome Report → Outcome AgentReport × Agent
  after_measure a (raised e) = (raised e, a)
  after_measure a (returned r) = after_delivery a (deliver_report s.delivery (to_deliver r) a.world)

  -- `run_cycle`
  unfoldable pub run_cycle : Agent → Outcome AgentReport × Agent
  run_cycle a =
      let (report, files) = measure_cycle s.measurement a.files in
      after_measure (record a { files = files }) report

  -- `CurrentReportNotAccepted`
  abbrev if_accepted : Outcome AgentReport × Agent → Outcome AgentReport × Agent
  if_accepted (raised e, a) = (raised e, a)
  if_accepted (returned q, a) =
      if option_beq a.last_accepted_event_id (some q.event_id)
      then (returned q, a)
      else (raised other_error, a)

  -- `run_agent` with `once`
  unfoldable pub run_once : Agent → Outcome AgentReport × Agent
  unfolding run_cycle
  run_once a = if_accepted (run_cycle a)
