-- ===== src/Agent/Cycle/Once.antt =====
-- What a single run of the agent says.
use lite_checker.Prelude.{
  ℕ, String, Bool, true, false, Option, none, some, List, [], ◌∷◌, ◌++◌, ◌≡◌, string_eq, Outcome,
  returned, raised, Exc,
}
use lite_checker.Json.{obj}
use lite_checker.State.{StateError, ok, refused, File, Host, holds}
use lite_checker.State.Acks.{ack_fields, record_ack}
use lite_checker.Measure.Report.{Report}
use lite_checker.Measure.Cycle.{measure_cycle}
use lite_checker.Agent.{AgentReport, deliver_report}
use lite_checker.Agent.Slot.{InFile, IsGone}
use lite_checker.Agent.Sent.{identity_of}
use lite_checker.Agent.Delivered.{counted}
use lite_checker.Agent.Cycle.{Setup, Agent, to_deliver}

module _ (s : Setup) (a : Agent) where
  -- what the file of acknowledgements holds once `id` was accepted: without a store it stays
  abbrev acks_after : String → Option Host → File
  acks_after id none = a.acks
  acks_after id (some h) = holds (obj (ack_fields id (s.show_time s.accepted_at)))

  -- The report of this measurement is the last one that was sent, and the collector accepted it; the
  -- file of pending reports has done with it, and that of acknowledgements names it.
  pub record IsAccepted (q : AgentReport) (b : Agent) : Type 0 where
    pub report : Report
    pub dropped : ℕ
    pub earlier : List (AgentReport × Bool)
    pub measured : (measure_cycle s.measurement a.files).0 ≡ returned report
    pub same : q ≡ counted s.delivery (to_deliver s report) dropped
    pub sent : b.world.sent ≡ (a.world.sent ++ earlier) ++ ((q, true) ∷ [])
    pub gone : InFile (IsGone (identity_of q)) b.world.file
    pub noted : b.acks ≡ acks_after q.event_id s.ack_host

  -- why a run raises: an exception of the measurement or of a store, or no acceptance
  pub data Failed : Type 0 where
    not_measured : (e : Exc) → (measure_cycle s.measurement a.files).0 ≡ raised e → Failed
    not_delivered :
        (r : Report) (e : StateError)
        → (measure_cycle s.measurement a.files).0 ≡ returned r
        → (deliver_report s.delivery (to_deliver s r) a.world).0 ≡ refused e
        → Failed
    not_accepted :
        (r : Report) (q : AgentReport)
        → (measure_cycle s.measurement a.files).0 ≡ returned r
        → (deliver_report s.delivery (to_deliver s r) a.world).0 ≡ ok (q, false)
        → Failed
    not_noted :
        (r : Report) (q : AgentReport) (h : Host) (e : StateError)
        → (measure_cycle s.measurement a.files).0 ≡ returned r
        → (deliver_report s.delivery (to_deliver s r) a.world).0 ≡ ok (q, true)
        → s.ack_host ≡ some h
        → (record_ack s.show_time h q.event_id s.accepted_at a.acks).0 ≡ refused e
        → Failed

  -- the accepted report of a run that returns, and the reason of one that raises
  abbrev pub Concluded : Outcome AgentReport × Agent → Type 0
  Concluded (raised e, b) = Failed
  Concluded (returned q, b) = IsAccepted q b
