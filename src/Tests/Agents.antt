-- ===== src/Tests/Agents.antt =====
-- A delivery that finds an older report in the file and sends both.
use lite_checker.Prelude.{arith, ◌≡◌, ◌<◌, refl, true, none, some, List, [], ◌∷◌}
use lite_checker.Json.{end, obj, get, has_key}
use lite_checker.State.{Host, holds, ok, locked, read_object, write_object}
use lite_checker.State.Pending.{
  Identity, PendingState, pending_identity, read_pending, envelope, identity_at, load, save,
  save_over, replace_if_event, replace_over, clear, clear_over, is_pending, same_identity, agreed,
  checked_pending, is_version_one, from_envelope, is_envelope, from_object, report_value,
}
use lite_checker.State.Pending.Delivery.{Operation, saved, perform_all, perform}
use lite_checker.Agent.{
  AgentReport, Surroundings, World, model_dump, deliver_report, deliver_current, deliver_locked,
  retry_pending, count_dropped, check_and_send, send_current,
}
use lite_checker.Agent.Calm.{IsCalm, deliver_report-accepts}
use lite_checker.Agent.Sent.{identity_of}
use lite_checker.Agent.Accepted.{deliver_report-later}

abbrev older : AgentReport
older = record { event_id = "a:b:1"; sequence = 1; dropped_report_count = 0; others = end }

abbrev current : AgentReport
current = record { event_id = "a:b:2"; sequence = 2; dropped_report_count = 0; others = end }

abbrev later : AgentReport
later = record { event_id = "a:b:3"; sequence = 3; dropped_report_count = 0; others = end }

abbrev works : Host
works = record { acquires = true; writes = true; releases = true }

-- everything works, and nobody else writes
abbrev pub calm : Surroundings
calm = record {
  host = λ i. works;
  others = λ i. [];
  collector_accepts = λ i. true;
  validate = λ d. some older;
  lock_acquired = true;
  lock_released = true;
}

abbrev start : World
start = record {
  file =
      holds
        (obj (envelope (record { event_id = "a:b:1"; sequence = 1 }) (some (model_dump older))));
  tick = 0;
  sent = [];
}

abbrev at_end : World
at_end = record {
  file = holds (obj (envelope (record { event_id = "a:b:2"; sequence = 2 }) none));
  tick = 8;
  sent = (older, true) ∷ (current, true) ∷ [];
}

both-sent : deliver_report calm current start ≡ (ok (current, true), at_end)
unfolding deliver_report deliver_current deliver_locked retry_pending count_dropped check_and_send
    send_current load locked read_pending perform_all perform from_object read_object is_envelope
    has_key envelope from_envelope is_version_one identity_at checked_pending report_value agreed
    pending_identity same_identity model_dump get clear clear_over is_pending replace_if_event
    replace_over save save_over write_object
both-sent = refl

-- the next report is saved, and the accepted one again
abbrev next_calls : List Operation
next_calls = saved works (model_dump later) ∷ saved works (model_dump current) ∷ []

abbrev next_state : PendingState
next_state = record {
  high_water = some (record { event_id = "a:b:3"; sequence = 3 });
  report = some (model_dump later);
}

later-read : read_pending (perform_all next_calls at_end.file) ≡ ok next_state
unfolding load locked read_pending perform_all perform from_object read_object is_envelope has_key
    envelope from_envelope is_version_one identity_at checked_pending report_value agreed
    pending_identity same_identity model_dump get clear clear_over is_pending replace_if_event
    replace_over save save_over write_object
later-read = refl

deliver_report-later_example :
    (j : Identity) × (pending_identity (model_dump later) ≡ ok j) × (current.sequence < j.sequence)
deliver_report-later_example =
    deliver_report-later calm current current start at_end next_calls next_state (model_dump later)
      both-sent later-read refl

calm-IsCalm : IsCalm calm
calm-IsCalm = record {
  host = λ t. refl;
  alone = λ t. refl;
  accepts = λ t. refl;
  acquired = refl;
  released = refl;
}

start-read :
    read_pending start.file
    ≡ ok (record {
      high_water = some (record { event_id = "a:b:1"; sequence = 1 });
      report = some (model_dump older);
    })
unfolding read_pending from_object read_object is_envelope has_key envelope from_envelope
    is_version_one identity_at checked_pending report_value agreed pending_identity same_identity
    model_dump get
start-read = refl

deliver_report-accepts_example :
    (q : AgentReport) × (v : World) × (deliver_report calm current start ≡ (ok (q, true), v))
    × (q.event_id ≡ current.event_id)
    × (v.file ≡ holds (obj (envelope (identity_of current) none)))
deliver_report-accepts_example =
    deliver_report-accepts calm calm-IsCalm current refl start _ start-read (omega arith)
