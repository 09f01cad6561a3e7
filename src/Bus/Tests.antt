-- ===== src/Bus/Tests.antt =====
-- A run of the bus of src/prodeo/bus/inproc.py at concrete inputs.
use command_center.Base.{ℕ, String, none, some, List, [], ◌∷◌, ◌≡◌, arith}
use command_center.Events.Envelope.{Event}
use command_center.Bus.{drop_oldest, new_subscription, with_queue}
use command_center.Bus.Newest.{deliver_all, newest, of_pattern, deliver_all-newest}

abbrev published : ℕ → String → Event
published id type_ = record {
  id = id;
  type = type_;
  version = 1;
  timestamp = id;
  node = "hub";
  session_id = none;
  correlation_id = none;
  source = "test";
  payload = [];
}

abbrev events : List Event
events =
    published 1 "session.updated"
    ∷ published 2 "agent.output_appended"
    ∷ published 3 "session.completed"
    ∷ published 4 "session.archived"
    ∷ []

deliver_all-newest_example :
    deliver_all (new_subscription "session.*" "live" drop_oldest 2) events
    ≡ some (
        with_queue
          (new_subscription "session.*" "live" drop_oldest 2)
          (newest 2 (of_pattern "session.*" events)))
deliver_all-newest_example = deliver_all-newest "session.*" "live" 2 events (omega arith)
