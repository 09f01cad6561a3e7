-- ===== src/Adapters/Manager/Observe.antt =====
-- Observations in src/prodeo/adapters/manager.py: what a report of an adapter does.
use command_center.Base.{
  ℕ, ◌+◌, String, Option, none, some, [], ◌∷◌, Bool, true, false, ltb, if◌then◌else◌, ◌==◌,
  string_Eq, nat_Eq, ok, raise, Error,
}
use command_center.Base.Dict.{Dict, put, update}
use command_center.Base.Json.{Json}
use command_center.Base.Text.{chars, take_chars}
use command_center.Events.Types
use command_center.Events.Types.{agent_output_appended, agent_turn_started, agent_turn_completed}
use command_center.Events.Envelope.{Payload, text, flag, count, json}
use command_center.Events.Host.{Host, emit}
use command_center.Sessions.State.{SessionState, running, waiting_on_user}
use command_center.Sessions.Model.{Session}
use command_center.Sessions.Registry.{resolve, upsert_discovered, observe_state, touch}
use command_center.Mediation.Model.{Interaction, InteractionRequest, is_permission}
use command_center.Mediation.Service.{open_interaction, cancel_native}
use command_center.Adapters.Model.{
  Adapter, Observation, session_seen, state_seen, output_seen, turn_seen, tool_seen,
  interaction_seen, closed_seen, OutputObservation, ToolObservation, InteractionObservation,
  TurnPhase, turn_started, turn_completed, ToolPhase, tool_started, tool_finished, tool_failed,
}
use command_center.Adapters.Manager.{Manager, Closure, respond, Outcome, error, source_of}
use command_center.Adapters.Manager.Discovery.{ensure_watch, is_illegal}

abbrev pub max_output_chars : ℕ
max_output_chars = 20000

-- `{"at": obs.at.isoformat()} if obs.at else {}`
abbrev pub at_field : Option ℕ → Payload
at_field none = []
at_field (some t) = ("at", count t) ∷ []

abbrev pub any_values : Dict String Json → Payload
any_values [] = []
any_values ((k, v) ∷ d) = (k, json v) ∷ any_values d

-- A dict display with `**`: a later entry with the same key takes its place.
unfoldable pub output_payload : OutputObservation → Payload
unfolding chars take_chars
output_payload obs =
    update
      (update
        (("role", text obs.role)
          ∷ ("text", text (take_chars max_output_chars obs.text))
          ∷ ("truncated", flag (ltb max_output_chars (chars obs.text)))
          ∷ [])
        (at_field obs.at))
      (any_values obs.metadata)

abbrev pub turn_type : TurnPhase → String
turn_type turn_started = agent_turn_started
turn_type turn_completed = agent_turn_completed

-- `_TOOL_EVENT`
abbrev pub tool_type : ToolPhase → String
tool_type tool_started = Types.tool_started
tool_type tool_finished = Types.tool_finished
tool_type tool_failed = Types.tool_failed

abbrev pub tool_payload : ToolObservation → Payload
tool_payload obs =
    ("tool", text obs.tool)
    ∷ ("tool_use_id", text obs.tool_use_id)
    ∷ ("detail", text obs.detail)
    ∷ at_field obs.at

-- `self._registry.touch(...)`, after what was published.
unfoldable pub touched : Host → Manager → ℕ → Option ℕ → Outcome (Unit {0})
touched h m sid at =
    let (h', r) = touch h m.registry sid at in
    record { result = ok tt; host = h'; manager = record m { registry = r } }

-- `with suppress(IllegalTransitionError): await self._registry.observe_state(...)`
unfoldable pub observe_quietly : Host → Manager → ℕ → SessionState → String → Outcome (Unit {0})
observe_quietly h m sid state reason =
    let o = observe_state h m.registry sid state reason in
    let m' = record m { registry = o.registry } in
    record {
      result = elim o.result [ ok s ↦ ok tt | raise e ↦ if is_illegal e then ok tt else raise e ];
      host = o.host;
      manager = m';
    }

-- `_resume`
unfoldable pub resume : Host → Manager → ℕ → String → Outcome (Unit {0})
unfolding observe_quietly
resume h m sid reason = observe_quietly h m sid running reason

-- `_open_mediated`, with the closure under its number.
unfoldable pub open_mediated :
    Host → Manager → ℕ → InteractionRequest → Closure → Outcome Interaction
unfolding observe_quietly
open_mediated h m sid request closure =
    let number = m.next_closure in
    let o = open_interaction h m.mediation request number in
    let m' : Manager = record m {
      mediation = o.mediation;
      closures = put m.closures number closure;
      next_closure = number + 1;
    } in
    elim o.result [
      | raise e ↦ record { result = raise e; host = o.host; manager = m' }
      | ok i ↦
          let p = observe_quietly o.host m' sid waiting_on_user "interaction_requested" in
          record {
            result = elim p.result [ raise e ↦ raise e | ok u ↦ ok i ];
            host = p.host;
            manager = p.manager;
          }
    ]

abbrev pub answerable : Adapter → InteractionObservation → Bool
answerable a obs =
    if is_permission obs.kind
    then a.capabilities.respond_to_permissions
    else a.capabilities.answer_questions

abbrev pub kind_value : Bool → String
kind_value true = "permission"
kind_value false = "question"

abbrev pub request_of : String → ℕ → InteractionObservation → InteractionRequest
request_of name sid obs = record {
  session_id = sid;
  adapter = name;
  native_id = obs.interaction_native_id;
  kind = obs.kind;
  title = obs.title;
  body = obs.body;
  options = obs.options;
  questions = obs.questions;
  timeout_s = obs.timeout_s;
}

-- `_open_interaction`. The adapter that reports is one of `self._adapters`.
unfoldable pub open_observed :
    Host → Manager → Adapter → String → Session → InteractionObservation → Outcome (Unit {0})
unfolding open_mediated error
open_observed h m a name s obs =
    if answerable a obs
    then (let o =
          open_mediated h m s.id (request_of name s.id obs)
            (respond name obs.native_id obs.interaction_native_id s.id) in
        record {
          result = elim o.result [ raise e ↦ raise e | ok i ↦ ok tt ];
          host = o.host;
          manager = o.manager;
        })
    else record {
      result = ok tt;
      host =
          error h m name "interaction_capability_missing" (kind_value (is_permission obs.kind))
            (some s.id);
      manager = m;
    }

-- What is done with an observation once its session is known.
unfoldable pub translate :
    Host → Manager → Adapter → String → Session → Observation → Outcome (Unit {0})
unfolding open_observed touched output_payload resume
translate h m a name s (session_seen d) = record { result = ok tt; host = h; manager = m }
translate h m a name s (state_seen native_id state reason at) =
    let o = observe_state h m.registry s.id state reason in
    record {
      result = elim o.result [ raise e ↦ raise e | ok s' ↦ ok tt ];
      host = o.host;
      manager = record m { registry = o.registry };
    }
translate h m a name s (output_seen obs) =
    touched (emit h agent_output_appended m.node (source_of name) (some s.id) (output_payload obs))
      m s.id obs.at
translate h m a name s (turn_seen native_id phase at) =
    touched (emit h (turn_type phase) m.node (source_of name) (some s.id) (at_field at)) m s.id at
translate h m a name s (tool_seen obs) =
    touched (emit h (tool_type obs.phase) m.node (source_of name) (some s.id) (tool_payload obs)) m
      s.id obs.at
translate h m a name s (interaction_seen obs) =
    let o = open_observed h m a name s obs in
    elim o.result [ raise e ↦ o | ok u ↦ touched o.host o.manager s.id obs.at ]
translate h m a name s (closed_seen native_id interaction_native_id reason at) =
    let o =
      cancel_native h m.mediation name interaction_native_id
        (if reason == "" then "closed_by_agent" else reason) in
    let m' : Manager = record m { mediation = o.mediation } in
    elim o.result [
      | raise e ↦ record { result = raise e; host = o.host; manager = m' }
      | ok u ↦ resume o.host m' s.id "interaction_closed"
    ]

abbrev pub native_id_of : Observation → String
native_id_of (session_seen d) = d.native_id
native_id_of (state_seen native_id state reason at) = native_id
native_id_of (output_seen obs) = obs.native_id
native_id_of (turn_seen native_id phase at) = native_id
native_id_of (tool_seen obs) = obs.native_id
native_id_of (interaction_seen obs) = obs.native_id
native_id_of (closed_seen native_id interaction_native_id reason at) = native_id

-- `_handle_observation` once it does not wait any more: also what follows its sleep.
unfoldable pub handle_resolved :
    Host → Manager → Adapter → String → Observation → Outcome (Unit {0})
unfolding translate error
handle_resolved h m a name obs = elim (resolve m.registry name (native_id_of obs)) [
  | none ↦ record {
    result = ok tt;
    host = error h m name "unknown_session" (native_id_of obs) none;
    manager = m;
  }
  | some s ↦ translate h m a name s obs
]

-- Whether `_handle_observation` sleeps first.
abbrev pub waits : Observation → Option Session → Bool
waits (interaction_seen obs) none = true
waits _ _ = false

-- `_handle_observation`, up to its sleep where it sleeps.
unfoldable pub handle_observation :
    Host → Manager → Adapter → String → Observation → Outcome (Unit {0})
unfolding handle_resolved ensure_watch
handle_observation h m a name (session_seen d) =
    let o = upsert_discovered h m.registry name d in
    let m' : Manager = record m { registry = o.registry } in
    elim o.result [
      | raise e ↦ record { result = raise e; host = o.host; manager = m' }
      | ok s ↦ record {
        result = ok tt;
        host = o.host;
        manager = ensure_watch m' name d.native_id s.id s.state;
      }
    ]
handle_observation h m a name obs =
    if waits obs (resolve m.registry name (native_id_of obs))
    then record { result = ok tt; host = h; manager = m }
    else handle_resolved h m a name obs

-- `_reporter`: no exception leaves it.
unfoldable pub contained : (Error → String) → String → Outcome (Unit {0}) → Host × Manager
unfolding error
contained message name o = elim o.result [
  | ok u ↦ (o.host, o.manager)
  | raise e ↦
      if is_illegal e
      then (o.host, o.manager)
      else (error o.host o.manager name "observation_failed" (message e) none, o.manager)
]

unfoldable pub report :
    (Error → String) → Host → Manager → Adapter → String → Observation → Host × Manager
unfolding handle_observation contained
report message h m a name obs = contained message name (handle_observation h m a name obs)

-- A report that has slept.
unfoldable pub report_again :
    (Error → String) → Host → Manager → Adapter → String → Observation → Host × Manager
unfolding handle_resolved contained
report_again message h m a name obs = contained message name (handle_resolved h m a name obs)
