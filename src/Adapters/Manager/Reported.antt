-- ===== src/Adapters/Manager/Reported.antt =====
-- Observations and the way of an answer back, in src/prodeo/adapters/manager.py, keep the log and the
-- Mediation Service's invariant.
use command_center.Base.{
  ℕ, ◌+◌, String, Option, none, some, true, if◌then◌else◌, string_Eq, nat_Eq, ◌==◌, ok,
  Result-cases, Error, ◌≡◌, refl, Bool-cases, Option-cases, inl, inr,
}
use command_center.Base.Dict.{put}
use command_center.Events.Types.{agent_output_appended}
use command_center.Events.Host.{Host}
use command_center.Sessions.State.{SessionState, running, waiting_on_user}
use command_center.Sessions.Model.{Session, SessionDescriptor}
use command_center.Sessions.Registry.{resolve, upsert_discovered}
use command_center.Sessions.Registry.Replay.{ignored}
use command_center.Mediation.Model.{InteractionRequest}
use command_center.Mediation.Service.{open_interaction, cancel_native}
use command_center.Adapters.Model.{
  Adapter, Observation, session_seen, state_seen, output_seen, turn_seen, tool_seen,
  interaction_seen, closed_seen, InteractionObservation, TurnPhase, turn_started, turn_completed,
  ToolPhase, tool_started, tool_finished, tool_failed,
}
use command_center.Adapters.Manager.{Manager, Closure, respond, Outcome, source_of}
use command_center.Adapters.Manager.Discovery.{is_illegal}
use command_center.Adapters.Manager.Observe.{
  touched, observe_quietly, resume, open_mediated, answerable, request_of, open_observed,
  output_payload, turn_type, tool_type, tool_payload, at_field, translate, native_id_of,
  handle_resolved, waits, handle_observation, contained, report, report_again,
}
use command_center.Adapters.Manager.Consistent.{
  emit-IsConsistent, observe_state-IsConsistent, upsert_discovered-IsConsistent, touch-IsConsistent,
  open_interaction-IsConsistent, cancel_native-IsConsistent,
}
use command_center.Adapters.Manager.Steady.{IsSteady, error-IsSteady, ensure_watch-IsSteady}

abbrev pub Leaves : {A : Type 0} → Outcome A → Type 0
Leaves o = IsSteady o.host o.manager

module _ (h : Host) (m : Manager) (v : IsSteady h m) where
  touched-IsSteady : (sid : ℕ) (at : Option ℕ) → Leaves (touched h m sid at)
  unfolding touched
  touched-IsSteady sid at = touch-IsConsistent h m.registry m.mediation v sid at

  pub observe_quietly-IsSteady :
      (sid : ℕ) (state : SessionState) (reason : String)
      → Leaves (observe_quietly h m sid state reason)
  unfolding observe_quietly
  observe_quietly-IsSteady sid state reason =
      observe_state-IsConsistent h m.registry m.mediation v sid state reason

  pub resume-IsSteady : (sid : ℕ) (reason : String) → Leaves (resume h m sid reason)
  unfolding resume
  resume-IsSteady sid reason = observe_quietly-IsSteady sid running reason

pub open_mediated-IsSteady :
    (h : Host) (m : Manager) (sid : ℕ) (request : InteractionRequest) (closure : Closure)
    → IsSteady h m
    → Leaves (open_mediated h m sid request closure)
unfolding open_mediated
open_mediated-IsSteady h m sid request closure v =
    let o = open_interaction h m.mediation request m.next_closure in
    let m' : Manager = record m {
      mediation = o.mediation;
      closures = put m.closures m.next_closure closure;
      next_closure = m.next_closure + 1;
    } in
    let w : IsSteady o.host m' =
      open_interaction-IsConsistent h m.registry m.mediation v request m.next_closure in
    elim (Result-cases o.result) [
      | inr (e, failed) ↦ rw (failed, open_mediated) w
      | inl (i, opened) ↦
          rw (opened, open_mediated)
            (observe_quietly-IsSteady o.host m' w sid waiting_on_user "interaction_requested")
    ]

open_observed-IsSteady :
    (h : Host) (m : Manager) (a : Adapter) (name : String) (s : Session)
    (obs : InteractionObservation)
    → IsSteady h m
    → Leaves (open_observed h m a name s obs)
unfolding open_observed
open_observed-IsSteady h m a name s obs v = elim (Bool-cases (answerable a obs)) [
  | inl able ↦
      rw (able, open_observed)
        (open_mediated-IsSteady h m s.id (request_of name s.id obs)
          (respond name obs.native_id obs.interaction_native_id s.id) v)
  | inr unable ↦ rw (unable, open_observed) (error-IsSteady h m m name _ _ (some s.id) v)
]

turn-ignored : (phase : TurnPhase) → ignored (turn_type phase) ≡ true
turn-ignored turn_started = refl
turn-ignored turn_completed = refl

tool-ignored : (phase : ToolPhase) → ignored (tool_type phase) ≡ true
tool-ignored tool_started = refl
tool-ignored tool_finished = refl
tool-ignored tool_failed = refl

translate-IsSteady :
    (h : Host) (m : Manager) (a : Adapter) (name : String) (s : Session) (obs : Observation)
    → IsSteady h m
    → Leaves (translate h m a name s obs)
unfolding translate
translate-IsSteady h m a name s (session_seen d) v = v
translate-IsSteady h m a name s (state_seen native_id state reason at) v =
    observe_state-IsConsistent h m.registry m.mediation v s.id state reason
translate-IsSteady h m a name s (output_seen obs) v =
    touched-IsSteady _ m
      (emit-IsConsistent h m.registry m.mediation v agent_output_appended m.node (source_of name)
        (some s.id) (output_payload obs) refl)
      s.id obs.at
translate-IsSteady h m a name s (turn_seen native_id phase at) v =
    touched-IsSteady _ m
      (emit-IsConsistent h m.registry m.mediation v (turn_type phase) m.node (source_of name)
        (some s.id) (at_field at) (turn-ignored phase))
      s.id at
translate-IsSteady h m a name s (tool_seen obs) v =
    touched-IsSteady _ m
      (emit-IsConsistent h m.registry m.mediation v (tool_type obs.phase) m.node (source_of name)
        (some s.id) (tool_payload obs) (tool-ignored obs.phase))
      s.id obs.at
translate-IsSteady h m a name s (interaction_seen obs) v =
    let o = open_observed h m a name s obs in
    let w = open_observed-IsSteady h m a name s obs v in
    elim (Result-cases o.result) [
      | inr (e, failed) ↦ rw (failed, translate) w
      | inl (u, done) ↦ rw (done, translate) (touched-IsSteady o.host o.manager w s.id obs.at)
    ]
translate-IsSteady h m a name s (closed_seen native_id interaction_native_id reason at) v =
    let why : String = if reason == "" then "closed_by_agent" else reason in
    let o = cancel_native h m.mediation name interaction_native_id why in
    let w = cancel_native-IsConsistent h m.registry m.mediation v name interaction_native_id why in
    elim (Result-cases o.result) [
      | inr (e, failed) ↦ rw (failed, translate) w
      | inl (u, done) ↦
          rw (done, translate)
            (resume-IsSteady o.host (record m { mediation = o.mediation }) w s.id
              "interaction_closed")
    ]

handle_resolved-IsSteady :
    (h : Host) (m : Manager) (a : Adapter) (name : String) (obs : Observation)
    → IsSteady h m
    → Leaves (handle_resolved h m a name obs)
unfolding handle_resolved
handle_resolved-IsSteady h m a name obs v =
    elim (Option-cases (resolve m.registry name (native_id_of obs))) [
      | inl unknown ↦ rw (unknown, handle_resolved) (error-IsSteady h m m name _ _ none v)
      | inr (s, found) ↦ rw (found, handle_resolved) (translate-IsSteady h m a name s obs v)
    ]

seen-IsSteady :
    (h : Host) (m : Manager) (a : Adapter) (name : String) (d : SessionDescriptor)
    → IsSteady h m
    → Leaves (handle_observation h m a name (session_seen d))
unfolding handle_observation
seen-IsSteady h m a name d v =
    let o = upsert_discovered h m.registry name d in
    let m' : Manager = record m { registry = o.registry } in
    let w : IsSteady o.host m' = upsert_discovered-IsConsistent h m.registry m.mediation v name d in
    elim (Result-cases o.result) [
      | inr (e, failed) ↦ rw (failed, handle_observation) w
      | inl (s, done) ↦
          rw (done, handle_observation)
            (ensure_watch-IsSteady o.host m' name d.native_id s.id s.state w)
    ]

other-IsSteady :
    (h : Host) (m : Manager) (a : Adapter) (name : String) (obs : Observation)
    → IsSteady h m
    → Leaves (
        if waits obs (resolve m.registry name (native_id_of obs))
        then record { result = ok tt; host = h; manager = m }
        else handle_resolved h m a name obs)
other-IsSteady h m a name obs v =
    elim (Bool-cases (waits obs (resolve m.registry name (native_id_of obs)))) [
      | inl sleeps ↦ rw sleeps v
      | inr goes_on ↦ rw goes_on (handle_resolved-IsSteady h m a name obs v)
    ]

handle_observation-IsSteady :
    (h : Host) (m : Manager) (a : Adapter) (name : String) (obs : Observation)
    → IsSteady h m
    → Leaves (handle_observation h m a name obs)
unfolding handle_observation
handle_observation-IsSteady h m a name (session_seen d) v = seen-IsSteady h m a name d v
handle_observation-IsSteady h m a name (state_seen i s r t) v =
    other-IsSteady h m a name (state_seen i s r t) v
handle_observation-IsSteady h m a name (output_seen obs) v =
    other-IsSteady h m a name (output_seen obs) v
handle_observation-IsSteady h m a name (turn_seen i p t) v =
    other-IsSteady h m a name (turn_seen i p t) v
handle_observation-IsSteady h m a name (tool_seen obs) v =
    other-IsSteady h m a name (tool_seen obs) v
handle_observation-IsSteady h m a name (interaction_seen obs) v =
    other-IsSteady h m a name (interaction_seen obs) v
handle_observation-IsSteady h m a name (closed_seen i n r t) v =
    other-IsSteady h m a name (closed_seen i n r t) v

module _ (message : Error → String) where
  contained-IsSteady :
      (name : String) (o : Outcome (Unit {0}))
      → Leaves o
      → IsSteady (contained message name o).0 (contained message name o).1
  unfolding contained
  contained-IsSteady name o v = elim (Result-cases o.result) [
    | inl (u, done) ↦ rw (done, contained) v
    | inr (e, failed) ↦ elim (Bool-cases (is_illegal e)) [
      | inl illegal ↦ rw (failed, contained, illegal) v
      | inr other ↦
          rw (failed, contained, other) (error-IsSteady o.host o.manager o.manager name _ _ none v)
    ]
  ]

  pub report-IsSteady :
      (h : Host) (m : Manager) (a : Adapter) (name : String) (obs : Observation)
      → IsSteady h m
      → IsSteady (report message h m a name obs).0 (report message h m a name obs).1
  unfolding report
  report-IsSteady h m a name obs v =
      contained-IsSteady name (handle_observation h m a name obs)
        (handle_observation-IsSteady h m a name obs v)

  pub report_again-IsSteady :
      (h : Host) (m : Manager) (a : Adapter) (name : String) (obs : Observation)
      → IsSteady h m
      → IsSteady (report_again message h m a name obs).0 (report_again message h m a name obs).1
  unfolding report_again
  report_again-IsSteady h m a name obs v =
      contained-IsSteady name (handle_resolved h m a name obs)
        (handle_resolved-IsSteady h m a name obs v)
