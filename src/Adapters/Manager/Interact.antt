-- ===== src/Adapters/Manager/Interact.antt =====
-- The way of an answer back to the agent, and external interactions, in src/prodeo/adapters/manager.py.
use command_center.Base.{
  ℕ, String, Option, none, some, List, Bool, true, false, ◌&&◌, if◌then◌else◌, nat_Eq, string_Eq,
  Result, ok, raise, Error, unknown_session,
}
use command_center.Base.Dict.{get, put}
use command_center.Events.Host.{Host}
use command_center.Sessions.Model.{Session, SessionDescriptor}
use command_center.Sessions.Registry.{resolve}
use command_center.Mediation.Model.{
  Interaction, InteractionRequest, InteractionKind, QuestionGroup, InteractionStatus, answered,
  Answer, is_pending, is_permission,
}
use command_center.Mediation.Service.{
  Mediation, answer_interaction, timeout, timed_out_i, timed_out_answer, cancel_native,
}
use command_center.Adapters.Model.{InteractionRef}
use command_center.Adapters.Manager.{
  Manager, Closure, reply, respond, resolve_future, Outcome, error, called_with, require_adapter,
}
use command_center.Adapters.Manager.Discovery.{discover}
use command_center.Adapters.Manager.Observe.{resume, open_mediated}

abbrev pub is_answered : InteractionStatus → Bool
is_answered answered = true
is_answered _ = false

-- What a method leaves when its result or exception goes no further.
abbrev pub left : {A : Type 0} → Outcome A → Host × Manager
left o = (o.host, o.manager)

-- `if not resolved.done(): resolved.set_result(interaction)`
abbrev pub set_future : Manager → ℕ → Interaction → Manager
set_future m number i = elim (get m.futures number) [
  | none ↦ record m { futures = put m.futures number i }
  | some j ↦ m
]

module _ (message : Error → String) where
  -- The closure `deliver`, with what `adapter.respond` gives; its exceptions are contained.
  unfoldable pub run_closure :
      Host → Manager → ℕ → Closure → Interaction → Answer → Result (Unit {0}) → Host × Manager
  unfolding resume error
  run_closure h m number (respond name session_native_id native_id sid) i a responded =
      let ref : InteractionRef = record {
        adapter = name;
        session_native_id = session_native_id;
        interaction_id = i.id;
        native_id = native_id;
      } in
      let m' = called_with m name "respond" native_id (reply ref a) in
      elim responded [
        | raise exc ↦ (error h m' name "respond_failed" (message exc) (some sid), m')
        | ok u ↦ left (resume h m' sid "interaction_resolved")
      ]
  run_closure h m number (resolve_future sid) i a responded =
      let m' = set_future m number i in
      if is_answered i.status then left (resume h m' sid "interaction_resolved") else (h, m')

  -- `if deliver is not None: await deliver(...)`
  unfoldable pub deliver :
      Host → Manager → Option ℕ → Interaction → Answer → Result (Unit {0}) → Host × Manager
  unfolding run_closure
  deliver h m none i a responded = (h, m)
  deliver h m (some number) i a responded = elim (get m.closures number) [
    | none ↦ (h, m)
    | some closure ↦ run_closure h m number closure i a responded
  ]

  -- `MediationService.answer`, its callback run.
  unfoldable pub answer :
      Host → Manager → ℕ → Answer → String → Result (Unit {0}) → Outcome Interaction
  unfolding deliver
  answer h m id a answered_by responded =
      let o = answer_interaction h m.mediation id a answered_by in
      let m' : Manager = record m { mediation = o.mediation } in
      elim o.result [
        | raise e ↦ record { result = raise e; host = o.host; manager = m' }
        | ok i ↦
            let (h'', m'') = deliver o.host m' (get m.mediation.deliver i.id) i a responded in
            record { result = ok i; host = h''; manager = m'' }
      ]

  -- The callback that `MediationService._timeout` awaits: that of a pending permission.
  unfoldable pub timeout_callback : Mediation → ℕ → Option (ℕ × Interaction)
  timeout_callback m id = elim (get m.by_id id) [
    | none ↦ none
    | some i ↦
        if is_pending i.status && is_permission i.kind
        then elim (get m.deliver i.id) [ none ↦ none | some number ↦ some (number, timed_out_i i) ]
        else none
  ]

  -- `MediationService._timeout`, its callback run.
  unfoldable pub times_out : Host → Manager → ℕ → Result (Unit {0}) → Host × Manager
  unfolding deliver timeout_callback
  times_out h m id responded =
      let (h', mediation) = timeout h m.mediation id in
      let m' : Manager = record m { mediation = mediation } in
      elim (timeout_callback m.mediation id) [
        | none ↦ (h', m')
        | some (number, i) ↦ deliver h' m' (some number) i timed_out_answer responded
      ]

  -- What an external path asks for.
  abbrev pub external_request :
      String
      → ℕ
      → String
      → InteractionKind
      → String
      → String
      → List String
      → List QuestionGroup
      → ℕ
      → InteractionRequest
  external_request adapter sid native_id kind title body options questions timeout_s = record {
    session_id = sid;
    adapter = adapter;
    native_id = native_id;
    kind = kind;
    title = title;
    body = body;
    options = options;
    questions = questions;
    timeout_s = some timeout_s;
  }

  -- `open_external_interaction` once its session is looked up: the interaction, and the number of its
  -- future.
  unfoldable pub open_for :
      Host
      → Manager
      → String
      → Option Session
      → (ℕ → InteractionRequest)
      → Outcome (Interaction × ℕ)
  unfolding open_mediated
  open_for h m native_id none request = record {
    result = raise unknown_session;
    host = h;
    manager = m;
  }
  open_for h m native_id (some s) request =
      let o = open_mediated h m s.id (request s.id) (resolve_future s.id) in
      record {
        result = elim o.result [ raise e ↦ raise e | ok i ↦ ok (i, m.next_closure) ];
        host = o.host;
        manager = o.manager;
      }

  -- `open_external_interaction`, with what `discover_sessions` gives where it is asked.
  unfoldable pub open_external :
      Host
      → Manager
      → String
      → String
      → (ℕ → InteractionRequest)
      → Result (List SessionDescriptor)
      → Outcome (Interaction × ℕ)
  unfolding open_for discover require_adapter
  open_external h m adapter session_native_id request found = elim (require_adapter m adapter) [
    | raise e ↦ record { result = raise e; host = h; manager = m }
    | ok a ↦ elim (resolve m.registry adapter session_native_id) [
      | some s ↦ open_for h m session_native_id (some s) request
      | none ↦
          let o = discover message h m adapter found in
          elim o.result [
            | raise e ↦ record { result = raise e; host = o.host; manager = o.manager }
            | ok u ↦
                open_for o.host o.manager session_native_id
                  (resolve o.manager.registry adapter session_native_id) request
          ]
    ]
  ]

-- `withdraw_external_interaction`
unfoldable pub withdraw_external : Host → Manager → ℕ → String → Outcome (Unit {0})
withdraw_external h m id reason = elim (get m.mediation.by_id id) [
  | none ↦ record { result = ok tt; host = h; manager = m }
  | some i ↦
      if is_pending i.status
      then (let o = cancel_native h m.mediation i.adapter i.native_id reason in
          record {
            result = o.result;
            host = o.host;
            manager = record m { mediation = o.mediation };
          })
      else record { result = ok tt; host = h; manager = m }
]
