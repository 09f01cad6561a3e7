-- ===== src/Adapters/Manager.antt =====
-- src/prodeo/adapters/manager.py: the Adapter Manager over the Session Registry and the Mediation Service.
-- What a call into an adapter returns or raises is an argument of the method that makes the call.
pub mod Discovery
pub mod Observe
pub mod Interact
pub mod Quiet
pub mod Consistent
pub mod Steady
pub mod Lifecycle
pub mod Reported
pub mod Answered
pub mod Calls
pub mod Gate
pub mod Output
pub mod Delivered
pub mod Parked
pub mod Backoff
use Prim.Native.String.{◌++◌ as str_append}
use command_center.Base.{
  ℕ, ◌+◌, String, Option, none, some, List, [], ◌∷◌, ◌++◌, Bool, true, false, not, ◌||◌, any,
  if◌then◌else◌, ◌==◌, string_Eq, pair_Eq, nat_Eq, Result, ok, raise, ◌>>=◌, Error, unknown_adapter,
  unknown_session, capability_not_supported, adapter_operation,
}
use command_center.Base.Dict.{Dict, get, put}
use command_center.Base.Json.{Json}
use command_center.Events.Types.{adapter_error}
use command_center.Events.Envelope.{Payload, text}
use command_center.Events.Host.{Host, emit}
use command_center.Sessions.Model.{Session}
use command_center.Sessions.Registry.{Registry, refresh_model, refresh_permission_mode}
use command_center.Mediation.Model.{Interaction, Answer}
use command_center.Mediation.Service.{Mediation}
use command_center.Adapters.Model.{
  Adapter, AdapterInfo, AdapterCapabilities, SessionRef, InteractionRef,
}
use command_center.Scheduler.Model.{LaunchSpec}

-- A watch task: the session it follows, and whether it has ended.
pub record Watch : Type 0 where
  pub ref : SessionRef
  pub done : Bool

-- The closures that mediation is given: the one of `_open_interaction`, and the one of
-- `open_external_interaction`, whose future has the closure's number.
pub data Closure : Type 0 where
  respond : String → String → String → ℕ → Closure
  resolve_future : ℕ → Closure

-- What a call into an adapter takes besides the reference to its session.
pub data Argument : Type 0 where
  nothing : Argument
  launching : LaunchSpec → Argument
  setting : String → Argument
  reply : InteractionRef → Answer → Argument

-- A call that reached an adapter, with the native id of what it is about.
pub record AdapterCall : Type 0 where
  pub adapter : String
  pub operation : String
  pub native_id : String
  pub argument : Argument

-- The attributes, and `calls`, the history of the control calls made of the adapters.
pub record Manager : Type 0 where
  pub node : String
  pub adapters : Dict String Adapter
  pub started : List String
  pub watches : Dict (String × String) Watch
  pub stopping : Bool
  pub registry : Registry
  pub mediation : Mediation
  pub closures : Dict ℕ Closure
  pub next_closure : ℕ
  pub futures : Dict ℕ Interaction
  pub calls : List AdapterCall

abbrev pub init : String → Registry → Mediation → Manager
init node registry mediation = record {
  node = node;
  adapters = [];
  started = [];
  watches = [];
  stopping = false;
  registry = registry;
  mediation = mediation;
  closures = [];
  next_closure = 0;
  futures = [];
  calls = [];
}

abbrev pub Outcome : Type 0 → Type 0
Outcome A = record { result : Result A; host : Host; manager : Manager }

-- `add`
unfoldable pub add : Manager → Adapter → Manager
add m adapter = record m { adapters = put m.adapters adapter.name adapter }

abbrev pub has_name : String → List String → Bool
has_name name xs = any (λ x. x == name) xs

unfoldable pub describe : List (String × Adapter) → List String → List AdapterInfo
describe [] started = []
describe ((name, a) ∷ rest) started =
    let more = describe rest started in
    if has_name name started
    then record {
      name = name;
      version = a.version;
      capabilities = a.capabilities;
      models = a.models;
    }
      ∷ more
    else more

-- `describe_adapters`
unfoldable pub describe_adapters : Manager → List AdapterInfo
unfolding describe
describe_adapters m = describe m.adapters m.started

abbrev pub source_of : String → String
source_of name = str_append "adapter:" name

abbrev pub error_payload : String → String → String → Payload
error_payload name kind detail =
    ("adapter", text name) ∷ ("error", text kind) ∷ ("detail", text detail) ∷ []

-- `_error`
unfoldable pub error : Host → Manager → String → String → String → Option ℕ → Host
error h m name kind detail session_id =
    emit h adapter_error m.node (source_of name) session_id (error_payload name kind detail)

-- `_require_adapter`
unfoldable pub require_adapter : Manager → String → Result Adapter
require_adapter m name = elim (get m.adapters name) [
  | none ↦ raise (unknown_adapter name)
  | some adapter ↦ if has_name name m.started then ok adapter else raise (unknown_adapter name)
]

-- `_require_session`
unfoldable pub require_session : Manager → ℕ → Result (Session × Adapter)
unfolding require_adapter
require_session m session_id = elim (get m.registry.by_id session_id) [
  | none ↦ raise unknown_session
  | some session ↦ do adapter ← require_adapter m session.adapter; ok (session, adapter)
]

-- `_require_capability`
abbrev pub require_capability : String → Bool → Result (Unit {0})
require_capability capability declared =
    if declared then ok tt else raise (capability_not_supported capability)

-- `isinstance(exc, CapabilityNotSupportedError)`
abbrev pub is_unsupported : Error → Bool
is_unsupported (capability_not_supported capability) = true
is_unsupported _ = false

abbrev pub called_with : Manager → String → String → String → Argument → Manager
called_with m adapter operation native_id argument = record m {
  calls =
      m.calls
      ++ record {
        adapter = adapter;
        operation = operation;
        native_id = native_id;
        argument = argument;
      }
        ∷ [];
}

-- What follows a control call that succeeded.
abbrev pub after_control : {A B : Type 0} → Outcome A → (A → Host → Manager → Outcome B) → Outcome B
after_control o next = elim o.result [
  | raise e ↦ record { result = raise e; host = o.host; manager = o.manager }
  | ok a ↦ next a o.host o.manager
]

abbrev pub done : {A : Type 0} → A → Host → Manager → Outcome A
done a h m = record { result = ok a; host = h; manager = m }

-- The registry's description follows the adapter.
abbrev pub with_model : {A : Type 0} → String → Session × A → Host → Manager → Outcome (Unit {0})
with_model model p h m =
    let (h', r) = refresh_model h m.registry p.0.id model in done tt h' (record m { registry = r })

abbrev pub with_mode : {A : Type 0} → String → Session × A → Host → Manager → Outcome (Unit {0})
with_mode mode p h m =
    let (h', r) = refresh_permission_mode h m.registry p.0.id mode in
    done tt h' (record m { registry = r })

-- The control calls. `message` is `str` of an exception.
module _ (message : Error → String) where
  -- `_operation_failed`, and the raise of what it returns.
  unfoldable pub operation_failed :
      {A : Type 0} → Host → Manager → String → String → Error → Option ℕ → Outcome A
  unfolding error
  operation_failed h m adapter_name operation exc session_id =
      if is_unsupported exc then record { result = raise exc; host = h; manager = m } else record {
        result =
            raise (adapter_operation (str_append operation (str_append " failed: " (message exc))));
        host = error h m adapter_name (str_append operation "_failed") (message exc) session_id;
        manager = m;
      }

  -- What the control calls share: the session, its adapter, the capability, and the guarded call.
  unfoldable pub control :
      {A : Type 0}
      → Host
      → Manager
      → ℕ
      → String
      → (AdapterCapabilities → Bool)
      → Argument
      → Result A
      → Outcome (Session × A)
  unfolding require_session operation_failed
  control h m session_id operation capability argument called =
      elim (require_session m session_id) [
        | raise e ↦ record { result = raise e; host = h; manager = m }
        | ok (session, adapter) ↦
            elim (require_capability operation (capability adapter.capabilities)) [
              | raise e ↦ record { result = raise e; host = h; manager = m }
              | ok u ↦
                  let m' = called_with m session.adapter operation session.native_id argument in
                  elim called [
                    | raise exc ↦
                        operation_failed h m' session.adapter operation exc (some session.id)
                    | ok a ↦ record { result = ok (session, a); host = h; manager = m' }
                  ]
            ]
      ]

  unfoldable pub terminate : Host → Manager → ℕ → Result (Unit {0}) → Outcome (Unit {0})
  unfolding control
  terminate h m session_id called =
      after_control (control h m session_id "terminate" (λ c. c.terminate) nothing called)
        (λ p. done tt)

  unfoldable pub send_prompt : Host → Manager → ℕ → String → Result (Unit {0}) → Outcome (Unit {0})
  unfolding control
  send_prompt h m session_id prompt called =
      after_control
        (control h m session_id "send_prompt" (λ c. c.send_prompts) (setting prompt) called)
        (λ p. done tt)

  unfoldable pub interrupt : Host → Manager → ℕ → Result (Unit {0}) → Outcome (Unit {0})
  unfolding control
  interrupt h m session_id called =
      after_control (control h m session_id "interrupt" (λ c. c.interrupt) nothing called)
        (λ p. done tt)

  unfoldable pub context_usage : Host → Manager → ℕ → Result Json → Outcome Json
  unfolding control
  context_usage h m session_id called =
      after_control (control h m session_id "context_usage" (λ c. c.report_context) nothing called)
        (λ p. done p.1)

  unfoldable pub set_model : Host → Manager → ℕ → String → Result (Unit {0}) → Outcome (Unit {0})
  unfolding control
  set_model h m session_id model called =
      after_control (control h m session_id "set_model" (λ c. c.set_model) (setting model) called)
        (with_model model)

  unfoldable pub set_permission_mode :
      Host → Manager → ℕ → String → Result (Unit {0}) → Outcome (Unit {0})
  unfolding control
  set_permission_mode h m session_id mode called =
      after_control
        (control h m session_id "set_permission_mode" (λ c. c.set_permission_mode) (setting mode)
          called)
        (with_mode mode)
