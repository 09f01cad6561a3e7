-- ===== src/Adapters/Model.antt =====
-- src/prodeo/adapters/interface.py and observations.py: what an adapter declares and what it reports.
use command_center.Base.{ℕ, String, Option, List, [], ◌∷◌, Bool}
use command_center.Base.Dict.{Dict}
use command_center.Base.Json.{Json, Fields, Items, end, field, bool, obj, str, nil, cons}
use command_center.Sessions.State.{SessionState}
use command_center.Sessions.Model.{SessionDescriptor}
use command_center.Mediation.Model.{InteractionKind, QuestionGroup}

pub record ModelInfo : Type 0 where
  pub id : String
  pub label : String
  pub default : Bool

pub record AdapterCapabilities : Type 0 where
  pub observe : Bool
  pub launch : Bool
  pub terminate : Bool
  pub respond_to_permissions : Bool
  pub answer_questions : Bool
  pub send_prompts : Bool
  pub set_model : Bool
  pub set_permission_mode : Bool
  pub interrupt : Bool
  pub report_context : Bool
  pub historical_sessions : Bool

-- An adapter as the manager sees it: `metadata` and `capabilities`.
pub record Adapter : Type 0 where
  pub name : String
  pub version : String
  pub models : List ModelInfo
  pub capabilities : AdapterCapabilities

pub record AdapterInfo : Type 0 where
  pub name : String
  pub version : String
  pub capabilities : AdapterCapabilities
  pub models : List ModelInfo

pub record SessionRef : Type 0 where
  pub adapter : String
  pub native_id : String
  pub session_id : ℕ

pub record InteractionRef : Type 0 where
  pub adapter : String
  pub session_native_id : String
  pub interaction_id : ℕ
  pub native_id : String

pub data TurnPhase : Type 0 where
  turn_started turn_completed : TurnPhase

pub data ToolPhase : Type 0 where
  tool_started tool_finished tool_failed : ToolPhase

pub record OutputObservation : Type 0 where
  pub native_id : String
  pub role : String
  pub text : String
  pub at : Option ℕ
  pub metadata : Dict String Json

pub record ToolObservation : Type 0 where
  pub native_id : String
  pub phase : ToolPhase
  pub tool : String
  pub tool_use_id : String
  pub detail : String
  pub at : Option ℕ

pub record InteractionObservation : Type 0 where
  pub native_id : String
  pub interaction_native_id : String
  pub kind : InteractionKind
  pub title : String
  pub body : String
  pub options : List String
  pub questions : List QuestionGroup
  pub timeout_s : Option ℕ
  pub at : Option ℕ

-- `Observation`. The other kinds carry their fields in the order of the source.
pub data Observation : Type 0 where
  session_seen : SessionDescriptor → Observation
  state_seen : String → SessionState → String → Option ℕ → Observation
  output_seen : OutputObservation → Observation
  turn_seen : String → TurnPhase → Option ℕ → Observation
  tool_seen : ToolObservation → Observation
  interaction_seen : InteractionObservation → Observation
  closed_seen : String → String → String → Option ℕ → Observation

-- `capabilities.model_dump()` and `[m.model_dump() for m in models]`
abbrev bools : List (String × Bool) → Fields
bools [] = end
bools ((k, b) ∷ r) = field k (bool b) (bools r)

abbrev pub dump_capabilities : AdapterCapabilities → Json
dump_capabilities c = obj (
    bools (
      ("observe", c.observe)
      ∷ ("launch", c.launch)
      ∷ ("terminate", c.terminate)
      ∷ ("respond_to_permissions", c.respond_to_permissions)
      ∷ ("answer_questions", c.answer_questions)
      ∷ ("send_prompts", c.send_prompts)
      ∷ ("set_model", c.set_model)
      ∷ ("set_permission_mode", c.set_permission_mode)
      ∷ ("interrupt", c.interrupt)
      ∷ ("report_context", c.report_context)
      ∷ ("historical_sessions", c.historical_sessions)
      ∷ []))

abbrev pub dump_models : List ModelInfo → Items
dump_models [] = nil
dump_models (m ∷ ms) =
    cons
      (obj (
        field "id" (str m.id) (field "label" (str m.label) (field "default" (bool m.default) end))))
      (dump_models ms)
