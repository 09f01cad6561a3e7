-- ===== src/Mediation/Model.antt =====
-- src/prodeo/mediation/model.py: interactions, answers and requests.
use command_center.Base.{ℕ, String, Option, List, Bool, true, false}
use command_center.Base.Dict.{Dict}
use command_center.Base.Json.{Json}

pub data InteractionKind : Type 0 where
  permission question : InteractionKind

pub data InteractionStatus : Type 0 where
  pending answered timed_out cancelled : InteractionStatus

abbrev pub is_pending : InteractionStatus → Bool
is_pending pending = true
is_pending _ = false

abbrev pub is_permission : InteractionKind → Bool
is_permission permission = true
is_permission question = false

abbrev pub status_value : InteractionStatus → String
status_value pending = "pending"
status_value answered = "answered"
status_value timed_out = "timed_out"
status_value cancelled = "cancelled"

pub record QuestionOption : Type 0 where
  pub label : String
  pub description : String

pub record QuestionGroup : Type 0 where
  pub id : String
  pub prompt : String
  pub options : List QuestionOption
  pub multi_select : Bool

pub data Decision : Type 0 where
  allow deny : Decision

pub record Answer : Type 0 where
  pub decision : Option Decision
  pub text : String
  pub updated_input : Option (Dict String Json)
  pub selections : Option (Dict String (List String))

pub record InteractionRequest : Type 0 where
  pub session_id : ℕ
  pub adapter : String
  pub native_id : String
  pub kind : InteractionKind
  pub title : String
  pub body : String
  pub options : List String
  pub questions : List QuestionGroup
  pub timeout_s : Option ℕ

pub record Interaction : Type 0 where
  pub id : ℕ
  pub session_id : ℕ
  pub adapter : String
  pub native_id : String
  pub node : String
  pub kind : InteractionKind
  pub title : String
  pub body : String
  pub options : List String
  pub questions : List QuestionGroup
  pub requested_at : ℕ
  pub timeout_at : Option ℕ
  pub status : InteractionStatus
  pub answered_by : String
  pub answered_at : Option ℕ
  pub answer : Option Answer
