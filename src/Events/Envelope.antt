-- ===== src/Events/Envelope.antt =====
-- src/prodeo/events/envelope.py: the event envelope. A payload is a dictionary; a field of it holds
-- what the services put there, a model in place of its JSON dump (pydantic's dump and validate are
-- inverse to one another).
use command_center.Base.{
  ℕ, String, Option, none, some, List, Bool, Result, ok, raise, key_error, validation_error,
  string_Eq,
}
use command_center.Base.Dict.{Dict, get}
use command_center.Base.Text.{ℤ}
use command_center.Base.Json.{Json}
use command_center.Sessions.State.{SessionState}
use command_center.Sessions.Model.{Session}
use command_center.Mediation.Model.{Interaction, Answer}
use command_center.Machines.Model.{Machine}
use command_center.Scheduler.Model.{Schedule}

pub data Value : Type 0 where
  session : Session → Value
  interaction : Interaction → Value
  answer : Answer → Value
  machine : Machine → Value
  schedule : Schedule → Value
  state : SessionState → Value
  ulid : ℕ → Value
  text : String → Value
  texts : List String → Value
  count : ℕ → Value
  flag : Bool → Value
  json : Json → Value
  int : ℤ → Value

abbrev pub Payload : Type 0
Payload = Dict String Value

pub record Event : Type 0 where
  pub id : ℕ
  pub type : String
  pub version : ℕ
  pub timestamp : ℕ
  pub node : String
  pub session_id : Option ℕ
  pub correlation_id : Option String
  pub source : String
  pub payload : Payload

-- `payload[key]`
abbrev pub item : Payload → String → Result Value
item p key = elim (get p key) [ none ↦ raise (key_error key) | some v ↦ ok v ]

abbrev pub as_session : Value → Result Session
as_session (session s) = ok s
as_session _ = raise validation_error

abbrev pub as_state : Value → Result SessionState
as_state (state s) = ok s
as_state _ = raise validation_error

abbrev pub as_interaction : Value → Result Interaction
as_interaction (interaction i) = ok i
as_interaction _ = raise validation_error

abbrev pub as_answer : Value → Result Answer
as_answer (answer a) = ok a
as_answer _ = raise validation_error

abbrev pub as_machine : Value → Result Machine
as_machine (machine m) = ok m
as_machine _ = raise validation_error

abbrev pub as_schedule : Value → Result Schedule
as_schedule (schedule s) = ok s
as_schedule _ = raise validation_error

abbrev pub as_text : Value → Result String
as_text (text t) = ok t
as_text _ = raise validation_error

abbrev pub as_ulid : Value → Result ℕ
as_ulid (ulid n) = ok n
as_ulid _ = raise validation_error
