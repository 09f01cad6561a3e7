-- ===== src/Sessions/Model.antt =====
-- src/prodeo/sessions/model.py. A ULID is its number, a time is a number of microseconds.
use command_center.Base.{ℕ, String, Option}
use command_center.Base.Dict.{Dict}
use command_center.Base.Json.{Json}
use command_center.Sessions.State.{SessionState}

pub record SessionDescriptor : Type 0 where
  pub native_id : String
  pub title : String
  pub project : String
  pub model : Option String
  pub state : SessionState
  pub started_at : Option ℕ
  pub last_activity_at : Option ℕ
  pub metadata : Dict String Json

pub record Session : Type 0 where
  pub id : ℕ
  pub adapter : String
  pub native_id : String
  pub node : String
  pub title : String
  pub project : String
  pub model : Option String
  pub permission_mode : String
  pub state : SessionState
  pub created_at : ℕ
  pub last_activity_at : ℕ
  pub ended_at : Option ℕ
  pub metadata : Dict String Json
