-- ===== src/Scheduler/Model.antt =====
-- src/prodeo/scheduler/model.py, and LaunchSpec of src/prodeo/adapters/interface.py.
use command_center.Base.{ℕ, String, Option}
use command_center.Base.Dict.{Dict}
use command_center.Base.Json.{Json}

pub record LaunchSpec : Type 0 where
  pub project : String
  pub prompt : String
  pub model : String
  pub permission_mode : String
  pub options : Dict String Json

pub record Schedule : Type 0 where
  pub id : ℕ
  pub name : String
  pub cron : String
  pub adapter : String
  pub spec : LaunchSpec
  pub created_at : ℕ
  pub last_triggered_at : Option ℕ
  pub next_run_at : Option ℕ
