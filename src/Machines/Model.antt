-- ===== src/Machines/Model.antt =====
-- src/prodeo/machines/model.py.
use command_center.Base.{ℕ, String, Option}

pub record Machine : Type 0 where
  pub id : ℕ
  pub node : String
  pub name : String
  pub address : Option String
  pub certificate : String
  pub added_at : ℕ
