-- ===== src/Persistence/Tests.antt =====
-- Runs of src/prodeo/persistence/sqlite.py at concrete inputs.
use command_center.Base.{ℕ, suc, String, none, some, List, [], ◌∷◌, length, ◌≡◌, arith}
use command_center.Events.Envelope.{Event}
use command_center.Events.Host.Ids.{IsIncreasing}
use command_center.Persistence.Store.{EventQuery, desc, append, delete, ordered, query, pages}
use command_center.Persistence.Store.Paging.{of_type, pages-of_type}
use command_center.Persistence.Store.Answers.{Answers}
use command_center.Persistence.Store.Rows.{Appended, Deleted, store-Serves}

abbrev stored : ℕ → String → Event
stored id type_ = record {
  id = id;
  type = type_;
  version = 1;
  timestamp = id;
  node = "hub";
  session_id = none;
  correlation_id = none;
  source = "test";
  payload = [];
}

abbrev rows : List Event
rows =
    stored 1 "session.updated"
    ∷ stored 2 "agent.output_appended"
    ∷ stored 3 "session.completed"
    ∷ stored 5 "session.archived"
    ∷ []

rows-IsIncreasing : IsIncreasing rows
rows-IsIncreasing = (
  (omega arith, (omega arith, (omega arith, tt))),
  ((omega arith, (omega arith, tt)), ((omega arith, tt), (tt, tt))),
)

pages-of_type_example : pages rows "session.*" 2 (suc (length rows)) none ≡ of_type "session.*" rows
pages-of_type_example = pages-of_type rows "session.*" 1 rows-IsIncreasing

-- The newest event of a type that is older than the third.
abbrev newest : EventQuery
newest = record {
  after_id = none;
  before_id = some 3;
  type_pattern = "session.*";
  session_id = none;
  node = some "hub";
  limit = 1;
  order = desc;
}

store-Serves_example :
    Appended rows (stored 4 "tool.started") (append rows (stored 4 "tool.started"))
    × Deleted rows (2 ∷ 9 ∷ []) (delete rows (2 ∷ 9 ∷ []))
    × Answers newest 1 (ordered desc rows) (query rows newest)
store-Serves_example =
    store-Serves rows (stored 4 "tool.started") (2 ∷ 9 ∷ []) newest rows-IsIncreasing (omega arith)
