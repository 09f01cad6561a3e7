-- ===== src/Persistence/Store.antt =====
-- src/prodeo/persistence/sqlite.py: the event store, as the rows of its table in the order of their
-- primary key, and the loop in which the services page through it when they rebuild.
pub mod Paging
pub mod Answers
pub mod Chunks
pub mod Rows
use command_center.Base.{
  ℕ, zero, suc, ◌+◌, ◌-◌, String, Option, none, some, List, [], ◌∷◌, ◌++◌, Bool, true, false, any,
  not, leb, ltb, nat_eq, keep, length, take, drop, if◌then◌else◌, ◌==◌, nat_Eq, string_Eq,
}
use command_center.Events.Envelope.{Event}
use command_center.Bus.{matches}

pub data Order : Type 0 where
  asc desc : Order

pub record EventQuery : Type 0 where
  pub after_id : Option ℕ
  pub before_id : Option ℕ
  pub type_pattern : String
  pub session_id : Option ℕ
  pub node : Option String
  pub limit : ℕ
  pub order : Order

-- `INSERT OR IGNORE`: a row with this key stays as it is. SQLite's engine is no code of the repository: its
-- primary key and `ORDER BY id` are represented by keeping the rows in the order of their ids.
unfoldable pub append : List Event → Event → List Event
append [] e = e ∷ []
append (row ∷ rows) e =
    let rest = append rows e in
    if ltb e.id row.id
    then e ∷ row ∷ rows
    else if nat_eq e.id row.id
    then row ∷ rows
    else row ∷ rest

abbrev pub is_after : Option ℕ → Event → Bool
is_after none e = true
is_after (some id) e = ltb id e.id

abbrev pub is_before : Option ℕ → Event → Bool
is_before none e = true
is_before (some id) e = ltb e.id id

-- `session_id = ?`: a NULL equals nothing.
abbrev pub in_session : Option ℕ → Event → Bool
in_session none e = true
in_session (some session_id) e = elim e.session_id [ none ↦ false | some id ↦ id == session_id ]

abbrev pub from_node : Option String → Event → Bool
from_node none e = true
from_node (some node) e = e.node == node

-- `ORDER BY id DESC`
unfoldable pub descending : List Event → List Event
descending [] = []
descending (e ∷ es) = descending es ++ e ∷ []

abbrev pub ordered : Order → List Event → List Event
ordered asc es = es
ordered desc es = descending es

-- The rows read one by one, `found` of them taken before.
unfoldable pub collect : String → ℕ → ℕ → List Event → List Event
collect pattern limit found [] = []
collect pattern limit found (e ∷ es) =
    let more = collect pattern limit (found + 1) es in
    let skipped = collect pattern limit found es in
    if matches pattern e.type then (if leb limit (found + 1) then e ∷ [] else e ∷ more) else skipped

unfoldable pub query : List Event → EventQuery → List Event
unfolding collect descending
query rows q = collect q.type_pattern q.limit 0 (
    ordered q.order (
      keep (from_node q.node) (
        keep (in_session q.session_id)
          (keep (is_before q.before_id) (keep (is_after q.after_id) rows)))))

-- `DELETE FROM events WHERE id IN chunk`: the number of rows removed, and the others.
unfoldable pub delete_chunk : List Event → List ℕ → ℕ × List Event
delete_chunk rows chunk =
    let left = keep (λ e. not (any (λ id. nat_eq id e.id) chunk)) rows in
    (length rows - length left, left)

abbrev pub chunk_size : ℕ
chunk_size = 500

-- `for start in range(0, len(ids), 500)`: one statement for each chunk of the ids.
unfoldable pub delete_chunks : ℕ → List Event → List ℕ → ℕ → ℕ × List Event
unfolding delete_chunk
delete_chunks zero rows ids removed = (removed, rows)
delete_chunks (suc fuel) rows [] removed = (removed, rows)
delete_chunks (suc fuel) rows (id ∷ ids) removed =
    let (n, left) = delete_chunk rows (take chunk_size (id ∷ ids)) in
    delete_chunks fuel left (drop chunk_size (id ∷ ids)) (removed + n)

-- `delete`. There are no more chunks than ids.
unfoldable pub delete : List Event → List ℕ → ℕ × List Event
unfolding delete_chunks
delete rows ids = delete_chunks (length ids) rows ids 0

abbrev pub last : Event → List Event → Event
last e [] = e
last e (x ∷ xs) = last x xs

-- The query of a rebuild.
abbrev pub page_query : String → ℕ → Option ℕ → EventQuery
page_query pattern limit cursor = record {
  after_id = cursor;
  before_id = none;
  type_pattern = pattern;
  session_id = none;
  node = none;
  limit = limit;
  order = asc;
}

-- `while True` of a rebuild: the events of all batches, in the order in which they are folded.
unfoldable pub pages : List Event → String → ℕ → ℕ → Option ℕ → List Event
pages rows pattern limit zero cursor = []
pages rows pattern limit (suc fuel) cursor = elim (query rows (page_query pattern limit cursor)) [
  | [] ↦ []
  | e ∷ es ↦ (e ∷ es) ++ pages rows pattern limit fuel (some (last e es).id)
]
