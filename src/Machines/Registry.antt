-- ===== src/Machines/Registry.antt =====
-- src/prodeo/machines/registry.py: the Machine Registry, with the fold of its own events.
pub mod Durable
pub mod Unique
pub mod Local
use command_center.Base.{
  ℕ, String, Option, none, some, List, [], ◌∷◌, if◌then◌else◌, ◌==◌, string_Eq, nat_Eq, Result, ok,
  raise, ◌>>=◌, unknown_machine, machine_conflict, find, sorted_by, Bool, true, false,
}
use command_center.Base.Dict.{Dict, get, put, pop, values}
use command_center.Events.Types.{machine_added, machine_renamed, machine_removed}
use command_center.Events.Envelope.{Event, Value, machine, ulid, text, item, as_machine, as_text}
use command_center.Events.Host.{Host, now, tick, fresh, draw, emit}
use command_center.Machines.Model.{Machine}

pub record Registry : Type 0 where
  pub node : String
  pub by_id : Dict ℕ Machine

abbrev pub init : String → Registry
init node = record { node = node; by_id = [] }

abbrev pub Outcome : Type 0 → Type 0
Outcome A = record { result : Result A; host : Host; registry : Registry }

abbrev pub source : String
source = "machine-registry"

unfoldable pub list_machines : Registry → List Machine
list_machines r = sorted_by (λ m. m.id) (values r.by_id)

abbrev pub has_node : String → Machine → Bool
has_node node m = m.node == node

unfoldable pub get_by_node : Registry → String → Option Machine
get_by_node r node = find (has_node node) (values r.by_id)

abbrev or_else : String → String → String
or_else name node = if name == "" then node else name

unfoldable pub new_machine : Host → String → String → Option String → String → Machine
new_machine h node name address certificate = record {
  id = fresh h;
  node = node;
  name = or_else name node;
  address = address;
  certificate = certificate;
  added_at = now h;
}

-- `add`, once the node is known to be new.
unfoldable pub register : Host → Registry → Machine → Outcome Machine
register h r m = record {
  result = ok m;
  host = emit (draw (tick h)) machine_added r.node source none (("machine", machine m) ∷ []);
  registry = record r { by_id = put r.by_id m.id m };
}

unfoldable pub add : Host → Registry → String → String → Option String → String → Outcome Machine
unfolding get_by_node new_machine register
add h r node name address certificate = elim (get_by_node r node) [
  | some m ↦ record { result = raise (machine_conflict node); host = h; registry = r }
  | none ↦ register h r (new_machine h node name address certificate)
]

unfoldable pub ensure_local : Host → Registry → Outcome Machine
unfolding get_by_node add
ensure_local h r = elim (get_by_node r r.node) [
  | some m ↦ record { result = ok m; host = h; registry = r }
  | none ↦ add h r r.node "" none ""
]

abbrev pub named : Machine → String → Machine
named m name = record m { name = name }

unfoldable pub rename : Host → Registry → ℕ → String → Outcome Machine
rename h r machine_id name = elim (get r.by_id machine_id) [
  | none ↦ record { result = raise (unknown_machine machine_id); host = h; registry = r }
  | some m ↦ record {
    result = ok (named m name);
    host =
        emit h machine_renamed r.node source none
          (("machine_id", ulid machine_id) ∷ ("name", text name) ∷ []);
    registry = record r { by_id = put r.by_id machine_id (named m name) };
  }
]

-- `remove`, of a machine that is there.
unfoldable pub remove_found : Host → Registry → ℕ → Option String → Outcome Unit
remove_found h r machine_id none = record {
  result = raise (machine_conflict "the hub's own machine cannot be removed");
  host = h;
  registry = r;
}
remove_found h r machine_id (some address) = record {
  result = ok tt;
  host = emit h machine_removed r.node source none (("machine_id", ulid machine_id) ∷ []);
  registry = record r { by_id = pop r.by_id machine_id };
}

unfoldable pub remove : Host → Registry → ℕ → Outcome Unit
unfolding remove_found
remove h r machine_id = elim (get r.by_id machine_id) [
  | none ↦ record { result = raise (unknown_machine machine_id); host = h; registry = r }
  | some m ↦ remove_found h r machine_id m.address
]

-- A key that is not a ULID is not found.
abbrev as_key : Value → Option ℕ
as_key (ulid id) = some id
as_key _ = none

unfoldable pub apply_renamed : Registry → Event → Option ℕ → Result Registry
apply_renamed r event none = ok r
apply_renamed r event (some id) = elim (get r.by_id id) [
  | none ↦ ok r
  | some m ↦ (do
    v ← item event.payload "name"
    name ← as_text v
    ok (record r { by_id = put r.by_id id (named m name) }))
]

unfoldable pub apply_removed : Registry → Option ℕ → Registry
apply_removed r none = r
apply_removed r (some id) = record r { by_id = pop r.by_id id }

-- `_apply`
unfoldable pub apply : Registry → Event → Result Registry
unfolding apply_renamed apply_removed
apply r event =
    if event.type == machine_added
    then (do
      v ← item event.payload "machine"
      m ← as_machine v
      ok (record r { by_id = put r.by_id m.id m }))
    else if event.type == machine_renamed
    then (do v ← item event.payload "machine_id"; apply_renamed r event (as_key v))
    else if event.type == machine_removed
    then (do v ← item event.payload "machine_id"; ok (apply_removed r (as_key v)))
    else ok r

-- `rebuild`: the fold of the log, in its order.
unfoldable pub replay : Registry → List Event → Result Registry
unfolding apply
replay r [] = ok r
replay r (event ∷ events) = do r' ← apply r event; replay r' events
