-- ===== src/Sessions/Registry/Fold.antt =====
-- The read side of src/prodeo/sessions/registry.py: the fold over `session.*` events.
use package.text.Mathlib.Text.{starts_with}
use command_center.Base.{
  ℕ, Option, none, some, List, [], ◌∷◌, not, ◌||◌, if◌then◌else◌, ◌==◌, string_Eq, pair_Eq, nat_Eq,
  Result, ok, ◌>>=◌,
}
use command_center.Base.Dict.{get}
use command_center.Events.Types.{session_discovered, session_state_changed, session_updated}
use command_center.Events.Envelope.{Event, item, as_session, as_state}
use command_center.Sessions.Model.{Session}
use command_center.Sessions.Registry.{Registry, add, moved, store}

-- The descriptive fields of a snapshot, and those only.
unfoldable pub described : Session → Session → Session
described existing snapshot = record existing {
  title = snapshot.title;
  project = snapshot.project;
  model = snapshot.model;
  permission_mode = snapshot.permission_mode;
  metadata = snapshot.metadata;
}

unfoldable pub apply_discovered : Registry → Event → Result Registry
apply_discovered r event = do v ← item event.payload "session"; s ← as_session v; ok (add r s)

-- `sid` is the key under which the session was found.
unfoldable pub apply_state_changed : Registry → Event → Option ℕ → Result Registry
unfolding moved
apply_state_changed r event none = ok r
apply_state_changed r event (some sid) = elim (get r.by_id sid) [
  | none ↦ ok r
  | some existing ↦ do
    v ← item event.payload "to"
    to_state ← as_state v
    ok (store r sid (moved existing to_state event.timestamp))
]

unfoldable pub apply_updated : Registry → Event → Option ℕ → Result Registry
unfolding described
apply_updated r event none = ok r
apply_updated r event (some sid) = elim (get r.by_id sid) [
  | none ↦ ok r
  | some existing ↦ do
    v ← item event.payload "session"
    snapshot ← as_session v
    ok (store r sid (described existing snapshot))
]

-- `_apply`. Where it raises, it has not yet changed anything.
unfoldable pub apply : Registry → Event → Result Registry
unfolding apply_discovered apply_state_changed apply_updated
apply r event =
    if event.type == session_discovered
    then apply_discovered r event
    else if event.type == session_state_changed
    then apply_state_changed r event event.session_id
    else if event.type == session_updated
    then apply_updated r event event.session_id
    else ok r

-- `apply_remote`
unfoldable pub apply_remote : Registry → Event → Result Registry
unfolding apply
apply_remote r event =
    if event.node == r.node || not (starts_with event.type "session.") then ok r else apply r event

-- The fold over a list of events, in order; an exception ends it.
unfoldable pub replay : Registry → List Event → Result Registry
replay r [] = ok r
replay r (e ∷ es) = apply r e >>= λ r'. replay r' es
