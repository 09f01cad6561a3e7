-- ===== src/Sessions/Registry.antt =====
-- src/prodeo/sessions/registry.py: the Session Registry. Each method takes the surroundings and the
-- registry, and returns its result with what they have become.
pub mod Fold
pub mod Replay
pub mod Logged
pub mod Durable
pub mod Calls
pub mod Life
pub mod Discovery
pub mod Refusal
pub mod Forward
use command_center.Base.{
  ℕ, String, Option, none, some, List, [], ◌∷◌, ◌++◌, Bool, true, false, not, ◌&&◌, ◌||◌, any,
  length, if◌then◌else◌, Eq, ◌==◌, string_Eq, pair_Eq, option_Eq, nat_Eq, Result, ok, raise,
  unknown_session, illegal_transition, ◌>>=◌, sorted_desc,
}
use command_center.Base.Dict.{Dict, get, put, update, values}
use command_center.Base.Json.{Json, json_eq, or_null}
use command_center.Events.Types.{
  session_discovered, session_started, session_state_changed, session_updated, session_completed,
  session_failed, session_stopped, session_archived, adapter_error,
}
use command_center.Events.Envelope.{
  Event, Value, Payload, session, state, text, texts, item, as_session, as_state,
}
use command_center.Events.Host.{Host, now, tick, fresh, draw, emit}
use command_center.Sessions.State.{
  SessionState, discovered, starting, running, waiting_on_user, completed, failed, stopped,
  archived, rank_eq, elem, end_states, can_transition,
}
use command_center.Sessions.State
use command_center.Sessions.Model.{Session, SessionDescriptor}

pub record Registry : Type 0 where
  pub node : String
  pub by_id : Dict ℕ Session
  pub by_native : Dict (String × String) ℕ

-- `SessionRegistry(bus, node)`
abbrev pub init : String → Registry
init node = record { node = node; by_id = []; by_native = [] }

abbrev pub source : String
source = "session-registry"

-- What a method returns: its result or exception, and the state after it.
abbrev pub Outcome : Type 0 → Type 0
Outcome A = record { result : Result A; host : Host; registry : Registry }

-- A key that may be `None`: `d.get(key)` of a session id that is not set finds nothing.
abbrev pub find : Dict ℕ Session → Option ℕ → Option Session
find d none = none
find d (some sid) = get d sid

unfoldable pub list_sessions : Registry → List Session
list_sessions r = sorted_desc (λ s. s.last_activity_at) (values r.by_id)

unfoldable pub resolve : Registry → String → String → Option Session
resolve r adapter native_id = find r.by_id (get r.by_native (adapter, native_id))

abbrev lifecycle_for_state : SessionState → Option String
lifecycle_for_state completed = some session_completed
lifecycle_for_state failed = some session_failed
lifecycle_for_state stopped = some session_stopped
lifecycle_for_state archived = some session_archived
lifecycle_for_state _ = none

pub lifecycle_event : SessionState → SessionState → Option String
lifecycle_event from_state to_state =
    if rank_eq to_state running
    then (if rank_eq from_state discovered || rank_eq from_state starting
        then some session_started
        else none)
    else lifecycle_for_state to_state

-- A write to the fields of the session object that `by_id` holds.
abbrev pub store : Registry → ℕ → Session → Registry
store r sid s = record r { by_id = put r.by_id sid s }

pub publish_updated : Host → Registry → Session → List String → Host
publish_updated h r s fields =
    emit h session_updated r.node source (some s.id)
      (("session", session s) ∷ ("fields", texts fields) ∷ [])

pub publish_lifecycle : Host → Registry → ℕ → Session → Option String → String → Host
publish_lifecycle h r sid s none reason = h
publish_lifecycle h r sid s (some lifecycle) reason =
    emit h lifecycle r.node source (some sid)
      (("title", text s.title) ∷ ("project", text s.project) ∷ ("reason", text reason) ∷ [])

-- The session object after a transition at the time `at`.
unfoldable pub moved : Session → SessionState → ℕ → Session
moved s to_state at = record s {
  state = to_state;
  last_activity_at = at;
  ended_at = if elem to_state end_states then some at else none;
}

abbrev pub transition_payload : SessionState → SessionState → String → Payload
transition_payload from_state to_state reason =
    ("from", state from_state) ∷ ("to", state to_state) ∷ ("reason", text reason) ∷ []

abbrev pub refusal_payload : Session → SessionState → String → Payload
refusal_payload s to_state reason =
    ("adapter", text s.adapter)
    ∷ ("error", text "illegal_transition")
    ∷ ("from", state s.state)
    ∷ ("to", state to_state)
    ∷ ("reason", text reason)
    ∷ []

pub transition : Host → Registry → ℕ → Session → SessionState → String → Outcome Session
unfolding moved publish_lifecycle lifecycle_event
transition h r sid s to_state reason =
    if rank_eq to_state s.state
    then record { result = ok s; host = h; registry = r }
    else if not (can_transition s.state to_state)
    then record {
      result = raise (illegal_transition sid (State.value s.state) (State.value to_state));
      host = emit h adapter_error r.node source (some sid) (refusal_payload s to_state reason);
      registry = r;
    }
    else (let s' = moved s to_state (now h) in
        let changed =
          emit (tick h) session_state_changed r.node source (some sid)
            (transition_payload s.state to_state reason) in
        record {
          result = ok s';
          host = publish_lifecycle changed r sid s' (lifecycle_event s.state to_state) reason;
          registry = store r sid s';
        })

unfoldable pub observe_state : Host → Registry → ℕ → SessionState → String → Outcome Session
unfolding transition
observe_state h r sid to_state reason = elim (get r.by_id sid) [
  | none ↦ record { result = raise unknown_session; host = h; registry = r }
  | some s ↦ transition h r sid s to_state reason
]

-- Python's truth value of an optional string.
abbrev truthy : Option String → Bool
truthy none = false
truthy (some m) = not (m == "")

abbrev pub changes_title : SessionDescriptor → Session → Bool
changes_title d s = not (d.title == "") && not (d.title == s.title)

abbrev pub changes_model : SessionDescriptor → Session → Bool
changes_model d s = truthy d.model && not (d.model == s.model)

-- `any(existing.metadata.get(k) != v for k, v in desc.metadata.items())`
pub changes_metadata : Dict String Json → Dict String Json → Bool
changes_metadata m [] = false
changes_metadata m ((k, v) ∷ rest) =
    if not (json_eq (or_null (get m k)) v) then true else changes_metadata m rest

pub refreshed : SessionDescriptor → Session → Session
unfolding changes_metadata
refreshed d s = record s {
  title = if changes_title d s then d.title else s.title;
  model = if changes_model d s then d.model else s.model;
  metadata =
      if changes_metadata s.metadata d.metadata then update s.metadata d.metadata else s.metadata;
}

pub changed : SessionDescriptor → Session → List String
unfolding changes_metadata
changed d s =
    (if changes_title d s then "title" ∷ [] else [])
    ++ ((if changes_model d s then "model" ∷ [] else [])
        ++ (if changes_metadata s.metadata d.metadata then "metadata" ∷ [] else []))

-- `if changed: await self._publish_updated(existing, changed)`
pub publish_changes : Host → Registry → Session → List String → Host
unfolding publish_updated
publish_changes h r s [] = h
publish_changes h r s (f ∷ fs) = publish_updated h r s (f ∷ fs)

-- The second half of a repeated discovery: the state hint. An `IllegalTransitionError` cannot come
-- out of it, since the test is made first.
pub hint : Host → Registry → Session → SessionState → Outcome Session
unfolding observe_state
hint h r s to_state =
    if rank_eq to_state s.state
    then record { result = ok s; host = h; registry = r }
    else if not (rank_eq s.state waiting_on_user) && can_transition s.state to_state
    then observe_state h r s.id to_state "discovery"
    else record { result = ok s; host = h; registry = r }

pub rediscover : Host → Registry → ℕ → Session → SessionDescriptor → Outcome Session
rediscover h r sid s d =
    let s' = refreshed d s in
    let r' = store r sid s' in hint (publish_changes h r' s' (changed d s)) r' s' d.state

abbrev or_else : Option ℕ → ℕ → ℕ
or_else none d = d
or_else (some n) d = n

pub created : Host → Registry → String → SessionDescriptor → Session
created h r adapter d = record {
  id = fresh h;
  adapter = adapter;
  native_id = d.native_id;
  node = r.node;
  title = d.title;
  project = d.project;
  model = d.model;
  permission_mode = "";
  state = discovered;
  created_at = or_else d.started_at (now h);
  last_activity_at = or_else d.last_activity_at (or_else d.started_at (now h));
  ended_at = none;
  metadata = d.metadata;
}

abbrev add : Registry → Session → Registry
add r s = record r {
  by_id = put r.by_id s.id s;
  by_native = put r.by_native (s.adapter, s.native_id) s.id;
}

pub discover : Host → Registry → String → SessionDescriptor → Outcome Session
unfolding created observe_state
discover h r adapter d =
    let s = created h r adapter d in
    let r' = add r s in
    let h' =
      emit (draw (tick h)) session_discovered r.node source (some s.id)
        (("session", session s) ∷ []) in
    if rank_eq d.state discovered
    then record { result = ok s; host = h'; registry = r' }
    else observe_state h' r' s.id d.state "discovered"

-- The session id under which `resolve` found the session.
unfoldable pub upsert_discovered : Host → Registry → String → SessionDescriptor → Outcome Session
unfolding rediscover discover resolve
upsert_discovered h r adapter d = elim (get r.by_native (adapter, d.native_id)) [
  | none ↦ discover h r adapter d
  | some sid ↦ elim (get r.by_id sid) [
    | none ↦ discover h r adapter d
    | some s ↦ rediscover h r sid s d
  ]
]

-- `at or datetime.now(UTC)`
unfoldable pub touch : Host → Registry → ℕ → Option ℕ → Host × Registry
touch h r sid at = elim (get r.by_id sid) [
  | none ↦ (h, r)
  | some s ↦ elim at [
    | none ↦ (tick h, store r sid (record s { last_activity_at = now h }))
    | some t ↦ (h, store r sid (record s { last_activity_at = t }))
  ]
]

unfoldable pub refresh_model : Host → Registry → ℕ → String → Host × Registry
unfolding publish_updated
refresh_model h r sid model = elim (get r.by_id sid) [
  | none ↦ (h, r)
  | some s ↦
      if not (s.model == some model)
      then (let s' = record s { model = some model } in
          let r' = store r sid s' in (publish_updated h r' s' ("model" ∷ []), r'))
      else (h, r)
]

unfoldable pub refresh_permission_mode : Host → Registry → ℕ → String → Host × Registry
unfolding publish_updated
refresh_permission_mode h r sid mode = elim (get r.by_id sid) [
  | none ↦ (h, r)
  | some s ↦
      if not (s.permission_mode == mode)
      then (let s' = record s { permission_mode = mode } in
          let r' = store r sid s' in (publish_updated h r' s' ("permission_mode" ∷ []), r'))
      else (h, r)
]
