-- ===== src/Adapters/Manager/Discovery.antt =====
-- Discovery, watching and the lifecycle in src/prodeo/adapters/manager.py.
use command_center.Base.{
  ℕ, ◌*◌, String, none, some, List, [], ◌∷◌, ◌++◌, Bool, true, false, ◌||◌, min, length, ltb,
  if◌then◌else◌, ◌==◌, string_Eq, pair_Eq, nat_Eq, Result, ok, raise, Error, illegal_transition,
}
use command_center.Base.Dict.{get, put, pop, modify}
use command_center.Base.Json.{Json}
use command_center.Base.Text.{take_chars}
use command_center.Events.Types.{adapter_loaded, adapter_unloaded, adapter_discovery_completed}
use command_center.Events.Envelope.{text, count, json}
use command_center.Events.Host.{Host, emit}
use command_center.Sessions.State.{SessionState, starting, elem, end_states}
use command_center.Sessions.Model.{Session, SessionDescriptor}
use command_center.Sessions.Registry.{Registry, upsert_discovered, refresh_permission_mode}
use command_center.Scheduler.Model.{LaunchSpec}
use command_center.Adapters.Model.{Adapter, SessionRef, dump_capabilities, dump_models}
use command_center.Adapters.Manager.{
  Manager, Outcome, error, source_of, has_name, require_adapter, require_capability,
  operation_failed, launching, called_with,
}

-- `_ensure_watch`
unfoldable pub ensure_watch : Manager → String → String → ℕ → SessionState → Manager
ensure_watch m name native_id session_id state =
    let ref : SessionRef = record {
      adapter = name;
      native_id = native_id;
      session_id = session_id;
    } in
    let watched : Manager = record m {
      watches = put m.watches (name, native_id) (record { ref = ref; done = false });
    } in
    if m.stopping || elem state end_states then m else elim (get m.watches (name, native_id)) [
      | none ↦ watched
      | some w ↦ if w.done then watched else m
    ]

-- A watch task ends, and its done callback `_forget` runs: one after the other, with other tasks between
-- them, perhaps.
unfoldable pub watch_ends : Manager → String → String → Manager
watch_ends m name native_id = record m {
  watches = modify m.watches (name, native_id) (λ w. record w { done = true });
}

unfoldable pub forget : Manager → String → String → Manager
forget m name native_id = record m { watches = pop m.watches (name, native_id) }

-- `except IllegalTransitionError`
abbrev pub is_illegal : Error → Bool
is_illegal (illegal_transition sid from_state to_state) = true
is_illegal _ = false

-- `for desc in descriptors`: an exception other than an illegal transition ends it.
unfoldable pub upsert_all : Host → Manager → String → List SessionDescriptor → Outcome (Unit {0})
unfolding ensure_watch
upsert_all h m name [] = record { result = ok tt; host = h; manager = m }
upsert_all h m name (d ∷ ds) =
    let o = upsert_discovered h m.registry name d in
    let m' = record m { registry = o.registry } in
    elim o.result [
      | ok s ↦ upsert_all o.host (ensure_watch m' name d.native_id s.id s.state) name ds
      | raise e ↦ elim (is_illegal e) [
        | true ↦ upsert_all o.host m' name ds
        | false ↦ record { result = raise e; host = o.host; manager = m' }
      ]
    ]

module _ (message : Error → String) where
  -- `_discover`, with what `discover_sessions` gives.
  unfoldable pub discover :
      Host → Manager → String → Result (List SessionDescriptor) → Outcome (Unit {0})
  unfolding upsert_all error
  discover h m name (raise exc) = record {
    result = ok tt;
    host = error h m name "discovery_failed" (message exc) none;
    manager = m;
  }
  discover h m name (ok ds) =
      let o = upsert_all h m name ds in
      elim o.result [
        | raise e ↦ o
        | ok u ↦ record {
          result = ok tt;
          host =
              emit o.host adapter_discovery_completed m.node (source_of name) none
                (("adapter", text name) ∷ ("sessions", count (length ds)) ∷ []);
          manager = o.manager;
        }
      ]

  -- One round of `_discovery_loop`, over the adapters that have started.
  unfoldable pub discover_all :
      Host → Manager → (String → Result (List SessionDescriptor)) → List String → Outcome (Unit {0})
  unfolding discover
  discover_all h m found [] = record { result = ok tt; host = h; manager = m }
  discover_all h m found (name ∷ names) =
      let o = discover h m name (found name) in
      elim o.result [ raise e ↦ o | ok u ↦ discover_all o.host o.manager found names ]

  abbrev pub loaded : Host → Manager → String → Adapter → Host
  loaded h m name a = emit h adapter_loaded m.node (source_of name) none (
      ("name", text name)
      ∷ ("version", text a.version)
      ∷ ("capabilities", json (dump_capabilities a.capabilities))
      ∷ ("models", json (Json.arr (dump_models a.models)))
      ∷ [])

  -- `self._started.add(name)`
  abbrev pub mark_started : Manager → String → Manager
  mark_started m name = record m {
    started = if has_name name m.started then m.started else m.started ++ name ∷ [];
  }

  -- `for name, adapter in self._adapters.items()` of `start`, with what each adapter's `start` and
  -- `discover_sessions` give.
  unfoldable pub start_all :
      Host
      → Manager
      → (String → Result (Unit {0}))
      → (String → Result (List SessionDescriptor))
      → List (String × Adapter)
      → Outcome (Unit {0})
  unfolding discover error
  start_all h m starts found [] = record { result = ok tt; host = h; manager = m }
  start_all h m starts found ((name, a) ∷ rest) = elim (starts name) [
    | raise exc ↦ start_all (error h m name "start_failed" (message exc) none) m starts found rest
    | ok u ↦
        let m' = mark_started m name in
        let o = discover (loaded h m name a) m' name (found name) in
        elim o.result [ raise e ↦ o | ok u ↦ start_all o.host o.manager starts found rest ]
  ]

  -- `start`
  unfoldable pub start :
      Host
      → Manager
      → (String → Result (Unit {0}))
      → (String → Result (List SessionDescriptor))
      → Outcome (Unit {0})
  unfolding start_all
  start h m starts found = start_all h m starts found m.adapters

  abbrev pub unloaded : Host → Manager → String → Host
  unloaded h m name =
      emit h adapter_unloaded m.node (source_of name) none (("name", text name) ∷ [])

  -- `for name in list(self._started)` of `stop`.
  unfoldable pub stop_all : Host → Manager → (String → Result (Unit {0})) → List String → Host
  unfolding error
  stop_all h m stops [] = h
  stop_all h m stops (name ∷ names) =
      let h' : Host = elim (stops name) [
        | raise exc ↦ error h m name "stop_failed" (message exc) none
        | ok u ↦ h
      ] in
      stop_all (unloaded h' m name) m stops names

  -- `stop`
  unfoldable pub stop : Host → Manager → (String → Result (Unit {0})) → Host × Manager
  unfolding stop_all
  stop h m stops =
      let m' = record m { stopping = true; watches = [] } in
      (stop_all h m' stops m.started, record m' { started = [] })

  abbrev pub launched : LaunchSpec → String → SessionDescriptor
  launched spec native_id = record {
    native_id = native_id;
    title = take_chars 80 spec.prompt;
    project = spec.project;
    model = some spec.model;
    state = starting;
    started_at = none;
    last_activity_at = none;
    metadata = ("controlled", Json.str "true") ∷ [];
  }

  -- The mode of the launch spec, shown straight away.
  abbrev pub show_mode : Host → Registry → ℕ → String → Host × Registry
  show_mode h r sid mode = if mode == "" then (h, r) else refresh_permission_mode h r sid mode

  -- The session object, as the registry then holds it.
  abbrev current : Registry → Session → Session
  current r s = elim (get r.by_id s.id) [ none ↦ s | some s' ↦ s' ]

  unfoldable pub register_launched : Host → Manager → String → LaunchSpec → String → Outcome Session
  unfolding ensure_watch take_chars
  register_launched h m adapter_name spec native_id =
      let o = upsert_discovered h m.registry adapter_name (launched spec native_id) in
      elim o.result [
        | raise e ↦ record {
          result = raise e;
          host = o.host;
          manager = record m { registry = o.registry };
        }
        | ok s ↦
            let (h', r) = show_mode o.host o.registry s.id spec.permission_mode in
            let s' = current r s in
            record {
              result = ok s';
              host = h';
              manager =
                  ensure_watch (record m { registry = r }) adapter_name native_id s'.id s'.state;
            }
      ]

  -- `launch`, with the native id that the adapter's call returns.
  unfoldable pub launch : Host → Manager → String → LaunchSpec → Result String → Outcome Session
  unfolding require_adapter operation_failed register_launched
  launch h m adapter_name spec called = elim (require_adapter m adapter_name) [
    | raise e ↦ record { result = raise e; host = h; manager = m }
    | ok adapter ↦ elim (require_capability "launch" adapter.capabilities.launch) [
      | raise e ↦ record { result = raise e; host = h; manager = m }
      | ok u ↦
          let m' = called_with m adapter_name "launch" "" (launching spec) in
          elim called [
            | raise exc ↦ operation_failed message h m' adapter_name "launch" exc none
            | ok native_id ↦ register_launched h m' adapter_name spec native_id
          ]
    ]
  ]

-- An exception of `adapter.watch` in `_supervised_watch`.
unfoldable pub watch_crashes : Host → Manager → SessionRef → String → Host
unfolding error
watch_crashes h m ref detail = error h m ref.adapter "watch_crashed" detail (some ref.session_id)

-- After a crash of a watch in `_supervised_watch`: what is slept, and the next backoff, in microseconds.
abbrev second : ℕ
second = 1000000

unfoldable pub backoff_step : ℕ → ℕ → ℕ × ℕ
backoff_step backoff ran_for =
    let slept = if ltb (60 * second) ran_for then second else backoff in
    (slept, min (slept * 2) (60 * second))

-- What the watch sleeps after each of its crashes, given how long it ran before them.
unfoldable pub backoffs : ℕ → List ℕ → List ℕ
unfolding backoff_step
backoffs backoff [] = []
backoffs backoff (ran_for ∷ rest) =
    let (slept, next) = backoff_step backoff ran_for in slept ∷ backoffs next rest
