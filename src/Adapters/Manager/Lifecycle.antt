-- ===== src/Adapters/Manager/Lifecycle.antt =====
-- Discovery, starting, stopping and launching in src/prodeo/adapters/manager.py keep the log and the
-- Mediation Service's invariant.
use command_center.Base.{
  String, none, List, [], ◌∷◌, string_Eq, ◌==◌, ok, raise, Result, Result-cases, Error, refl,
  Bool-cases, inl, inr,
}
use command_center.Events.Types.{adapter_loaded, adapter_unloaded, adapter_discovery_completed}
use command_center.Events.Host.{Host}
use command_center.Sessions.Model.{Session, SessionDescriptor}
use command_center.Sessions.Registry.{upsert_discovered}
use command_center.Scheduler.Model.{LaunchSpec}
use command_center.Adapters.Model.{Adapter}
use command_center.Adapters.Manager.{
  Manager, error, source_of, require_adapter, launching, called_with,
}
use command_center.Adapters.Manager.Discovery.{
  upsert_all, discover, discover_all, start_all, start, stop_all, stop, loaded, unloaded,
  mark_started, launched, show_mode, register_launched, launch,
}
use command_center.Adapters.Manager.Consistent.{
  IsConsistent, emit-IsConsistent, upsert_discovered-IsConsistent,
  refresh_permission_mode-IsConsistent,
}
use command_center.Adapters.Manager.Steady.{
  IsSteady, error-IsSteady, operation_failed-IsSteady, ensure_watch-IsSteady, upsert_all-IsSteady,
}

module _ (message : Error → String) where
  pub discover-IsSteady :
      (h : Host) (m : Manager) (name : String) (found : Result (List SessionDescriptor))
      → IsSteady h m
      → IsSteady (discover message h m name found).host (discover message h m name found).manager
  unfolding discover
  discover-IsSteady h m name (raise exc) v = error-IsSteady h m m name _ _ none v
  discover-IsSteady h m name (ok ds) v =
      let w = upsert_all-IsSteady h m name ds v in
      elim (Result-cases (upsert_all h m name ds).result) [
        | inr (e, failed) ↦ rw (failed, discover) w
        | inl (u, done_) ↦
            rw (done_, discover)
              (emit-IsConsistent (upsert_all h m name ds).host
                (upsert_all h m name ds).manager.registry (upsert_all h m name ds).manager.mediation
                w adapter_discovery_completed m.node (source_of name) none _ refl)
      ]

  pub discover_all-IsSteady :
      (h : Host) (m : Manager) (found : String → Result (List SessionDescriptor))
      (names : List String)
      → IsSteady h m
      → IsSteady
          (discover_all message h m found names).host
          (discover_all message h m found names).manager
  unfolding discover_all
  discover_all-IsSteady h m found [] v = v
  discover_all-IsSteady h m found (name ∷ names) v =
      let o = discover message h m name (found name) in
      let w = discover-IsSteady h m name (found name) v in
      elim (Result-cases o.result) [
        | inr (e, failed) ↦ rw (failed, discover_all) w
        | inl (u, done_) ↦
            rw (done_, discover_all) (discover_all-IsSteady o.host o.manager found names w)
      ]

  start_all-IsSteady :
      (h : Host) (m : Manager) (starts : String → Result (Unit {0}))
      (found : String → Result (List SessionDescriptor)) (adapters : List (String × Adapter))
      → IsSteady h m
      → IsSteady
          (start_all message h m starts found adapters).host
          (start_all message h m starts found adapters).manager
  unfolding start_all
  start_all-IsSteady h m starts found [] v = v
  start_all-IsSteady h m starts found ((name, a) ∷ rest) v = elim (Result-cases (starts name)) [
    | inr (exc, failed) ↦
        rw (failed, start_all)
          (start_all-IsSteady (error h m name "start_failed" (message exc) none) m starts found rest
            (error-IsSteady h m m name _ _ none v))
    | inl (u, done_) ↦
        let m' = mark_started message m name in
        let told = loaded message h m name a in
        let o = discover message told m' name (found name) in
        let w = discover-IsSteady told m' name (found name) (
          emit-IsConsistent h m.registry m.mediation v adapter_loaded m.node (source_of name) none _
            refl) in
        elim (Result-cases o.result) [
          | inr (e, raised) ↦ rw (done_, start_all, raised) w
          | inl (u', discovered) ↦
              rw (done_, start_all, discovered)
                (start_all-IsSteady o.host o.manager starts found rest w)
        ]
  ]

  pub start-IsSteady :
      (h : Host) (m : Manager) (starts : String → Result (Unit {0}))
      (found : String → Result (List SessionDescriptor))
      → IsSteady h m
      → IsSteady (start message h m starts found).host (start message h m starts found).manager
  unfolding start
  start-IsSteady h m starts found v = start_all-IsSteady h m starts found m.adapters v

  stop_all-IsSteady :
      (h : Host) (m m' : Manager) (stops : String → Result (Unit {0})) (names : List String)
      → IsSteady h m
      → IsSteady (stop_all message h m' stops names) m
  unfolding stop_all
  stop_all-IsSteady h m m' stops [] v = v
  stop_all-IsSteady h m m' stops (name ∷ names) v = elim (Result-cases (stops name)) [
    | inr (exc, failed) ↦
        let h' = error h m' name "stop_failed" (message exc) none in
        rw (failed, stop_all)
          (stop_all-IsSteady
            (unloaded message (error h m' name "stop_failed" (message exc) none) m' name) m m' stops
            names
            (emit-IsConsistent h' m.registry m.mediation
              (error-IsSteady h m m' name "stop_failed" (message exc) none v) adapter_unloaded
              m'.node (source_of name) none _ refl))
    | inl (u, done_) ↦
        rw (done_, stop_all)
          (stop_all-IsSteady (unloaded message h m' name) m m' stops names (
            emit-IsConsistent h m.registry m.mediation v adapter_unloaded m'.node (source_of name)
              none _ refl))
  ]

  pub stop-IsSteady :
      (h : Host) (m : Manager) (stops : String → Result (Unit {0}))
      → IsSteady h m
      → IsSteady (stop message h m stops).0 (stop message h m stops).1
  unfolding stop
  stop-IsSteady h m stops v = stop_all-IsSteady h m _ stops m.started v

  register_launched-IsSteady :
      (h : Host) (m : Manager) (name : String) (spec : LaunchSpec) (native_id : String)
      → IsSteady h m
      → IsSteady
          (register_launched message h m name spec native_id).host
          (register_launched message h m name spec native_id).manager
  unfolding register_launched
  register_launched-IsSteady h m name spec native_id v =
      let o = upsert_discovered h m.registry name (launched message spec native_id) in
      let w : IsConsistent o.host o.registry m.mediation =
        upsert_discovered-IsConsistent h m.registry m.mediation v name
          (launched message spec native_id) in
      elim (Result-cases o.result) [
        | inr (e, failed) ↦ rw (failed, register_launched) w
        | inl (s, done_) ↦
            let shown = show_mode message o.host o.registry s.id spec.permission_mode in
            let x : IsConsistent shown.0 shown.1 m.mediation =
              elim (Bool-cases (spec.permission_mode == "")) [
                | inl unset ↦ rw unset w
                | inr set ↦ rw set (
                    refresh_permission_mode-IsConsistent o.host o.registry m.mediation w s.id
                      spec.permission_mode)
              ] in
            rw (done_, register_launched)
              (ensure_watch-IsSteady shown.0 (record m { registry = shown.1 }) name native_id _ _ x)
      ]

  pub launch-IsSteady :
      (h : Host) (m : Manager) (name : String) (spec : LaunchSpec) (called : Result String)
      → IsSteady h m
      → IsSteady
          (launch message h m name spec called).host
          (launch message h m name spec called).manager
  unfolding launch
  launch-IsSteady h m name spec called v = elim (Result-cases (require_adapter m name)) [
    | inr (e, refused) ↦ rw (refused, launch) v
    | inl (a, found) ↦ elim (Bool-cases a.capabilities.launch) [
      | inr undeclared ↦ rw (found, launch, undeclared) v
      | inl declared ↦
          let m' = called_with m name "launch" "" (launching spec) in
          elim (Result-cases called) [
            | inr (exc, failed) ↦
                rw (found, launch, declared, failed)
                  (operation_failed-IsSteady message Session h m' name "launch" exc none v)
            | inl (native_id, done_) ↦
                rw (found, launch, declared, done_)
                  (register_launched-IsSteady h m' name spec native_id v)
          ]
    ]
  ]
