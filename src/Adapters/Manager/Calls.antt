-- ===== src/Adapters/Manager/Calls.antt =====
-- The calls that reach the Adapter Manager, as data, and sequences of them
-- (src/prodeo/adapters/manager.py). What an adapter returns or raises is part of the call.
use command_center.Base.{ℕ, String, Option, some, List, [], ◌∷◌, Result, Error, string_Eq, ◌≡◌}
use command_center.Base.Json.{Json}
use command_center.Events.Host.{Host}
use command_center.Sessions.Model.{SessionDescriptor}
use command_center.Sessions.Registry
use command_center.Sessions.Registry.Replay.{IsDurable}
use command_center.Sessions.Registry.Calls.{init-IsLogged}
use command_center.Mediation.Model.{InteractionRequest, Answer}
use command_center.Mediation.Service
use command_center.Mediation.Service.Sound.{IsSound}
use command_center.Mediation.Service.Run.{init-IsAlive}
use command_center.Scheduler.Model.{LaunchSpec}
use command_center.Adapters.Model.{Adapter, Observation, SessionRef}
use command_center.Adapters.Manager.{
  Manager, init, add, terminate, send_prompt, interrupt, context_usage, set_model,
  set_permission_mode,
}
use command_center.Adapters.Manager.Discovery.{
  watch_ends, forget, discover_all, start, stop, launch, watch_crashes,
}
use command_center.Adapters.Manager.Observe.{report, report_again}
use command_center.Adapters.Manager.Interact.{
  left, answer, times_out, open_external, withdraw_external,
}
use command_center.Adapters.Manager.Steady.{
  IsSteady, error-IsSteady, terminate-IsSteady, send_prompt-IsSteady, interrupt-IsSteady,
  context_usage-IsSteady, set_model-IsSteady, set_permission_mode-IsSteady,
}
use command_center.Adapters.Manager.Lifecycle.{
  discover_all-IsSteady, start-IsSteady, stop-IsSteady, launch-IsSteady,
}
use command_center.Adapters.Manager.Reported.{report-IsSteady, report_again-IsSteady}
use command_center.Adapters.Manager.Answered.{
  answer-IsSteady, times_out-IsSteady, open_external-IsSteady, withdraw_external-IsSteady,
}

pub data Call : Type 0 where
  adds : Adapter → Call
  starts : (String → Result (Unit {0})) → (String → Result (List SessionDescriptor)) → Call
  stops : (String → Result (Unit {0})) → Call
  discovers : (String → Result (List SessionDescriptor)) → Call
  launches : String → LaunchSpec → Result String → Call
  terminates : ℕ → Result (Unit {0}) → Call
  prompts : ℕ → String → Result (Unit {0}) → Call
  interrupts : ℕ → Result (Unit {0}) → Call
  asks_usage : ℕ → Result Json → Call
  sets_model : ℕ → String → Result (Unit {0}) → Call
  sets_mode : ℕ → String → Result (Unit {0}) → Call
  crashes : SessionRef → String → Call
  ends : String → String → Call
  forgets : String → String → Call
  reports : Adapter → String → Observation → Call
  reports_again : Adapter → String → Observation → Call
  answers : ℕ → Answer → String → Result (Unit {0}) → Call
  expires : ℕ → Result (Unit {0}) → Call
  opens : String → String → (ℕ → InteractionRequest) → Result (List SessionDescriptor) → Call
  withdraws : ℕ → String → Call

module _ (message : Error → String) where
  unfoldable pub call : Host → Manager → Call → Host × Manager
  call h m (adds a) = (h, add m a)
  call h m (starts started found) = left (start message h m started found)
  call h m (stops stopped) = stop message h m stopped
  call h m (discovers found) = left (discover_all message h m found m.started)
  call h m (launches name spec called) = left (launch message h m name spec called)
  call h m (terminates sid called) = left (terminate message h m sid called)
  call h m (prompts sid prompt called) = left (send_prompt message h m sid prompt called)
  call h m (interrupts sid called) = left (interrupt message h m sid called)
  call h m (asks_usage sid called) = left (context_usage message h m sid called)
  call h m (sets_model sid model called) = left (set_model message h m sid model called)
  call h m (sets_mode sid mode called) = left (set_permission_mode message h m sid mode called)
  call h m (crashes ref detail) = (watch_crashes h m ref detail, m)
  call h m (ends name native_id) = (h, watch_ends m name native_id)
  call h m (forgets name native_id) = (h, forget m name native_id)
  call h m (reports a name obs) = report message h m a name obs
  call h m (reports_again a name obs) = report_again message h m a name obs
  call h m (answers id a answered_by responded) =
      left (answer message h m id a answered_by responded)
  call h m (expires id responded) = times_out message h m id responded
  call h m (opens adapter native_id request found) =
      left (open_external message h m adapter native_id request found)
  call h m (withdraws id reason) = left (withdraw_external h m id reason)

  unfoldable pub run : Host → Manager → List Call → Host × Manager
  unfolding call
  run h m [] = (h, m)
  run h m (c ∷ cs) = let (h', m') = call h m c in run h' m' cs

  call-IsSteady :
      (h : Host) (m : Manager) (c : Call) → IsSteady h m → IsSteady (call h m c).0 (call h m c).1
  unfolding call add watch_crashes watch_ends forget
  call-IsSteady h m (adds a) v = v
  call-IsSteady h m (starts started found) v = start-IsSteady message h m started found v
  call-IsSteady h m (stops stopped) v = stop-IsSteady message h m stopped v
  call-IsSteady h m (discovers found) v = discover_all-IsSteady message h m found m.started v
  call-IsSteady h m (launches name spec called) v = launch-IsSteady message h m name spec called v
  call-IsSteady h m (terminates sid called) v = terminate-IsSteady message h m v sid called
  call-IsSteady h m (prompts sid prompt called) v =
      send_prompt-IsSteady message h m v sid prompt called
  call-IsSteady h m (interrupts sid called) v = interrupt-IsSteady message h m v sid called
  call-IsSteady h m (asks_usage sid called) v = context_usage-IsSteady message h m v sid called
  call-IsSteady h m (sets_model sid model called) v =
      set_model-IsSteady message h m v sid model called
  call-IsSteady h m (sets_mode sid mode called) v =
      set_permission_mode-IsSteady message h m v sid mode called
  call-IsSteady h m (crashes ref detail) v =
      error-IsSteady h m m ref.adapter _ detail (some ref.session_id) v
  call-IsSteady h m (ends name native_id) v = v
  call-IsSteady h m (forgets name native_id) v = v
  call-IsSteady h m (reports a name obs) v = report-IsSteady message h m a name obs v
  call-IsSteady h m (reports_again a name obs) v = report_again-IsSteady message h m a name obs v
  call-IsSteady h m (answers id a answered_by responded) v =
      answer-IsSteady message h m id a answered_by responded v
  call-IsSteady h m (expires id responded) v = times_out-IsSteady message h m id responded v
  call-IsSteady h m (opens adapter native_id request found) v =
      open_external-IsSteady message h m adapter native_id request found v
  call-IsSteady h m (withdraws id reason) v = withdraw_external-IsSteady h m id reason v

  run-IsSteady :
      (h : Host) (m : Manager) (cs : List Call)
      → IsSteady h m
      → IsSteady (run h m cs).0 (run h m cs).1
  unfolding run
  run-IsSteady h m [] v = v
  run-IsSteady h m (c ∷ cs) v =
      run-IsSteady (call h m c).0 (call h m c).1 cs (call-IsSteady h m c v)

-- A manager over an empty registry and a Mediation Service with nothing open.
abbrev pub fresh_manager : String → Option ℕ → Manager
fresh_manager node default_timeout_s =
    init node (Registry.init node) (Service.init node default_timeout_s)

-- If ULID draws never repeat, then whatever adapters report, return or raise, and whatever clients and
-- timers do, in any order, from a fresh start: folding the published events from an empty registry
-- gives the sessions that the manager holds, up to their activity and end times, and the index of
-- pending interactions is exact and no interaction has its callback awaited more than once.
pub manager_recovers :
    (message : Error → String) (h : Host) (node : String) (default_timeout_s : Option ℕ)
    (cs : List Call)
    → h.published ≡ []
    → ((a b : ℕ) → h.ulid a ≡ h.ulid b → a ≡ b)
    → let (h', m') = run message h (fresh_manager node default_timeout_s) cs in
      IsDurable h'.published m'.registry × IsSound m'.mediation
manager_recovers message h node default_timeout_s cs empty injective =
    let v = run-IsSteady message h (fresh_manager node default_timeout_s) cs (record {
      logged = init-IsLogged h node empty;
      alive = init-IsAlive h node default_timeout_s injective;
    }) in
    (v.logged.durable, v.alive.sound)
