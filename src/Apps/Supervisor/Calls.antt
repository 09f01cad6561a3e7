-- ===== src/Apps/Supervisor/Calls.antt =====
-- The calls and the events that reach the supervisor of src/prodeo/apps/supervisor.py, and sequences of
-- them.
use command_center.Base.{
  ℕ, String, List, [], ◌∷◌, Bool, false, Option, some, string_Eq, ◌≡◌, Result, Error,
}
use command_center.Base.Dict.{get}
use command_center.Base.Text.{ℤ}
use command_center.Events.Host.{Host}
use command_center.Presence.Tracker.{Tracker}
use command_center.Apps.Supervisor.{
  AppManifest, Running, Supervisor, start_app, stop_app, restart_app, set_autostart, status_of,
  stop,
}
use command_center.Apps.Supervisor.Supervise.{start, wakes, exits}
use command_center.Apps.Supervisor.Fit.{Fits, IsFit, status_of-IsFit}
use command_center.Apps.Supervisor.Steps.{wakes-IsFit, exits-IsFit, start_app-IsFit}
use command_center.Apps.Supervisor.Boot.{start-IsFit, set_autostart-IsFit}
use command_center.Apps.Supervisor.Shutdown.{stop-IsFit}
use command_center.Apps.Supervisor.Stopped.{stop_app-IsFit, restart_app-IsFit}

-- A task that goes on carries what the spawn gives, and an exit its code and how long the child ran.
pub data Call : Type 0 where
  boots : List AppManifest → List String → (String → List String) → Call
  starts : String → List String → Call
  stops : String → Call
  restarts : String → List String → Call
  sets_autostart : String → Bool → Call
  asks_status : String → Call
  goes_on : String → Result ℕ → Call
  child_exits : String → ℤ → ℕ → Call
  shuts_down : Call

module _ (message : Error → String) (shown : ℤ → String) where
  unfoldable pub call : Host → Supervisor → Call → Host × Supervisor
  call h s (boots manifests autostart gaps) = start message shown h s manifests autostart gaps
  call h s (starts name gaps) = let o = start_app h s name gaps in (o.host, o.supervisor)
  call h s (stops name) = let o = stop_app h s name in (o.host, o.supervisor)
  call h s (restarts name gaps) = let o = restart_app h s name gaps in (o.host, o.supervisor)
  call h s (sets_autostart name enabled) = (h, (set_autostart s name enabled).1)
  call h s (asks_status name) = let o = status_of h s name in (o.host, o.supervisor)
  call h s (goes_on name spawned) = wakes message shown h s name spawned
  call h s (child_exits name code ran_for) = exits message shown h s name code ran_for
  call h s shuts_down = (h, stop s)

  unfoldable pub run : Host → Supervisor → List Call → Host × Supervisor
  unfolding call
  run h s [] = (h, s)
  run h s (c ∷ cs) = let (h', s') = call h s c in run h' s' cs

  call-IsFit : (h : Host) (s : Supervisor) (c : Call) → IsFit s → IsFit (call h s c).1
  unfolding call
  call-IsFit h s (boots manifests autostart gaps) v =
      start-IsFit message shown h s manifests autostart gaps v
  call-IsFit h s (starts name gaps) v = start_app-IsFit h s name v gaps
  call-IsFit h s (stops name) v = stop_app-IsFit h s name v
  call-IsFit h s (restarts name gaps) v = restart_app-IsFit h s name v gaps
  call-IsFit h s (sets_autostart name enabled) v = set_autostart-IsFit s name enabled v
  call-IsFit h s (asks_status name) v = status_of-IsFit h s name v
  call-IsFit h s (goes_on name spawned) v = wakes-IsFit message shown h s name v spawned
  call-IsFit h s (child_exits name code ran_for) v =
      exits-IsFit message shown h s name v code ran_for
  call-IsFit h s shuts_down v = stop-IsFit s v

  run-IsFit : (h : Host) (s : Supervisor) (cs : List Call) → IsFit s → IsFit (run h s cs).1
  unfolding run
  run-IsFit h s [] v = v
  run-IsFit h s (c ∷ cs) v = run-IsFit (call h s c).0 (call h s c).1 cs (call-IsFit h s c v)

-- A supervisor before its start.
abbrev pub new_supervisor : String → Bool → Option Tracker → Supervisor
new_supervisor node publishes presence = record {
  node = node;
  publishes = publishes;
  presence = presence;
  apps = [];
  states = [];
  autostart = [];
  stopping = false;
}

-- Whatever is called and whatever the children do, in any order, from a new supervisor, each app that is
-- then known fits: it has a child exactly while its task waits for it, and then it is wanted, shown as
-- running and shown with that child's pid. A task that is to launch has no child yet, a backoff between
-- a second and a minute and fewer than five crashes behind it. An app without a live task has no child
-- and is not wanted, unless the supervisor is stopping.
pub run-Fits :
    (message : Error → String) (shown : ℤ → String) (h : Host) (node : String) (publishes : Bool)
    (presence : Option Tracker) (cs : List Call) (name : String) (r : Running)
    → let (h', s') = run message shown h (new_supervisor node publishes presence) cs in
      get s'.states name ≡ some r → Fits s'.stopping r
unfolding get
run-Fits message shown h node publishes presence cs name r found =
    run-IsFit message shown h (new_supervisor node publishes presence) cs
      (λ other x none_. absurd (cc none_)) name r found
