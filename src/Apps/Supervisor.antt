-- ===== src/Apps/Supervisor.antt =====
-- src/prodeo/apps/supervisor.py: the commands, and the supervising task of an app between its waits.
-- What the setup probe, the spawn and the child do is an argument of the step that waits for it.
pub mod Supervise
pub mod Fit
pub mod Steps
pub mod Boot
pub mod Shutdown
pub mod Stopped
pub mod Calls
pub mod Looping
use Prim.Native.String.{◌++◌ as str_append}
use command_center.Base.{
  ℕ, ◌+◌, ◌*◌, String, Option, none, some, List, [], ◌∷◌, ◌++◌, Bool, true, false, not, ◌&&◌, ◌||◌,
  any, keep, leb, ltb, min, if◌then◌else◌, ◌==◌, string_Eq, Result, ok, raise, Error, unknown_app,
  app_not_ready,
}
use command_center.Base.Dict.{Dict, get, put}
use command_center.Base.Text.{ℤ}
use command_center.Events.Types.{system_app_started, system_app_exited}
use command_center.Events.Envelope.{Payload, text, count, flag, int}
use command_center.Events.Host.{Host, emit, now, tick}
use command_center.Presence.Tracker.{Tracker, list_clients, forget}

-- The part of the manifest that the supervisor reads.
pub record AppManifest : Type 0 where
  pub name : String
  pub version : String
  pub description : String
  pub configurable : Bool
  pub presence_client_id : String

pub data AppState : Type 0 where
  stopped starting running exited failed : AppState

-- Where the task of `_supervise` is, with its `backoff` and `crash_loop`: before the loop's test, in
-- `process.wait()`, in the sleep before a restart, or done.
pub data Task : Type 0 where
  looping waiting sleeping : ℕ → ℕ → Task
  done : Task

-- `_Running`. A process is its pid.
pub record Running : Type 0 where
  pub wanted : Bool
  pub state : AppState
  pub pid : Option ℕ
  pub started_at : Option ℕ
  pub restarts : ℕ
  pub last_error : String
  pub process : Option ℕ
  pub task : Option Task

abbrev pub new_running : Running
new_running = record {
  wanted = false;
  state = stopped;
  pid = none;
  started_at = none;
  restarts = 0;
  last_error = "";
  process = none;
  task = none;
}

pub record Supervisor : Type 0 where
  pub node : String
  pub publishes : Bool
  pub presence : Option Tracker
  pub apps : Dict String AppManifest
  pub states : Dict String Running
  pub autostart : List String
  pub stopping : Bool

pub record AppStatus : Type 0 where
  pub name : String
  pub version : String
  pub description : String
  pub state : AppState
  pub pid : Option ℕ
  pub started_at : Option ℕ
  pub restarts : ℕ
  pub last_error : String
  pub autostart : Bool
  pub present : Bool
  pub configurable : Bool

abbrev pub second : ℕ
second = 1000000

abbrev pub backoff_start : ℕ
backoff_start = second

abbrev pub backoff_max : ℕ
backoff_max = 60 * second

abbrev pub healthy_run : ℕ
healthy_run = 60 * second

abbrev pub max_crash_loop : ℕ
max_crash_loop = 5

abbrev pub Outcome : Type 0 → Type 0
Outcome A = record { result : Result A; host : Host; supervisor : Supervisor }

-- `_manifest`
abbrev pub manifest : Supervisor → String → Result AppManifest
manifest s name = elim (get s.apps name) [ none ↦ raise (unknown_app name) | some m ↦ ok m ]

-- `self._state.setdefault(name, _Running())`
unfoldable pub running_of : Supervisor → String → Running
running_of s name = elim (get s.states name) [ none ↦ new_running | some r ↦ r ]

abbrev pub store : Supervisor → String → Running → Supervisor
store s name r = record s { states = put s.states name r }

-- `_emit`
unfoldable pub emit_app : Host → Supervisor → String → Payload → Host
emit_app h s type_ payload =
    if s.publishes then emit h type_ s.node "app-supervisor" none payload else h

-- `_is_present`
unfoldable pub is_present : Host → Supervisor → AppManifest → Bool × Host × Supervisor
is_present h s m = elim s.presence [
  | none ↦ (false, h, s)
  | some clients ↦
      if m.presence_client_id == ""
      then (false, h, s)
      else (let (listed, clients') = list_clients (now h) clients in
          (
            any (λ c. c.client_id == m.presence_client_id) listed,
            tick h,
            record s { presence = some clients' },
          ))
]

abbrev pub is_in : String → List String → Bool
is_in name names = any (λ n. n == name) names

-- `status_of`
unfoldable pub status_of : Host → Supervisor → String → Outcome AppStatus
unfolding running_of is_present
status_of h s name = elim (manifest s name) [
  | raise e ↦ record { result = raise e; host = h; supervisor = s }
  | ok m ↦
      let r = running_of s name in
      let (present, h', s') = is_present h (store s name r) m in
      record {
        result = ok (record {
          name = name;
          version = m.version;
          description = m.description;
          state = r.state;
          pid = r.pid;
          started_at = r.started_at;
          restarts = r.restarts;
          last_error = r.last_error;
          autostart = is_in name s.autostart;
          present = present;
          configurable = m.configurable;
        });
        host = h';
        supervisor = s';
      }
]

-- `set_autostart`
unfoldable pub set_autostart : Supervisor → String → Bool → Result (Unit {0}) × Supervisor
set_autostart s name enabled = elim (manifest s name) [
  | raise e ↦ (raise e, s)
  | ok m ↦ (
    ok tt,
    record s {
      autostart =
          if enabled
          then (if is_in name s.autostart then s.autostart else s.autostart ++ name ∷ [])
          else keep (λ n. not (n == name)) s.autostart;
    },
  )
]

abbrev pub is_live : Option Task → Bool
is_live none = false
is_live (some done) = false
is_live (some _) = true

-- A task that starts has the first backoff and no crash behind it.
abbrev pub started_again : Running → Running
started_again r = record r {
  wanted = true;
  last_error = "";
  state = starting;
  task = some (looping backoff_start 0);
}

-- `start_app`, with the setup steps that the probe finds unmet.
unfoldable pub start_app : Host → Supervisor → String → List String → Outcome AppStatus
unfolding running_of status_of
start_app h s name gaps = elim (manifest s name) [
  | raise e ↦ record { result = raise e; host = h; supervisor = s }
  | ok m ↦
      let r = running_of s name in
      let s' = store s name r in
      if is_live r.task then status_of h s' name else elim gaps [
        | [] ↦ status_of h (store s' name (started_again r)) name
        | gap ∷ more ↦ record { result = raise (app_not_ready name); host = h; supervisor = s' }
      ]
]

-- `_terminate`, of a state that is there.
abbrev pub terminated : Running → Running
terminated r = elim r.process [
  | none ↦ r
  | some p ↦ record r { process = none; pid = none; state = stopped }
]

-- `self._presence.forget(...)`
unfoldable pub forget_client : Supervisor → String → Supervisor
forget_client s name = elim (get s.apps name) [
  | none ↦ s
  | some m ↦ elim s.presence [
    | none ↦ s
    | some clients ↦
        if m.presence_client_id == ""
        then s
        else record s { presence = some (forget clients m.presence_client_id).1 }
  ]
]

unfoldable pub terminate : Supervisor → String → Supervisor
unfolding forget_client
terminate s name = elim (get s.states name) [
  | none ↦ s
  | some r ↦ elim r.process [ none ↦ s | some p ↦ forget_client (store s name (terminated r)) name ]
]

-- `wanted = False`, and the task cancelled and awaited.
abbrev pub cancelled : Running → Running
cancelled r = record r { wanted = false; task = none }

-- `state.state = "stopped"`, through the state that `stop_app` holds.
abbrev pub mark_stopped : Supervisor → String → Supervisor
mark_stopped s name = store s name (record (running_of s name) { state = stopped })

-- `stop_app`
unfoldable pub stop_app : Host → Supervisor → String → Outcome AppStatus
unfolding terminate running_of status_of
stop_app h s name = elim (manifest s name) [
  | raise e ↦ record { result = raise e; host = h; supervisor = s }
  | ok m ↦
      status_of h
        (mark_stopped (terminate (store s name (cancelled (running_of s name))) name) name) name
]

-- `restart_app`
unfoldable pub restart_app : Host → Supervisor → String → List String → Outcome AppStatus
unfolding stop_app start_app
restart_app h s name gaps =
    let o = stop_app h s name in
    elim o.result [ raise e ↦ o | ok status ↦ start_app o.host o.supervisor name gaps ]

abbrev pub cancel_all : Dict String Running → Dict String Running
cancel_all [] = []
cancel_all ((name, r) ∷ states) = (name, cancelled r) ∷ cancel_all states

unfoldable pub terminate_all : Supervisor → List String → Supervisor
unfolding terminate
terminate_all s [] = s
terminate_all s (name ∷ names) = terminate_all (terminate s name) names

abbrev names_of : Dict String Running → List String
names_of [] = []
names_of ((name, r) ∷ states) = name ∷ names_of states

-- `stop`
unfoldable pub stop : Supervisor → Supervisor
unfolding terminate_all
stop s =
    let s' = record s { stopping = true; states = cancel_all s.states } in
    terminate_all s' (names_of s'.states)
