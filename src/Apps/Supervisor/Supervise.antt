-- ===== src/Apps/Supervisor/Supervise.antt =====
-- `_supervise` in src/prodeo/apps/supervisor.py: what its task does from one wait to the next, and the
-- start of the supervisor.
use Prim.Native.String.{◌++◌ as str_append}
use command_center.Base.{
  ℕ, ◌+◌, ◌*◌, String, none, some, List, [], ◌∷◌, Bool, true, false, not, ◌&&◌, ◌||◌, leb, ltb, min,
  if◌then◌else◌, string_Eq, Result, ok, raise, Error, app_not_ready,
}
use command_center.Base.Dict.{Dict, get, put}
use command_center.Base.Text.{ℤ, pos}
use command_center.Events.Types.{system_app_started, system_app_exited}
use command_center.Events.Envelope.{Payload, text, count, flag, int}
use command_center.Events.Host.{Host, now, tick}
use command_center.Apps.Supervisor.{
  AppManifest, stopped, running, exited, failed, looping, waiting, sleeping, done, Running,
  new_running, Supervisor, backoff_start, backoff_max, healthy_run, max_crash_loop, running_of,
  store, emit_app, start_app,
}

-- `_launch`, once the child is there.
abbrev pub launched : ℕ → ℕ → ℕ → ℕ → Running → Running
launched pid at backoff crash_loop r = record r {
  process = some pid;
  pid = some pid;
  started_at = some at;
  state = running;
  task = some (waiting backoff crash_loop);
}

-- The launch failed.
abbrev pub launch_failed : String → Running → Running
launch_failed detail r = record r {
  state = failed;
  last_error = detail;
  wanted = false;
  task = some done;
}

abbrev pub is_not_ready : Error → Bool
is_not_ready (app_not_ready name) = true
is_not_ready _ = false

-- `code = await process.wait()` returns.
abbrev pub reaped : Running → Running
reaped r = record r { pid = none; process = none }

abbrev pub exit_payload : String → ℤ → Bool → Payload
exit_payload name code again =
    ("app", text name) ∷ ("code", int code) ∷ ("restarting", flag again) ∷ []

-- `crash_loop = 0 if healthy else crash_loop + 1`
abbrev pub crashes : Bool → ℕ → ℕ
crashes healthy crash_loop = if healthy then 0 else crash_loop + 1

-- `except AppNotReadyError` of `start`.
abbrev pub not_ready : Supervisor → String → String → Supervisor
not_ready s name detail =
    store s name (record (running_of s name) { state = failed; last_error = detail })

abbrev pub with_states : Dict String AppManifest → Dict String Running → Dict String Running
with_states [] states = states
with_states ((name, m) ∷ apps) states =
    with_states apps
      (elim (get states name) [ none ↦ put states name new_running | some r ↦ states ])

abbrev pub by_name : List AppManifest → Dict String AppManifest → Dict String AppManifest
by_name [] apps = apps
by_name (m ∷ ms) apps = by_name ms (put apps m.name m)

module _ (message : Error → String) (shown : ℤ → String) where
  abbrev pub launch : Host → Supervisor → String → ℕ → ℕ → Running → Result ℕ → Host × Supervisor
  launch h s name backoff crash_loop r (raise e) = (
    emit_app h s system_app_exited (("app", text name) ∷ ("error", text (message e)) ∷ []),
    store s name (launch_failed (message e) r),
  )
  launch h s name backoff crash_loop r (ok pid) = (
    emit_app (tick h) s system_app_started (("app", text name) ∷ ("pid", count pid) ∷ []),
    store s name (launched pid (now h) backoff crash_loop r),
  )

  -- The loop's test, and the launch with what the spawn gives.
  unfoldable pub loops : Host → Supervisor → String → ℕ → ℕ → Running → Result ℕ → Host × Supervisor
  loops h s name backoff crash_loop r spawned =
      if r.wanted && not s.stopping
      then launch h s name backoff crash_loop r spawned
      else (h, store s name (record r { task = some done }))

  -- The task runs on: at its start, or after its sleep.
  unfoldable pub wakes : Host → Supervisor → String → Result ℕ → Host × Supervisor
  unfolding loops running_of
  wakes h s name spawned =
      let r = running_of s name in
      elim r.task [
        | none ↦ (h, s)
        | some t ↦ elim t [
          | looping backoff crash_loop ↦ loops h s name backoff crash_loop r spawned
          | waiting backoff crash_loop ↦ (h, s)
          | sleeping backoff crash_loop ↦
              loops h s name (min (backoff * 2) backoff_max) crash_loop r spawned
          | done ↦ (h, s)
        ]
      ]

  abbrev pub giving_up : ℤ → ℕ → String
  giving_up code crash_loop = str_append "exited with code " (
      str_append (shown code) (
        str_append " on " (
          str_append (shown (pos crash_loop))
            " consecutive starts; giving up - check the app's configuration")))

  abbrev pub gave_up : ℤ → ℕ → Running → Running
  gave_up code crash_loop r = record r {
    state = failed;
    last_error = giving_up code crash_loop;
    wanted = false;
    task = some done;
  }

  abbrev pub restarting : ℤ → ℕ → ℕ → Running → Running
  restarting code backoff crash_loop r = record r {
    state = exited;
    last_error = str_append "exited with code " (shown code);
    restarts = r.restarts + 1;
    task = some (sleeping backoff crash_loop);
  }

  unfoldable pub after_exit :
      Host → Supervisor → String → ℕ → ℕ → Running → ℤ → Bool → Host × Supervisor
  after_exit h s name backoff crash_loop r code healthy =
      if leb max_crash_loop (crashes healthy crash_loop)
      then (
        emit_app h s system_app_exited (exit_payload name code false),
        store s name (gave_up code (crashes healthy crash_loop) r),
      )
      else (
        emit_app h s system_app_exited (exit_payload name code true),
        store s name (
            restarting code (if healthy then backoff_start else backoff)
              (crashes healthy crash_loop) r),
      )

  -- The child exits after it ran for that long.
  unfoldable pub exits : Host → Supervisor → String → ℤ → ℕ → Host × Supervisor
  unfolding after_exit running_of
  exits h s name code ran_for =
      let r = running_of s name in
      elim r.task [
        | none ↦ (h, s)
        | some t ↦ elim t [
          | looping backoff crash_loop ↦ (h, s)
          | waiting backoff crash_loop ↦
              if not r.wanted || s.stopping
              then (h, store s name (record (reaped r) { state = stopped; task = some done }))
              else after_exit h s name backoff crash_loop (reaped r) code (ltb healthy_run ran_for)
          | sleeping backoff crash_loop ↦ (h, s)
          | done ↦ (h, s)
        ]
      ]

  -- `for name in sorted(self._autostart)` of `start`, with the steps that the probe finds unmet. Any
  -- other exception ends it.
  unfoldable pub start_all :
      Host → Supervisor → (String → List String) → List String → Host × Supervisor
  unfolding start_app running_of
  start_all h s gaps [] = (h, s)
  start_all h s gaps (name ∷ names) = elim (get s.apps name) [
    | none ↦ start_all h s gaps names
    | some m ↦
        let o = start_app h s name (gaps name) in
        elim o.result [
          | ok status ↦ start_all o.host o.supervisor gaps names
          | raise e ↦ elim (is_not_ready e) [
            | true ↦ start_all o.host (not_ready o.supervisor name (message e)) gaps names
            | false ↦ (o.host, o.supervisor)
          ]
        ]
  ]

  -- `start`, with the manifests, and the stored autostart names in sorted order.
  unfoldable pub start :
      Host
      → Supervisor
      → List AppManifest
      → List String
      → (String → List String)
      → Host × Supervisor
  unfolding start_all
  start h s manifests autostart gaps =
      let apps = by_name manifests [] in
      start_all h
        (record s { apps = apps; states = with_states apps s.states; autostart = autostart }) gaps
        autostart
