-- ===== src/Apps/Supervisor/Boot.antt =====
-- `start` of src/prodeo/apps/supervisor.py keeps the invariant of the supervisor.
use command_center.Base.{
  String, Option, none, some, List, [], ◌∷◌, Bool, true, false, not, ◌||◌, string_Eq, ==_refl, ok,
  raise, Result-cases, Error, ◌≡◌, refl, Bool-cases, Option-cases, inl, inr,
}
use command_center.Base.Dict.{Dict, get, put, get-put}
use command_center.Base.Text.{ℤ}
use command_center.Events.Host.{Host}
use command_center.Apps.Supervisor.{
  AppManifest, Task, looping, waiting, sleeping, done, failed, Running, new_running, Supervisor,
  running_of, store, is_live, AppStatus, status_of, started_again, start_app, set_autostart,
}
use command_center.Apps.Supervisor.Supervise.{
  is_not_ready, not_ready, start_all, start, with_states, by_name,
}
use command_center.Apps.Supervisor.Fit.{IsIdle, FitsTask, Fits, IsFit, put-all, store-IsFit}
use command_center.Apps.Supervisor.Steps.{kept, idle, start_app-IsFit}

status_of_returns :
    (h : Host) (s : Supervisor) (name : String) (m : AppManifest)
    → get s.apps name ≡ some m
    → (status : AppStatus) × ((status_of h s name).result ≡ ok status)
unfolding status_of
status_of_returns h s name m installed = rw (status_of, installed) (_, refl)

pub running_of-store :
    (s : Supervisor) (name : String) (r : Running) → running_of (store s name r) name ≡ r
unfolding running_of
running_of-store s name r = rw (running_of, get-put s.states name name r, ==_refl name)

rests :
    (stopping : Bool) (r : Running) (t : Option Task)
    → IsIdle r
    → (not r.wanted || stopping) ≡ true
    → is_live t ≡ false
    → FitsTask stopping r t
rests stopping r none i w over = (i, w)
rests stopping r (some done) i w over = (i, w)
rests stopping r (some (looping backoff crash_loop)) i w over = absurd (cc over)
rests stopping r (some (waiting backoff crash_loop)) i w over = absurd (cc over)
rests stopping r (some (sleeping backoff crash_loop)) i w over = absurd (cc over)

module _ (h : Host) (s : Supervisor) (name : String) (v : IsFit s) where
  -- A start that is refused for its setup has left a state without a live task.
  refused :
      (m : AppManifest) (gaps : List String) (e : Error)
      → get s.apps name ≡ some m
      → (start_app h s name gaps).result ≡ raise e
      → ((start_app h s name gaps).supervisor ≡ store s name (running_of s name))
        × (is_live (running_of s name).task ≡ false)
  unfolding start_app
  refused m gaps e installed raised = elim (Bool-cases (is_live (running_of s name).task)) [
    | inl live ↦
        let kept_ = store s name (running_of s name) in
        let (status, returned) = status_of_returns h kept_ name m installed in
        let same : start_app h s name gaps ≡ status_of h kept_ name =
          rw (start_app, installed, live) in
        absurd (cc (same, returned, raised))
    | inr over ↦ (refused_for gaps over raised, over)
  ]
    where
      refused_for :
          (gaps : List String)
          → is_live (running_of s name).task ≡ false
          → (start_app h s name gaps).result ≡ raise e
          → (start_app h s name gaps).supervisor ≡ store s name (running_of s name)
      refused_for [] over raised =
          let kept_ =
            store (store s name (running_of s name)) name (started_again (running_of s name)) in
          let (status, returned) = status_of_returns h kept_ name m installed in
          let same : start_app h s name [] ≡ status_of h kept_ name =
            rw (start_app, installed, over) in
          absurd (cc (same, returned, raised))
      refused_for (gap ∷ gaps) over raised = rw (start_app, installed, over)

  not_ready-IsFit :
      (m : AppManifest) (gaps : List String) (e : Error) (detail : String)
      → get s.apps name ≡ some m
      → (start_app h s name gaps).result ≡ raise e
      → IsFit (not_ready (start_app h s name gaps).supervisor name detail)
  not_ready-IsFit m gaps e detail installed raised =
      let r = running_of s name in
      let (same, over) = refused m gaps e installed raised in
      let (resting, unwanted) = idle h s name v over in
      rw (same, running_of-store s name r)
        (store-IsFit (store s name r) name (record r { state = failed; last_error = detail })
          (kept h s name v)
          (rests s.stopping (record r { state = failed; last_error = detail }) r.task
            (resting.0, resting.1, refl) unwanted over))

module _ (message : Error → String) (shown : ℤ → String) where
  pub start_all-IsFit :
      (h : Host) (s : Supervisor) (gaps : String → List String) (names : List String)
      → IsFit s
      → IsFit (start_all message shown h s gaps names).1
  unfolding start_all
  start_all-IsFit h s gaps [] v = v
  start_all-IsFit h s gaps (name ∷ names) v = elim (Option-cases (get s.apps name)) [
    | inl absent ↦ rw (start_all, absent) (start_all-IsFit h s gaps names v)
    | inr (m, installed) ↦
        let o = start_app h s name (gaps name) in
        let w = start_app-IsFit h s name v (gaps name) in
        elim (Result-cases o.result) [
          | inl (status, returned) ↦
              rw (start_all, installed, returned) (start_all-IsFit o.host o.supervisor gaps names w)
          | inr (e, raised) ↦ elim (Bool-cases (is_not_ready e)) [
            | inr other ↦ rw (start_all, installed, raised, other) w
            | inl not_yet ↦
                rw (start_all, installed, raised, not_yet)
                  (start_all-IsFit o.host (not_ready o.supervisor name (message e)) gaps names
                    (not_ready-IsFit h s name v m (gaps name) e (message e) installed raised))
          ]
        ]
  ]

  pub with_states-IsFit :
      (stopping : Bool) (apps : Dict String AppManifest) (states : Dict String Running)
      → ((name : String) (r : Running) → get states name ≡ some r → Fits stopping r)
      → (name : String) (r : Running) → get (with_states apps states) name ≡ some r
      → Fits stopping r
  with_states-IsFit stopping [] states v = v
  with_states-IsFit stopping ((app, m) ∷ apps) states v = elim (Option-cases (get states app)) [
    | inr (x, there) ↦ rw there (with_states-IsFit stopping apps states v)
    | inl new ↦ rw new (
        with_states-IsFit stopping apps (put states app new_running)
          (put-all (Fits stopping) states app new_running v ((refl, refl, refl), refl)))
  ]

  pub start-IsFit :
      (h : Host) (s : Supervisor) (manifests : List AppManifest) (autostart : List String)
      (gaps : String → List String)
      → IsFit s
      → IsFit (start message shown h s manifests autostart gaps).1
  unfolding start
  start-IsFit h s manifests autostart gaps v =
      let apps = by_name manifests [] in
      start_all-IsFit h
        (record s { apps = apps; states = with_states apps s.states; autostart = autostart }) gaps
        autostart (with_states-IsFit s.stopping apps s.states v)

pub set_autostart-IsFit :
    (s : Supervisor) (name : String) (enabled : Bool)
    → IsFit s
    → IsFit (set_autostart s name enabled).1
unfolding set_autostart
set_autostart-IsFit s name enabled v = elim (Option-cases (get s.apps name)) [
  | inl unknown ↦ rw (set_autostart, unknown) v
  | inr (m, installed) ↦ rw (set_autostart, installed) v
]
