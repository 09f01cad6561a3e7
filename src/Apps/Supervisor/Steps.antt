-- ===== src/Apps/Supervisor/Steps.antt =====
-- The commands and the tasks of src/prodeo/apps/supervisor.py keep the invariant of the supervisor.
use command_center.Base.{
  ℕ, ◌*◌, String, Option, none, some, List, [], ◌∷◌, Bool, true, false, not, ◌&&◌, ◌||◌, leb, ltb,
  min, string_Eq, Result, Result-cases, Error, ◌≡◌, refl, arith, Bool-cases, Option-cases, inl, inr,
  subst, if◌then◌else◌,
}
use command_center.Base.Dict.{get}
use command_center.Base.Text.{ℤ}
use command_center.Events.Host.{Host}
use command_center.Apps.Supervisor.{
  AppManifest, Task, looping, waiting, sleeping, done, Running, Supervisor, running_of, store,
  is_live, started_again, start_app, backoff_start, backoff_max, healthy_run, max_crash_loop,
}
use command_center.Apps.Supervisor.Supervise.{loops, wakes, exits, after_exit, crashes, reaped}
use command_center.Apps.Supervisor.Fit.{
  IsIdle, IsBounded, FitsTask, IsFit, running_of-Fits, store-IsFit, status_of-IsFit,
}

crashes-IsBounded :
    (backoff crash_loop : ℕ) (healthy : Bool)
    → IsBounded backoff crash_loop
    → leb max_crash_loop (crashes healthy crash_loop) ≡ false
    → IsBounded (if healthy then backoff_start else backoff) (crashes healthy crash_loop)
crashes-IsBounded backoff crash_loop true (low, high, few) again =
    (omega arith, omega arith, omega arith)
crashes-IsBounded backoff crash_loop false (low, high, few) again =
    (low, high, ground (arith, again))

module _ (message : Error → String) (shown : ℤ → String) where
  loops-IsFit :
      (h : Host) (s : Supervisor) (name : String) (backoff crash_loop : ℕ) (r : Running)
      (spawned : Result ℕ)
      → IsFit s
      → IsIdle r
      → IsBounded backoff crash_loop
      → IsFit (loops message shown h s name backoff crash_loop r spawned).1
  unfolding loops
  loops-IsFit h s name backoff crash_loop r spawned v idle bounded =
      elim (Bool-cases (r.wanted && not s.stopping)) [
        | inr over ↦
            rw (loops, over)
              (store-IsFit s name (record r { task = some done }) v (idle, ground (arith, over)))
        | inl goes_on ↦ elim (Result-cases spawned) [
          | inr (e, lost) ↦
              rw (loops, goes_on, lost) (store-IsFit s name _ v ((idle.0, idle.1, refl), refl))
          | inl (pid, there) ↦
              rw (loops, goes_on, there)
                (store-IsFit s name _ v (pid, refl, refl, refl, ground (arith, goes_on), bounded))
        ]
      ]

  module _ (h : Host) (s : Supervisor) (name : String) (v : IsFit s) where
    fits_at :
        (t : Option Task) → (running_of s name).task ≡ t → FitsTask s.stopping (running_of s name) t
    fits_at t e = subst (FitsTask s.stopping (running_of s name)) e (running_of-Fits s name v)

    wakes_from :
        (spawned : Result ℕ) (t : Option Task)
        → (running_of s name).task ≡ t
        → IsFit (wakes message shown h s name spawned).1
    unfolding wakes
    wakes_from spawned none e = rw (wakes, e) v
    wakes_from spawned (some done) e = rw (wakes, e) v
    wakes_from spawned (some (waiting backoff crash_loop)) e = rw (wakes, e) v
    wakes_from spawned (some (looping backoff crash_loop)) e =
        let (idle, wanted, bounded) = fits_at (some (looping backoff crash_loop)) e in
        rw (wakes, e)
          (loops-IsFit h s name backoff crash_loop (running_of s name) spawned v idle bounded)
    wakes_from spawned (some (sleeping backoff crash_loop)) e =
        let (idle, wanted, (low, high, few)) = fits_at (some (sleeping backoff crash_loop)) e in
        rw (wakes, e)
          (loops-IsFit h s name (min (backoff * 2) backoff_max) crash_loop (running_of s name)
            spawned v idle (omega arith, omega arith, few))

    pub wakes-IsFit : (spawned : Result ℕ) → IsFit (wakes message shown h s name spawned).1
    wakes-IsFit spawned = wakes_from spawned (running_of s name).task refl

    after_exit-IsFit :
        (backoff crash_loop : ℕ) (r : Running) (code : ℤ) (healthy : Bool)
        → r.wanted ≡ true
        → IsBounded backoff crash_loop
        → IsFit (after_exit message shown h s name backoff crash_loop (reaped r) code healthy).1
    unfolding after_exit
    after_exit-IsFit backoff crash_loop r code healthy wanted b =
        elim (Bool-cases (leb max_crash_loop (crashes healthy crash_loop))) [
          | inl looped ↦ rw (after_exit, looped) (store-IsFit s name _ v ((refl, refl, refl), refl))
          | inr again ↦
              rw (after_exit, again)
                (store-IsFit s name _ v (
                  (refl, refl, refl),
                  wanted,
                  crashes-IsBounded backoff crash_loop healthy b again,
                ))
        ]

    exits_from :
        (code : ℤ) (ran_for : ℕ) (t : Option Task)
        → (running_of s name).task ≡ t
        → IsFit (exits message shown h s name code ran_for).1
    unfolding exits
    exits_from code ran_for none e = rw (exits, e) v
    exits_from code ran_for (some done) e = rw (exits, e) v
    exits_from code ran_for (some (looping backoff crash_loop)) e = rw (exits, e) v
    exits_from code ran_for (some (sleeping backoff crash_loop)) e = rw (exits, e) v
    exits_from code ran_for (some (waiting backoff crash_loop)) e =
        let (p, here, shown_, runs, wanted, bounded) =
          fits_at (some (waiting backoff crash_loop)) e in
        elim (Bool-cases (not (running_of s name).wanted || s.stopping)) [
          | inl over ↦ rw (exits, e, over) (store-IsFit s name _ v ((refl, refl, refl), over))
          | inr goes_on ↦
              rw (exits, e, goes_on)
                (after_exit-IsFit backoff crash_loop (running_of s name) code
                  (ltb healthy_run ran_for) wanted bounded)
        ]

    pub exits-IsFit : (code : ℤ) (ran_for : ℕ) → IsFit (exits message shown h s name code ran_for).1
    exits-IsFit code ran_for = exits_from code ran_for (running_of s name).task refl

pub no_task :
    (stopping : Bool) (r : Running) (t : Option Task)
    → FitsTask stopping r t
    → is_live t ≡ false
    → IsIdle r × ((not r.wanted || stopping) ≡ true)
no_task stopping r none fit over = fit
no_task stopping r (some done) fit over = fit
no_task stopping r (some (looping backoff crash_loop)) fit over = absurd (cc over)
no_task stopping r (some (waiting backoff crash_loop)) fit over = absurd (cc over)
no_task stopping r (some (sleeping backoff crash_loop)) fit over = absurd (cc over)

backoff_start-IsBounded : IsBounded backoff_start 0
backoff_start-IsBounded = (omega arith, omega arith, omega arith)

module _ (h : Host) (s : Supervisor) (name : String) (v : IsFit s) where
  abbrev pub known : Running
  known = running_of s name

  pub kept : IsFit (store s name known)
  kept = store-IsFit s name known v (running_of-Fits s name v)

  pub idle : is_live known.task ≡ false → IsIdle known × ((not known.wanted || s.stopping) ≡ true)
  idle over = no_task s.stopping known known.task (running_of-Fits s name v) over

  starts :
      (m : AppManifest) (gaps : List String)
      → get s.apps name ≡ some m
      → is_live known.task ≡ false
      → IsFit (start_app h s name gaps).supervisor
  unfolding start_app
  starts m [] installed over =
      rw (start_app, installed, over)
        (status_of-IsFit h (store (store s name known) name (started_again known)) name (
          store-IsFit (store s name known) name (started_again known) kept
            (((idle over).0.0, (idle over).0.1, refl), refl, backoff_start-IsBounded)))
  starts m (gap ∷ gaps) installed over = rw (start_app, installed, over) kept

  pub start_app-IsFit : (gaps : List String) → IsFit (start_app h s name gaps).supervisor
  unfolding start_app
  start_app-IsFit gaps = elim (Option-cases (get s.apps name)) [
    | inl unknown ↦ rw (start_app, unknown) v
    | inr (m, installed) ↦ elim (Bool-cases (is_live known.task)) [
      | inl live ↦
          rw (start_app, installed, live) (status_of-IsFit h (store s name known) name kept)
      | inr over ↦ starts m gaps installed over
    ]
  ]
