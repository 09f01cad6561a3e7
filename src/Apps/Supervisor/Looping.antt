-- ===== src/Apps/Supervisor/Looping.antt =====
-- The crash loop in src/prodeo/apps/supervisor.py.
use command_center.Base.{
  ℕ, suc, ◌+◌, ◌*◌, ◌≤◌, String, none, some, List, [], ◌∷◌, true, false, not, ◌&&◌, ◌||◌, leb, ltb,
  min, length, All, string_Eq, ok, Error, ◌≡◌, refl, ap, ◌∙◌, arith, Bool-cases, inl, inr, ◌⊎◌,
}
use command_center.Base.Dict.{get, get-put_self}
use command_center.Base.Text.{ℤ}
use command_center.Events.Host.{Host, now}
use command_center.Apps.Supervisor.{
  failed, looping, waiting, sleeping, done, Running, Supervisor, running_of, store, backoff_max,
  healthy_run, max_crash_loop,
}
use command_center.Apps.Supervisor.Supervise.{
  launched, loops, wakes, reaped, crashes, gave_up, restarting, after_exit, exits,
}
use command_center.Apps.Supervisor.Calls.{Call, goes_on, child_exits, call, run}

-- A pid, an exit code, and how long the child ran.
abbrev pub Crash : Type 0
Crash = ℕ × ℤ × ℕ

-- Each launch works, and each child exits.
abbrev pub crashing : String → List Crash → List Call
crashing name [] = []
crashing name ((pid, code, ran_for) ∷ rest) =
    goes_on name (ok pid) ∷ child_exits name code ran_for ∷ crashing name rest

abbrev pub IsQuick : Crash → Type 0
IsQuick (pid, code, ran_for) = ran_for ≤ healthy_run

-- The app is wanted and its task is to launch, with so many crashes behind it.
pub record IsReady (s : Supervisor) (name : String) (crash_loop : ℕ) : Type 0 where
  pub state : Running
  pub backoff : ℕ
  pub known : get s.states name ≡ some state
  pub wanted : state.wanted ≡ true
  pub serving : s.stopping ≡ false
  pub launches :
      (state.task ≡ some (looping backoff crash_loop))
      ⊎ (state.task ≡ some (sleeping backoff crash_loop))

-- The supervisor has given the app up.
pub record IsGivenUp (s : Supervisor) (name : String) : Type 0 where
  pub state : Running
  pub known : get s.states name ≡ some state
  pub unwanted : state.wanted ≡ false
  pub failed_ : state.state ≡ failed
  pub childless : state.process ≡ none
  pub over : state.task ≡ some done

running_of-known :
    (s : Supervisor) (name : String) (r : Running)
    → get s.states name ≡ some r
    → running_of s name ≡ r
unfolding running_of
running_of-known s name r known = rw (running_of, known)

module _ (message : Error → String) (shown : ℤ → String) (h : Host) (s : Supervisor)
    (name : String) where
  loops_on :
      (backoff crash_loop pid : ℕ) (r : Running)
      → (r.wanted && not s.stopping) ≡ true
      → (loops message shown h s name backoff crash_loop r (ok pid)).1
        ≡ store s name (launched pid (now h) backoff crash_loop r)
  unfolding loops
  loops_on backoff crash_loop pid r on = rw (loops, on)

  wakes_at :
      (crash_loop pid backoff : ℕ)
      → ((running_of s name).wanted && not s.stopping) ≡ true
      → ((running_of s name).task ≡ some (looping backoff crash_loop))
        ⊎ ((running_of s name).task ≡ some (sleeping backoff crash_loop))
      → (next : ℕ) × ((wakes message shown h s name (ok pid)).1
          ≡ store s name (launched pid (now h) next crash_loop (running_of s name)))
  unfolding wakes
  wakes_at crash_loop pid backoff on (inl looping_) =
      (backoff, rw (wakes, looping_) (loops_on backoff crash_loop pid (running_of s name) on))
  wakes_at crash_loop pid backoff on (inr sleeping_) =
      let next = min (backoff * 2) backoff_max in
      (next, rw (wakes, sleeping_) (loops_on next crash_loop pid (running_of s name) on))

  exits_at :
      (backoff crash_loop : ℕ) (code : ℤ) (ran_for : ℕ)
      → (running_of s name).task ≡ some (waiting backoff crash_loop)
      → (not (running_of s name).wanted || s.stopping) ≡ false
      → ran_for ≤ healthy_run
      → (exits message shown h s name code ran_for).1
        ≡ (after_exit message shown h s name backoff crash_loop
            (reaped (running_of s name))
            code
            false).1
  unfolding exits
  exits_at backoff crash_loop code ran_for waits on short =
      let quick : ltb healthy_run ran_for ≡ false = ground arith in rw (exits, waits, on, quick)

  wakes_up :
      (crash_loop pid : ℕ) (v : IsReady s name crash_loop)
      → (backoff : ℕ) × ((wakes message shown h s name (ok pid)).1
          ≡ store s name (launched pid (now h) backoff crash_loop v.state))
  wakes_up crash_loop pid v =
      let same = running_of-known s name v.state v.known in
      let on : (v.state.wanted && not s.stopping) ≡ true = ground (arith, v.wanted, v.serving) in
      let (next, e) =
        wakes_at crash_loop pid v.backoff
          (ap (λ (r : Running). r.wanted && not s.stopping) same ∙ on)
          (elim v.launches [
            | inl looping_ ↦ inl (ap (λ (r : Running). r.task) same ∙ looping_)
            | inr sleeping_ ↦ inr (ap (λ (r : Running). r.task) same ∙ sleeping_)
          ]) in
      (next, e ∙ ap (λ r. store s name (launched pid (now h) next crash_loop r)) same)

  -- What the exit of a child leaves, which had not run for long.
  quick_exit :
      (backoff crash_loop : ℕ) (r : Running) (code : ℤ) (ran_for : ℕ)
      → get s.states name ≡ some r
      → r.task ≡ some (waiting backoff crash_loop)
      → (not r.wanted || s.stopping) ≡ false
      → ran_for ≤ healthy_run
      → (exits message shown h s name code ran_for).1
        ≡ (after_exit message shown h s name backoff crash_loop (reaped r) code false).1
  quick_exit backoff crash_loop r code ran_for known waits on short =
      let same = running_of-known s name r known in
      exits_at backoff crash_loop code ran_for (ap (λ (x : Running). x.task) same ∙ waits)
        (ap (λ (x : Running). not x.wanted || s.stopping) same ∙ on) short
      ∙ ap (λ x. (after_exit message shown h s name backoff crash_loop (reaped x) code false).1)
          same

module _ (message : Error → String) (shown : ℤ → String) where
  -- The supervisor after one more launch and exit.
  abbrev crashed : Host → Supervisor → String → Crash → Host × Supervisor
  crashed h s name (pid, code, ran_for) =
      let (h', s') = wakes message shown h s name (ok pid) in
      exits message shown h' s' name code ran_for

  crashed_again :
      (h : Host) (s : Supervisor) (name : String) (backoff crash_loop : ℕ) (r : Running) (code : ℤ)
      → r.wanted ≡ true
      → s.stopping ≡ false
      → let s' = (after_exit message shown h s name backoff crash_loop (reaped r) code false).1 in
        (crash_loop + 2 ≤ 5) × IsReady s' name (crash_loop + 1)
        ⊎ (4 ≤ crash_loop) × IsGivenUp s' name
  unfolding after_exit
  crashed_again h s name backoff crash_loop r code wanted serving =
      elim (Bool-cases (leb max_crash_loop (crashes false crash_loop))) [
        | inl looped ↦
            let r' = gave_up message shown code (crash_loop + 1) (reaped r) in
            rw (after_exit, looped)
              (inr (
                ground arith,
                record {
                  state = r';
                  known = get-put_self s.states name name r' refl;
                  unwanted = refl;
                  failed_ = refl;
                  childless = refl;
                  over = refl;
                },
              ))
        | inr again ↦
            let r' = restarting message shown code backoff (crash_loop + 1) (reaped r) in
            rw (after_exit, again)
              (inl (
                ground arith,
                record {
                  state = r';
                  backoff = backoff;
                  known = get-put_self s.states name name r' refl;
                  wanted = wanted;
                  serving = serving;
                  launches = inr refl;
                },
              ))
      ]

  crash-IsReady :
      (h : Host) (s : Supervisor) (name : String) (crash_loop : ℕ) (c : Crash)
      → IsReady s name crash_loop
      → IsQuick c
      → let s' = (crashed h s name c).1 in
        (crash_loop + 2 ≤ 5) × IsReady s' name (crash_loop + 1)
        ⊎ (4 ≤ crash_loop) × IsGivenUp s' name
  crash-IsReady h s name crash_loop (pid, code, ran_for) v short =
      let h' = (wakes message shown h s name (ok pid)).0 in
      let (next, up) = wakes_up message shown h s name crash_loop pid v in
      let r = launched pid (now h) next crash_loop v.state in
      let s' = store s name r in
      rw
        (
          up,
          quick_exit message shown h' s' name next crash_loop r code ran_for
              (get-put_self s.states name name r refl) refl (ground (arith, v.wanted, v.serving))
              short,
        )
        (crashed_again h' s' name next crash_loop r code v.wanted v.serving)

  ended :
      (h : Host) (s : Supervisor) (name : String) (cs : List Crash)
      → length cs ≡ 0
      → IsGivenUp s name
      → IsGivenUp (run message shown h s (crashing name cs)).1 name
  unfolding run
  ended h s name [] none_ g = g
  ended h s name (c ∷ cs) none_ g = absurd (omega (arith, none_))

  loops_out :
      (h : Host) (s : Supervisor) (name : String) (crash_loop : ℕ) (cs : List Crash)
      → IsReady s name crash_loop
      → All IsQuick cs
      → suc crash_loop ≤ 5
      → length cs + crash_loop ≡ 5
      → IsGivenUp (run message shown h s (crashing name cs)).1 name
  unfolding run call
  loops_out h s name crash_loop [] v short few all_ = absurd (omega arith)
  loops_out h s name crash_loop ((pid, code, ran_for) ∷ cs) v (short, shorts) few all_ =
      let (h', s') = crashed h s name (pid, code, ran_for) in
      elim (crash-IsReady h s name crash_loop (pid, code, ran_for) v short) [
        | inl (few', ready) ↦
            loops_out h' s' name (crash_loop + 1) cs ready shorts (omega arith)
              (omega (arith, all_))
        | inr (last, given_up) ↦ ended h' s' name cs (omega (arith, all_)) given_up
      ]

  -- An app that is wanted and whose child then exits five times within a minute of its launch is given
  -- up: it is failed and not wanted any more, has no child and its task has ended.
  pub crash_loop_ends :
      (h : Host) (s : Supervisor) (name : String) (cs : List Crash)
      → IsReady s name 0
      → All IsQuick cs
      → length cs ≡ max_crash_loop
      → IsGivenUp (run message shown h s (crashing name cs)).1 name
  crash_loop_ends h s name cs v short five =
      loops_out h s name 0 cs v short (omega arith) (omega (arith, five))
