-- ===== src/Scheduler/Service/Calls.antt =====
-- The calls of src/prodeo/scheduler/service.py as data, a round of its loop among them.
use command_center.Base.{
  ℕ, String, List, [], ◌∷◌, ok, ◌≡◌, sym, subst, Option-cases, inl, inr, nat_Eq,
}
use command_center.Base.Dict.{get}
use command_center.Base.Entries.{modify-AllEntries, modify-IsDict, get-AllEntries}
use command_center.Events.Host.{Host, now, tick}
use command_center.Scheduler.Model.{LaunchSpec}
use command_center.Scheduler.Service.{
  Scheduler, Outcome, Zone, Launcher, init, create, delete, trigger_now, round, next_run,
}
use command_center.Scheduler.Service.Accepts.{
  IsEntry, IsSound, stamped-IsEntry, create-IsSound, delete-IsSound,
}
use command_center.Scheduler.Service.Firing.{fire_parsed}
use command_center.Scheduler.Service.Pass.{round-Rounded}

pub data Call : Type 0 where
  creates : String → String → String → LaunchSpec → Call
  triggers : ℕ → Call
  deletes : ℕ → Call
  loops : Call

abbrev left : {A : Type 0} → Outcome A → Host × Scheduler
left o = (o.host, o.scheduler)

module _ (zone : Zone) (launcher : Launcher) where
  unfoldable pub call : Host → Scheduler → Call → Host × Scheduler
  call h s (creates name cron adapter spec) = left (create zone h s name cron adapter spec)
  call h s (triggers id) = left (trigger_now zone launcher h s id)
  call h s (deletes id) = left (delete h s id)
  call h s loops = left (round zone launcher h s)

  unfoldable pub run : Host → Scheduler → List Call → Host × Scheduler
  unfolding call
  run h s [] = (h, s)
  run h s (c ∷ cs) = let (h', s') = call h s c in run h' s' cs

  -- A schedule of a sound catalogue fires without raising, and the catalogue stays sound.
  trigger_now-IsSound :
      (h : Host) (s : Scheduler) (id : ℕ)
      → IsSound s
      → IsSound (trigger_now zone launcher h s id).scheduler
  unfolding trigger_now
  trigger_now-IsSound h s id v = elim (Option-cases (get s.schedules id)) [
    | inl absent ↦ rw (absent, trigger_now) v
    | inr (x, found) ↦
        let entry = get-AllEntries IsEntry s.schedules id x v.entries found in
        let (result, changed) =
          fire_parsed zone launcher (tick h) s x (now h) entry.spec entry.parses in
        rw (found, trigger_now)
          (subst IsSound (sym changed) (record {
            unique = modify-IsDict s.schedules x.id _ v.unique;
            entries =
                modify-AllEntries IsEntry s.schedules x.id _ v.entries
                  (stamped-IsEntry (now h) (next_run zone entry.spec (now h)));
          }))
  ]

  call-IsSound : (h : Host) (s : Scheduler) (c : Call) → IsSound s → IsSound (call h s c).1
  unfolding call
  call-IsSound h s (creates name cron adapter spec) v =
      create-IsSound zone h s name cron adapter spec v
  call-IsSound h s (triggers id) v = trigger_now-IsSound h s id v
  call-IsSound h s (deletes id) v = delete-IsSound h s id v
  call-IsSound h s loops v = (round-Rounded zone launcher h s v).sound

  run_from : (h : Host) (s : Scheduler) (cs : List Call) → IsSound s → IsSound (run h s cs).1
  unfolding run
  run_from h s [] v = v
  run_from h s (c ∷ cs) v = run_from (call h s c).0 (call h s c).1 cs (call-IsSound h s c v)

  -- Whatever the calls and rounds, refused ones included, each schedule of the catalogue is filed once,
  -- under its own id, and has an expression that parses; and a round of the loop does not raise.
  pub scheduler-IsSound :
      (h : Host) (node : String) (cs : List Call)
      → let (h', s') = run h (init node) cs in
        IsSound s' × ((round zone launcher h' s').result ≡ ok tt)
  scheduler-IsSound h node cs =
      let v = run_from h (init node) cs (record { unique = tt; entries = tt }) in
      (
        v,
        (round-Rounded zone launcher (run h (init node) cs).0 (run h (init node) cs).1 v).succeeds,
      )
