-- ===== src/Scheduler/Service/Pass.antt =====
-- A round of the loop of src/prodeo/scheduler/service.py: what becomes of each schedule.
use mathlib.Core.Option
use command_center.Base.{
  ℕ, ◌<◌, none, some, sym, subst, some_inj, [], ◌∷◌, if◌then◌else◌, nat_Eq, ok, ◌≡◌, refl, ◌∙◌,
  Bool-cases, Option-cases, inl, inr, arith,
}
use command_center.Base.Dict.{Dict, get, values}
use command_center.Base.Entries.{
  listed, values-AllOnce, values-Stored, listed-values, AllKeyed, AllEntries, get-AllEntries,
}
use command_center.Events.Host.{Host, now, tick}
use command_center.Scheduler.Model.{Schedule}
use command_center.Scheduler.Cron.{CronSpec, Wall, instant, next_fire}
use command_center.Scheduler.Cron.Next.{next_fire-Matches}
use command_center.Scheduler.Service.{Scheduler, Zone, Launcher, next_run, fire_due, round}
use command_center.Scheduler.Service.Due.{IsDue, Fires, Fate}
use command_center.Scheduler.Service.Accepts.{IsEntry, IsSound}
use command_center.Scheduler.Service.Firing.{key, after_round, Parses, after_round-Fate, passed}

entries_keyed : (d : Dict ℕ Schedule) → AllEntries IsEntry d → AllKeyed key d
entries_keyed [] all = tt
entries_keyed ((id, x) ∷ d) all = (all.0.keyed, entries_keyed d all.1)

entries_parse : (d : Dict ℕ Schedule) → AllEntries IsEntry d → Parses (values d)
entries_parse [] all = tt
entries_parse ((id, x) ∷ d) all = ((all.0.spec, all.0.parses), entries_parse d all.1)

-- What a round of the loop leaves: it raised nothing, each schedule met its fate, none was added, and the
-- catalogue is as sound as before. Between the two readings of the clock it fired what was due.
pub record Rounded (zone : Zone) (launcher : Launcher) (h : Host) (s : Scheduler) : Type 0 where
  pub succeeds : (round zone launcher h s).result ≡ ok tt
  pub updates :
      (id : ℕ) (x : Schedule)
      → get s.schedules id ≡ some x
      → (x' : Schedule) × (get (round zone launcher h s).scheduler.schedules id ≡ some x')
        × Fate zone (now h) x x'
  pub none_added :
      (id : ℕ)
      → get s.schedules id ≡ none
      → get (round zone launcher h s).scheduler.schedules id ≡ none
  pub fires :
      (k : Host) × Fires launcher s.node (now h) (tick h) (values s.schedules) k
      × ((round zone launcher h s).host ≡ tick k)
  pub sound : IsSound (round zone launcher h s).scheduler

-- A round fires exactly what is due, once, in the order of the catalogue: for each schedule whose next
-- run has come, and for no other, the launcher is asked once and one event announces what it answered,
-- a failure included, and the schedule is stamped with this moment and given its next run from this
-- moment on. Each other schedule stays as it is, none is added or lost, and no round raises.
pub round-Rounded :
    (zone : Zone) (launcher : Launcher) (h : Host) (s : Scheduler)
    → IsSound s
    → Rounded zone launcher h s
unfolding round
round-Rounded zone launcher h s v =
    let k = entries_keyed s.schedules v.entries in
    let p =
      passed zone launcher (tick h) s (values s.schedules) (now h) v
        (values-AllOnce key s.schedules v.unique k) (values-Stored key s.schedules v.unique k)
        (entries_parse s.schedules v.entries) in
    record {
      succeeds = rw (p.succeeds, round) refl;
      updates = λ id x found.
          let e = get-AllEntries IsEntry s.schedules id x v.entries found in
          rw (p.succeeds, round)
            (
              after_round zone (now h) x,
              p.updates id ∙ all_listed id k ∙ rw found refl,
              after_round-Fate zone x (now h) e.spec e.parses,
            );
      none_added =
          λ id absent. rw (p.succeeds, round) (p.updates id ∙ all_listed id k ∙ rw absent refl);
      fires =
          rw (p.succeeds, round)
            ((fire_due zone launcher (tick h) s (values s.schedules) (now h)).host, p.fires, refl);
      sound = record {
        unique = rw (p.succeeds, round) p.sound.unique;
        entries = rw (p.succeeds, round) p.sound.entries;
      };
    }
  where
    all_listed :
        (id : ℕ)
        → AllKeyed key s.schedules
        → (if listed key id (values s.schedules)
            then Option.map (after_round zone (now h)) (get s.schedules id)
            else get s.schedules id)
          ≡ Option.map (after_round zone (now h)) (get s.schedules id)
    all_listed id k = elim (Option-cases (get s.schedules id)) [
      | inl absent ↦ rw absent (elim (Bool-cases (listed key id (values s.schedules))) [
        | inl there ↦ rw there refl
        | inr not_there ↦ rw not_there refl
      ])
      | inr (x, found) ↦ rw (found, listed-values key s.schedules id x k found) refl
    ]

-- A time after another on the clock is after it: so in a zone without shifts.
abbrev pub IsSteady : Zone → Type 0
IsSteady zone = (at : ℕ) (w : Wall) → instant (zone.to_local at) < instant w → at < zone.to_utc w

next_run_later :
    (zone : Zone) (spec : CronSpec) (at t : ℕ)
    → IsSteady zone
    → next_run zone spec at ≡ some t
    → at < t
unfolding next_run
next_run_later zone spec at t steady next =
    elim (Option-cases (next_fire spec (zone.to_local at))) [
      | inl never ↦ absurd (cc (rw never at next))
      | inr (w, found) ↦
          let later : at < zone.to_utc w =
            steady at w (next_fire-Matches spec (zone.to_local at) w found).1 in
          subst (λ n. at < n) (some_inj (rw found at next)) later
    ]

Fate-not-IsDue :
    (zone : Zone) (at : ℕ) (x x' : Schedule) → IsSteady zone → Fate zone at x x' → ¬ IsDue x' at
Fate-not-IsDue zone at x x' steady (inr (early, same)) = subst (λ y. ¬ IsDue y at) (sym same) early
Fate-not-IsDue zone at x x' steady (inl (due, spec, parses, same)) =
    subst (λ y. ¬ IsDue y at) (sym same)
      (λ (t, next, come).
        let later = next_run_later zone spec at t steady next in omega (arith, come, later))

-- In a zone without shifts, once a round over a sound catalogue is over, no schedule of the catalogue is
-- due at the moment of the round: what fired has a strictly later next run, or none.
pub round_not-IsDue :
    (zone : Zone) (launcher : Launcher) (h : Host) (s : Scheduler) (id : ℕ) (x' : Schedule)
    → IsSteady zone
    → IsSound s
    → get (round zone launcher h s).scheduler.schedules id ≡ some x'
    → ¬ IsDue x' (now h)
round_not-IsDue zone launcher h s id x' steady v left =
    let r = round-Rounded zone launcher h s v in
    elim (Option-cases (get s.schedules id)) [
      | inl absent ↦ absurd (cc (left, r.none_added id absent))
      | inr (x, found) ↦
          let (y, there, fate) = r.updates id x found in
          subst (λ z. ¬ IsDue z (now h)) (some_inj (sym there ∙ left))
            (Fate-not-IsDue zone (now h) x y steady fate)
    ]
