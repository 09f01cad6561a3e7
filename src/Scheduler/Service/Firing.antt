-- ===== src/Scheduler/Service/Firing.antt =====
-- The schedules that a round of src/prodeo/scheduler/service.py fires, one after the other.
use mathlib.Core.Option
use command_center.Base.{
  ℕ, some, List, [], ◌∷◌, true, false, if◌then◌else◌, nat_Eq, nat_eq, nat_eq_iff, All, ok, raise,
  ◌>>=◌, ◌≡◌, refl, ap, sym, ◌∙◌, subst, Bool-cases, inl, inr,
}
use command_center.Base.Dict.{Dict, get, modify, get-modify}
use command_center.Base.Entries.{
  listed, AllOnce, Stored, Stored-changed, modify-AllEntries, modify-IsDict,
}
use command_center.Events.Host.{Host}
use command_center.Scheduler.Model.{Schedule}
use command_center.Scheduler.Cron.{CronSpec, parse_cron}
use command_center.Scheduler.Service.{
  Scheduler, Zone, Launcher, stamped, is_due, next_run, next_run_of, fire, fire_due, Outcome,
}
use command_center.Scheduler.Service.Due.{IsDue, is_due-cases, Fires, Fate, fire-Fired}
use command_center.Scheduler.Service.Accepts.{IsEntry, IsSound, stamped-IsEntry}

abbrev pub key : Schedule → ℕ
key x = x.id

-- What a round makes of a schedule.
unfoldable pub after_round : Zone → ℕ → Schedule → Schedule
after_round zone at x =
    if is_due x at
    then elim (next_run_of zone x.cron at) [ ok next ↦ stamped x at next | raise e ↦ x ]
    else x

abbrev pub Parses : List Schedule → Type 0
Parses xs = All (λ x. (spec : CronSpec) × (parse_cron x.cron ≡ ok spec)) xs

due_after :
    (zone : Zone) (x : Schedule) (at : ℕ) (spec : CronSpec)
    → is_due x at ≡ true
    → parse_cron x.cron ≡ ok spec
    → after_round zone at x ≡ stamped x at (next_run zone spec at)
unfolding after_round next_run_of
due_after zone x at spec due parses = rw (due, parses, ◌>>=◌) refl

early_after :
    (zone : Zone) (x : Schedule) (at : ℕ) → is_due x at ≡ false → after_round zone at x ≡ x
unfolding after_round
early_after zone x at early = rw early refl

pub after_round-Fate :
    (zone : Zone) (x : Schedule) (at : ℕ) (spec : CronSpec)
    → parse_cron x.cron ≡ ok spec
    → Fate zone at x (after_round zone at x)
after_round-Fate zone x at spec parses = elim (is_due-cases x at) [
  | inl (due, come) ↦ inl (come, spec, parses, due_after zone x at spec due parses)
  | inr (early, never) ↦ inr (never, early_after zone x at early)
]

module _ (zone : Zone) (launcher : Launcher) where
  pub fire_parsed :
      (h : Host) (s : Scheduler) (x : Schedule) (at : ℕ) (spec : CronSpec)
      → parse_cron x.cron ≡ ok spec
      → ((fire zone launcher h s x at).result ≡ ok (stamped x at (next_run zone spec at)))
        × ((fire zone launcher h s x at).scheduler ≡ record s {
          schedules = modify s.schedules x.id (λ y. stamped y at (next_run zone spec at));
        })
  unfolding fire next_run_of
  fire_parsed h s x at spec e = (rw (e, fire) refl, rw (e, fire) refl)

  skipped :
      (h : Host) (s : Scheduler) (x : Schedule) (xs : List Schedule) (at : ℕ)
      → is_due x at ≡ false
      → fire_due zone launcher h s (x ∷ xs) at ≡ fire_due zone launcher h s xs at
  unfolding fire_due
  skipped h s x xs at early = rw early refl

  -- The catalogue once this schedule has fired.
  abbrev after_fire : Scheduler → Schedule → ℕ → CronSpec → Scheduler
  after_fire s x at spec = record s {
    schedules = modify s.schedules x.id (λ y. stamped y at (next_run zone spec at));
  }

  taken :
      (h : Host) (s : Scheduler) (x : Schedule) (xs : List Schedule) (at : ℕ) (spec : CronSpec)
      → is_due x at ≡ true
      → parse_cron x.cron ≡ ok spec
      → fire_due zone launcher h s (x ∷ xs) at
        ≡ fire_due zone launcher (fire zone launcher h s x at).host (after_fire s x at spec) xs at
  unfolding fire_due
  taken h s x xs at spec due parses =
      let (result, scheduler) = fire_parsed h s x at spec parses in rw (due, result, scheduler) refl

  -- Looking up an id after the first of the listed schedules was handled.
  one_more :
      (at : ℕ) (d e : Dict ℕ Schedule) (x : Schedule) (xs : List Schedule) (id : ℕ)
      → listed key x.id xs ≡ false
      → get d x.id ≡ some x
      → get e id ≡ (if nat_eq x.id id then some (after_round zone at x) else get d id)
      → (if listed key id xs then Option.map (after_round zone at) (get e id) else get e id)
        ≡ (if listed key id (x ∷ xs) then Option.map (after_round zone at) (get d id) else get d id)
  one_more at d e x xs id once there changed = elim (Bool-cases (nat_eq x.id id)) [
    | inl same ↦
        let q = (nat_eq_iff x.id id).0 same in
        rw (changed, same, ap (λ k. listed key k xs) (sym q) ∙ once, ap (get d) (sym q) ∙ there)
          refl
    | inr other ↦ rw (changed, other) refl
  ]

  -- What a pass over some of the schedules does.
  pub record Passed (h : Host) (s : Scheduler) (xs : List Schedule) (at : ℕ) (o : Outcome Unit)
      : Type 0 where
    pub succeeds : o.result ≡ ok tt
    pub updates :
        (id : ℕ)
        → get o.scheduler.schedules id ≡ (
            if listed key id xs
            then Option.map (after_round zone at) (get s.schedules id)
            else get s.schedules id)
    pub fires : Fires launcher s.node at h xs o.host
    pub sound : IsSound o.scheduler

  pub passed :
      (h : Host) (s : Scheduler) (xs : List Schedule) (at : ℕ)
      → IsSound s
      → AllOnce key xs
      → Stored key s.schedules xs
      → Parses xs
      → Passed h s xs at (fire_due zone launcher h s xs at)
  unfolding fire_due
  passed h s [] at v u t p = record {
    succeeds = refl;
    updates = λ id. refl;
    fires = refl;
    sound = v;
  }
  passed h s (x ∷ xs) at v u t p = elim (Bool-cases (is_due x at)) [
    | inr early ↦
        let rest = passed h s xs at v u.1 t.1 p.1 in
        subst (Passed h s (x ∷ xs) at) (sym (skipped h s x xs at early)) (record {
          succeeds = rest.succeeds;
          updates = λ id.
              rest.updates id
              ∙ one_more at s.schedules s.schedules x xs id u.0 t.0 (unchanged id early);
          fires = inr (not_due early, rest.fires);
          sound = rest.sound;
        })
    | inl due ↦
        let s' = after_fire s x at p.0.0 in
        let rest =
          passed (fire zone launcher h s x at).host s' xs at (fired_sound p.0.0) u.1
            (Stored-changed key s.schedules s'.schedules x.id xs
              (λ j ne. rw ne at (
                get-modify s.schedules x.id j
                  (λ (y : Schedule). stamped y at (next_run zone p.0.0 at))))
              u.0 t.1)
            p.1 in
        subst (Passed h s (x ∷ xs) at) (sym (taken h s x xs at p.0.0 due p.0.1)) (record {
          succeeds = rest.succeeds;
          updates = λ id.
              rest.updates id
              ∙ one_more at s.schedules s'.schedules x xs id u.0 t.0 (changed id p.0.0 due p.0.1);
          fires = inl (
            come due,
            (fire zone launcher h s x at).host,
            fire-Fired zone launcher h s x at p.0.0 p.0.1,
            rest.fires,
          );
          sound = rest.sound;
        })
  ]
    where
      come : is_due x at ≡ true → IsDue x at
      come due = elim (is_due-cases x at) [
        | inl (is, d) ↦ d
        | inr (isnt, never) ↦ absurd (cc (due, isnt))
      ]

      not_due : is_due x at ≡ false → ¬ IsDue x at
      not_due early = elim (is_due-cases x at) [
        | inl (is, d) ↦ absurd (cc (early, is))
        | inr (isnt, never) ↦ never
      ]

      unchanged :
          (id : ℕ)
          → is_due x at ≡ false
          → get s.schedules id
            ≡ (if nat_eq x.id id then some (after_round zone at x) else get s.schedules id)
      unchanged id early = elim (Bool-cases (nat_eq x.id id)) [
        | inl same ↦
            rw (same, early_after zone x at early)
              (ap (get s.schedules) (sym ((nat_eq_iff x.id id).0 same)) ∙ t.0)
        | inr other ↦ rw other refl
      ]

      fired_sound : (spec : CronSpec) → IsSound (after_fire s x at spec)
      fired_sound spec = record {
        unique = modify-IsDict s.schedules x.id _ v.unique;
        entries =
            modify-AllEntries IsEntry s.schedules x.id _ v.entries
              (stamped-IsEntry at (next_run zone spec at));
      }

      changed :
          (id : ℕ) (spec : CronSpec)
          → is_due x at ≡ true
          → parse_cron x.cron ≡ ok spec
          → get (after_fire s x at spec).schedules id
            ≡ (if nat_eq x.id id then some (after_round zone at x) else get s.schedules id)
      changed id spec due parses =
          get-modify s.schedules x.id id _ ∙ elim (Bool-cases (nat_eq x.id id)) [
            | inl same ↦
                rw
                  (
                    same,
                    due_after zone x at spec due parses,
                    ap (get s.schedules) (sym ((nat_eq_iff x.id id).0 same)) ∙ t.0,
                  )
                  refl
            | inr other ↦ rw other refl
          ]
