-- ===== src/Scheduler/Cron/Next.antt =====
-- What `next_fire` of src/prodeo/scheduler/cron.py finds: the first match after the given time.
use command_center.Base.{
  ℕ, zero, suc, ◌+◌, ◌≤◌, ◌<◌, Option, some, false, nat_eq, nat_eq_iff, ◌≡◌, refl, ap, sym, ◌∙◌,
  Bool-cases, Option-cases, inl, inr, arith, some_inj,
}
use command_center.Scheduler.Cron.{
  CronSpec, Wall, instant, at, matches_day, next_minute, skips_hour, skips_minute, hours_loop,
  days_loop, search_limit_days, next_fire,
}
use command_center.Scheduler.Cron.Times.{
  Matches, IsSearchable, IsWall, NotAfter, All_member, hours-Found, hours_least,
}

module _ (local : Wall) (v : IsWall local) (day hour minute : ℕ) (hb : hour < 24) (mb : minute < 60)
    (after : instant local < instant (at day hour minute)) where
  no_earlier_day : (next_minute local).day ≤ day
  unfolding next_minute
  no_earlier_day = ground (arith, v.hour_bound, v.minute_bound, v.micros_bound)

  no_skipped_hour : skips_hour local (next_minute local) day hour ≡ false
  unfolding next_minute
  no_skipped_hour = ground (arith, v.hour_bound, v.minute_bound, v.micros_bound)

  no_skipped_minute : skips_minute local (next_minute local) day hour minute ≡ false
  unfolding next_minute
  no_skipped_minute = ground (arith, v.hour_bound, v.minute_bound, v.micros_bound)

module _ (spec : CronSpec) (local : Wall) where
  -- The days loop from a day on.
  abbrev from : ℕ → ℕ → Option Wall
  from offsets day = days_loop spec local (next_minute local) offsets day

  days_found :
      (offsets day : ℕ) (f : Wall)
      → from offsets day ≡ some f
      → Matches spec f × (instant local < instant f)
  unfolding days_loop
  days_found zero day f e = absurd (cc e)
  days_found (suc offsets) day f e = elim (Bool-cases (matches_day spec day)) [
    | inr unfit ↦ days_found offsets (day + 1) f (rw (unfit, days_loop) at e)
    | inl fits ↦
        elim (Option-cases (hours_loop local (next_minute local) day spec.hours spec.minutes)) [
          | inl nothing ↦ days_found offsets (day + 1) f (rw (fits, days_loop, nothing) at e)
          | inr (g, found) ↦
              let x = hours-Found local (next_minute local) day spec.hours spec.minutes g found in
              let q = sym (some_inj (rw (fits, days_loop, found) at e)) ∙ x.is_at in
              rw q (
                record {
                  day_matches = fits;
                  hour_in = x.hour_member;
                  minute_in = x.minute_member;
                  whole = refl;
                },
                ground (arith, x.later),
              )
        ]
  ]

  days_least :
      (offsets day d h m : ℕ)
      → IsSearchable spec
      → IsWall local
      → Matches spec (at d h m)
      → instant local < instant (at d h m)
      → day ≤ d
      → d < day + offsets
      → NotAfter (from offsets day) (at d h m)
  unfolding days_loop
  days_least zero day d h m v w x a lo hi = absurd (omega arith)
  days_least (suc offsets) day d h m v w x a lo hi =
      let hb = All_member (λ x. x < 24) spec.hours h v.hours_bounded x.hour_in in
      let mb = All_member (λ x. x < 60) spec.minutes m v.minutes_bounded x.minute_in in
      elim (Bool-cases (nat_eq day d)) [
        | inl same ↦
            let q = (nat_eq_iff day d).0 same in
            let least =
              hours_least local (next_minute local) d spec.hours spec.minutes h m v.hours_ascend
                v.minutes_ascend v.minutes_bounded x.hour_in x.minute_in
                (no_skipped_hour local w d h m hb mb a) (no_skipped_minute local w d h m hb mb a)
                (ground (arith, a)) in
            record {
              fire = least.fire;
              found =
                  rw
                    (
                      ap (matches_day spec) q ∙ x.day_matches,
                      days_loop,
                      ap (λ y. hours_loop local (next_minute local) y spec.hours spec.minutes) q
                          ∙ least.found,
                    )
                    refl;
              not_after = least.not_after;
            }
        | inr other ↦
            let up : day + 1 ≤ d = ground (arith, nat_eq_iff day d, lo) in
            let rest = days_least offsets (day + 1) d h m v w x a up (omega (arith, hi)) in
            elim (Bool-cases (matches_day spec day)) [
              | inr unfit ↦ record {
                fire = rest.fire;
                found = rw (unfit, days_loop) rest.found;
                not_after = rest.not_after;
              }
              | inl fits ↦
                  elim (Option-cases
                    (hours_loop local (next_minute local) day spec.hours spec.minutes)) [
                      | inl nothing ↦ record {
                        fire = rest.fire;
                        found = rw (fits, days_loop, nothing) rest.found;
                        not_after = rest.not_after;
                      }
                      | inr (g, found) ↦
                          let y =
                            hours-Found local (next_minute local) day spec.hours spec.minutes g
                              found in
                          record {
                            fire = at day y.found_hour y.found_minute;
                            found = rw (fits, days_loop, found) (ap some y.is_at);
                            not_after = omega (
                              arith,
                              up,
                              All_member (λ x. x < 24) spec.hours y.found_hour v.hours_bounded
                                  y.hour_member,
                              All_member (λ x. x < 60) spec.minutes y.found_minute v.minutes_bounded
                                  y.minute_member,
                            );
                          }
                    ]
            ]
      ]

next_minute_day : (w : Wall) → w.day ≤ (next_minute w).day
unfolding next_minute
next_minute_day w = ground arith

-- What `next_fire` returns is a whole minute that the expression names, strictly after the given time.
pub next_fire-Matches :
    (spec : CronSpec) (local fire : Wall)
    → next_fire spec local ≡ some fire
    → Matches spec fire × (instant local < instant fire)
unfolding next_fire
next_fire-Matches spec local fire e =
    days_found spec local search_limit_days (next_minute local).day fire e

-- `next_fire` misses nothing: for each time that the expression names, after the given time and within
-- the search limit, it returns one that is not later. So it returns the first there is, and returns
-- none only if there is none within the limit.
pub next_fire_first :
    (spec : CronSpec) (local w : Wall)
    → IsSearchable spec
    → IsWall local
    → Matches spec w
    → instant local < instant w
    → w.day < local.day + search_limit_days
    → NotAfter (next_fire spec local) w
unfolding next_fire
next_fire_first spec local w v lv x a hi =
    let least =
      days_least spec local search_limit_days (next_minute local).day w.day w.hour w.minute v lv
        (record {
          day_matches = x.day_matches;
          hour_in = x.hour_in;
          minute_in = x.minute_in;
          whole = refl;
        })
        (omega (arith, a, x.whole))
        (no_earlier_day local lv w.day w.hour w.minute
          (All_member (λ h. h < 24) spec.hours w.hour v.hours_bounded x.hour_in)
          (All_member (λ m. m < 60) spec.minutes w.minute v.minutes_bounded x.minute_in)
          (omega (arith, a, x.whole)))
        (omega (arith, hi, next_minute_day local)) in
    record {
      fire = least.fire;
      found = least.found;
      not_after = omega (arith, least.not_after, x.whole);
    }
