-- ===== src/Scheduler/Cron/Times.antt =====
-- What the loops over the hours and the minutes of a day find in `next_fire` of
-- src/prodeo/scheduler/cron.py.
use command_center.Base.{
  ℕ, ◌≤◌, ◌<◌, Option, some, List, [], ◌∷◌, true, false, nat_eq, nat_eq_iff, All, ◌≡◌, refl, ap,
  sym, ◌∙◌, Bool-cases, Option-cases, inl, inr, arith, some_inj,
}
use command_center.Scheduler.Cron.{
  CronSpec, Wall, member, instant, at, matches_day, skips_hour, skips_minute, fires, minutes_loop,
  hours_loop,
}

abbrev pub Ascending : List ℕ → Type 0
Ascending [] = Unit {0}
Ascending (k ∷ ks) = All (λ j. k < j) ks × Ascending ks

-- A whole minute that the expression names.
pub record Matches (spec : CronSpec) (w : Wall) : Type 0 where
  pub day_matches : matches_day spec w.day ≡ true
  pub hour_in : member w.hour spec.hours ≡ true
  pub minute_in : member w.minute spec.minutes ≡ true
  pub whole : w.micros ≡ 0

-- What parsing ensures of the two lists that are searched.
pub record IsSearchable (spec : CronSpec) : Type 0 where
  pub hours_ascend : Ascending spec.hours
  pub hours_bounded : All (λ h. h < 24) spec.hours
  pub minutes_ascend : Ascending spec.minutes
  pub minutes_bounded : All (λ m. m < 60) spec.minutes

-- A time on the clock.
pub record IsWall (w : Wall) : Type 0 where
  pub hour_bound : w.hour < 24
  pub minute_bound : w.minute < 60
  pub micros_bound : w.micros < 60000000

-- A fire that is found, no later than this one.
pub record NotAfter (o : Option Wall) (w : Wall) : Type 0 where
  pub fire : Wall
  pub found : o ≡ some fire
  pub not_after : instant fire ≤ instant w

pub All_member : (P : ℕ → Type 0) (ns : List ℕ) (n : ℕ) → All P ns → member n ns ≡ true → P n
All_member P [] n all e = absurd (cc e)
All_member P (k ∷ ks) n all e = elim (Bool-cases (nat_eq k n)) [
  | inl same ↦ subst_P P k n ((nat_eq_iff k n).0 same) all.0
  | inr other ↦ All_member P ks n all.1 (rw other at e)
]
  where
    subst_P : (P : ℕ → Type 0) (a b : ℕ) → a ≡ b → P a → P b
    subst_P P a b e p = rw⁻¹ e p

in_head : (k : ℕ) (ks : List ℕ) → member k (k ∷ ks) ≡ true
in_head k ks = rw ((nat_eq_iff k k).1 refl) refl

in_tail : (n k : ℕ) (ks : List ℕ) → member n ks ≡ true → member n (k ∷ ks) ≡ true
in_tail n k ks e = ground (arith, e)

module _ (local candidate : Wall) (day : ℕ) where
  minutes_found :
      (hour : ℕ) (ms : List ℕ) (f : Wall)
      → minutes_loop local candidate day hour ms ≡ some f
      → (m : ℕ) × (member m ms ≡ true)
        × (f ≡ at day hour m)
        × (fires local candidate day hour m ≡ true)
  unfolding minutes_loop
  minutes_found hour [] f e = absurd (cc e)
  minutes_found hour (k ∷ ks) f e = elim (Bool-cases (skips_minute local candidate day hour k)) [
    | inl skip ↦
        let (m, i, at_m, fire) = minutes_found hour ks f (rw skip at e) in
        (m, in_tail m k ks i, at_m, fire)
    | inr go ↦ elim (Bool-cases (fires local candidate day hour k)) [
      | inl fire ↦ (k, in_head k ks, sym (some_inj (rw (go, fire) at e)), fire)
      | inr past ↦
          let (m, i, at_m, fire) = minutes_found hour ks f (rw (go, past) at e) in
          (m, in_tail m k ks i, at_m, fire)
    ]
  ]

  minutes_least :
      (hour : ℕ) (ms : List ℕ) (m : ℕ)
      → Ascending ms
      → member m ms ≡ true
      → skips_minute local candidate day hour m ≡ false
      → fires local candidate day hour m ≡ true
      → (k : ℕ) × (minutes_loop local candidate day hour ms ≡ some (at day hour k)) × (k ≤ m)
  unfolding minutes_loop
  minutes_least hour [] m asc e s f = absurd (cc e)
  minutes_least hour (k ∷ ks) m asc e s f = elim (Bool-cases (nat_eq k m)) [
    | inl same ↦
        let q = (nat_eq_iff k m).0 same in
        (
          k,
          rw
              (
                ap (skips_minute local candidate day hour) q ∙ s,
                ap (fires local candidate day hour) q ∙ f,
              )
              refl,
          omega (arith, q),
        )
    | inr other ↦
        let i = rw other at e in
        let (j, found, le) = minutes_least hour ks m asc.1 i s f in
        elim (Bool-cases (skips_minute local candidate day hour k)) [
          | inl skip ↦ (j, rw skip found, le)
          | inr go ↦ elim (Bool-cases (fires local candidate day hour k)) [
            | inl fire ↦
                (k, rw (go, fire) refl, omega (arith, All_member (λ x. k < x) ks m asc.0 i))
            | inr past ↦ (j, rw (go, past) found, le)
          ]
        ]
  ]

  pub record Found (hours minutes : List ℕ) (f : Wall) : Type 0 where
    pub found_hour : ℕ
    pub found_minute : ℕ
    pub hour_member : member found_hour hours ≡ true
    pub minute_member : member found_minute minutes ≡ true
    pub is_at : f ≡ at day found_hour found_minute
    pub later : fires local candidate day found_hour found_minute ≡ true

  pub hours-Found :
      (hs ms : List ℕ) (f : Wall) → hours_loop local candidate day hs ms ≡ some f → Found hs ms f
  unfolding hours_loop
  hours-Found [] ms f e = absurd (cc e)
  hours-Found (h ∷ hs) ms f e = elim (Bool-cases (skips_hour local candidate day h)) [
    | inl skip ↦ in_rest (hours-Found hs ms f (rw skip at e))
    | inr go ↦ elim (Option-cases (minutes_loop local candidate day h ms)) [
      | inl nothing ↦ in_rest (hours-Found hs ms f (rw (go, nothing) at e))
      | inr (g, found) ↦
          let (m, i, at_m, fire) = minutes_found h ms g found in
          record {
            found_hour = h;
            found_minute = m;
            hour_member = in_head h hs;
            minute_member = i;
            is_at = sym (some_inj (rw (go, found) at e)) ∙ at_m;
            later = fire;
          }
    ]
  ]
    where
      in_rest : Found hs ms f → Found (h ∷ hs) ms f
      in_rest r = record {
        found_hour = r.found_hour;
        found_minute = r.found_minute;
        hour_member = in_tail r.found_hour h hs r.hour_member;
        minute_member = r.minute_member;
        is_at = r.is_at;
        later = r.later;
      }

  pub hours_least :
      (hs ms : List ℕ) (h m : ℕ)
      → Ascending hs
      → Ascending ms
      → All (λ x. x < 60) ms
      → member h hs ≡ true
      → member m ms ≡ true
      → skips_hour local candidate day h ≡ false
      → skips_minute local candidate day h m ≡ false
      → fires local candidate day h m ≡ true
      → NotAfter (hours_loop local candidate day hs ms) (at day h m)
  unfolding hours_loop
  hours_least [] ms h m ah am bm e em sh sm f = absurd (cc e)
  hours_least (k ∷ ks) ms h m ah am bm e em sh sm f = elim (Bool-cases (nat_eq k h)) [
    | inl same ↦
        let q = (nat_eq_iff k h).0 same in
        let (j, found, le) = minutes_least h ms m am em sm f in
        record {
          fire = at day h j;
          found =
              rw
                (
                  ap (skips_hour local candidate day) q ∙ sh,
                  ap (λ x. minutes_loop local candidate day x ms) q ∙ found,
                )
                refl;
          not_after = omega (arith, le);
        }
    | inr other ↦
        let i = rw other at e in
        let rest = hours_least ks ms h m ah.1 am bm i em sh sm f in
        elim (Bool-cases (skips_hour local candidate day k)) [
          | inl skip ↦ record {
            fire = rest.fire;
            found = rw skip rest.found;
            not_after = rest.not_after;
          }
          | inr go ↦ elim (Option-cases (minutes_loop local candidate day k ms)) [
            | inl nothing ↦ record {
              fire = rest.fire;
              found = rw (go, nothing) rest.found;
              not_after = rest.not_after;
            }
            | inr (g, found) ↦
                let (j, j_in, at_j, fire) = minutes_found k ms g found in
                record {
                  fire = at day k j;
                  found = rw (go, found) (ap some at_j);
                  not_after = omega (
                    arith,
                    All_member (λ x. k < x) ks h ah.0 i,
                    All_member (λ x. x < 60) ms j bm j_in,
                  );
                }
          ]
        ]
  ]
