-- ===== src/Scheduler/Cron/Parsed.antt =====
-- What `parse_cron` of src/prodeo/scheduler/cron.py accepts, and the bounds of each field.
use command_center.Base.{
  ℕ, ◌+◌, ◌≤◌, ◌<◌, String, List, [], ◌∷◌, false, nat_eq, nat_eq_iff, All, length, ok, bind_ok,
  ok_inj, ◌≡◌, Bool-cases, inl, inr, arith, subst,
}
use command_center.Base.Text.{Text}
use command_center.Scheduler.Cron.{
  CronSpec, member, set_add, set_remove, parse_field, sunday, parse_fields, parse_cron, month_names,
  dow_names,
}
use command_center.Scheduler.Cron.Times.{Ascending, IsSearchable}
use command_center.Scheduler.Cron.Fields.{
  InField, set_add-All, set_add-Ascending, parse_field-InField,
}

set_remove-All :
    (P : ℕ → Type 0) (n : ℕ) (ns : List ℕ)
    → All P ns
    → All (λ k. P k × (k ≡ n → ⊥)) (set_remove n ns)
unfolding set_remove
set_remove-All P n [] all = tt
set_remove-All P n (k ∷ ks) all = elim (Bool-cases (nat_eq k n)) [
  | inl same ↦ rw same (set_remove-All P n ks all.1)
  | inr other ↦
      rw other ((all.0, λ e. ground (arith, nat_eq_iff k n, e, other)), set_remove-All P n ks all.1)
]

weaken_above : (n k : ℕ) (ks : List ℕ) → All (λ j. k < j) ks → All (λ j. k < j) (set_remove n ks)
unfolding set_remove
weaken_above n k [] all = tt
weaken_above n k (j ∷ ks) all = elim (Bool-cases (nat_eq j n)) [
  | inl same ↦ rw same (weaken_above n k ks all.1)
  | inr other ↦ rw other (all.0, weaken_above n k ks all.1)
]

set_remove-Ascending : (n : ℕ) (ns : List ℕ) → Ascending ns → Ascending (set_remove n ns)
unfolding set_remove
set_remove-Ascending n [] a = tt
set_remove-Ascending n (k ∷ ks) a = elim (Bool-cases (nat_eq k n)) [
  | inl same ↦ rw same (set_remove-Ascending n ks a.1)
  | inr other ↦ rw other (weaken_above n k ks a.0, set_remove-Ascending n ks a.1)
]

no_seven :
    (ns : List ℕ)
    → member 7 ns ≡ false
    → All (λ n. (0 ≤ n) × (n ≤ 7)) ns
    → All (λ n. (0 ≤ n) × (n ≤ 6)) ns
no_seven [] e all = tt
no_seven (k ∷ ks) e all = elim (Bool-cases (nat_eq k 7)) [
  | inl seven ↦ absurd (cc (rw seven at e))
  | inr other ↦ (
    (omega arith, ground (arith, nat_eq_iff k 7, other, all.0)),
    no_seven ks (rw other at e) all.1,
  )
]

six :
    (ns : List ℕ)
    → All (λ n. ((0 ≤ n) × (n ≤ 7)) × (n ≡ 7 → ⊥)) ns
    → All (λ n. (0 ≤ n) × (n ≤ 6)) ns
six [] all = tt
six (k ∷ ks) all = ((omega arith, ground (arith, all.0)), six ks all.1)

sunday-InField : (ns : List ℕ) → InField 0 7 ns → InField 0 6 (sunday ns)
unfolding sunday
sunday-InField ns v = elim (Bool-cases (member 7 ns)) [
  | inl seven ↦ rw seven (record {
    ascends = set_remove-Ascending 7 (set_add 0 ns) (set_add-Ascending 0 ns v.ascends);
    bounded = six (set_remove 7 (set_add 0 ns)) (
        set_remove-All (λ n. (0 ≤ n) × (n ≤ 7)) 7 (set_add 0 ns)
          (set_add-All (λ n. (0 ≤ n) × (n ≤ 7)) 0 ns (omega arith, omega arith) v.bounded));
  })
  | inr other ↦ rw other (record { ascends = v.ascends; bounded = no_seven ns other v.bounded })
]

-- Each field has its values in ascending order and within its bounds; Sunday is only 0. Of the minutes
-- and the hours there is at least one.
pub record IsParsed (spec : CronSpec) : Type 0 where
  pub minutes : InField 0 59 spec.minutes
  pub hours : InField 0 23 spec.hours
  pub days_of_month : InField 1 31 spec.days_of_month
  pub months : InField 1 12 spec.months
  pub days_of_week : InField 0 6 spec.days_of_week
  pub some_minute : 1 ≤ length spec.minutes
  pub some_hour : 1 ≤ length spec.hours

parse_fields-IsParsed :
    (expression : String) (fields : List Text) (spec : CronSpec)
    → parse_fields expression fields ≡ ok spec
    → IsParsed spec
unfolding parse_fields
parse_fields-IsParsed expression (f0 ∷ f1 ∷ f2 ∷ f3 ∷ f4 ∷ []) spec e =
    let (minutes, h0, e0) = bind_ok (parse_field f0 0 59 []) _ spec e in
    let (hours, h1, e1) = bind_ok (parse_field f1 0 23 []) _ spec e0 in
    let (dom, h2, e2) = bind_ok (parse_field f2 1 31 []) _ spec e1 in
    let (months, h3, e3) = bind_ok (parse_field f3 1 12 month_names) _ spec e2 in
    let (dow, h4, e4) = bind_ok (parse_field f4 0 7 dow_names) _ spec e3 in
    let m = parse_field-InField 0 59 f0 [] minutes h0 in
    let h = parse_field-InField 0 23 f1 [] hours h1 in
    subst IsParsed (ok_inj e4) (record {
      minutes = m.0;
      hours = h.0;
      days_of_month = (parse_field-InField 1 31 f2 [] dom h2).0;
      months = (parse_field-InField 1 12 f3 month_names months h3).0;
      days_of_week = sunday-InField dow (parse_field-InField 0 7 f4 dow_names dow h4).0;
      some_minute = m.1;
      some_hour = h.1;
    })
parse_fields-IsParsed expression [] spec e = absurd (cc e)
parse_fields-IsParsed expression (a ∷ []) spec e = absurd (cc e)
parse_fields-IsParsed expression (a ∷ b ∷ []) spec e = absurd (cc e)
parse_fields-IsParsed expression (a ∷ b ∷ c ∷ []) spec e = absurd (cc e)
parse_fields-IsParsed expression (a ∷ b ∷ c ∷ d ∷ []) spec e = absurd (cc e)
parse_fields-IsParsed expression (a ∷ b ∷ c ∷ d ∷ f ∷ g ∷ more) spec e = absurd (cc e)

-- Whatever text is accepted as a cron expression, each field of the result is ascending and within its
-- bounds, Sunday is only 0, and there is at least one minute and one hour.
pub parse_cron-IsParsed :
    (expression : String) (spec : CronSpec) → parse_cron expression ≡ ok spec → IsParsed spec
unfolding parse_cron
parse_cron-IsParsed expression spec e = parse_fields-IsParsed _ _ spec e

below : (n : ℕ) (ns : List ℕ) → All (λ k. (0 ≤ k) × (k ≤ n)) ns → All (λ k. k < n + 1) ns
below n [] all = tt
below n (k ∷ ks) all = (omega (arith, all.0), below n ks all.1)

pub IsParsed-IsSearchable : (spec : CronSpec) → IsParsed spec → IsSearchable spec
IsParsed-IsSearchable spec p = record {
  hours_ascend = p.hours.ascends;
  hours_bounded = below 23 spec.hours p.hours.bounded;
  minutes_ascend = p.minutes.ascends;
  minutes_bounded = below 59 spec.minutes p.minutes.bounded;
}
