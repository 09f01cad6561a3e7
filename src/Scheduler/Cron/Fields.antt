-- ===== src/Scheduler/Cron/Fields.antt =====
-- The fields that the parser of src/prodeo/scheduler/cron.py accepts: their order and their bounds.
use native.Mathlib.Nat.{suc-mul, div-mul-le_self}
use command_center.Base.{
  ℕ, zero, suc, ◌+◌, ◌-◌, ◌*◌, ◌/◌, ◌≤◌, ◌<◌, String, List, [], ◌∷◌, ltb, nat_eq, All, length, ok,
  bind_ok, ok_inj, ◌≡◌, Bool-cases, inl, inr, arith, subst,
}
use command_center.Base.Text.{Text, ℤ, pos, negsuc, split, partition, is_empty}
use command_center.Scheduler.Cron.{
  set_add, union, progression, range, within, parse_part, parse_parts, parse_field,
  non_empty_values, step_of, ends_of,
}
use command_center.Scheduler.Cron.Times.{Ascending}

pub record InField (lo hi : ℕ) (ns : List ℕ) : Type 0 where
  pub ascends : Ascending ns
  pub bounded : All (λ n. (lo ≤ n) × (n ≤ hi)) ns

pub set_add-All : (P : ℕ → Type 0) (n : ℕ) (ns : List ℕ) → P n → All P ns → All P (set_add n ns)
unfolding set_add
set_add-All P n [] p all = (p, tt)
set_add-All P n (k ∷ ks) p all = elim (Bool-cases (ltb n k)) [
  | inl below ↦ rw below (p, all)
  | inr above ↦ elim (Bool-cases (nat_eq n k)) [
    | inl same ↦ rw (above, same) all
    | inr other ↦ rw (above, other) (all.0, set_add-All P n ks p all.1)
  ]
]

above-All : (n k : ℕ) (ks : List ℕ) → n < k → All (λ j. k < j) ks → All (λ j. n < j) ks
above-All n k [] lt all = tt
above-All n k (j ∷ ks) lt all = (omega (arith, lt, all.0), above-All n k ks lt all.1)

pub set_add-Ascending : (n : ℕ) (ns : List ℕ) → Ascending ns → Ascending (set_add n ns)
unfolding set_add
set_add-Ascending n [] a = (tt, tt)
set_add-Ascending n (k ∷ ks) a = elim (Bool-cases (ltb n k)) [
  | inl below ↦ rw below ((ground (arith, below), above-All n k ks (ground (arith, below)) a.0), a)
  | inr above ↦ elim (Bool-cases (nat_eq n k)) [
    | inl same ↦ rw (above, same) a
    | inr other ↦
        rw (above, other)
          (
            set_add-All (λ j. k < j) n ks (ground (arith, above, other)) a.0,
            set_add-Ascending n ks a.1,
          )
  ]
]

module _ (lo hi : ℕ) where
  abbrev InBounds : ℕ → Type 0
  InBounds n = (lo ≤ n) × (n ≤ hi)

  union-InField :
      (ns ms : List ℕ) → InField lo hi ns → All InBounds ms → InField lo hi (union ns ms)
  unfolding union
  union-InField ns [] v all = v
  union-InField ns (m ∷ ms) v all =
      union-InField (set_add m ns) ms
        (record {
          ascends = set_add-Ascending m ns v.ascends;
          bounded = set_add-All InBounds m ns all.0 v.bounded;
        })
        all.1

  progression-All :
      (count start step : ℕ)
      → lo ≤ start
      → start + count * step ≤ hi + step
      → All InBounds (progression count start step)
  unfolding progression
  progression-All zero start step le up = tt
  progression-All (suc count) start step le up =
      let once = suc-mul count step in
      (
        (le, omega (arith, once, up)),
        progression-All count (start + step) step (omega (arith, le)) (omega (arith, once, up)),
      )

  range-All : (start end step : ℕ) → lo ≤ start → end ≤ hi → All InBounds (range start end step)
  unfolding range
  range-All start end step le up = elim (Bool-cases (ltb end start)) [
    | inl none_at_all ↦ rw none_at_all tt
    | inr some_there ↦ rw some_there (
        progression-All ((end - start) / step + 1) start step le (
          ground (
            arith,
            some_there,
            div-mul-le_self (end - start) step,
            suc-mul ((end - start) / step) step,
          )))
  ]

  within-All :
      (step : ℕ) (ends : ℤ × ℤ) (ns : List ℕ) → within lo hi step ends ≡ ok ns → All InBounds ns
  unfolding within
  within-All step (pos start, pos end) ns e = elim (Bool-cases (ltb start lo)) [
    | inl low ↦ absurd (cc (rw low at e))
    | inr fits ↦ elim (Bool-cases (ltb hi end)) [
      | inl high ↦ absurd (cc (rw (fits, high) at e))
      | inr below ↦
          subst (All InBounds) (ok_inj (rw (fits, below) at e))
            (range-All start end step (ground (arith, fits)) (ground (arith, below)))
    ]
  ]
  within-All step (negsuc start, end) ns e = absurd (cc e)
  within-All step (pos start, negsuc end) ns e = elim (Bool-cases (ltb start lo)) [
    | inl low ↦ absurd (cc (rw low at e))
    | inr fits ↦ subst (All InBounds) (ok_inj (rw fits at e)) tt
  ]

  parse_part-All :
      (part : Text) (names : List (String × ℕ)) (ns : List ℕ)
      → parse_part part lo hi names ≡ ok ns
      → All InBounds ns
  unfolding parse_part
  parse_part-All part names ns e = elim (Bool-cases (is_empty part)) [
    | inl empty ↦ absurd (cc (rw empty at e))
    | inr some_text ↦
        let (step, s, e1) = bind_ok (step_of (partition 47 part).1) _ ns (rw some_text at e) in
        let (ends, t, e2) =
          bind_ok (ends_of (partition 47 part).0 (partition 47 part).1 lo hi names) _ ns e1 in
        within-All step ends ns e2
  ]

  parse_parts-InField :
      (values : List ℕ) (parts : List Text) (names : List (String × ℕ)) (ns : List ℕ)
      → InField lo hi values
      → parse_parts values parts lo hi names ≡ ok ns
      → InField lo hi ns
  unfolding parse_parts
  parse_parts-InField values [] names ns v e = subst (InField lo hi) (ok_inj e) v
  parse_parts-InField values (part ∷ parts) names ns v e =
      let (more, m, e1) = bind_ok (parse_part part lo hi names) _ ns e in
      parse_parts-InField (union values more) parts names ns
        (union-InField values more v (parse_part-All part names more m)) e1

  pub parse_field-InField :
      (field : Text) (names : List (String × ℕ)) (ns : List ℕ)
      → parse_field field lo hi names ≡ ok ns
      → InField lo hi ns × (1 ≤ length ns)
  unfolding parse_field non_empty_values
  parse_field-InField field names ns e =
      let (values, v, e1) = bind_ok (parse_parts [] (split 44 field) lo hi names) _ ns e in
      kept values
        (parse_parts-InField [] (split 44 field) names values
          (record { ascends = tt; bounded = tt }) v)
        e1
    where
      kept :
          (values : List ℕ)
          → InField lo hi values
          → non_empty_values values ≡ ok ns
          → InField lo hi ns × (1 ≤ length ns)
      kept [] v e = absurd (cc e)
      kept (n ∷ values) v e =
          subst (λ ms. InField lo hi ms × (1 ≤ length ms)) (ok_inj e) (v, omega arith)
