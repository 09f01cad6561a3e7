-- ===== src/Mediation/Service/Sound.antt =====
-- The invariant of src/prodeo/mediation/service.py: the index of pending interactions is exact, and no
-- callback is awaited twice for one interaction.
use command_center.Base.{
  ℕ, ◌+◌, ◌≤◌, String, Option, none, some, List, [], ◌∷◌, ◌++◌, true, false, if◌then◌else◌, ◌==◌,
  string_Eq, pair_Eq, nat_Eq, nat_eq, nat_eq_iff, pair_eq_iff, ◌≡◌, ap, sym, ◌∙◌, arith, Bool-cases,
  inl, inr, some_inj,
}
use command_center.Base.Dict.{get, get-put, get-pop, get-pop-some, get-put-some, get-put_ne}
use command_center.Mediation.Model.{Interaction, is_pending}
use command_center.Mediation.Service.{Mediation, Delivery, native_key, resolve, with_deliveries}

-- How often a callback was awaited for the interaction.
abbrev pub times : ℕ → List Delivery → ℕ
times id [] = 0
times id (d ∷ ds) = (if nat_eq d.interaction.id id then 1 else 0) + times id ds

pub record IsPendingAt (m : Mediation) (k : String × String) (id : ℕ) : Type 0 where
  pub held : Interaction
  pub found : get m.by_id id ≡ some held
  pub waits : is_pending held.status ≡ true
  pub key : native_key held ≡ k

pub record IsSound (m : Mediation) : Type 0 where
  pub keyed : (id : ℕ) (i : Interaction) → get m.by_id id ≡ some i → i.id ≡ id
  pub indexed :
      (k : String × String) (id : ℕ) → get m.pending_by_native k ≡ some id → IsPendingAt m k id
  pub complete :
      (id : ℕ) (i : Interaction)
      → get m.by_id id ≡ some i
      → is_pending i.status ≡ true
      → get m.pending_by_native (native_key i) ≡ some id
  pub unsent :
      (id : ℕ) (i : Interaction)
      → get m.by_id id ≡ some i
      → is_pending i.status ≡ true
      → times id m.delivered ≡ 0
  pub unknown : (id : ℕ) → get m.by_id id ≡ none → times id m.delivered ≡ 0
  pub once : (id : ℕ) → times id m.delivered ≤ 1

times-append : (id : ℕ) (xs ys : List Delivery) → times id (xs ++ ys) ≡ times id xs + times id ys
times-append id [] ys = omega arith
times-append id (x ∷ xs) ys = omega (arith, times-append id xs ys)

pub same_some : {A : Type 0} {o : Option A} {a b : A} → o ≡ some a → o ≡ some b → a ≡ b
same_some p q = some_inj (sym p ∙ q)

-- The pending interaction at `id` is replaced by its resolved form, with at most one delivery for it.
module _ (m : Mediation) (v : IsSound m) (id : ℕ) (i i' : Interaction) (ds : List Delivery)
    (found : get m.by_id id ≡ some i) (waits : is_pending i.status ≡ true) (same_id : i'.id ≡ i.id)
    (same_key : native_key i' ≡ native_key i) (done : is_pending i'.status ≡ false)
    (few : (j : ℕ) → times j ds ≤ (if nat_eq id j then 1 else 0)) where
  abbrev pub after : Mediation
  after = with_deliveries (resolve m id i') ds

  keyed_after : (j : ℕ) (x : Interaction) → get after.by_id j ≡ some x → x.id ≡ j
  unfolding resolve
  keyed_after j x h =
      ground (arith, get-put m.by_id id j i', nat_eq_iff id j, v.keyed j x, v.keyed id i found)

  -- No other pending interaction has the native key.
  other_key :
      (j : ℕ) (x : Interaction)
      → get m.by_id j ≡ some x
      → is_pending x.status ≡ true
      → native_key x ≡ native_key i
      → j ≡ id
  other_key j x there px e =
      same_some (rw (← e) (v.complete j x there px)) (v.complete id i found waits)

  indexed_after :
      (k : String × String) (j : ℕ) → get after.pending_by_native k ≡ some j → IsPendingAt after k j
  unfolding resolve
  indexed_after k j h =
      let (apart, before) = get-pop-some m.pending_by_native (native_key i') k h in
      let p = v.indexed k j before in
      elim (Bool-cases (nat_eq id j)) [
        | inl e ↦ absurd (
            cc (
              apart,
              (pair_eq_iff (native_key i') k).1 (
                  same_key
                  ∙ (ap native_key
                        (same_some found (ap (get m.by_id) ((nat_eq_iff id j).0 e) ∙ p.found))
                      ∙ p.key)),
            ))
        | inr e ↦ record {
          held = p.held;
          found = get-put_ne m.by_id id j i' e ∙ p.found;
          waits = p.waits;
          key = p.key;
        }
      ]

  complete_after :
      (j : ℕ) (x : Interaction)
      → get after.by_id j ≡ some x
      → is_pending x.status ≡ true
      → get after.pending_by_native (native_key x) ≡ some j
  unfolding resolve
  complete_after j x h px = elim (get-put-some m.by_id id j i' h) [
    | inl (e, f) ↦ absurd (cc (ap (λ (y : Interaction). is_pending y.status) f, px, done))
    | inr (e, before) ↦ elim (Bool-cases (native_key i' == native_key x)) [
      | inl same ↦ absurd (
          cc (
            e,
            (nat_eq_iff id j).1 (
                sym (
                  other_key j x before px
                    (sym ((pair_eq_iff (native_key i') (native_key x)).0 same) ∙ same_key))),
          ))
      | inr apart ↦
          get-pop m.pending_by_native (native_key i') (native_key x)
          ∙ rw apart (v.complete j x before px)
    ]
  ]

  counted_after : (j : ℕ) → times j after.delivered ≡ times j m.delivered + times j ds
  unfolding resolve
  counted_after j = times-append j m.delivered ds

  pub resolve-IsSound : IsSound after
  unfolding resolve
  resolve-IsSound = record {
    keyed = keyed_after;
    indexed = indexed_after;
    complete = complete_after;
    unsent = λ j x h px. elim (get-put-some m.by_id id j i' h) [
      | inl (e, f) ↦ absurd (cc (ap (λ (y : Interaction). is_pending y.status) f, px, done))
      | inr (e, before) ↦ ground (arith, counted_after j, few j, v.unsent j x before px)
    ];
    unknown = λ j h. ground (arith, counted_after j, few j, get-put m.by_id id j i', v.unknown j);
    once = λ j.
        ground
          (arith, counted_after j, few j, v.once j, nat_eq_iff id j, v.unsent id i found waits);
  }
