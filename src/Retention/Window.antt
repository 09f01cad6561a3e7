-- ===== src/Retention/Window.antt =====
-- Rows in the order of their ids, cut at an id, and the rows that are deleted by their ids
-- (src/prodeo/persistence/retention.py).
use command_center.Base.{
  ℕ, zero, suc, ◌+◌, ◌<◌, List, [], ◌∷◌, ◌++◌, Bool, true, false, not, ◌&&◌, any, keep, length, leb,
  nat_eq, All, ◌≡◌, refl, ap, sym, ◌∙◌, arith, Bool-cases, inl, inr, subst,
}
use command_center.Events.Envelope.{Event}
use command_center.Events.Host.Ids.{IsIncreasing}
use command_center.Persistence.Store.{last}
use command_center.Persistence.Store.Paging.{first, last-All}
use command_center.Retention.{ids}

module _ (p q : Event → Bool) where
  pub keep_same_on : (es : List Event) → All (λ e. p e ≡ q e) es → keep p es ≡ keep q es
  keep_same_on [] same = refl
  keep_same_on (e ∷ es) same = ground (arith, same.0, keep_same_on es same.1)

module _ (p : Event → Bool) where
  pub length-keep_both :
      (es : List Event) → length (keep p es) + length (keep (λ e. not (p e)) es) ≡ length es
  length-keep_both [] = omega arith
  length-keep_both (e ∷ es) = ground (arith, length-keep_both es)

  -- Where nothing is chosen, all is left.
  pub keep_rest : (es : List Event) → keep p es ≡ [] → keep (λ e. not (p e)) es ≡ es
  keep_rest [] none_ = refl
  keep_rest (e ∷ es) none_ = ground (arith, keep_rest es)

  -- Beyond an id, in order, nothing is up to it.
  none_up_to :
      (n : ℕ) (es : List Event)
      → All (λ e. n < e.id) es
      → (keep (λ e. p e && leb e.id n) es ≡ [])
        × (keep (λ e. p e && not (leb e.id n)) es ≡ keep p es)
  none_up_to n [] all = (refl, refl)
  none_up_to n (e ∷ es) all = ground (arith, all.0, none_up_to n es all.1)

  above : (n k : ℕ) (es : List Event) → n < k → All (λ x. k < x.id) es → All (λ x. n < x.id) es
  above n k [] lt all = tt
  above n k (e ∷ es) lt all = (omega (arith, lt, all.0), above n k es lt all.1)

  -- What is chosen up to an id comes first.
  pub keep_cut :
      (n : ℕ) (es : List Event)
      → IsIncreasing es
      → keep p es ≡ keep (λ e. p e && leb e.id n) es ++ keep (λ e. p e && not (leb e.id n)) es
  keep_cut n [] v = refl
  keep_cut n (e ∷ es) v = elim (Bool-cases (leb e.id n)) [
    | inl low ↦ elim (Bool-cases (p e)) [
      | inl in_ ↦ rw (low, in_) (ap (λ l. e ∷ l) (keep_cut n es v.1))
      | inr out ↦ rw (low, out) (keep_cut n es v.1)
    ]
    | inr high ↦
        let beyond = none_up_to n es (above n e.id es (ground (arith, high)) v.0) in
        ground (arith, high, beyond.0, beyond.1)
  ]

  not_chosen :
      (n : ℕ) (es : List Event)
      → All (λ e. n < e.id) es
      → any (λ id. nat_eq id n) (ids (keep p es)) ≡ false
  not_chosen n [] all = refl
  not_chosen n (e ∷ es) all = ground (arith, all.0, not_chosen n es all.1)

  also_chosen :
      (r : Event) (rest es : List Event)
      → All (λ e. r.id < e.id) es
      → All (λ e. any (λ id. nat_eq id e.id) (ids rest) ≡ p e) es
      → All (λ e. any (λ id. nat_eq id e.id) (r.id ∷ ids rest) ≡ p e) es
  also_chosen r rest [] later h = tt
  also_chosen r rest (e ∷ es) later h =
      (ground (arith, later.0, h.0), also_chosen r rest es later.1 h.1)

  -- An id is among the ids of the chosen rows where its row is chosen.
  chosen :
      (es : List Event)
      → IsIncreasing es
      → All (λ e. any (λ id. nat_eq id e.id) (ids (keep p es)) ≡ p e) es
  chosen [] v = tt
  chosen (e ∷ es) v = elim (Bool-cases (p e)) [
    | inl in_ ↦
        subst (λ l. All (λ x. any (λ id. nat_eq id x.id) (ids l) ≡ p x) (e ∷ es)) (sym (taken in_))
          (ground (arith, in_), also_chosen e (keep p es) es v.0 (chosen es v.1))
    | inr out ↦
        subst (λ l. All (λ x. any (λ id. nat_eq id x.id) (ids l) ≡ p x) (e ∷ es)) (sym (left out))
          (not_chosen e.id es v.0 ∙ sym out, chosen es v.1)
  ]
    where
      taken : p e ≡ true → keep p (e ∷ es) ≡ e ∷ keep p es
      taken in_ = rw in_ refl

      left : p e ≡ false → keep p (e ∷ es) ≡ keep p es
      left out = rw out refl

  All-not :
      (q : Event → Bool) (es : List Event)
      → All (λ e. q e ≡ p e) es
      → All (λ e. not (q e) ≡ not (p e)) es
  All-not q [] h = tt
  All-not q (e ∷ es) h = (ap not h.0, All-not q es h.1)

  -- Deleting the ids of the chosen rows deletes these rows.
  pub delete_chosen :
      (es : List Event)
      → IsIncreasing es
      → keep (λ e. not (any (λ id. nat_eq id e.id) (ids (keep p es)))) es ≡ keep (λ e. not (p e)) es
  delete_chosen es v =
      keep_same_on (λ e. not (any (λ id. nat_eq id e.id) (ids (keep p es)))) (λ e. not (p e)) es
        (All-not (λ e. any (λ id. nat_eq id e.id) (ids (keep p es))) es (chosen es v))

-- The first n + 1 of an ordered list are those up to the last of them.
pub first-up_to :
    (n : ℕ) (e : Event) (es : List Event)
    → IsIncreasing (e ∷ es)
    → keep (λ x. leb x.id (last e (first n es)).id) (e ∷ es) ≡ e ∷ first n es
first-up_to zero e es v =
    let beyond = none_up_to (λ x. true) e.id es v.0 in ground (arith, beyond.0)
first-up_to (suc n) e [] v = ground arith
first-up_to (suc n) e (x ∷ xs) v =
    let low : e.id < (last x (first n xs)).id = last_above e.id n x xs v.0 in
    let in_ : leb e.id (last x (first n xs)).id ≡ true = ground (arith, low) in
    rw in_ (ap (λ l. e ∷ l) (first-up_to n x xs v.1))
  where
    last_above :
        (k m : ℕ) (y : Event) (ys : List Event)
        → All (λ x. k < x.id) (y ∷ ys)
        → k < (last y (first m ys)).id
    last_above k m y ys all = last-All (λ x. k < x.id) m y ys all
