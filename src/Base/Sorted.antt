-- ===== src/Base/Sorted.antt =====
-- `sorted(values, key=..., reverse=True)` keeps what is listed, and what holds of each.
use Prim.Native.Nat.{ℕ}
use mathlib.Core.Path.{◌≡◌, refl, ◌∙◌, ap}
use mathlib.Core.Logic.{inl, inr}
use mathlib.Core.Bool.{false, ◌||◌}
use mathlib.Core.List.{List, [], ◌∷◌}
use native.Mathlib.Omega.{arith}
use command_center.Base.Tests.{nat_eq, nat_eq_iff, leb, Bool-cases}
use command_center.Base.Lists.{All, insert_desc, sorted_desc}
use command_center.Base.Entries.{listed, AllOnce}

module _ {V : Type 0} (rank : V → ℕ) where
  insert_desc-All :
      (P : V → Type 0) (x : V) (ys : List V) → P x → All P ys → All P (insert_desc rank x ys)
  unfolding insert_desc
  insert_desc-All P x [] p all = (p, tt)
  insert_desc-All P x (y ∷ ys) p all = elim (Bool-cases (leb (rank y) (rank x))) [
    | inl first ↦ rw first (p, all)
    | inr later ↦ rw later (all.0, insert_desc-All P x ys p all.1)
  ]

  pub sorted_desc-All : (P : V → Type 0) (xs : List V) → All P xs → All P (sorted_desc rank xs)
  unfolding sorted_desc
  sorted_desc-All P [] all = tt
  sorted_desc-All P (x ∷ xs) all =
      insert_desc-All P x (sorted_desc rank xs) all.0 (sorted_desc-All P xs all.1)

  module _ (key : V → ℕ) where
    listed-insert_desc :
        (id : ℕ) (x : V) (ys : List V)
        → listed key id (insert_desc rank x ys) ≡ (nat_eq (key x) id || listed key id ys)
    unfolding insert_desc
    listed-insert_desc id x [] = refl
    listed-insert_desc id x (y ∷ ys) = ground (arith, listed-insert_desc id x ys)

    pub listed-sorted_desc :
        (id : ℕ) (xs : List V) → listed key id (sorted_desc rank xs) ≡ listed key id xs
    unfolding sorted_desc
    listed-sorted_desc id [] = refl
    listed-sorted_desc id (x ∷ xs) =
        listed-insert_desc id x (sorted_desc rank xs)
        ∙ ap (λ b. nat_eq (key x) id || b) (listed-sorted_desc id xs)

    insert_desc-AllOnce :
        (x : V) (ys : List V)
        → listed key (key x) ys ≡ false
        → AllOnce key ys
        → AllOnce key (insert_desc rank x ys)
    unfolding insert_desc
    insert_desc-AllOnce x [] new once = (refl, tt)
    insert_desc-AllOnce x (y ∷ ys) new once = elim (Bool-cases (leb (rank y) (rank x))) [
      | inl first ↦ rw first (new, once)
      | inr later ↦ rw later (
        listed-insert_desc (key y) x ys
            ∙ ground (arith, new, once.0, nat_eq_iff (key x) (key y), nat_eq_iff (key y) (key x)),
        insert_desc-AllOnce x ys (ground (arith, new)) once.1,
      )
    ]

    pub sorted_desc-AllOnce : (xs : List V) → AllOnce key xs → AllOnce key (sorted_desc rank xs)
    unfolding sorted_desc
    sorted_desc-AllOnce [] once = tt
    sorted_desc-AllOnce (x ∷ xs) once =
        insert_desc-AllOnce x (sorted_desc rank xs) (listed-sorted_desc (key x) xs ∙ once.0)
          (sorted_desc-AllOnce xs once.1)
