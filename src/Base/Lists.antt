-- ===== src/Base/Lists.antt =====
-- Lists measured by native numbers, under the library's names, and predicates on lists.
use Prim.Native.Nat.{ℕ, zero, suc, ◌+◌}
use mathlib.Core.Path.{◌≡◌, ap}
use mathlib.Core.Logic.{◌⊎◌, inl, inr}
use mathlib.Core.Bool.{Bool, true, false}
use mathlib.Core.List.{List, [], ◌∷◌, ◌++◌}
use native.Mathlib.Omega.{arith}
use mathlib.Core.Option.{Option, none, some}
use command_center.Base.Tests.{Bool-cases, leb, if◌then◌else◌}

module _ {ℓ} {A : Type ℓ} where
  abbrev pub length : List A → ℕ
  length [] = 0
  length (x ∷ xs) = suc (length xs)

  abbrev pub take : ℕ → List A → List A
  take zero xs = []
  take (suc n) [] = []
  take (suc n) (x ∷ xs) = x ∷ take n xs

  abbrev pub drop : ℕ → List A → List A
  drop zero xs = xs
  drop (suc n) [] = []
  drop (suc n) (x ∷ xs) = drop n xs

  -- `[x for x in xs if test(x)]`
  abbrev pub keep : (A → Bool) → List A → List A
  keep test [] = []
  keep test (x ∷ xs) = let rest = keep test xs in if test x then x ∷ rest else rest

  -- `any(test(x) for x in xs)`
  abbrev pub any : (A → Bool) → List A → Bool
  any test [] = false
  any test (x ∷ xs) = if test x then true else any test xs

  abbrev pub All {κ} : (A → Type κ) → List A → Type κ
  All P [] = Unit
  All P (x ∷ xs) = P x × All P xs

  pub length-append : (xs ys : List A) → length (xs ++ ys) ≡ length xs + length ys
  length-append [] ys = omega arith
  length-append (x ∷ xs) ys = omega (arith, length-append xs ys)

  pub All-append {κ} : (P : A → Type κ) (ps qs : List A) → All P ps → All P qs → All P (ps ++ qs)
  All-append P [] qs u v = v
  All-append P (p ∷ ps) qs (h, u) v = (h, All-append P ps qs u v)

  -- `next((x for x in xs if test(x)), None)`
  unfoldable pub find : (A → Bool) → List A → Option A
  find test [] = none
  find test (x ∷ xs) = let rest = find test xs in if test x then some x else rest

  -- `sorted(xs, key=key)` with a numeric key: stable, as an insertion sort from the right.
  unfoldable pub insert_by : (A → ℕ) → A → List A → List A
  insert_by key x [] = x ∷ []
  insert_by key x (y ∷ ys) =
      let rest = insert_by key x ys in if leb (key x) (key y) then x ∷ y ∷ ys else y ∷ rest

  unfoldable pub sorted_by : (A → ℕ) → List A → List A
  unfolding insert_by
  sorted_by key [] = []
  sorted_by key (x ∷ xs) = insert_by key x (sorted_by key xs)

  -- `sorted(xs, key=key, reverse=True)`: equal keys keep their order.
  unfoldable pub insert_desc : (A → ℕ) → A → List A → List A
  insert_desc key x [] = x ∷ []
  insert_desc key x (y ∷ ys) =
      let rest = insert_desc key x ys in if leb (key y) (key x) then x ∷ y ∷ ys else y ∷ rest

  unfoldable pub sorted_desc : (A → ℕ) → List A → List A
  unfolding insert_desc
  sorted_desc key [] = []
  sorted_desc key (x ∷ xs) = insert_desc key x (sorted_desc key xs)

module _ {A : Type 0} where
  -- `x in xs`, with its place.
  abbrev pub In : A → List A → Type 0
  In x [] = ⊥
  In x (y ∷ ys) = (x ≡ y) ⊎ In x ys

  pub In-append_left : (x : A) (ys zs : List A) → In x ys → In x (ys ++ zs)
  In-append_left x [] zs h = absurd h
  In-append_left x (y ∷ ys) zs (inl e) = inl e
  In-append_left x (y ∷ ys) zs (inr h) = inr (In-append_left x ys zs h)

  pub In-append_right : (x : A) (ys zs : List A) → In x zs → In x (ys ++ zs)
  In-append_right x [] zs h = h
  In-append_right x (y ∷ ys) zs h = inr (In-append_right x ys zs h)

  pub In-keep : (p : A → Bool) (x : A) (ys : List A) → p x ≡ true → In x ys → In x (keep p ys)
  In-keep p x [] t h = absurd h
  In-keep p x (y ∷ ys) t (inl e) = rw (← ap p e, t) (inl e)
  In-keep p x (y ∷ ys) t (inr h) = elim (Bool-cases (p y)) [
    | inl in_ ↦ rw in_ (inr (In-keep p x ys t h))
    | inr out ↦ rw out (In-keep p x ys t h)
  ]
