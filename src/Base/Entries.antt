-- ===== src/Base/Entries.antt =====
-- A dictionary whose values are filed under their own ids, walked through `list(d.values())`.
use Prim.Native.Nat.{ℕ}
use mathlib.Core.Path.{◌≡◌, refl, sym, ◌∙◌, subst}
use mathlib.Core.Logic.{inl, inr}
use mathlib.Core.Bool.{Bool, true, false, ◌||◌}
use mathlib.Core.Option.{some}
use mathlib.Core.List.{List, [], ◌∷◌}
use native.Mathlib.Omega.{arith}
use command_center.Base.Tests.{nat_eq, nat_eq_iff, Bool-cases, some_inj}
use command_center.Base.Lists.{All}
use command_center.Base.Equality.{nat_Eq, Eq, ◌==◌}
use command_center.Base.Dict.{Dict, IsDict, IsAbsent, get, put, pop, modify, values}

module _ {V : Type 0} (key : V → ℕ) where
  abbrev pub listed : ℕ → List V → Bool
  listed id [] = false
  listed id (x ∷ xs) = nat_eq (key x) id || listed id xs

  abbrev pub AllOnce : List V → Type 0
  AllOnce [] = Unit {0}
  AllOnce (x ∷ xs) = (listed (key x) xs ≡ false) × AllOnce xs

  -- Each listed value is the one that is stored under its id.
  abbrev pub Stored : Dict ℕ V → List V → Type 0
  Stored d xs = All (λ x. get d (key x) ≡ some x) xs

  abbrev pub AllKeyed : Dict ℕ V → Type 0
  AllKeyed d = All (λ (id, x). key x ≡ id) d

  pub Stored-changed :
      (d e : Dict ℕ V) (id : ℕ) (xs : List V)
      → ((j : ℕ) → nat_eq id j ≡ false → get e j ≡ get d j)
      → listed id xs ≡ false
      → Stored d xs
      → Stored e xs
  Stored-changed d e id [] same m s = tt
  Stored-changed d e id (x ∷ xs) same m s = (
    same (key x) (ground (arith, nat_eq_iff (key x) id, nat_eq_iff id (key x))) ∙ s.0,
    Stored-changed d e id xs same (ground (arith, m)) s.1,
  )

  listed-absent :
      (id : ℕ) (d : Dict ℕ V) → IsAbsent id d → AllKeyed d → listed id (values d) ≡ false
  listed-absent id [] a k = refl
  listed-absent id ((j, x) ∷ d) a k = rw (k.0, a.0) (listed-absent id d a.1 k.1)

  pub values-AllOnce : (d : Dict ℕ V) → IsDict d → AllKeyed d → AllOnce (values d)
  values-AllOnce [] u k = tt
  values-AllOnce ((j, x) ∷ d) u k = (rw k.0 (listed-absent j d u.0 k.1), values-AllOnce d u.1 k.1)

  pub listed-values :
      (d : Dict ℕ V) (id : ℕ) (x : V) → AllKeyed d → get d id ≡ some x → listed id (values d) ≡ true
  unfolding get
  listed-values [] id x k found = absurd (cc found)
  listed-values ((j, y) ∷ d) id x k found = elim (Bool-cases (nat_eq j id)) [
    | inl same ↦ rw (k.0, same) refl
    | inr other ↦ rw (k.0, other) (listed-values d id x k.1 (rw other at found))
  ]

  skip_head :
      (j : ℕ) (x : V) (d rest : Dict ℕ V)
      → IsAbsent j rest
      → AllKeyed rest
      → All (λ y. get d (key y) ≡ some y) (values rest)
      → All (λ y. get ((j, x) ∷ d) (key y) ≡ some y) (values rest)
  unfolding get
  skip_head j x d [] a k s = tt
  skip_head j x d ((n, y) ∷ rest) a k s = (
    ground (arith, nat_eq_iff j (key y), nat_eq_iff n j, a.0, k.0, s.0),
    skip_head j x d rest a.1 k.1 s.1,
  )

  pub values-Stored : (d : Dict ℕ V) → IsDict d → AllKeyed d → Stored d (values d)
  unfolding get
  values-Stored [] u k = tt
  values-Stored ((j, x) ∷ d) u k = (
    ground (arith, nat_eq_iff j (key x), k.0),
    skip_head j x d d u.0 k.1 (values-Stored d u.1 k.1),
  )

-- What holds of all entries, and that no key occurs twice, through the writes.
module _ {V : Type 0} (P : ℕ → V → Type 0) where
  abbrev pub AllEntries : Dict ℕ V → Type 0
  AllEntries d = All (λ (id, x). P id x) d

  pub put-AllEntries :
      (d : Dict ℕ V) (id : ℕ) (x : V) → AllEntries d → P id x → AllEntries (put d id x)
  unfolding put
  put-AllEntries [] id x all p = (p, tt)
  put-AllEntries ((j, y) ∷ d) id x all p = elim (Bool-cases (nat_eq j id)) [
    | inl same ↦ rw same (subst (λ k. P k x) (sym ((nat_eq_iff j id).0 same)) p, all.1)
    | inr other ↦ rw other (all.0, put-AllEntries d id x all.1 p)
  ]

  pub pop-AllEntries : (d : Dict ℕ V) (id : ℕ) → AllEntries d → AllEntries (pop d id)
  unfolding pop
  pop-AllEntries [] id all = tt
  pop-AllEntries ((j, y) ∷ d) id all = elim (Bool-cases (nat_eq j id)) [
    | inl same ↦ rw same (pop-AllEntries d id all.1)
    | inr other ↦ rw other (all.0, pop-AllEntries d id all.1)
  ]

  pub modify-AllEntries :
      (d : Dict ℕ V) (id : ℕ) (f : V → V)
      → AllEntries d
      → ((j : ℕ) (x : V) → P j x → P j (f x))
      → AllEntries (modify d id f)
  unfolding modify
  modify-AllEntries [] id f all keeps = tt
  modify-AllEntries ((j, y) ∷ d) id f all keeps = elim (Bool-cases (nat_eq j id)) [
    | inl same ↦ rw same (keeps j y all.0, all.1)
    | inr other ↦ rw other (all.0, modify-AllEntries d id f all.1 keeps)
  ]

  pub get-AllEntries : (d : Dict ℕ V) (id : ℕ) (x : V) → AllEntries d → get d id ≡ some x → P id x
  unfolding get
  get-AllEntries [] id x all found = absurd (cc found)
  get-AllEntries ((j, y) ∷ d) id x all found = elim (Bool-cases (nat_eq j id)) [
    | inl same ↦
        subst (P id) (some_inj (rw same at found))
          (subst (λ k. P k y) ((nat_eq_iff j id).0 same) all.0)
    | inr other ↦ get-AllEntries d id x all.1 (rw other at found)
  ]

module _ {K V : Type 0} ⦃e : Eq K⦄ where
  put-IsAbsent :
      (d : Dict K V) (id j : K) (x : V) → (id == j) ≡ false → IsAbsent j d → IsAbsent j (put d id x)
  unfolding put
  put-IsAbsent [] id j x ne a = (ne, tt)
  put-IsAbsent ((k, y) ∷ d) id j x ne a = elim (Bool-cases (k == id)) [
    | inl same ↦ rw same a
    | inr other ↦ rw other (a.0, put-IsAbsent d id j x ne a.1)
  ]

  pub put-IsDict : (d : Dict K V) (id : K) (x : V) → IsDict d → IsDict (put d id x)
  unfolding put
  put-IsDict [] id x u = (tt, tt)
  put-IsDict ((k, y) ∷ d) id x u = elim (Bool-cases (k == id)) [
    | inl same ↦ rw same u
    | inr other ↦ rw other (
      put-IsAbsent d id k x (ground (arith, e.equal_iff k id, e.equal_iff id k, other)) u.0,
      put-IsDict d id x u.1,
    )
  ]

  pop-IsAbsent : (d : Dict K V) (id j : K) → IsAbsent j d → IsAbsent j (pop d id)
  unfolding pop
  pop-IsAbsent [] id j a = tt
  pop-IsAbsent ((k, y) ∷ d) id j a = elim (Bool-cases (k == id)) [
    | inl same ↦ rw same (pop-IsAbsent d id j a.1)
    | inr other ↦ rw other (a.0, pop-IsAbsent d id j a.1)
  ]

  pub pop-IsDict : (d : Dict K V) (id : K) → IsDict d → IsDict (pop d id)
  unfolding pop
  pop-IsDict [] id u = tt
  pop-IsDict ((k, y) ∷ d) id u = elim (Bool-cases (k == id)) [
    | inl same ↦ rw same (pop-IsDict d id u.1)
    | inr other ↦ rw other (pop-IsAbsent d id k u.0, pop-IsDict d id u.1)
  ]

  modify-IsAbsent :
      (d : Dict K V) (id j : K) (f : V → V) → IsAbsent j d → IsAbsent j (modify d id f)
  unfolding modify
  modify-IsAbsent [] id j f a = tt
  modify-IsAbsent ((k, y) ∷ d) id j f a = elim (Bool-cases (k == id)) [
    | inl same ↦ rw same a
    | inr other ↦ rw other (a.0, modify-IsAbsent d id j f a.1)
  ]

  pub modify-IsDict : (d : Dict K V) (id : K) (f : V → V) → IsDict d → IsDict (modify d id f)
  unfolding modify
  modify-IsDict [] id f u = tt
  modify-IsDict ((k, y) ∷ d) id f u = elim (Bool-cases (k == id)) [
    | inl same ↦ rw same u
    | inr other ↦ rw other (modify-IsAbsent d id k f u.0, modify-IsDict d id f u.1)
  ]
