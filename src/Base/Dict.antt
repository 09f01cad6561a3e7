-- ===== src/Base/Dict.antt =====
-- Python's `dict`: an association list in insertion order. A write to a present key keeps its place.
use mathlib.Core.Path.{◌≡◌, refl, ◌∙◌, ap}
use mathlib.Core.Logic.{◌⊎◌, inl, inr}
use mathlib.Core.Bool.{Bool, true, false}
use mathlib.Core.Option
use mathlib.Core.Option.{Option, none, some}
use mathlib.Core.List.{List, [], ◌∷◌}
use native.Mathlib.Omega.{arith}
use command_center.Base.Tests.{Bool-cases, if◌then◌else◌}
use command_center.Base.Lists.{All, find}
use command_center.Base.Equality.{Eq, ◌==◌}

abbrev pub Dict {ℓ κ} : Type ℓ → Type κ → Type (ℓ ⊔ κ)
Dict K V = List (K × V)

module _ {ℓ κ} {K : Type ℓ} {V : Type κ} ⦃e : Eq K⦄ where
  -- `d.get(k)`
  unfoldable pub get : Dict K V → K → Option V
  get [] k = none
  get ((j, v) ∷ d) k = if j == k then some v else get d k

  -- `d[k] = v`
  unfoldable pub put : Dict K V → K → V → Dict K V
  put [] k v = (k, v) ∷ []
  put ((j, w) ∷ d) k v = if j == k then (j, v) ∷ d else (j, w) ∷ put d k v

  -- `d.pop(k, None)`
  unfoldable pub pop : Dict K V → K → Dict K V
  pop [] k = []
  pop ((j, w) ∷ d) k = let rest = pop d k in if j == k then rest else (j, w) ∷ rest

  -- A write through a reference to the value at `k`: nothing if there is none.
  unfoldable pub modify : Dict K V → K → (V → V) → Dict K V
  modify [] k f = []
  modify ((j, w) ∷ d) k f = if j == k then (j, f w) ∷ d else (j, w) ∷ modify d k f

  pub get-put :
      (d : Dict K V) (k j : K) (v : V) → get (put d k v) j ≡ (if k == j then some v else get d j)
  unfolding get put
  get-put [] k j v = refl
  get-put ((i, w) ∷ d) k j v =
      ground (arith, e.equal_iff i k, e.equal_iff i j, e.equal_iff k j, get-put d k j v)

  pub get-pop : (d : Dict K V) (k j : K) → get (pop d k) j ≡ (if k == j then none else get d j)
  unfolding get pop
  get-pop [] k j = ground arith
  get-pop ((i, w) ∷ d) k j =
      ground (arith, e.equal_iff i k, e.equal_iff i j, e.equal_iff k j, get-pop d k j)

  pub get-modify :
      (d : Dict K V) (k j : K) (f : V → V)
      → get (modify d k f) j ≡ (if k == j then Option.map f (get d j) else get d j)
  unfolding get modify
  get-modify [] k j f = ground arith
  get-modify ((i, w) ∷ d) k j f =
      ground (arith, e.equal_iff i k, e.equal_iff i j, e.equal_iff k j, get-modify d k j f)

  -- `d.values()`
  abbrev pub values : Dict K V → List V
  values [] = []
  values ((k, v) ∷ d) = v ∷ values d

  -- `d.update(other)`
  unfoldable pub update : Dict K V → Dict K V → Dict K V
  unfolding put
  update d [] = d
  update d ((k, v) ∷ other) = update (put d k v) other

module _ {ℓ κ} {K : Type ℓ} {V : Type κ} ⦃e : Eq K⦄ where
  -- No key occurs twice, as in every `dict`.
  abbrev pub IsAbsent : K → Dict K V → Type κ
  IsAbsent k [] = Unit
  IsAbsent k ((j, v) ∷ d) = ((j == k) ≡ false) × IsAbsent k d

  abbrev pub IsDict : Dict K V → Type κ
  IsDict [] = Unit
  IsDict ((k, v) ∷ d) = IsAbsent k d × IsDict d

  -- Writing what is there already.
  pub put-get : (d : Dict K V) (k : K) (v : V) → get d k ≡ some v → put d k v ≡ d
  unfolding get put
  put-get [] k v h = cc
  put-get ((j, w) ∷ d) k v h = ground (arith, put-get d k v)

  pub get-update_absent :
      (d other : Dict K V) (k : K) → IsAbsent k other → get (update d other) k ≡ get d k
  unfolding update
  get-update_absent d [] k a = refl
  get-update_absent d ((j, v) ∷ other) k a =
      get-update_absent (put d j v) other k a.1 ∙ ground (arith, get-put d j k v)

  -- After `d.update(other)` each key of `other` has its value there.
  pub get-update :
      (d other : Dict K V) → IsDict other → All (λ (k, v). get (update d other) k ≡ some v) other
  unfolding update
  get-update d [] u = tt
  get-update d ((k, v) ∷ other) u = (
    get-update_absent (put d k v) other k u.0 ∙ ground (arith, get-put d k k v, e.equal_iff k k),
    get-update (put d k v) other u.1,
  )

  -- A search among the values that finds nothing rules out each entry.
  pub find-none :
      (test : V → Bool) (d : Dict K V) (k : K) (v : V)
      → find test (values d) ≡ none
      → get d k ≡ some v
      → test v ≡ false
  unfolding find get
  find-none test [] k v h found = absurd (cc found)
  find-none test ((j, w) ∷ d) k v h found = ground (arith, find-none test d k v)

  -- A new entry is the last, so it is found when no other is.
  pub find-put :
      (test : V → Bool) (d : Dict K V) (k : K) (v : V)
      → find test (values d) ≡ none
      → get d k ≡ none
      → test v ≡ true
      → find test (values (put d k v)) ≡ some v
  unfolding find get put
  find-put test [] k v h absent t = ground arith
  find-put test ((j, w) ∷ d) k v h absent t = ground (arith, find-put test d k v)

module _ {ℓ κ} {K : Type ℓ} {V : Type κ} ⦃e : Eq K⦄ (d : Dict K V) (k j : K) where
  -- What is found after a removal was there before, under another key.
  pub get-pop-some : {w : V} → get (pop d k) j ≡ some w → ((k == j) ≡ false) × (get d j ≡ some w)
  get-pop-some h = ground (arith, get-pop d k j)

  -- What is found after a write is the value written, or was there before under another key.
  pub get-put-some :
      (v : V) {w : V}
      → get (put d k v) j ≡ some w
      → (k ≡ j) × (w ≡ v) ⊎ ((k == j) ≡ false) × (get d j ≡ some w)
  get-put-some v h = ground (arith, get-put d k j v, e.equal_iff k j)

  pub keys_apart : {w : V} → get d k ≡ none → get d j ≡ some w → (k == j) ≡ false
  keys_apart absent found = elim (Bool-cases (k == j)) [
    | inl same ↦ absurd (cc (absent, ap (get d) ((e.equal_iff k j).0 same), found))
    | inr other ↦ other
  ]

  pub get-put_self : (v : V) → k ≡ j → get (put d k v) j ≡ some v
  get-put_self v h = ground (arith, get-put d k j v, e.equal_iff k j)

  pub get-put_ne : (v : V) → (k == j) ≡ false → get (put d k v) j ≡ get d j
  get-put_ne v h = ground (arith, get-put d k j v)

pub ruleset dict_laws = (get-put, get-pop, get-modify)
