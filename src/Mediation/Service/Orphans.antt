-- ===== src/Mediation/Service/Orphans.antt =====
-- The end of `rebuild` in src/prodeo/mediation/service.py: what was left pending here is cancelled.
use mathlib.Core.Option
use command_center.Base.{
  ℕ, String, some, List, [], ◌∷◌, Bool, false, ◌&&◌, ◌||◌, keep, All, if◌then◌else◌, ◌==◌,
  string_Eq, pair_Eq, nat_Eq, nat_eq, nat_eq_iff, ◌≡◌, refl, ap, sym, ◌∙◌, arith, Bool-cases,
  some_inj, inl, inr,
}
use command_center.Base.Dict.{Dict, IsDict, IsAbsent, get, put, values, get-put_self, get-put_ne}
use command_center.Events.Host.{Host}
use command_center.Mediation.Model.{Interaction, is_pending}
use command_center.Mediation.Service.{Mediation, resolve, cancel, cancelled_i}
use command_center.Mediation.Service.Fold.{is_orphan, cancel_all, cancel_orphans}

abbrev mentions : ℕ → List Interaction → Bool
mentions id [] = false
mentions id (i ∷ is) = nat_eq i.id id || mentions id is

abbrev AllOnce : List Interaction → Type 0
AllOnce [] = Unit {0}
AllOnce (i ∷ is) = (mentions i.id is ≡ false) × AllOnce is

-- Each listed interaction is the one that is stored under its id.
abbrev Stored : Dict ℕ Interaction → List Interaction → Type 0
Stored d is = All (λ i. get d i.id ≡ some i) is

Stored-put :
    (d : Dict ℕ Interaction) (id : ℕ) (x : Interaction) (is : List Interaction)
    → mentions id is ≡ false
    → Stored d is
    → Stored (put d id x) is
Stored-put d id x [] m s = tt
Stored-put d id x (i ∷ is) m s = (
  get-put_ne d id i.id x (ground (arith, nat_eq_iff i.id id, nat_eq_iff id i.id)) ∙ s.0,
  Stored-put d id x is (ground arith) s.1,
)

cancel_step :
    (d : Dict ℕ Interaction) (i : Interaction) (is : List Interaction) (id : ℕ)
    → mentions i.id is ≡ false
    → get d i.id ≡ some i
    → (if mentions id is
        then Option.map cancelled_i (get (put d i.id (cancelled_i i)) id)
        else get (put d i.id (cancelled_i i)) id)
      ≡ (if nat_eq i.id id || mentions id is then Option.map cancelled_i (get d id) else get d id)
cancel_step d i is id u s = elim (Bool-cases (nat_eq i.id id)) [
  | inl same ↦
      let e = (nat_eq_iff i.id id).0 same in
      rw
        (
          same,
          ap (λ k. mentions k is) (sym e) ∙ u,
          get-put_self d i.id id (cancelled_i i) e,
          ap (get d) (sym e) ∙ s,
        )
        refl
  | inr other ↦ rw (other, get-put_ne d i.id id (cancelled_i i) other) refl
]

get-cancel_all :
    (h : Host) (m : Mediation) (is : List Interaction) (id : ℕ)
    → AllOnce is
    → Stored m.by_id is
    → get (cancel_all h m is).1.by_id id
      ≡ (if mentions id is then Option.map cancelled_i (get m.by_id id) else get m.by_id id)
unfolding cancel_all cancel resolve
get-cancel_all h m [] id u s = refl
get-cancel_all h m (i ∷ is) id u s =
    let (h', m') = cancel h m i.id i "orphaned_by_restart" in
    get-cancel_all h' m' is id u.1 (Stored-put m.by_id i.id (cancelled_i i) is u.0 s.1)
    ∙ cancel_step m.by_id i is id u.0 s.0

-- Entries under the ids of their values.
abbrev AllKeyed : Dict ℕ Interaction → Type 0
AllKeyed d = All (λ (id, i). i.id ≡ id) d

module _ (node : String) where
  mentions-absent :
      (id : ℕ) (d : Dict ℕ Interaction)
      → IsAbsent id d
      → AllKeyed d
      → mentions id (keep (is_orphan node) (values d)) ≡ false
  mentions-absent id [] a k = refl
  mentions-absent id ((j, i) ∷ d) a k = elim (Bool-cases (is_orphan node i)) [
    | inl mine ↦ rw (mine, k.0, a.0) (mentions-absent id d a.1 k.1)
    | inr not_mine ↦ rw not_mine (mentions-absent id d a.1 k.1)
  ]

  orphans-AllOnce :
      (d : Dict ℕ Interaction) → IsDict d → AllKeyed d → AllOnce (keep (is_orphan node) (values d))
  orphans-AllOnce [] u k = tt
  orphans-AllOnce ((j, i) ∷ d) u k = elim (Bool-cases (is_orphan node i)) [
    | inl mine ↦ rw mine (rw k.0 (mentions-absent j d u.0 k.1), orphans-AllOnce d u.1 k.1)
    | inr not_mine ↦ rw not_mine (orphans-AllOnce d u.1 k.1)
  ]

  -- Looking through the whole list of orphans is looking at the entry.
  mentions_orphans :
      (d : Dict ℕ Interaction) (id : ℕ) (i : Interaction)
      → IsDict d
      → AllKeyed d
      → get d id ≡ some i
      → mentions id (keep (is_orphan node) (values d)) ≡ is_orphan node i
  unfolding get
  mentions_orphans [] id i u k found = absurd (cc found)
  mentions_orphans ((j, x) ∷ d) id i u k found = elim (Bool-cases (nat_eq j id)) [
    | inl same ↦
        let e = some_inj (rw same at found) in
        elim (Bool-cases (is_orphan node x)) [
          | inl mine ↦ rw (mine, k.0, same) (sym mine ∙ ap (is_orphan node) e)
          | inr not_mine ↦ rw not_mine (
              ap (λ n. mentions n (keep (is_orphan node) (values d)))
                (sym ((nat_eq_iff j id).0 same))
              ∙ mentions-absent j d u.0 k.1
              ∙ sym not_mine
              ∙ ap (is_orphan node) e)
        ]
    | inr other ↦
        let before = mentions_orphans d id i u.1 k.1 (rw other at found) in
        elim (Bool-cases (is_orphan node x)) [
          | inl mine ↦ rw (mine, k.0, other) before
          | inr not_mine ↦ rw not_mine before
        ]
  ]

keep-Stored :
    (d : Dict ℕ Interaction) (is : List Interaction)
    → All (λ i. get d i.id ≡ some i) is
    → (test : Interaction → Bool) → Stored d (keep test is)
keep-Stored d [] s test = tt
keep-Stored d (i ∷ is) s test = elim (Bool-cases (test i)) [
  | inl in_ ↦ rw in_ (s.0, keep-Stored d is s.1 test)
  | inr out ↦ rw out (keep-Stored d is s.1 test)
]

skip_head :
    (j : ℕ) (x : Interaction) (d rest : Dict ℕ Interaction)
    → IsAbsent j rest
    → AllKeyed rest
    → All (λ i. get d i.id ≡ some i) (values rest)
    → All (λ i. get ((j, x) ∷ d) i.id ≡ some i) (values rest)
unfolding get
skip_head j x d [] a k s = tt
skip_head j x d ((n, y) ∷ rest) a k s = (
  ground (arith, nat_eq_iff j y.id, nat_eq_iff n j, a.0, k.0, s.0),
  skip_head j x d rest a.1 k.1 s.1,
)

values-Stored :
    (d : Dict ℕ Interaction) → IsDict d → AllKeyed d → All (λ i. get d i.id ≡ some i) (values d)
unfolding get
values-Stored [] u k = tt
values-Stored ((j, x) ∷ d) u k =
    (ground (arith, nat_eq_iff j x.id, k.0), skip_head j x d d u.0 k.1 (values-Stored d u.1 k.1))

-- A restart after a crash cancels exactly what this node had left pending; an interaction that is
-- resolved, and one that is pending on another node, stays as it is.
pub cancel_orphans-exact :
    (h : Host) (m : Mediation) (id : ℕ) (i : Interaction)
    → IsDict m.by_id
    → AllKeyed m.by_id
    → get m.by_id id ≡ some i
    → get (cancel_orphans h m).1.by_id id
      ≡ some (if is_pending i.status && i.node == m.node then cancelled_i i else i)
unfolding cancel_orphans
cancel_orphans-exact h m id i u k found =
    get-cancel_all h m (keep (is_orphan m.node) (values m.by_id)) id
      (orphans-AllOnce m.node m.by_id u k)
      (keep-Stored m.by_id (values m.by_id) (values-Stored m.by_id u k) (is_orphan m.node))
    ∙ rw (mentions_orphans m.node m.by_id id i u k found, found)
        (elim (Bool-cases (is_orphan m.node i)) [
          | inl mine ↦ rw mine refl
          | inr not_mine ↦ rw not_mine refl
        ])
