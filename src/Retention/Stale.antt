-- ===== src/Retention/Stale.antt =====
-- Which sessions `_archive_sessions` of src/prodeo/persistence/retention.py is to archive, said without its
-- code, and what becomes of a session.
use command_center.Base.{
  ℕ, ◌+◌, ◌<◌, String, none, some, List, [], ◌∷◌, true, false, ltb, ◌==◌, string_Eq, ◌≡◌, refl,
  arith, Bool-cases, Option-cases, inl, inr, ◌⊎◌,
}
use command_center.Sessions.State.{
  SessionState, completed, failed, stopped, archived, rank_eq, elem,
}
use command_center.Sessions.Model.{Session}
use command_center.Retention.{ended, is_stale}

-- The session ended at the time: it says so, or it says nothing and that is its last activity.
abbrev pub EndedAt : Session → ℕ → Type 0
EndedAt s t = (s.ended_at ≡ some t) ⊎ ((s.ended_at ≡ none) × (s.last_activity_at ≡ t))

abbrev pub IsFinished : SessionState → Type 0
IsFinished state = (state ≡ completed) ⊎ ((state ≡ failed) ⊎ (state ≡ stopped))

-- A session of the node that has finished, and ended before the cutoff.
abbrev pub IsStale : String → ℕ → Session → Type 0
IsStale node cutoff s = (s.node ≡ node) × IsFinished s.state × (t : ℕ) × EndedAt s t × (t < cutoff)

-- A stale session is archived, at some time; any other stays as it is.
abbrev pub Fate : String → ℕ → Session → Session → Type 0
Fate node cutoff s s' =
    (IsStale node cutoff s
      × (t : ℕ) × (s' ≡ record s { state = archived; last_activity_at = t; ended_at = some t }))
    ⊎ ((¬ IsStale node cutoff s) × (s' ≡ s))

-- So many of the sessions are stale.
abbrev pub Counts : String → ℕ → List Session → ℕ → Type 0
Counts node cutoff [] n = n ≡ 0
Counts node cutoff (s ∷ xs) n =
    (IsStale node cutoff s × (k : ℕ) × Counts node cutoff xs k × (n ≡ k + 1))
    ⊎ ((¬ IsStale node cutoff s) × Counts node cutoff xs n)

IsFinished-cases :
    (s : SessionState)
    → (IsFinished s
        × (rank_eq s archived ≡ false)
        × (elem s (completed ∷ failed ∷ stopped ∷ []) ≡ true))
      ⊎ ((¬ IsFinished s) × (elem s (completed ∷ failed ∷ stopped ∷ []) ≡ false))
IsFinished-cases s = ground arith

ended-EndedAt : (s : Session) → EndedAt s (ended s)
ended-EndedAt s = elim (Option-cases s.ended_at) [
  | inl unsaid ↦ inr (unsaid, rw unsaid refl)
  | inr (t, said) ↦ inl (rw said refl)
]

EndedAt-ended : (s : Session) (t : ℕ) → EndedAt s t → ended s ≡ t
EndedAt-ended s t (inl said) = rw said refl
EndedAt-ended s t (inr (unsaid, last)) = rw unsaid last

pub is_stale-cases :
    (node : String) (cutoff : ℕ) (s : Session)
    → ((is_stale node cutoff s ≡ true) × IsStale node cutoff s)
      ⊎ ((is_stale node cutoff s ≡ false) × ¬ IsStale node cutoff s)
unfolding is_stale
is_stale-cases node cutoff s = elim (IsFinished-cases s.state) [
  | inr (unfinished, out) ↦ inr (rw (is_stale, out) (ground arith), λ stale. unfinished stale.1)
  | inl (finished, live, in_) ↦ elim (Bool-cases (s.node == node)) [
    | inr elsewhere ↦ inr (
      rw (is_stale, live, elsewhere),
      λ stale. absurd (cc (elsewhere, (string_Eq.equal_iff s.node node).1 stale.0)),
    )
    | inl here ↦ elim (Bool-cases (ltb (ended s) cutoff)) [
      | inr young ↦ inr (
        rw (is_stale, live, here, in_, young),
        λ (local, done, t, when, lt).
            (let same = EndedAt-ended s t when in ground (arith, young, same, lt)),
      )
      | inl old ↦ inl (
        rw (is_stale, live, here, in_, old),
        (
          (string_Eq.equal_iff s.node node).0 here,
          finished,
          ended s,
          ended-EndedAt s,
          ground (arith, old),
        ),
      )
    ]
  ]
]
