-- ===== src/Sessions/Registry/Logged.antt =====
-- State changes of src/prodeo/sessions/registry.py and the log that rebuilds the catalogue.
use command_center.Base.{
  ℕ, String, Option, none, some, List, [], ◌∷◌, Bool, true, not, ◌&&◌, option_Eq, ◌==◌, string_Eq,
  pair_Eq, nat_Eq, nat_eq_iff, ◌≡◌, refl, ap, ◌∙◌, arith, Bool-cases, Option-cases, inl, inr,
}
use command_center.Base.Dict.{get, get-put}
use command_center.Events.Host.{Host, new_event, published-emit, now, tick}
use command_center.Sessions.State.{SessionState, waiting_on_user, rank_eq, can_transition}
use command_center.Sessions.Model.{Session}
use command_center.Sessions.Registry.{
  Registry, source, transition_payload, add, moved, store, transition, publish_lifecycle,
  lifecycle_event, observe_state, publish_updated, publish_changes, hint,
}
use command_center.Sessions.Registry.Fold.{described}
use command_center.Sessions.Registry.Replay.{
  view, SameView, IsDurable, ignored, IsDurable-ignored, IsDurable-same, changed_state-IsDurable,
  updated-IsDurable, if_same,
}

-- `by_id` holds each session under its own id.
abbrev pub IsKeyed : Registry → Type 0
IsKeyed r = (sid : ℕ) (s : Session) → get r.by_id sid ≡ some s → s.id ≡ sid

-- The log rebuilds the catalogue, and `by_id` holds each session under its own id.
pub record IsLogged (h : Host) (r : Registry) : Type 0 where
  pub durable : IsDurable h.published r
  pub keyed : IsKeyed r

module _ (r : Registry) (sid : ℕ) (s : Session) where
  pub IsKeyed-store : IsKeyed r → s.id ≡ sid → IsKeyed (store r sid s)
  IsKeyed-store k e j t found = ground (arith, get-put r.by_id sid j s, nat_eq_iff sid j, k j t)

  pub IsKeyed-add : IsKeyed r → IsKeyed (add r s)
  IsKeyed-add k j t found = ground (arith, get-put r.by_id s.id j s, nat_eq_iff s.id j, k j t)

-- A write that the view does not show.
pub SameView-hidden :
    {r b : Registry} (sid : ℕ) (s s' : Session)
    → get r.by_id sid ≡ some s
    → view s' ≡ view s
    → SameView r b
    → SameView (store r sid s') b
SameView-hidden {r} {b} sid s s' found e same = record {
  views = λ j. ground (arith, get-put r.by_id sid j s', nat_eq_iff sid j, same.views j);
  natives = same.natives;
}

pub SameView-add : {r b : Registry} (s : Session) → SameView r b → SameView (add r s) (add b s)
SameView-add {r} {b} s same = record {
  views = λ j. simp get-put (if_same (s.id == j) s s _ _ refl (same.views j));
  natives = λ k. simp get-put (ground (arith, same.natives k));
}

abbrev all_ignored : Option String → Bool
all_ignored none = true
all_ignored (some l) = ignored l

lifecycle-ignored :
    (from_state to_state : SessionState) → all_ignored (lifecycle_event from_state to_state) ≡ true
unfolding lifecycle_event
lifecycle-ignored from_state to_state = ground arith

module _ (h : Host) {r : Registry} (d : IsDurable h.published r) where
  publish_lifecycle-IsDurable :
      (r' : Registry) (sid : ℕ) (s : Session) (o : Option String) (reason : String)
      → all_ignored o ≡ true
      → IsDurable (publish_lifecycle h r' sid s o reason).published r
  unfolding publish_lifecycle new_event
  publish_lifecycle-IsDurable r' sid s none reason e = d
  publish_lifecycle-IsDurable r' sid s (some l) reason e =
      rw published-emit (IsDurable-ignored _ e d)

  pub publish_changes-IsDurable :
      (sid : ℕ) (s s' : Session) (fields : List String)
      → get r.by_id sid ≡ some s
      → s.id ≡ sid
      → described s s' ≡ s'
      → s'.id ≡ s.id
      → (fields ≡ [] → s' ≡ s)
      → IsDurable (publish_changes h (store r sid s') s' fields).published (store r sid s')
  unfolding publish_changes publish_updated get
  publish_changes-IsDurable sid s s' [] found keyed whole same_id none_changed =
      IsDurable-same {r' = store r sid s'} refl
        (λ b. SameView-hidden {b = b} sid s s' found (ap view (none_changed refl))) d
  publish_changes-IsDurable sid s s' (f ∷ fs) found keyed whole same_id none_changed =
      updated-IsDurable h sid s found d s' s'.id _ _ (same_id ∙ keyed) whole refl

module _ (h : Host) (r : Registry) (v : IsLogged h r) where
  transition-IsLogged :
      (sid : ℕ) (s : Session) (to_state : SessionState) (reason : String)
      → get r.by_id sid ≡ some s
      → IsLogged
          (transition h r sid s to_state reason).host
          (transition h r sid s to_state reason).registry
  unfolding transition get new_event
  transition-IsLogged sid s to_state reason found = elim (Bool-cases (rank_eq to_state s.state)) [
    | inl same ↦ rw same v
    | inr other ↦ elim (Bool-cases (can_transition s.state to_state)) [
      | inl legal ↦
          rw (other, legal)
            (record {
              durable =
                  publish_lifecycle-IsDurable _
                    (changed_state-IsDurable h sid s found v.durable (tick h) source to_state
                      (now h) (transition_payload s.state to_state reason) refl refl)
                    r sid (moved s to_state (now h)) _ reason (lifecycle-ignored s.state to_state);
              keyed = IsKeyed-store r sid (moved s to_state (now h)) v.keyed (v.keyed sid s found);
            })
      | inr illegal ↦
          rw (other, illegal)
            (record {
              durable = rw published-emit (IsDurable-ignored _ refl v.durable);
              keyed = v.keyed;
            })
    ]
  ]

  pub observe_state-IsLogged :
      (sid : ℕ) (to_state : SessionState) (reason : String)
      → IsLogged
          (observe_state h r sid to_state reason).host
          (observe_state h r sid to_state reason).registry
  unfolding observe_state
  observe_state-IsLogged sid to_state reason = elim (Option-cases (get r.by_id sid)) [
    | inl absent ↦ rw (absent, observe_state) v
    | inr (s, found) ↦ rw (found, observe_state) (transition-IsLogged sid s to_state reason found)
  ]

  pub hint-IsLogged :
      (s : Session) (to_state : SessionState)
      → IsLogged (hint h r s to_state).host (hint h r s to_state).registry
  unfolding hint
  hint-IsLogged s to_state = elim (Bool-cases (rank_eq to_state s.state)) [
    | inl same ↦ rw same v
    | inr other ↦
        elim (Bool-cases
          (not (rank_eq s.state waiting_on_user) && can_transition s.state to_state)) [
            | inl follows ↦ rw (other, follows) (observe_state-IsLogged s.id to_state "discovery")
            | inr refused ↦ rw (other, refused) v
          ]
  ]
