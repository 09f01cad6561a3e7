-- ===== src/Sessions/Registry/Forward.antt =====
-- The methods of src/prodeo/sessions/registry.py only draw further ULIDs: what was drawn stays behind.
use command_center.Base.{
  ℕ, ◌≤◌, String, Option, none, some, List, [], ◌∷◌, not, ◌&&◌, nat_Eq, string_Eq, pair_Eq,
  option_Eq, ◌==◌, ◌≡◌, refl, ◌∙◌, arith, Bool-cases, Option-cases, inl, inr,
}
use command_center.Base.Dict.{get}
use command_center.Events.Envelope.{Payload}
use command_center.Events.Host.{Host, now, emit, tick, draw}
use command_center.Sessions.State.{
  SessionState, discovered, waiting_on_user, rank_eq, can_transition,
}
use command_center.Sessions.Model.{Session, SessionDescriptor}
use command_center.Sessions.Registry.{
  Registry, moved, publish_lifecycle, observe_state, publish_updated, publish_changes, refreshed,
  changed, hint, rediscover, discover, upsert_discovered, touch, refresh_model,
  refresh_permission_mode, store,
}

-- The same source of ULIDs, and no draw taken back.
pub record Forward (h h' : Host) : Type 0 where
  pub same : h'.ulid ≡ h.ulid
  pub further : h.draws ≤ h'.draws

pub Forward-refl : (h : Host) → Forward h h
Forward-refl h = record { same = refl; further = omega arith }

pub Forward-trans : {h h' h'' : Host} → Forward h h' → Forward h' h'' → Forward h h''
Forward-trans f g = record { same = g.same ∙ f.same; further = omega (arith, f.further, g.further) }

pub emit-Forward :
    (h : Host) (type_ node source : String) (session_id : Option ℕ) (payload : Payload)
    → Forward h (emit h type_ node source session_id payload)
unfolding emit
emit-Forward h type_ node source session_id payload = record { same = refl; further = omega arith }

pub tick-Forward : (h : Host) → Forward h (tick h)
tick-Forward h = record { same = refl; further = omega arith }

publish_lifecycle-Forward :
    (h : Host) (r : Registry) (sid : ℕ) (s : Session) (o : Option String) (reason : String)
    → Forward h (publish_lifecycle h r sid s o reason)
unfolding publish_lifecycle emit
publish_lifecycle-Forward h r sid s none reason = Forward-refl h
publish_lifecycle-Forward h r sid s (some l) reason = record { same = refl; further = omega arith }

module _ (h : Host) (r : Registry) where
  pub observe_state-Forward :
      (sid : ℕ) (to_state : SessionState) (reason : String)
      → Forward h (observe_state h r sid to_state reason).host
  unfolding observe_state
  observe_state-Forward sid to_state reason = elim (Option-cases (get r.by_id sid)) [
    | inl absent ↦ rw (absent, observe_state) (Forward-refl h)
    | inr (s, found) ↦ elim (Bool-cases (rank_eq to_state s.state)) [
      | inl same ↦ rw (found, observe_state, same) (Forward-refl h)
      | inr other ↦ elim (Bool-cases (can_transition s.state to_state)) [
        | inl legal ↦
            rw (found, observe_state, other, legal)
              (Forward-trans (Forward-trans (tick-Forward h) (emit-Forward (tick h) _ _ _ _ _))
                (publish_lifecycle-Forward _ r sid (moved s to_state (now h)) _ reason))
        | inr illegal ↦ rw (found, observe_state, other, illegal) (emit-Forward h _ _ _ _ _)
      ]
    ]
  ]

  pub touch-Forward : (sid : ℕ) (at : Option ℕ) → Forward h (touch h r sid at).0
  unfolding touch
  touch-Forward sid at = elim (Option-cases (get r.by_id sid)) [
    | inl absent ↦ rw (absent, touch) (Forward-refl h)
    | inr (s, found) ↦ elim (Option-cases at) [
      | inl unset ↦ rw (found, unset, touch) (record { same = refl; further = omega arith })
      | inr (t, given) ↦ rw (found, given, touch) (Forward-refl h)
    ]
  ]

  pub refresh_model-Forward : (sid : ℕ) (model : String) → Forward h (refresh_model h r sid model).0
  unfolding refresh_model
  refresh_model-Forward sid model = elim (Option-cases (get r.by_id sid)) [
    | inl absent ↦ rw (absent, refresh_model) (Forward-refl h)
    | inr (s, found) ↦ elim (Bool-cases (not (s.model == some model))) [
      | inl other ↦ rw (found, other, refresh_model) (emit-Forward h _ _ _ _ _)
      | inr same ↦ rw (found, same, refresh_model) (Forward-refl h)
    ]
  ]

  pub refresh_permission_mode-Forward :
      (sid : ℕ) (mode : String) → Forward h (refresh_permission_mode h r sid mode).0
  unfolding refresh_permission_mode
  refresh_permission_mode-Forward sid mode = elim (Option-cases (get r.by_id sid)) [
    | inl absent ↦ rw (absent, refresh_permission_mode) (Forward-refl h)
    | inr (s, found) ↦ elim (Bool-cases (not (s.permission_mode == mode))) [
      | inl other ↦ rw (found, other, refresh_permission_mode) (emit-Forward h _ _ _ _ _)
      | inr same ↦ rw (found, same, refresh_permission_mode) (Forward-refl h)
    ]
  ]

publish_changes-Forward :
    (h : Host) (r : Registry) (s : Session) (fields : List String)
    → Forward h (publish_changes h r s fields)
unfolding publish_changes publish_updated
publish_changes-Forward h r s [] = Forward-refl h
publish_changes-Forward h r s (f ∷ fs) = emit-Forward h _ _ _ _ _

hint-Forward :
    (h : Host) (r : Registry) (s : Session) (to_state : SessionState)
    → Forward h (hint h r s to_state).host
unfolding hint
hint-Forward h r s to_state = elim (Bool-cases (rank_eq to_state s.state)) [
  | inl same ↦ rw same (Forward-refl h)
  | inr other ↦
      elim (Bool-cases (not (rank_eq s.state waiting_on_user) && can_transition s.state to_state)) [
        | inl follows ↦ rw (other, follows) (observe_state-Forward h r s.id to_state "discovery")
        | inr refused ↦ rw (other, refused) (Forward-refl h)
      ]
]

discover-Forward :
    (h : Host) (r : Registry) (adapter : String) (d : SessionDescriptor)
    → Forward h (discover h r adapter d).host
unfolding discover
discover-Forward h r adapter d =
    let drawn : Forward h (draw (tick h)) = record { same = refl; further = omega arith } in
    let told = Forward-trans drawn (emit-Forward (draw (tick h)) _ _ _ _ _) in
    elim (Bool-cases (rank_eq d.state discovered)) [
      | inl plain ↦ rw plain told
      | inr other ↦ rw other (Forward-trans told (observe_state-Forward _ _ _ d.state "discovered"))
    ]

pub upsert_discovered-Forward :
    (h : Host) (r : Registry) (adapter : String) (d : SessionDescriptor)
    → Forward h (upsert_discovered h r adapter d).host
unfolding upsert_discovered rediscover
upsert_discovered-Forward h r adapter d =
    elim (Option-cases (get r.by_native (adapter, d.native_id))) [
      | inl unknown ↦ rw (unknown, upsert_discovered) (discover-Forward h r adapter d)
      | inr (sid, known) ↦ elim (Option-cases (get r.by_id sid)) [
        | inl lost ↦ rw (known, lost, upsert_discovered) (discover-Forward h r adapter d)
        | inr (s, found) ↦
            rw (known, found, upsert_discovered)
              (Forward-trans
                (publish_changes-Forward h (store r sid (refreshed d s)) (refreshed d s)
                  (changed d s))
                (hint-Forward _ _ (refreshed d s) d.state))
      ]
    ]
