-- ===== src/Sessions/Registry/Life.antt =====
-- What the methods of the Session Registry do to the sessions it holds.
use command_center.Base.{
  ℕ, String, none, some, true, not, ◌&&◌, ◌==◌, string_Eq, pair_Eq, nat_Eq, option_Eq, nat_eq,
  nat_eq_iff, subst, ◌≡◌, refl, ap, sym, ◌∙◌, Bool-cases, Option-cases, inl, inr, some_inj,
}
use command_center.Base.Dict.{get, get-put}
use command_center.Events.Host.{Host, now, fresh}
use command_center.Sessions.State.{
  SessionState, waiting_on_user, discovered, rank_eq, can_transition,
}
use command_center.Sessions.State.Machine.{Reach, here, next, Reach_trans}
use command_center.Sessions.Model.{Session, SessionDescriptor}
use command_center.Sessions.Registry.{
  Registry, add, moved, store, transition, observe_state, refreshed, hint, created, discover,
  upsert_discovered, touch, refresh_model, refresh_permission_mode,
}
use command_center.Sessions.Registry.Calls.{
  Call, upsert, observe, touched, set_model, set_mode, call,
}

-- What the record of a session may become: its identity and origin stay, and its state moves by
-- legal transitions only.
pub record Follows (s s' : Session) : Type 0 where
  pub same_id : s'.id ≡ s.id
  pub same_adapter : s'.adapter ≡ s.adapter
  pub same_native_id : s'.native_id ≡ s.native_id
  pub same_node : s'.node ≡ s.node
  pub same_created_at : s'.created_at ≡ s.created_at
  pub legal : Reach s.state s'.state

-- Every session that was there is still there, as one that it may become.
pub record Keeps (r r' : Registry) : Type 0 where
  pub at :
      (sid : ℕ) (s : Session)
      → get r.by_id sid ≡ some s
      → (s' : Session) × (get r'.by_id sid ≡ some s') × Follows s s'

Follows_refl : (s : Session) → Follows s s
Follows_refl s = record {
  same_id = refl;
  same_adapter = refl;
  same_native_id = refl;
  same_node = refl;
  same_created_at = refl;
  legal = here;
}

Follows_trans : {s t u : Session} → Follows s t → Follows t u → Follows s u
Follows_trans f g = record {
  same_id = g.same_id ∙ f.same_id;
  same_adapter = g.same_adapter ∙ f.same_adapter;
  same_native_id = g.same_native_id ∙ f.same_native_id;
  same_node = g.same_node ∙ f.same_node;
  same_created_at = g.same_created_at ∙ f.same_created_at;
  legal = Reach_trans f.legal g.legal;
}

Keeps-refl : (r : Registry) → Keeps r r
Keeps-refl r = record { at = λ sid s found. (s, found, Follows_refl s) }

Keeps-trans : {r r' r'' : Registry} → Keeps r r' → Keeps r' r'' → Keeps r r''
Keeps-trans k l = record {
  at = λ sid s found.
      let (t, there, f) = k.at sid s found in
      let (u, last, g) = l.at sid t there in (u, last, Follows_trans f g);
}

module _ (r : Registry) (sid : ℕ) (s s' : Session) (found : get r.by_id sid ≡ some s)
    (f : Follows s s') where
  same_key : (j : ℕ) (t : Session) → get r.by_id j ≡ some t → nat_eq sid j ≡ true → Follows t s'
  same_key j t there e =
      subst (λ x. Follows x s')
        (some_inj (sym found ∙ (ap (get r.by_id) ((nat_eq_iff sid j).0 e) ∙ there))) f

  Keeps-store : Keeps r (store r sid s')
  Keeps-store = record {
    at = λ j t there. elim (Bool-cases (nat_eq sid j)) [
      | inl e ↦ (s', simp get-put (rw e), same_key j t there e)
      | inr e ↦ (t, simp get-put (rw e there), Follows_refl t)
    ];
  }

Keeps-add : (r : Registry) (s : Session) → get r.by_id s.id ≡ none → Keeps r (add r s)
Keeps-add r s absent = record {
  at = λ j t there. elim (Bool-cases (nat_eq s.id j)) [
    | inl e ↦ absurd (cc (absent, ap (get r.by_id) ((nat_eq_iff s.id j).0 e), there))
    | inr e ↦ (t, simp get-put (rw e there), Follows_refl t)
  ];
}

Follows-moved :
    (s : Session) (to_state : SessionState) (at : ℕ)
    → can_transition s.state to_state ≡ true
    → Follows s (moved s to_state at)
unfolding moved
Follows-moved s to_state at legal = record {
  same_id = refl;
  same_adapter = refl;
  same_native_id = refl;
  same_node = refl;
  same_created_at = refl;
  legal = next s.state here legal;
}

Follows-refreshed : (s : Session) (d : SessionDescriptor) → Follows s (refreshed d s)
unfolding refreshed
Follows-refreshed s d = record {
  same_id = refl;
  same_adapter = refl;
  same_native_id = refl;
  same_node = refl;
  same_created_at = refl;
  legal = here;
}

transition-Keeps :
    (h : Host) (r : Registry) (sid : ℕ) (s : Session) (to_state : SessionState) (reason : String)
    → get r.by_id sid ≡ some s
    → Keeps r (transition h r sid s to_state reason).registry
unfolding transition
transition-Keeps h r sid s to_state reason found = elim (Bool-cases (rank_eq to_state s.state)) [
  | inl same ↦ rw same (Keeps-refl r)
  | inr other ↦ elim (Bool-cases (can_transition s.state to_state)) [
    | inl legal ↦
        rw (other, legal) (Keeps-store r sid s _ found (Follows-moved s to_state (now h) legal))
    | inr illegal ↦ rw (other, illegal) (Keeps-refl r)
  ]
]

observe_state-Keeps :
    (h : Host) (r : Registry) (sid : ℕ) (to_state : SessionState) (reason : String)
    → Keeps r (observe_state h r sid to_state reason).registry
unfolding observe_state
observe_state-Keeps h r sid to_state reason = elim (Option-cases (get r.by_id sid)) [
  | inl absent ↦ rw (absent, observe_state) (Keeps-refl r)
  | inr (s, found) ↦ rw (found, observe_state) (transition-Keeps h r sid s to_state reason found)
]

hint-Keeps :
    (h : Host) (r : Registry) (s : Session) (to_state : SessionState)
    → Keeps r (hint h r s to_state).registry
unfolding hint
hint-Keeps h r s to_state = elim (Bool-cases (rank_eq to_state s.state)) [
  | inl same ↦ rw same (Keeps-refl r)
  | inr other ↦
      elim (Bool-cases (not (rank_eq s.state waiting_on_user) && can_transition s.state to_state)) [
        | inl follows ↦ rw (other, follows) (observe_state-Keeps h r s.id to_state "discovery")
        | inr refused ↦ rw (other, refused) (Keeps-refl r)
      ]
]

module _ (h : Host) (r : Registry) (new : get r.by_id (fresh h) ≡ none) where
  discover-Keeps :
      (adapter : String) (d : SessionDescriptor) → Keeps r (discover h r adapter d).registry
  unfolding discover created
  discover-Keeps adapter d =
      let k = Keeps-add r (created h r adapter d) new in
      elim (Bool-cases (rank_eq d.state discovered)) [
        | inl plain ↦ rw plain k
        | inr other ↦
            rw other (Keeps-trans k (observe_state-Keeps _ _ (fresh h) d.state "discovered"))
      ]

  upsert_discovered-Keeps :
      (adapter : String) (d : SessionDescriptor)
      → Keeps r (upsert_discovered h r adapter d).registry
  unfolding upsert_discovered
  upsert_discovered-Keeps adapter d = elim (Option-cases (get r.by_native (adapter, d.native_id))) [
    | inl unknown ↦ rw (unknown, upsert_discovered) (discover-Keeps adapter d)
    | inr (sid, known) ↦ elim (Option-cases (get r.by_id sid)) [
      | inl lost ↦ rw (known, lost, upsert_discovered) (discover-Keeps adapter d)
      | inr (s, found) ↦
          rw (known, found, upsert_discovered)
            (Keeps-trans (Keeps-store r sid s (refreshed d s) found (Follows-refreshed s d))
              (hint-Keeps _ _ (refreshed d s) d.state))
    ]
  ]

-- A write to fields other than identity, origin and state.
Keeps-described :
    (r : Registry) (sid : ℕ) (s s' : Session)
    → get r.by_id sid ≡ some s
    → (record s' {
      title = s.title;
      model = s.model;
      permission_mode = s.permission_mode;
      last_activity_at = s.last_activity_at;
    })
      ≡ s
    → Keeps r (store r sid s')
Keeps-described r sid s s' found e = Keeps-store r sid s s' found (record {
  same_id = ap (λ (x : Session). x.id) e;
  same_adapter = ap (λ (x : Session). x.adapter) e;
  same_native_id = ap (λ (x : Session). x.native_id) e;
  same_node = ap (λ (x : Session). x.node) e;
  same_created_at = ap (λ (x : Session). x.created_at) e;
  legal = subst (Reach s.state) (sym (ap (λ (x : Session). x.state) e)) here;
})

-- Any call of the registry, under a ULID that is not yet taken: every session keeps its id, adapter,
-- native id, node and creation time, and its state goes where legal transitions lead.
pub call-Keeps :
    (h : Host) (r : Registry) (c : Call) → get r.by_id (fresh h) ≡ none → Keeps r (call h r c).1
unfolding call touch refresh_model refresh_permission_mode
call-Keeps h r (upsert adapter d) new = upsert_discovered-Keeps h r new adapter d
call-Keeps h r (observe sid to_state reason) new = observe_state-Keeps h r sid to_state reason
call-Keeps h r (touched sid at) new = elim (Option-cases (get r.by_id sid)) [
  | inl absent ↦ rw (absent, touch) (Keeps-refl r)
  | inr (s, found) ↦ elim (Option-cases at) [
    | inl unset ↦ rw (found, unset, touch) (Keeps-described r sid s _ found refl)
    | inr (t, given) ↦ rw (found, given, touch) (Keeps-described r sid s _ found refl)
  ]
]
call-Keeps h r (set_model sid model) new = elim (Option-cases (get r.by_id sid)) [
  | inl absent ↦ rw (absent, refresh_model) (Keeps-refl r)
  | inr (s, found) ↦ elim (Bool-cases (not (s.model == some model))) [
    | inl other ↦ rw (found, refresh_model, other) (Keeps-described r sid s _ found refl)
    | inr same ↦ rw (found, refresh_model, same) (Keeps-refl r)
  ]
]
call-Keeps h r (set_mode sid mode) new = elim (Option-cases (get r.by_id sid)) [
  | inl absent ↦ rw (absent, refresh_permission_mode) (Keeps-refl r)
  | inr (s, found) ↦ elim (Bool-cases (not (s.permission_mode == mode))) [
    | inl other ↦ rw (found, refresh_permission_mode, other) (Keeps-described r sid s _ found refl)
    | inr same ↦ rw (found, refresh_permission_mode, same) (Keeps-refl r)
  ]
]
