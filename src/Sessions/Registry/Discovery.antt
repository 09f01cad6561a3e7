-- ===== src/Sessions/Registry/Discovery.antt =====
-- Repeated discovery in src/prodeo/sessions/registry.py: it adds nothing to the log a second time,
-- and it does not un-park a session.
use command_center.Base.{
  ℕ, String, some, [], ◌∷◌, Bool, true, false, not, ◌&&◌, ◌||◌, All, if◌then◌else◌, string_Eq,
  pair_Eq, nat_Eq, option_Eq, option_eq_iff, ==_refl, ok, ◌≡◌, refl, ap, ◌∙◌, arith, Bool-cases,
  inl, inr,
}
use package.text.Mathlib.TextEquality.{eq_iff}
use command_center.Base.Dict.{Dict, IsDict, get, update, get-put, put-get, get-update}
use command_center.Base.Json.{Json, json_eq}
use command_center.Events.Host.{Host}
use command_center.Sessions.State.{
  SessionState, waiting_on_user, rank_eq, rank_eq_iff, can_transition,
}
use command_center.Sessions.Model.{Session, SessionDescriptor}
use command_center.Sessions.Registry.{
  Registry, store, moved, observe_state, publish_changes, refreshed, changed, changes_title,
  changes_model, changes_metadata, hint, rediscover, upsert_discovered,
}

-- The metadata of a descriptor is a `dict`, whose values each equal themselves.
pub record IsPlain (d : SessionDescriptor) : Type 0 where
  pub distinct : IsDict d.metadata
  pub reflexive : All (λ (k, v). json_eq v v ≡ true) d.metadata

-- The registry knows the descriptor's session, under `sid`.
pub record Knows (r : Registry) (adapter : String) (d : SessionDescriptor) (sid : ℕ) (s : Session)
    : Type 0 where
  pub native : get r.by_native (adapter, d.native_id) ≡ some sid
  pub found : get r.by_id sid ≡ some s
  pub keyed : s.id ≡ sid

upsert-rediscover :
    (h : Host) (r : Registry) (adapter : String) (d : SessionDescriptor) (sid : ℕ) (s : Session)
    → Knows r adapter d sid s
    → upsert_discovered h r adapter d ≡ rediscover h r sid s d
unfolding upsert_discovered
upsert-rediscover h r adapter d sid s k = rw (k.native, k.found, upsert_discovered)

All-present :
    (m es : Dict String Json)
    → All (λ (k, v). get m k ≡ some v) es
    → All (λ (k, v). json_eq v v ≡ true) es
    → changes_metadata m es ≡ false
unfolding changes_metadata
All-present m [] a b = refl
All-present m ((k, v) ∷ es) a b = rw (a.0, b.0) (All-present m es a.1 b.1)

-- Once refreshed, a session has nothing to refresh.
metadata-refreshed :
    (m es : Dict String Json)
    → IsDict es
    → All (λ (k, v). json_eq v v ≡ true) es
    → changes_metadata (if changes_metadata m es then update m es else m) es ≡ false
metadata-refreshed m es u b = elim (Bool-cases (changes_metadata m es)) [
  | inl c ↦ rw c (All-present (update m es) es (get-update m es u) b)
  | inr c ↦ rw c c
]

module _ (d : SessionDescriptor) (s t : Session) where
  title_settled : t.title ≡ (refreshed d s).title → changes_title d t ≡ false
  unfolding refreshed
  title_settled e =
      ground (arith, eq_iff d.title "", eq_iff d.title s.title, eq_iff d.title t.title)

  model_settled : t.model ≡ (refreshed d s).model → changes_model d t ≡ false
  unfolding refreshed
  model_settled e = ground (arith, option_eq_iff d.model s.model, option_eq_iff d.model t.model)

nothing_to_refresh :
    (d : SessionDescriptor) (t : Session)
    → changes_title d t ≡ false
    → changes_model d t ≡ false
    → changes_metadata t.metadata d.metadata ≡ false
    → (changed d t ≡ []) × (refreshed d t ≡ t)
unfolding changed refreshed
nothing_to_refresh d t a b c = (rw (a, b, c), rw (a, b, c))

settled :
    (d : SessionDescriptor) (s t : Session)
    → IsPlain d
    → t.title ≡ (refreshed d s).title
    → t.model ≡ (refreshed d s).model
    → t.metadata ≡ (refreshed d s).metadata
    → (changed d t ≡ []) × (refreshed d t ≡ t)
unfolding refreshed
settled d s t p e f g =
    nothing_to_refresh d t (title_settled d s t e) (model_settled d s t f)
      (rw g (metadata-refreshed s.metadata d.metadata p.distinct p.reflexive))

-- The state hint leads nowhere from here.
abbrev is_quiet : SessionState → SessionState → Bool
is_quiet s to_state =
    rank_eq to_state s || not (not (rank_eq s waiting_on_user) && can_transition s to_state)

record Hinted (r r' : Registry) (sid : ℕ) (s : Session) (to_state : SessionState) : Type 0 where
  session : Session
  found : get r'.by_id sid ≡ some session
  same_natives : r'.by_native ≡ r.by_native
  same_title : session.title ≡ s.title
  same_model : session.model ≡ s.model
  same_metadata : session.metadata ≡ s.metadata
  same_id : session.id ≡ s.id
  quiet : is_quiet session.state to_state ≡ true

module _ (h : Host) (r : Registry) (sid : ℕ) (s : Session) (to_state : SessionState)
    (found : get r.by_id sid ≡ some s) where
  unmoved : is_quiet s.state to_state ≡ true → Hinted r r sid s to_state
  unmoved q = record {
    session = s;
    found = found;
    same_natives = refl;
    same_title = refl;
    same_model = refl;
    same_metadata = refl;
    same_id = refl;
    quiet = q;
  }

  stepped :
      (reason : String)
      → rank_eq to_state s.state ≡ false
      → can_transition s.state to_state ≡ true
      → Hinted r (observe_state h r sid to_state reason).registry sid s to_state
  unfolding observe_state moved
  stepped reason other legal =
      rw (found, observe_state, other, legal)
        (record {
          session = moved s to_state (h.clock h.ticks);
          found = simp get-put (rw (==_refl sid));
          same_natives = refl;
          same_title = refl;
          same_model = refl;
          same_metadata = refl;
          same_id = refl;
          quiet = rw ((rank_eq_iff to_state to_state).1 refl);
        })

  hinted : s.id ≡ sid → Hinted r (hint h r s to_state).registry sid s to_state
  unfolding hint
  hinted keyed = elim (Bool-cases (rank_eq to_state s.state)) [
    | inl same ↦ rw same (unmoved (rw same))
    | inr other ↦
        elim (Bool-cases
          (not (rank_eq s.state waiting_on_user) && can_transition s.state to_state)) [
            | inl follows ↦
                rw (other, follows) (simp keyed (stepped "discovery" other (ground arith)))
            | inr refused ↦ rw (other, refused) (unmoved (rw (other, refused)))
          ]
  ]

quiet_hint :
    (h : Host) (r : Registry) (t : Session) (to_state : SessionState)
    → is_quiet t.state to_state ≡ true
    → hint h r t to_state ≡ record { result = ok t; host = h; registry = r }
unfolding hint
quiet_hint h r t to_state q = elim (Bool-cases (rank_eq to_state t.state)) [
  | inl same ↦ rw same
  | inr other ↦
      elim (Bool-cases (not (rank_eq t.state waiting_on_user) && can_transition t.state to_state)) [
        | inl follows ↦ absurd (cc (rw (other, follows) at q))
        | inr refused ↦ rw (other, refused)
      ]
]

-- A discovery that finds nothing new.
rediscover_quiet :
    (h : Host) (r : Registry) (sid : ℕ) (t : Session) (d : SessionDescriptor)
    → get r.by_id sid ≡ some t
    → (changed d t ≡ []) × (refreshed d t ≡ t)
    → is_quiet t.state d.state ≡ true
    → rediscover h r sid t d ≡ record { result = ok t; host = h; registry = r }
unfolding rediscover publish_changes
rediscover_quiet h r sid t d found e q =
    simp (e.1, e.0, put-get r.by_id sid t found) (quiet_hint h r t d.state q)

-- Discovering a known session a second time with the same descriptor publishes nothing and changes
-- nothing, whatever the first time did.
pub upsert_discovered_twice :
    (h h' : Host) (r : Registry) (adapter : String) (d : SessionDescriptor) (sid : ℕ) (s : Session)
    → Knows r adapter d sid s
    → IsPlain d
    → ((upsert_discovered h' (upsert_discovered h r adapter d).registry adapter d).host ≡ h')
      × ((upsert_discovered h' (upsert_discovered h r adapter d).registry adapter d).registry
          ≡ (upsert_discovered h r adapter d).registry)
unfolding rediscover refreshed
upsert_discovered_twice h h' r adapter d sid s k p =
    let s' = refreshed d s in
    let r' = store r sid s' in
    let t =
      hinted (publish_changes h r' s' (changed d s)) r' sid s' d.state
        (simp get-put (rw (==_refl sid))) k.keyed in
    let after = (rediscover h r sid s d).registry in
    let e : upsert_discovered h' after adapter d
        ≡ record { result = ok t.session; host = h'; registry = after } =
      upsert-rediscover h' after adapter d sid t.session (record {
        native = ap (λ n. get n (adapter, d.native_id)) t.same_natives ∙ k.native;
        found = t.found;
        keyed = t.same_id ∙ k.keyed;
      })
      ∙ rediscover_quiet h' after sid t.session d t.found
          (settled d s t.session p t.same_title t.same_model t.same_metadata) t.quiet in
    rw (upsert-rediscover h r adapter d sid s k, e) (refl, refl)

parked_hint :
    (h : Host) (r : Registry) (s : Session) (to_state : SessionState)
    → s.state ≡ waiting_on_user
    → (hint h r s to_state).registry ≡ r
unfolding hint
parked_hint h r s to_state w = elim (Bool-cases (rank_eq to_state s.state)) [
  | inl same ↦ rw same
  | inr other ↦ rw (other, (rank_eq_iff s.state waiting_on_user).1 w)
]

-- Discovery does not un-park: a known session that waits on the user still waits afterwards, and no
-- more than its descriptive fields have changed.
pub upsert_discovered_parked :
    (h : Host) (r : Registry) (adapter : String) (d : SessionDescriptor) (sid : ℕ) (s : Session)
    → Knows r adapter d sid s
    → s.state ≡ waiting_on_user
    → get (upsert_discovered h r adapter d).registry.by_id sid ≡ some (refreshed d s)
unfolding rediscover refreshed
upsert_discovered_parked h r adapter d sid s k w = rw (upsert-rediscover h r adapter d sid s k) (
    ap (λ (q : Registry). get q.by_id sid)
      (parked_hint (publish_changes h (store r sid (refreshed d s)) (refreshed d s) (changed d s))
        (store r sid (refreshed d s)) (refreshed d s) d.state w)
    ∙ simp get-put (rw (==_refl sid)))
