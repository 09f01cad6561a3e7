-- ===== src/Sessions/Registry/Durable.antt =====
-- The methods of src/prodeo/sessions/registry.py and the log that rebuilds the catalogue.
use command_center.Base.{
  ℕ, String, Option, some, List, [], ◌∷◌, not, option_Eq, ◌==◌, string_Eq, pair_Eq, nat_Eq, ◌≡◌,
  refl, ◌∙◌, arith, Bool-cases, Option-cases, inl, inr,
}
use command_center.Base.Dict.{get}
use command_center.Events.Types.{session_discovered}
use command_center.Events.Envelope.{session}
use command_center.Events.Host.{Host, emit, new_event, published-emit, tick, draw}
use command_center.Sessions.State.{discovered, rank_eq}
use command_center.Sessions.Model.{Session, SessionDescriptor}
use command_center.Sessions.Registry.{
  Registry, source, add, store, publish_updated, refreshed, changed, rediscover, created, discover,
  upsert_discovered, touch, refresh_model, refresh_permission_mode,
}
use command_center.Sessions.Registry.Fold.{described, apply}
use command_center.Sessions.Registry.Replay.{
  view, IsDurable-publish, IsDurable-same, updated-IsDurable,
}
use command_center.Sessions.Registry.Logged.{
  IsLogged, IsKeyed-store, IsKeyed-add, SameView-hidden, SameView-add, publish_changes-IsDurable,
  observe_state-IsLogged, hint-IsLogged,
}

refreshed-unchanged : (d : SessionDescriptor) (s : Session) → changed d s ≡ [] → refreshed d s ≡ s
unfolding changed refreshed
refreshed-unchanged d s e = ground arith

described-refreshed :
    (d : SessionDescriptor) (s : Session) → described s (refreshed d s) ≡ refreshed d s
unfolding described refreshed
described-refreshed d s = refl

refreshed-id : (d : SessionDescriptor) (s : Session) → (refreshed d s).id ≡ s.id
unfolding refreshed
refreshed-id d s = refl

module _ (h : Host) (r : Registry) (v : IsLogged h r) where
  rediscover-IsLogged :
      (sid : ℕ) (s : Session) (d : SessionDescriptor)
      → get r.by_id sid ≡ some s
      → IsLogged (rediscover h r sid s d).host (rediscover h r sid s d).registry
  unfolding rediscover
  rediscover-IsLogged sid s d found =
      hint-IsLogged _ _
        (record {
          durable =
              publish_changes-IsDurable h v.durable sid s (refreshed d s) (changed d s) found
                (v.keyed sid s found) (described-refreshed d s) (refreshed-id d s)
                (refreshed-unchanged d s);
          keyed =
              IsKeyed-store r sid (refreshed d s) v.keyed (refreshed-id d s ∙ v.keyed sid s found);
        })
        (refreshed d s) d.state

  add-IsLogged :
      (h' : Host) (s : Session)
      → h'.published ≡ h.published
      → IsLogged
          (emit h' session_discovered r.node source (some s.id) (("session", session s) ∷ []))
          (add r s)
  unfolding new_event apply get
  add-IsLogged h' s same_log = record {
    durable =
        rw (published-emit, same_log)
          (IsDurable-publish _ v.durable refl (λ b same. (add b s, refl, SameView-add s same)));
    keyed = IsKeyed-add r 0 s v.keyed;
  }

  discover-IsLogged :
      (adapter : String) (d : SessionDescriptor)
      → IsLogged (discover h r adapter d).host (discover h r adapter d).registry
  unfolding discover
  discover-IsLogged adapter d =
      let s = created h r adapter d in
      let v' = add-IsLogged (draw (tick h)) s refl in
      elim (Bool-cases (rank_eq d.state discovered)) [
        | inl plain ↦ rw plain v'
        | inr other ↦ rw other (observe_state-IsLogged _ _ v' s.id d.state "discovered")
      ]

  pub upsert_discovered-IsLogged :
      (adapter : String) (d : SessionDescriptor)
      → IsLogged (upsert_discovered h r adapter d).host (upsert_discovered h r adapter d).registry
  unfolding upsert_discovered
  upsert_discovered-IsLogged adapter d =
      elim (Option-cases (get r.by_native (adapter, d.native_id))) [
        | inl unknown ↦ rw (unknown, upsert_discovered) (discover-IsLogged adapter d)
        | inr (sid, known) ↦ elim (Option-cases (get r.by_id sid)) [
          | inl lost ↦ rw (known, lost, upsert_discovered) (discover-IsLogged adapter d)
          | inr (s, found) ↦
              rw (known, found, upsert_discovered) (rediscover-IsLogged sid s d found)
        ]
      ]

  hidden-IsLogged :
      (h' : Host) (sid : ℕ) (s s' : Session)
      → h'.published ≡ h.published
      → get r.by_id sid ≡ some s
      → view s' ≡ view s
      → s'.id ≡ s.id
      → IsLogged h' (store r sid s')
  hidden-IsLogged h' sid s s' same_log found same_view same_id = record {
    durable = rw same_log (
        IsDurable-same {r' = store r sid s'} refl
          (λ b. SameView-hidden {b = b} sid s s' found same_view) v.durable);
    keyed = IsKeyed-store r sid s' v.keyed (same_id ∙ v.keyed sid s found);
  }

  pub touch-IsLogged :
      (sid : ℕ) (at : Option ℕ) → IsLogged (touch h r sid at).0 (touch h r sid at).1
  unfolding touch view
  touch-IsLogged sid at = elim (Option-cases (get r.by_id sid)) [
    | inl absent ↦ rw (absent, touch) v
    | inr (s, found) ↦ elim (Option-cases at) [
      | inl unset ↦ rw (found, unset, touch) (hidden-IsLogged (tick h) sid s _ refl found refl refl)
      | inr (t, given) ↦ rw (found, given, touch) (hidden-IsLogged h sid s _ refl found refl refl)
    ]
  ]

  updated-IsLogged :
      (sid : ℕ) (s s' : Session) (fields : List String)
      → get r.by_id sid ≡ some s
      → described s s' ≡ s'
      → s'.id ≡ s.id
      → IsLogged (publish_updated h (store r sid s') s' fields) (store r sid s')
  unfolding publish_updated get
  updated-IsLogged sid s s' fields found whole same_id = record {
    durable =
        updated-IsDurable h sid s found v.durable s' s'.id _ _ (same_id ∙ v.keyed sid s found) whole
          refl;
    keyed = IsKeyed-store r sid s' v.keyed (same_id ∙ v.keyed sid s found);
  }

  pub refresh_model-IsLogged :
      (sid : ℕ) (model : String)
      → IsLogged (refresh_model h r sid model).0 (refresh_model h r sid model).1
  unfolding refresh_model described
  refresh_model-IsLogged sid model = elim (Option-cases (get r.by_id sid)) [
    | inl absent ↦ rw (absent, refresh_model) v
    | inr (s, found) ↦ elim (Bool-cases (not (s.model == some model))) [
      | inl other ↦ rw (found, other, refresh_model) (updated-IsLogged sid s _ _ found refl refl)
      | inr same ↦ rw (found, same, refresh_model) v
    ]
  ]

  pub refresh_permission_mode-IsLogged :
      (sid : ℕ) (mode : String)
      → IsLogged (refresh_permission_mode h r sid mode).0 (refresh_permission_mode h r sid mode).1
  unfolding refresh_permission_mode described
  refresh_permission_mode-IsLogged sid mode = elim (Option-cases (get r.by_id sid)) [
    | inl absent ↦ rw (absent, refresh_permission_mode) v
    | inr (s, found) ↦ elim (Bool-cases (not (s.permission_mode == mode))) [
      | inl other ↦
          rw (found, other, refresh_permission_mode) (updated-IsLogged sid s _ _ found refl refl)
      | inr same ↦ rw (found, same, refresh_permission_mode) v
    ]
  ]
