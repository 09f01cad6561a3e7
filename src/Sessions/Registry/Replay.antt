-- ===== src/Sessions/Registry/Replay.antt =====
-- The event log of the Session Registry rebuilds its catalogue (src/prodeo/sessions/registry.py).
use mathlib.Core.Option
use command_center.Base.{
  ℕ, String, Option, none, some, List, [], ◌∷◌, ◌++◌, Bool, true, false, not, ◌||◌, if◌then◌else◌,
  ◌==◌, string_Eq, pair_Eq, nat_Eq, Result, ok, raise, ◌>>=◌, ◌≡◌, refl, ap, sym, ◌∙◌, arith,
  some_inj,
}
use command_center.Base.Dict.{get, get-put}
use command_center.Events.Types.{session_discovered, session_state_changed, session_updated}
use command_center.Events.Envelope.{Event, Payload, session, state, item}
use command_center.Events.Host.{Host, emit, new_event, published-emit, now}
use command_center.Sessions.State.{SessionState, elem, end_states}
use command_center.Sessions.Model.{Session}
use command_center.Sessions.Registry.{Registry, init, moved, store}
use command_center.Sessions.Registry.Fold.{described, apply, replay}

-- What the log determines of a session: all but the times of its last activity and of its end.
unfoldable pub view : Session → Session
view s = record s { last_activity_at = 0; ended_at = Option.map (λ _. 0) s.ended_at }

pub record SameView (a b : Registry) : Type 0 where
  pub views : (sid : ℕ) → Option.map view (get a.by_id sid) ≡ Option.map view (get b.by_id sid)
  pub natives : (k : String × String) → get a.by_native k ≡ get b.by_native k

-- Folding the log from an empty registry succeeds, and gives what `r` shows.
pub record IsDurable (log : List Event) (r : Registry) : Type 0 where
  pub rebuilt : Registry
  pub replays : replay (init r.node) log ≡ ok rebuilt
  pub same : SameView r rebuilt

>>=-step :
    {A : Type 0} (q : Result A) (f g k : A → Result A)
    → ((a : A) → f a ≡ (g a >>= k))
    → (q >>= f) ≡ ((q >>= g) >>= k)
>>=-step (ok a) f g k h = h a
>>=-step (raise e) f g k h = refl

pub replay-append :
    (r : Registry) (xs ys : List Event) → replay r (xs ++ ys) ≡ (replay r xs >>= λ r'. replay r' ys)
unfolding replay
replay-append r [] ys = refl
replay-append r (x ∷ xs) ys = >>=-step (apply r x) _ _ _ (λ r'. replay-append r' xs ys)

pub view-some :
    {a b : Registry} (sid : ℕ) {s : Session}
    → SameView a b
    → get a.by_id sid ≡ some s
    → (t : Session) × (get b.by_id sid ≡ some t) × (view s ≡ view t)
view-some {a} {b} sid {s} same found = go (get b.by_id sid) refl
  where
    go :
        (o : Option Session)
        → get b.by_id sid ≡ o
        → (t : Session) × (get b.by_id sid ≡ some t) × (view s ≡ view t)
    go none e = cc (same.views sid)
    go (some t) e = (t, e, some_inj (rw (found, e) at (same.views sid)))

pub if_same :
    (b : Bool) (s t : Session) (o p : Option Session)
    → Option.map view (some s) ≡ Option.map view (some t)
    → Option.map view o ≡ Option.map view p
    → Option.map view (if b then some s else o) ≡ Option.map view (if b then some t else p)
if_same true s t o p e f = e
if_same false s t o p e f = f

pub SameView-store :
    {a b : Registry} (sid : ℕ) (s t : Session)
    → SameView a b
    → view s ≡ view t
    → SameView (store a sid s) (store b sid t)
SameView-store {a} {b} sid s t same e = record {
  views = λ j. simp get-put (if_same (sid == j) s t _ _ (ap some e) (same.views j));
  natives = same.natives;
}

abbrev view_moved : Session → SessionState → Session
view_moved v to_state = record v {
  state = to_state;
  last_activity_at = 0;
  ended_at = if elem to_state end_states then some 0 else none;
}

pub moved-view :
    (s : Session) (to_state : SessionState) (at : ℕ)
    → view (moved s to_state at) ≡ view_moved (view s) to_state
unfolding moved view
moved-view s to_state at = ground arith

pub described-view :
    (s t u : Session) → view s ≡ view t → view (described s u) ≡ view (described t u)
unfolding described view
described-view s t u e = ap (λ (v : Session). described v u) e

abbrev pub ignored : String → Bool
ignored type_ =
    not (type_ == session_discovered || type_ == session_state_changed || type_ == session_updated)

module _ {log : List Event} {r r' : Registry} (e : Event) (d : IsDurable log r)
    (n : r'.node ≡ r.node) where
  -- One more event, under which the catalogue and its fold move alike.
  pub IsDurable-publish :
      ((b : Registry) → SameView r b → (b' : Registry) × (apply b e ≡ ok b') × SameView r' b')
      → IsDurable (log ++ e ∷ []) r'
  unfolding replay
  IsDurable-publish step =
      let (b', applied, same) = step d.rebuilt d.same in
      record {
        rebuilt = b';
        replays = rw (n, replay-append, d.replays, ◌>>=◌, applied, ◌>>=◌);
        same = same;
      }

-- An event of another kind changes nothing.
pub IsDurable-ignored :
    {log : List Event} {r : Registry} (e : Event)
    → ignored e.type ≡ true
    → IsDurable log r
    → IsDurable (log ++ e ∷ []) r
unfolding apply
IsDurable-ignored {log} {r} e h d =
    IsDurable-publish {r' = r} e d refl (λ b same. (b, ground arith, same))

-- What is not in the view of the catalogue may change with no event.
pub IsDurable-same :
    {log : List Event} {r r' : Registry}
    → r'.node ≡ r.node
    → ((b : Registry) → SameView r b → SameView r' b)
    → IsDurable log r
    → IsDurable log r'
IsDurable-same {log} {r} {r'} n keep d = record {
  rebuilt = d.rebuilt;
  replays = rw n d.replays;
  same = keep d.rebuilt d.same;
}

module _ (h : Host) {r : Registry} (sid : ℕ) (s : Session) (found : get r.by_id sid ≡ some s)
    (d : IsDurable h.published r) where
  pub changed_state-IsDurable :
      (h' : Host) (source : String) (to_state : SessionState) (at : ℕ) (payload : Payload)
      → h'.published ≡ h.published
      → item payload "to" ≡ ok (state to_state)
      → IsDurable
          (emit h' session_state_changed r.node source (some sid) payload).published
          (store r sid (moved s to_state at))
  unfolding apply new_event
  changed_state-IsDurable h' source to_state at payload pub_eq has =
      rw (published-emit, pub_eq)
        (IsDurable-publish _ d refl λ b same.
          let (t, there, alike) = view-some sid same found in
          (
            store b sid (moved t to_state (now h')),
            ground (arith, there, has),
            SameView-store sid _ _ same (
                moved-view s to_state at
                ∙ ap (λ v. view_moved v to_state) alike
                ∙ sym (moved-view t to_state (now h'))),
          ))

  pub updated-IsDurable :
      (s' : Session) (key : ℕ) (source : String) (payload : Payload)
      → key ≡ sid
      → described s s' ≡ s'
      → item payload "session" ≡ ok (session s')
      → IsDurable
          (emit h session_updated r.node source (some key) payload).published
          (store r sid s')
  unfolding apply new_event
  updated-IsDurable s' key source payload keyed whole has = rw published-emit (
      IsDurable-publish _ d refl λ b same.
        let (t, there, alike) = view-some sid same found in
        (
          store b sid (described t s'),
          ground (arith, there, has, keyed),
          SameView-store sid _ _ same (sym (ap view whole) ∙ described-view s t s' alike),
        ))
