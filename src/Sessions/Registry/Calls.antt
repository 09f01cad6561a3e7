-- ===== src/Sessions/Registry/Calls.antt =====
-- The calls that clients make of the Session Registry, as data, and sequences of them.
use command_center.Base.{ℕ, String, Option, List, [], ◌∷◌, ◌≡◌, refl, arith}
use command_center.Base.Dict.{get}
use command_center.Events.Host.{Host}
use command_center.Sessions.State.{SessionState}
use command_center.Sessions.Model.{Session, SessionDescriptor}
use command_center.Sessions.Registry.{
  Registry, Outcome, init, observe_state, upsert_discovered, touch, refresh_model,
  refresh_permission_mode,
}
use command_center.Sessions.Registry.Fold.{replay}
use command_center.Sessions.Registry.Replay.{IsDurable}
use command_center.Sessions.Registry.Logged.{IsLogged, observe_state-IsLogged}
use command_center.Sessions.Registry.Durable.{
  upsert_discovered-IsLogged, touch-IsLogged, refresh_model-IsLogged,
  refresh_permission_mode-IsLogged,
}

pub data Call : Type 0 where
  upsert : String → SessionDescriptor → Call
  observe : ℕ → SessionState → String → Call
  touched : ℕ → Option ℕ → Call
  set_model : ℕ → String → Call
  set_mode : ℕ → String → Call

-- An exception goes to the caller; what was written before it stays.
abbrev after : Outcome Session → Host × Registry
after o = (o.host, o.registry)

unfoldable pub call : Host → Registry → Call → Host × Registry
call h r (upsert adapter d) = after (upsert_discovered h r adapter d)
call h r (observe sid to_state reason) = after (observe_state h r sid to_state reason)
call h r (touched sid at) = touch h r sid at
call h r (set_model sid model) = refresh_model h r sid model
call h r (set_mode sid mode) = refresh_permission_mode h r sid mode

unfoldable pub run : Host → Registry → List Call → Host × Registry
unfolding call
run h r [] = (h, r)
run h r (c ∷ cs) = let (h', r') = call h r c in run h' r' cs

pub call-IsLogged :
    (h : Host) (r : Registry) (c : Call) → IsLogged h r → IsLogged (call h r c).0 (call h r c).1
unfolding call
call-IsLogged h r (upsert adapter d) v = upsert_discovered-IsLogged h r v adapter d
call-IsLogged h r (observe sid to_state reason) v = observe_state-IsLogged h r v sid to_state reason
call-IsLogged h r (touched sid at) v = touch-IsLogged h r v sid at
call-IsLogged h r (set_model sid model) v = refresh_model-IsLogged h r v sid model
call-IsLogged h r (set_mode sid mode) v = refresh_permission_mode-IsLogged h r v sid mode

run-IsLogged :
    (h : Host) (r : Registry) (cs : List Call)
    → IsLogged h r
    → IsLogged (run h r cs).0 (run h r cs).1
unfolding run
run-IsLogged h r [] v = v
run-IsLogged h r (c ∷ cs) v = run-IsLogged (call h r c).0 (call h r c).1 cs (call-IsLogged h r c v)

pub init-IsLogged : (h : Host) (node : String) → h.published ≡ [] → IsLogged h (init node)
unfolding replay get
init-IsLogged h node empty = record {
  durable = record {
    rebuilt = init node;
    replays = rw empty;
    same = record { views = λ sid. refl; natives = λ k. refl };
  };
  keyed = λ sid s found. ground arith;
}

-- Whatever the calls, refused ones included, folding the published events from an empty registry
-- succeeds and gives the catalogue that the calls left, up to the activity and end times.
pub run-IsDurable :
    (h : Host) (node : String) (cs : List Call)
    → h.published ≡ []
    → IsDurable (run h (init node) cs).0.published (run h (init node) cs).1
run-IsDurable h node cs empty = (run-IsLogged h (init node) cs (init-IsLogged h node empty)).durable
