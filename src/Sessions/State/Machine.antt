-- ===== src/Sessions/State/Machine.antt =====
-- What runs of the state machine of state.py can do.
use command_center.Base.{◌≡◌, refl, true, false, arith, ◌↔◌, Bool, not, ◌&&◌, ◌||◌}
use command_center.Sessions.State.{
  SessionState, discovered, starting, running, waiting_on_user, completed, failed, stopped,
  archived, can_transition, rank_eq,
}

-- The states that a session can pass through, one legal transition at a time.
pub data Reach (s : SessionState) : SessionState → Type 0 where
  here : Reach s s
  next : (t : SessionState) {u : SessionState} → Reach s t → can_transition t u ≡ true → Reach s u

-- The independent description: a session stays where it is, or it has not been archived and goes to
-- a state other than `discovered`, and to `starting` only from `discovered`.
abbrev pub can_reach : SessionState → SessionState → Bool
can_reach s t =
    rank_eq s t
    || (not (rank_eq s archived)
        && not (rank_eq t discovered)
        && (not (rank_eq t starting) || rank_eq s discovered))

can_reach-step :
    (s t u : SessionState) → can_reach s t ≡ true → can_transition t u ≡ true → can_reach s u ≡ true
unfolding can_transition
can_reach-step s t u h k = ground arith

can_reach_refl : (s : SessionState) → can_reach s s ≡ true
can_reach_refl s = ground arith

Reach→can_reach : {s t : SessionState} → Reach s t → can_reach s t ≡ true
Reach→can_reach {s} here = can_reach_refl s
Reach→can_reach {s} (next t {u} r h) = can_reach-step s t u (Reach→can_reach r) h

-- Every live state goes to `running` at once.
to_running : (s : SessionState) → rank_eq s archived ≡ false → Reach s running
unfolding can_transition
to_running discovered h = next discovered here refl
to_running starting h = next starting here refl
to_running running h = here
to_running waiting_on_user h = next waiting_on_user here refl
to_running completed h = next completed here refl
to_running failed h = next failed here refl
to_running stopped h = next stopped here refl
to_running archived h = cc

from_running : (t : SessionState) → can_reach running t ≡ true → Reach running t
unfolding can_transition
from_running discovered h = cc
from_running starting h = cc
from_running running h = here
from_running waiting_on_user h = next running here refl
from_running completed h = next running here refl
from_running failed h = next running here refl
from_running stopped h = next running here refl
from_running archived h = next completed (next running here refl) refl

pub Reach_trans : {s t u : SessionState} → Reach s t → Reach t u → Reach s u
Reach_trans r here = r
Reach_trans r (next t q h) = next t (Reach_trans r q) h

can_reach→Reach : (s t : SessionState) → can_reach s t ≡ true → Reach s t
unfolding can_transition
can_reach→Reach archived archived h = here
can_reach→Reach discovered starting h = next discovered here refl
can_reach→Reach discovered discovered h = here
can_reach→Reach starting starting h = here
can_reach→Reach s t h = Reach_trans (to_running s (ground arith)) (from_running t (ground arith))

-- One state is reached from another by legal transitions exactly when they are the same, or the
-- first is not archived, the second is not `discovered`, and the second is `starting` only if the
-- first is `discovered`.
pub Reach_iff : (s t : SessionState) → Reach s t ↔ (can_reach s t ≡ true)
Reach_iff s t = (Reach→can_reach, can_reach→Reach s t)
