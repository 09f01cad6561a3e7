-- ===== src/Sessions/State.antt =====
-- src/prodeo/sessions/state.py: the canonical session state machine.
pub mod Machine
use command_center.Base.{Bool, true, false, String, if◌then◌else◌, ◌≡◌, arith, List, [], ◌∷◌, ◌↔◌}

pub data SessionState : Type 0 where
  discovered starting running waiting_on_user completed failed stopped archived : SessionState

-- `StrEnum` values are equal when they are the same member.
abbrev pub rank_eq : SessionState → SessionState → Bool
rank_eq discovered discovered = true
rank_eq starting starting = true
rank_eq running running = true
rank_eq waiting_on_user waiting_on_user = true
rank_eq completed completed = true
rank_eq failed failed = true
rank_eq stopped stopped = true
rank_eq archived archived = true
rank_eq _ _ = false

abbrev pub value : SessionState → String
value discovered = "discovered"
value starting = "starting"
value running = "running"
value waiting_on_user = "waiting_on_user"
value completed = "completed"
value failed = "failed"
value stopped = "stopped"
value archived = "archived"

-- `x in states`
abbrev pub elem : SessionState → List SessionState → Bool
elem s [] = false
elem s (t ∷ ts) = if rank_eq s t then true else elem s ts

abbrev pub end_states : List SessionState
end_states = completed ∷ failed ∷ stopped ∷ archived ∷ []

abbrev pub legal : SessionState → List SessionState
legal discovered = starting ∷ running ∷ waiting_on_user ∷ completed ∷ failed ∷ stopped ∷ []
legal starting = running ∷ failed ∷ stopped ∷ []
legal running = waiting_on_user ∷ completed ∷ failed ∷ stopped ∷ []
legal waiting_on_user = running ∷ completed ∷ failed ∷ stopped ∷ []
legal completed = running ∷ archived ∷ []
legal failed = running ∷ archived ∷ []
legal stopped = running ∷ archived ∷ []
legal archived = []

unfoldable pub can_transition : SessionState → SessionState → Bool
can_transition from_state to_state = elem to_state (legal from_state)

pub rank_eq_iff : (s t : SessionState) → (rank_eq s t ≡ true) ↔ (s ≡ t)
rank_eq_iff s t = ground arith
