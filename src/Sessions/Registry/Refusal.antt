-- ===== src/Sessions/Registry/Refusal.antt =====
-- `observe_state` of src/prodeo/sessions/registry.py: both of its outcomes for a known session.
use command_center.Base.{
  ℕ, String, some, [], ◌∷◌, ◌++◌, true, false, ◌||◌, nat_Eq, ==_refl, ok, raise, illegal_transition,
  ◌≡◌, refl, arith, Bool-cases, inl, inr, ◌⊎◌,
}
use command_center.Base.Dict.{get, get-put}
use command_center.Events.Types.{adapter_error}
use command_center.Events.Host.{Host, new_event, published-emit, now}
use command_center.Events.Envelope.{Event}
use command_center.Sessions.State.{SessionState, rank_eq, rank_eq_iff, can_transition}
use command_center.Sessions.State
use command_center.Sessions.Model.{Session}
use command_center.Sessions.Registry.{Registry, source, refusal_payload, moved, observe_state}

-- The call returned a session in the state asked for, and the registry holds that session.
pub record Moved (h : Host) (r : Registry) (sid : ℕ) (to_state : SessionState) (reason : String)
    : Type 0 where
  pub session : Session
  pub returned : (observe_state h r sid to_state reason).result ≡ ok session
  pub held : get (observe_state h r sid to_state reason).registry.by_id sid ≡ some session
  pub in_state : session.state ≡ to_state

-- The call raised, changed nothing, and published one `adapter.error` and nothing else.
pub record Refused (h : Host) (r : Registry) (sid : ℕ) (s : Session) (to_state : SessionState)
    (reason : String) : Type 0 where
  pub raised :
      (observe_state h r sid to_state reason).result
      ≡ raise (illegal_transition sid (State.value s.state) (State.value to_state))
  pub unchanged : (observe_state h r sid to_state reason).registry ≡ r
  pub event : Event
  pub announced : (observe_state h r sid to_state reason).host.published ≡ h.published ++ event ∷ []
  pub is_error : event.type ≡ adapter_error

-- For a known session the call succeeds exactly when the state is the one it is in or the state
-- machine allows the step; otherwise it is refused with an error event and changes nothing.
pub observe_state_complete :
    (h : Host) (r : Registry) (sid : ℕ) (s : Session) (to_state : SessionState) (reason : String)
    → get r.by_id sid ≡ some s
    → ((rank_eq to_state s.state || can_transition s.state to_state) ≡ true)
        × Moved h r sid to_state reason
      ⊎ ((rank_eq to_state s.state || can_transition s.state to_state) ≡ false)
        × Refused h r sid s to_state reason
unfolding observe_state new_event
observe_state_complete h r sid s to_state reason found =
    elim (Bool-cases (rank_eq to_state s.state)) [
      | inl same ↦ inl (
        rw same,
        record {
          session = s;
          returned = rw (found, observe_state, same);
          held = rw (found, observe_state, same) found;
          in_state = ground (arith, rank_eq_iff to_state s.state);
        },
      )
      | inr other ↦ elim (Bool-cases (can_transition s.state to_state)) [
        | inl legal ↦ inl (
          rw (other, legal),
          record {
            session = moved s to_state (now h);
            returned = rw (found, observe_state, other, legal);
            held = rw (found, observe_state, other, legal) (simp get-put (rw (==_refl sid)));
            in_state = unfold moved in refl;
          },
        )
        | inr illegal ↦ inr (
          rw (other, illegal),
          record {
            raised = rw (found, observe_state, other, illegal);
            unchanged = rw (found, observe_state, other, illegal);
            event =
                new_event h adapter_error r.node source (some sid)
                  (refusal_payload s to_state reason);
            announced = rw (found, observe_state, other, illegal) (rw published-emit);
            is_error = refl;
          },
        )
      ]
    ]
