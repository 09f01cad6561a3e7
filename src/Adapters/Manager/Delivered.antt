-- ===== src/Adapters/Manager/Delivered.antt =====
-- The way of an answer back to the agent in src/prodeo/adapters/manager.py.
use command_center.Base.{
  ℕ, String, none, some, true, nat_Eq, Result, Result-cases, ok, raise, Error, [], ◌∷◌, ◌++◌, ◌≡◌,
  ◌⊎◌, refl, arith, inl, inr,
}
use command_center.Base.Dict.{get, put, get-put_self}
use command_center.Events.Types.{adapter_error}
use command_center.Events.Envelope.{Event}
use command_center.Events.Host.{Host, now, new_event, published-emit}
use command_center.Sessions.State.{SessionState, running, waiting_on_user, can_transition}
use command_center.Sessions.Model.{Session}
use command_center.Sessions.Registry.Refusal.{observe_state_complete}
use command_center.Mediation.Model.{Interaction, Answer, is_pending}
use command_center.Mediation.Service.{Mediation, answer_interaction, answered_with, accept}
use command_center.Adapters.Model.{InteractionRef}
use command_center.Adapters.Manager.{
  Manager, Closure, reply, respond, resolve_future, called_with, error, error_payload, source_of,
}
use command_center.Adapters.Manager.Observe.{observe_quietly, resume}
use command_center.Adapters.Manager.Interact.{is_answered, set_future, run_closure, deliver, answer}

-- The session is there, in that state.
abbrev pub IsIn : ℕ → SessionState → Manager → Type 0
IsIn sid state m = (s : Session) × (get m.registry.by_id sid ≡ some s) × (s.state ≡ state)

pub observe_quietly-IsIn :
    (h : Host) (m : Manager) (sid : ℕ) (s : Session) (state : SessionState) (reason : String)
    → get m.registry.by_id sid ≡ some s
    → can_transition s.state state ≡ true
    → let o = observe_quietly h m sid state reason in (o.result ≡ ok tt) × IsIn sid state o.manager
unfolding observe_quietly
observe_quietly-IsIn h m sid s state reason known legal =
    elim (observe_state_complete h m.registry sid s state reason known) [
      | inl (free, moved) ↦
          (rw (observe_quietly, moved.returned), (moved.session, moved.held, moved.in_state))
      | inr (stuck, refused) ↦ absurd (ground (arith, legal, stuck))
    ]

resume-IsIn :
    (h : Host) (m : Manager) (sid : ℕ) (reason : String)
    → IsIn sid waiting_on_user m
    → IsIn sid running (resume h m sid reason).manager
unfolding resume can_transition
resume-IsIn h m sid reason (s, known, parked) =
    (observe_quietly-IsIn h m sid s running reason known (rw parked)).1

-- The answer is in the agent's hands and the session runs again, or the adapter's call failed: the session
-- still waits, and after the event that resolves the interaction one `adapter.error` about it says so.
abbrev pub Took : Host → Host → Manager → ℕ → Result (Unit {0}) → Type 0
Took h h' m' sid responded =
    ((responded ≡ ok tt) × IsIn sid running m')
    ⊎ ((exc : Error) × (responded ≡ raise exc)
        × IsIn sid waiting_on_user m'
        × (event : Event) × (h'.published ≡ h.published ++ event ∷ [])
        × (event.type ≡ adapter_error)
        × (event.session_id ≡ some sid))

-- What an answer does, after the host that resolving left: the adapter's `respond` is called once, with
-- the reference to the interaction and the answer, or the future is set to the interaction with no call
-- of the adapter.
abbrev pub Arrived :
    Host
    → Host
    → Manager
    → Manager
    → ℕ
    → Interaction
    → Answer
    → Result (Unit {0})
    → Closure
    → Type 0
Arrived h h' m m' number i a responded (respond name session_native_id native_id sid) =
    (m'.calls
      ≡ m.calls
        ++ record {
          adapter = name;
          operation = "respond";
          native_id = native_id;
          argument =
              reply
                (record {
                  adapter = name;
                  session_native_id = session_native_id;
                  interaction_id = i.id;
                  native_id = native_id;
                })
                a;
        }
          ∷ [])
    × Took h h' m' sid responded
Arrived h h' m m' number i a responded (resolve_future sid) =
    (m'.calls ≡ m.calls) × (get m'.futures number ≡ some i) × IsIn sid running m'

abbrev pub session_of : Closure → ℕ
session_of (respond name session_native_id native_id sid) = sid
session_of (resolve_future sid) = sid

accepts :
    (h : Host) (m : Mediation) (id : ℕ) (i : Interaction) (a : Answer) (answered_by : String)
    → get m.by_id id ≡ some i
    → is_pending i.status ≡ true
    → answer_interaction h m id a answered_by ≡ accept h m id i a answered_by
unfolding answer_interaction
accepts h m id i a answered_by found pending = rw (answer_interaction, found, pending)

module _ (message : Error → String) where
  run_closure-Arrived :
      (h : Host) (m : Manager) (number : ℕ) (closure : Closure) (i : Interaction) (a : Answer)
      (responded : Result (Unit {0}))
      → IsIn (session_of closure) waiting_on_user m
      → get m.futures number ≡ none
      → is_answered i.status ≡ true
      → let (h', m') = run_closure message h m number closure i a responded in
        Arrived h h' m m' number i a responded closure
  unfolding run_closure resume observe_quietly error new_event
  run_closure-Arrived h m number (respond name session_native_id native_id sid) i a responded parked
        open_ yes_ =
      let ref : InteractionRef = record {
        adapter = name;
        session_native_id = session_native_id;
        interaction_id = i.id;
        native_id = native_id;
      } in
      let m' = called_with m name "respond" native_id (reply ref a) in
      elim (Result-cases responded) [
        | inl (u, done) ↦
            rw (done, run_closure)
              (refl, inl (refl, resume-IsIn h m' sid "interaction_resolved" parked))
        | inr (exc, failed) ↦
            rw (failed, run_closure)
              (
                refl,
                inr (
                  exc,
                  refl,
                  parked,
                  new_event h adapter_error m.node (source_of name) (some sid)
                      (error_payload name "respond_failed" (message exc)),
                  published-emit h adapter_error m.node (source_of name) (some sid) _,
                  refl,
                  refl,
                ),
              )
      ]
  run_closure-Arrived h m number (resolve_future sid) i a responded parked open_ yes_ =
      let m' : Manager = record m { futures = put m.futures number i } in
      rw (yes_, set_future, open_)
        (
          refl,
          get-put_self m.futures number number i refl,
          resume-IsIn h m' sid "interaction_resolved" parked,
        )

  -- An answer to a pending interaction whose callback is registered and whose session waits on the user
  -- is returned and arrives, whatever the adapter's call gives.
  pub answer_arrives :
      (h : Host) (m : Manager) (id : ℕ) (a : Answer) (answered_by : String) (i : Interaction)
      (number : ℕ) (closure : Closure) (responded : Result (Unit {0}))
      → get m.mediation.by_id id ≡ some i
      → is_pending i.status ≡ true
      → get m.mediation.deliver i.id ≡ some number
      → get m.closures number ≡ some closure
      → get m.futures number ≡ none
      → IsIn (session_of closure) waiting_on_user m
      → let i' = answered_with i a answered_by (now h) in
        let o = answer message h m id a answered_by responded in
        (o.result ≡ ok i')
        × Arrived
            (answer_interaction h m.mediation id a answered_by).host
            o.host
            m
            o.manager
            number
            i'
            a
            responded
            closure
  unfolding answer answered_with deliver accept
  answer_arrives h m id a answered_by i number closure responded found pending registered kept open_
        parked =
      let o = answer_interaction h m.mediation id a answered_by in
      let m' : Manager = record m { mediation = o.mediation } in
      let arrived =
        run_closure-Arrived o.host m' number closure (answered_with i a answered_by (now h)) a
          responded parked open_ refl in
      let returned : o.result ≡ ok (answered_with i a answered_by (now h)) =
        rw (accepts h m.mediation id i a answered_by found pending) refl in
      rw (answer, returned, registered, deliver, kept) (refl, arrived)
