-- ===== src/Adapters/Manager/Parked.antt =====
-- An interaction parks its session in src/prodeo/adapters/manager.py, until its answer resumes it.
use command_center.Base.{
  ◌+◌, String, none, some, true, nat_Eq, Result, ok, Error, ◌≡◌, refl, ap, ◌∙◌,
}
use command_center.Base.Dict.{get, put, get-put_self}
use command_center.Events.Host.{Host, now}
use command_center.Sessions.State.{waiting_on_user, can_transition}
use command_center.Sessions.Model.{Session}
use command_center.Mediation.Model.{Interaction, InteractionRequest, Answer}
use command_center.Mediation.Service.{open_interaction, answer_interaction, answered_with}
use command_center.Mediation.Service.Sound.{IsSound}
use command_center.Mediation.Service.Opened.{IsOpened, open_interaction-IsOpened}
use command_center.Adapters.Manager.{Manager, Closure}
use command_center.Adapters.Manager.Observe.{observe_quietly, open_mediated}
use command_center.Adapters.Manager.Interact.{answer}
use command_center.Adapters.Manager.Delivered.{
  IsIn, observe_quietly-IsIn, session_of, Arrived, answer_arrives,
}

-- What `_open_mediated` leaves: the interaction pending with its closure, and the session parked.
pub record IsParked (m m' : Manager) (closure : Closure) (i : Interaction) : Type 0 where
  pub opened : IsOpened m'.mediation m.next_closure i
  pub kept : get m'.closures m.next_closure ≡ some closure
  pub futures : m'.futures ≡ m.futures
  pub parked : IsIn (session_of closure) waiting_on_user m'

pub open_mediated-IsParked :
    (h : Host) (m : Manager) (s : Session) (request : InteractionRequest) (closure : Closure)
    → IsSound m.mediation
    → get m.registry.by_id (session_of closure) ≡ some s
    → can_transition s.state waiting_on_user ≡ true
    → let o = open_mediated h m (session_of closure) request closure in
      (i : Interaction) × (o.result ≡ ok i) × IsParked m o.manager closure i
unfolding open_mediated observe_quietly
open_mediated-IsParked h m s request closure v known legal =
    let number = m.next_closure in
    let o = open_interaction h m.mediation request number in
    let (i, returned, opened) = open_interaction-IsOpened h m.mediation request number v in
    let m' : Manager = record m {
      mediation = o.mediation;
      closures = put m.closures number closure;
      next_closure = number + 1;
    } in
    let (quiet, parked) =
      observe_quietly-IsIn o.host m' (session_of closure) s waiting_on_user "interaction_requested"
        known legal in
    rw (open_mediated, returned)
      (
        i,
        rw quiet,
        record {
          opened = unfold observe_quietly in opened;
          kept = unfold observe_quietly in get-put_self m.closures number number closure refl;
          futures = unfold observe_quietly in refl;
          parked = parked;
        },
      )

module _ (message : Error → String) where
  -- A request opened for a session that may wait on the user, over a sound index of pending
  -- interactions and under a number that no future has yet, is returned and parks the session. An
  -- answer to it is then returned too and goes its way. Either the adapter's `respond` is called once, with the reference to the interaction and the
  -- answer: if that succeeds the session runs again, and if it raises the session still waits and one
  -- `adapter.error` is published. Or the new future is set to it with no call of the adapter, and the
  -- session runs again.
  pub request_answered :
      (h : Host) (m : Manager) (s : Session) (request : InteractionRequest) (closure : Closure)
      (a : Answer) (answered_by : String) (responded : Result (Unit {0}))
      → IsSound m.mediation
      → get m.registry.by_id (session_of closure) ≡ some s
      → can_transition s.state waiting_on_user ≡ true
      → get m.futures m.next_closure ≡ none
      → let asked = open_mediated h m (session_of closure) request closure in
        (i : Interaction) × (asked.result ≡ ok i)
        × IsIn (session_of closure) waiting_on_user asked.manager
        × (let o = answer message asked.host asked.manager i.id a answered_by responded in
            let i' = answered_with i a answered_by (now asked.host) in
            let resolved =
              answer_interaction asked.host asked.manager.mediation i.id a answered_by in
            (o.result ≡ ok i')
            × Arrived resolved.host o.host asked.manager o.manager m.next_closure i' a responded
                closure)
  request_answered h m s request closure a answered_by responded v known legal fresh_future =
      let (i, returned, p) = open_mediated-IsParked h m s request closure v known legal in
      let asked = open_mediated h m (session_of closure) request closure in
      (
        i,
        returned,
        p.parked,
        answer_arrives message asked.host asked.manager i.id a answered_by i m.next_closure closure
            responded p.opened.found p.opened.waits p.opened.registered p.kept
            (ap (λ d. get d m.next_closure) p.futures ∙ fresh_future) p.parked,
      )
