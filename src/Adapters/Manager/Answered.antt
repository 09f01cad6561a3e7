-- ===== src/Adapters/Manager/Answered.antt =====
-- Answers, timeouts and external interactions in src/prodeo/adapters/manager.py keep the log and the
-- Mediation Service's invariant.
use command_center.Base.{
  ℕ, String, Option, none, some, List, nat_Eq, string_Eq, Result, Result-cases, Error, Bool-cases,
  Option-cases, inl, inr,
}
use command_center.Base.Dict.{get}
use command_center.Events.Host.{Host}
use command_center.Sessions.Model.{Session, SessionDescriptor}
use command_center.Sessions.Registry.{resolve}
use command_center.Mediation.Model.{Interaction, InteractionRequest, Answer, is_pending}
use command_center.Mediation.Service.{answer_interaction, timeout, timed_out_answer}
use command_center.Adapters.Manager.{
  Manager, Closure, reply, respond, resolve_future, called_with, require_adapter,
}
use command_center.Adapters.Manager.Discovery.{discover}
use command_center.Adapters.Manager.Interact.{
  set_future, run_closure, is_answered, deliver, answer, timeout_callback, times_out, open_for,
  open_external, withdraw_external,
}
use command_center.Adapters.Manager.Consistent.{
  answer_interaction-IsConsistent, timeout-IsConsistent, cancel_native-IsConsistent,
}
use command_center.Adapters.Manager.Steady.{IsSteady, error-IsSteady}
use command_center.Adapters.Manager.Lifecycle.{discover-IsSteady}
use command_center.Adapters.Manager.Reported.{Leaves, resume-IsSteady, open_mediated-IsSteady}

set_future-IsSteady :
    (h : Host) (m : Manager) (number : ℕ) (i : Interaction)
    → IsSteady h m
    → IsSteady h (set_future m number i)
set_future-IsSteady h m number i v = elim (Option-cases (get m.futures number)) [
  | inl unset ↦ rw (unset, set_future) v
  | inr (j, set) ↦ rw (set, set_future) v
]

module _ (message : Error → String) where
  run_closure-IsSteady :
      (h : Host) (m : Manager) (number : ℕ) (closure : Closure) (i : Interaction) (a : Answer)
      (responded : Result (Unit {0}))
      → IsSteady h m
      → IsSteady
          (run_closure message h m number closure i a responded).0
          (run_closure message h m number closure i a responded).1
  unfolding run_closure
  run_closure-IsSteady h m number (respond name session_native_id native_id sid) i a responded v =
      let m' = called_with m name "respond" native_id (
        reply
          (record {
            adapter = name;
            session_native_id = session_native_id;
            interaction_id = i.id;
            native_id = native_id;
          })
          a) in
      elim (Result-cases responded) [
        | inl (u, done) ↦ rw (done, run_closure) (resume-IsSteady h m' v sid "interaction_resolved")
        | inr (exc, failed) ↦ rw (failed, run_closure) (error-IsSteady h m m' name _ _ (some sid) v)
      ]
  run_closure-IsSteady h m number (resolve_future sid) i a responded v =
      let w = set_future-IsSteady h m number i v in
      elim (Bool-cases (is_answered i.status)) [
        | inl yes_ ↦
            rw (yes_, run_closure)
              (resume-IsSteady h (set_future m number i) w sid "interaction_resolved")
        | inr no_ ↦ rw (no_, run_closure) w
      ]

  deliver-IsSteady :
      (h : Host) (m : Manager) (callback : Option ℕ) (i : Interaction) (a : Answer)
      (responded : Result (Unit {0}))
      → IsSteady h m
      → IsSteady
          (deliver message h m callback i a responded).0
          (deliver message h m callback i a responded).1
  unfolding deliver
  deliver-IsSteady h m none i a responded v = v
  deliver-IsSteady h m (some number) i a responded v = elim (Option-cases (get m.closures number)) [
    | inl lost ↦ rw (lost, deliver) v
    | inr (closure, found) ↦
        rw (found, deliver) (run_closure-IsSteady h m number closure i a responded v)
  ]

  pub answer-IsSteady :
      (h : Host) (m : Manager) (id : ℕ) (a : Answer) (answered_by : String)
      (responded : Result (Unit {0}))
      → IsSteady h m
      → Leaves (answer message h m id a answered_by responded)
  unfolding answer
  answer-IsSteady h m id a answered_by responded v =
      let o = answer_interaction h m.mediation id a answered_by in
      let w = answer_interaction-IsConsistent h m.registry m.mediation v id a answered_by in
      elim (Result-cases o.result) [
        | inr (e, refused) ↦ rw (refused, answer) w
        | inl (i, accepted) ↦
            rw (accepted, answer)
              (deliver-IsSteady o.host (record m { mediation = o.mediation })
                (get m.mediation.deliver i.id) i a responded w)
      ]

  pub times_out-IsSteady :
      (h : Host) (m : Manager) (id : ℕ) (responded : Result (Unit {0}))
      → IsSteady h m
      → IsSteady (times_out message h m id responded).0 (times_out message h m id responded).1
  unfolding times_out
  times_out-IsSteady h m id responded v =
      let w = timeout-IsConsistent h m.registry m.mediation v id in
      elim (Option-cases (timeout_callback message m.mediation id)) [
        | inl unset ↦ rw (unset, times_out) w
        | inr ((number, i), waits) ↦
            rw (waits, times_out)
              (deliver-IsSteady (timeout h m.mediation id).0
                (record m { mediation = (timeout h m.mediation id).1 }) (some number) i
                timed_out_answer responded w)
      ]

  open_for-IsSteady :
      (h : Host) (m : Manager) (native_id : String) (o : Option Session)
      (request : ℕ → InteractionRequest)
      → IsSteady h m
      → Leaves (open_for message h m native_id o request)
  unfolding open_for
  open_for-IsSteady h m native_id none request v = v
  open_for-IsSteady h m native_id (some s) request v =
      open_mediated-IsSteady h m s.id (request s.id) (resolve_future s.id) v

  pub open_external-IsSteady :
      (h : Host) (m : Manager) (adapter native_id : String) (request : ℕ → InteractionRequest)
      (found : Result (List SessionDescriptor))
      → IsSteady h m
      → Leaves (open_external message h m adapter native_id request found)
  unfolding open_external
  open_external-IsSteady h m adapter native_id request found v =
      elim (Result-cases (require_adapter m adapter)) [
        | inr (e, refused) ↦ rw (refused, open_external) v
        | inl (a, known) ↦ elim (Option-cases (resolve m.registry adapter native_id)) [
          | inr (s, there) ↦
              rw (known, open_external, there) (open_for-IsSteady h m native_id (some s) request v)
          | inl missing ↦
              let o = discover message h m adapter found in
              let w = discover-IsSteady message h m adapter found v in
              elim (Result-cases o.result) [
                | inr (e, failed) ↦ rw (known, open_external, missing, failed) w
                | inl (u, done) ↦
                    rw (known, open_external, missing, done)
                      (open_for-IsSteady o.host o.manager native_id
                        (resolve o.manager.registry adapter native_id) request w)
              ]
        ]
      ]

pub withdraw_external-IsSteady :
    (h : Host) (m : Manager) (id : ℕ) (reason : String)
    → IsSteady h m
    → Leaves (withdraw_external h m id reason)
unfolding withdraw_external
withdraw_external-IsSteady h m id reason v = elim (Option-cases (get m.mediation.by_id id)) [
  | inl unknown ↦ rw (unknown, withdraw_external) v
  | inr (i, found) ↦ elim (Bool-cases (is_pending i.status)) [
    | inl waits ↦
        rw (found, withdraw_external, waits)
          (cancel_native-IsConsistent h m.registry m.mediation v i.adapter i.native_id reason)
    | inr over ↦ rw (found, withdraw_external, over) v
  ]
]
