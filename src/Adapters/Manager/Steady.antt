-- ===== src/Adapters/Manager/Steady.antt =====
-- Control calls, discovery and the lifecycle of src/prodeo/adapters/manager.py keep the log and the
-- Mediation Service's invariant.
use command_center.Base.{
  ℕ, String, Option, some, List, [], ◌∷◌, Bool, ◌||◌, string_Eq, pair_Eq, nat_Eq, Result,
  Result-cases, Error, refl, Bool-cases, Option-cases, inl, inr,
}
use command_center.Base.Dict.{get}
use command_center.Base.Json.{Json}
use command_center.Events.Host.{Host}
use command_center.Sessions.State.{SessionState, elem, end_states}
use command_center.Sessions.Model.{SessionDescriptor}
use command_center.Sessions.Registry.{upsert_discovered}
use command_center.Adapters.Model.{AdapterCapabilities}
use command_center.Adapters.Manager.{
  Manager, Argument, nothing, setting, Outcome, error, require_session, is_unsupported,
  operation_failed, called_with, control, terminate, send_prompt, interrupt, context_usage,
  set_model, set_permission_mode, after_control, done, with_model, with_mode,
}
use command_center.Adapters.Manager.Discovery.{ensure_watch, is_illegal, upsert_all}
use command_center.Adapters.Manager.Consistent.{
  IsConsistent, emit-IsConsistent, upsert_discovered-IsConsistent, refresh_model-IsConsistent,
  refresh_permission_mode-IsConsistent,
}

abbrev pub IsSteady : Host → Manager → Type 0
IsSteady h m = IsConsistent h m.registry m.mediation

pub error-IsSteady :
    (h : Host) (m m' : Manager) (name kind detail : String) (session_id : Option ℕ)
    → IsSteady h m
    → IsSteady (error h m' name kind detail session_id) m
unfolding error
error-IsSteady h m m' name kind detail session_id v =
    emit-IsConsistent h m.registry m.mediation v _ _ _ session_id _ refl

module _ (message : Error → String) where
  pub operation_failed-IsSteady :
      (A : Type 0) (h : Host) (m : Manager) (adapter_name operation : String) (exc : Error)
      (session_id : Option ℕ)
      → IsSteady h m
      → IsSteady
          (operation_failed message {A = A} h m adapter_name operation exc session_id).host
          (operation_failed message {A = A} h m adapter_name operation exc session_id).manager
  unfolding operation_failed
  operation_failed-IsSteady A h m adapter_name operation exc session_id v =
      elim (Bool-cases (is_unsupported exc)) [
        | inl unsupported ↦ rw unsupported v
        | inr other ↦ rw other (error-IsSteady h m m adapter_name _ _ session_id v)
      ]

  control-IsSteady :
      {A : Type 0} (h : Host) (m : Manager) (session_id : ℕ) (operation : String)
      (capability : AdapterCapabilities → Bool) (argument : Argument) (called : Result A)
      → IsSteady h m
      → IsSteady
          (control message h m session_id operation capability argument called).host
          (control message h m session_id operation capability argument called).manager
  unfolding control
  control-IsSteady h m session_id operation capability argument called v =
      elim (Result-cases (require_session m session_id)) [
        | inr (e, refused) ↦ rw (refused, control) v
        | inl ((s, a), found) ↦ elim (Bool-cases (capability a.capabilities)) [
          | inr undeclared ↦ rw (found, control, undeclared) v
          | inl declared ↦ elim (Result-cases called) [
            | inl (x, done) ↦ rw (found, control, declared, done) v
            | inr (exc, failed) ↦
                rw (found, control, declared, failed)
                  (operation_failed-IsSteady _ h
                    (called_with m s.adapter operation s.native_id argument) s.adapter operation exc
                    (some s.id) v)
          ]
        ]
      ]

  after-IsSteady :
      {A B : Type 0} (o : Outcome A) (next : A → Host → Manager → Outcome B)
      → IsSteady o.host o.manager
      → ((a : A) → IsSteady (next a o.host o.manager).host (next a o.host o.manager).manager)
      → IsSteady (after_control o next).host (after_control o next).manager
  after-IsSteady o next v w = elim (Result-cases o.result) [
    | inr (e, refused) ↦ rw refused v
    | inl (a, done_) ↦ rw done_ (w a)
  ]

  module _ (h : Host) (m : Manager) (v : IsSteady h m) where
    pub terminate-IsSteady :
        (sid : ℕ) (called : Result (Unit {0}))
        → IsSteady
            (terminate message h m sid called).host
            (terminate message h m sid called).manager
    unfolding terminate
    terminate-IsSteady sid called =
        let w = control-IsSteady h m sid "terminate" (λ c. c.terminate) nothing called v in
        after-IsSteady (control message h m sid "terminate" (λ c. c.terminate) nothing called)
          (λ p. done tt) w (λ p. w)

    pub send_prompt-IsSteady :
        (sid : ℕ) (prompt : String) (called : Result (Unit {0}))
        → IsSteady
            (send_prompt message h m sid prompt called).host
            (send_prompt message h m sid prompt called).manager
    unfolding send_prompt
    send_prompt-IsSteady sid prompt called =
        let w =
          control-IsSteady h m sid "send_prompt" (λ c. c.send_prompts) (setting prompt) called v in
        after-IsSteady
          (control message h m sid "send_prompt" (λ c. c.send_prompts) (setting prompt) called)
          (λ p. done tt) w (λ p. w)

    pub interrupt-IsSteady :
        (sid : ℕ) (called : Result (Unit {0}))
        → IsSteady
            (interrupt message h m sid called).host
            (interrupt message h m sid called).manager
    unfolding interrupt
    interrupt-IsSteady sid called =
        let w = control-IsSteady h m sid "interrupt" (λ c. c.interrupt) nothing called v in
        after-IsSteady (control message h m sid "interrupt" (λ c. c.interrupt) nothing called)
          (λ p. done tt) w (λ p. w)

    pub context_usage-IsSteady :
        (sid : ℕ) (called : Result Json)
        → IsSteady
            (context_usage message h m sid called).host
            (context_usage message h m sid called).manager
    unfolding context_usage
    context_usage-IsSteady sid called =
        let w = control-IsSteady h m sid "context_usage" (λ c. c.report_context) nothing called v in
        after-IsSteady
          (control message h m sid "context_usage" (λ c. c.report_context) nothing called)
          (λ p. done p.1) w (λ p. w)

    pub set_model-IsSteady :
        (sid : ℕ) (model : String) (called : Result (Unit {0}))
        → IsSteady
            (set_model message h m sid model called).host
            (set_model message h m sid model called).manager
    unfolding set_model
    set_model-IsSteady sid model called =
        let w = control-IsSteady h m sid "set_model" (λ c. c.set_model) (setting model) called v in
        after-IsSteady
          (control message h m sid "set_model" (λ c. c.set_model) (setting model) called)
          (with_model model) w (λ p. refresh_model-IsConsistent _ _ _ w p.0.id model)

    pub set_permission_mode-IsSteady :
        (sid : ℕ) (mode : String) (called : Result (Unit {0}))
        → IsSteady
            (set_permission_mode message h m sid mode called).host
            (set_permission_mode message h m sid mode called).manager
    unfolding set_permission_mode
    set_permission_mode-IsSteady sid mode called =
        let w =
          control-IsSteady h m sid "set_permission_mode" (λ c. c.set_permission_mode) (setting mode)
            called v in
        after-IsSteady
          (control message h m sid "set_permission_mode" (λ c. c.set_permission_mode) (setting mode)
            called)
          (with_mode mode) w (λ p. refresh_permission_mode-IsConsistent _ _ _ w p.0.id mode)

-- A watch is no part of what is kept.
pub ensure_watch-IsSteady :
    (h : Host) (m : Manager) (name native_id : String) (sid : ℕ) (state : SessionState)
    → IsSteady h m
    → IsSteady h (ensure_watch m name native_id sid state)
unfolding ensure_watch
ensure_watch-IsSteady h m name native_id sid state v =
    elim (Bool-cases (m.stopping || elem state end_states)) [
      | inl over ↦ rw over v
      | inr active ↦ elim (Option-cases (get m.watches (name, native_id))) [
        | inl new ↦ rw (active, new) v
        | inr (w, known) ↦ elim (Bool-cases w.done) [
          | inl ended ↦ rw (active, known, ended) v
          | inr runs ↦ rw (active, known, runs) v
        ]
      ]
    ]

pub upsert_all-IsSteady :
    (h : Host) (m : Manager) (name : String) (ds : List SessionDescriptor)
    → IsSteady h m
    → IsSteady (upsert_all h m name ds).host (upsert_all h m name ds).manager
unfolding upsert_all
upsert_all-IsSteady h m name [] v = v
upsert_all-IsSteady h m name (d ∷ ds) v =
    let o = upsert_discovered h m.registry name d in
    let m' : Manager = record m { registry = o.registry } in
    let w : IsSteady o.host m' = upsert_discovered-IsConsistent h m.registry m.mediation v name d in
    elim (Result-cases o.result) [
      | inl (s, done_) ↦
          rw (done_, upsert_all)
            (upsert_all-IsSteady o.host (ensure_watch m' name d.native_id s.id s.state) name ds
              (ensure_watch-IsSteady o.host m' name d.native_id s.id s.state w))
      | inr (e, failed) ↦ elim (Bool-cases (is_illegal e)) [
        | inl illegal ↦ rw (failed, upsert_all, illegal) (upsert_all-IsSteady o.host m' name ds w)
        | inr other ↦ rw (failed, upsert_all, other) w
      ]
    ]
