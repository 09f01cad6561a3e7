-- ===== src/Adapters/Manager/Gate.antt =====
-- The gate of the control calls of src/prodeo/adapters/manager.py: which of them reach the adapter.
use Prim.Native.String.{◌++◌ as str_append}
use command_center.Base.{
  ℕ, String, Option, some, [], ◌∷◌, ◌++◌, Bool, true, false, string_Eq, nat_Eq, Result, ok, raise,
  Result-cases, Error, unknown_session, unknown_adapter, capability_not_supported,
  adapter_operation, ◌≡◌, refl, Bool-cases, Option-cases, inl, inr, ◌⊎◌,
}
use command_center.Base.Dict.{get}
use command_center.Events.Types.{adapter_error}
use command_center.Events.Envelope.{Event}
use command_center.Events.Host.{Host, new_event, published-emit}
use command_center.Sessions.Model.{Session}
use command_center.Adapters.Model.{Adapter, AdapterCapabilities}
use command_center.Adapters.Manager.{
  Manager, Argument, Outcome, source_of, error, error_payload, has_name, require_adapter,
  require_session, is_unsupported, operation_failed, called_with, control,
}

-- The session is known, and its adapter was added, has started and declares the capability.
pub record May (m : Manager) (session_id : ℕ) (capability : AdapterCapabilities → Bool)
    : Type 0 where
  pub session : Session
  pub adapter : Adapter
  pub known : get m.registry.by_id session_id ≡ some session
  pub added : get m.adapters session.adapter ≡ some adapter
  pub started : has_name session.adapter m.started ≡ true
  pub declared : capability adapter.capabilities ≡ true

module _ {A : Type 0} (h : Host) (m : Manager) where
  -- Raised before the adapter is asked, with nothing changed and nothing published.
  abbrev pub Refused : Outcome A → Type 0
  Refused o = (e : Error) × (o.result ≡ raise e) × (o.host ≡ h) × (o.manager ≡ m)

  -- A failure of the adapter's own call: a lacking capability is raised on as it is with nothing
  -- published, and anything else is announced by one `adapter.error` and raised as a failed operation.
  abbrev pub Failed : Outcome A → Error → Type 0
  Failed o exc =
      (is_unsupported exc ≡ true) × (o.result ≡ raise exc) × (o.host ≡ h)
      ⊎ (is_unsupported exc ≡ false)
        × ((text : String) × (o.result ≡ raise (adapter_operation text)))
        × (event : Event) × (o.host.published ≡ h.published ++ event ∷ [])
        × (event.type ≡ adapter_error)

module _ (message : Error → String) where
  operation_failed-Failed :
      (A : Type 0) (h : Host) (m : Manager) (name operation : String) (exc : Error)
      (session_id : Option ℕ)
      → Failed {A = A} h m (operation_failed message h m name operation exc session_id) exc
        × ((operation_failed message {A = A} h m name operation exc session_id).manager ≡ m)
  unfolding operation_failed error new_event
  operation_failed-Failed A h m name operation exc session_id =
      elim (Bool-cases (is_unsupported exc)) [
        | inl unsupported ↦ (
          inl (unsupported, rw (operation_failed, unsupported), rw (operation_failed, unsupported)),
          rw (operation_failed, unsupported),
        )
        | inr other ↦ (
          inr (
            other,
            (
              str_append operation (str_append " failed: " (message exc)),
              rw (operation_failed, other),
            ),
            new_event h adapter_error m.node (source_of name) session_id
                (error_payload name (str_append operation "_failed") (message exc)),
            rw (operation_failed, other) (rw published-emit),
            refl,
          ),
          rw (operation_failed, other),
        )
      ]

  -- The adapter is asked once, about the session and with the argument, and what it returns goes on with the session.
  abbrev pub Reached :
      {A : Type 0} (h : Host) (m : Manager) (session_id : ℕ) (operation : String)
      (capability : AdapterCapabilities → Bool) (argument : Argument) (called : Result A)
      → Outcome (Session × A)
      → Type 0
  Reached {A} h m session_id operation capability argument called o =
      (g : May m session_id capability) × (o.manager
        ≡ called_with m g.session.adapter operation g.session.native_id argument)
      × (((a : A) × (called ≡ ok a) × (o.result ≡ ok (g.session, a)) × (o.host ≡ h))
          ⊎ ((exc : Error) × (called ≡ raise exc) × Failed h m o exc))

  -- What `require_session` gives, with what it has looked at.
  abbrev Known : Manager → ℕ → Type 0
  Known m session_id =
      (s : Session) × (a : Adapter) × (get m.registry.by_id session_id ≡ some s)
      × (get m.adapters s.adapter ≡ some a)
      × (has_name s.adapter m.started ≡ true)
      × (require_session m session_id ≡ ok (s, a))

  abbrev Absent : Manager → ℕ → Type 0
  Absent m session_id =
      ((capability : AdapterCapabilities → Bool) → ¬ (May m session_id capability))
      × (e : Error) × (require_session m session_id ≡ raise e)

  require_adapter-cases :
      (m : Manager) (session_id : ℕ) (s : Session)
      → get m.registry.by_id session_id ≡ some s
      → Known m session_id ⊎ Absent m session_id
  unfolding require_session require_adapter
  require_adapter-cases m session_id s known = elim (Option-cases (get m.adapters s.adapter)) [
    | inl missing ↦ inr (
      λ c g. cc (known, g.known, missing, g.added),
      unknown_adapter s.adapter,
      rw (require_session, known, require_adapter, missing),
    )
    | inr (a, added) ↦ elim (Bool-cases (has_name s.adapter m.started)) [
      | inr off ↦ inr (
        λ c g. cc (known, g.known, off, g.started),
        unknown_adapter s.adapter,
        rw (require_session, known, require_adapter, added, off),
      )
      | inl on ↦
          inl (s, a, known, added, on, rw (require_session, known, require_adapter, added, on))
    ]
  ]

  require_session-cases : (m : Manager) (session_id : ℕ) → Known m session_id ⊎ Absent m session_id
  unfolding require_session
  require_session-cases m session_id = elim (Option-cases (get m.registry.by_id session_id)) [
    | inl unknown ↦
        inr (λ c g. cc (unknown, g.known), unknown_session, rw (require_session, unknown))
    | inr (s, known) ↦ require_adapter-cases m session_id s known
  ]

  -- A control call reaches the adapter exactly when its session is known, and the session's adapter was
  -- added, has started and declares the capability: then it is asked once, with the argument of the call.
  -- What it returns goes on with the session; a failure other than a lacking capability is announced by
  -- one `adapter.error` and raised, and a lacking capability is raised on with nothing published. Any
  -- other call raises, changes nothing and publishes nothing.
  pub control_gates :
      {A : Type 0} (h : Host) (m : Manager) (session_id : ℕ) (operation : String)
      (capability : AdapterCapabilities → Bool) (argument : Argument) (called : Result A)
      → Reached h m session_id operation capability argument called
          (control message h m session_id operation capability argument called)
        ⊎ (¬ (May m session_id capability))
          × Refused h m (control message h m session_id operation capability argument called)
  unfolding control
  control_gates {A} h m session_id operation capability argument called =
      elim (require_session-cases m session_id) [
        | inr (never, e, absent) ↦ inr (
          never capability,
          (e, rw (control, absent), rw (control, absent), rw (control, absent)),
        )
        | inl (s, a, known, added, on, found) ↦ elim (Bool-cases (capability a.capabilities)) [
          | inr undeclared ↦ inr (
            λ g. cc (known, g.known, added, g.added, undeclared, g.declared),
            (
              capability_not_supported operation,
              rw (control, found, undeclared),
              rw (control, found, undeclared),
              rw (control, found, undeclared),
            ),
          )
          | inl declared ↦
              let g : May m session_id capability = record {
                session = s;
                adapter = a;
                known = known;
                added = added;
                started = on;
                declared = declared;
              } in
              elim (Result-cases called) [
                | inl (x, done) ↦ inl (
                  g,
                  rw (control, found, declared, done),
                  inl (
                    x,
                    done,
                    rw (control, found, declared, done),
                    rw (control, found, declared, done),
                  ),
                )
                | inr (exc, failed) ↦
                    let m' = called_with m s.adapter operation s.native_id argument in
                    let (f, same) =
                      operation_failed-Failed (Session × A) h m' s.adapter operation exc
                        (some s.id) in
                    inl (
                      g,
                      rw (control, found, declared, failed) same,
                      inr (exc, failed, rw (control, found, declared, failed) f),
                    )
              ]
        ]
      ]
