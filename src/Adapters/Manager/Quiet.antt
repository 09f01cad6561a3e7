-- ===== src/Adapters/Manager/Quiet.antt =====
-- The events of src/prodeo/mediation/service.py leave the log of the Session Registry's events as it is.
use command_center.Base.{
  ℕ, String, Option, true, string_Eq, pair_Eq, nat_Eq, ◌≡◌, refl, Bool-cases, Option-cases, inl,
  inr,
}
use command_center.Base.Dict.{get}
use command_center.Events.Envelope.{Payload}
use command_center.Events.Host.{Host, emit, new_event, published-emit, tick, draw}
use command_center.Sessions.Registry.{Registry}
use command_center.Sessions.Registry.Replay.{IsDurable, ignored, IsDurable-ignored}
use command_center.Mediation.Model.{InteractionRequest, Answer, is_pending}
use command_center.Mediation.Service.{
  Mediation, open_interaction, answer_interaction, cancel_native, timeout,
}

pub emit-IsDurable :
    (h : Host) {r : Registry} (type_ node source : String) (session_id : Option ℕ)
    (payload : Payload)
    → ignored type_ ≡ true
    → IsDurable h.published r
    → IsDurable (emit h type_ node source session_id payload).published r
unfolding new_event
emit-IsDurable h type_ node source session_id payload other d =
    rw (published-emit h type_ node source session_id payload) (IsDurable-ignored _ other d)

module _ (h : Host) (m : Mediation) {r : Registry} (d : IsDurable h.published r) where
  pub open_interaction-IsDurable :
      (request : InteractionRequest) (deliver : ℕ)
      → IsDurable (open_interaction h m request deliver).host.published r
  unfolding open_interaction
  open_interaction-IsDurable request deliver =
      elim (Option-cases (get m.pending_by_native (request.adapter, request.native_id))) [
        | inl unlisted ↦
            rw (unlisted, open_interaction) (emit-IsDurable (draw (tick h)) _ _ _ _ _ refl d)
        | inr (id, listed) ↦ rw (listed, open_interaction) d
      ]

  pub answer_interaction-IsDurable :
      (id : ℕ) (a : Answer) (answered_by : String)
      → IsDurable (answer_interaction h m id a answered_by).host.published r
  unfolding answer_interaction
  answer_interaction-IsDurable id a answered_by = elim (Option-cases (get m.by_id id)) [
    | inl absent ↦ rw (absent, answer_interaction) d
    | inr (i, found) ↦ elim (Bool-cases (is_pending i.status)) [
      | inl waits ↦ rw (found, answer_interaction, waits) (emit-IsDurable (tick h) _ _ _ _ _ refl d)
      | inr done ↦ rw (found, answer_interaction, done) d
    ]
  ]

  pub timeout-IsDurable : (id : ℕ) → IsDurable (timeout h m id).0.published r
  unfolding timeout
  timeout-IsDurable id = elim (Option-cases (get m.by_id id)) [
    | inl absent ↦ rw (absent, timeout) d
    | inr (i, found) ↦ elim (Bool-cases (is_pending i.status)) [
      | inl waits ↦ rw (found, timeout, waits) (emit-IsDurable h _ _ _ _ _ refl d)
      | inr done ↦ rw (found, timeout, done) d
    ]
  ]

  pub cancel_native-IsDurable :
      (adapter native_id reason : String)
      → IsDurable (cancel_native h m adapter native_id reason).host.published r
  unfolding cancel_native
  cancel_native-IsDurable adapter native_id reason =
      elim (Option-cases (get m.pending_by_native (adapter, native_id))) [
        | inl absent ↦ rw (absent, cancel_native) d
        | inr (id, listed) ↦ elim (Option-cases (get m.by_id id)) [
          | inl lost ↦ rw (listed, cancel_native, lost) d
          | inr (i, found) ↦ rw (listed, cancel_native, found) (emit-IsDurable h _ _ _ _ _ refl d)
        ]
      ]
