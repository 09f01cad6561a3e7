-- ===== src/Mediation/Service/Fold.antt =====
-- The read side of src/prodeo/mediation/service.py: the fold over `interaction.*` events, and the
-- cancellation of orphans that ends `rebuild`.
use package.text.Mathlib.Text.{starts_with}
use command_center.Base.{
  ℕ, String, Option, none, some, List, [], ◌∷◌, Bool, not, ◌&&◌, ◌||◌, keep, if◌then◌else◌, ◌==◌,
  string_Eq, pair_Eq, nat_Eq, Result, ok, ◌>>=◌,
}
use command_center.Base.Dict.{get, put, pop, values}
use command_center.Events.Types.{
  interaction_requested, interaction_answered, interaction_timed_out, interaction_cancelled,
}
use command_center.Events.Envelope.{Event, Payload, ulid, text, item, as_interaction, as_answer}
use command_center.Events.Host.{Host}
use command_center.Mediation.Model.{Interaction, is_pending}
use command_center.Mediation.Service.{
  Mediation, native_key, answered_with, cancelled_i, timed_out_i, cancel,
}

-- `payload.get("interaction_id", "")` as a key: only a ULID can be found.
abbrev named : Payload → Option ℕ
named p = elim (get p "interaction_id") [ some (ulid id) ↦ some id | _ ↦ none ]

-- `str(payload.get("answered_by", ""))`
abbrev answered_by : Payload → String
answered_by p = elim (get p "answered_by") [ some (text t) ↦ t | _ ↦ "" ]

pub apply_requested : Mediation → Event → Result Mediation
apply_requested m event = do
  v ← item event.payload "interaction"
  i ← as_interaction v
  ok (record m {
    by_id = put m.by_id i.id i;
    pending_by_native =
        if is_pending i.status
        then put m.pending_by_native (native_key i) i.id
        else m.pending_by_native;
  })

-- The answer is read after the status has been written; with no usable answer it raises there.
pub apply_resolution : Mediation → Event → ℕ → Interaction → Result Mediation
unfolding answered_with timed_out_i cancelled_i
apply_resolution m event id i =
    let m' = record m { pending_by_native = pop m.pending_by_native (native_key i) } in
    if event.type == interaction_answered
    then (do
      v ← item event.payload "answer"
      a ← as_answer v
      ok (record m' {
        by_id = put m.by_id id (answered_with i a (answered_by event.payload) event.timestamp);
      }))
    else if event.type == interaction_timed_out
    then ok (record m' { by_id = put m.by_id id (timed_out_i i) })
    else if event.type == interaction_cancelled
    then ok (record m' { by_id = put m.by_id id (cancelled_i i) })
    else ok m'

pub apply_to : Mediation → Event → Option ℕ → Result Mediation
unfolding apply_resolution
apply_to m event none = ok m
apply_to m event (some id) = elim (get m.by_id id) [
  | none ↦ ok m
  | some i ↦ apply_resolution m event id i
]

-- `_apply`
unfoldable pub apply : Mediation → Event → Result Mediation
unfolding apply_requested apply_to
apply m event =
    if event.type == interaction_requested
    then apply_requested m event
    else apply_to m event (named event.payload)

-- `apply_remote`
unfoldable pub apply_remote : Mediation → Event → Result Mediation
unfolding apply
apply_remote m event =
    if event.node == m.node || not (starts_with event.type "interaction.")
    then ok m
    else apply m event

abbrev pub is_orphan : String → Interaction → Bool
is_orphan node i = is_pending i.status && i.node == node

-- `for interaction in orphans: await self._cancel(interaction, ...)`. Each is stored under its id.
unfoldable pub cancel_all : Host → Mediation → List Interaction → Host × Mediation
cancel_all h m [] = (h, m)
cancel_all h m (i ∷ is) =
    let (h', m') = cancel h m i.id i "orphaned_by_restart" in cancel_all h' m' is

-- The end of `rebuild`, once the log is folded.
unfoldable pub cancel_orphans : Host → Mediation → Host × Mediation
unfolding cancel_all
cancel_orphans h m = cancel_all h m (keep (is_orphan m.node) (values m.by_id))
