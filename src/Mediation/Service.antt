-- ===== src/Mediation/Service.antt =====
-- src/prodeo/mediation/service.py: the Mediation Service. A deliver callback is a number that names
-- the closure; `delivered` is the history of the callbacks that the service has awaited.
pub mod Fold
pub mod Sound
pub mod Opened
pub mod Calls
pub mod Run
pub mod Final
pub mod Orphans
use mathlib.Core.Option
use command_center.Base.{
  ℕ, ◌+◌, ◌*◌, String, Option, none, some, List, [], ◌∷◌, ◌++◌, Bool, true, false, not, length,
  if◌then◌else◌, ◌==◌, string_Eq, pair_Eq, nat_Eq, Result, ok, raise, unknown_interaction,
  interaction_already_resolved, key_error, keep, sorted_by,
}
use command_center.Base.Dict.{Dict, get, put, pop, values}
use command_center.Events.Types.{
  interaction_requested, interaction_answered, interaction_timed_out, interaction_cancelled,
}
use command_center.Events.Envelope.{Value, interaction, answer, text, ulid}
use command_center.Events.Host.{Host, now, tick, fresh, draw, emit}
use command_center.Mediation.Model.{
  Interaction, InteractionRequest, InteractionStatus, pending, answered, timed_out, cancelled,
  is_pending, is_permission, status_value, Answer, deny,
}

pub record Delivery : Type 0 where
  pub deliver : ℕ
  pub interaction : Interaction
  pub answer : Answer

pub record Mediation : Type 0 where
  pub node : String
  pub default_timeout_s : Option ℕ
  pub by_id : Dict ℕ Interaction
  pub pending_by_native : Dict (String × String) ℕ
  pub deliver : Dict ℕ ℕ
  pub timeouts : Dict ℕ ℕ
  pub delivered : List Delivery

abbrev pub init : String → Option ℕ → Mediation
init node default_timeout_s = record {
  node = node;
  default_timeout_s = default_timeout_s;
  by_id = [];
  pending_by_native = [];
  deliver = [];
  timeouts = [];
  delivered = [];
}

abbrev pub source : String
source = "mediation"

abbrev pub Outcome : Type 0 → Type 0
Outcome A = record { result : Result A; host : Host; mediation : Mediation }

abbrev pub native_key : Interaction → String × String
native_key i = (i.adapter, i.native_id)

-- Clocks count microseconds.
abbrev second : ℕ
second = 1000000

-- `i.status == status`
abbrev has_status : Option InteractionStatus → Interaction → Bool
has_status none i = true
has_status (some status) i = status_value i.status == status_value status

abbrev of_session : Option ℕ → Interaction → Bool
of_session none i = true
of_session (some session_id) i = i.session_id == session_id

unfoldable pub list_interactions :
    Mediation → Option InteractionStatus → Option ℕ → List Interaction
list_interactions m status session_id =
    keep (of_session session_id) (keep (has_status status) (sorted_by (λ i. i.id) (values m.by_id)))

unfoldable pub pending_count : Mediation → ℕ
pending_count m = length m.pending_by_native

abbrev or_default : Option ℕ → Option ℕ → Option ℕ
or_default none d = d
or_default (some s) d = some s

pub requested : Host → Mediation → InteractionRequest → Option ℕ → Interaction
requested h m request timeout_s = record {
  id = fresh h;
  session_id = request.session_id;
  adapter = request.adapter;
  native_id = request.native_id;
  node = m.node;
  kind = request.kind;
  title = request.title;
  body = request.body;
  options = request.options;
  questions = request.questions;
  requested_at = now h;
  timeout_at = Option.map (λ s. now h + s * second) timeout_s;
  status = pending;
  answered_by = "";
  answered_at = none;
  answer = none;
}

-- `if timeout_s is not None: self._timeouts[id] = create_task(...)`
abbrev start_timeout : Dict ℕ ℕ → ℕ → Option ℕ → Dict ℕ ℕ
start_timeout timeouts id none = timeouts
start_timeout timeouts id (some s) = put timeouts id s

pub register : Mediation → Interaction → ℕ → Option ℕ → Mediation
register m i deliver timeout_s = record m {
  by_id = put m.by_id i.id i;
  pending_by_native = put m.pending_by_native (native_key i) i.id;
  deliver = put m.deliver i.id deliver;
  timeouts = start_timeout m.timeouts i.id timeout_s;
}

pub open_new : Host → Mediation → InteractionRequest → ℕ → Outcome Interaction
unfolding requested register
open_new h m request deliver =
    let timeout_s = or_default request.timeout_s m.default_timeout_s in
    let i = requested h m request timeout_s in
    record {
      result = ok i;
      host =
          emit (draw (tick h)) interaction_requested m.node source (some i.session_id)
            (("interaction", interaction i) ∷ []);
      mediation = register m i deliver timeout_s;
    }

-- `self._by_id[existing_id]`
abbrev existing : Mediation → ℕ → Result Interaction
existing m id = elim (get m.by_id id) [ none ↦ raise (key_error "existing_id") | some i ↦ ok i ]

-- `open`
unfoldable pub open_interaction : Host → Mediation → InteractionRequest → ℕ → Outcome Interaction
unfolding open_new
open_interaction h m request deliver =
    elim (get m.pending_by_native (request.adapter, request.native_id)) [
      | none ↦ open_new h m request deliver
      | some id ↦
          let m' = record m { deliver = put m.deliver id deliver } in
          record { result = existing m' id; host = h; mediation = m' }
    ]

-- A status written through the reference, and `_resolve_bookkeeping`. The callback that it returns
-- is read before.
pub resolve : Mediation → ℕ → Interaction → Mediation
resolve m id i = record m {
  by_id = put m.by_id id i;
  pending_by_native = pop m.pending_by_native (native_key i);
  timeouts = pop m.timeouts i.id;
  deliver = pop m.deliver i.id;
}

-- `if deliver is not None: await deliver(interaction, answer)`, its exceptions contained.
abbrev pub deliver_to : Option ℕ → Interaction → Answer → List Delivery
deliver_to none i a = []
deliver_to (some d) i a = record { deliver = d; interaction = i; answer = a } ∷ []

abbrev pub with_deliveries : Mediation → List Delivery → Mediation
with_deliveries m ds = record m { delivered = m.delivered ++ ds }

unfoldable pub answered_with : Interaction → Answer → String → ℕ → Interaction
answered_with i a answered_by at = record i {
  status = answered;
  answer = some a;
  answered_by = answered_by;
  answered_at = some at;
}

unfoldable pub accept : Host → Mediation → ℕ → Interaction → Answer → String → Outcome Interaction
unfolding answered_with resolve
accept h m id i a answered_by =
    let i' = answered_with i a answered_by (now h) in
    record {
      result = ok i';
      host = emit (tick h) interaction_answered m.node source (some i.session_id) (
          ("interaction_id", ulid i.id)
          ∷ ("answer", answer a)
          ∷ ("answered_by", text answered_by)
          ∷ []);
      mediation = with_deliveries (resolve m id i') (deliver_to (get m.deliver i.id) i' a);
    }

-- `answer`
unfoldable pub answer_interaction : Host → Mediation → ℕ → Answer → String → Outcome Interaction
unfolding accept
answer_interaction h m id a answered_by = elim (get m.by_id id) [
  | none ↦ record { result = raise (unknown_interaction id); host = h; mediation = m }
  | some i ↦ if is_pending i.status then accept h m id i a answered_by else record {
    result = raise (interaction_already_resolved id (status_value i.status));
    host = h;
    mediation = m;
  }
]

unfoldable pub cancelled_i : Interaction → Interaction
cancelled_i i = record i { status = cancelled }

-- `_cancel`
pub cancel : Host → Mediation → ℕ → Interaction → String → Host × Mediation
unfolding cancelled_i resolve
cancel h m id i reason = (
  emit h interaction_cancelled m.node source (some i.session_id)
      (("interaction_id", ulid i.id) ∷ ("reason", text reason) ∷ []),
  resolve m id (cancelled_i i),
)

unfoldable pub cancel_native : Host → Mediation → String → String → String → Outcome Unit
unfolding cancel
cancel_native h m adapter native_id reason = elim (get m.pending_by_native (adapter, native_id)) [
  | none ↦ record { result = ok tt; host = h; mediation = m }
  | some id ↦ elim (get m.by_id id) [
    | none ↦ record { result = raise (key_error "interaction_id"); host = h; mediation = m }
    | some i ↦
        let (h', m') = cancel h m id i reason in
        record { result = ok tt; host = h'; mediation = m' }
  ]
]

abbrev pub timed_out_answer : Answer
timed_out_answer = record {
  decision = some deny;
  text = "timed out";
  updated_input = none;
  selections = none;
}

pub timed_out_i : Interaction → Interaction
timed_out_i i = record i { status = timed_out }

pub expire : Host → Mediation → ℕ → Interaction → Host × Mediation
unfolding timed_out_i resolve
expire h m id i =
    let i' = timed_out_i i in
    (
      emit h interaction_timed_out m.node source (some i.session_id)
          (("interaction_id", ulid i.id) ∷ []),
      with_deliveries (resolve m id i') (
          if is_permission i.kind then deliver_to (get m.deliver i.id) i' timed_out_answer else []),
    )

-- `_timeout`, from where its sleep ends.
unfoldable pub timeout : Host → Mediation → ℕ → Host × Mediation
unfolding expire
timeout h m id = elim (get m.by_id id) [
  | none ↦ (h, m)
  | some i ↦ if is_pending i.status then expire h m id i else (h, m)
]

-- `close`
unfoldable pub close : Mediation → Mediation
close m = record m { timeouts = [] }
