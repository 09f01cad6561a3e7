-- ===== src/Bus.antt =====
-- src/prodeo/bus/interface.py and inproc.py: the in-process event bus. A subscription is one queue; where
-- the publisher has to wait for a full queue, the result says so.
pub mod Newest
pub mod Tests
use text.Mathlib.Text.{starts_with}
use command_center.Base.{
  ℕ, String, Option, none, some, List, [], ◌∷◌, ◌++◌, Bool, true, false, ◌&&◌, ◌||◌, leb, ltb,
  length, if◌then◌else◌, ◌==◌, string_Eq, Result, ok, raise, runtime_error,
}
use command_center.Events.Envelope.{Event}

pub data BackpressurePolicy : Type 0 where
  block drop_oldest : BackpressurePolicy

-- `pattern[:-1]`, if the pattern ends with ".*".
unfoldable pub namespace_prefix : String → Option String
namespace_prefix String.[] = none
namespace_prefix (String.◌∷◌ c s) =
    let rest = namespace_prefix s in
    if String.◌∷◌ c s == ".*"
    then some "."
    else elim rest [ none ↦ none | some p ↦ some (String.◌∷◌ c p) ]

unfoldable pub matches : String → String → Bool
unfolding namespace_prefix
matches pattern event_type =
    if pattern == "*" || pattern == event_type
    then true
    else elim (namespace_prefix pattern) [ none ↦ false | some p ↦ starts_with event_type p ]

-- What a queue holds: an event, or the mark that `close` puts.
pub data Item : Type 0 where
  event : Event → Item
  close_mark : Item

pub record Subscription : Type 0 where
  pub pattern : String
  pub name : String
  pub policy : BackpressurePolicy
  pub maxsize : ℕ
  pub queue : List Item
  pub closed : Bool

-- `_QueueSubscription(self, pattern, name, policy, maxsize)`
abbrev pub new_subscription : String → String → BackpressurePolicy → ℕ → Subscription
new_subscription pattern name policy maxsize = record {
  pattern = pattern;
  name = name;
  policy = policy;
  maxsize = maxsize;
  queue = [];
  closed = false;
}

-- `Queue.full()`: a maxsize of 0 is no limit.
abbrev pub full : ℕ → List Item → Bool
full maxsize queue = ltb 0 maxsize && leb maxsize (length queue)

-- The loop of `_deliver`, until there is room: it takes from the front.
unfoldable pub make_room : ℕ → List Item → List Item
make_room maxsize [] = []
make_room maxsize (x ∷ queue) =
    let rest = make_room maxsize queue in if full maxsize (x ∷ queue) then rest else x ∷ queue

abbrev pub with_queue : Subscription → List Item → Subscription
with_queue sub queue = record sub { queue = queue }

abbrev put_blocking : Subscription → Item → Option Subscription
put_blocking sub x =
    if full sub.maxsize sub.queue then none else some (with_queue sub (sub.queue ++ x ∷ []))

-- `_deliver`: none where the publisher waits.
unfoldable pub deliver : Subscription → Event → Option Subscription
unfolding make_room
deliver sub e = if sub.closed then some sub else elim sub.policy [
  | block ↦ put_blocking sub (event e)
  | drop_oldest ↦ some (with_queue sub (make_room sub.maxsize sub.queue ++ event e ∷ []))
]

pub data FanOut : Type 0 where
  finished : List Subscription → FanOut
  waits : List Subscription → Subscription → List Subscription → FanOut

abbrev before : Subscription → FanOut → FanOut
before sub (finished subs) = finished (sub ∷ subs)
before sub (waits ahead at rest) = waits (sub ∷ ahead) at rest

-- `for sub in list(self._subs)`
unfoldable pub fan_out : Event → List Subscription → FanOut
unfolding matches deliver
fan_out e [] = finished []
fan_out e (sub ∷ subs) =
    let rest = fan_out e subs in
    if matches sub.pattern e.type
    then elim (deliver sub e) [ none ↦ waits [] sub subs | some sub' ↦ before sub' rest ]
    else before sub rest

pub record EventBus : Type 0 where
  pub subs : List Subscription
  pub closed : Bool

unfoldable pub publish : EventBus → Event → Result FanOut
unfolding fan_out
publish bus e =
    if bus.closed then raise (runtime_error "bus is closed") else ok (fan_out e bus.subs)

unfoldable pub subscribe : EventBus → String → String → BackpressurePolicy → ℕ → Result EventBus
subscribe bus pattern name policy maxsize =
    if bus.closed
    then raise (runtime_error "bus is closed")
    else ok (record bus { subs = bus.subs ++ new_subscription pattern name policy maxsize ∷ [] })
