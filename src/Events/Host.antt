-- ===== src/Events/Host.antt =====
-- What an operation of a service takes from its surroundings: the clock, the ULID draws, the id
-- counter of envelope.py, and the bus, as the list of all events published so far.
pub mod Ids
use command_center.Base.{
  ℕ, suc, ◌+◌, String, Option, none, some, List, [], ◌∷◌, ◌++◌, leb, if◌then◌else◌, ◌≡◌, refl, ap,
}
use command_center.Events.Envelope.{Event, Payload}

-- `clock n` is the n-th reading of the clock, `ulid n` the n-th result of `ULID()`.
pub record Host : Type 0 where
  pub clock : ℕ → ℕ
  pub ticks : ℕ
  pub ulid : ℕ → ℕ
  pub draws : ℕ
  pub last_id : ℕ
  pub published : List Event

-- `datetime.now(UTC)`
abbrev pub now : Host → ℕ
now h = h.clock h.ticks

abbrev pub tick : Host → Host
tick h = record h { ticks = h.ticks + 1 }

-- `str(ULID())`
abbrev pub fresh : Host → ℕ
fresh h = h.ulid h.draws

abbrev pub draw : Host → Host
draw h = record h { draws = h.draws + 1 }

-- `_new_id`: ties and clock steps back are broken by counting on from the previous id.
unfoldable pub new_id : Host → ℕ
new_id h = let candidate = fresh h in if leb candidate h.last_id then h.last_id + 1 else candidate

unfoldable pub new_event : Host → String → String → String → Option ℕ → Payload → Event
unfolding new_id
new_event h type_ node source session_id payload = record {
  id = new_id h;
  type = type_;
  version = 1;
  timestamp = now h;
  node = node;
  session_id = session_id;
  correlation_id = none;
  source = source;
  payload = payload;
}

-- `await bus.publish(event)` of a service.
abbrev pub publish : Host → Event → Host
publish h event = record h { published = h.published ++ event ∷ [] }

-- `await bus.publish(new_event(...))`
unfoldable pub emit : Host → String → String → String → Option ℕ → Payload → Host
unfolding new_event
emit h type_ node source session_id payload =
    let event = new_event h type_ node source session_id payload in
    record h {
      ticks = h.ticks + 1;
      draws = h.draws + 1;
      last_id = event.id;
      published = h.published ++ event ∷ [];
    }

pub published-emit :
    (h : Host) (type_ node source : String) (session_id : Option ℕ) (payload : Payload)
    → (emit h type_ node source session_id payload).published
      ≡ h.published ++ new_event h type_ node source session_id payload ∷ []
unfolding emit
published-emit h type_ node source session_id payload = refl
