-- ===== src/Events/Host/Ids.antt =====
-- `_new_id` of src/prodeo/events/envelope.py: the ids of one process are strictly increasing.
use command_center.Base.{ℕ, ◌<◌, ◌≤◌, String, Option, List, [], ◌∷◌, ◌++◌, All, All-append, arith}
use command_center.Events.Envelope.{Event, Payload}
use command_center.Events.Host.{Host, new_id, new_event, emit}

-- Each id is above the ids before it, and the last one is remembered.
abbrev pub IsIncreasing : List Event → Type 0
IsIncreasing [] = Unit {0}
IsIncreasing (e ∷ es) = All (λ later. e.id < later.id) es × IsIncreasing es

pub record IsMonotone (h : Host) : Type 0 where
  pub increasing : IsIncreasing h.published
  pub remembered : All (λ e. e.id ≤ h.last_id) h.published

pub last_id-lt-new_id : (h : Host) → h.last_id < new_id h
unfolding new_id
last_id-lt-new_id h = ground arith

IsIncreasing-snoc :
    (es : List Event) (e : Event) (n : ℕ)
    → IsIncreasing es
    → All (λ x. x.id ≤ n) es
    → n < e.id
    → IsIncreasing (es ++ e ∷ [])
IsIncreasing-snoc [] e n inc le lt = (tt, tt)
IsIncreasing-snoc (x ∷ es) e n inc le lt = (
  All-append (λ later. x.id < later.id) es (e ∷ []) inc.0 (omega arith, tt),
  IsIncreasing-snoc es e n inc.1 le.1 lt,
)

All-le_trans : (es : List Event) (m n : ℕ) → m ≤ n → All (λ x. x.id ≤ m) es → All (λ x. x.id ≤ n) es
All-le_trans [] m n h a = tt
All-le_trans (x ∷ es) m n h a = (omega arith, All-le_trans es m n h a.1)

-- Publishing one more event of the process keeps all ids strictly increasing, whatever `ULID()` draws.
pub emit-IsMonotone :
    (h : Host) (type_ node source : String) (session_id : Option ℕ) (payload : Payload)
    → IsMonotone h
    → IsMonotone (emit h type_ node source session_id payload)
unfolding emit
emit-IsMonotone h type_ node source session_id payload m = record {
  increasing =
      IsIncreasing-snoc h.published e h.last_id m.increasing m.remembered (last_id-lt-new_id h);
  remembered =
      All-append (λ x. x.id ≤ new_id h) h.published (e ∷ [])
        (All-le_trans h.published h.last_id (new_id h) (omega (arith, last_id-lt-new_id h))
          m.remembered)
        (omega arith, tt);
}
  where
    e : Event
    e = new_event h type_ node source session_id payload
