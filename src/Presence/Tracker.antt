-- ===== src/Presence/Tracker.antt =====
-- src/prodeo/presence/tracker.py: the heartbeats of clients, expired when they are read. Each method
-- takes what the clock reads; a time to live is a number of microseconds.
pub mod Lazy
use command_center.Base.{
  ℕ, ◌+◌, String, Option, none, some, List, [], ◌∷◌, Bool, true, false, any, leb, if◌then◌else◌,
  string_Eq, sorted_desc,
}
use command_center.Base.Dict.{Dict, get, put, pop, values}

pub record ClientPresence : Type 0 where
  pub client_id : String
  pub kind : String
  pub attentive : Bool
  pub node : String
  pub last_seen : ℕ
  pub expires_at : ℕ

-- `PresenceTracker._clients`
abbrev pub Tracker : Type 0
Tracker = Dict String ClientPresence

abbrev pub presence : ℕ → String → String → Bool → ℕ → String → ClientPresence
presence now client_id kind attentive ttl node = record {
  client_id = client_id;
  kind = kind;
  attentive = attentive;
  node = node;
  last_seen = now;
  expires_at = now + ttl;
}

unfoldable pub report : ℕ → Tracker → String → String → Bool → ℕ → String → ClientPresence × Tracker
report now clients client_id kind attentive ttl node =
    let p = presence now client_id kind attentive ttl node in (p, put clients client_id p)

abbrev is_there : Option ClientPresence → Bool
is_there none = false
is_there (some p) = true

unfoldable pub forget : Tracker → String → Bool × Tracker
forget clients client_id = (is_there (get clients client_id), pop clients client_id)

-- `_prune`
unfoldable pub prune : ℕ → Tracker → Tracker
prune now [] = []
prune now ((client_id, c) ∷ clients) =
    let rest = prune now clients in if leb c.expires_at now then rest else (client_id, c) ∷ rest

unfoldable pub list_clients : ℕ → Tracker → List ClientPresence × Tracker
unfolding prune
list_clients now clients =
    let live = prune now clients in (sorted_desc (λ c. c.last_seen) (values live), live)

unfoldable pub any_attentive : ℕ → Tracker → Bool × Tracker
unfolding prune
any_attentive now clients =
    let live = prune now clients in (any (λ c. c.attentive) (values live), live)
