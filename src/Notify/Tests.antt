-- ===== src/Notify/Tests.antt =====
-- A run of src/prodeo/notify/service.py at concrete inputs.
use command_center.Base.{
  suc, String, Option, none, some, [], ◌∷◌, true, if◌then◌else◌, ◌==◌, string_Eq, ◌≡◌, refl,
}
use command_center.Events.Envelope.{Event}
use command_center.Events.Host.{Host}
use command_center.Notify.Service.{Notifier, Notification, route, targets_of}
use command_center.Notify.Service.Routed.{Notes, IsOnce, IsNote, route-Notes}

abbrev host : Host
host = record {
  clock = λ n. n;
  ticks = 10;
  ulid = λ n. suc n;
  draws = 0;
  last_id = 0;
  published = [];
}

abbrev notifier : Notifier
notifier = record {
  node = "hub";
  channels = "ntfy" ∷ "mail" ∷ [];
  rules = ("session.*", "ntfy" ∷ "mail" ∷ []) ∷ ("session.failed", "mail" ∷ "pager" ∷ []) ∷ [];
  away_only = "ntfy" ∷ [];
  attention = some true;
}

abbrev failed_session : Event
failed_session = record {
  id = 8;
  type = "session.failed";
  version = 1;
  timestamp = 9;
  node = "hub";
  session_id = some 3;
  correlation_id = none;
  source = "session-registry";
  payload = [];
}

abbrev format : Event → Notification
format e = record {
  title = e.type;
  body = "";
  priority = "normal";
  url = "";
  event_id = e.id;
  session_id = e.session_id;
}

-- The mail server is down.
abbrev send : String → Notification → Option String
send name m = if name == "mail" then some "connection refused" else none

route-Notes_example :
    Notes host (route format send host notifier failed_session) (targets_of notifier failed_session)
    × IsOnce (targets_of notifier failed_session)
    × ((own : Event) (channel : String) (h' : Host)
        → IsNote channel own
        → route format send h' notifier own ≡ h')
route-Notes_example = route-Notes format send host notifier failed_session refl
