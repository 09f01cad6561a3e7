-- ===== src/Notify/Service.antt =====
-- src/prodeo/notify/service.py: `_route` of the Notifier. The text of a notification and what a channel
-- raises for it are parameters.
pub mod Routed
use package.text.Mathlib.Text.{starts_with}
use command_center.Base.{
  ℕ, String, Option, none, some, List, [], ◌∷◌, ◌++◌, Bool, true, false, not, ◌&&◌, ◌||◌,
  if◌then◌else◌, ◌==◌, string_Eq, any,
}
use command_center.Base.Dict.{Dict}
use command_center.Events.Types.{notification_sent, notification_failed, notification_suppressed}
use command_center.Events.Envelope.{Event, Payload, ulid, text}
use command_center.Events.Host.{Host, emit}
use command_center.Bus.{matches}

pub record Notification : Type 0 where
  pub title : String
  pub body : String
  pub priority : String
  pub url : String
  pub event_id : ℕ
  pub session_id : Option ℕ

-- `attention` is what the attention source answers at the moment, if there is one.
pub record Notifier : Type 0 where
  pub node : String
  pub channels : List String
  pub rules : Dict String (List String)
  pub away_only : List String
  pub attention : Option Bool

abbrev pub source : String
source = "notifier"

abbrev pub is_in : String → List String → Bool
is_in name names = any (λ n. n == name) names

-- `targets.extend(n for n in channel_names if n not in targets)`, which looks at what it has added.
unfoldable pub extend : List String → List String → List String
extend targets [] = targets
extend targets (n ∷ ns) = extend (if is_in n targets then targets else targets ++ n ∷ []) ns

unfoldable pub targets_from : List String → Dict String (List String) → String → List String
unfolding extend
targets_from targets [] event_type = targets
targets_from targets ((pattern, names) ∷ rules) event_type =
    targets_from (if matches pattern event_type then extend targets names else targets) rules
      event_type

abbrev pub targets_of : Notifier → Event → List String
targets_of n e = targets_from [] n.rules e.type

abbrev is_empty : List String → Bool
is_empty [] = true
is_empty (x ∷ xs) = false

abbrev answers : Option Bool → Bool
answers none = false
answers (some b) = b

unfoldable pub user_present : Notifier → Bool
user_present n = not (is_empty n.away_only) && answers n.attention

abbrev pub note : String → Notification → Payload → Payload
note channel m more =
    ("channel", text channel) ∷ ("event_id", ulid m.event_id) ∷ ("title", text m.title) ∷ more

-- `_suppressed`
unfoldable pub suppressed : Host → Notifier → String → Notification → Host
suppressed h n channel m =
    emit h notification_suppressed n.node source m.session_id
      (note channel m (("reason", text "client attentive") ∷ []))

-- `_failed`
unfoldable pub failed : Host → Notifier → String → Notification → String → Host
failed h n channel m error =
    emit h notification_failed n.node source m.session_id
      (note channel m (("error", text error) ∷ []))

unfoldable pub sent : Host → Notifier → String → Notification → Host
sent h n channel m = emit h notification_sent n.node source m.session_id (note channel m [])

module _ (format : Event → Notification) (send : String → Notification → Option String) where
  -- The body of `for name in targets`.
  unfoldable pub notify : Host → Notifier → Notification → String → Host
  unfolding suppressed failed sent user_present
  notify h n m name =
      if user_present n && is_in name n.away_only
      then suppressed h n name m
      else if not (is_in name n.channels)
      then failed h n name m "unknown channel"
      else elim (send name m) [ none ↦ sent h n name m | some error ↦ failed h n name m error ]

  unfoldable pub notify_all : Host → Notifier → Notification → List String → Host
  unfolding notify
  notify_all h n m [] = h
  notify_all h n m (name ∷ names) = notify_all (notify h n m name) n m names

  -- `_route`. With no targets the loop does nothing.
  unfoldable pub route : Host → Notifier → Event → Host
  unfolding notify_all targets_from
  route h n e =
      if starts_with e.type "notification." then h else notify_all h n (format e) (targets_of n e)
