-- ===== src/Notify/Service/Routed.antt =====
-- What one event makes of the Notifier of src/prodeo/notify/service.py.
use package.text.Mathlib.Text.{starts_with}
use mathlib.Core.List.{append-nil}
use command_center.Base.{
  String, Option, some, List, [], ◌∷◌, ◌++◌, true, false, ◌&&◌, ◌==◌, string_Eq, ◌≡◌, refl, ap, sym,
  ◌∙◌, Bool-cases, Option-cases, inl, inr, arith,
}
use command_center.Base.Dict.{Dict, get}
use command_center.Events.Envelope.{Event, text}
use command_center.Events.Types.{notification_sent, notification_failed, notification_suppressed}
use command_center.Events.Host.{Host, emit, new_event}
use command_center.Bus.{matches}
use command_center.Notify.Service.{
  Notifier, Notification, source, is_in, extend, targets_from, targets_of, user_present, note,
  suppressed, failed, sent, notify, notify_all, route,
}

-- Each name once.
abbrev pub IsOnce : List String → Type 0
IsOnce [] = Unit {0}
IsOnce (n ∷ ns) = (is_in n ns ≡ false) × IsOnce ns

-- An event that the Notifier publishes about a channel.
pub record IsNote (channel : String) (e : Event) : Type 0 where
  pub about : get e.payload "channel" ≡ some (text channel)
  pub guarded : starts_with e.type "notification." ≡ true

-- One event after another about each of the channels, and no other.
abbrev pub AllNotes : List String → List Event → Type 0
AllNotes [] [] = Unit {0}
AllNotes [] (e ∷ es) = ⊥
AllNotes (n ∷ ns) [] = ⊥
AllNotes (n ∷ ns) (e ∷ es) = IsNote n e × AllNotes ns es

-- One event was published, about this channel.
record Noted (h h' : Host) (name : String) : Type 0 where
  pub event : Event
  pub published : h'.published ≡ h.published ++ event ∷ []
  pub is_note : IsNote name event

module _ (h : Host) (n : Notifier) (name : String) (m : Notification) where
  suppressed-Noted : Noted h (suppressed h n name m) name
  unfolding suppressed emit new_event get
  suppressed-Noted = record {
    event =
        new_event h notification_suppressed n.node source m.session_id
          (note name m (("reason", text "client attentive") ∷ []));
    published = refl;
    is_note = record { about = refl; guarded = refl };
  }

  failed-Noted : (error : String) → Noted h (failed h n name m error) name
  unfolding failed emit new_event get
  failed-Noted error = record {
    event =
        new_event h notification_failed n.node source m.session_id
          (note name m (("error", text error) ∷ []));
    published = refl;
    is_note = record { about = refl; guarded = refl };
  }

  sent-Noted : Noted h (sent h n name m) name
  unfolding sent emit new_event get
  sent-Noted = record {
    event = new_event h notification_sent n.node source m.session_id (note name m []);
    published = refl;
    is_note = record { about = refl; guarded = refl };
  }

-- What a call of the Notifier has published is one event about each of these channels, in order.
pub record Notes (h h' : Host) (names : List String) : Type 0 where
  pub events : List Event
  pub published : h'.published ≡ h.published ++ events
  pub one_each : AllNotes names events

append_after : (xs ys : List Event) (y : Event) → (xs ++ y ∷ []) ++ ys ≡ xs ++ y ∷ ys
append_after [] ys y = refl
append_after (x ∷ xs) ys y = ap (λ l. x ∷ l) (append_after xs ys y)

is_in-append :
    (m n : String) (ns : List String) → (m == n) ≡ false → is_in n (ns ++ m ∷ []) ≡ is_in n ns
is_in-append m n [] ne = rw ne refl
is_in-append m n (x ∷ ns) ne = ground (arith, is_in-append m n ns ne)

append-IsOnce :
    (ns : List String) (n : String) → IsOnce ns → is_in n ns ≡ false → IsOnce (ns ++ n ∷ [])
append-IsOnce [] n v out = (refl, tt)
append-IsOnce (x ∷ ns) n v out = elim (Bool-cases (x == n)) [
  | inl same ↦ absurd (cc (rw same at out))
  | inr other ↦ (
    is_in-append n x ns (ground (arith, string_Eq.equal_iff n x, string_Eq.equal_iff x n, other))
        ∙ v.0,
    append-IsOnce ns n v.1 (rw other at out),
  )
]

extend-IsOnce : (targets names : List String) → IsOnce targets → IsOnce (extend targets names)
unfolding extend
extend-IsOnce targets [] v = v
extend-IsOnce targets (n ∷ ns) v = elim (Bool-cases (is_in n targets)) [
  | inl there ↦ rw there (extend-IsOnce targets ns v)
  | inr new ↦ rw new (extend-IsOnce (targets ++ n ∷ []) ns (append-IsOnce targets n v new))
]

targets_from-IsOnce :
    (targets : List String) (rules : Dict String (List String)) (event_type : String)
    → IsOnce targets
    → IsOnce (targets_from targets rules event_type)
unfolding targets_from
targets_from-IsOnce targets [] event_type v = v
targets_from-IsOnce targets ((pattern, names) ∷ rules) event_type v =
    elim (Bool-cases (matches pattern event_type)) [
      | inl fits ↦ rw fits (
          targets_from-IsOnce (extend targets names) rules event_type
            (extend-IsOnce targets names v))
      | inr other ↦ rw other (targets_from-IsOnce targets rules event_type v)
    ]

module _ (format : Event → Notification) (send : String → Notification → Option String) where
  notify-Noted :
      (h : Host) (n : Notifier) (m : Notification) (name : String)
      → Noted h (notify format send h n m name) name
  unfolding notify
  notify-Noted h n m name = elim (Bool-cases (user_present n && is_in name n.away_only)) [
    | inl present ↦ rw present (suppressed-Noted h n name m)
    | inr away ↦ elim (Bool-cases (is_in name n.channels)) [
      | inr unknown ↦ rw (away, unknown) (failed-Noted h n name m "unknown channel")
      | inl known ↦ elim (Option-cases (send name m)) [
        | inl fine ↦ rw (away, known, fine) (sent-Noted h n name m)
        | inr (error, raised) ↦ rw (away, known, raised) (failed-Noted h n name m error)
      ]
    ]
  ]

  notify_all-Notes :
      (h : Host) (n : Notifier) (m : Notification) (names : List String)
      → Notes h (notify_all format send h n m names) names
  unfolding notify_all
  notify_all-Notes h n m [] = record {
    events = [];
    published = sym (append-nil h.published);
    one_each = tt;
  }
  notify_all-Notes h n m (name ∷ names) =
      let one = notify-Noted h n m name in
      let rest = notify_all-Notes (notify format send h n m name) n m names in
      record {
        events = one.event ∷ rest.events;
        published =
            rest.published
            ∙ ap (λ l. l ++ rest.events) one.published
            ∙ append_after h.published rest.events one.event;
        one_each = (one.is_note, rest.one_each);
      }

  -- Routing an event that is not the Notifier's own publishes exactly one event about each channel that
  -- the rules name for it, in their order, and no channel twice, whatever is sent, suppressed or fails;
  -- and what it publishes is of the notification namespace, of which nothing is routed.
  pub route-Notes :
      (h : Host) (n : Notifier) (e : Event)
      → starts_with e.type "notification." ≡ false
      → Notes h (route format send h n e) (targets_of n e)
        × IsOnce (targets_of n e)
        × ((own : Event) (channel : String) (h' : Host)
            → IsNote channel own
            → route format send h' n own ≡ h')
  unfolding route
  route-Notes h n e other = (
    rw other (notify_all-Notes h n (format e) (targets_of n e)),
    targets_from-IsOnce [] n.rules e.type tt,
    λ own channel h' v. rw v.guarded refl,
  )
