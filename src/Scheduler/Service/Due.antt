-- ===== src/Scheduler/Service/Due.antt =====
-- What a round of src/prodeo/scheduler/service.py is to do, said without its code: which schedules are
-- due, and what is launched and announced for each of them, in their order.
use command_center.Base.{
  ℕ, ◌≤◌, String, Option, none, some, List, [], ◌∷◌, ◌++◌, true, false, leb, Result, ok, raise,
  Error, ◌≡◌, refl, sym, ◌∙◌, some_inj, arith, Bool-cases, Option-cases, Result-cases, inl, inr,
  ◌⊎◌,
}
use command_center.Events.Types.{schedule_triggered}
use command_center.Events.Envelope.{Event, Payload, ulid, text}
use command_center.Events.Host.{Host, new_event, published-emit}
use command_center.Scheduler.Model.{Schedule}
use command_center.Scheduler.Cron.{CronSpec, parse_cron}
use command_center.Scheduler.Service.{
  Scheduler, Zone, Launcher, is_due, next_run, next_run_of, fire, fired_payload, fired_session,
}
use command_center.Sessions.Model.{Session}

-- The schedule's next run has come.
abbrev pub IsDue : Schedule → ℕ → Type 0
IsDue x at = (t : ℕ) × (x.next_run_at ≡ some t) × (t ≤ at)

pub is_due-cases :
    (x : Schedule) (at : ℕ)
    → ((is_due x at ≡ true) × IsDue x at) ⊎ ((is_due x at ≡ false) × ¬ IsDue x at)
is_due-cases x at = elim (Option-cases x.next_run_at) [
  | inl never ↦ inr (rw never refl, λ d. cc (never, d.1))
  | inr (t, next) ↦ elim (Bool-cases (leb t at)) [
    | inl come ↦ inl (rw next come, (t, next, ground (arith, come)))
    | inr early ↦ inr (
      rw next early,
      λ d. (let same : d.0 ≡ t = some_inj (sym d.1 ∙ next) in ground (arith, d.2, same, early)),
    )
  ]
]

-- What `schedule.triggered` says of a launch: the session that it started, or why it failed.
abbrev pub Says : Launcher → Schedule → Result Session → Option ℕ → Payload → Type 0
Says launcher x launched session_id payload =
    ((session : Session) × (launched ≡ ok session)
      × (session_id ≡ some session.id)
      × (payload
          ≡ ("schedule_id", ulid x.id)
            ∷ ("name", text x.name)
            ∷ ("adapter", text x.adapter)
            ∷ ("session_id", ulid session.id)
            ∷ []))
    ⊎ ((e : Error) × (launched ≡ raise e)
        × (session_id ≡ none)
        × (payload
            ≡ ("schedule_id", ulid x.id)
              ∷ ("name", text x.name)
              ∷ ("adapter", text x.adapter)
              ∷ ("error", text (launcher.message e))
              ∷ []))

-- The launcher is asked once, for the schedule's adapter and spec, and what it answers is announced by
-- one event: `k` is the host before, `k'` the host after.
pub record Fired (launcher : Launcher) (node : String) (k : Host) (x : Schedule) (k' : Host)
    : Type 0 where
  pub event : Event
  pub announced : k'.published ≡ (launcher.launch k x.adapter x.spec).0.published ++ event ∷ []
  pub type : event.type ≡ schedule_triggered
  pub node_of : event.node ≡ node
  pub says : Says launcher x (launcher.launch k x.adapter x.spec).1 event.session_id event.payload

-- Each schedule that is due fires once, in the order of the list, and no other does anything.
abbrev pub Fires : Launcher → String → ℕ → Host → List Schedule → Host → Type 0
Fires launcher node at k [] k' = k' ≡ k
Fires launcher node at k (x ∷ xs) k' =
    (IsDue x at × (k'' : Host) × Fired launcher node k x k'' × Fires launcher node at k'' xs k')
    ⊎ ((¬ IsDue x at) × Fires launcher node at k xs k')

-- A schedule that is due is stamped with the moment and given the next run of its expression from then
-- on; any other stays as it is.
abbrev pub Fate : Zone → ℕ → Schedule → Schedule → Type 0
Fate zone at x x' =
    (IsDue x at
      × (spec : CronSpec) × (parse_cron x.cron ≡ ok spec)
      × (x' ≡ record x { last_triggered_at = some at; next_run_at = next_run zone spec at }))
    ⊎ ((¬ IsDue x at) × (x' ≡ x))

module _ (zone : Zone) (launcher : Launcher) where
  pub fire-Fired :
      (h : Host) (s : Scheduler) (x : Schedule) (at : ℕ) (spec : CronSpec)
      → parse_cron x.cron ≡ ok spec
      → Fired launcher s.node h x (fire zone launcher h s x at).host
  unfolding fire next_run_of new_event
  fire-Fired h s x at spec parses =
      let (k, launched) = launcher.launch h x.adapter x.spec in
      let event =
        new_event k schedule_triggered s.node "scheduler" (fired_session zone launcher launched)
          (fired_payload zone launcher x launched) in
      record {
        event = event;
        announced = rw (parses, fire) (rw published-emit refl);
        type = refl;
        node_of = refl;
        says = elim (Result-cases launched) [
          | inl (session, done) ↦ inl (session, done, rw done refl, rw done refl)
          | inr (e, failed) ↦ inr (e, failed, rw failed refl, rw failed refl)
        ];
      }
