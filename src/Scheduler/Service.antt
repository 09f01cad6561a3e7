-- ===== src/Scheduler/Service.antt =====
-- src/prodeo/scheduler/service.py: the scheduler service. The timezone's two conversions and the
-- launcher are parameters.
pub mod Due
pub mod Firing
pub mod Pass
pub mod Accepts
pub mod Calls
use mathlib.Core.Option
use command_center.Base.{
  ℕ, ◌+◌, ◌-◌, ◌≤◌, String, Option, none, some, List, [], ◌∷◌, ◌++◌, Bool, true, false, min, leb,
  if◌then◌else◌, ◌==◌, string_Eq, nat_Eq, Result, ok, raise, ◌>>=◌, Error, unknown_schedule,
  invalid_schedule, value_error, sorted_by,
}
use command_center.Base.Dict.{Dict, get, put, pop, modify, values}
use command_center.Events.Types.{schedule_created, schedule_deleted, schedule_triggered}
use command_center.Events.Envelope.{Event, Payload, Value, schedule, ulid, text, item, as_schedule}
use command_center.Events.Host.{Host, now, tick, fresh, draw, emit}
use command_center.Scheduler.Model.{Schedule, LaunchSpec}
use command_center.Scheduler.Cron.{CronSpec, Wall, parse_cron, next_fire}
use command_center.Sessions.Model.{Session}

-- `astimezone` to and from the schedules' timezone.
pub record Zone : Type 0 where
  pub to_local : ℕ → Wall
  pub to_utc : Wall → ℕ

-- `SessionLauncher.launch`, which may publish events of its own, and `str` of what it raises.
pub record Launcher : Type 0 where
  pub launch : Host → String → LaunchSpec → Host × Result Session
  pub message : Error → String

pub record Scheduler : Type 0 where
  pub node : String
  pub schedules : Dict ℕ Schedule
  pub awake : Bool

abbrev pub init : String → Scheduler
init node = record { node = node; schedules = []; awake = false }

abbrev pub Outcome : Type 0 → Type 0
Outcome A = record { result : Result A; host : Host; scheduler : Scheduler }

abbrev pub source : String
source = "scheduler"

unfoldable pub list_schedules : Scheduler → List Schedule
list_schedules s = sorted_by (λ x. x.id) (values s.schedules)

abbrev pub key_text : Payload → Option ℕ
key_text p = elim (get p "schedule_id") [ some (ulid id) ↦ some id | _ ↦ none ]

abbrev reason : Error → String
reason (value_error m) = m
reason _ = ""

-- What `_fire` writes to the schedule before it launches.
abbrev pub stamped : Schedule → ℕ → Option ℕ → Schedule
stamped x at next = record x { last_triggered_at = some at; next_run_at = next }

abbrev pub is_due : Schedule → ℕ → Bool
is_due x at = elim x.next_run_at [ none ↦ false | some t ↦ leb t at ]

module _ (zone : Zone) where
  -- `next_fire(spec, now, self._tz)`
  unfoldable pub next_run : CronSpec → ℕ → Option ℕ
  next_run spec at = Option.map zone.to_utc (next_fire spec (zone.to_local at))

  -- `next_fire(parse_cron(cron), now, self._tz)`
  unfoldable pub next_run_of : String → ℕ → Result (Option ℕ)
  unfolding next_run
  next_run_of cron at = do spec ← parse_cron cron; ok (next_run spec at)

  -- `create`, once there is a first run.
  unfoldable pub define :
      Host → Scheduler → String → CronSpec → String → LaunchSpec → ℕ → Outcome Schedule
  define h s name parsed adapter spec first =
      let x : Schedule = record {
        id = fresh h;
        name = name;
        cron = parsed.expression;
        adapter = adapter;
        spec = spec;
        created_at = now h;
        last_triggered_at = none;
        next_run_at = some first;
      } in
      record {
        result = ok x;
        host =
            emit (draw (tick h)) schedule_created s.node source none
              (("schedule", schedule x) ∷ []);
        scheduler = record s { schedules = put s.schedules x.id x; awake = true };
      }

  unfoldable pub create :
      Host → Scheduler → String → String → String → LaunchSpec → Outcome Schedule
  unfolding define
  create h s name cron adapter spec = elim (parse_cron cron) [
    | raise e ↦ record { result = raise (invalid_schedule (reason e)); host = h; scheduler = s }
    | ok parsed ↦ elim (next_run parsed (now h)) [
      | none ↦ record {
        result = raise (invalid_schedule "cron expression never fires");
        host = tick h;
        scheduler = s;
      }
      | some first ↦ define h s name parsed adapter spec first
    ]
  ]

  module _ (launcher : Launcher) where
    abbrev pub fired_payload : Schedule → Result Session → Payload
    fired_payload x (ok session) =
        ("schedule_id", ulid x.id)
        ∷ ("name", text x.name)
        ∷ ("adapter", text x.adapter)
        ∷ ("session_id", ulid session.id)
        ∷ []
    fired_payload x (raise e) =
        ("schedule_id", ulid x.id)
        ∷ ("name", text x.name)
        ∷ ("adapter", text x.adapter)
        ∷ ("error", text (launcher.message e))
        ∷ []

    abbrev pub fired_session : Result Session → Option ℕ
    fired_session (ok session) = some session.id
    fired_session (raise e) = none

    -- `_fire`. The schedule is written through the reference that the catalogue shares.
    unfoldable pub fire : Host → Scheduler → Schedule → ℕ → Outcome Schedule
    unfolding next_run_of
    fire h s x at = elim (next_run_of x.cron at) [
      | raise e ↦ record {
        result = raise e;
        host = h;
        scheduler = record s {
          schedules = modify s.schedules x.id (λ y. record y { last_triggered_at = some at });
        };
      }
      | ok next ↦
          let (h', launched) = launcher.launch h x.adapter x.spec in
          record {
            result = ok (stamped x at next);
            host =
                emit h' schedule_triggered s.node source (fired_session launched)
                  (fired_payload x launched);
            scheduler = record s { schedules = modify s.schedules x.id (λ y. stamped y at next) };
          }
    ]

    unfoldable pub trigger_now : Host → Scheduler → ℕ → Outcome Schedule
    unfolding fire
    trigger_now h s schedule_id = elim (get s.schedules schedule_id) [
      | none ↦ record { result = raise (unknown_schedule schedule_id); host = h; scheduler = s }
      | some x ↦ fire (tick h) s x (now h)
    ]

    -- `for schedule in list(self._schedules.values())` of one round of `_run`. An exception ends it.
    unfoldable pub fire_due : Host → Scheduler → List Schedule → ℕ → Outcome Unit
    unfolding fire
    fire_due h s [] at = record { result = ok tt; host = h; scheduler = s }
    fire_due h s (x ∷ xs) at =
        let rest = fire_due h s xs at in
        let fired = fire h s x at in
        if is_due x at
        then elim fired.result [
          | raise e ↦ record { result = raise e; host = fired.host; scheduler = fired.scheduler }
          | ok y ↦ fire_due fired.host fired.scheduler xs at
        ]
        else rest

    -- One round of `_run`, up to its wait: an exception leaves the loop before the event is cleared.
    unfoldable pub round : Host → Scheduler → Outcome Unit
    unfolding fire_due
    round h s =
        let o = fire_due (tick h) s (values s.schedules) (now h) in
        elim o.result [
          | raise e ↦ o
          | ok u ↦ record {
            result = ok tt;
            host = tick o.host;
            scheduler = record o.scheduler { awake = false };
          }
        ]

-- `delete`
unfoldable pub delete : Host → Scheduler → ℕ → Outcome Unit
delete h s schedule_id = elim (get s.schedules schedule_id) [
  | none ↦ record { result = raise (unknown_schedule schedule_id); host = h; scheduler = s }
  | some x ↦ record {
    result = ok tt;
    host = emit h schedule_deleted s.node source none (("schedule_id", ulid schedule_id) ∷ []);
    scheduler = record s { schedules = pop s.schedules schedule_id; awake = true };
  }
]

-- `min(upcoming)`
unfoldable pub earliest : List Schedule → Option ℕ
earliest [] = none
earliest (x ∷ xs) = elim x.next_run_at [
  | none ↦ earliest xs
  | some t ↦ elim (earliest xs) [ none ↦ some t | some u ↦ some (min t u) ]
]

-- `_sleep_seconds`, in microseconds.
unfoldable pub sleep_time : ℕ → Scheduler → ℕ → ℕ
unfolding earliest
sleep_time poll_cap s at = elim (earliest (values s.schedules)) [
  | none ↦ poll_cap
  | some t ↦ min (t - at) poll_cap
]

-- `schedule.created`, once its schedule is read: an expression that no longer parses is left out.
unfoldable pub apply_created : Scheduler → Result Schedule → Scheduler
apply_created s (raise e) = s
apply_created s (ok x) = elim (parse_cron x.cron) [
  | raise e ↦ s
  | ok parsed ↦ record s { schedules = put s.schedules x.id x }
]

abbrev in_schedules : Scheduler → Option ℕ → (Dict ℕ Schedule → ℕ → Dict ℕ Schedule) → Scheduler
in_schedules s none f = s
in_schedules s (some id) f = record s { schedules = f s.schedules id }

-- `_apply`
unfoldable pub apply : Scheduler → Event → Scheduler
unfolding apply_created
apply s event =
    if event.type == schedule_created
    then apply_created s (do v ← item event.payload "schedule"; as_schedule v)
    else if event.type == schedule_deleted
    then in_schedules s (key_text event.payload) pop
    else if event.type == schedule_triggered
    then in_schedules s (key_text event.payload)
        (λ d id. modify d id (λ x. record x { last_triggered_at = some event.timestamp }))
    else s

unfoldable pub replay : Scheduler → List Event → Scheduler
unfolding apply
replay s [] = s
replay s (event ∷ events) = replay (apply s event) events

module _ (zone : Zone) where
  -- The end of `rebuild`: all next runs from this moment on.
  unfoldable pub recompute : ℕ → Dict ℕ Schedule → Result (Dict ℕ Schedule)
  unfolding next_run_of
  recompute at [] = ok []
  recompute at ((id, x) ∷ d) = do
    next ← next_run_of zone x.cron at
    rest ← recompute at d
    ok ((id, record x { next_run_at = next }) ∷ rest)
