-- ===== src/Scheduler/Tests.antt =====
-- Runs of src/prodeo/scheduler at concrete inputs.
use command_center.Base.{
  suc, ◌+◌, ◌/◌, ◌%◌, ◌<◌, String, none, some, List, [], ◌∷◌, true, string_Eq, nat_Eq, ok, raise,
  adapter_operation, ◌≡◌, refl, arith,
}
use command_center.Base.Text.{words, lower, strip, split}
use command_center.Base.Dict.{get, modify}
use command_center.Events.Host.{Host, now}
use command_center.Scheduler.Model.{Schedule}
use command_center.Scheduler.Cron.{
  CronSpec, Wall, at, instant, matches_day, parse_cron, next_fire, days_loop, next_minute,
}
use command_center.Scheduler.Cron.Times.{Matches, IsWall, NotAfter}
use command_center.Scheduler.Cron.Next.{next_fire-Matches, next_fire_first}
use command_center.Scheduler.Cron.Parsed.{IsParsed, IsParsed-IsSearchable, parse_cron-IsParsed}
use command_center.Scheduler.Service.{
  Scheduler, Zone, Launcher, init, round, fire_due, fire, next_run_of, next_run,
}
use command_center.Scheduler.Service.Accepts.{IsEntry, IsSound, parse_cron_again}
use command_center.Scheduler.Service.Due.{IsDue}
use command_center.Scheduler.Service.Pass.{Rounded, round-Rounded, IsSteady, round_not-IsDue}
use command_center.Scheduler.Service.Calls.{
  Call, creates, triggers, deletes, loops, run, scheduler-IsSound,
}

-- At nine and half past, on the first of a month and on Sundays.
abbrev expression : String
expression = " 0,30 9 1 jan,2 7 "

abbrev spec : CronSpec
spec = record {
  expression = "0,30 9 1 jan,2 7";
  minutes = 0 ∷ 30 ∷ [];
  hours = 9 ∷ [];
  days_of_month = 1 ∷ [];
  months = 1 ∷ 2 ∷ [];
  days_of_week = 0 ∷ [];
  dom_restricted = true;
  dow_restricted = true;
}

parsed : parse_cron expression ≡ ok spec
unfolding parse_cron words lower strip split
parsed = refl

parse_cron-IsParsed_example : IsParsed spec
parse_cron-IsParsed_example = parse_cron-IsParsed expression spec parsed

parse_cron_again_example : parse_cron spec.expression ≡ ok spec
parse_cron_again_example = parse_cron_again expression spec parsed

-- Thursday, 2 January 2025, just after nine, and the Sunday after it.
abbrev thursday : Wall
thursday = record { day = 739253; hour = 9; minute = 0; micros = 5 }

abbrev sunday_morning : Wall
sunday_morning = record { day = 739256; hour = 9; minute = 0; micros = 0 }

fires_sunday : next_fire spec thursday ≡ some sunday_morning
unfolding next_fire next_minute days_loop
fires_sunday = refl

next_fire-Matches_example :
    Matches spec sunday_morning × (instant thursday < instant sunday_morning)
next_fire-Matches_example = next_fire-Matches spec thursday sunday_morning fires_sunday

sunday_half_past : Matches spec (at 739256 9 30)
unfolding matches_day
sunday_half_past = record { day_matches = refl; hour_in = refl; minute_in = refl; whole = refl }

thursday-IsWall : IsWall thursday
thursday-IsWall = record {
  hour_bound = omega arith;
  minute_bound = omega arith;
  micros_bound = omega arith;
}

next_fire_first_example : NotAfter (next_fire spec thursday) (at 739256 9 30)
next_fire_first_example =
    next_fire_first spec thursday (at 739256 9 30)
      (IsParsed-IsSearchable spec (parse_cron-IsParsed expression spec parsed)) thursday-IsWall
      sunday_half_past (omega arith) (omega arith)

-- Local time is UTC, counted from the day numbered 0.
abbrev utc : Zone
utc = record {
  to_local = λ t. record {
    day = t / 86400000000;
    hour = t / 3600000000 % 24;
    minute = t / 60000000 % 60;
    micros = t % 60000000;
  };
  to_utc = instant;
}

utc-IsSteady : IsSteady utc
utc-IsSteady t w later = omega (arith, later)

-- An adapter that launches nothing.
abbrev launcher : Launcher
launcher = record {
  launch = λ h adapter spec. (h, raise (adapter_operation adapter));
  message = λ e. "cannot launch";
}

abbrev hourly : Schedule
hourly = record {
  id = 4;
  name = "hourly";
  cron = "0,30 9 1 jan,2 7";
  adapter = "codex";
  spec = record {
    project = "/src";
    prompt = "tidy";
    model = "";
    permission_mode = "";
    options = [];
  };
  created_at = 5;
  last_triggered_at = none;
  next_run_at = some (instant sunday_morning);
}

abbrev host : Host
host = record {
  clock = λ n. instant sunday_morning + n;
  ticks = 10;
  ulid = λ n. suc n;
  draws = 0;
  last_id = 0;
  published = [];
}

abbrev scheduler : Scheduler
scheduler = record { node = "hub"; schedules = (4, hourly) ∷ []; awake = true }

hourly-IsEntry : IsEntry 4 hourly
unfolding parse_cron words lower strip split
hourly-IsEntry = record { keyed = refl; spec = spec; parses = refl }

sound : IsSound scheduler
sound = record { unique = (tt, tt); entries = (hourly-IsEntry, tt) }

round-Rounded_example : Rounded utc launcher host scheduler
round-Rounded_example = round-Rounded utc launcher host scheduler sound

-- The hourly schedule once the round has fired it: it runs again at half past.
abbrev fired : Schedule
fired = record hourly {
  last_triggered_at = some (instant sunday_morning + 10);
  next_run_at = some (instant (at 739256 9 30));
}

fires_hourly : get (round utc launcher host scheduler).scheduler.schedules 4 ≡ some fired
unfolding round fire_due fire next_run_of next_run parse_cron words lower strip split next_fire
    next_minute days_loop get modify
fires_hourly = refl

round_not-IsDue_example : ¬ IsDue fired (now host)
round_not-IsDue_example =
    round_not-IsDue utc launcher host scheduler 4 fired utc-IsSteady sound fires_hourly

abbrev calls : List Call
calls =
    creates "hourly" "@hourly" "codex"
      (record { project = "/src"; prompt = "tidy"; model = ""; permission_mode = ""; options = [] })
    ∷ creates "broken" "61 * * * *" "codex"
        (record { project = "/src"; prompt = ""; model = ""; permission_mode = ""; options = [] })
    ∷ triggers 1
    ∷ loops
    ∷ deletes 1
    ∷ []

scheduler-IsSound_example :
    let (h', s') = run utc launcher host (init "hub") calls in
    IsSound s' × ((round utc launcher h' s').result ≡ ok tt)
scheduler-IsSound_example = scheduler-IsSound utc launcher host "hub" calls
