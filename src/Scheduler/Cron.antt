-- ===== src/Scheduler/Cron.antt =====
-- src/prodeo/scheduler/cron.py: cron expressions. A set of numbers is its ascending list, which is what
-- `sorted` gives. A local time is a day, numbered as `date.toordinal` does, and the time on the clock:
-- times that share their tzinfo are compared and added to as wall clocks.
pub mod Fields
pub mod Parsed
pub mod Times
pub mod Next
use command_center.Base.{
  ℕ, zero, suc, ◌+◌, ◌-◌, ◌*◌, ◌/◌, ◌%◌, String, Option, none, some, List, [], ◌∷◌, Bool, true,
  false, not, ◌&&◌, ◌||◌, if◌then◌else◌, leb, ltb, nat_eq, Result, ok, raise, ◌>>=◌, value_error,
  any, length,
}
use command_center.Base.Text.{
  Text, codes, strip, lower, text_eq, is_empty, split, words, contains, partition, int, ℤ, pos,
  negsuc, lt_ℤ,
}

pub record CronSpec : Type 0 where
  pub expression : String
  pub minutes : List ℕ
  pub hours : List ℕ
  pub days_of_month : List ℕ
  pub months : List ℕ
  pub days_of_week : List ℕ
  pub dom_restricted : Bool
  pub dow_restricted : Bool

abbrev pub member : ℕ → List ℕ → Bool
member n ns = any (λ k. nat_eq k n) ns

unfoldable pub set_add : ℕ → List ℕ → List ℕ
set_add n [] = n ∷ []
set_add n (k ∷ ks) =
    let rest = set_add n ks in
    if ltb n k then n ∷ k ∷ ks else if nat_eq n k then k ∷ ks else k ∷ rest

-- `values |= more`
unfoldable pub union : List ℕ → List ℕ → List ℕ
unfolding set_add
union ns [] = ns
union ns (k ∷ ks) = union (set_add k ns) ks

unfoldable pub set_remove : ℕ → List ℕ → List ℕ
set_remove n [] = []
set_remove n (k ∷ ks) = let rest = set_remove n ks in if nat_eq k n then rest else k ∷ rest

abbrev pub month_names : List (String × ℕ)
month_names =
    ("jan", 1)
    ∷ ("feb", 2)
    ∷ ("mar", 3)
    ∷ ("apr", 4)
    ∷ ("may", 5)
    ∷ ("jun", 6)
    ∷ ("jul", 7)
    ∷ ("aug", 8)
    ∷ ("sep", 9)
    ∷ ("oct", 10)
    ∷ ("nov", 11)
    ∷ ("dec", 12)
    ∷ []

abbrev pub dow_names : List (String × ℕ)
dow_names =
    ("sun", 0) ∷ ("mon", 1) ∷ ("tue", 2) ∷ ("wed", 3) ∷ ("thu", 4) ∷ ("fri", 5) ∷ ("sat", 6) ∷ []

abbrev pub aliases : List (String × String)
aliases =
    ("@yearly", "0 0 1 1 *")
    ∷ ("@annually", "0 0 1 1 *")
    ∷ ("@monthly", "0 0 1 * *")
    ∷ ("@weekly", "0 0 * * 0")
    ∷ ("@daily", "0 0 * * *")
    ∷ ("@midnight", "0 0 * * *")
    ∷ ("@hourly", "0 * * * *")
    ∷ []

-- `names.get(token)`
unfoldable pub named : List (String × ℕ) → Text → Option ℕ
unfolding text_eq
named [] token = none
named ((name, n) ∷ names) token =
    let rest = named names token in if text_eq (codes name) token then some n else rest

unfoldable pub alias : List (String × String) → Text → Text
unfolding text_eq
alias [] expr = expr
alias ((name, meaning) ∷ more) expr =
    let rest = alias more expr in if text_eq (codes name) expr then codes meaning else rest

-- `_int`
unfoldable pub int_token : Text → Result ℤ
unfolding int
int_token token = elim (int token) [
  | none ↦ raise (value_error "invalid cron token")
  | some z ↦ ok z
]

-- `_value`
unfoldable pub value : List (String × ℕ) → Text → Result ℤ
unfolding named int_token
value names token = elim (named names token) [ some n ↦ ok (pos n) | none ↦ int_token token ]

unfoldable pub step_of : Text → Result ℕ
unfolding int_token
step_of [] = ok 1
step_of (c ∷ s) = do
  z ← int_token (c ∷ s)
  elim z [
    | pos zero ↦ raise (value_error "cron step must be >= 1")
    | pos (suc n) ↦ ok (suc n)
    | negsuc n ↦ raise (value_error "cron step must be >= 1")
  ]

-- The first and the last value of a part, before they are compared with the field's bounds.
unfoldable pub ends_of : Text → Text → ℕ → ℕ → List (String × ℕ) → Result (ℤ × ℤ)
unfolding value text_eq contains partition
ends_of body step_s lo hi names =
    if text_eq body (codes "*")
    then ok (pos lo, pos hi)
    else if contains 45 body
    then (let (start_s, end_s) = partition 45 body in
        do
          start ← value names start_s
          end ← value names end_s
          if lt_ℤ end start then raise (value_error "inverted cron range") else ok (start, end))
    else do v ← value names body; ok (if is_empty step_s then (v, v) else (v, pos hi))

-- `count` numbers from `start`, `step` apart.
unfoldable pub progression : ℕ → ℕ → ℕ → List ℕ
progression zero start step = []
progression (suc count) start step = start ∷ progression count (start + step) step

-- `range(start, end + 1, step)`, for a step of at least 1.
unfoldable pub range : ℕ → ℕ → ℕ → List ℕ
unfolding progression
range start end step =
    if ltb end start then [] else progression ((end - start) / step + 1) start step

abbrev out_of_range : Result (List ℕ)
out_of_range = raise (value_error "cron value out of range")

-- `if start < lo or end > hi: raise`, else the range.
unfoldable pub within : ℕ → ℕ → ℕ → ℤ × ℤ → Result (List ℕ)
unfolding range
within lo hi step (pos start, pos end) =
    if ltb start lo || ltb hi end then out_of_range else ok (range start end step)
within lo hi step (negsuc start, end) = out_of_range
within lo hi step (pos start, negsuc end) = if ltb start lo then out_of_range else ok []

-- `_parse_part`
unfoldable pub parse_part : Text → ℕ → ℕ → List (String × ℕ) → Result (List ℕ)
unfolding step_of ends_of within
parse_part part lo hi names =
    if is_empty part
    then raise (value_error "empty cron field")
    else (let (body, step_s) = partition 47 part in
        do step ← step_of step_s; ends ← ends_of body step_s lo hi names; within lo hi step ends)

unfoldable pub parse_parts : List ℕ → List Text → ℕ → ℕ → List (String × ℕ) → Result (List ℕ)
unfolding parse_part union
parse_parts values [] lo hi names = ok values
parse_parts values (part ∷ parts) lo hi names = do
  more ← parse_part part lo hi names
  parse_parts (union values more) parts lo hi names

unfoldable pub non_empty_values : List ℕ → Result (List ℕ)
non_empty_values [] = raise (value_error "cron field matches nothing")
non_empty_values (n ∷ ns) = ok (n ∷ ns)

-- `_parse_field`
unfoldable pub parse_field : Text → ℕ → ℕ → List (String × ℕ) → Result (List ℕ)
unfolding parse_parts non_empty_values
parse_field field lo hi names = do
  values ← parse_parts [] (split 44 field) lo hi names
  non_empty_values values

-- `if 7 in dow: dow = (dow | {0}) - {7}`
unfoldable pub sunday : List ℕ → List ℕ
unfolding set_add set_remove
sunday dow = if member 7 dow then set_remove 7 (set_add 0 dow) else dow

unfoldable pub parse_fields : String → List Text → Result CronSpec
unfolding parse_field sunday
parse_fields expression (f0 ∷ f1 ∷ f2 ∷ f3 ∷ f4 ∷ []) = do
  minutes ← parse_field f0 0 59 []
  hours ← parse_field f1 0 23 []
  dom ← parse_field f2 1 31 []
  months ← parse_field f3 1 12 month_names
  dow ← parse_field f4 0 7 dow_names
  ok (record {
    expression = expression;
    minutes = minutes;
    hours = hours;
    days_of_month = dom;
    months = months;
    days_of_week = sunday dow;
    dom_restricted = not (text_eq f2 (codes "*"));
    dow_restricted = not (text_eq f4 (codes "*"));
  })
parse_fields expression _ = raise (value_error "cron expression must have 5 fields")

unfoldable pub parse_cron : String → Result CronSpec
unfolding parse_fields alias
parse_cron expression =
    parse_fields (strip expression) (words (alias aliases (lower (codes (strip expression)))))

-- A local time.
pub record Wall : Type 0 where
  pub day : ℕ
  pub hour : ℕ
  pub minute : ℕ
  pub micros : ℕ

-- Microseconds since the day numbered 0. Later times have greater ones.
abbrev pub instant : Wall → ℕ
instant w = ((w.day * 24 + w.hour) * 60 + w.minute) * 60000000 + w.micros

-- The year's days before each month, and the month of a day of the year, counted from 0.
month_lengths : Bool → List ℕ
month_lengths leap =
    31 ∷ (if leap then 29 else 28) ∷ 31 ∷ 30 ∷ 31 ∷ 30 ∷ 31 ∷ 31 ∷ 30 ∷ 31 ∷ 30 ∷ 31 ∷ []

month_walk : List ℕ → ℕ → ℕ → ℕ × ℕ
month_walk [] month n = (month, n + 1)
month_walk (l ∷ ls) month n =
    let rest = month_walk ls (month + 1) (n - l) in if ltb n l then (month, n + 1) else rest

-- `.month` and `.day` of a date, as `_ord2ymd` finds them.
unfoldable pub month_and_day : ℕ → ℕ × ℕ
unfolding month_lengths month_walk
month_and_day ordinal =
    let n = ordinal - 1 in
    let a = n % 146097 in
    let n100 = a / 36524 in
    let b = a % 36524 in
    let n4 = b / 1461 in
    let c = b % 1461 in
    let n1 = c / 365 in
    let d = c % 365 in
    let leap = nat_eq n1 3 && (not (nat_eq n4 24) || nat_eq n100 3) in
    if nat_eq n1 4 || nat_eq n100 4 then (12, 31) else month_walk (month_lengths leap) 1 d

-- `.weekday()`: Monday is 0.
abbrev pub weekday : ℕ → ℕ
weekday ordinal = (ordinal + 6) % 7

unfoldable pub matches_day : CronSpec → ℕ → Bool
unfolding month_and_day
matches_day spec day =
    let (month, day_of_month) = month_and_day day in
    let dom_ok = member day_of_month spec.days_of_month in
    let dow_ok = member ((weekday day + 1) % 7) spec.days_of_week in
    if not (member month spec.months)
    then false
    else if spec.dom_restricted && spec.dow_restricted
    then dom_ok || dow_ok
    else dom_ok && dow_ok

abbrev pub search_limit_days : ℕ
search_limit_days = 366 * 4

-- `(local + timedelta(minutes=1)).replace(second=0, microsecond=0)`
unfoldable pub next_minute : Wall → Wall
next_minute w =
    if ltb (w.minute + 1) 60
    then record { day = w.day; hour = w.hour; minute = w.minute + 1; micros = 0 }
    else if ltb (w.hour + 1) 24
    then record { day = w.day; hour = w.hour + 1; minute = 0; micros = 0 }
    else record { day = w.day + 1; hour = 0; minute = 0; micros = 0 }

abbrev pub at : ℕ → ℕ → ℕ → Wall
at day hour minute = record { day = day; hour = hour; minute = minute; micros = 0 }

module _ (local candidate : Wall) (day : ℕ) where
  -- `first_day and hour < candidate.hour`
  abbrev pub skips_hour : ℕ → Bool
  skips_hour hour = nat_eq day candidate.day && ltb hour candidate.hour

  -- `first_day and hour == candidate.hour and minute < candidate.minute`
  abbrev pub skips_minute : ℕ → ℕ → Bool
  skips_minute hour minute =
      nat_eq day candidate.day && nat_eq hour candidate.hour && ltb minute candidate.minute

  abbrev pub fires : ℕ → ℕ → Bool
  fires hour minute = ltb (instant local) (instant (at day hour minute))

  unfoldable pub minutes_loop : ℕ → List ℕ → Option Wall
  minutes_loop hour [] = none
  minutes_loop hour (minute ∷ minutes) =
      let rest = minutes_loop hour minutes in
      if skips_minute hour minute
      then rest
      else if fires hour minute
      then some (at day hour minute)
      else rest

  unfoldable pub hours_loop : List ℕ → List ℕ → Option Wall
  unfolding minutes_loop
  hours_loop [] minutes = none
  hours_loop (hour ∷ hours) minutes =
      let rest = hours_loop hours minutes in
      if skips_hour hour
      then rest
      else elim (minutes_loop hour minutes) [ some fire ↦ some fire | none ↦ rest ]

-- `for offset in range(_SEARCH_LIMIT_DAYS)`, from this day on. The loop ends with the first fire.
unfoldable pub days_loop : CronSpec → Wall → Wall → ℕ → ℕ → Option Wall
unfolding matches_day hours_loop
days_loop spec local candidate zero day = none
days_loop spec local candidate (suc offsets) day =
    elim (if matches_day spec day
      then hours_loop local candidate day spec.hours spec.minutes
      else none) [ some fire ↦ some fire | none ↦ days_loop spec local candidate offsets (day + 1) ]

-- `next_fire`, of the local time that `after` is in `tz`. The loop stays shut unless it is named.
unfoldable pub next_fire : CronSpec → Wall → Option Wall
next_fire spec local =
    let candidate = next_minute local in
    days_loop spec local candidate search_limit_days candidate.day
