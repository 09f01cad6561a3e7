-- ===== src/Retention.antt =====
-- src/prodeo/persistence/retention.py: one pass over the event log and the session catalogue. The log is
-- the rows of the store, an archive file is the list of the events written to it.
pub mod Window
pub mod Months
pub mod Batch
pub mod Expiry
pub mod Rule
pub mod Written
pub mod Safe
pub mod Stale
pub mod Aged
pub mod Tests
use text.Mathlib.Text.{starts_with}
use command_center.Base.{
  ℕ, zero, suc, ◌+◌, ◌-◌, ◌*◌, ◌/◌, ◌%◌, ◌^◌, String, Option, none, some, List, [], ◌∷◌, ◌++◌, Bool,
  true, false, not, ◌&&◌, ◌||◌, any, keep, length, leb, ltb, nat_eq, map, if◌then◌else◌, ◌==◌,
  string_Eq, nat_Eq, ◌≡◌, refl, Result, ok, raise, Error, illegal_transition, overflow_error,
}
use command_center.Base.Dict.{Dict, get, put}
use command_center.Events.Types.{system_retention_completed}
use command_center.Events.Envelope.{Event, Payload, count}
use command_center.Events.Host.{Host, now, tick, emit}
use command_center.Persistence.Store.{EventQuery, query, delete, last, asc}
use command_center.Scheduler.Cron.{month_and_day}
use command_center.Sessions.State.{completed, failed, stopped, archived, rank_eq, elem}
use command_center.Sessions.Model.{Session}
use command_center.Sessions.Registry.{Registry, list_sessions, observe_state}

-- A rule's age is the timedelta of its days, in microseconds.
pub record RetentionRule : Type 0 where
  pub types : String
  pub max_age : ℕ
  pub archive : Bool

-- The archive files by month. `broken` is what the disk raises when a month's events are to be written.
abbrev pub Archive : Type 0
Archive = Dict ℕ (List Event)

pub record Disk : Type 0 where
  pub broken : Archive → ℕ → Option Error

pub record Retention : Type 0 where
  pub node : String
  pub rules : List RetentionRule
  pub archive_sessions_after : Option ℕ
  pub rows : List Event
  pub archive : Archive
  pub registry : Registry

abbrev pub protected_prefixes : List String
protected_prefixes = "session." ∷ "schedule." ∷ "interaction." ∷ "machine." ∷ []

-- `e.type.startswith(PROTECTED_PREFIXES)`
unfoldable pub is_protected : Event → Bool
is_protected e = any (λ prefix. starts_with e.type prefix) protected_prefixes

abbrev pub batch_size : ℕ
batch_size = 500

-- `_min_ulid_at`: 48 bits of milliseconds above 80 bits of zeros. The source reaches the milliseconds through a
-- float, `timestamp() * 1000`, and truncates; here the division is exact, so the two may be 1 ms apart.
unfoldable pub min_ulid_at : ℕ → ℕ
min_ulid_at cutoff = cutoff / 1000 * 2 ^ 80

-- `now - timedelta(days=...)`. A time before the epoch has no ULID.
unfoldable pub cutoff_at : ℕ → ℕ → Result ℕ
cutoff_at now age = if ltb now age then raise overflow_error else ok (now - age)

-- `strftime("%Y-%m")`, as the number YYYYMM.
unfoldable pub month_of : ℕ → ℕ
unfolding month_and_day
month_of timestamp =
    let ordinal = timestamp / 86400000000 + 719163 in
    let n = ordinal - 1 in
    let a = n % 146097 in
    let b = a % 36524 in
    let n1 = b % 1461 / 365 in
    let years = n / 146097 * 400 + a / 36524 * 100 + b / 1461 * 4 + n1 in
    let year = if nat_eq n1 4 || nat_eq (a / 36524) 4 then years else years + 1 in
    let (month, day) = month_and_day ordinal in year * 100 + month

abbrev pub events_of : Archive → ℕ → List Event
events_of a month = elim (get a month) [ none ↦ [] | some es ↦ es ]

-- `by_month.setdefault(month, []).append(event)` for each event.
unfoldable pub by_month : Archive → List Event → Archive
unfolding month_of
by_month groups [] = groups
by_month groups (e ∷ es) =
    let month = month_of e.timestamp in
    by_month (put groups month (events_of groups month ++ e ∷ [])) es

abbrev pub Counted : Type 0
Counted = record { result : Result (ℕ × ℕ); rows : List Event; archive : Archive }

abbrev pub window : String → ℕ → Option ℕ → EventQuery
window types cutoff_id cursor = record {
  after_id = cursor;
  before_id = some cutoff_id;
  type_pattern = types;
  session_id = none;
  node = none;
  limit = batch_size;
  order = asc;
}

abbrev pub ids : List Event → List ℕ
ids es = map (λ e. e.id) es

-- What follows a step, unless it raises.
unfoldable pub and_then : Counted → (ℕ × ℕ → List Event → Archive → Counted) → Counted
and_then o next = elim o.result [ raise x ↦ o | ok counts ↦ next counts o.rows o.archive ]

pub and_then-ok :
    (o : Counted) (next : ℕ × ℕ → List Event → Archive → Counted) (counts : ℕ × ℕ)
    → o.result ≡ ok counts
    → and_then o next ≡ next counts o.rows o.archive
unfolding and_then
and_then-ok o next counts h = rw h refl

module _ (disk : Disk) where
  -- `for month, batch in by_month.items()`: each batch goes to the end of its month's file.
  unfoldable pub write_months : Archive → List (ℕ × List Event) → Result (Unit {0}) × Archive
  write_months a [] = (ok tt, a)
  write_months a ((month, batch) ∷ rest) = elim (disk.broken a month) [
    | some e ↦ (raise e, a)
    | none ↦ write_months (put a month (events_of a month ++ batch)) rest
  ]

  -- `_archive_events`
  unfoldable pub archive_events : Archive → List Event → Result (Unit {0}) × Archive
  unfolding by_month write_months
  archive_events a events = write_months a (by_month [] events)

  -- `if rule.archive: ...`, and the count that it adds.
  unfoldable pub archive_first : Bool → Archive → List Event → Result ℕ × Archive
  unfolding archive_events
  archive_first false a events = (ok 0, a)
  archive_first true a events =
      let (done, a') = archive_events a events in
      (elim done [ raise e ↦ raise e | ok u ↦ ok (length events) ], a')

  -- What one batch does to the counts, the rows and the archive.
  unfoldable pub expire : Bool → ℕ × ℕ → List Event → Archive → List Event → Counted
  unfolding archive_first delete
  expire archives counts rows a [] = record { result = ok counts; rows = rows; archive = a }
  expire archives counts rows a (e ∷ es) =
      let (written, a') = archive_first archives a (e ∷ es) in
      elim written [
        | raise x ↦ record { result = raise x; rows = rows; archive = a' }
        | ok n ↦
            let (gone, left) = delete rows (ids (e ∷ es)) in
            record { result = ok (counts.0 + gone, counts.1 + n); rows = left; archive = a' }
      ]

  -- `while True` of `_apply_rule`.
  unfoldable pub walk : RetentionRule → ℕ → ℕ → Option ℕ → ℕ × ℕ → List Event → Archive → Counted
  unfolding expire is_protected and_then
  walk rule cutoff_id zero cursor counts rows a = record {
    result = ok counts;
    rows = rows;
    archive = a;
  }
  walk rule cutoff_id (suc fuel) cursor counts rows a =
      elim (query rows (window rule.types cutoff_id cursor)) [
        | [] ↦ record { result = ok counts; rows = rows; archive = a }
        | e ∷ es ↦
            and_then (expire rule.archive counts rows a (keep (λ x. not (is_protected x)) (e ∷ es)))
              (walk rule cutoff_id fuel (some (last e es).id))
      ]

  -- `_apply_rule`
  unfoldable pub apply_rule : RetentionRule → ℕ → List Event → Archive → Counted
  unfolding walk cutoff_at min_ulid_at
  apply_rule rule now rows a = elim (cutoff_at now rule.max_age) [
    | raise x ↦ record { result = raise x; rows = rows; archive = a }
    | ok cutoff ↦ walk rule (min_ulid_at cutoff) (suc (length rows)) none (0, 0) rows a
  ]

  -- `for rule in self._rules`
  unfoldable pub apply_rules : List RetentionRule → ℕ → ℕ × ℕ → List Event → Archive → Counted
  unfolding apply_rule and_then
  apply_rules [] now counts rows a = record { result = ok counts; rows = rows; archive = a }
  apply_rules (rule ∷ rules) now counts rows a =
      and_then (apply_rule rule now rows a)
        (λ found. apply_rules rules now (counts.0 + found.0, counts.1 + found.1))

abbrev pub ended : Session → ℕ
ended s = elim s.ended_at [ none ↦ s.last_activity_at | some t ↦ t ]

-- What `_archive_sessions` asks of a session: this node's own, finished, and before the cutoff.
unfoldable pub is_stale : String → ℕ → Session → Bool
is_stale node cutoff s =
    if rank_eq s.state archived || not (s.node == node)
    then false
    else elem s.state (completed ∷ failed ∷ stopped ∷ []) && ltb (ended s) cutoff

abbrev pub Archived : Type 0
Archived = record { result : Result ℕ; host : Host; registry : Registry }

abbrev pub is_illegal : Error → Bool
is_illegal (illegal_transition sid from_state to_state) = true
is_illegal _ = false

-- `for session in self._registry.list_sessions()`. A pass changes only the object that it looks at.
unfoldable pub archive_each : String → ℕ → ℕ → Host → Registry → List Session → Archived
unfolding is_stale
archive_each node cutoff n h r [] = record { result = ok n; host = h; registry = r }
archive_each node cutoff n h r (s ∷ rest) =
    let skipped = archive_each node cutoff n h r rest in
    let o = observe_state h r s.id archived "retention" in
    if is_stale node cutoff s
    then elim o.result [
      | ok s' ↦ archive_each node cutoff (n + 1) o.host o.registry rest
      | raise e ↦ elim (is_illegal e) [
        | true ↦ archive_each node cutoff n o.host o.registry rest
        | false ↦ record { result = raise e; host = o.host; registry = o.registry }
      ]
    ]
    else skipped

-- `_archive_sessions`. Before a cutoff that lies before the epoch no session has ended.
unfoldable pub archive_sessions : String → Option ℕ → ℕ → Host → Registry → Archived
unfolding archive_each
archive_sessions node none now h r = record { result = ok 0; host = h; registry = r }
archive_sessions node (some age) now h r = archive_each node (now - age) 0 h r (list_sessions r)

abbrev pub source : String
source = "retention"

abbrev pub counts_payload : ℕ → ℕ → ℕ → Payload
counts_payload deleted stored sessions =
    ("events_deleted", count deleted)
    ∷ ("events_archived", count stored)
    ∷ ("sessions_archived", count sessions)
    ∷ []

abbrev pub Outcome : Type 0
Outcome = record { result : Result (ℕ × ℕ × ℕ); host : Host; retention : Retention }

abbrev pub report : Host → String → ℕ → ℕ → ℕ → Host
report h node deleted stored sessions =
    if not (nat_eq deleted 0) || not (nat_eq stored 0) || not (nat_eq sessions 0)
    then emit h system_retention_completed node source none (counts_payload deleted stored sessions)
    else h

-- `run_once`
unfoldable pub run_once : Disk → Host → Retention → Outcome
unfolding apply_rules archive_sessions
run_once disk h t =
    let o = apply_rules disk t.rules (now h) (0, 0) t.rows t.archive in
    let t' = record t { rows = o.rows; archive = o.archive } in
    elim o.result [
      | raise x ↦ record { result = raise x; host = tick h; retention = t' }
      | ok (deleted, n) ↦
          let p = archive_sessions t.node t.archive_sessions_after (now h) (tick h) t.registry in
          let t'' = record t' { registry = p.registry } in
          elim p.result [
            | raise x ↦ record { result = raise x; host = p.host; retention = t'' }
            | ok sessions ↦ record {
              result = ok (deleted, n, sessions);
              host = report p.host t.node deleted n sessions;
              retention = t'';
            }
          ]
    ]
