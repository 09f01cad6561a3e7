-- ===== src/Retention/Tests.antt =====
-- Runs of src/prodeo/persistence/retention.py at concrete inputs.
use command_center.Base.{
  ℕ, ◌+◌, ◌-◌, ◌*◌, String, none, some, List, [], ◌∷◌, true, not, keep, ok, raise, os_error, ◌≡◌,
  refl, arith, nat_eq, sorted_desc, if◌then◌else◌,
}
use command_center.Base.Dict.{get, put}
use command_center.Events.Envelope.{Event}
use command_center.Events.Host.{Host}
use command_center.Bus.{matches}
use command_center.Persistence.Store.{query}
use command_center.Sessions.Model.{Session}
use command_center.Sessions.State.{SessionState, running, completed, can_transition}
use command_center.Sessions.Registry.{Registry, list_sessions, observe_state}
use command_center.Retention.{
  Retention, RetentionRule, Disk, min_ulid_at, month_of, apply_rule, archive_sessions, run_once,
}
use command_center.Retention.Batch.{is_expendable}
use command_center.Retention.Expiry.{Expired}
use command_center.Retention.Rule.{apply_rule-Expired}
use command_center.Retention.Written.{NothingLost}
use command_center.Retention.Safe.{run_once-NothingLost}
use command_center.Retention.Aged.{Swept, archive_sessions-Swept}

abbrev day : ℕ
day = 86400000000

-- 15 January 2025, noon.
abbrev mid_january : ℕ
mid_january = 1736942400000000

month_of_january : month_of mid_january ≡ 202501
unfolding month_of
month_of_january = refl

-- The last instant of a leap year, and the first after it.
month_of_leap_end : month_of 1735689599999999 ≡ 202412
unfolding month_of
month_of_leap_end = refl

abbrev logged : ℕ → String → ℕ → Event
logged n type_ at = record {
  id = min_ulid_at at + n;
  type = type_;
  version = 1;
  timestamp = at;
  node = "hub";
  session_id = none;
  correlation_id = none;
  source = "test";
  payload = [];
}

abbrev rows : List Event
rows =
    logged 1 "agent.output_appended" (mid_january - 40 * day)
    ∷ logged 2 "session.completed" (mid_january - 39 * day)
    ∷ logged 3 "tool.started" (mid_january - 8 * day)
    ∷ logged 4 "tool.started" (mid_january - 1 * day)
    ∷ []

abbrev weekly : RetentionRule
weekly = record { types = "*"; max_age = 7 * day; archive = true }

abbrev works : Disk
works = record { broken = λ a m. none }

abbrev full : Disk
full = record {
  broken = λ a m. if nat_eq m 202501 then some (os_error "No space left on device") else none;
}

-- The protected event and the recent one stay.
apply_rule_counts : (apply_rule works weekly mid_january rows []).result ≡ ok (2, 2)
unfolding apply_rule query matches put
apply_rule_counts = refl

-- December is written, January is refused, and nothing is deleted.
apply_rule_out_of_space :
    (apply_rule full weekly mid_january rows []).result ≡ raise (os_error "No space left on device")
unfolding apply_rule query matches put
apply_rule_out_of_space = refl

apply_rule-Expired_example :
    Expired true
      (keep (is_expendable "*" (min_ulid_at (mid_january - 7 * day))) rows)
      (0, 0)
      (keep (λ e. not (is_expendable "*" (min_ulid_at (mid_january - 7 * day)) e)) rows)
      []
      (apply_rule works weekly mid_january rows [])
unfolding min_ulid_at
apply_rule-Expired_example =
    apply_rule-Expired works weekly mid_january rows [] (λ b m. refl) (omega arith) (omega arith)

abbrev host : Host
host = record {
  clock = λ n. mid_january + n;
  ticks = 0;
  ulid = λ n. n;
  draws = 0;
  last_id = 0;
  published = [];
}

abbrev finished : ℕ → String → SessionState → ℕ → Session
finished id node state at = record {
  id = id;
  adapter = "codex";
  native_id = "native";
  node = node;
  title = "fix the build";
  project = "/src/app";
  model = none;
  permission_mode = "";
  state = state;
  created_at = 3;
  last_activity_at = at;
  ended_at = none;
  metadata = [];
}

-- One session to archive, one of another node, and one that still runs.
abbrev registry : Registry
registry = record {
  node = "hub";
  by_id =
      (1, finished 1 "hub" completed (mid_january - 40 * day))
      ∷ (2, finished 2 "laptop" completed (mid_january - 40 * day))
      ∷ (3, finished 3 "hub" running (mid_january - 40 * day))
      ∷ [];
  by_native = [];
}

abbrev retention : Retention
retention = record {
  node = "hub";
  rules = weekly ∷ [];
  archive_sessions_after = some (30 * day);
  rows = rows;
  archive = [];
  registry = registry;
}

run_once_counts : (run_once works host retention).result ≡ ok (2, 2, 1)
unfolding run_once query matches put list_sessions observe_state get sorted_desc can_transition
run_once_counts = refl

run_once-NothingLost_example :
    NothingLost rows []
      (run_once full host retention).retention.rows
      (run_once full host retention).retention.archive
unfolding min_ulid_at
run_once-NothingLost_example = run_once-NothingLost full host retention (refl, tt) (omega arith)

archive_sessions-Swept_example :
    Swept "hub"
      (mid_january - 30 * day)
      registry
      (archive_sessions "hub" (some (30 * day)) mid_january host registry)
archive_sessions-Swept_example =
    archive_sessions-Swept "hub" (30 * day) mid_january host registry
      ((refl, (refl, tt)), ((refl, tt), (tt, tt))) (refl, (refl, (refl, tt)))
