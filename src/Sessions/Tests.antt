-- ===== src/Sessions/Tests.antt =====
-- Runs of src/prodeo/sessions/registry.py, and of the ids of src/prodeo/events/envelope.py, at concrete
-- inputs.
use command_center.Base.{
  suc, none, some, List, [], ◌∷◌, true, false, ◌||◌, ◌⊎◌, ◌↔◌, string_Eq, pair_Eq, nat_Eq, ◌≡◌,
  refl,
}
use command_center.Base.Dict.{get}
use command_center.Base.Json.{Json, json_eq}
use command_center.Events.Host.{Host, emit}
use command_center.Events.Host.Ids.{IsMonotone, emit-IsMonotone}
use command_center.Sessions.State.{running, waiting_on_user, completed, rank_eq, can_transition}
use command_center.Sessions.State.Machine.{Reach, can_reach, Reach_iff}
use command_center.Sessions.Model.{Session, SessionDescriptor}
use command_center.Sessions.Registry.{Registry, init, upsert_discovered, refreshed}
use command_center.Sessions.Registry.Calls.{
  Call, upsert, observe, touched, set_model, call, run, run-IsDurable,
}
use command_center.Sessions.Registry.Replay.{IsDurable}
use command_center.Sessions.Registry.Life.{Keeps, call-Keeps}
use command_center.Sessions.Registry.Refusal.{Moved, Refused, observe_state_complete}
use command_center.Sessions.Registry.Discovery.{
  Knows, upsert_discovered_twice, upsert_discovered_parked,
}

abbrev host : Host
host = record {
  clock = λ n. n;
  ticks = 10;
  ulid = λ n. suc n;
  draws = 0;
  last_id = 0;
  published = [];
}

abbrev found_running : SessionDescriptor
found_running = record {
  native_id = "native-1";
  title = "fix the build";
  project = "/src/app";
  model = some "opus";
  state = running;
  started_at = none;
  last_activity_at = none;
  metadata = ("branch", Json.str "main") ∷ [];
}

abbrev parked : Session
parked = record {
  id = 1;
  adapter = "codex";
  native_id = "native-1";
  node = "hub";
  title = "fix the build";
  project = "/src/app";
  model = none;
  permission_mode = "";
  state = waiting_on_user;
  created_at = 3;
  last_activity_at = 4;
  ended_at = none;
  metadata = [];
}

abbrev registry : Registry
registry = record {
  node = "hub";
  by_id = (1, parked) ∷ [];
  by_native = (("codex", "native-1"), 1) ∷ [];
}

parked_found : get registry.by_id 1 ≡ some parked
unfolding get
parked_found = refl

new_is_free : get registry.by_id (suc 1) ≡ none
unfolding get
new_is_free = refl

parked_known : Knows registry "codex" found_running 1 parked
unfolding get
parked_known = record { native = refl; found = refl; keyed = refl }

abbrev calls : List Call
calls =
    upsert "codex" found_running
    ∷ observe 1 waiting_on_user "asked"
    ∷ observe 1 completed "done"
    ∷ observe 1 running "late"
    ∷ set_model 1 "sonnet"
    ∷ touched 1 (some 99)
    ∷ []

run-IsDurable_example :
    IsDurable (run host (init "hub") calls).0.published (run host (init "hub") calls).1
run-IsDurable_example = run-IsDurable host "hub" calls refl

abbrev next_host : Host
next_host = record host { draws = 1 }

call-Keeps_example : Keeps registry (call next_host registry (observe 1 completed "done")).1
call-Keeps_example = call-Keeps next_host registry (observe 1 completed "done") new_is_free

observe_state_complete_example :
    ((rank_eq completed parked.state || can_transition parked.state completed) ≡ true)
      × Moved host registry 1 completed "done"
    ⊎ ((rank_eq completed parked.state || can_transition parked.state completed) ≡ false)
      × Refused host registry 1 parked completed "done"
observe_state_complete_example =
    observe_state_complete host registry 1 parked completed "done" parked_found

upsert_discovered_twice_example :
    ((upsert_discovered next_host
        (upsert_discovered host registry "codex" found_running).registry
        "codex"
        found_running).host
      ≡ next_host)
    × ((upsert_discovered next_host
          (upsert_discovered host registry "codex" found_running).registry
          "codex"
          found_running).registry
        ≡ (upsert_discovered host registry "codex" found_running).registry)
unfolding json_eq
upsert_discovered_twice_example =
    upsert_discovered_twice host next_host registry "codex" found_running 1 parked parked_known
      (record { distinct = (tt, tt); reflexive = (refl, tt) })

upsert_discovered_parked_example :
    get (upsert_discovered host registry "codex" found_running).registry.by_id 1
    ≡ some (refreshed found_running parked)
upsert_discovered_parked_example =
    upsert_discovered_parked host registry "codex" found_running 1 parked parked_known refl

emit-IsMonotone_example : IsMonotone (emit host "session.updated" "hub" "test" (some 1) [])
emit-IsMonotone_example =
    emit-IsMonotone host "session.updated" "hub" "test" (some 1) []
      (record { increasing = tt; remembered = tt })

Reach_iff_example : Reach completed running ↔ (can_reach completed running ≡ true)
Reach_iff_example = Reach_iff completed running
