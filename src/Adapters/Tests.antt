-- ===== src/Adapters/Tests.antt =====
-- Runs of src/prodeo/adapters/manager.py at concrete inputs.
use command_center.Base.{
  ℕ, suc, String, none, some, List, [], ◌∷◌, true, false, string_Eq, nat_Eq, pair_Eq, Result, ok,
  raise, Error, os_error, ◌≡◌, ◌⊎◌, refl, All, arith,
}
use command_center.Base.Dict.{get, put}
use command_center.Base.Json.{Json}
use command_center.Events.Host.{Host, now, new_id, emit}
use command_center.Sessions.State.{running, waiting_on_user, can_transition}
use command_center.Sessions.Model.{Session, SessionDescriptor}
use command_center.Sessions.Registry
use command_center.Sessions.Registry.{upsert_discovered, observe_state, touch}
use command_center.Sessions.Registry.Replay.{IsDurable}
use command_center.Mediation.Model.{Interaction, InteractionRequest, Answer, allow, permission}
use command_center.Mediation.Service.{answered_with, open_interaction, answer_interaction}
use command_center.Mediation.Service.Sound.{IsSound}
use command_center.Mediation.Service.Run.{init-IsAlive}
use command_center.Adapters.Model.{
  Adapter, AdapterCapabilities, Observation, OutputObservation, interaction_seen,
}
use command_center.Adapters.Manager.{
  Manager, Closure, nothing, reply, respond, add, control, terminate, require_session,
  require_adapter,
}
use command_center.Adapters.Manager.Discovery.{
  start, start_all, discover, upsert_all, backoff_step, backoffs,
}
use command_center.Adapters.Manager.Observe.{
  output_payload, open_mediated, report, handle_observation, handle_resolved, translate,
  open_observed, observe_quietly,
}
use command_center.Adapters.Manager.Interact.{answer, deliver, run_closure}
use command_center.Adapters.Manager.Gate.{May, Reached, Refused, control_gates}
use command_center.Adapters.Manager.Backoff.{IsPause, backoffs-IsPause, doubling, backoffs_double}
use command_center.Adapters.Manager.Delivered.{IsIn, Arrived}
use command_center.Adapters.Manager.Output.{IsCapped, output_payload-IsCapped}
use command_center.Adapters.Manager.Parked.{request_answered}
use command_center.Adapters.Manager.Calls.{
  Call, call, adds, starts, reports, answers, terminates, fresh_manager, run, manager_recovers,
}

abbrev host : Host
host = record {
  clock = λ n. n;
  ticks = 100;
  ulid = λ n. suc n;
  draws = 0;
  last_id = 0;
  published = [];
}

injective : (a b : ℕ) → suc a ≡ suc b → a ≡ b
injective a b e = cc e

abbrev message : Error → String
message e = "no such process"

-- It answers permissions and cannot terminate.
abbrev capabilities : AdapterCapabilities
capabilities = record {
  observe = true;
  launch = true;
  terminate = false;
  respond_to_permissions = true;
  answer_questions = false;
  send_prompts = true;
  set_model = false;
  set_permission_mode = false;
  interrupt = true;
  report_context = false;
  historical_sessions = false;
}

abbrev codex : Adapter
codex = record { name = "codex"; version = "1.0"; models = []; capabilities = capabilities }

abbrev found : SessionDescriptor
found = record {
  native_id = "native-1";
  title = "fix the build";
  project = "/src/app";
  model = none;
  state = running;
  started_at = none;
  last_activity_at = none;
  metadata = [];
}

abbrev permission_asked : Observation
permission_asked = interaction_seen (record {
  native_id = "native-1";
  interaction_native_id = "call-1";
  kind = permission;
  title = "rm -r build";
  body = "";
  options = [];
  questions = [];
  timeout_s = none;
  at = none;
})

abbrev yes_i : Answer
yes_i = record { decision = some allow; text = ""; updated_input = none; selections = none }

abbrev a_day : List Call
a_day =
    adds codex
    ∷ starts (λ name. ok tt) (λ name. ok (found ∷ []))
    ∷ reports codex "codex" permission_asked
    ∷ answers 7 yes_i "phone" (raise (os_error "Broken pipe"))
    ∷ terminates 2 (ok tt)
    ∷ []

manager_recovers_example :
    let (h', m') = run message host (fresh_manager "hub" none) a_day in
    IsDurable h'.published m'.registry × IsSound m'.mediation
manager_recovers_example = manager_recovers message host "hub" none a_day refl injective

abbrev after_a_day : Manager
after_a_day = (run message host (fresh_manager "hub" none) a_day).1

-- The answer reached the adapter, and the termination did not.
day_calls :
    after_a_day.calls
    ≡ record {
      adapter = "codex";
      operation = "respond";
      native_id = "call-1";
      argument =
          reply
            (record {
              adapter = "codex";
              session_native_id = "native-1";
              interaction_id = 7;
              native_id = "call-1";
            })
            yes_i;
    }
      ∷ []
unfolding run call add start start_all discover upsert_all upsert_discovered get put report
    handle_observation handle_resolved translate open_observed open_mediated open_interaction
    observe_quietly observe_state can_transition new_id touch answer answer_interaction deliver
    run_closure terminate control require_session require_adapter emit
day_calls = refl

abbrev fixing : Session
fixing = record {
  id = 3;
  adapter = "codex";
  native_id = "native-1";
  node = "hub";
  title = "fix the build";
  project = "/src/app";
  model = none;
  permission_mode = "";
  state = running;
  created_at = 3;
  last_activity_at = 4;
  ended_at = none;
  metadata = [];
}

abbrev working : Manager
working = record (fresh_manager "hub" none) {
  adapters = ("codex", codex) ∷ [];
  started = "codex" ∷ [];
  registry = record (Registry.init "hub") { by_id = (3, fixing) ∷ [] };
}

working_found : get working.registry.by_id 3 ≡ some fixing
unfolding get
working_found = refl

control_gates_example :
    Reached message host working 3 "interrupt"
      (λ c. c.interrupt)
      nothing
      (ok tt)
      (control message host working 3 "interrupt" (λ c. c.interrupt) nothing (ok tt))
    ⊎ (¬ (May working 3 (λ c. c.interrupt)))
      × Refused host working
          (control message host working 3 "interrupt" (λ c. c.interrupt) nothing (ok tt))
control_gates_example =
    control_gates message host working 3 "interrupt" (λ c. c.interrupt) nothing (ok tt)

abbrev asking : InteractionRequest
asking = record {
  session_id = 3;
  adapter = "codex";
  native_id = "call-1";
  kind = permission;
  title = "rm -r build";
  body = "";
  options = [];
  questions = [];
  timeout_s = some 30;
}

nothing_open : IsSound working.mediation
nothing_open = let v = init-IsAlive host "hub" none injective in v.sound

may_wait : can_transition fixing.state waiting_on_user ≡ true
unfolding can_transition
may_wait = refl

no_futures : get working.futures working.next_closure ≡ none
unfolding get
no_futures = refl

-- The way back through the adapter, whose call fails.
abbrev route : Closure
route = respond "codex" "native-1" "call-1" 3

abbrev broken : Result (Unit {0})
broken = raise (os_error "Broken pipe")

request_answered_example :
    let asked = open_mediated host working 3 asking route in
    (i : Interaction) × (asked.result ≡ ok i)
    × IsIn 3 waiting_on_user asked.manager
    × (let o = answer message asked.host asked.manager i.id yes_i "phone" broken in
        let i' = answered_with i yes_i "phone" (now asked.host) in
        let resolved = answer_interaction asked.host asked.manager.mediation i.id yes_i "phone" in
        (o.result ≡ ok i')
        × Arrived resolved.host o.host asked.manager o.manager 0 i' yes_i broken route)
request_answered_example =
    request_answered message host working fixing asking route yes_i "phone" broken nothing_open
      working_found may_wait no_futures

-- Two quick crashes, a long run, and a third crash.
abbrev uptimes : List ℕ
uptimes = 500000 ∷ 2000000 ∷ 70000000 ∷ []

backoffs-IsPause_example : All IsPause (backoffs 1000000 uptimes)
backoffs-IsPause_example = backoffs-IsPause 1000000 uptimes (omega arith, omega arith)

backoffs_double_example : backoffs 1000000 (0 ∷ 60000000 ∷ []) ≡ doubling 0 2
backoffs_double_example = backoffs_double (0 ∷ 60000000 ∷ []) (omega arith, (omega arith, tt))

-- It is healthy again after the long run.
backoffs_run : backoffs 1000000 uptimes ≡ 1000000 ∷ 2000000 ∷ 1000000 ∷ []
unfolding backoffs backoff_step
backoffs_run = refl

abbrev said : OutputObservation
said = record {
  native_id = "native-1";
  role = "assistant";
  text = "Done.";
  at = some 5;
  metadata = ("tokens", Json.str "12") ∷ [];
}

output_payload-IsCapped_example : IsCapped "Done." (output_payload said)
output_payload-IsCapped_example = output_payload-IsCapped said (refl, tt) (refl, tt)
