-- ===== src/Apps/Tests.antt =====
-- Runs of src/prodeo/apps at concrete inputs.
use command_center.Base.{
  String, Option, none, some, List, [], ◌∷◌, true, false, ok, Error, string_Eq, ◌≡◌, refl, arith,
  map, inl,
}
use command_center.Base.Dict.{Dict, get, put, update}
use command_center.Base.Text.{ℤ, pos, negsuc, codes, text_eq, partition, split}
use command_center.Base.Names.{text_Eq}
use command_center.Base.Json.{Json, end, field}
use command_center.Apps.Environment.{
  EnvManifest, Env, env_name, child_env, env_provides, unmet_setup, unmet, walks, provided,
  config_to_env,
}
use command_center.Apps.Environment.Saved.{child_sees, saved_provided}
use command_center.Events.Host.{Host, emit}
use command_center.Apps.Supervisor.{
  AppManifest, running, failed, waiting, Running, Supervisor, new_running, started_again,
  running_of, status_of, is_present, start_app, emit_app,
}
use command_center.Apps.Supervisor.Supervise.{start, start_all, wakes, loops}
use command_center.Apps.Supervisor.Fit.{Fits}
use command_center.Apps.Supervisor.Calls.{Call, boots, goes_on, call, run, new_supervisor, run-Fits}
use command_center.Apps.Supervisor.Looping.{Crash, crashing, IsGivenUp, crash_loop_ends}

abbrev host : Host
host = record { clock = λ n. n; ticks = 100; ulid = λ n. n; draws = 0; last_id = 0; published = [] }

abbrev message : Error → String
message e = "No such file or directory"

abbrev shown : ℤ → String
shown code = "1"

abbrev mjolnir : AppManifest
mjolnir = record {
  name = "mjolnir";
  version = "0.1.0";
  description = "Voice client";
  configurable = true;
  presence_client_id = "mjolnir";
}

-- It starts with the server, and its child is there.
abbrev booted : List Call
booted = boots (mjolnir ∷ []) ("mjolnir" ∷ []) (λ name. []) ∷ goes_on "mjolnir" (ok 4242) ∷ []

abbrev empty : Supervisor
empty = new_supervisor "hub" true none

abbrev listening : Running
listening = record new_running {
  wanted = true;
  state = running;
  pid = some 4242;
  started_at = some 100;
  process = some 4242;
  task = some (waiting 1000000 0);
}

booted_found : get (run message shown host empty booted).1.states "mjolnir" ≡ some listening
unfolding run call start start_all start_app running_of status_of is_present get put wakes loops
    emit_app emit
booted_found = refl

run-Fits_example : Fits false listening
unfolding run call start start_all start_app running_of status_of is_present get put wakes loops
    emit_app emit
run-Fits_example =
    run-Fits message shown host "hub" true none booted "mjolnir" listening booted_found

-- Setup is unmet: the app is not started.
not_ready_run :
    map
      (λ p. p.1.state)
      (run message shown host empty
        (boots (mjolnir ∷ []) ("mjolnir" ∷ []) (λ name. "Choose a voice" ∷ []) ∷ [])).1.states
    ≡ failed ∷ []
unfolding run call start start_all start_app running_of status_of is_present get put
not_ready_run = refl

abbrev wanted : Supervisor
wanted = record empty {
  apps = ("mjolnir", mjolnir) ∷ [];
  states = ("mjolnir", started_again new_running) ∷ [];
}

wanted_found : get wanted.states "mjolnir" ≡ some (started_again new_running)
unfolding get
wanted_found = refl

abbrev five : List Crash
five =
    (10, pos 1, 2000000)
    ∷ (11, pos 1, 1000000)
    ∷ (12, negsuc 8, 60000000)
    ∷ (13, pos 0, 5)
    ∷ (14, pos 1, 0)
    ∷ []

crash_loop_ends_example :
    IsGivenUp (run message shown host wanted (crashing "mjolnir" five)).1 "mjolnir"
crash_loop_ends_example =
    crash_loop_ends message shown host wanted "mjolnir" five
      (record {
        state = started_again new_running;
        backoff = 1000000;
        known = wanted_found;
        wanted = refl;
        serving = refl;
        launches = inl refl;
      })
      (omega arith, (omega arith, (omega arith, (omega arith, (omega arith, tt))))) refl

abbrev shape : EnvManifest
shape = record {
  env_prefix = "MJOLNIR_";
  server_url_field = "server_url";
  api_token_field = "api_token";
}

abbrev dumps : Json → String
dumps v = "{\"piper\": {\"voice_path\": \"amy.onnx\"}}"

abbrev voice : Json
voice = Json.obj (field "piper" (Json.obj (field "voice_path" (Json.str "amy.onnx") end)) end)

abbrev loads : String → Option Json
loads raw = some voice

abbrev saved : Dict String Json
saved = ("engines", voice) ∷ ("token", Json.str "secret") ∷ []

-- The server has another address for the client in its own environment.
abbrev environ : Env
environ = (codes "MJOLNIR_SERVER_URL", "http://elsewhere") ∷ []

url_defaulted :
    get
      (child_env dumps environ shape (some "http://hub:8000") none saved)
      (codes "MJOLNIR_SERVER_URL")
    ≡ some "http://hub:8000"
unfolding child_env config_to_env update get put text_eq
url_defaulted = refl

engines_found : get saved "engines" ≡ some voice
unfolding get
engines_found = refl

engines_seen :
    get (child_env dumps environ shape none none saved) (env_name "MJOLNIR_" (codes "engines"))
    ≡ some (dumps voice)
unfolding text_eq
engines_seen =
    child_sees dumps environ shape none none saved "engines" voice refl ((refl, tt), (tt, tt))
      engines_found

pointer_parted :
    partition 46 (codes "engines.piper.voice_path") ≡ (codes "engines", codes "piper.voice_path")
unfolding partition
pointer_parted = refl

saved_provided_example :
    env_provides loads
      (child_env dumps environ shape none none saved)
      "MJOLNIR_"
      "engines.piper.voice_path"
    ≡ true
unfolding text_eq walks split
saved_provided_example =
    saved_provided dumps loads environ shape none none saved "engines.piper.voice_path" "engines"
      (codes "piper.voice_path")
      (field "piper" (Json.obj (field "voice_path" (Json.str "amy.onnx") end)) end) refl refl
      pointer_parted ((refl, tt), (tt, tt)) engines_found refl

-- Only what is neither saved nor set is left to do.
setup_left :
    unmet_setup loads (child_env dumps environ shape none none saved) "MJOLNIR_" (
      ok (
        record { description = "Choose a voice"; config_pointer = "engines.piper.voice_path" }
        ∷ record { description = "Name a device"; config_pointer = "microphone" }
        ∷ []))
    ≡ "Name a device" ∷ []
unfolding unmet_setup unmet env_provides provided partition split walks child_env config_to_env
    update get put text_eq
setup_left = refl
