-- ===== src/Mediation/Tests.antt =====
-- Runs of src/prodeo/mediation/service.py at concrete inputs.
use command_center.Base.{
  ℕ, suc, String, none, some, List, [], ◌∷◌, false, if◌then◌else◌, ◌==◌, string_Eq, ◌&&◌, nat_Eq,
  raise, interaction_already_resolved, ◌≡◌, refl,
}
use command_center.Base.Dict.{get, put}
use command_center.Events.Host.{Host, now, new_id}
use command_center.Mediation.Model.{
  Interaction, InteractionRequest, Answer, permission, pending, deny, is_pending,
}
use command_center.Mediation.Service.{
  Mediation, init, open_interaction, answer_interaction, cancel_native, answered_with, cancelled_i,
}
use command_center.Mediation.Service.Calls.{Call, opens, answers, times_out, withdraws, closes, run}
use command_center.Mediation.Service.Sound.{IsSound}
use command_center.Mediation.Service.Run.{IsAlive, init-IsAlive, run-IsAlive, run-IsSound}
use command_center.Mediation.Service.Final.{Accepted, first_answer_wins, run_keeps_resolved}
use command_center.Mediation.Service.Fold.{cancel_orphans}
use command_center.Mediation.Service.Orphans.{cancel_orphans-exact}

abbrev host : Host
host = record {
  clock = λ n. n;
  ticks = 100;
  ulid = λ n. suc n;
  draws = 0;
  last_id = 0;
  published = [];
}

injective : (a b : ℕ) → suc a ≡ suc b → a ≡ b
injective a b e = cc e

abbrev may_i : InteractionRequest
may_i = record {
  session_id = 7;
  adapter = "codex";
  native_id = "call-1";
  kind = permission;
  title = "rm -r build";
  body = "";
  options = [];
  questions = [];
  timeout_s = some 30;
}

abbrev answer_of : String → Answer
answer_of why = record { decision = some deny; text = why; updated_input = none; selections = none }

abbrev empty : Mediation
empty = init "hub" none

abbrev asked : List Call
asked = opens may_i 5 ∷ []

abbrev opened_host : Host
opened_host = (run host empty asked).0

abbrev opened : Mediation
opened = (run host empty asked).1

abbrev waiting : Interaction
waiting = record {
  id = 1;
  session_id = 7;
  adapter = "codex";
  native_id = "call-1";
  node = "hub";
  kind = permission;
  title = "rm -r build";
  body = "";
  options = [];
  questions = [];
  requested_at = 100;
  timeout_at = some 30000100;
  status = pending;
  answered_by = "";
  answered_at = none;
  answer = none;
}

opened-IsAlive : IsAlive opened_host opened
opened-IsAlive = run-IsAlive host empty asked (init-IsAlive host "hub" none injective)

opened_found : get opened.by_id 1 ≡ some waiting
unfolding run open_interaction get new_id put
opened_found = refl

abbrev later_calls : List Call
later_calls = times_out 1 ∷ withdraws "codex" "call-1" "resolved elsewhere" ∷ opens may_i 6 ∷ []

run-IsSound_example :
    IsSound
      (run host empty
        (opens may_i 5 ∷ answers 1 (answer_of "no") "phone" ∷ times_out 1 ∷ closes ∷ [])).1
run-IsSound_example =
    run-IsSound host "hub" none
      (opens may_i 5 ∷ answers 1 (answer_of "no") "phone" ∷ times_out 1 ∷ closes ∷ []) injective

first_answer_wins_example :
    let first = answer_interaction opened_host opened 1 (answer_of "no") "phone" in
    let (h', m') = run first.host first.mediation later_calls in
    Accepted opened_host opened 1 waiting (answer_of "no") "phone"
    × (get m'.by_id 1 ≡ some (answered_with waiting (answer_of "no") "phone" (now opened_host)))
    × (answer_interaction h' m' 1 (answer_of "yes") "desk" ≡ record {
      result = raise (interaction_already_resolved 1 "answered");
      host = h';
      mediation = m';
    })
first_answer_wins_example =
    first_answer_wins opened_host opened 1 waiting (answer_of "no") (answer_of "yes") "phone" "desk"
      later_calls opened-IsAlive opened_found refl

abbrev withdrawn : List Call
withdrawn = opens may_i 5 ∷ withdraws "codex" "call-1" "resolved elsewhere" ∷ []

withdrawn_found : get (run host empty withdrawn).1.by_id 1 ≡ some (cancelled_i waiting)
unfolding run open_interaction get new_id put cancel_native
withdrawn_found = refl

withdrawn_over : is_pending (cancelled_i waiting).status ≡ false
unfolding cancelled_i
withdrawn_over = refl

run_keeps_resolved_example :
    get (run (run host empty withdrawn).0 (run host empty withdrawn).1 later_calls).1.by_id 1
    ≡ some (cancelled_i waiting)
run_keeps_resolved_example =
    run_keeps_resolved (run host empty withdrawn).0 (run host empty withdrawn).1 later_calls 1
      (cancelled_i waiting)
      (run-IsAlive host empty withdrawn (init-IsAlive host "hub" none injective)) withdrawn_found
      withdrawn_over

abbrev remote : Interaction
remote = record waiting { id = 2; node = "laptop" }

abbrev rebuilt : Mediation
rebuilt = record empty { by_id = (1, waiting) ∷ (2, remote) ∷ [] }

rebuilt_found : get rebuilt.by_id 2 ≡ some remote
unfolding get
rebuilt_found = refl

cancel_orphans-exact_example :
    get (cancel_orphans host rebuilt).1.by_id 2
    ≡ some (if is_pending remote.status && remote.node == "hub" then cancelled_i remote else remote)
cancel_orphans-exact_example =
    cancel_orphans-exact host rebuilt 2 remote ((refl, tt), (tt, tt)) (refl, (refl, tt))
      rebuilt_found
