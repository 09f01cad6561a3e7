-- ===== src/Machines/Tests.antt =====
-- Runs of src/prodeo/machines/registry.py and enrollments.py at concrete inputs.
use command_center.Base.{
  ℕ, suc, String, none, some, List, [], ◌∷◌, true, false, string_Eq, nat_Eq, ◌≡◌, refl,
}
use command_center.Base.Lists.{find}
use command_center.Base.Dict.{get, put}
use command_center.Events.Host.{Host}
use command_center.Machines.Model.{Machine}
use command_center.Machines.Registry.{Registry, init, ensure_local}
use command_center.Machines.Registry.Durable.{
  Call, adds, ensures_local, renames, removes, run, IsDurable, machines_replayed,
}
use command_center.Machines.Registry.Unique.{
  IsSound, IsAlive, run-IsAlive, init-IsAlive, machines_unique,
}
use command_center.Machines.Registry.Local.{IsLocal, run-IsLocal, ensure_local_twice}
use command_center.Machines.Enrollments.{Enrollments, claim, claims, token_binds}

abbrev host : Host
host = record {
  clock = λ n. n;
  ticks = 10;
  ulid = λ n. suc n;
  draws = 0;
  last_id = 0;
  published = [];
}

injective : (a b : ℕ) → suc a ≡ suc b → a ≡ b
injective a b e = cc e

abbrev calls : List Call
calls =
    ensures_local
    ∷ adds "laptop" "Laptop" (some "10.0.0.2") "PEM"
    ∷ adds "laptop" "again" none ""
    ∷ renames 1 "Desk"
    ∷ removes 1
    ∷ removes 9
    ∷ []

machines_replayed_example :
    IsDurable (run host (init "hub") calls).0 (run host (init "hub") calls).1
machines_replayed_example = machines_replayed host "hub" calls refl

machines_unique_example : IsSound (run host (init "hub") calls).1
machines_unique_example = machines_unique host "hub" calls injective

abbrev local : Machine
local = record {
  id = 1;
  node = "hub";
  name = "hub";
  address = none;
  certificate = "";
  added_at = 10;
}

abbrev booted : Registry
booted = (run host (init "hub") (ensures_local ∷ [])).1

abbrev booted_host : Host
booted_host = (run host (init "hub") (ensures_local ∷ [])).0

booted-IsAlive : IsAlive booted_host booted
booted-IsAlive =
    run-IsAlive host (init "hub") (ensures_local ∷ []) (init-IsAlive host "hub" injective)

booted-IsLocal : IsLocal booted 1 "hub"
unfolding run ensure_local get put find
booted-IsLocal = record { machine = local; found = refl; here = refl; no_address = refl }

run-IsLocal_example : IsLocal (run booted_host booted calls).1 1 "hub"
run-IsLocal_example = run-IsLocal booted_host booted calls 1 "hub" booted-IsAlive booted-IsLocal

ensure_local_twice_example :
    ensure_local booted_host (ensure_local host (init "hub")).registry ≡ record {
      result = (ensure_local host (init "hub")).result;
      host = booted_host;
      registry = (ensure_local host (init "hub")).registry;
    }
ensure_local_twice_example =
    ensure_local_twice host booted_host (init "hub") (init-IsAlive host "hub" injective)

abbrev minted : Enrollments
minted = record {
  document = none;
  cache = some (("t1", record { label = "laptop"; created_at = 3; claimed_by = "" }) ∷ []);
}

abbrev same_digest : String → String
same_digest token = token

abbrev other_claims : List (String × String)
other_claims = ("t1", "intruder") ∷ ("t2", "desk") ∷ ("t1", "laptop") ∷ []

first_claim : (claim same_digest minted "t1" "laptop").0 ≡ true
unfolding claim get
first_claim = refl

token_binds_example :
    ((claim same_digest
        (claims same_digest (claim same_digest minted "t1" "laptop").1 other_claims)
        "t1"
        "laptop").0
      ≡ true)
    × ((claim same_digest
          (claims same_digest (claim same_digest minted "t1" "laptop").1 other_claims)
          "t1"
          "intruder").0
        ≡ false)
token_binds_example =
    token_binds same_digest minted "t1" "laptop" "intruder" other_claims refl refl first_claim
