-- ===== src/Apps/Environment.antt =====
-- The environment of a child in src/prodeo/apps: config_to_env of manifest.py, and _child_env,
-- unmet_setup and _env_provides of supervisor.py. Names are code points, in ASCII. `dumps` and `loads`
-- are those of Python's json.
pub mod Saved
use command_center.Base.{
  ℕ, ◌-◌, String, Option, none, some, List, [], ◌∷◌, ◌++◌, Bool, true, false, not, ◌&&◌, leb,
  if◌then◌else◌, ◌==◌, string_Eq, Eq, Result, ok, raise,
}
use command_center.Base.Dict.{Dict, get, put, update}
use command_center.Base.Json.{Json, Fields, end, field}
use command_center.Base.Json
use command_center.Base.Text.{Text, codes, text_eq, is_empty, split, partition}
use command_center.Base.Names.{text_Eq}

-- The fields of the manifest that shape the environment.
pub record EnvManifest : Type 0 where
  pub env_prefix : String
  pub server_url_field : String
  pub api_token_field : String

abbrev pub Env : Type 0
Env = Dict Text String

-- `str.upper` of ASCII text.
abbrev pub upper : Text → Text
upper [] = []
upper (c ∷ s) = (if leb 97 c && leb c 122 then c - 32 else c) ∷ upper s

-- `f"{prefix}{key}".upper()`
abbrev pub env_name : String → Text → Text
env_name prefix key = upper (codes prefix ++ key)

-- `value if isinstance(value, str) else json.dumps(value)`
abbrev pub rendered : (Json → String) → Json → String
rendered dumps (Json.str s) = s
rendered dumps v = dumps v

abbrev pub items : (Json → String) → String → Dict String Json → List (Text × String)
items dumps prefix [] = []
items dumps prefix ((key, value) ∷ config) =
    (env_name prefix (codes key), rendered dumps value) ∷ items dumps prefix config

-- `config_to_env`
unfoldable pub config_to_env : (Json → String) → EnvManifest → Dict String Json → Env
config_to_env dumps m config =
    if m.env_prefix == "" then [] else update [] (items dumps m.env_prefix config)

-- `config.setdefault(key, value)`
abbrev pub set_default : Dict String Json → String → Json → Dict String Json
set_default config key value = elim (get config key) [
  | none ↦ put config key value
  | some v ↦ config
]

abbrev pub with_server_url : EnvManifest → Option String → Dict String Json → Dict String Json
with_server_url m none config = config
with_server_url m (some url) config =
    if m.server_url_field == ""
    then config
    else set_default config m.server_url_field (Json.str url)

abbrev pub with_api_token : EnvManifest → Option String → Dict String Json → Dict String Json
with_api_token m none config = config
with_api_token m (some token) config =
    if m.api_token_field == ""
    then config
    else if token == ""
    then config
    else set_default config m.api_token_field (Json.str token)

-- `_child_env`, over the environment of the server.
unfoldable pub child_env :
    (Json → String) → Env → EnvManifest → Option String → Option String → Dict String Json → Env
unfolding config_to_env
child_env dumps environ m server_url api_token config =
    update environ
      (config_to_env dumps m (with_api_token m api_token (with_server_url m server_url config)))

-- `node[part]`
abbrev pub member : Fields → Text → Option Json
member end part = none
member (field key value fields) part =
    if text_eq (codes key) part then some value else member fields part

abbrev pub child : Json → Text → Option Json
child (Json.obj fields) part = member fields part
child _ part = none

-- `for part in rest.split(".")`
unfoldable pub walks : Json → List Text → Bool
walks node [] = true
walks node (part ∷ parts) = elim (child node part) [ none ↦ false | some next ↦ walks next parts ]

abbrev pub dot : ℕ
dot = 46

-- What `_env_provides` says of a variable that is set, for what stands behind the pointer's dot.
unfoldable pub provided : (String → Option Json) → String → Text → Bool
unfolding walks split
provided loads raw rest =
    if is_empty rest
    then true
    else elim (loads raw) [ none ↦ true | some node ↦ walks node (split dot rest) ]

-- `_env_provides`
unfoldable pub env_provides : (String → Option Json) → Env → String → String → Bool
unfolding provided partition
env_provides loads environ prefix pointer =
    if prefix == ""
    then false
    else if pointer == ""
    then false
    else (let (name, rest) = partition dot (codes pointer) in
        elim (get environ (env_name prefix name)) [
          | none ↦ false
          | some raw ↦ provided loads raw rest
        ])

-- A setup step, as the probe reports it.
pub record SetupGap : Type 0 where
  pub description : String
  pub config_pointer : String

unfoldable pub unmet : (String → Option Json) → Env → String → List SetupGap → List String
unfolding env_provides
unmet loads environ prefix [] = []
unmet loads environ prefix (gap ∷ gaps) =
    let rest = unmet loads environ prefix gaps in
    if env_provides loads environ prefix gap.config_pointer then rest else gap.description ∷ rest

-- `unmet_setup`, with what the probe returns or raises.
unfoldable pub unmet_setup :
    (String → Option Json) → Env → String → Result (List SetupGap) → List String
unfolding unmet
unmet_setup loads environ prefix (raise e) = []
unmet_setup loads environ prefix (ok gaps) = unmet loads environ prefix gaps
