-- ===== src/Apps/Environment/Saved.antt =====
-- What is saved reaches the child, and is found again: src/prodeo/apps.
use command_center.Base.{
  String, Option, some, List, [], ◌∷◌, false, ◌||◌, ◌==◌, string_Eq, Eq, All, In, ◌≡◌, sym, ap, ◌∙◌,
  subst, some_inj, Bool-cases, inl, inr,
}
use command_center.Base.Dict.{
  Dict, IsDict, IsAbsent, get, put, update, get-put_self, get-update, get-update_absent,
}
use command_center.Base.Entries.{put-IsDict}
use command_center.Base.Json.{Json, Fields}
use command_center.Base.Text.{Text, codes, is_empty, split, partition}
use command_center.Base.Names.{text_Eq}
use command_center.Apps.Environment.{
  EnvManifest, Env, env_name, rendered, items, config_to_env, with_server_url, with_api_token,
  child_env, walks, dot, provided, env_provides,
}

module _ {K V : Type 0} ⦃e : Eq K⦄ where
  update-IsDict : (d other : Dict K V) → IsDict d → IsDict (update d other)
  unfolding update
  update-IsDict d [] u = u
  update-IsDict d ((k, v) ∷ other) u = update-IsDict (put d k v) other (put-IsDict d k v u)

  -- What the other dict has is there after an update with it.
  get-update_known :
      (d other : Dict K V) (k : K) (v : V)
      → IsDict other
      → get other k ≡ some v
      → get (update d other) k ≡ some v
  unfolding update get
  get-update_known d [] k v u found = absurd (cc found)
  get-update_known d ((j, w) ∷ other) k v u found = elim (Bool-cases (j == k)) [
    | inl same ↦
        let here : w ≡ v = some_inj (sym (rw same) ∙ found) in
        let at_k : j ≡ k = (e.equal_iff j k).0 same in
        get-update_absent (put d j w) other k (subst (λ x. IsAbsent x other) at_k u.0)
        ∙ get-put_self d j k w at_k
        ∙ ap some here
    | inr apart ↦ get-update_known (put d j w) other k v u.1 (sym (rw apart) ∙ found)
  ]

one_of : {A : Type 0} (P : A → Type 0) (xs : List A) (x : A) → All P xs → In x xs → P x
one_of P [] x all_ none_ = absurd none_
one_of P (y ∷ xs) x (p, ps) (inl same) = subst P (sym same) p
one_of P (y ∷ xs) x (p, ps) (inr later) = one_of P xs x ps later

module _ (dumps : Json → String) where
  items_of :
      (prefix : String) (config : Dict String Json) (key : String) (v : Json)
      → get config key ≡ some v
      → In (env_name prefix (codes key), rendered dumps v) (items dumps prefix config)
  unfolding get
  items_of prefix [] key v found = absurd (cc found)
  items_of prefix ((j, w) ∷ config) key v found = elim (Bool-cases (j == key)) [
    | inl same ↦
        let here : w ≡ v = some_inj (sym (rw same) ∙ found) in
        let at_k : j ≡ key = (string_Eq.equal_iff j key).0 same in
        inl (
          ap (λ x. (env_name prefix (codes x), rendered dumps v)) (sym at_k)
          ∙ ap (λ x. (env_name prefix (codes j), rendered dumps x)) (sym here))
    | inr apart ↦ inr (items_of prefix config key v (sym (rw apart) ∙ found))
  ]

  -- The configuration that is rendered.
  abbrev pub completed :
      EnvManifest → Option String → Option String → Dict String Json → Dict String Json
  completed m server_url api_token config =
      with_api_token m api_token (with_server_url m server_url config)

  -- The child sees each field of its configuration, rendered, under the prefix and the field's name,
  -- whatever the server's environment has there, if no two fields have the same name in upper case.
  pub child_sees :
      (environ : Env) (m : EnvManifest) (server_url api_token : Option String)
      (config : Dict String Json) (key : String) (v : Json)
      → (m.env_prefix == "") ≡ false
      → IsDict (items dumps m.env_prefix (completed m server_url api_token config))
      → get (completed m server_url api_token config) key ≡ some v
      → get
          (child_env dumps environ m server_url api_token config)
          (env_name m.env_prefix (codes key))
        ≡ some (rendered dumps v)
  unfolding child_env config_to_env
  child_sees environ m server_url api_token config key v named u found =
      let saved = items dumps m.env_prefix (completed m server_url api_token config) in
      rw named (
        get-update_known environ (update [] saved) (env_name m.env_prefix (codes key))
          (rendered dumps v) (update-IsDict [] saved tt)
          (one_of (λ p. get (update [] saved) p.0 ≡ some p.1) saved
            (env_name m.env_prefix (codes key), rendered dumps v) (get-update [] saved u)
            (items_of m.env_prefix (completed m server_url api_token config) key v found)))

module _ (dumps : Json → String) (loads : String → Option Json) where
  provided_reads :
      (raw : String) (node : Json) (rest : Text)
      → loads raw ≡ some node
      → provided loads raw rest ≡ (is_empty rest || walks node (split dot rest))
  unfolding provided
  provided_reads raw node rest reads = elim (Bool-cases (is_empty rest)) [
    | inl whole ↦ rw (provided, whole)
    | inr part ↦ rw (provided, part, reads)
  ]

  -- The setup probe reads the rendering back: in the environment of the child, a pointer to a saved
  -- object is provided exactly when it ends there or leads through the object's fields, if json reads
  -- back what it wrote and no two fields have the same name in upper case.
  pub saved_provided :
      (environ : Env) (m : EnvManifest) (server_url api_token : Option String)
      (config : Dict String Json) (pointer key : String) (rest : Text) (fields : Fields)
      → (m.env_prefix == "") ≡ false
      → (pointer == "") ≡ false
      → partition dot (codes pointer) ≡ (codes key, rest)
      → IsDict (items dumps m.env_prefix (completed dumps m server_url api_token config))
      → get (completed dumps m server_url api_token config) key ≡ some (Json.obj fields)
      → loads (dumps (Json.obj fields)) ≡ some (Json.obj fields)
      → env_provides loads
          (child_env dumps environ m server_url api_token config)
          m.env_prefix
          pointer
        ≡ (is_empty rest || walks (Json.obj fields) (split dot rest))
  unfolding env_provides
  saved_provided environ m server_url api_token config pointer key rest fields named pointed parted
        u found reads =
      let sees =
        child_sees dumps environ m server_url api_token config key (Json.obj fields) named u
          found in
      rw (env_provides, named, pointed, parted, sees)
        (ap (λ (p : Text × Text). provided loads (dumps (Json.obj fields)) p.1) parted
          ∙ provided_reads (dumps (Json.obj fields)) (Json.obj fields) rest reads)
