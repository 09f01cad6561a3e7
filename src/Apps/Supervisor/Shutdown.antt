-- ===== src/Apps/Supervisor/Shutdown.antt =====
-- `stop` of src/prodeo/apps/supervisor.py, under the invariant of the supervisor.
use command_center.Base.{
  ℕ, String, Option, none, some, List, [], ◌∷◌, Bool, true, false, string_Eq, ◌==◌, ◌≡◌, refl, sym,
  ap, ◌∙◌, arith, Bool-cases, Option-cases, inl, inr, ◌⊎◌, In, some_inj, subst,
}
use command_center.Base.Dict.{Dict, get, put, get-put, get-put_self}
use command_center.Apps.Supervisor.{
  Task, looping, waiting, sleeping, done, Running, Supervisor, store, terminated, terminate,
  terminate_all, forget_client, cancelled, cancel_all, names_of, stop,
}
use command_center.Apps.Supervisor.Fit.{is_running, FitsTask, Fits, IsFit}

-- A task that was cancelled: what is left of it is the child, if there is one.
abbrev pub IsHalted : Running → Type 0
IsHalted r =
    (r.wanted ≡ false)
    × (r.task ≡ none)
    × (r.pid ≡ r.process)
    × ((r.process ≡ none) × (is_running r.state ≡ false) ⊎ (p : ℕ) × (r.process ≡ some p))

pub cancelled_from :
    (stopping : Bool) (r : Running) (t : Option Task)
    → FitsTask stopping r t
    → IsHalted (cancelled r)
cancelled_from stopping r none (i, w) = (refl, refl, i.1 ∙ sym i.0, inl (i.0, i.2))
cancelled_from stopping r (some done) (i, w) = (refl, refl, i.1 ∙ sym i.0, inl (i.0, i.2))
cancelled_from stopping r (some (looping backoff crash_loop)) (i, w, b) =
    (refl, refl, i.1 ∙ sym i.0, inl (i.0, i.2))
cancelled_from stopping r (some (sleeping backoff crash_loop)) (i, w, b) =
    (refl, refl, i.1 ∙ sym i.0, inl (i.0, i.2))
cancelled_from stopping r (some (waiting backoff crash_loop)) (p, there, shown, state_, wanted, b) =
    (refl, refl, shown ∙ sym there, inr (p, there))

-- Once its child is gone, a cancelled task leaves an app that fits.
halted_idle : (stopping : Bool) (r : Running) → IsHalted r → r.process ≡ none → Fits stopping r
halted_idle stopping r (unwanted, gone, same, rest) none_left =
    let still : is_running r.state ≡ false = elim rest [
      | inl (none_, still) ↦ still
      | inr (p, there) ↦ absurd (cc (there, none_left))
    ] in
    rw gone ((none_left, same ∙ none_left, still), rw unwanted refl)

-- Which children are left to terminate: those of the names that are still to come.
abbrev IsLeft : Dict String Running → List String → Type 0
IsLeft states names =
    (name : String) (r : Running)
    → get states name ≡ some r
    → IsHalted r × ((r.process ≡ none) ⊎ In name names)

pub forget_client_states :
    (s : Supervisor) (name : String)
    → ((forget_client s name).states ≡ s.states) × ((forget_client s name).stopping ≡ s.stopping)
unfolding forget_client
forget_client_states s name = elim (Option-cases (get s.apps name)) [
  | inl absent ↦ rw (forget_client, absent) (refl, refl)
  | inr (m, installed) ↦ elim (Option-cases s.presence) [
    | inl off ↦ rw (forget_client, installed, off) (refl, refl)
    | inr (clients, on) ↦ elim (Bool-cases (m.presence_client_id == "")) [
      | inl anonymous ↦ rw (forget_client, installed, on, anonymous) (refl, refl)
      | inr named ↦ rw (forget_client, installed, on, named) (refl, refl)
    ]
  ]
]

-- The name whose child is gone need not come again.
past :
    (states : Dict String Running) (name : String) (names : List String)
    → IsLeft states (name ∷ names)
    → ((r : Running) → get states name ≡ some r → r.process ≡ none)
    → IsLeft states names
past states name names v gone other r found =
    let (halted, where_) = v other r found in
    (
      halted,
      elim where_ [
        | inl none_ ↦ inl none_
        | inr (inl same) ↦ inl (gone r (ap (get states) (sym same) ∙ found))
        | inr (inr later) ↦ inr later
      ],
    )

store-IsLeft :
    (states : Dict String Running) (name : String) (names : List String) (r : Running) (p : ℕ)
    → IsLeft states (name ∷ names)
    → get states name ≡ some r
    → r.process ≡ some p
    → IsLeft (put states name (terminated r)) (name ∷ names)
store-IsLeft states name names r p v there child other x found = elim (Bool-cases (name == other)) [
  | inl same ↦
      let e : terminated r ≡ x =
        some_inj (sym (get-put states name other (terminated r) ∙ rw same) ∙ found) in
      subst (λ y. IsHalted y × ((y.process ≡ none) ⊎ In other (name ∷ names))) e
        (rw child (((v name r there).0.0, (v name r there).0.1, refl, inl (refl, refl)), inl refl))
  | inr apart ↦ v other x (sym (get-put states name other (terminated r) ∙ rw apart) ∙ found)
]

terminate-IsLeft :
    (s : Supervisor) (name : String) (names : List String)
    → IsLeft s.states (name ∷ names)
    → IsLeft (terminate s name).states names
unfolding terminate
terminate-IsLeft s name names v = elim (Option-cases (get s.states name)) [
  | inl unknown ↦
      rw (terminate, unknown) (past s.states name names v (λ r found. absurd (cc (unknown, found))))
  | inr (r, there) ↦ elim (Option-cases r.process) [
    | inl idle ↦
        rw (terminate, there, idle)
          (past s.states name names v
            (λ x found. ap (λ (y : Running). y.process) (some_inj (sym found ∙ there)) ∙ idle))
    | inr (p, child) ↦
        let gone = put s.states name (terminated r) in
        rw (terminate, there, child, (forget_client_states (store s name (terminated r)) name).0)
          (past gone name names (store-IsLeft s.states name names r p v there child) (λ x found.
            subst (λ (y : Running). y.process ≡ none)
              (some_inj (sym (get-put_self s.states name name (terminated r) refl) ∙ found))
              (rw child refl)))
  ]
]

terminate_stopping : (s : Supervisor) (name : String) → (terminate s name).stopping ≡ s.stopping
unfolding terminate
terminate_stopping s name = elim (Option-cases (get s.states name)) [
  | inl unknown ↦ rw (terminate, unknown) refl
  | inr (r, there) ↦ elim (Option-cases r.process) [
    | inl idle ↦ rw (terminate, there, idle) refl
    | inr (p, child) ↦
        rw (terminate, there, child) (forget_client_states (store s name (terminated r)) name).1
  ]
]

terminate_all-IsFit :
    (s : Supervisor) (names : List String) → IsLeft s.states names → IsFit (terminate_all s names)
unfolding terminate_all
terminate_all-IsFit s [] v = λ name r found.
    let (halted, where_) = v name r found in
    elim where_ [ inl idle ↦ halted_idle s.stopping r halted idle | inr none_ ↦ absurd none_ ]
terminate_all-IsFit s (name ∷ names) v =
    terminate_all-IsFit (terminate s name) names (terminate-IsLeft s name names v)

cancelled_at :
    (states : Dict String Running) (name : String) (x : Running)
    → get (cancel_all states) name ≡ some x
    → (r : Running) × (get states name ≡ some r) × (cancelled r ≡ x)
unfolding get
cancelled_at [] name x found = absurd (cc found)
cancelled_at ((key, r) ∷ states) name x found = elim (Bool-cases (key == name)) [
  | inl same ↦ (r, rw same, some_inj (sym (rw same) ∙ found))
  | inr apart ↦
      let (y, there, e) = cancelled_at states name x (sym (rw apart) ∙ found) in
      (y, rw apart there, e)
]

named :
    (states : Dict String Running) (name : String) (x : Running)
    → get states name ≡ some x
    → In name (names_of states)
unfolding get
named [] name x found = absurd (cc found)
named ((key, r) ∷ states) name x found = elim (Bool-cases (key == name)) [
  | inl same ↦ inl (sym (ground (arith, string_Eq.equal_iff key name)))
  | inr apart ↦ inr (named states name x (sym (rw apart) ∙ found))
]

pub stop-IsFit : (s : Supervisor) → IsFit s → IsFit (stop s)
unfolding stop
stop-IsFit s v =
    let s' = record s { stopping = true; states = cancel_all s.states } in
    terminate_all-IsFit s' (names_of s'.states) (λ name x found.
      let (r, there, e) = cancelled_at s.states name x found in
      (
        subst IsHalted e (cancelled_from s.stopping r r.task (v name r there)),
        inr (named s'.states name x found),
      ))
