-- ===== src/Apps/Supervisor/Stopped.antt =====
-- `stop_app` and `restart_app` of src/prodeo/apps/supervisor.py, under the invariant of the
-- supervisor.
use command_center.Base.{
  String, none, some, List, Bool, false, string_Eq, ◌==◌, Result-cases, ◌≡◌, refl, sym, ap, ◌∙◌,
  Bool-cases, Option-cases, inl, inr, some_inj, subst,
}
use command_center.Base.Dict.{Dict, get, put, get-put, get-put_self, get-put_ne}
use command_center.Events.Host.{Host}
use command_center.Apps.Supervisor.{
  stopped, Running, Supervisor, running_of, store, stop_app, restart_app, terminated, terminate,
  forget_client, cancelled, mark_stopped,
}
use command_center.Apps.Supervisor.Fit.{Fits, IsFit, running_of-Fits, status_of-IsFit}
use command_center.Apps.Supervisor.Steps.{start_app-IsFit}
use command_center.Apps.Supervisor.Shutdown.{IsHalted, cancelled_from, forget_client_states}

-- The states of the other apps fit.
abbrev OthersFit : String → Bool → Dict String Running → Type 0
OthersFit name stopping states =
    (other : String) (x : Running)
    → (name == other) ≡ false
    → get states other ≡ some x
    → Fits stopping x

running_of_written :
    (s : Supervisor) (name : String) (states : Dict String Running) (r : Running)
    → s.states ≡ put states name r
    → running_of s name ≡ r
unfolding running_of
running_of_written s name states r written =
    rw (running_of, written, get-put_self states name name r refl)

marks :
    (s : Supervisor) (name : String) (states : Dict String Running) (r : Running)
    → s.states ≡ put states name r
    → OthersFit name s.stopping states
    → IsHalted r
    → r.process ≡ none
    → IsFit (mark_stopped s name)
marks s name states r written v (unwanted, gone, same_pid, more) idle other x found =
    let r' = record (running_of s name) { state = stopped } in
    elim (Bool-cases (name == other)) [
      | inl same ↦
          let fit : Fits s.stopping (record r { state = stopped }) =
            rw gone ((idle, same_pid ∙ idle, refl), rw unwanted refl) in
          let known = running_of_written s name states r written in
          let e : r' ≡ x = some_inj (sym (get-put s.states name other r' ∙ rw same) ∙ found) in
          subst (Fits s.stopping) e
            (subst (λ y. Fits s.stopping (record y { state = stopped })) (sym known) fit)
      | inr apart ↦ v other x apart (
          sym (get-put_ne states name other r apart)
          ∙ sym (ap (λ d. get d other) written)
          ∙ sym (get-put_ne s.states name other r' apart)
          ∙ found)
    ]

module _ (h : Host) (s : Supervisor) (name : String) (v : IsFit s) where
  stops : (r : Running) → IsHalted r → IsFit (mark_stopped (terminate (store s name r) name) name)
  unfolding terminate
  stops r halted =
      let there = get-put_self s.states name name r refl in
      elim (Option-cases r.process) [
        | inl idle ↦
            rw (terminate, there, idle)
              (marks (store s name r) name s.states r refl (λ other x apart found. v other x found)
                halted idle)
        | inr (p, child) ↦
            let s' = store (store s name r) name (terminated r) in
            let (same, still) = forget_client_states s' name in
            rw (terminate, there, child)
              (marks (forget_client s' name) name (put s.states name r) (terminated r) same
                (λ other x apart found.
                  subst (λ b. Fits b x) (sym still)
                    (v other x (sym (get-put_ne s.states name other r apart) ∙ found)))
                (rw child (halted.0, halted.1, refl, inl (refl, refl))) (rw child refl))
      ]

  pub stop_app-IsFit : IsFit (stop_app h s name).supervisor
  unfolding stop_app
  stop_app-IsFit = elim (Option-cases (get s.apps name)) [
    | inl unknown ↦ rw (stop_app, unknown) v
    | inr (m, installed) ↦
        let r = cancelled (running_of s name) in
        let s' = terminate (store s name r) name in
        rw (stop_app, installed)
          (status_of-IsFit h (mark_stopped s' name) name (
            stops r (
              cancelled_from s.stopping (running_of s name) (running_of s name).task
                (running_of-Fits s name v))))
  ]

  pub restart_app-IsFit : (gaps : List String) → IsFit (restart_app h s name gaps).supervisor
  unfolding restart_app
  restart_app-IsFit gaps =
      let o = stop_app h s name in
      elim (Result-cases o.result) [
        | inl (status, returned) ↦
            rw (restart_app, returned)
              (start_app-IsFit o.host o.supervisor name stop_app-IsFit gaps)
        | inr (e, raised) ↦ rw (restart_app, raised) stop_app-IsFit
      ]
