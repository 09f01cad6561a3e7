-- ===== src/Mediation/Service/Final.antt =====
-- Resolution is final in src/prodeo/mediation/service.py: the first answer wins.
use command_center.Base.{
  ℕ, String, some, List, [], ◌∷◌, ◌++◌, true, false, string_Eq, pair_Eq, nat_Eq, nat_eq, nat_eq_iff,
  ok, raise, ◌≡◌, refl, ap, sym, ◌∙◌, arith, Bool-cases, Option-cases, inl, inr,
}
use command_center.Base.Dict.{get, put, get-put_self, get-put_ne, keys_apart}
use command_center.Events.Host.{Host, now, fresh}
use command_center.Mediation.Model.{Interaction, InteractionRequest, Answer, is_pending}
use command_center.Mediation.Service.{
  Mediation, open_interaction, deliver_to, answered_with, answer_interaction, cancel_native,
  timeout, close,
}
use command_center.Mediation.Service.Sound.{IsSound, same_some}
use command_center.Mediation.Service.Calls.{
  Call, opens, answers, withdraws, times_out, closes, call, run,
}
use command_center.Mediation.Service.Run.{IsAlive, call-IsAlive}
use command_center.Base.{interaction_already_resolved}
use command_center.Mediation.Model.{status_value}

-- What is resolved stays exactly as it is, whatever is called.
module _ (h : Host) (m : Mediation) (v : IsAlive h m) (id : ℕ) (i : Interaction)
    (found : get m.by_id id ≡ some i) (done : is_pending i.status ≡ false) where
  -- A pending interaction is another one.
  other_put :
      (j : ℕ) (x y : Interaction)
      → get m.by_id j ≡ some x
      → is_pending x.status ≡ true
      → get (put m.by_id j y) id ≡ some i
  other_put j x y there waits =
      get-put_ne m.by_id j id y (elim (Bool-cases (nat_eq j id)) [
        | inl e ↦ absurd (
            cc (
              ap (λ (z : Interaction). is_pending z.status)
                  (same_some (ap (get m.by_id) (sym ((nat_eq_iff j id).0 e)) ∙ there) found),
              waits,
              done,
            ))
        | inr e ↦ e
      ])
      ∙ found

  answer_keeps :
      (j : ℕ) (a : Answer) (answered_by : String)
      → get (answer_interaction h m j a answered_by).mediation.by_id id ≡ some i
  unfolding answer_interaction
  answer_keeps j a answered_by = elim (Option-cases (get m.by_id j)) [
    | inl absent ↦ rw (absent, answer_interaction) found
    | inr (x, there) ↦ elim (Bool-cases (is_pending x.status)) [
      | inl waits ↦ rw (there, answer_interaction, waits) (other_put j x _ there waits)
      | inr over ↦ rw (there, answer_interaction, over) found
    ]
  ]

  timeout_keeps : (j : ℕ) → get (timeout h m j).1.by_id id ≡ some i
  unfolding timeout
  timeout_keeps j = elim (Option-cases (get m.by_id j)) [
    | inl absent ↦ rw (absent, timeout) found
    | inr (x, there) ↦ elim (Bool-cases (is_pending x.status)) [
      | inl waits ↦ rw (there, timeout, waits) (other_put j x _ there waits)
      | inr over ↦ rw (there, timeout, over) found
    ]
  ]

  cancel_native_keeps :
      (adapter native_id reason : String)
      → get (cancel_native h m adapter native_id reason).mediation.by_id id ≡ some i
  unfolding cancel_native
  cancel_native_keeps adapter native_id reason =
      elim (Option-cases (get m.pending_by_native (adapter, native_id))) [
        | inl absent ↦ rw (absent, cancel_native) found
        | inr (j, listed) ↦
            let p = v.sound.indexed (adapter, native_id) j listed in
            rw (listed, cancel_native, p.found) (other_put j p.held _ p.found p.waits)
      ]

  open_keeps :
      (request : InteractionRequest) (deliver : ℕ)
      → get (open_interaction h m request deliver).mediation.by_id id ≡ some i
  unfolding open_interaction
  open_keeps request deliver =
      elim (Option-cases (get m.pending_by_native (request.adapter, request.native_id))) [
        | inl unlisted ↦
            rw (unlisted, open_interaction)
              (get-put_ne m.by_id (fresh h) id _
                  (keys_apart m.by_id (fresh h) id (v.fresh.later h.draws (omega arith)) found)
                ∙ found)
        | inr (j, listed) ↦ rw (listed, open_interaction) found
      ]

  call_keeps : (c : Call) → get (call h m c).1.by_id id ≡ some i
  unfolding call close
  call_keeps (opens request deliver) = open_keeps request deliver
  call_keeps (answers j a answered_by) = answer_keeps j a answered_by
  call_keeps (withdraws adapter native_id reason) = cancel_native_keeps adapter native_id reason
  call_keeps (times_out j) = timeout_keeps j
  call_keeps closes = found

-- Once resolved, an interaction keeps its status, answer and every other field through any calls.
pub run_keeps_resolved :
    (h : Host) (m : Mediation) (cs : List Call) (id : ℕ) (i : Interaction)
    → IsAlive h m
    → get m.by_id id ≡ some i
    → is_pending i.status ≡ false
    → get (run h m cs).1.by_id id ≡ some i
unfolding run
run_keeps_resolved h m [] id i v found done = found
run_keeps_resolved h m (c ∷ cs) id i v found done =
    run_keeps_resolved (call h m c).0 (call h m c).1 cs id i (call-IsAlive h m c v)
      (call_keeps h m v id i found done c) done

status_done :
    (i : Interaction) (a : Answer) (answered_by : String) (at : ℕ)
    → is_pending (answered_with i a answered_by at).status ≡ false
unfolding answered_with
status_done i a answered_by at = refl

-- A later answer is refused and changes nothing.
answer_refused :
    (h : Host) (m : Mediation) (id : ℕ) (i : Interaction) (a : Answer) (answered_by : String)
    → get m.by_id id ≡ some i
    → is_pending i.status ≡ false
    → answer_interaction h m id a answered_by ≡ record {
      result = raise (interaction_already_resolved id (status_value i.status));
      host = h;
      mediation = m;
    }
unfolding answer_interaction
answer_refused h m id i a answered_by found done = rw (found, answer_interaction, done)

-- The first answer to a pending interaction is accepted: it is returned and recorded with its sender,
-- and the registered callback, if any, is awaited once, with this answer.
pub record Accepted (h : Host) (m : Mediation) (id : ℕ) (i : Interaction) (a : Answer)
    (answered_by : String) : Type 0 where
  pub returned :
      (answer_interaction h m id a answered_by).result ≡ ok (answered_with i a answered_by (now h))
  pub recorded :
      get (answer_interaction h m id a answered_by).mediation.by_id id
      ≡ some (answered_with i a answered_by (now h))
  pub delivered :
      (answer_interaction h m id a answered_by).mediation.delivered
      ≡ m.delivered ++ deliver_to (get m.deliver id) (answered_with i a answered_by (now h)) a

accepted :
    (h : Host) (m : Mediation) (id : ℕ) (i : Interaction) (a : Answer) (answered_by : String)
    → IsSound m
    → get m.by_id id ≡ some i
    → is_pending i.status ≡ true
    → Accepted h m id i a answered_by
unfolding answer_interaction
accepted h m id i a answered_by v found waits = record {
  returned = rw (found, answer_interaction, waits);
  recorded = rw (found, answer_interaction, waits) (get-put_self m.by_id id id _ refl);
  delivered =
      rw (found, answer_interaction, waits)
        (ap
          (λ k.
            m.delivered ++ deliver_to (get m.deliver k) (answered_with i a answered_by (now h)) a)
          (v.keyed id i found));
}

-- The first answer wins: it is accepted, and after any further calls and timers a second answer is
-- refused as already answered, changes nothing, and the interaction still holds the first answer.
pub first_answer_wins :
    (h : Host) (m : Mediation) (id : ℕ) (i : Interaction) (a b : Answer) (by_a by_b : String)
    (cs : List Call)
    → IsAlive h m
    → get m.by_id id ≡ some i
    → is_pending i.status ≡ true
    → let first = answer_interaction h m id a by_a in
      let (h', m') = run first.host first.mediation cs in
      Accepted h m id i a by_a
      × (get m'.by_id id ≡ some (answered_with i a by_a (now h)))
      × (answer_interaction h' m' id b by_b ≡ record {
        result = raise (interaction_already_resolved id "answered");
        host = h';
        mediation = m';
      })
unfolding call answered_with
first_answer_wins h m id i a b by_a by_b cs v found waits =
    let first = answer_interaction h m id a by_a in
    let after = run first.host first.mediation cs in
    let taken = accepted h m id i a by_a v.sound found waits in
    let held =
      run_keeps_resolved first.host first.mediation cs id (answered_with i a by_a (now h))
        (call-IsAlive h m (answers id a by_a) v) taken.recorded (status_done i a by_a (now h)) in
    (taken, held, answer_refused after.0 after.1 id _ b by_b held (status_done i a by_a (now h)))
