-- ===== src/Mediation/Service/Calls.antt =====
-- The calls that reach the Mediation Service, as data, and sequences of them
-- (src/prodeo/mediation/service.py). A timer may end at any moment, as its own call.
use mathlib.Core.List.{append-nil}
use command_center.Base.{
  ℕ, ◌≤◌, String, Option, none, some, List, [], ◌∷◌, true, if◌then◌else◌, string_Eq, pair_Eq,
  nat_Eq, nat_eq, ◌≡◌, refl, ap, sym, ◌∙◌, arith, Bool-cases, Option-cases, inl, inr, subst,
}
use command_center.Base.Dict.{get, get-put, get-put-some, get-put_self, get-put_ne, keys_apart}
use command_center.Events.Host.{Host, now}
use command_center.Mediation.Model.{
  Interaction, InteractionRequest, Answer, is_pending, is_permission,
}
use command_center.Mediation.Service.{
  Mediation, Delivery, Outcome, native_key, register, open_interaction, resolve, deliver_to,
  answered_with, accept, answer_interaction, cancelled_i, cancel, cancel_native, timed_out_i,
  expire, timeout, close,
}
use command_center.Mediation.Service.Sound.{IsSound, times, resolve-IsSound}

pub data Call : Type 0 where
  opens : InteractionRequest → ℕ → Call
  answers : ℕ → Answer → String → Call
  withdraws : String → String → String → Call
  times_out : ℕ → Call
  closes : Call

abbrev left : {A : Type 0} → Outcome A → Host × Mediation
left o = (o.host, o.mediation)

unfoldable pub call : Host → Mediation → Call → Host × Mediation
call h m (opens request deliver) = left (open_interaction h m request deliver)
call h m (answers id a answered_by) = left (answer_interaction h m id a answered_by)
call h m (withdraws adapter native_id reason) = left (cancel_native h m adapter native_id reason)
call h m (times_out id) = timeout h m id
call h m closes = (h, close m)

unfoldable pub run : Host → Mediation → List Call → Host × Mediation
unfolding call
run h m [] = (h, m)
run h m (c ∷ cs) = let (h', m') = call h m c in run h' m' cs

pub few_none : (id j : ℕ) → times j [] ≤ (if nat_eq id j then 1 else 0)
few_none id j = omega arith

pub few_one :
    (o : Option ℕ) (id : ℕ) (i : Interaction) (a : Answer)
    → i.id ≡ id
    → (j : ℕ) → times j (deliver_to o i a) ≤ (if nat_eq id j then 1 else 0)
few_one none id i a e j = omega arith
few_one (some d) id i a e j = ground arith

module _ (h : Host) (m : Mediation) (v : IsSound m) where
  pub accept-IsSound :
      (id : ℕ) (i : Interaction) (a : Answer) (answered_by : String)
      → get m.by_id id ≡ some i
      → is_pending i.status ≡ true
      → IsSound (accept h m id i a answered_by).mediation
  unfolding accept
  accept-IsSound id i a answered_by found waits =
      resolve-IsSound m v id i (answered_with i a answered_by (now h)) _ found waits refl refl refl
        (few_one _ id (answered_with i a answered_by (now h)) a (v.keyed id i found))

  pub answer_interaction-IsSound :
      (id : ℕ) (a : Answer) (answered_by : String)
      → IsSound (answer_interaction h m id a answered_by).mediation
  unfolding answer_interaction
  answer_interaction-IsSound id a answered_by = elim (Option-cases (get m.by_id id)) [
    | inl absent ↦ rw (absent, answer_interaction) v
    | inr (i, found) ↦ elim (Bool-cases (is_pending i.status)) [
      | inl waits ↦
          rw (found, answer_interaction, waits) (accept-IsSound id i a answered_by found waits)
      | inr done ↦ rw (found, answer_interaction, done) v
    ]
  ]

  pub cancel-IsSound :
      (id : ℕ) (i : Interaction) (reason : String)
      → get m.by_id id ≡ some i
      → is_pending i.status ≡ true
      → IsSound (cancel h m id i reason).1
  unfolding cancel resolve
  cancel-IsSound id i reason found waits =
      subst
        (λ (ds : List Delivery). IsSound (record (resolve m id (cancelled_i i)) { delivered = ds }))
        (append-nil m.delivered)
        (resolve-IsSound m v id i (cancelled_i i) [] found waits refl refl refl (few_none id))

  pub expire-IsSound :
      (id : ℕ) (i : Interaction)
      → get m.by_id id ≡ some i
      → is_pending i.status ≡ true
      → IsSound (expire h m id i).1
  unfolding expire
  expire-IsSound id i found waits = elim (Bool-cases (is_permission i.kind)) [
    | inl permission ↦ rw permission (
        resolve-IsSound m v id i (timed_out_i i) _ found waits refl refl refl
          (few_one _ id (timed_out_i i) _ (v.keyed id i found)))
    | inr question ↦
        rw question
          (resolve-IsSound m v id i (timed_out_i i) [] found waits refl refl refl (few_none id))
  ]

  pub timeout-IsSound : (id : ℕ) → IsSound (timeout h m id).1
  unfolding timeout
  timeout-IsSound id = elim (Option-cases (get m.by_id id)) [
    | inl absent ↦ rw (absent, timeout) v
    | inr (i, found) ↦ elim (Bool-cases (is_pending i.status)) [
      | inl waits ↦ rw (found, timeout, waits) (expire-IsSound id i found waits)
      | inr done ↦ rw (found, timeout, done) v
    ]
  ]

  pub cancel_native-IsSound :
      (adapter native_id reason : String)
      → IsSound (cancel_native h m adapter native_id reason).mediation
  unfolding cancel_native
  cancel_native-IsSound adapter native_id reason =
      elim (Option-cases (get m.pending_by_native (adapter, native_id))) [
        | inl absent ↦ rw (absent, cancel_native) v
        | inr (id, listed) ↦
            let p = v.indexed (adapter, native_id) id listed in
            rw (listed, cancel_native, p.found) (cancel-IsSound id p.held reason p.found p.waits)
      ]

pub close-IsSound : (m : Mediation) → IsSound m → IsSound (close m)
unfolding close
close-IsSound m v = record {
  keyed = v.keyed;
  indexed = λ k id h.
      let p = v.indexed k id h in
      record { held = p.held; found = p.found; waits = p.waits; key = p.key };
  complete = v.complete;
  unsent = v.unsent;
  unknown = v.unknown;
  once = v.once;
}

-- Registering a new pending interaction under a free id and a free native key.
pub register-IsSound :
    (m : Mediation) (i : Interaction) (deliver : ℕ) (timeout_s : Option ℕ)
    → IsSound m
    → get m.by_id i.id ≡ none
    → get m.pending_by_native (native_key i) ≡ none
    → is_pending i.status ≡ true
    → IsSound (register m i deliver timeout_s)
unfolding register
register-IsSound m i deliver timeout_s v free unlisted waits = record {
  keyed = λ j x h. elim (get-put-some m.by_id i.id j i h) [
    | inl (e, f) ↦ ap (λ (y : Interaction). y.id) f ∙ e
    | inr (e, before) ↦ v.keyed j x before
  ];
  indexed = λ k j h. elim (get-put-some m.pending_by_native (native_key i) k i.id h) [
    | inl (e, f) ↦ record {
      held = i;
      found = get-put_self m.by_id i.id j i (sym f);
      waits = waits;
      key = e;
    }
    | inr (e, before) ↦
        let p = v.indexed k j before in
        record {
          held = p.held;
          found = get-put_ne m.by_id i.id j i (keys_apart m.by_id i.id j free p.found) ∙ p.found;
          waits = p.waits;
          key = p.key;
        }
  ];
  complete = λ j x h px. elim (get-put-some m.by_id i.id j i h) [
    | inl (e, f) ↦
        get-put_self m.pending_by_native (native_key i) (native_key x) i.id (ap native_key (sym f))
        ∙ ap some e
    | inr (e, before) ↦
        get-put_ne m.pending_by_native (native_key i) (native_key x) i.id (
          keys_apart m.pending_by_native (native_key i) (native_key x) unlisted
            (v.complete j x before px))
        ∙ v.complete j x before px
  ];
  unsent = λ j x h px. elim (get-put-some m.by_id i.id j i h) [
    | inl (e, f) ↦ v.unknown j (ap (get m.by_id) (sym e) ∙ free)
    | inr (e, before) ↦ v.unsent j x before px
  ];
  unknown = λ j h. v.unknown j (ground (arith, get-put m.by_id i.id j i));
  once = v.once;
}
