-- ===== src/Mediation/Service/Run.antt =====
-- Runs of the Mediation Service keep its invariant (src/prodeo/mediation/service.py).
use command_center.Base.{
  ℕ, ◌≤◌, String, Option, none, some, List, [], ◌∷◌, string_Eq, pair_Eq, nat_Eq, nat_eq_iff, ◌≡◌,
  refl, ap, ◌∙◌, arith, Bool-cases, Option-cases, inl, inr,
}
use command_center.Base.Dict.{Dict, get, put, get-put, get-put_ne}
use command_center.Events.Host.{Host, now, emit}
use command_center.Mediation.Model.{Interaction, InteractionRequest, Answer, is_pending}
use command_center.Mediation.Service.{
  Mediation, init, requested, open_new, open_interaction, answered_with, answer_interaction,
  cancelled_i, cancel_native, timed_out_i, timeout, close,
}
use command_center.Mediation.Service.Sound.{IsSound}
use command_center.Mediation.Service.Calls.{
  Call, opens, answers, withdraws, times_out, closes, call, run, answer_interaction-IsSound,
  timeout-IsSound, cancel_native-IsSound, close-IsSound, register-IsSound,
}

-- `ULID()` does not repeat itself, and no interaction has an id that is still to be drawn.
pub record IsFresh (h : Host) (m : Mediation) : Type 0 where
  pub injective : (a b : ℕ) → h.ulid a ≡ h.ulid b → a ≡ b
  pub later : (n : ℕ) → h.draws ≤ n → get m.by_id (h.ulid n) ≡ none

pub record IsAlive (h : Host) (m : Mediation) : Type 0 where
  pub sound : IsSound m
  pub fresh : IsFresh h m

-- A call that draws no id and adds none keeps the ids to come fresh.
pub IsFresh-same :
    (h h' : Host) (m m' : Mediation)
    → h'.ulid ≡ h.ulid
    → h.draws ≤ h'.draws
    → ((id : ℕ) → get m.by_id id ≡ none → get m'.by_id id ≡ none)
    → IsFresh h m
    → IsFresh h' m'
IsFresh-same h h' m m' same more keep f = record {
  injective = rw same f.injective;
  later = λ n le. rw same (keep (h.ulid n) (f.later n (omega arith)));
}

absent_after :
    (m : Mediation) (id : ℕ) (i x : Interaction) (j : ℕ)
    → get m.by_id id ≡ some x
    → get m.by_id j ≡ none
    → get (put m.by_id id i) j ≡ none
absent_after m id i x j found absent =
    ground (arith, get-put m.by_id id j i, nat_eq_iff id j, ap (get m.by_id), found, absent)

module _ (h : Host) (m : Mediation) (f : IsFresh h m) where
  kept :
      (h' : Host) (m' : Mediation) (id : ℕ) (i x : Interaction)
      → h'.ulid ≡ h.ulid
      → h.draws ≤ h'.draws
      → m'.by_id ≡ put m.by_id id i
      → get m.by_id id ≡ some x
      → IsFresh h' m'
  kept h' m' id i x same more written found =
      IsFresh-same h h' m m' same more
        (λ j absent. ap (λ d. get d j) written ∙ absent_after m id i x j found absent) f

  answer_interaction-IsFresh :
      (id : ℕ) (a : Answer) (answered_by : String)
      → IsFresh
          (answer_interaction h m id a answered_by).host
          (answer_interaction h m id a answered_by).mediation
  unfolding answer_interaction emit
  answer_interaction-IsFresh id a answered_by = elim (Option-cases (get m.by_id id)) [
    | inl absent ↦ rw (absent, answer_interaction) f
    | inr (i, found) ↦ elim (Bool-cases (is_pending i.status)) [
      | inl waits ↦
          rw (found, answer_interaction, waits)
            (kept _ _ id (answered_with i a answered_by (now h)) i refl (omega arith) refl found)
      | inr done ↦ rw (found, answer_interaction, done) f
    ]
  ]

  timeout-IsFresh : (id : ℕ) → IsFresh (timeout h m id).0 (timeout h m id).1
  unfolding timeout emit
  timeout-IsFresh id = elim (Option-cases (get m.by_id id)) [
    | inl absent ↦ rw (absent, timeout) f
    | inr (i, found) ↦ elim (Bool-cases (is_pending i.status)) [
      | inl waits ↦
          rw (found, timeout, waits) (kept _ _ id (timed_out_i i) i refl (omega arith) refl found)
      | inr done ↦ rw (found, timeout, done) f
    ]
  ]

  cancel_native-IsFresh :
      (adapter native_id reason : String)
      → IsFresh
          (cancel_native h m adapter native_id reason).host
          (cancel_native h m adapter native_id reason).mediation
  unfolding cancel_native emit
  cancel_native-IsFresh adapter native_id reason =
      elim (Option-cases (get m.pending_by_native (adapter, native_id))) [
        | inl absent ↦ rw (absent, cancel_native) f
        | inr (id, listed) ↦ elim (Option-cases (get m.by_id id)) [
          | inl lost ↦ rw (listed, cancel_native, lost) f
          | inr (i, found) ↦
              rw (listed, cancel_native, found)
                (kept _ _ id (cancelled_i i) i refl (omega arith) refl found)
        ]
      ]

  open_new-IsFresh :
      (request : InteractionRequest) (deliver : ℕ)
      → IsFresh (open_new h m request deliver).host (open_new h m request deliver).mediation
  unfolding open_new emit
  open_new-IsFresh request deliver = record {
    injective = f.injective;
    later = λ n le.
        get-put_ne m.by_id (h.ulid h.draws) (h.ulid n) _
          (ground (arith, nat_eq_iff (h.ulid h.draws) (h.ulid n), f.injective h.draws n))
        ∙ f.later n (omega arith);
  }

-- Refreshing the callback of a pending interaction.
refresh-IsSound :
    (m : Mediation) (callbacks : Dict ℕ ℕ) → IsSound m → IsSound (record m { deliver = callbacks })
refresh-IsSound m callbacks v = record {
  keyed = v.keyed;
  indexed = λ k id h.
      let p = v.indexed k id h in
      record { held = p.held; found = p.found; waits = p.waits; key = p.key };
  complete = v.complete;
  unsent = v.unsent;
  unknown = v.unknown;
  once = v.once;
}

open_interaction-IsAlive :
    (h : Host) (m : Mediation) (request : InteractionRequest) (deliver : ℕ)
    → IsAlive h m
    → IsAlive
        (open_interaction h m request deliver).host
        (open_interaction h m request deliver).mediation
unfolding open_interaction
open_interaction-IsAlive h m request deliver v =
    elim (Option-cases (get m.pending_by_native (request.adapter, request.native_id))) [
      | inl unlisted ↦
          rw (unlisted, open_interaction)
            (record {
              sound =
                  register-IsSound m (requested h m request _) deliver _ v.sound
                    (v.fresh.later h.draws (omega arith)) unlisted refl;
              fresh = open_new-IsFresh h m v.fresh request deliver;
            })
      | inr (id, listed) ↦
          rw (listed, open_interaction)
            (record {
              sound = refresh-IsSound m _ v.sound;
              fresh = IsFresh-same h h m _ refl (omega arith) (λ j absent. absent) v.fresh;
            })
    ]

pub call-IsAlive :
    (h : Host) (m : Mediation) (c : Call) → IsAlive h m → IsAlive (call h m c).0 (call h m c).1
unfolding call close
call-IsAlive h m (opens request deliver) v = open_interaction-IsAlive h m request deliver v
call-IsAlive h m (answers id a answered_by) v = record {
  sound = answer_interaction-IsSound h m v.sound id a answered_by;
  fresh = answer_interaction-IsFresh h m v.fresh id a answered_by;
}
call-IsAlive h m (withdraws adapter native_id reason) v = record {
  sound = cancel_native-IsSound h m v.sound adapter native_id reason;
  fresh = cancel_native-IsFresh h m v.fresh adapter native_id reason;
}
call-IsAlive h m (times_out id) v = record {
  sound = timeout-IsSound h m v.sound id;
  fresh = timeout-IsFresh h m v.fresh id;
}
call-IsAlive h m closes v = record {
  sound = close-IsSound m v.sound;
  fresh = IsFresh-same h h m _ refl (omega arith) (λ j absent. absent) v.fresh;
}

pub run-IsAlive :
    (h : Host) (m : Mediation) (cs : List Call)
    → IsAlive h m
    → IsAlive (run h m cs).0 (run h m cs).1
unfolding run
run-IsAlive h m [] v = v
run-IsAlive h m (c ∷ cs) v = run-IsAlive (call h m c).0 (call h m c).1 cs (call-IsAlive h m c v)

pub init-IsAlive :
    (h : Host) (node : String) (default_timeout_s : Option ℕ)
    → ((a b : ℕ) → h.ulid a ≡ h.ulid b → a ≡ b)
    → IsAlive h (init node default_timeout_s)
unfolding get
init-IsAlive h node default_timeout_s injective = record {
  sound = record {
    keyed = λ id i e. ground arith;
    indexed = λ k id e. absurd (cc e);
    complete = λ id i e p. ground arith;
    unsent = λ id i e p. refl;
    unknown = λ id e. refl;
    once = λ id. omega arith;
  };
  fresh = record { injective = injective; later = λ n le. refl };
}

-- Whatever calls and timers do, in any order, from a start with nothing open: the index of pending
-- interactions holds exactly those that are pending, each under its own native key, so there is at
-- most one for a key; and no interaction has its callback awaited more than once.
pub run-IsSound :
    (h : Host) (node : String) (default_timeout_s : Option ℕ) (cs : List Call)
    → ((a b : ℕ) → h.ulid a ≡ h.ulid b → a ≡ b)
    → IsSound (run h (init node default_timeout_s) cs).1
run-IsSound h node default_timeout_s cs injective =
    (run-IsAlive h (init node default_timeout_s) cs
      (init-IsAlive h node default_timeout_s injective)).sound
