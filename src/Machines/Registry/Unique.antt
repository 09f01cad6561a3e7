-- ===== src/Machines/Registry/Unique.antt =====
-- The identities that src/prodeo/machines/registry.py keeps: a node has one machine, and the hub's own
-- machine cannot be removed.
use command_center.Base.{
  ℕ, ◌≤◌, String, Option, none, some, List, [], ◌∷◌, false, ◌==◌, ==_refl, string_Eq, nat_Eq,
  nat_eq_iff, ◌≡◌, refl, ap, sym, ◌∙◌, Option-cases, inl, inr, arith,
}
use command_center.Base.Dict.{
  get, put, pop, get-put-some, get-pop-some, get-put_ne, get-pop, find-none,
}
use command_center.Events.Host.{Host, fresh, emit}
use command_center.Machines.Model.{Machine}
use command_center.Machines.Registry.{
  Registry, init, has_node, get_by_node, new_machine, register, add, ensure_local, named, rename,
  remove_found, remove,
}
use command_center.Machines.Registry.Durable.{
  Call, adds, ensures_local, renames, removes, call, run,
}

pub record IsSound (r : Registry) : Type 0 where
  pub keyed : (id : ℕ) (m : Machine) → get r.by_id id ≡ some m → m.id ≡ id
  pub unique :
      (i j : ℕ) (m n : Machine)
      → get r.by_id i ≡ some m
      → get r.by_id j ≡ some n
      → m.node ≡ n.node
      → i ≡ j

pub record IsAlive (h : Host) (r : Registry) : Type 0 where
  pub sound : IsSound r
  pub injective : (a b : ℕ) → h.ulid a ≡ h.ulid b → a ≡ b
  pub later : (n : ℕ) → h.draws ≤ n → get r.by_id (h.ulid n) ≡ none

unknown_node :
    (r : Registry) (node : String) (id : ℕ) (m : Machine)
    → get_by_node r node ≡ none
    → get r.by_id id ≡ some m
    → (m.node == node) ≡ false
unfolding get_by_node
unknown_node r node id m none_has found = find-none (has_node node) r.by_id id m none_has found

known_not_new :
    (r : Registry) (node : String) (id : ℕ) (m : Machine)
    → get_by_node r node ≡ none
    → get r.by_id id ≡ some m
    → m.node ≡ node
    → ⊥
known_not_new r node id m new found same =
    cc (unknown_node r node id m new found, ap (λ n. n == node) same, ==_refl node)

put-IsSound :
    (r : Registry) (m : Machine)
    → IsSound r
    → get r.by_id m.id ≡ none
    → get_by_node r m.node ≡ none
    → IsSound (record r { by_id = put r.by_id m.id m })
put-IsSound r m v free new = record {
  keyed = λ id x h. elim (get-put-some r.by_id m.id id m h) [
    | inl (e, f) ↦ ap (λ (y : Machine). y.id) f ∙ e
    | inr (e, before) ↦ v.keyed id x before
  ];
  unique = λ i j x y hx hy same. elim (get-put-some r.by_id m.id i m hx) [
    | inl (e, f) ↦ elim (get-put-some r.by_id m.id j m hy) [
      | inl (e', f') ↦ sym e ∙ e'
      | inr (e', before) ↦
          absurd (known_not_new r m.node j y new before (sym same ∙ ap (λ (z : Machine). z.node) f))
    ]
    | inr (e, before) ↦ elim (get-put-some r.by_id m.id j m hy) [
      | inl (e', f') ↦
          absurd (known_not_new r m.node i x new before (same ∙ ap (λ (z : Machine). z.node) f'))
      | inr (e', before') ↦ v.unique i j x y before before' same
    ]
  ];
}

-- Changing the display name.
name-IsSound :
    (r : Registry) (id : ℕ) (m : Machine) (name : String)
    → IsSound r
    → get r.by_id id ≡ some m
    → IsSound (record r { by_id = put r.by_id id (named m name) })
name-IsSound r id m name v found = record {
  keyed = λ j x h. elim (get-put-some r.by_id id j (named m name) h) [
    | inl (e, f) ↦ ap (λ (y : Machine). y.id) f ∙ v.keyed id m found ∙ e
    | inr (e, before) ↦ v.keyed j x before
  ];
  unique = λ i j x y hx hy same. elim (get-put-some r.by_id id i (named m name) hx) [
    | inl (e, f) ↦ elim (get-put-some r.by_id id j (named m name) hy) [
      | inl (e', f') ↦ sym e ∙ e'
      | inr (e', before) ↦
          sym e ∙ v.unique id j m y found before (sym (ap (λ (z : Machine). z.node) f) ∙ same)
    ]
    | inr (e, before) ↦ elim (get-put-some r.by_id id j (named m name) hy) [
      | inl (e', f') ↦ v.unique i id x m before found (same ∙ ap (λ (z : Machine). z.node) f') ∙ e'
      | inr (e', before') ↦ v.unique i j x y before before' same
    ]
  ];
}

pop-IsSound : (r : Registry) (id : ℕ) → IsSound r → IsSound (record r { by_id = pop r.by_id id })
pop-IsSound r id v = record {
  keyed = λ j x h. v.keyed j x (get-pop-some r.by_id id j h).1;
  unique = λ i j x y hx hy same.
      v.unique i j x y (get-pop-some r.by_id id i hx).1 (get-pop-some r.by_id id j hy).1 same;
}

module _ (h : Host) (r : Registry) (v : IsAlive h r) where
  register-IsAlive :
      (m : Machine)
      → m.id ≡ fresh h
      → get_by_node r m.node ≡ none
      → IsAlive (register h r m).host (register h r m).registry
  unfolding register emit
  register-IsAlive m drawn new = record {
    sound = put-IsSound r m v.sound (rw drawn (v.later h.draws (omega arith))) new;
    injective = v.injective;
    later = λ n le.
        get-put_ne r.by_id m.id (h.ulid n) m
          (ground (arith, nat_eq_iff m.id (h.ulid n), drawn, v.injective h.draws n))
        ∙ v.later n (omega arith);
  }

  add-IsAlive :
      (node name : String) (address : Option String) (certificate : String)
      → IsAlive
          (add h r node name address certificate).host
          (add h r node name address certificate).registry
  unfolding add new_machine
  add-IsAlive node name address certificate = elim (Option-cases (get_by_node r node)) [
    | inl new ↦
        rw (new, add) (register-IsAlive (new_machine h node name address certificate) refl new)
    | inr (m, known) ↦ rw (known, add) v
  ]

  ensure_local-IsAlive : IsAlive (ensure_local h r).host (ensure_local h r).registry
  unfolding ensure_local
  ensure_local-IsAlive = elim (Option-cases (get_by_node r r.node)) [
    | inl new ↦ rw (new, ensure_local) (add-IsAlive r.node "" none "")
    | inr (m, known) ↦ rw (known, ensure_local) v
  ]

  rename-IsAlive :
      (id : ℕ) (name : String) → IsAlive (rename h r id name).host (rename h r id name).registry
  unfolding rename emit
  rename-IsAlive id name = elim (Option-cases (get r.by_id id)) [
    | inl absent ↦ rw (absent, rename) v
    | inr (m, found) ↦
        rw (found, rename)
          (record {
            sound = name-IsSound r id m name v.sound found;
            injective = v.injective;
            later = λ n le.
                get-put_ne r.by_id id (h.ulid n) (named m name) (
                  ground (
                    arith,
                    nat_eq_iff id (h.ulid n),
                    ap (get r.by_id),
                    found,
                    v.later n (omega arith),
                  ))
                ∙ v.later n (omega arith);
          })
  ]

  remove_found-IsAlive :
      (id : ℕ) (address : Option String)
      → IsAlive (remove_found h r id address).host (remove_found h r id address).registry
  unfolding remove_found emit
  remove_found-IsAlive id none = v
  remove_found-IsAlive id (some a) = record {
    sound = pop-IsSound r id v.sound;
    injective = v.injective;
    later = λ n le. ground (arith, get-pop r.by_id id (h.ulid n), v.later n (omega arith));
  }

  remove-IsAlive : (id : ℕ) → IsAlive (remove h r id).host (remove h r id).registry
  unfolding remove
  remove-IsAlive id = elim (Option-cases (get r.by_id id)) [
    | inl absent ↦ rw (absent, remove) v
    | inr (m, found) ↦ rw (found, remove) (remove_found-IsAlive id m.address)
  ]

  pub call-IsAlive : (c : Call) → IsAlive (call h r c).0 (call h r c).1
  unfolding call
  call-IsAlive (adds node name address certificate) = add-IsAlive node name address certificate
  call-IsAlive ensures_local = ensure_local-IsAlive
  call-IsAlive (renames id name) = rename-IsAlive id name
  call-IsAlive (removes id) = remove-IsAlive id

pub run-IsAlive :
    (h : Host) (r : Registry) (cs : List Call) → IsAlive h r → IsAlive (run h r cs).0 (run h r cs).1
unfolding run
run-IsAlive h r [] v = v
run-IsAlive h r (c ∷ cs) v = run-IsAlive (call h r c).0 (call h r c).1 cs (call-IsAlive h r v c)

pub init-IsAlive :
    (h : Host) (node : String) → ((a b : ℕ) → h.ulid a ≡ h.ulid b → a ≡ b) → IsAlive h (init node)
unfolding get
init-IsAlive h node injective = record {
  sound = record { keyed = λ id m e. absurd (cc e); unique = λ i j m n e e' same. absurd (cc e) };
  injective = injective;
  later = λ n le. refl;
}

-- Whatever the calls, no two machines of the catalogue have the same node, and each is filed under its
-- own id.
pub machines_unique :
    (h : Host) (node : String) (cs : List Call)
    → ((a b : ℕ) → h.ulid a ≡ h.ulid b → a ≡ b)
    → IsSound (run h (init node) cs).1
machines_unique h node cs injective =
    (run-IsAlive h (init node) cs (init-IsAlive h node injective)).sound
