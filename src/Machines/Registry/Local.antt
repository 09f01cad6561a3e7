-- ===== src/Machines/Registry/Local.antt =====
-- The hub's own machine in src/prodeo/machines/registry.py: made once, and never removed.
use command_center.Base.{
  ℕ, String, Option, none, some, List, [], ◌∷◌, ==_refl, string_Eq, nat_Eq, nat_eq, nat_eq_iff, ok,
  ◌≡◌, refl, ap, sym, ◌∙◌, Bool-cases, Option-cases, inl, inr, arith, some_inj,
}
use command_center.Base.Dict.{get, get-put_self, get-put_ne, get-pop, keys_apart, find-put}
use command_center.Events.Host.{Host, fresh}
use command_center.Machines.Model.{Machine}
use command_center.Machines.Registry.{
  Registry, has_node, get_by_node, new_machine, register, add, ensure_local, named, rename,
  remove_found, remove,
}
use command_center.Machines.Registry.Durable.{
  Call, adds, ensures_local, renames, removes, call, run,
}
use command_center.Machines.Registry.Unique.{IsAlive, call-IsAlive}

-- A machine without an address is there under an id, for this node.
pub record IsLocal (r : Registry) (id : ℕ) (node : String) : Type 0 where
  pub machine : Machine
  pub found : get r.by_id id ≡ some machine
  pub here : machine.node ≡ node
  pub no_address : machine.address ≡ none

module _ (h : Host) (r : Registry) (v : IsAlive h r) (id : ℕ) (node : String)
    (l : IsLocal r id node) where
  add_keeps :
      (new_node name : String) (address : Option String) (certificate : String)
      → IsLocal (add h r new_node name address certificate).registry id node
  unfolding add register new_machine
  add_keeps new_node name address certificate = elim (Option-cases (get_by_node r new_node)) [
    | inl new ↦
        rw (new, add)
          (record {
            machine = l.machine;
            found =
                get-put_ne r.by_id (fresh h) id (new_machine h new_node name address certificate)
                  (keys_apart r.by_id (fresh h) id (v.later h.draws (omega arith)) l.found)
                ∙ l.found;
            here = l.here;
            no_address = l.no_address;
          })
    | inr (m, known) ↦ rw (known, add) l
  ]

  ensure_local_keeps : IsLocal (ensure_local h r).registry id node
  unfolding ensure_local
  ensure_local_keeps = elim (Option-cases (get_by_node r r.node)) [
    | inl new ↦ rw (new, ensure_local) (add_keeps r.node "" none "")
    | inr (m, known) ↦ rw (known, ensure_local) l
  ]

  rename_keeps : (j : ℕ) (name : String) → IsLocal (rename h r j name).registry id node
  unfolding rename
  rename_keeps j name = elim (Option-cases (get r.by_id j)) [
    | inl absent ↦ rw (absent, rename) l
    | inr (m, found) ↦ elim (Bool-cases (nat_eq j id)) [
      | inl same ↦
          let e = (nat_eq_iff j id).0 same in
          let one = some_inj (sym found ∙ ap (get r.by_id) e ∙ l.found) in
          rw (found, rename)
            (record {
              machine = named l.machine name;
              found =
                  get-put_self r.by_id j id (named m name) e
                  ∙ ap (λ (x : Machine). some (named x name)) one;
              here = l.here;
              no_address = l.no_address;
            })
      | inr other ↦
          rw (found, rename)
            (record {
              machine = l.machine;
              found = get-put_ne r.by_id j id (named m name) other ∙ l.found;
              here = l.here;
              no_address = l.no_address;
            })
    ]
  ]

  remove_keeps : (j : ℕ) → IsLocal (remove h r j).registry id node
  unfolding remove remove_found
  remove_keeps j = elim (Option-cases (get r.by_id j)) [
    | inl absent ↦ rw (absent, remove) l
    | inr (m, found) ↦
        rw (found, remove)
          (elim (Option-cases m.address) [
            | inl mine ↦ rw (mine, remove_found) l
            | inr (a, remote) ↦
                rw (remote, remove_found)
                  (record {
                    machine = l.machine;
                    found =
                        get-pop r.by_id j id
                        ∙ ground (
                          arith,
                          nat_eq_iff j id,
                          ap (get r.by_id),
                          found,
                          l.found,
                          remote,
                          l.no_address,
                        );
                    here = l.here;
                    no_address = l.no_address;
                  })
          ])
  ]

  call_keeps : (c : Call) → IsLocal (call h r c).1 id node
  unfolding call
  call_keeps (adds n name address certificate) = add_keeps n name address certificate
  call_keeps ensures_local = ensure_local_keeps
  call_keeps (renames j name) = rename_keeps j name
  call_keeps (removes j) = remove_keeps j

-- A machine without an address, which is how the hub registers its own, is there after any calls, with
-- its node and still without an address.
pub run-IsLocal :
    (h : Host) (r : Registry) (cs : List Call) (id : ℕ) (node : String)
    → IsAlive h r
    → IsLocal r id node
    → IsLocal (run h r cs).1 id node
unfolding run
run-IsLocal h r [] id node v l = l
run-IsLocal h r (c ∷ cs) id node v l =
    run-IsLocal (call h r c).0 (call h r c).1 cs id node (call-IsAlive h r v c)
      (call_keeps h r v id node l c)

known_local :
    (h : Host) (r : Registry) (m : Machine)
    → get_by_node r r.node ≡ some m
    → ensure_local h r ≡ record { result = ok m; host = h; registry = r }
unfolding ensure_local
known_local h r m known = rw (known, ensure_local) refl

new_local :
    (h : Host) (r : Registry)
    → get_by_node r r.node ≡ none
    → ensure_local h r ≡ register h r (new_machine h r.node "" none "")
unfolding ensure_local add
new_local h r new = rw (new, ensure_local, new, add) refl

registered_found :
    (h : Host) (r : Registry) (m : Machine)
    → get_by_node r m.node ≡ none
    → get r.by_id m.id ≡ none
    → get_by_node (register h r m).registry m.node ≡ some m
unfolding get_by_node register
registered_found h r m new free =
    find-put (has_node m.node) r.by_id m.id m new free (==_refl m.node)

-- Booting again does nothing: once `ensure_local` has run, a second run returns the same machine, draws
-- nothing, publishes nothing and leaves the catalogue as it is.
pub ensure_local_twice :
    (h h' : Host) (r : Registry)
    → IsAlive h r
    → let first = ensure_local h r in
      ensure_local h' first.registry
      ≡ record { result = first.result; host = h'; registry = first.registry }
unfolding register new_machine
ensure_local_twice h h' r v = elim (Option-cases (get_by_node r r.node)) [
  | inl new ↦
      let m = new_machine h r.node "" none "" in
      rw (new_local h r new) (
        known_local h' (register h r m).registry m
          (registered_found h r m new (v.later h.draws (omega arith))))
  | inr (m, known) ↦ rw (known_local h r m known) (known_local h' r m known)
]
