-- ===== src/Machines/Registry/Durable.antt =====
-- Calls of src/prodeo/machines/registry.py as data; each leaves in the log what a later boot needs.
use command_center.Base.{
  ℕ, String, Option, none, some, List, [], ◌∷◌, ◌++◌, string_Eq, nat_Eq, ok, ◌>>=◌, bind_after, ◌≡◌,
  refl, Option-cases, inl, inr,
}
use command_center.Base.Dict.{get, put}
use command_center.Events.Envelope.{Event, ulid, text}
use command_center.Events.Types.{machine_renamed}
use command_center.Events.Host.{Host, new_event, emit}
use command_center.Machines.Model.{Machine}
use command_center.Machines.Registry.{
  source, Registry, Outcome, init, get_by_node, new_machine, register, add, named, apply_renamed,
  apply_removed, ensure_local, rename, remove_found, remove, apply, replay,
}

pub data Call : Type 0 where
  adds : String → String → Option String → String → Call
  ensures_local : Call
  renames : ℕ → String → Call
  removes : ℕ → Call

abbrev left : {A : Type 0} → Outcome A → Host × Registry
left o = (o.host, o.registry)

unfoldable pub call : Host → Registry → Call → Host × Registry
call h r (adds node name address certificate) = left (add h r node name address certificate)
call h r ensures_local = left (ensure_local h r)
call h r (renames machine_id name) = left (rename h r machine_id name)
call h r (removes machine_id) = left (remove h r machine_id)

unfoldable pub run : Host → Registry → List Call → Host × Registry
unfolding call
run h r [] = (h, r)
run h r (c ∷ cs) = let (h', r') = call h r c in run h' r' cs

replay-append :
    (r : Registry) (xs ys : List Event) → replay r (xs ++ ys) ≡ (replay r xs >>= λ r'. replay r' ys)
unfolding replay
replay-append r [] ys = refl
replay-append r (x ∷ xs) ys =
    bind_after (apply r x) (λ r'. replay r' xs) (λ r'. replay r' ys) _
      (λ r'. replay-append r' xs ys)

-- Folding the log from an empty registry gives this registry.
abbrev pub IsDurable : Host → Registry → Type 0
IsDurable h r = replay (init r.node) h.published ≡ ok r

-- Publishing an event whose effect is the new registry.
logged :
    (h : Host) (r r' : Registry) (e : Event)
    → IsDurable h r
    → apply r e ≡ ok r'
    → replay (init r.node) (h.published ++ e ∷ []) ≡ ok r'
unfolding replay
logged h r r' e d applied =
    rw (replay-append (init r.node) h.published (e ∷ []), d, ◌>>=◌, applied, ◌>>=◌) refl

module _ (h : Host) (r : Registry) (d : IsDurable h r) where
  register-IsDurable : (m : Machine) → IsDurable (register h r m).host (register h r m).registry
  unfolding register apply emit new_event get
  register-IsDurable m = logged h r (register h r m).registry _ d refl

  add-IsDurable :
      (node name : String) (address : Option String) (certificate : String)
      → IsDurable
          (add h r node name address certificate).host
          (add h r node name address certificate).registry
  unfolding add
  add-IsDurable node name address certificate = elim (Option-cases (get_by_node r node)) [
    | inl new ↦ rw (new, add) (register-IsDurable (new_machine h node name address certificate))
    | inr (m, known) ↦ rw (known, add) d
  ]

  ensure_local-IsDurable : IsDurable (ensure_local h r).host (ensure_local h r).registry
  unfolding ensure_local
  ensure_local-IsDurable = elim (Option-cases (get_by_node r r.node)) [
    | inl new ↦ rw (new, ensure_local) (add-IsDurable r.node "" none "")
    | inr (m, known) ↦ rw (known, ensure_local) d
  ]

  rename-IsDurable :
      (id : ℕ) (name : String) → IsDurable (rename h r id name).host (rename h r id name).registry
  unfolding rename apply apply_renamed emit new_event get put
  rename-IsDurable id name = elim (Option-cases (get r.by_id id)) [
    | inl absent ↦ rw (absent, rename) d
    | inr (m, found) ↦
        rw (found, rename)
          (logged h r (record r { by_id = put r.by_id id (named m name) })
            (new_event h machine_renamed r.node source none
              (("machine_id", ulid id) ∷ ("name", text name) ∷ []))
            d (rw (found, apply_renamed) refl))
  ]

  remove_found-IsDurable :
      (id : ℕ) (address : Option String)
      → IsDurable (remove_found h r id address).host (remove_found h r id address).registry
  unfolding remove_found apply apply_removed emit new_event get
  remove_found-IsDurable id none = d
  remove_found-IsDurable id (some a) = logged h r (remove_found h r id (some a)).registry _ d refl

  remove-IsDurable : (id : ℕ) → IsDurable (remove h r id).host (remove h r id).registry
  unfolding remove
  remove-IsDurable id = elim (Option-cases (get r.by_id id)) [
    | inl absent ↦ rw (absent, remove) d
    | inr (m, found) ↦ rw (found, remove) (remove_found-IsDurable id m.address)
  ]

call-IsDurable :
    (h : Host) (r : Registry) (c : Call) → IsDurable h r → IsDurable (call h r c).0 (call h r c).1
unfolding call
call-IsDurable h r (adds node name address certificate) d =
    add-IsDurable h r d node name address certificate
call-IsDurable h r ensures_local d = ensure_local-IsDurable h r d
call-IsDurable h r (renames id name) d = rename-IsDurable h r d id name
call-IsDurable h r (removes id) d = remove-IsDurable h r d id

run_from :
    (h : Host) (r : Registry) (cs : List Call)
    → IsDurable h r
    → IsDurable (run h r cs).0 (run h r cs).1
unfolding run
run_from h r [] d = d
run_from h r (c ∷ cs) d = run_from (call h r c).0 (call h r c).1 cs (call-IsDurable h r c d)

-- Whatever the calls, refused ones included, folding the published events from an empty registry
-- succeeds and gives exactly the catalogue that the calls left, in the same order.
pub machines_replayed :
    (h : Host) (node : String) (cs : List Call)
    → h.published ≡ []
    → IsDurable (run h (init node) cs).0 (run h (init node) cs).1
unfolding replay
machines_replayed h node cs empty = run_from h (init node) cs (rw empty refl)
