-- ===== src/Mediation/Service/Opened.antt =====
-- What `open` of src/prodeo/mediation/service.py leaves, for a new request and for one that is pending.
use command_center.Base.{
  ℕ, some, true, nat_Eq, pair_Eq, string_Eq, ok, ◌≡◌, refl, sym, ap, ◌∙◌, Option-cases, inl, inr,
}
use command_center.Base.Dict.{get, get-put_self}
use command_center.Events.Host.{Host, fresh}
use command_center.Mediation.Model.{Interaction, InteractionRequest, is_pending}
use command_center.Mediation.Service.{
  Mediation, open_interaction, open_new, requested, register, or_default, existing,
}
use command_center.Mediation.Service.Sound.{IsSound}

-- The interaction is pending, under its own id, with the callback.
pub record IsOpened (m : Mediation) (deliver : ℕ) (i : Interaction) : Type 0 where
  pub found : get m.by_id i.id ≡ some i
  pub waits : is_pending i.status ≡ true
  pub registered : get m.deliver i.id ≡ some deliver

-- From a sound index, the callback is the last one given.
pub open_interaction-IsOpened :
    (h : Host) (m : Mediation) (request : InteractionRequest) (deliver : ℕ)
    → IsSound m
    → (i : Interaction) × ((open_interaction h m request deliver).result ≡ ok i)
      × IsOpened (open_interaction h m request deliver).mediation deliver i
unfolding open_interaction open_new requested register
open_interaction-IsOpened h m request deliver v =
    elim (Option-cases (get m.pending_by_native (request.adapter, request.native_id))) [
      | inl new ↦
          rw (open_interaction, new)
            (
              requested h m request (or_default request.timeout_s m.default_timeout_s),
              refl,
              record {
                found = get-put_self m.by_id (fresh h) (fresh h) _ refl;
                waits = refl;
                registered = get-put_self m.deliver (fresh h) (fresh h) deliver refl;
              },
            )
      | inr (id, listed) ↦
          let p = v.indexed (request.adapter, request.native_id) id listed in
          let same = v.keyed id p.held p.found in
          rw (open_interaction, listed)
            (
              p.held,
              rw (existing, p.found),
              record {
                found = ap (get m.by_id) same ∙ p.found;
                waits = p.waits;
                registered = get-put_self m.deliver id p.held.id deliver (sym same);
              },
            )
    ]
