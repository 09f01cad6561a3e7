-- ===== src/Retention/Aged.antt =====
-- `_archive_sessions` of src/prodeo/persistence/retention.py over the Session Registry.
use command_center.Base.{
  ℕ, ◌+◌, ◌-◌, String, some, List, [], ◌∷◌, true, false, if◌then◌else◌, nat_eq, nat_eq_iff, nat_Eq,
  string_Eq, ok, ◌≡◌, refl, sym, ap, ◌∙◌, arith, Bool-cases, inl, inr, subst, some_inj,
}
use command_center.Base.Dict.{get, values, get-put, IsDict}
use command_center.Base.Entries.{
  listed, AllOnce, Stored, AllKeyed, Stored-changed, values-AllOnce, values-Stored, listed-values,
}
use command_center.Base.Sorted.{sorted_desc-All, listed-sorted_desc, sorted_desc-AllOnce}
use command_center.Events.Host.{Host, now}
use command_center.Sessions.State.{
  SessionState, completed, failed, stopped, archived, rank_eq, elem, can_transition,
}
use command_center.Sessions.Model.{Session}
use command_center.Sessions.Registry.{Registry, moved, observe_state, list_sessions}
use command_center.Retention.Stale.{IsStale, Fate, Counts, is_stale-cases}
use command_center.Retention.{Archived, is_stale, archive_each, archive_sessions}

abbrev key : Session → ℕ
key s = s.id

finished_legal :
    (s : SessionState)
    → elem s (completed ∷ failed ∷ stopped ∷ []) ≡ true
    → can_transition s archived ≡ true
unfolding can_transition
finished_legal s h = ground (arith, h)

module _ (node : String) (cutoff : ℕ) where
  -- What a pass over some of the sessions leaves.
  record Aged (n : ℕ) (r : Registry) (xs : List Session) (o : Archived) : Type 0 where
    pub counted : (k : ℕ) × Counts node cutoff xs k × (o.result ≡ ok (n + k))
    pub untouched :
        (sid : ℕ) → listed key sid xs ≡ false → get o.registry.by_id sid ≡ get r.by_id sid
    pub fates :
        (sid : ℕ) (s : Session)
        → listed key sid xs ≡ true
        → get r.by_id sid ≡ some s
        → (s' : Session) × (get o.registry.by_id sid ≡ some s') × Fate node cutoff s s'

  -- A stale session is archived by the registry: the state machine allows it.
  record Archives (h : Host) (r : Registry) (s : Session) : Type 0 where
    pub accepted :
        (observe_state h r s.id archived "retention").result ≡ ok (moved s archived (now h))
    pub written :
        (sid : ℕ)
        → get (observe_state h r s.id archived "retention").registry.by_id sid
          ≡ (if nat_eq s.id sid then some (moved s archived (now h)) else get r.by_id sid)

  archives :
      (h : Host) (r : Registry) (s : Session)
      → is_stale node cutoff s ≡ true
      → get r.by_id s.id ≡ some s
      → Archives h r s
  unfolding observe_state is_stale
  archives h r s stale found =
      let other : rank_eq archived s.state ≡ false = ground (arith, stale) in
      let legal : can_transition s.state archived ≡ true =
        finished_legal s.state (ground (arith, stale)) in
      record {
        accepted = rw (found, observe_state, other, legal);
        written = λ sid. rw (found, observe_state, other, legal) (get-put r.by_id s.id sid _);
      }

  archived_one :
      (h : Host) (r : Registry) (s : Session) (xs : List Session) (n : ℕ)
      → is_stale node cutoff s ≡ true
      → (a : Archives h r s)
      → archive_each node cutoff n h r (s ∷ xs)
        ≡ archive_each node cutoff
            (n + 1)
            (observe_state h r s.id archived "retention").host
            (observe_state h r s.id archived "retention").registry
            xs
  unfolding archive_each
  archived_one h r s xs n stale a = rw (stale, a.accepted, archive_each) refl

  skipped_one :
      (h : Host) (r : Registry) (s : Session) (xs : List Session) (n : ℕ)
      → is_stale node cutoff s ≡ false
      → archive_each node cutoff n h r (s ∷ xs) ≡ archive_each node cutoff n h r xs
  unfolding archive_each
  skipped_one h r s xs n fresh = rw (fresh, archive_each) refl

  aged :
      (h : Host) (r : Registry) (xs : List Session) (n : ℕ)
      → AllOnce key xs
      → Stored key r.by_id xs
      → Aged n r xs (archive_each node cutoff n h r xs)
  unfolding archive_each moved
  aged h r [] n once stored = record {
    counted = (0, refl, ap ok (omega arith));
    untouched = λ sid out. refl;
    fates = λ sid s in_ found. absurd (cc in_);
  }
  aged h r (x ∷ xs) n once stored = elim (is_stale-cases node cutoff x) [
    | inr (fresh, kept) ↦
        let rest = aged h r xs n once.1 stored.1 in
        subst (Aged n r (x ∷ xs)) (sym (skipped_one h r x xs n fresh)) (record {
          counted = (let (k, few, result) = rest.counted in (k, inr (kept, few), result));
          untouched = λ sid out. rest.untouched sid (ground (arith, out));
          fates = λ sid s in_ found. elim (Bool-cases (nat_eq x.id sid)) [
            | inl same ↦ (
              s,
              rest.untouched sid (unlisted sid same) ∙ found,
              inr (
                subst (λ y. ¬ IsStale node cutoff y) (sym (same_session sid s same found)) kept,
                refl,
              ),
            )
            | inr other ↦ rest.fates sid s (rw other at in_) found
          ];
        })
    | inl (stale, due) ↦
        let a = archives h r x stale stored.0 in
        let o = observe_state h r x.id archived "retention" in
        let rest = aged o.host o.registry xs (n + 1) once.1 (
          Stored-changed key r.by_id o.registry.by_id x.id xs (λ j ne. a.written j ∙ rw ne refl)
            once.0 stored.1) in
        subst (Aged n r (x ∷ xs)) (sym (archived_one h r x xs n stale a)) (record {
          counted =
              (let (k, few, result) = rest.counted in
                (k + 1, inl (due, k, few, refl), result ∙ ap ok (omega arith)));
          untouched = λ sid out.
              rest.untouched sid (ground (arith, out)) ∙ a.written sid ∙ ground (arith, out);
          fates = λ sid s in_ found. elim (Bool-cases (nat_eq x.id sid)) [
            | inl same ↦ (
              moved x archived (now h),
              rest.untouched sid (unlisted sid same) ∙ a.written sid ∙ rw same refl,
              inl (
                subst (IsStale node cutoff) (sym (same_session sid s same found)) due,
                now h,
                ap (λ y. moved y archived (now h)) (sym (same_session sid s same found)),
              ),
            )
            | inr other ↦ rest.fates sid s (rw other at in_) (a.written sid ∙ rw other found)
          ];
        })
  ]
    where
      unlisted : (sid : ℕ) → nat_eq x.id sid ≡ true → listed key sid xs ≡ false
      unlisted sid same = subst (λ j. listed key j xs ≡ false) ((nat_eq_iff x.id sid).0 same) once.0

      same_session :
          (sid : ℕ) (s : Session) → nat_eq x.id sid ≡ true → get r.by_id sid ≡ some s → s ≡ x
      same_session sid s same found =
          some_inj (sym found ∙ ap (get r.by_id) (sym ((nat_eq_iff x.id sid).0 same)) ∙ stored.0)

-- What a pass over the catalogue promises.
pub record Swept (node : String) (cutoff : ℕ) (r : Registry) (o : Archived) : Type 0 where
  pub counted : (n : ℕ) × Counts node cutoff (list_sessions r) n × (o.result ≡ ok n)
  pub fates :
      (sid : ℕ) (s : Session)
      → get r.by_id sid ≡ some s
      → (s' : Session) × (get o.registry.by_id sid ≡ some s') × Fate node cutoff s s'

-- Over a catalogue that files each session under its own id, a pass archives exactly the sessions that
-- are of this node, completed, failed or stopped, and ended before the cutoff (by their end time or, if
-- they have none, their last activity), keeps each other one as it is, and counts the first.
pub archive_sessions-Swept :
    (node : String) (age now_ : ℕ) (h : Host) (r : Registry)
    → IsDict r.by_id
    → AllKeyed key r.by_id
    → Swept node (now_ - age) r (archive_sessions node (some age) now_ h r)
unfolding archive_sessions list_sessions
archive_sessions-Swept node age now_ h r unique keyed =
    let xs = values r.by_id in
    let rank : (Session → ℕ) = λ s. s.last_activity_at in
    let a =
      aged node (now_ - age) h r (list_sessions r) 0
        (sorted_desc-AllOnce rank key xs (values-AllOnce key r.by_id unique keyed))
        (sorted_desc-All rank (λ s. get r.by_id s.id ≡ some s) xs
          (values-Stored key r.by_id unique keyed)) in
    record {
      counted = (let (n, few, result) = a.counted in (n, few, result ∙ ap ok (omega arith)));
      fates = λ sid s found.
          a.fates sid s
            (listed-sorted_desc rank key sid xs ∙ listed-values key r.by_id sid s keyed found)
            found;
    }
