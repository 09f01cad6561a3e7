-- ===== src/Retention/Written.antt =====
-- What the archive files hold after events are written, over a disk that may fail
-- (src/prodeo/persistence/retention.py).
use command_center.Base.{
  ℕ, List, [], ◌∷◌, ◌++◌, false, nat_eq, nat_eq_iff, nat_Eq, In, In-append_left, In-append_right,
  In-keep, ok, ◌≡◌, sym, Bool-cases, Option-cases, inl, inr, ◌⊎◌, subst, ==_refl,
}
use command_center.Base.Dict.{get, put}
use command_center.Events.Envelope.{Event}
use command_center.Events.Host.Ids.{IsIncreasing}
use command_center.Retention.{
  Disk, Archive, events_of, is_protected, month_of, by_month, write_months, archive_events,
}
use command_center.Retention.Months.{in_month, events_of-put, events_of-first, by_month-events_of}

-- A row is still there, or it was not protected and the file of its month holds it; the files have
-- lost nothing.
pub record NothingLost (rows : List Event) (a : Archive) (rows' : List Event) (a' : Archive)
    : Type 0 where
  pub kept :
      (e : Event)
      → In e rows
      → In e rows' ⊎ ((is_protected e ≡ false) × In e (events_of a' (month_of e.timestamp)))
  pub files : (m : ℕ) (e : Event) → In e (events_of a m) → In e (events_of a' m)
  pub ordered : IsIncreasing rows'

pub NothingLost-refl :
    (rows : List Event) (a : Archive) → IsIncreasing rows → NothingLost rows a rows a
NothingLost-refl rows a sorted = record {
  kept = λ e h. inl h;
  files = λ m e h. h;
  ordered = sorted;
}

pub NothingLost-trans :
    (r s t : List Event) (a b c : Archive)
    → NothingLost r a s b
    → NothingLost s b t c
    → NothingLost r a t c
NothingLost-trans r s t a b c x y = record {
  kept = λ e h. elim (x.kept e h) [
    | inl there ↦ y.kept e there
    | inr (free, filed) ↦ inr (free, y.files (month_of e.timestamp) e filed)
  ];
  files = λ m e h. y.files m e (x.files m e h);
  ordered = y.ordered;
}

module _ (disk : Disk) where
  -- Writing the months: the files grow, and if it succeeds they hold what was to be written.
  write_months-grows :
      (a groups : Archive) (m : ℕ) (e : Event)
      → In e (events_of a m)
      → In e (events_of (write_months disk a groups).1 m)
  unfolding write_months
  write_months-grows a [] m e h = h
  write_months-grows a ((k, batch) ∷ rest) m e h = elim (Option-cases (disk.broken a k)) [
    | inr (x, fails) ↦ rw (fails, write_months) h
    | inl works ↦
        rw (works, write_months)
          (write_months-grows (put a k (events_of a k ++ batch)) rest m e (one_more m e h))
  ]
    where
      one_more :
          (n : ℕ) (y : Event)
          → In y (events_of a n)
          → In y (events_of (put a k (events_of a k ++ batch)) n)
      one_more n y there = elim (Bool-cases (nat_eq k n)) [
        | inl same ↦
            rw (events_of-put a k n (events_of a k ++ batch), same)
              (In-append_left y (events_of a k) batch
                (subst (λ j. In y (events_of a j)) (sym ((nat_eq_iff k n).0 same)) there))
        | inr other ↦ rw (events_of-put a k n (events_of a k ++ batch), other) there
      ]

  write_months-holds :
      (a groups : Archive) (m : ℕ) (e : Event)
      → (write_months disk a groups).0 ≡ ok tt
      → In e (events_of groups m)
      → In e (events_of (write_months disk a groups).1 m)
  unfolding write_months get
  write_months-holds a [] m e done h = absurd h
  write_months-holds a ((k, batch) ∷ rest) m e done h = elim (Option-cases (disk.broken a k)) [
    | inr (x, fails) ↦ absurd (cc (rw (fails, write_months) at done))
    | inl works ↦
        let a' : Archive = put a k (events_of a k ++ batch) in
        let done' : (write_months disk a' rest).0 ≡ ok tt = rw (works, write_months) at done in
        rw (works, write_months)
          (elim (Bool-cases (nat_eq k m)) [
            | inl same ↦ write_months-grows a' rest m e (
                rw (events_of-put a k m (events_of a k ++ batch), same)
                  (In-append_right e (events_of a k) batch
                    (rw (events_of-first k m batch rest, same) at h)))
            | inr other ↦
                write_months-holds a' rest m e done'
                  (rw (events_of-first k m batch rest, other) at h)
          ])
  ]

  pub archive_events-safe :
      (a : Archive) (es : List Event)
      → ((m : ℕ) (e : Event)
          → In e (events_of a m)
          → In e (events_of (archive_events disk a es).1 m))
        × ((archive_events disk a es).0 ≡ ok tt
            → (e : Event) → In e es
            → In e (events_of (archive_events disk a es).1 (month_of e.timestamp)))
  unfolding archive_events get
  archive_events-safe a es = (
    write_months-grows a (by_month [] es),
    λ done e h. write_months-holds a (by_month [] es) (month_of e.timestamp) e done (
        subst (In e) (sym (by_month-events_of (month_of e.timestamp) [] es))
          (In-keep (in_month (month_of e.timestamp)) e es (==_refl (month_of e.timestamp)) h)),
  )
