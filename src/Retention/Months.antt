-- ===== src/Retention/Months.antt =====
-- `_archive_events` of src/prodeo/persistence/retention.py files each event once under its month.
use mathlib.Core.List.{append_assoc, append-nil}
use command_center.Base.{
  ℕ, none, List, [], ◌∷◌, ◌++◌, Bool, keep, nat_eq, nat_eq_iff, nat_Eq, if◌then◌else◌, Result, ok,
  ◌≡◌, refl, ap, sym, ◌∙◌, arith, Bool-cases, inl, inr,
}
use command_center.Base.Dict.{get, put, get-put, IsDict, IsAbsent}
use command_center.Base.Entries.{put-IsDict}
use command_center.Events.Envelope.{Event}
use command_center.Retention.{
  Archive, Disk, events_of, month_of, by_month, write_months, archive_events,
}

abbrev pub in_month : ℕ → Event → Bool
in_month month e = nat_eq (month_of e.timestamp) month

pub events_of-put :
    (a : Archive) (k m : ℕ) (es : List Event)
    → events_of (put a k es) m ≡ (if nat_eq k m then es else events_of a m)
events_of-put a k m es = ground (arith, get-put a k m es)

pub by_month-events_of :
    (m : ℕ) (groups : Archive) (es : List Event)
    → events_of (by_month groups es) m ≡ events_of groups m ++ keep (in_month m) es
unfolding by_month
by_month-events_of m groups [] = sym (append-nil (events_of groups m))
by_month-events_of m groups (e ∷ es) =
    by_month-events_of m (put groups k (events_of groups k ++ e ∷ [])) es
    ∙ elim (Bool-cases (nat_eq k m)) [
      | inl same ↦
          rw (events_of-put groups k m (events_of groups k ++ e ∷ []), same)
            (append_assoc (events_of groups k) (e ∷ []) (keep (in_month m) es)
              ∙ ap (λ j. events_of groups j ++ e ∷ keep (in_month m) es) ((nat_eq_iff k m).0 same))
      | inr other ↦ rw (events_of-put groups k m (events_of groups k ++ e ∷ []), other) refl
    ]
  where
    k : ℕ
    k = month_of e.timestamp

pub by_month-IsDict :
    (groups : Archive) (es : List Event) → IsDict groups → IsDict (by_month groups es)
unfolding by_month
by_month-IsDict groups [] u = u
by_month-IsDict groups (e ∷ es) u =
    let month = month_of e.timestamp in
    by_month-IsDict (put groups month (events_of groups month ++ e ∷ [])) es
      (put-IsDict groups month (events_of groups month ++ e ∷ []) u)

absent_none : (k : ℕ) (groups : Archive) → IsAbsent k groups → events_of groups k ≡ []
unfolding get
absent_none k [] a = refl
absent_none k ((j, es) ∷ groups) a = ground (arith, a.0, absent_none k groups a.1)

pub events_of-first :
    (k m : ℕ) (batch : List Event) (rest : Archive)
    → events_of ((k, batch) ∷ rest) m ≡ (if nat_eq k m then batch else events_of rest m)
unfolding get
events_of-first k m batch rest = ground arith

-- What an archive writer leaves in each file, if the disk takes everything.
module _ (disk : Disk) (works : (a : Archive) (m : ℕ) → disk.broken a m ≡ none) where
  pub record Written (a : Archive) (new : ℕ → List Event) (o : (Result (Unit {0})) × Archive)
      : Type 0 where
    pub succeeds : o.0 ≡ ok tt
    pub files : (m : ℕ) → events_of o.1 m ≡ events_of a m ++ new m

  write_months-Written :
      (a groups : Archive)
      → IsDict groups
      → Written a (events_of groups) (write_months disk a groups)
  unfolding write_months get
  write_months-Written a [] u = record {
    succeeds = refl;
    files = λ m. sym (append-nil (events_of a m));
  }
  write_months-Written a ((k, batch) ∷ rest) u =
      let w = write_months-Written (put a k (events_of a k ++ batch)) rest u.1 in
      rw (works a k, write_months)
        (record { succeeds = w.succeeds; files = λ m. w.files m ∙ one_more m })
    where
      one_more :
          (m : ℕ)
          → events_of (put a k (events_of a k ++ batch)) m ++ events_of rest m
            ≡ events_of a m ++ events_of ((k, batch) ∷ rest) m
      one_more m = elim (Bool-cases (nat_eq k m)) [
        | inl same ↦
            let e = (nat_eq_iff k m).0 same in
            rw
              (
                events_of-put a k m (events_of a k ++ batch),
                events_of-first k m batch rest,
                same,
                ap (events_of rest) (sym e) ∙ absent_none k rest u.0,
                append-nil (events_of a k ++ batch),
              )
              (ap (λ j. events_of a j ++ batch) e)
        | inr other ↦
            rw (events_of-put a k m (events_of a k ++ batch), events_of-first k m batch rest, other)
              refl
      ]

  pub archive_events-Written :
      (a : Archive) (es : List Event)
      → Written a (λ m. keep (in_month m) es) (archive_events disk a es)
  unfolding archive_events get
  archive_events-Written a es =
      let w = write_months-Written a (by_month [] es) (by_month-IsDict [] es tt) in
      record {
        succeeds = w.succeeds;
        files = λ m. w.files m ∙ ap (λ l. events_of a m ++ l) (by_month-events_of m [] es);
      }
