-- ===== src/Retention/Expiry.antt =====
-- What a batch of expired events leaves, with a disk that takes everything
-- (src/prodeo/persistence/retention.py).
use mathlib.Core.List.{append_assoc, append-nil}
use command_center.Base.{
  ℕ, suc, ◌+◌, ◌-◌, none, List, [], ◌∷◌, ◌++◌, Bool, true, false, not, any, nat_eq, keep, length,
  length-append, if◌then◌else◌, ok, ◌≡◌, refl, ap, sym, ◌∙◌, arith, subst,
}
use command_center.Events.Envelope.{Event}
use command_center.Events.Host.Ids.{IsIncreasing}
use command_center.Persistence.Store.{delete_chunk}
use command_center.Persistence.Store.Paging.{keep-append}
use command_center.Persistence.Store.Chunks.{delete_lem}
use command_center.Retention.{Disk, Archive, Counted, events_of, expire, archive_first, ids}
use command_center.Retention.Window.{length-keep_both, keep_rest, delete_chosen}
use command_center.Retention.Months.{in_month, archive_events-Written}

-- Where the disk takes everything, `es` is deleted, counted and, if asked, filed under its months.
pub record Expired (archives : Bool) (es : List Event) (counts : ℕ × ℕ) (left : List Event)
    (a : Archive) (o : Counted) : Type 0 where
  pub succeeds :
      o.result ≡ ok (counts.0 + length es, counts.1 + (if archives then length es else 0))
  pub rows : o.rows ≡ left
  pub files :
      (m : ℕ)
      → events_of o.archive m ≡ events_of a m ++ (if archives then keep (in_month m) es else [])

module _ (disk : Disk) (works : (a : Archive) (m : ℕ) → disk.broken a m ≡ none) where
  archive_first-files :
      (archives : Bool) (a : Archive) (es : List Event)
      → ((archive_first disk archives a es).0 ≡ ok (if archives then length es else 0))
        × ((m : ℕ)
            → events_of (archive_first disk archives a es).1 m
              ≡ events_of a m ++ (if archives then keep (in_month m) es else []))
  unfolding archive_first
  archive_first-files false a es = (refl, λ m. sym (append-nil (events_of a m)))
  archive_first-files true a es =
      let w = archive_events-Written disk works a es in
      (rw (w.succeeds, archive_first) refl, w.files)

  pub expire-Expired :
      (archives : Bool) (counts : ℕ × ℕ) (rows : List Event) (a : Archive) (p : Event → Bool)
      → IsIncreasing rows
      → Expired archives
          (keep p rows)
          counts
          (keep (λ e. not (p e)) rows)
          a
          (expire disk archives counts rows a (keep p rows))
  unfolding expire delete_chunk
  expire-Expired archives counts rows a p sorted = chosen (keep p rows) refl
    where
      chosen :
          (l : List Event)
          → keep p rows ≡ l
          → Expired archives l counts
              (keep (λ e. not (p e)) rows)
              a
              (expire disk archives counts rows a l)
      chosen [] e = record {
        succeeds = ground arith;
        rows = sym (keep_rest p rows e);
        files = λ m. ground (arith, append-nil (events_of a m));
      }
      chosen (x ∷ xs) e =
          let f = archive_first-files archives a (x ∷ xs) in
          let gone =
            subst
              (λ l.
                keep (λ y. not (any (λ id. nat_eq id y.id) (ids l))) rows
                ≡ keep (λ y. not (p y)) rows)
              e (delete_chosen p rows sorted) in
          let fewer : length rows - length (keep (λ y. not (p y)) rows) ≡ suc (length xs) =
            omega (arith, length-keep_both p rows, ap length e) in
          rw (f.0, expire, delete_lem rows (ids (x ∷ xs)), gone, fewer)
            (record { succeeds = refl; rows = refl; files = f.1 })

-- First one batch, then the rest.
pub Expired-append :
    (archives : Bool) (es fs : List Event) (counts : ℕ × ℕ) (r1 r2 : List Event) (a : Archive)
    (o o' : Counted)
    → Expired archives es counts r1 a o
    → Expired archives fs
        (counts.0 + length es, counts.1 + (if archives then length es else 0))
        r2
        o.archive
        o'
    → Expired archives (es ++ fs) counts r2 a o'
Expired-append archives es fs counts r1 r2 a o o' x y = record {
  succeeds = y.succeeds ∙ ground (arith, length-append es fs);
  rows = y.rows;
  files = λ m.
      y.files m
      ∙ ap (λ l. l ++ (if archives then keep (in_month m) fs else [])) (x.files m)
      ∙ joined archives m;
}
  where
    joined :
        (b : Bool) (m : ℕ)
        → (events_of a m ++ (if b then keep (in_month m) es else []))
            ++ (if b then keep (in_month m) fs else [])
          ≡ events_of a m ++ (if b then keep (in_month m) (es ++ fs) else [])
    joined true m =
        append_assoc (events_of a m) (keep (in_month m) es) (keep (in_month m) fs)
        ∙ ap (λ l. events_of a m ++ l) (sym (keep-append (in_month m) es fs))
    joined false m = append_assoc (events_of a m) [] []
