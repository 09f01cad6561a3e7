-- ===== src/Retention/Rule.antt =====
-- `_apply_rule` of src/prodeo/persistence/retention.py: what a rule deletes and what it archives.
use mathlib.Core.List.{append-nil}
use command_center.Base.{
  ℕ, zero, suc, ◌+◌, ◌-◌, ◌≤◌, ◌<◌, Option, none, some, List, [], ◌∷◌, ◌++◌, true, false, not, ◌&&◌,
  keep, length, ltb, if◌then◌else◌, ◌≡◌, refl, ap, sym, ◌∙◌, arith, subst,
}
use command_center.Events.Envelope.{Event}
use command_center.Events.Host.Ids.{IsIncreasing}
use command_center.Persistence.Store.{is_after, last}
use command_center.Persistence.Store.Paging.{
  first, keep-keep, keep_same, keep-IsIncreasing, length-keep,
}
use command_center.Retention.{
  RetentionRule, Disk, Archive, Counted, batch_size, events_of, is_protected, expire, walk,
  and_then, and_then-ok, apply_rule, cutoff_at, min_ulid_at,
}
use command_center.Retention.Window.{keep_rest}
use command_center.Retention.Batch.{
  is_expired, is_expendable, ahead, todo, spared, query-window, batch_up_to, batch_chosen, advances,
  here, left, todo_cut, spared-left, ahead_shorter,
}
use command_center.Retention.Expiry.{Expired, expire-Expired, Expired-append}

module _ (disk : Disk) (works : (a : Archive) (m : ℕ) → disk.broken a m ≡ none)
    (rule : RetentionRule) (cutoff_id limit : ℕ) (size : batch_size ≡ suc limit) where
  todo-ahead :
      (cursor : Option ℕ) (rows : List Event)
      → keep (λ x. not (is_protected x)) (ahead rule.types cutoff_id cursor rows)
        ≡ todo rule.types cutoff_id cursor rows
  todo-ahead cursor rows =
      keep-keep (λ x. not (is_protected x))
        (λ x. is_after cursor x && is_expired rule.types cutoff_id x) rows
      ∙ keep_same _ _ rows (λ x. ground arith)

  -- One batch up to the id of `m`, and then the walk from there.
  module _ (cursor : Option ℕ) (counts : ℕ × ℕ) (rows : List Event) (a : Archive)
      (sorted : IsIncreasing rows) (m : Event) (past : is_after cursor m ≡ true) where
    abbrev gone : List Event
    gone = keep (here rule.types cutoff_id cursor m.id) rows

    abbrev remaining : List Event
    remaining = left rule.types cutoff_id cursor m.id rows

    abbrev expired : Counted
    expired = expire disk rule.archive counts rows a gone

    abbrev counted : ℕ × ℕ
    counted = (counts.0 + length gone, counts.1 + (if rule.archive then length gone else 0))

    one_batch :
        (fuel : ℕ)
        → Expired rule.archive
            (todo rule.types cutoff_id (some m.id) remaining)
            counted
            (spared rule.types cutoff_id (some m.id) remaining)
            expired.archive
            (walk disk rule cutoff_id fuel (some m.id) counted remaining expired.archive)
        → Expired rule.archive
            (todo rule.types cutoff_id cursor rows)
            counts
            (spared rule.types cutoff_id cursor rows)
            a
            (and_then expired (walk disk rule cutoff_id fuel (some m.id)))
    one_batch fuel rest =
        let next : (ℕ × ℕ → List Event → Archive → Counted) =
          walk disk rule cutoff_id fuel (some m.id) in
        let x =
          expire-Expired disk works rule.archive counts rows a
            (here rule.types cutoff_id cursor m.id) sorted in
        let all =
          Expired-append rule.archive gone (todo rule.types cutoff_id (some m.id) remaining) counts
            remaining (spared rule.types cutoff_id (some m.id) remaining) a expired
            (next counted remaining expired.archive) x rest in
        rw (and_then-ok expired next counted x.succeeds, x.rows)
          (subst
            (λ l.
              Expired rule.archive l counts (spared rule.types cutoff_id cursor rows) a
                (next counted remaining expired.archive))
            (sym (todo_cut rule.types cutoff_id cursor rows sorted m past))
            (subst
              (λ r.
                Expired rule.archive (gone ++ todo rule.types cutoff_id (some m.id) remaining)
                  counts r a (next counted remaining expired.archive))
              (spared-left rule.types cutoff_id cursor rows sorted m past) all))

  walk-Expired :
      (fuel : ℕ) (cursor : Option ℕ) (counts : ℕ × ℕ) (rows : List Event) (a : Archive)
      → IsIncreasing rows
      → length (ahead rule.types cutoff_id cursor rows) < fuel
      → Expired rule.archive
          (todo rule.types cutoff_id cursor rows)
          counts
          (spared rule.types cutoff_id cursor rows)
          a
          (walk disk rule cutoff_id fuel cursor counts rows a)
  unfolding walk
  walk-Expired zero cursor counts rows a sorted enough = absurd (omega (arith, enough))
  walk-Expired (suc fuel) cursor counts rows a sorted enough =
      batch (ahead rule.types cutoff_id cursor rows) refl (walk-Expired fuel)
    where
      batch :
          (l : List Event)
          → ahead rule.types cutoff_id cursor rows ≡ l
          → ((c : Option ℕ) (n : ℕ × ℕ) (r : List Event) (b : Archive)
              → IsIncreasing r
              → length (ahead rule.types cutoff_id c r) < fuel
              → Expired rule.archive
                  (todo rule.types cutoff_id c r)
                  n
                  (spared rule.types cutoff_id c r)
                  b
                  (walk disk rule cutoff_id fuel c n r b))
          → Expired rule.archive
              (todo rule.types cutoff_id cursor rows)
              counts
              (spared rule.types cutoff_id cursor rows)
              a
              (walk disk rule cutoff_id (suc fuel) cursor counts rows a)
      batch [] split more =
          let no_todo =
            sym (todo-ahead cursor rows) ∙ ap (keep (λ x. not (is_protected x))) split in
          let page = query-window rule.types cutoff_id limit size cursor rows in
          rw (page, split, walk)
            (rw no_todo (record {
              succeeds = ground arith;
              rows = sym (
                  keep_rest (λ x. is_after cursor x && is_expendable rule.types cutoff_id x) rows
                    no_todo);
              files = λ m. ground (arith, append-nil (events_of a m));
            }))
      batch (e ∷ es) split more =
          let m = last e (first limit es) in
          let past = advances rule.types cutoff_id limit size cursor rows e es split in
          let fewer =
            ahead_shorter rule.types cutoff_id cursor rows sorted m past e (first limit es)
              (batch_up_to rule.types cutoff_id limit size cursor rows e es sorted split) in
          let ordered =
            keep-IsIncreasing (λ y. not (here rule.types cutoff_id cursor m.id y))
              (here rule.types cutoff_id cursor m.id) rows sorted in
          rw
            (
              query-window rule.types cutoff_id limit size cursor rows,
              split,
              walk,
              batch_chosen rule.types cutoff_id limit size cursor rows e es sorted split,
            )
            (one_batch cursor counts rows a sorted m past fuel (
              more (some m.id) (counted cursor counts rows a sorted m past)
                (left rule.types cutoff_id cursor m.id rows)
                (expired cursor counts rows a sorted m past).archive ordered
                (omega (arith, enough, fewer))))

-- A rule over rows in the order of their ids, with a disk that takes everything, does exactly what it
-- says: the events of its types that are older than its age and not protected are deleted, all others
-- stay, the count is theirs, and if the rule archives, each is appended once to the file of its month,
-- in order.
pub apply_rule-Expired :
    (disk : Disk) (rule : RetentionRule) (now : ℕ) (rows : List Event) (a : Archive)
    → ((b : Archive) (m : ℕ) → disk.broken b m ≡ none)
    → rule.max_age ≤ now
    → IsIncreasing rows
    → Expired rule.archive
        (keep (is_expendable rule.types (min_ulid_at (now - rule.max_age))) rows)
        (0, 0)
        (keep (λ e. not (is_expendable rule.types (min_ulid_at (now - rule.max_age)) e)) rows)
        a
        (apply_rule disk rule now rows a)
unfolding apply_rule cutoff_at
apply_rule-Expired disk rule now rows a works old sorted =
    let in_time : ltb now rule.max_age ≡ false = ground (arith, old) in
    let cutoff_id = min_ulid_at (now - rule.max_age) in
    rw (in_time, apply_rule)
      (walk-Expired disk works rule cutoff_id 499 (omega arith) (suc (length rows)) none (0, 0) rows
        a sorted (omega (arith, length-keep (λ e. true && is_expired rule.types cutoff_id e) rows)))
