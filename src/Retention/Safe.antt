-- ===== src/Retention/Safe.antt =====
-- Retention over a disk that may fail (src/prodeo/persistence/retention.py): what becomes of the events
-- of rules that archive.
use command_center.Base.{
  ℕ, zero, suc, ◌+◌, Option, none, some, List, [], ◌∷◌, Bool, true, false, not, any, keep, length,
  nat_eq, nat_Eq, All, In, In-keep, Result-cases, ◌≡◌, refl, ap, arith, Bool-cases, inl, inr, subst,
}
use command_center.Events.Envelope.{Event}
use command_center.Events.Host.{Host, now, tick}
use command_center.Events.Host.Ids.{IsIncreasing}
use command_center.Persistence.Store.{last, delete_chunk}
use command_center.Persistence.Store.Chunks.{delete_lem}
use command_center.Persistence.Store.Paging.{first, keep-IsIncreasing}
use command_center.Retention.{
  Retention, RetentionRule, Disk, Archive, Counted, batch_size, is_protected, archive_events,
  archive_first, expire, walk, and_then, apply_rule, apply_rules, archive_sessions, run_once,
  cutoff_at, min_ulid_at, ids,
}
use command_center.Retention.Window.{delete_chosen}
use command_center.Retention.Batch.{ahead, here, query-window, batch_chosen}
use command_center.Retention.Written.{
  NothingLost, NothingLost-refl, NothingLost-trans, archive_events-safe,
}

module _ (disk : Disk) where
  -- One batch of a rule that archives: where the writing fails nothing is deleted.
  expire-NothingLost :
      (counts : ℕ × ℕ) (rows : List Event) (a : Archive) (p : Event → Bool)
      → ((e : Event) → p e ≡ true → is_protected e ≡ false)
      → IsIncreasing rows
      → NothingLost rows a
          (expire disk true counts rows a (keep p rows)).rows
          (expire disk true counts rows a (keep p rows)).archive
  unfolding expire archive_first delete_chunk
  expire-NothingLost counts rows a p free sorted = batch (keep p rows) refl
    where
      batch :
          (l : List Event)
          → keep p rows ≡ l
          → NothingLost rows a
              (expire disk true counts rows a l).rows
              (expire disk true counts rows a l).archive
      batch [] e = NothingLost-refl rows a sorted
      batch (x ∷ xs) e =
          let safe = archive_events-safe disk a (x ∷ xs) in
          elim (Result-cases (archive_events disk a (x ∷ xs)).0) [
            | inr (error, fails) ↦
                rw (fails, expire)
                  (record { kept = λ y h. inl h; files = safe.0; ordered = sorted })
            | inl (u, done) ↦
                let gone =
                  subst
                    (λ l.
                      keep (λ y. not (any (λ id. nat_eq id y.id) (ids l))) rows
                      ≡ keep (λ y. not (p y)) rows)
                    e (delete_chosen p rows sorted) in
                rw (done, expire, delete_lem rows (ids (x ∷ xs)), gone)
                  (record {
                    kept = λ y h. elim (Bool-cases (p y)) [
                      | inl chosen ↦ inr (
                        free y chosen,
                        safe.1 done y (subst (In y) e (In-keep p y rows chosen h)),
                      )
                      | inr left ↦ inl (In-keep (λ z. not (p z)) y rows (ap not left) h)
                    ];
                    files = safe.0;
                    ordered = keep-IsIncreasing (λ y. not (p y)) p rows sorted;
                  })
          ]

  and_then-NothingLost :
      (rows : List Event) (a : Archive) (o : Counted)
      (next : ℕ × ℕ → List Event → Archive → Counted)
      → NothingLost rows a o.rows o.archive
      → ((n : ℕ × ℕ)
          → NothingLost o.rows o.archive
              (next n o.rows o.archive).rows
              (next n o.rows o.archive).archive)
      → NothingLost rows a (and_then o next).rows (and_then o next).archive
  unfolding and_then
  and_then-NothingLost rows a o next x y = elim (Result-cases o.result) [
    | inr (error, fails) ↦ rw (fails, and_then) x
    | inl (n, done) ↦
        rw (done, and_then)
          (NothingLost-trans rows o.rows (next n o.rows o.archive).rows a o.archive
            (next n o.rows o.archive).archive x (y n))
  ]

  module _ (rule : RetentionRule) (archives : rule.archive ≡ true) (cutoff_id limit : ℕ)
      (size : batch_size ≡ suc limit) where
    walk-NothingLost :
        (fuel : ℕ) (cursor : Option ℕ) (counts : ℕ × ℕ) (rows : List Event) (a : Archive)
        → IsIncreasing rows
        → NothingLost rows a
            (walk disk rule cutoff_id fuel cursor counts rows a).rows
            (walk disk rule cutoff_id fuel cursor counts rows a).archive
    unfolding walk
    walk-NothingLost zero cursor counts rows a sorted = NothingLost-refl rows a sorted
    walk-NothingLost (suc fuel) cursor counts rows a sorted =
        batch (ahead rule.types cutoff_id cursor rows) refl (walk-NothingLost fuel)
      where
        batch :
            (l : List Event)
            → ahead rule.types cutoff_id cursor rows ≡ l
            → ((c : Option ℕ) (n : ℕ × ℕ) (r : List Event) (b : Archive)
                → IsIncreasing r
                → NothingLost r b
                    (walk disk rule cutoff_id fuel c n r b).rows
                    (walk disk rule cutoff_id fuel c n r b).archive)
            → NothingLost rows a
                (walk disk rule cutoff_id (suc fuel) cursor counts rows a).rows
                (walk disk rule cutoff_id (suc fuel) cursor counts rows a).archive
        batch [] split more =
            rw (query-window rule.types cutoff_id limit size cursor rows, split, walk)
              (NothingLost-refl rows a sorted)
        batch (e ∷ es) split more =
            let m = last e (first limit es) in
            let p : (Event → Bool) = here rule.types cutoff_id cursor m.id in
            let x = expire-NothingLost counts rows a p (λ y in_. ground (arith, in_)) sorted in
            rw
              (
                query-window rule.types cutoff_id limit size cursor rows,
                split,
                walk,
                batch_chosen rule.types cutoff_id limit size cursor rows e es sorted split,
                archives,
              )
              (and_then-NothingLost rows a (expire disk true counts rows a (keep p rows))
                (walk disk rule cutoff_id fuel (some m.id)) x
                (λ n. more (some m.id) n _ _ x.ordered))

  apply_rule-NothingLost :
      (rule : RetentionRule) (now : ℕ) (rows : List Event) (a : Archive)
      → rule.archive ≡ true
      → IsIncreasing rows
      → NothingLost rows a
          (apply_rule disk rule now rows a).rows
          (apply_rule disk rule now rows a).archive
  unfolding apply_rule
  apply_rule-NothingLost rule now rows a archives sorted =
      elim (Result-cases (cutoff_at now rule.max_age)) [
        | inr (error, fails) ↦ rw (fails, apply_rule) (NothingLost-refl rows a sorted)
        | inl (cutoff, done) ↦
            rw (done, apply_rule)
              (walk-NothingLost rule archives (min_ulid_at cutoff) 499 (omega arith)
                (suc (length rows)) none (0, 0) rows a sorted)
      ]

  apply_rules-NothingLost :
      (rules : List RetentionRule) (now : ℕ) (counts : ℕ × ℕ) (rows : List Event) (a : Archive)
      → All (λ rule. rule.archive ≡ true) rules
      → IsIncreasing rows
      → NothingLost rows a
          (apply_rules disk rules now counts rows a).rows
          (apply_rules disk rules now counts rows a).archive
  unfolding apply_rules
  apply_rules-NothingLost [] now counts rows a archive sorted = NothingLost-refl rows a sorted
  apply_rules-NothingLost (rule ∷ rules) now counts rows a archive sorted =
      let x = apply_rule-NothingLost rule now rows a archive.0 sorted in
      and_then-NothingLost rows a (apply_rule disk rule now rows a)
        (λ n. apply_rules disk rules now (counts.0 + n.0, counts.1 + n.1)) x
        (λ n.
          apply_rules-NothingLost rules now (counts.0 + n.0, counts.1 + n.1) _ _ archive.1
            x.ordered)

-- Whatever the disk refuses, in the middle of any rule: if all rules archive, then after a pass each event
-- that was in the log is still there, or it is of no protected namespace and the archive file of its
-- month holds it; and no archive file has lost an event.
pub run_once-NothingLost :
    (disk : Disk) (h : Host) (t : Retention)
    → All (λ rule. rule.archive ≡ true) t.rules
    → IsIncreasing t.rows
    → NothingLost t.rows t.archive
        (run_once disk h t).retention.rows
        (run_once disk h t).retention.archive
unfolding run_once
run_once-NothingLost disk h t archive sorted =
    let x = apply_rules-NothingLost disk t.rules (now h) (0, 0) t.rows t.archive archive sorted in
    elim (Result-cases (apply_rules disk t.rules (now h) (0, 0) t.rows t.archive).result) [
      | inr (error, fails) ↦ rw (fails, run_once) x
      | inl (n, done) ↦
          elim (Result-cases
            (archive_sessions t.node t.archive_sessions_after (now h) (tick h) t.registry).result) [
              | inr (error, fails) ↦ rw (done, run_once, fails) x
              | inl (k, counted) ↦ rw (done, run_once, counted) x
            ]
    ]
