-- ===== src/Retention/Batch.antt =====
-- A batch of `_apply_rule` in src/prodeo/persistence/retention.py: the first rows ahead of the cursor, and
-- what is ahead once its expendable rows are gone.
use command_center.Base.{
  ℕ, suc, ◌<◌, String, Option, none, some, List, [], ◌∷◌, ◌++◌, Bool, true, not, ◌&&◌, keep, length,
  length-append, All, leb, ltb, ◌≡◌, refl, ap, sym, ◌∙◌, arith, Bool-cases, inl, inr, subst,
}
use command_center.Events.Envelope.{Event}
use command_center.Events.Host.Ids.{IsIncreasing}
use command_center.Bus.{matches}
use command_center.Persistence.Store.{is_after, collect, query, last}
use command_center.Persistence.Store.Paging.{
  first, keep-keep, keep_same, collect-first, keep_all, keep_swapped, keep-IsIncreasing, last-All,
  length-keep,
}
use command_center.Retention.{window, batch_size, is_protected}
use command_center.Retention.Window.{keep_cut, first-up_to}

-- What a rule asks of an event: that it is of its types and older than the cutoff, and not protected.
module _ (types : String) (cutoff_id : ℕ) where
  abbrev pub is_expired : Event → Bool
  is_expired e = ltb e.id cutoff_id && matches types e.type

  abbrev pub is_expendable : Event → Bool
  is_expendable e = is_expired e && not (is_protected e)

  abbrev pub ahead : Option ℕ → List Event → List Event
  ahead cursor rows = keep (λ e. is_after cursor e && is_expired e) rows

  abbrev pub todo : Option ℕ → List Event → List Event
  todo cursor rows = keep (λ e. is_after cursor e && is_expendable e) rows

  abbrev pub spared : Option ℕ → List Event → List Event
  spared cursor rows = keep (λ e. not (is_after cursor e && is_expendable e)) rows

  -- What a batch up to an id deletes, and what it leaves.
  abbrev pub here : Option ℕ → ℕ → Event → Bool
  here cursor id x = (is_after cursor x && is_expendable x) && leb x.id id

  abbrev pub left : Option ℕ → ℕ → List Event → List Event
  left cursor id rows = keep (λ x. not (here cursor id x)) rows

  in_order :
      (cursor : Option ℕ) (rows : List Event)
      → keep
          (λ e. matches types e.type)
          (keep (λ e. ltb e.id cutoff_id) (keep (is_after cursor) rows))
        ≡ ahead cursor rows
  in_order cursor rows =
      keep-keep (λ e. matches types e.type) (λ e. ltb e.id cutoff_id) (keep (is_after cursor) rows)
      ∙ keep-keep is_expired (is_after cursor) rows

  module _ (cursor : Option ℕ) (rows : List Event) (sorted : IsIncreasing rows) (m : Event)
      (past : is_after cursor m ≡ true) where
    -- The cursor moves on over what it has passed.
    later_only : (x : Event) → is_after (some m.id) x ≡ true → is_after cursor x ≡ true
    later_only x h = past_both cursor past
      where
        past_both : (c : Option ℕ) → is_after c m ≡ true → is_after c x ≡ true
        past_both none k = refl
        past_both (some n) k = ground (arith, h, k)

    todo-left :
        todo (some m.id) (left cursor m.id rows)
        ≡ keep (λ x. (is_after cursor x && is_expendable x) && not (leb x.id m.id)) rows
    todo-left =
        keep-keep (λ x. is_after (some m.id) x && is_expendable x) (λ x. not (here cursor m.id x))
          rows
        ∙ keep_same _ _ rows (λ x. ground (arith, later_only x))

    pub todo_cut :
        todo cursor rows ≡ keep (here cursor m.id) rows ++ todo (some m.id) (left cursor m.id rows)
    todo_cut =
        keep_cut (λ x. is_after cursor x && is_expendable x) m.id rows sorted
        ∙ ap (λ l. keep (here cursor m.id) rows ++ l) (sym todo-left)

    pub spared-left : spared (some m.id) (left cursor m.id rows) ≡ spared cursor rows
    spared-left =
        keep-keep (λ x. not (is_after (some m.id) x && is_expendable x))
          (λ x. not (here cursor m.id x)) rows
        ∙ keep_same _ _ rows (λ x. ground (arith, later_only x))

    -- What is ahead gets shorter by the batch.
    pub ahead_shorter :
        (e : Event) (es : List Event)
        → e ∷ es ≡ keep (λ x. (is_after cursor x && is_expired x) && leb x.id m.id) rows
        → length (ahead (some m.id) (left cursor m.id rows)) < length (ahead cursor rows)
    ahead_shorter e es batch =
        let cut = keep_cut (λ x. is_after cursor x && is_expired x) m.id rows sorted in
        let rest : List Event =
          keep (λ x. (is_after cursor x && is_expired x) && not (leb x.id m.id)) rows in
        let same : keep (λ x. is_after (some m.id) x && is_expired x) rows ≡ rest =
          keep_same _ _ rows (λ x. ground (arith, later_only x)) in
        omega (
          arith,
          ap length cut,
          length-append (keep (λ x. (is_after cursor x && is_expired x) && leb x.id m.id) rows)
              rest,
          ap length batch,
          ap length same,
          ap length (
              keep_swapped (λ x. is_after (some m.id) x && is_expired x)
                (λ x. not (here cursor m.id x)) rows),
          length-keep (λ x. not (here cursor m.id x))
              (keep (λ x. is_after (some m.id) x && is_expired x) rows),
        )

  module _ (limit : ℕ) (size : batch_size ≡ suc limit) where
    pub query-window :
        (cursor : Option ℕ) (rows : List Event)
        → query rows (window types cutoff_id cursor) ≡ first (suc limit) (ahead cursor rows)
    unfolding query
    query-window cursor rows =
        let l : List Event = keep (λ e. ltb e.id cutoff_id) (keep (is_after cursor) rows) in
        ap (collect types batch_size 0) (keep_all _ ∙ keep_all l)
        ∙ ap (λ n. collect types n 0 l) (omega (arith, size))
        ∙ collect-first types limit 0 l
        ∙ ap (first (suc limit)) (in_order cursor rows)

    -- A batch is what is ahead up to its last id.
    pub batch_up_to :
        (cursor : Option ℕ) (rows : List Event) (e : Event) (es : List Event)
        → IsIncreasing rows
        → ahead cursor rows ≡ e ∷ es
        → e ∷ first limit es
          ≡ keep
              (λ x. (is_after cursor x && is_expired x) && leb x.id (last e (first limit es)).id)
              rows
    batch_up_to cursor rows e es sorted split =
        sym (
          first-up_to limit e es (
            subst IsIncreasing split
              (keep-IsIncreasing (λ x. is_after cursor x && is_expired x) is_expired rows sorted)))
        ∙ ap (keep (λ x. leb x.id (last e (first limit es)).id)) (sym split)
        ∙ keep-keep (λ x. leb x.id (last e (first limit es)).id)
            (λ x. is_after cursor x && is_expired x) rows

    -- What a batch lets go of.
    pub batch_chosen :
        (cursor : Option ℕ) (rows : List Event) (e : Event) (es : List Event)
        → IsIncreasing rows
        → ahead cursor rows ≡ e ∷ es
        → keep (λ x. not (is_protected x)) (e ∷ first limit es)
          ≡ keep (here cursor (last e (first limit es)).id) rows
    batch_chosen cursor rows e es sorted split =
        ap (keep (λ x. not (is_protected x))) (batch_up_to cursor rows e es sorted split)
        ∙ keep-keep (λ x. not (is_protected x))
            (λ x. (is_after cursor x && is_expired x) && leb x.id (last e (first limit es)).id) rows
        ∙ keep_same _ _ rows (λ x. ground arith)

    -- The last id of a batch is past the cursor.
    pub advances :
        (cursor : Option ℕ) (rows : List Event) (e : Event) (es : List Event)
        → ahead cursor rows ≡ e ∷ es
        → is_after cursor (last e (first limit es)) ≡ true
    advances cursor rows e es split =
        last-All (λ x. is_after cursor x ≡ true) limit e es
          (subst (All (λ x. is_after cursor x ≡ true)) split (afters rows))
      where
        afters : (l : List Event) → All (λ x. is_after cursor x ≡ true) (ahead cursor l)
        afters [] = tt
        afters (x ∷ xs) = elim (Bool-cases (is_after cursor x && is_expired x)) [
          | inl in_ ↦ rw in_ (ground (arith, in_), afters xs)
          | inr out ↦ rw out (afters xs)
        ]
