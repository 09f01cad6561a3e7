-- ===== src/Persistence/Store/Paging.antt =====
-- The paging loop of the rebuilds, over src/prodeo/persistence/sqlite.py, reads the whole log once.
use command_center.Base.{
  ℕ, zero, suc, ◌+◌, ◌≤◌, ◌<◌, String, Option, none, some, List, [], ◌∷◌, ◌++◌, Bool, true, false,
  ◌&&◌, leb, ltb, keep, length, All, ◌≡◌, refl, ap, sym, ◌∙◌, arith, Bool-cases, inl, inr, subst,
}
use command_center.Events.Envelope.{Event}
use command_center.Events.Host.Ids.{IsIncreasing}
use command_center.Bus.{matches}
use command_center.Persistence.Store.{is_after, collect, query, last, page_query, pages}

-- The events of a pattern.
abbrev pub of_type : String → List Event → List Event
of_type pattern rows = keep (λ e. matches pattern e.type) rows

abbrev pub first : ℕ → List Event → List Event
first zero es = []
first (suc n) [] = []
first (suc n) (e ∷ es) = e ∷ first n es

abbrev pub without : ℕ → List Event → List Event
without zero es = es
without (suc n) [] = []
without (suc n) (e ∷ es) = without n es

first-without : (n : ℕ) (es : List Event) → first n es ++ without n es ≡ es
first-without zero es = refl
first-without (suc n) [] = refl
first-without (suc n) (e ∷ es) = ap (λ l. e ∷ l) (first-without n es)

length-without : (n : ℕ) (es : List Event) → length (without n es) ≤ length es
length-without zero es = omega arith
length-without (suc n) [] = omega arith
length-without (suc n) (e ∷ es) = omega (arith, length-without n es)

pub collect-first :
    (pattern : String) (left found : ℕ) (es : List Event)
    → collect pattern (found + suc left) found es ≡ first (suc left) (of_type pattern es)
unfolding collect
collect-first pattern left found [] = refl
collect-first pattern zero found (e ∷ es) = elim (Bool-cases (matches pattern e.type)) [
  | inl fits ↦
      let enough : leb (found + suc zero) (found + 1) ≡ true = ground arith in
      rw (fits, enough) refl
  | inr other ↦ rw other (collect-first pattern zero found es)
]
collect-first pattern (suc left) found (e ∷ es) = elim (Bool-cases (matches pattern e.type)) [
  | inl fits ↦
      let more : leb (found + suc (suc left)) (found + 1) ≡ false = ground arith in
      let same : found + suc (suc left) ≡ found + 1 + suc left = omega arith in
      rw (fits, more)
        (ap (λ l. e ∷ l)
          (ap (λ n. collect pattern n (found + 1) es) same
            ∙ collect-first pattern left (found + 1) es))
  | inr other ↦ rw other (collect-first pattern (suc left) found es)
]

pub keep_all : (es : List Event) → keep (λ e. true) es ≡ es
keep_all [] = refl
keep_all (e ∷ es) = ap (λ l. e ∷ l) (keep_all es)

module _ (p : Event → Bool) where
  pub keep-append : (es fs : List Event) → keep p (es ++ fs) ≡ keep p es ++ keep p fs
  keep-append [] fs = refl
  keep-append (e ∷ es) fs = ground (arith, keep-append es fs)

module _ (p q : Event → Bool) where
  pub keep_swapped : (es : List Event) → keep p (keep q es) ≡ keep q (keep p es)
  keep_swapped [] = refl
  keep_swapped (e ∷ es) = ground (arith, keep_swapped es)

  pub keep-keep : (es : List Event) → keep p (keep q es) ≡ keep (λ e. q e && p e) es
  keep-keep [] = refl
  keep-keep (e ∷ es) = ground (arith, keep-keep es)

  pub keep_same : (es : List Event) → ((e : Event) → p e ≡ q e) → keep p es ≡ keep q es
  keep_same [] same = refl
  keep_same (e ∷ es) same = ground (arith, same e, keep_same es same)

  keep_stronger :
      (es : List Event) → ((e : Event) → p e ≡ true → q e ≡ true) → keep p (keep q es) ≡ keep p es
  keep_stronger [] h = refl
  keep_stronger (e ∷ es) h = ground (arith, keep_stronger es h, h e)

  pub keep-All : (P : Event → Type 0) (es : List Event) → All P es → All P (keep p es)
  keep-All P [] all = tt
  keep-All P (e ∷ es) all = elim (Bool-cases (p e)) [
    | inl in_ ↦ rw in_ (all.0, keep-All P es all.1)
    | inr out ↦ rw out (keep-All P es all.1)
  ]

  pub keep-IsIncreasing : (es : List Event) → IsIncreasing es → IsIncreasing (keep p es)
  keep-IsIncreasing [] v = tt
  keep-IsIncreasing (e ∷ es) v = elim (Bool-cases (p e)) [
    | inl in_ ↦ rw in_ (keep-All (λ x. e.id < x.id) es v.0, keep-IsIncreasing es v.1)
    | inr out ↦ rw out (keep-IsIncreasing es v.1)
  ]

  pub keep_self-All : (es : List Event) → All (λ e. p e ≡ true) (keep p es)
  keep_self-All [] = tt
  keep_self-All (e ∷ es) = elim (Bool-cases (p e)) [
    | inl in_ ↦ rw in_ (in_, keep_self-All es)
    | inr out ↦ rw out (keep_self-All es)
  ]

pub last-All :
    (P : Event → Type 0) (n : ℕ) (e : Event) (es : List Event)
    → All P (e ∷ es)
    → P (last e (first n es))
last-All P zero e es all = all.0
last-All P (suc n) e [] all = all.0
last-All P (suc n) e (x ∷ xs) all = last-All P n x xs all.1

All-after : (n : ℕ) (es : List Event) → All (λ e. n < e.id) es → keep (is_after (some n)) es ≡ es
All-after n [] all = refl
All-after n (e ∷ es) all = ground (arith, all.0, All-after n es all.1)

after_trans :
    (cursor : Option ℕ) (m n : Event)
    → is_after cursor m ≡ true
    → is_after (some m.id) n ≡ true
    → is_after cursor n ≡ true
after_trans none m n h k = refl
after_trans (some c) m n h k = ground (arith, h, k)

-- Past the last of the first page, the rest is left.
after_page :
    (n : ℕ) (e : Event) (es : List Event)
    → IsIncreasing (e ∷ es)
    → keep (is_after (some (last e (first n es)).id)) (e ∷ es) ≡ without n es
after_page zero e es v = ground (arith, All-after e.id es v.0)
after_page (suc n) e [] v = ground arith
after_page (suc n) e (x ∷ xs) v =
    let past : e.id < (last x (first n xs)).id = last-All (λ y. e.id < y.id) n x xs v.0 in
    let out : ltb (last x (first n xs)).id e.id ≡ false = ground (arith, past) in
    rw out (after_page n x xs v.1)

module _ (rows : List Event) (sorted : IsIncreasing rows) (pattern : String) (limit : ℕ) where
  -- What is still to be read.
  abbrev ahead : Option ℕ → List Event
  ahead cursor = keep (is_after cursor) (of_type pattern rows)

  query_page :
      (cursor : Option ℕ)
      → query rows (page_query pattern (suc limit) cursor) ≡ first (suc limit) (ahead cursor)
  unfolding query
  query_page cursor =
      ap (collect pattern (suc limit) 0)
        (keep_all _ ∙ keep_all _ ∙ keep_all (keep (is_after cursor) rows))
      ∙ ap (λ n. collect pattern n 0 (keep (is_after cursor) rows)) zero_plus
      ∙ collect-first pattern limit 0 (keep (is_after cursor) rows)
      ∙ ap (first (suc limit)) (keep_swapped (λ e. matches pattern e.type) (is_after cursor) rows)
    where
      zero_plus : suc limit ≡ 0 + suc limit
      zero_plus = omega arith

  ahead_next :
      (cursor : Option ℕ) (e : Event) (es : List Event)
      → ahead cursor ≡ e ∷ es
      → ahead (some (last e (first limit es)).id) ≡ without limit es
  ahead_next cursor e es split =
      sym (
        keep_stronger (is_after (some (last e (first limit es)).id)) (is_after cursor)
          (of_type pattern rows)
          (λ x later.
            after_trans cursor (last e (first limit es)) x
              (last-All (λ y. is_after cursor y ≡ true) limit e es
                (subst (All (λ y. is_after cursor y ≡ true)) split
                  (keep_self-All (is_after cursor) (is_after cursor) (of_type pattern rows))))
              later))
      ∙ ap (keep (is_after (some (last e (first limit es)).id))) split
      ∙ after_page limit e es (
          subst IsIncreasing split (
            keep-IsIncreasing (is_after cursor) (is_after cursor) (of_type pattern rows)
              (keep-IsIncreasing (λ e. matches pattern e.type) (is_after cursor) rows sorted)))

  pages-ahead :
      (fuel : ℕ) (cursor : Option ℕ)
      → length (ahead cursor) < fuel
      → pages rows pattern (suc limit) fuel cursor ≡ ahead cursor
  unfolding pages
  pages-ahead zero cursor enough = absurd (omega (arith, enough))
  pages-ahead (suc fuel) cursor enough =
      page (ahead cursor) refl (λ next few. pages-ahead fuel next few)
    where
      page :
          (l : List Event)
          → ahead cursor ≡ l
          → ((next : Option ℕ)
              → length (ahead next) < fuel
              → pages rows pattern (suc limit) fuel next ≡ ahead next)
          → pages rows pattern (suc limit) (suc fuel) cursor ≡ ahead cursor
      page [] e more = rw (query_page cursor, e, pages) refl
      page (x ∷ xs) e more =
          let next = ahead_next cursor x xs e in
          let fewer : length (ahead (some (last x (first limit xs)).id)) < fuel =
            rw next (omega (arith, enough, ap length e, length-without limit xs)) in
          rw (query_page cursor, e, pages)
            (ap (λ l. x ∷ first limit xs ++ l)
                (more (some (last x (first limit xs)).id) fewer ∙ next)
              ∙ ap (λ l. x ∷ l) (first-without limit xs))

pub length-keep : (p : Event → Bool) (es : List Event) → length (keep p es) ≤ length es
length-keep p [] = omega arith
length-keep p (e ∷ es) = ground (arith, length-keep p es)

-- A rebuild reads the whole log: over rows in the order of their keys, with any page size but 0, the
-- batches, one after another until one is empty, are all the events of the pattern, each once and in
-- order. One more round than there are rows is enough.
pub pages-of_type :
    (rows : List Event) (pattern : String) (limit : ℕ)
    → IsIncreasing rows
    → pages rows pattern (suc limit) (suc (length rows)) none ≡ of_type pattern rows
pages-of_type rows pattern limit sorted =
    pages-ahead rows sorted pattern limit (suc (length rows)) none (
      omega (
        arith,
        ap length (keep_all (of_type pattern rows)),
        length-keep (λ e. matches pattern e.type) rows,
      ))
    ∙ keep_all (of_type pattern rows)
