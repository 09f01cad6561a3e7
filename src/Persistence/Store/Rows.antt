-- ===== src/Persistence/Store/Rows.antt =====
-- The writes of src/prodeo/persistence/sqlite.py and its queries: the writes seen through the lookup of a row by its id.
use command_center.Base.{
  ℕ, ◌+◌, ◌<◌, Option, none, some, nat_eq_iff, if◌then◌else◌, true, false, In, sym, ◌∙◌, subst,
  length, List, [], ◌∷◌, any, ltb, nat_eq, keep, All, ◌≡◌, refl, ap, arith, Bool-cases, inl, inr,
}
use command_center.Events.Envelope.{Event}
use command_center.Events.Host.Ids.{IsIncreasing}
use command_center.Persistence.Store.{EventQuery, append, delete_chunk, delete, query, ordered}
use command_center.Persistence.Store.Answers.{Answers, query-Answers}
use command_center.Persistence.Store.Paging.{length-keep, keep-IsIncreasing}
use command_center.Persistence.Store.Chunks.{others, delete_lem}

append-All :
    (P : Event → Type 0) (rows : List Event) (e : Event) → All P rows → P e → All P (append rows e)
unfolding append
append-All P [] e all p = (p, tt)
append-All P (row ∷ rows) e all p = elim (Bool-cases (ltb e.id row.id)) [
  | inl first ↦ rw first (p, all)
  | inr after ↦ elim (Bool-cases (nat_eq e.id row.id)) [
    | inl there ↦ rw (after, there) all
    | inr later ↦ rw (after, later) (all.0, append-All P rows e all.1 p)
  ]
]

above : (n k : ℕ) (rows : List Event) → n < k → All (λ x. k < x.id) rows → All (λ x. n < x.id) rows
above n k [] lt all = tt
above n k (x ∷ rows) lt all = (omega (arith, lt, all.0), above n k rows lt all.1)

append-IsIncreasing :
    (rows : List Event) (e : Event) → IsIncreasing rows → IsIncreasing (append rows e)
unfolding append
append-IsIncreasing [] e v = (tt, tt)
append-IsIncreasing (row ∷ rows) e v = elim (Bool-cases (ltb e.id row.id)) [
  | inl first ↦
      let lt : e.id < row.id = ground (arith, first) in
      rw first ((lt, above e.id row.id rows lt v.0), v)
  | inr after ↦ elim (Bool-cases (nat_eq e.id row.id)) [
    | inl there ↦ rw (after, there) v
    | inr later ↦
        rw (after, later)
          (
            append-All (λ x. row.id < x.id) rows e v.0 (ground (arith, after, later)),
            append-IsIncreasing rows e v.1,
          )
  ]
]

append_twice : (rows : List Event) (e : Event) → append (append rows e) e ≡ append rows e
unfolding append
append_twice [] e = ground arith
append_twice (row ∷ rows) e = elim (Bool-cases (ltb e.id row.id)) [
  | inl first ↦ rw first (ground arith)
  | inr after ↦ elim (Bool-cases (nat_eq e.id row.id)) [
    | inl there ↦ rw (after, there, after, there) refl
    | inr later ↦ rw (after, later, after, later) (ap (λ l. row ∷ l) (append_twice rows e))
  ]
]

-- The row with an id.
unfoldable pub row_of : ℕ → List Event → Option Event
row_of id [] = none
row_of id (row ∷ rows) = if nat_eq row.id id then some row else row_of id rows

-- What writing an event promises: a row that is there stays as it is, the event takes the place of none,
-- no other id is touched, and writing it again changes nothing.
pub record Appended (rows : List Event) (e : Event) (rows' : List Event) : Type 0 where
  pub kept : (id : ℕ) (row : Event) → row_of id rows ≡ some row → row_of id rows' ≡ some row
  pub added : row_of e.id rows ≡ none → row_of e.id rows' ≡ some e
  pub untouched : (id : ℕ) → ¬ (e.id ≡ id) → row_of id rows' ≡ row_of id rows
  pub again : append rows' e ≡ rows'
  pub ordered : IsIncreasing rows'

-- What deleting ids promises: the rows of these ids are gone, each other one is still there, and the
-- number of the rows that went is returned.
pub record Deleted (rows : List Event) (ids : List ℕ) (o : ℕ × List Event) : Type 0 where
  pub gone : (id : ℕ) → In id ids → row_of id o.1 ≡ none
  pub untouched : (id : ℕ) → ¬ In id ids → row_of id o.1 ≡ row_of id rows
  pub counted : o.0 + length o.1 ≡ length rows
  pub ordered : IsIncreasing o.1

absent : (id : ℕ) (rows : List Event) → All (λ x. id < x.id) rows → row_of id rows ≡ none
unfolding row_of
absent id [] all = refl
absent id (row ∷ rows) all = ground (arith, all.0, absent id rows all.1)

row_of-append_other :
    (rows : List Event) (e : Event) (id : ℕ)
    → nat_eq e.id id ≡ false
    → row_of id (append rows e) ≡ row_of id rows
unfolding append row_of
row_of-append_other [] e id other = ground (arith, other)
row_of-append_other (row ∷ rows) e id other =
    ground (arith, other, row_of-append_other rows e id other)

row_of-append_new :
    (rows : List Event) (e : Event) → row_of e.id rows ≡ none → row_of e.id (append rows e) ≡ some e
unfolding append row_of
row_of-append_new [] e free = ground arith
row_of-append_new (row ∷ rows) e free = elim (Bool-cases (nat_eq row.id e.id)) [
  | inl same ↦ absurd (cc (rw same at free))
  | inr other ↦ ground (arith, other, row_of-append_new rows e (rw other at free))
]

row_of-append_there :
    (rs : List Event) (x r : Event)
    → IsIncreasing rs
    → row_of x.id rs ≡ some r
    → row_of x.id (append rs x) ≡ some r
unfolding append row_of
row_of-append_there [] x r w there = absurd (cc there)
row_of-append_there (y ∷ ys) x r w there = elim (Bool-cases (ltb x.id y.id)) [
  | inl first ↦
      let lt : x.id < y.id = ground (arith, first) in
      absurd (cc (absent x.id (y ∷ ys) (lt, above x.id y.id ys lt w.0), there))
  | inr after ↦ elim (Bool-cases (nat_eq y.id x.id)) [
    | inl same ↦ ground (arith, after, same, there)
    | inr other ↦ ground (arith, after, other, row_of-append_there ys x r w.1 (rw other at there))
  ]
]

row_of-append_kept :
    (rows : List Event) (e : Event) (id : ℕ) (row : Event)
    → IsIncreasing rows
    → row_of id rows ≡ some row
    → row_of id (append rows e) ≡ some row
row_of-append_kept rows e id row v found = elim (Bool-cases (nat_eq e.id id)) [
  | inr other ↦ row_of-append_other rows e id other ∙ found
  | inl same ↦
      let q = (nat_eq_iff e.id id).0 same in
      subst (λ j. row_of j (append rows e) ≡ some row) q
        (row_of-append_there rows e row v (subst (λ j. row_of j rows ≡ some row) (sym q) found))
]

append-Appended :
    (rows : List Event) (e : Event) → IsIncreasing rows → Appended rows e (append rows e)
append-Appended rows e v = record {
  kept = λ id row found. row_of-append_kept rows e id row v found;
  added = row_of-append_new rows e;
  untouched = λ id other. row_of-append_other rows e id (elim (Bool-cases (nat_eq e.id id)) [
    | inl same ↦ absurd (other ((nat_eq_iff e.id id).0 same))
    | inr ne ↦ ne
  ]);
  again = append_twice rows e;
  ordered = append-IsIncreasing rows e v;
}

In-any : (id : ℕ) (ids : List ℕ) → In id ids → any (λ j. nat_eq j id) ids ≡ true
In-any id [] listed = absurd listed
In-any id (j ∷ ids) (inl same) = ground (arith, same)
In-any id (j ∷ ids) (inr later) = ground (arith, In-any id ids later)

any-In : (id : ℕ) (ids : List ℕ) → any (λ j. nat_eq j id) ids ≡ true → In id ids
any-In id [] h = absurd (cc h)
any-In id (j ∷ ids) h = elim (Bool-cases (nat_eq j id)) [
  | inl same ↦ inl (ground (arith, same))
  | inr other ↦ inr (any-In id ids (rw other at h))
]

row_of-others :
    (ids : List ℕ) (rows : List Event) (id : ℕ)
    → row_of id (keep (others ids) rows)
      ≡ (if any (λ j. nat_eq j id) ids then none else row_of id rows)
unfolding row_of
row_of-others ids [] id = ground arith
row_of-others ids (row ∷ rows) id = elim (Bool-cases (nat_eq row.id id)) [
  | inl same ↦
      let q : any (λ j. nat_eq j row.id) ids ≡ any (λ j. nat_eq j id) ids =
        ap (λ k. any (λ j. nat_eq j k) ids) ((nat_eq_iff row.id id).0 same) in
      ground (arith, same, q, row_of-others ids rows id)
  | inr other ↦ ground (arith, other, row_of-others ids rows id)
]

delete-Deleted :
    (rows : List Event) (ids : List ℕ) → IsIncreasing rows → Deleted rows ids (delete rows ids)
unfolding delete_chunk
delete-Deleted rows ids v = rw (delete_lem rows ids) (record {
  gone = λ id listed. rw (row_of-others ids rows id, In-any id ids listed) refl;
  untouched = λ id other. elim (Bool-cases (any (λ j. nat_eq j id) ids)) [
    | inl listed ↦ absurd (other (any-In id ids listed))
    | inr free ↦ rw (row_of-others ids rows id, free) refl
  ];
  counted = omega (arith, length-keep (others ids) rows);
  ordered = keep-IsIncreasing (others ids) (others ids) rows v;
})

-- From rows in the order of their ids, looking up an id tells what a write does. Appending an event adds
-- it under its own id if that is free, keeps the row that is there if not, touches no other id, and
-- changes nothing when it is repeated. Deleting ids, in chunks of 500, leaves no row of theirs and each
-- other one, and returns how many rows went. Both keep the order, with each id once. And a query with a
-- limit answers the first so many of the rows, in ascending or descending order, that meet it: that are
-- between its ids, of its session, node and types.
pub store-Serves :
    (rows : List Event) (e : Event) (ids : List ℕ) (q : EventQuery)
    → IsIncreasing rows
    → 0 < q.limit
    → Appended rows e (append rows e)
      × Deleted rows ids (delete rows ids)
      × Answers q q.limit (ordered q.order rows) (query rows q)
store-Serves rows e ids q v positive =
    (append-Appended rows e v, delete-Deleted rows ids v, query-Answers rows q positive)
