-- ===== src/Persistence/Store/Answers.antt =====
-- What a query of src/prodeo/persistence/sqlite.py answers, said without its code.
use mathlib.Core.List.{append-nil}
use command_center.Base.{
  ℕ, zero, suc, ◌+◌, ◌<◌, String, Option, none, some, List, [], ◌∷◌, ◌++◌, Bool, true, false, ◌&&◌,
  leb, nat_Eq, string_Eq, keep, ◌≡◌, refl, ap, sym, ◌∙◌, subst, arith, Bool-cases, inl, inr, ◌⊎◌,
  Option-cases, some_inj,
}
use command_center.Events.Envelope.{Event}
use command_center.Bus.{matches}
use command_center.Persistence.Store.{
  EventQuery, Order, asc, desc, is_after, is_before, in_session, from_node, descending, ordered,
  collect, query,
}
use command_center.Persistence.Store.Paging.{keep-keep, keep-append}

-- What the query asks of an event. A part that is not given asks nothing.
pub record Meets (q : EventQuery) (e : Event) : Type 0 where
  pub later : (n : ℕ) → q.after_id ≡ some n → n < e.id
  pub earlier : (n : ℕ) → q.before_id ≡ some n → e.id < n
  pub session : (sid : ℕ) → q.session_id ≡ some sid → e.session_id ≡ some sid
  pub node : (node : String) → q.node ≡ some node → e.node ≡ node
  pub type : matches q.type_pattern e.type ≡ true

-- The first so many of the rows that meet the query, and no other.
abbrev pub Answers : EventQuery → ℕ → List Event → List Event → Type 0
Answers q zero rows found = found ≡ []
Answers q (suc n) [] found = found ≡ []
Answers q (suc n) (e ∷ es) found =
    (Meets q e × (rest : List Event) × Answers q n es rest × (found ≡ e ∷ rest))
    ⊎ ((¬ Meets q e) × Answers q (suc n) es found)

-- The WHERE clauses.
abbrev where_clauses : EventQuery → Event → Bool
where_clauses q e =
    ((is_after q.after_id e && is_before q.before_id e) && in_session q.session_id e)
    && from_node q.node e

after_iff :
    (o : Option ℕ) (e : Event)
    → (is_after o e ≡ true → (n : ℕ) → o ≡ some n → n < e.id)
      × (((n : ℕ) → o ≡ some n → n < e.id) → is_after o e ≡ true)
after_iff none e = (λ t n h. cc h, λ f. refl)
after_iff (some m) e = (
  λ t n h. (let same = some_inj h in ground (arith, t, same)),
  λ f. (let lt = f m refl in ground (arith, lt)),
)

before_iff :
    (o : Option ℕ) (e : Event)
    → (is_before o e ≡ true → (n : ℕ) → o ≡ some n → e.id < n)
      × (((n : ℕ) → o ≡ some n → e.id < n) → is_before o e ≡ true)
before_iff none e = (λ t n h. cc h, λ f. refl)
before_iff (some m) e = (
  λ t n h. (let same = some_inj h in ground (arith, t, same)),
  λ f. (let lt = f m refl in ground (arith, lt)),
)

node_iff :
    (o : Option String) (e : Event)
    → (from_node o e ≡ true → (n : String) → o ≡ some n → e.node ≡ n)
      × (((n : String) → o ≡ some n → e.node ≡ n) → from_node o e ≡ true)
node_iff none e = (λ t n h. cc h, λ f. refl)
node_iff (some m) e = (
  λ t n h. (string_Eq.equal_iff e.node m).0 t ∙ some_inj h,
  λ f. (string_Eq.equal_iff e.node m).1 (f m refl),
)

session_iff :
    (o : Option ℕ) (e : Event)
    → (in_session o e ≡ true → (n : ℕ) → o ≡ some n → e.session_id ≡ some n)
      × (((n : ℕ) → o ≡ some n → e.session_id ≡ some n) → in_session o e ≡ true)
session_iff none e = (λ t n h. cc h, λ f. refl)
session_iff (some m) e = elim (Option-cases e.session_id) [
  | inl no_session ↦
      (λ t n h. absurd (cc (rw no_session at t)), λ f. absurd (cc (no_session, f m refl)))
  | inr (sid, its) ↦ (
    λ t n h. its ∙ ap some ((nat_Eq.equal_iff sid m).0 (rw its at t)) ∙ h,
    λ f. rw its ((nat_Eq.equal_iff sid m).1 (some_inj (sym its ∙ f m refl))),
  )
]

Meets-cases :
    (q : EventQuery) (e : Event)
    → ((where_clauses q e ≡ true) × (matches q.type_pattern e.type ≡ true) × Meets q e)
      ⊎ (((where_clauses q e && matches q.type_pattern e.type) ≡ false) × ¬ Meets q e)
Meets-cases q e = elim (Bool-cases (where_clauses q e && matches q.type_pattern e.type)) [
  | inr out ↦ inr (
    out,
    λ m.
        (let a = (after_iff q.after_id e).1 m.later in
          let b = (before_iff q.before_id e).1 m.earlier in
          let c = (session_iff q.session_id e).1 m.session in
          let d = (node_iff q.node e).1 m.node in cc (rw (a, b, c, d, m.type) at out)),
  )
  | inl all ↦
      let a : is_after q.after_id e ≡ true = ground (arith, all) in
      let b : is_before q.before_id e ≡ true = ground (arith, all) in
      let c : in_session q.session_id e ≡ true = ground (arith, all) in
      let d : from_node q.node e ≡ true = ground (arith, all) in
      let t : matches q.type_pattern e.type ≡ true = ground (arith, all) in
      inl (
        rw (a, b, c, d) refl,
        t,
        record {
          later = (after_iff q.after_id e).0 a;
          earlier = (before_iff q.before_id e).0 b;
          session = (session_iff q.session_id e).0 c;
          node = (node_iff q.node e).0 d;
          type = t;
        },
      )
]

passed_over :
    (q : EventQuery) (limit found : ℕ) (e : Event) (es : List Event)
    → (where_clauses q e && matches q.type_pattern e.type) ≡ false
    → collect q.type_pattern limit found (keep (where_clauses q) (e ∷ es))
      ≡ collect q.type_pattern limit found (keep (where_clauses q) es)
unfolding collect
passed_over q limit found e es out = elim (Bool-cases (where_clauses q e)) [
  | inr skipped ↦ rw skipped refl
  | inl read ↦
      let unfit : matches q.type_pattern e.type ≡ false = ground (arith, out, read) in
      rw (read, unfit) refl
]

collect-Answers :
    (q : EventQuery) (n limit found : ℕ) (es : List Event)
    → limit ≡ found + suc n
    → Answers q (suc n) es (collect q.type_pattern limit found (keep (where_clauses q) es))
unfolding collect
collect-Answers q n limit found [] size = refl
collect-Answers q zero limit found (e ∷ es) size = elim (Meets-cases q e) [
  | inr (out, never) ↦ inr (
    never,
    subst (Answers q 1 es) (sym (passed_over q limit found e es out))
        (collect-Answers q zero limit found es size),
  )
  | inl (wanted, fits, m) ↦
      let full : leb limit (found + 1) ≡ true = ground (arith, size) in
      inl (m, [], refl, rw (wanted, fits, full) refl)
]
collect-Answers q (suc n) limit found (e ∷ es) size = elim (Meets-cases q e) [
  | inr (out, never) ↦ inr (
    never,
    subst (Answers q (suc (suc n)) es) (sym (passed_over q limit found e es out))
        (collect-Answers q (suc n) limit found es size),
  )
  | inl (wanted, fits, m) ↦
      let more : leb limit (found + 1) ≡ false = ground (arith, size) in
      inl (
        m,
        collect q.type_pattern limit (found + 1) (keep (where_clauses q) es),
        collect-Answers q n limit (found + 1) es (omega (arith, size)),
        rw (wanted, fits, more) refl,
      )
]

descending-keep :
    (p : Event → Bool) (es : List Event) → descending (keep p es) ≡ keep p (descending es)
unfolding descending
descending-keep p [] = refl
descending-keep p (e ∷ es) = elim (Bool-cases (p e)) [
  | inl in_ ↦
      rw (in_, keep-append p (descending es) (e ∷ []), in_)
        (ap (λ l. l ++ e ∷ []) (descending-keep p es))
  | inr out ↦
      rw (out, keep-append p (descending es) (e ∷ []), out)
        (descending-keep p es ∙ sym (append-nil (keep p (descending es))))
]

ordered-keep :
    (p : Event → Bool) (o : Order) (es : List Event) → ordered o (keep p es) ≡ keep p (ordered o es)
ordered-keep p asc es = refl
ordered-keep p desc es = descending-keep p es

all_clauses :
    (q : EventQuery) (rows : List Event)
    → keep (from_node q.node) (
        keep
          (in_session q.session_id)
          (keep (is_before q.before_id) (keep (is_after q.after_id) rows)))
      ≡ keep (where_clauses q) rows
all_clauses q rows =
    ap (λ l. keep (from_node q.node) (keep (in_session q.session_id) l))
      (keep-keep (is_before q.before_id) (is_after q.after_id) rows)
    ∙ ap (keep (from_node q.node)) (keep-keep (in_session q.session_id) _ rows)
    ∙ keep-keep (from_node q.node) _ rows

up_to :
    (q : EventQuery) (limit : ℕ) (rows : List Event)
    → 0 < limit
    → Answers q limit rows (collect q.type_pattern limit 0 (keep (where_clauses q) rows))
up_to q zero rows positive = absurd (omega (arith, positive))
up_to q (suc n) rows positive = collect-Answers q n (suc n) 0 rows (omega arith)

-- A query with a limit answers the first so many of the rows, in its order, that meet it.
pub query-Answers :
    (rows : List Event) (q : EventQuery)
    → 0 < q.limit
    → Answers q q.limit (ordered q.order rows) (query rows q)
unfolding query
query-Answers rows q positive =
    subst (λ l. Answers q q.limit (ordered q.order rows) (collect q.type_pattern q.limit 0 l))
      (sym
        (ap (ordered q.order) (all_clauses q rows) ∙ ordered-keep (where_clauses q) q.order rows))
      (up_to q q.limit (ordered q.order rows) positive)
