-- ===== src/Bus/Newest.antt =====
-- A subscriber of src/prodeo/bus/inproc.py that drops the oldest never makes the publisher wait, and holds
-- the newest events of its pattern, in their order.
use command_center.Base.{
  ℕ, zero, suc, ◌-◌, ◌≤◌, ◌<◌, String, Option, none, some, List, [], ◌∷◌, ◌++◌, map, ltb, keep,
  length, length-append, if◌then◌else◌, ◌≡◌, refl, ap, sym, ◌∙◌, arith, Bool-cases, inl, inr,
}
use command_center.Events.Envelope.{Event}
use command_center.Bus.{
  Subscription, Item, event, drop_oldest, matches, full, make_room, with_queue, deliver,
  new_subscription,
}

-- All the events that are published, one after another, to one subscriber whose queue is not read.
unfoldable pub deliver_all : Subscription → List Event → Option Subscription
deliver_all sub [] = some sub
deliver_all sub (e ∷ es) =
    let skipped = deliver_all sub es in
    if matches sub.pattern e.type
    then elim (deliver sub e) [ none ↦ none | some sub' ↦ deliver_all sub' es ]
    else skipped

abbrev pub drop : ℕ → List Item → List Item
drop zero xs = xs
drop (suc n) [] = []
drop (suc n) (x ∷ xs) = drop n xs

-- The last so many of a list.
unfoldable pub newest : ℕ → List Item → List Item
newest n xs = drop (length xs - n) xs

abbrev tail : List Item → List Item
tail [] = []
tail (x ∷ xs) = xs

room_left : (n : ℕ) (q : List Item) → length q < n → make_room n q ≡ q
unfolding make_room
room_left n [] lt = refl
room_left n (x ∷ q) lt = ground (arith, lt)

room_made : (n : ℕ) (q : List Item) → 0 < n → length q ≡ n → make_room n q ≡ tail q
unfolding make_room
room_made n [] pos same = refl
room_made n (x ∷ q) pos same = elim (Bool-cases (full n (x ∷ q))) [
  | inl is_full ↦ rw is_full (room_left n q (omega (arith, same)))
  | inr not_full ↦ absurd (ground (arith, pos, same, not_full))
]

length-drop : (k : ℕ) (xs : List Item) → length (drop k xs) ≡ length xs - k
length-drop zero xs = omega arith
length-drop (suc k) [] = omega arith
length-drop (suc k) (x ∷ xs) = length-drop k xs ∙ omega arith

drop-snoc :
    (k : ℕ) (xs : List Item) (x : Item)
    → k < length xs
    → drop (suc k) (xs ++ x ∷ []) ≡ tail (drop k xs) ++ x ∷ []
drop-snoc k [] x lt = absurd (omega (arith, lt))
drop-snoc zero (y ∷ xs) x lt = refl
drop-snoc (suc k) (y ∷ xs) x lt = drop-snoc k xs x (omega (arith, lt))

newest-snoc :
    (n : ℕ) (xs : List Item) (x : Item)
    → 0 < n
    → make_room n (newest n xs) ++ x ∷ [] ≡ newest n (xs ++ x ∷ [])
unfolding newest
newest-snoc n xs x pos = elim (Bool-cases (ltb (length xs) n)) [
  | inl few ↦
      let lt : length xs < n = ground (arith, few) in
      let z : length xs - n ≡ 0 = omega (arith, lt) in
      let z' : length (xs ++ x ∷ []) - n ≡ 0 = omega (arith, lt, length-append xs (x ∷ [])) in
      rw (z, z') (ap (λ q. q ++ x ∷ []) (room_left n xs lt))
  | inr many ↦
      let le : n ≤ length xs = ground (arith, many) in
      let z' : length (xs ++ x ∷ []) - n ≡ suc (length xs - n) =
        omega (arith, le, length-append xs (x ∷ [])) in
      rw z' (
        ap (λ q. q ++ x ∷ [])
          (room_made n (drop (length xs - n) xs) pos
            (length-drop (length xs - n) xs ∙ omega (arith, le)))
        ∙ sym (drop-snoc (length xs - n) xs x (omega (arith, le, pos))))
]

-- The events of a pattern, as a queue holds them.
unfoldable pub of_pattern : String → List Event → List Item
of_pattern pattern es = map event (keep (λ e. matches pattern e.type) es)

append_one : (xs : List Item) (y : Item) (zs : List Item) → (xs ++ y ∷ []) ++ zs ≡ xs ++ y ∷ zs
append_one [] y zs = refl
append_one (x ∷ xs) y zs = ap (λ l. x ∷ l) (append_one xs y zs)

append_none : (xs : List Item) → xs ++ [] ≡ xs
append_none [] = refl
append_none (x ∷ xs) = ap (λ l. x ∷ l) (append_none xs)

newest_none : (n : ℕ) → newest n [] ≡ []
unfolding newest
newest_none zero = refl
newest_none (suc n) = rw (zero_minus n) refl
  where
    zero_minus : (n : ℕ) → 0 - suc n ≡ 0
    zero_minus n = omega arith

module _ (pattern name : String) (n : ℕ) (bounded : 0 < n) where
  -- A subscriber that drops the oldest, with this queue.
  abbrev holding : List Item → Subscription
  holding queue = with_queue (new_subscription pattern name drop_oldest n) queue

  one_delivered :
      (seen : List Item) (e : Event)
      → deliver (holding (newest n seen)) e ≡ some (holding (newest n (seen ++ event e ∷ [])))
  unfolding deliver
  one_delivered seen e = ap (λ q. some (holding q)) (newest-snoc n seen (event e) bounded)

  all_delivered :
      (seen : List Item) (es : List Event)
      → deliver_all (holding (newest n seen)) es
        ≡ some (holding (newest n (seen ++ of_pattern pattern es)))
  unfolding deliver_all of_pattern
  all_delivered seen [] = ap (λ q. some (holding (newest n q))) (sym (append_none seen))
  all_delivered seen (e ∷ es) = elim (Bool-cases (matches pattern e.type)) [
    | inl fits ↦
        rw (fits, one_delivered seen e)
          (all_delivered (seen ++ event e ∷ []) es
            ∙ ap (λ q. some (holding (newest n q)))
                (append_one seen (event e) (of_pattern pattern es)))
    | inr other ↦ rw other (all_delivered seen es)
  ]

-- A new subscriber that drops the oldest, with a bounded queue, never makes the publisher wait: after any
-- events it holds exactly the newest of those that match its pattern, as many as its queue has places,
-- in the order in which they were published.
pub deliver_all-newest :
    (pattern name : String) (n : ℕ) (es : List Event)
    → 0 < n
    → let sub = new_subscription pattern name drop_oldest n in
      deliver_all sub es ≡ some (with_queue sub (newest n (of_pattern pattern es)))
deliver_all-newest pattern name n es bounded =
    ap (λ q. deliver_all (holding pattern name n bounded q) es) (sym (newest_none n))
    ∙ all_delivered pattern name n bounded [] es
