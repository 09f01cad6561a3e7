-- ===== src/Persistence/Store/Chunks.antt =====
-- The deletion in chunks of src/prodeo/persistence/sqlite.py is a deletion of all the rows at once.
use command_center.Base.{
  ℕ, zero, suc, ◌+◌, ◌-◌, ◌≤◌, List, [], ◌∷◌, Bool, any, not, ◌||◌, nat_eq, keep, length, take,
  drop, ◌≡◌, refl, ap, ◌∙◌, arith,
}
use command_center.Events.Envelope.{Event}
use command_center.Persistence.Store.{delete_chunk, delete_chunks, chunk_size, delete}
use command_center.Persistence.Store.Paging.{keep_all, keep-keep, keep_same, length-keep}

-- The rows with none of the ids.
abbrev pub others : List ℕ → Event → Bool
others ids e = not (any (λ id. nat_eq id e.id) ids)

any-take-drop :
    (test : ℕ → Bool) (n : ℕ) (ids : List ℕ)
    → (any test (take n ids) || any test (drop n ids)) ≡ any test ids
any-take-drop test zero ids = refl
any-take-drop test (suc n) [] = refl
any-take-drop test (suc n) (id ∷ ids) = ground (arith, any-take-drop test n ids)

length-drop : (n : ℕ) (ids : List ℕ) → length (drop n ids) ≤ length ids
length-drop zero ids = omega arith
length-drop (suc n) [] = omega arith
length-drop (suc n) (id ∷ ids) = omega (arith, length-drop n ids)

chunk_by_chunk :
    (n : ℕ) (ids : List ℕ) (rows : List Event)
    → keep (others (drop n ids)) (keep (others (take n ids)) rows) ≡ keep (others ids) rows
chunk_by_chunk n ids rows =
    keep-keep (others (drop n ids)) (others (take n ids)) rows
    ∙ keep_same _ _ rows (λ e. ground (arith, any-take-drop (λ id. nat_eq id e.id) n ids))

delete_chunks_lem :
    (fuel : ℕ) (rows : List Event) (ids : List ℕ) (removed : ℕ)
    → length ids ≤ fuel
    → delete_chunks fuel rows ids removed
      ≡ (removed + (length rows - length (keep (others ids) rows)), keep (others ids) rows)
unfolding delete_chunks delete_chunk
delete_chunks_lem zero rows [] removed enough =
    rw (keep_all rows) (ap (λ n. (n, rows)) (omega arith))
delete_chunks_lem (suc fuel) rows [] removed enough =
    rw (keep_all rows) (ap (λ n. (n, rows)) (omega arith))
delete_chunks_lem zero rows (id ∷ ids) removed enough = absurd (omega (arith, enough))
delete_chunks_lem (suc fuel) rows (id ∷ ids) removed enough =
    let rest = drop chunk_size (id ∷ ids) in
    let left : List Event = keep (others (take chunk_size (id ∷ ids))) rows in
    let all : List Event = keep (others (id ∷ ids)) rows in
    let fewer : length rest ≤ fuel = omega (arith, enough, length-drop 499 ids) in
    let cut : keep (others rest) left ≡ all = chunk_by_chunk chunk_size (id ∷ ids) rows in
    let sum : removed + (length rows - length left) + (length left - length all)
        ≡ removed + (length rows - length all) =
      omega (
        arith,
        length-keep (others (take chunk_size (id ∷ ids))) rows,
        length-keep (others rest) left,
        ap length cut,
      ) in
    delete_chunks_lem fuel left rest (removed + (length rows - length left)) fewer
    ∙ rw cut (ap (λ n. (n, all)) sum)

-- However many chunks the ids make, it is as one statement over all of them would do.
pub delete_lem : (rows : List Event) (ids : List ℕ) → delete rows ids ≡ delete_chunk rows ids
unfolding delete delete_chunk
delete_lem rows ids =
    delete_chunks_lem (length ids) rows ids 0 (omega arith)
    ∙ ap (λ n. (n, keep (others ids) rows)) (omega arith)
