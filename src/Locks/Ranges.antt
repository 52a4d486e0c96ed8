-- ===== src/Locks/Ranges.antt =====
-- The list work of `Namespace::try_lock_range` (daemon/namespace.cpp): conflicts, carving the range out of
-- what the description holds, sorting, and joining neighbours.
use forkfs.Common.{
  ℕ, Bool, false, not, ◌&&◌, ◌||◌, List, [], ◌∷◌, ◌++◌, ltb, leb, ◌==◌, if◌then◌else◌,
}
use forkfs.Common.Map.{Map}
use forkfs.Handles.{LockRange, OpenHandle, Cursor, same_file}

-- for(range: other.cursor->locks) if(start<range.end && range.start<end && (requested==2 || range.mode==2))
unfoldable pub blocked_by : ℕ → ℕ → ℕ → List LockRange → Bool
blocked_by start end requested [] = false
blocked_by start end requested (range ∷ rest) =
    (ltb start range.end && (ltb range.start end && (requested == 2 || range.mode == 2)))
    || blocked_by start end requested rest

-- The loop over handles_: other descriptions of the same file.
unfoldable pub blocked : (ℕ → Cursor) → OpenHandle → ℕ → ℕ → ℕ → Map OpenHandle → Bool
blocked cursors info start end requested [] = false
blocked cursors info start end requested ((token, other) ∷ rest) =
    (not (other.cursor == info.cursor)
      && (same_file other info && blocked_by start end requested (cursors other.cursor).locks))
    || blocked cursors info start end requested rest

-- What is left of one held range outside start <= x < end.
unfoldable pub pieces : ℕ → ℕ → LockRange → List LockRange
pieces start end range =
    if leb range.end start || leb end range.start
    then range ∷ []
    else (if ltb range.start start
        then record { start = range.start; end = start; mode = range.mode } ∷ []
        else [])
      ++ (if ltb end range.end
          then record { start = end; end = range.end; mode = range.mode } ∷ []
          else [])

unfoldable pub carve : ℕ → ℕ → List LockRange → List LockRange
unfolding pieces
carve start end [] = []
carve start end (range ∷ rest) = pieces start end range ++ carve start end rest

-- std::sort by start.
unfoldable pub insert_by_start : LockRange → List LockRange → List LockRange
insert_by_start x [] = x ∷ []
insert_by_start x (y ∷ ys) = if ltb y.start x.start then y ∷ insert_by_start x ys else x ∷ y ∷ ys

unfoldable pub sort_by_start : List LockRange → List LockRange
unfolding insert_by_start
sort_by_start [] = []
sort_by_start (x ∷ xs) = insert_by_start x (sort_by_start xs)

-- The loop that fills `normalized`; `back` is normalized.back().
unfoldable pub join : LockRange → List LockRange → List LockRange
join back [] = back ∷ []
join back (range ∷ rest) =
    let joined = join (record back { end = range.end }) rest in
    let apart = back ∷ join range rest in
    if back.end == range.start && back.mode == range.mode then joined else apart

unfoldable pub normalize : List LockRange → List LockRange
unfolding join
normalize [] = []
normalize (range ∷ rest) = join range rest
