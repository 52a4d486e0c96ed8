-- ===== src/Locks/Total.antt =====
-- How many ranges a call of `Namespace::try_lock_range` (daemon/namespace.cpp) can add, and that it returns.
use forkfs.Common.{
  ℕ, suc, ◌+◌, ◌-◌, ◌≤◌, ◌≡◌, refl, ◌⊎◌, ◌↔◌, inl, inr, Bool, true, false, not, ◌&&◌, ◌||◌, List,
  [], ◌∷◌, ◌++◌, leb, ◌==◌, arith, length, length-append, Bool-cases, le→leb,
}
use forkfs.Common.Bytes.{Bytes}
use forkfs.Common.Result.{ok}
use forkfs.Handles.{LockRange, OpenHandle, Table, Selected, find_handle, set_cursor}
use forkfs.Locks.Ranges.{blocked, pieces, carve, insert_by_start, sort_by_start, join, normalize}
use forkfs.Locks.Step.{Lock, relocked, requested, is_unlock, range_end, try_lock_range, int64_max}
use forkfs.Locks.Cover.{IsChain}
use forkfs.Locks.Conflicts.{Inv, locks_of}
use forkfs.Locks.Outcome.{
  Rivalry, blocked-Rivalry, Rivalry-blocked, find_handle-Entry, range_end-bounds,
}

-- A range that begins inside or behind the carved one leaves at most one piece.
length-pieces_behind :
    (start end : ℕ) (r : LockRange) → start ≤ r.start → length (pieces start end r) ≤ 1
unfolding pieces
length-pieces_behind start end r h = ground arith

length-pieces_before :
    (start end : ℕ) (r : LockRange) → r.end ≤ start → length (pieces start end r) ≤ 1
unfolding pieces
length-pieces_before start end r h = ground arith

length-pieces : (start end : ℕ) (r : LockRange) → length (pieces start end r) ≤ 2
unfolding pieces
length-pieces start end r = ground arith

length-carve_behind :
    (start end lo : ℕ) (rs : List LockRange)
    → IsChain lo rs
    → start ≤ lo
    → length (carve start end rs) ≤ length rs
unfolding carve
length-carve_behind start end lo [] c h = omega arith
length-carve_behind start end lo (r ∷ rs) c h =
    let few = length-pieces_behind start end r (omega (arith, c.0)) in
    let rest = length-carve_behind start end r.end rs c.3 (omega (arith, c.0, c.1)) in
    omega (arith, few, rest, length-append (pieces start end r) (carve start end rs))

-- Only the range in which the carved one begins can fall into two.
length-carve :
    (start end lo : ℕ) (rs : List LockRange)
    → IsChain lo rs
    → length (carve start end rs) ≤ suc (length rs)
unfolding carve
length-carve start end lo [] c = omega arith
length-carve start end lo (r ∷ rs) c =
    let both = length-append (pieces start end r) (carve start end rs) in
    elim (Bool-cases (leb r.end start)) [
      | inl early ↦
          let few = length-pieces_before start end r (ground arith) in
          let rest = length-carve start end r.end rs c.3 in omega (arith, few, rest, both)
      | inr late ↦
          let few = length-pieces start end r in
          let rest = length-carve_behind start end r.end rs c.3 (ground arith) in
          omega (arith, few, rest, both)
    ]

length-insert_by_start :
    (x : LockRange) (ys : List LockRange) → length (insert_by_start x ys) ≡ suc (length ys)
unfolding insert_by_start
length-insert_by_start x [] = refl
length-insert_by_start x (y ∷ ys) = ground (arith, length-insert_by_start x ys)

length-sort_by_start : (rs : List LockRange) → length (sort_by_start rs) ≡ length rs
unfolding sort_by_start
length-sort_by_start [] = refl
length-sort_by_start (r ∷ rs) =
    omega (arith, length-insert_by_start r (sort_by_start rs), length-sort_by_start rs)

length-join : (back : LockRange) (rs : List LockRange) → length (join back rs) ≤ suc (length rs)
unfolding join
length-join back [] = omega arith
length-join back (r ∷ rs) =
    ground (arith, length-join (record back { end = r.end }) rs, length-join r rs)

length-normalize : (rs : List LockRange) → length (normalize rs) ≤ length rs
unfolding normalize
length-normalize [] = omega arith
length-normalize (r ∷ rs) = length-join r rs

-- At most two ranges more.
length-relocked :
    (mode : Lock) (start end : ℕ) (held : List LockRange)
    → IsChain 0 held
    → length (relocked mode start end held) ≤ length held + 2
unfolding relocked
length-relocked mode start end held c =
    let carved = carve start end held in
    let placed = carved ++ (record { start = start; end = end; mode = requested mode } ∷ []) in
    let few = length-carve start end 0 held c in
    elim (Bool-cases (is_unlock mode)) [
      | inl free ↦
          rw free (
            omega
              (arith, few, length-normalize (sort_by_start carved), length-sort_by_start carved))
      | inr taken ↦ rw taken (
          omega (
            arith,
            few,
            length-normalize (sort_by_start placed),
            length-sort_by_start placed,
            length-append carved (record { start = start; end = end; mode = requested mode } ∷ []),
          ))
    ]

fits_guard :
    (start len : ℕ)
    → start ≤ int64_max
    → (len ≡ 0) ⊎ (start + len ≤ int64_max + 1)
    → (leb start int64_max && (len == 0 || leb len (int64_max + 1 - start))) ≡ true
fits_guard start len h (inl whole) = ground arith
fits_guard start len h (inr part) = ground arith

-- Under the invariant, a request on a valid handle for a range within the 2^63 offsets returns, if its
-- description holds at most 126 ranges: false if it asks for a lock and some other description of the file holds
-- a conflicting one in the range, and true in every other case.
pub try_lock_range_total :
    (t : Table) (ns : Selected) (token : Bytes) (mode : Lock) (start len : ℕ) (info : OpenHandle)
    → Inv t
    → find_handle t ns token ≡ ok info
    → start ≤ int64_max
    → (len ≡ 0) ⊎ (start + len ≤ int64_max + 1)
    → length (locks_of t info) ≤ 126
    → (b : Bool) × (t' : Table) × (try_lock_range t ns token mode start len ≡ ok (b, t'))
      × ((b ≡ false) ↔ ((is_unlock mode ≡ false) × Rivalry t info start (range_end start len) mode))
unfolding try_lock_range
try_lock_range_total t ns token mode start len info v found low part room =
    let fits = fits_guard start len low part in
    let bounds = range_end-bounds start len fits in
    let end = range_end start len in
    let next = relocked mode start end (locks_of t info) in
    let small : length next ≤ 128 = omega (
      arith,
      length-relocked mode start end (locks_of t info)
          (v.normal token info (find_handle-Entry t ns token found)).0,
    ) in
    elim (Bool-cases
      (not (is_unlock mode) && blocked t.cursors info start end (requested mode) t.handles)) [
        | inl busy ↦ (
          false,
          t,
          rw (fits, found, busy) refl,
          (
            (λ _.
                let lock : is_unlock mode ≡ false = ground arith in
                (lock, blocked-Rivalry t v info start end mode lock bounds.0 (ground arith))),
            λ _. refl,
          ),
        )
        | inr free ↦ (
          true,
          set_cursor t info.cursor (record (t.cursors info.cursor) { locks = next }),
          rw (fits, found, free, le→leb (length next) 128 small) refl,
          (
            (λ no'. absurd (ground arith)),
            λ (lock, r). absurd (Rivalry-blocked t info start end mode r (ground arith)),
          ),
        )
      ]
