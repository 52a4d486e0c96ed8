-- ===== src/Locks/Tests.antt =====
-- Three handles on one file, two of them sharing a description, and the lock theorems applied to them.
use forkfs.Common.{
  Bool, ℕ, ◌≡◌, refl, ◌⊎◌, ◌↔◌, inl, inr, true, false, ◌&&◌, [], ◌∷◌, ltb, leb, ◌==◌, if◌then◌else◌,
  arith,
}
use forkfs.Common.Bytes.{Bytes, codes, bytes_eq}
use forkfs.Common.Map.{Entry, lookup}
use forkfs.Common.Result.{ok}
use forkfs.Handles.{LockRange, OpenHandle, Table, Selected, find_handle, same_file, set_cursor}
use forkfs.Locks.Ranges.{
  blocked, blocked_by, carve, pieces, sort_by_start, insert_by_start, normalize, join,
}
use forkfs.Locks.Step.{
  shared, exclusive, unlock, relocked, requested, is_unlock, range_end, try_lock_range, try_lock,
}
use forkfs.Locks.Cover.{mode_at, IsChain}
use forkfs.Locks.Order.{IsTight}
use forkfs.Locks.Grant.{granted, mode_at-relocked, relocked-IsChain}
use forkfs.Locks.Conflicts.{Inv, locks_of}
use forkfs.Locks.Total.{try_lock_range_total}
use forkfs.Locks.Outcome.{Rivalry, try_lock_range_refused, try_lock_range-granted}
use forkfs.Locks.Exclusion.{try_lock_range-Inv}

abbrev main_view : Selected
main_view = record { view = codes "main"; revision = false }

abbrev handle : ℕ → OpenHandle
handle c = record {
  view = codes "main";
  inode = codes "i";
  revision = false;
  readable = true;
  writable = true;
  append = false;
  cursor = c;
}

abbrev range : ℕ → ℕ → ℕ → LockRange
range s e m = record { start = s; end = e; mode = m }

-- Handles a and b share the description 0, which holds 0..10 shared; c has description 1.
abbrev two_descriptions : Table
two_descriptions = record {
  handles = (codes "a", handle 0) ∷ (codes "b", handle 0) ∷ (codes "c", handle 1) ∷ [];
  cursors = λ i.
      if i == 0
      then record { position = 0; locks = range 0 10 1 ∷ [] }
      else record { position = 0; locks = [] };
}

-- An exclusive lock inside splits the shared range in three.
relock_splits :
    relocked exclusive 4 6 (range 0 10 1 ∷ []) ≡ range 0 4 1 ∷ range 4 6 2 ∷ range 6 10 1 ∷ []
unfolding relocked carve pieces sort_by_start insert_by_start normalize join requested is_unlock
relock_splits = refl

-- A shared lock next to it is joined.
relock_joins : relocked shared 10 12 (range 0 10 1 ∷ []) ≡ range 0 12 1 ∷ []
unfolding relocked carve pieces sort_by_start insert_by_start normalize join requested is_unlock
relock_joins = refl

locked_modes : mode_at (relocked unlock 4 6 (range 0 10 1 ∷ [])) 5 ≡ 0
unfolding granted
locked_modes = mode_at-relocked 4 6 (range 0 10 1 ∷ []) (omega arith) (omega arith) unlock 5

locked_in_order :
    IsChain 0 (relocked shared 10 12 (range 0 10 1 ∷ []))
    × IsTight (relocked shared 10 12 (range 0 10 1 ∷ []))
locked_in_order = relocked-IsChain 10 12 (range 0 10 1 ∷ []) (omega arith) (omega arith) shared

cursor_of :
    (tok : Bytes) (h : OpenHandle)
    → Entry tok h two_descriptions.handles
    → (h ≡ handle 0) ⊎ (h ≡ handle 1)
cursor_of tok h (inl (_, e)) = inl (ground arith)
cursor_of tok h (inr (inl (_, e))) = inl (ground arith)
cursor_of tok h (inr (inr (inl (_, e)))) = inr (ground arith)
cursor_of tok h (inr (inr (inr e))) = absurd e

two_descriptions-Inv : Inv two_descriptions
unfolding same_file bytes_eq mode_at
two_descriptions-Inv = record {
  normal = λ tok h e. elim (cursor_of tok h e) [
    | inl p ↦ rw p (omega arith, tt, omega arith)
    | inr p ↦ rw p (tt, tt, omega arith)
  ];
  one_file = λ a b h k eh ek own. elim (cursor_of a h eh) [
    | inl p ↦ elim (cursor_of b k ek) [ inl q ↦ rw (p, q) | inr q ↦ rw (p, q) ]
    | inr p ↦ elim (cursor_of b k ek) [ inl q ↦ rw (p, q) | inr q ↦ rw (p, q) ]
  ];
  exclusion = λ a b h k x eh ek rival. elim (cursor_of a h eh) [
    | inl p ↦ elim (cursor_of b k ek) [
      | inl q ↦ rw (p, q) (ground arith)
      | inr q ↦ rw (p, q) (ground arith)
    ]
    | inr p ↦ rw p
  ];
}

abbrev after_c : Table
after_c = set_cursor two_descriptions 1 (record { position = 0; locks = range 20 25 2 ∷ [] })

lock_c : try_lock_range two_descriptions main_view (codes "c") exclusive 20 5 ≡ ok (true, after_c)
unfolding try_lock_range find_handle blocked blocked_by same_file bytes_eq lookup relocked carve
    pieces sort_by_start insert_by_start normalize join requested is_unlock range_end
lock_c = refl

-- The whole file cannot be had: handles a and b hold a part of it.
lock_c_whole :
    try_lock two_descriptions main_view (codes "c") exclusive ≡ ok (false, two_descriptions)
unfolding try_lock try_lock_range find_handle blocked blocked_by same_file bytes_eq lookup relocked
    carve pieces sort_by_start insert_by_start normalize join requested is_unlock range_end
lock_c_whole = refl

try_lock_range-Inv_example : Inv after_c
try_lock_range-Inv_example =
    try_lock_range-Inv two_descriptions main_view (codes "c") exclusive 20 5 true after_c
      two_descriptions-Inv lock_c

try_lock_range-granted_example :
    (info : OpenHandle) × (find_handle two_descriptions main_view (codes "c") ≡ ok info)
    × ((h : OpenHandle) (x : ℕ)
        → mode_at (locks_of after_c h) x ≡ (
            if (h.cursor == info.cursor) && (leb 20 x && ltb x (range_end 20 5))
            then granted exclusive
            else mode_at (locks_of two_descriptions h) x))
try_lock_range-granted_example =
    try_lock_range-granted two_descriptions main_view (codes "c") exclusive 20 5 after_c
      two_descriptions-Inv lock_c

try_lock_range_refused_example :
    (info : OpenHandle) × (find_handle two_descriptions main_view (codes "c") ≡ ok info)
    × ((true ≡ false) ↔ Rivalry two_descriptions info 20 (range_end 20 5) exclusive)
    × ((true ≡ true) ⊎ (after_c ≡ two_descriptions))
try_lock_range_refused_example =
    try_lock_range_refused two_descriptions main_view (codes "c") exclusive 20 5 true after_c
      two_descriptions-Inv (unfold is_unlock in refl) lock_c

c_found : find_handle two_descriptions main_view (codes "c") ≡ ok (handle 1)
unfolding find_handle lookup bytes_eq
c_found = refl

try_lock_range_total_example :
    (b : Bool) × (t' : Table) × (try_lock_range two_descriptions main_view
        (codes "c")
        exclusive
        20
        5
      ≡ ok (b, t'))
    × ((b ≡ false) ↔ (
        (is_unlock exclusive ≡ false)
        × Rivalry two_descriptions (handle 1) 20 (range_end 20 5) exclusive))
try_lock_range_total_example =
    try_lock_range_total two_descriptions main_view (codes "c") exclusive 20 5 (handle 1)
      two_descriptions-Inv c_found (omega arith) (inr (omega arith)) (omega arith)
