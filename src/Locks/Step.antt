-- ===== src/Locks/Step.antt =====
-- `Namespace::try_lock_range` and `Namespace::try_lock` (daemon/namespace.cpp) on the handle table.
use forkfs.Common.{
  ℕ, ◌+◌, ◌-◌, ◌^◌, Bool, true, false, not, ◌&&◌, ◌||◌, List, [], ◌∷◌, ◌++◌, leb, ◌==◌, length,
  if◌then◌else◌,
}
use forkfs.Common.Bytes.{Bytes}
use forkfs.Common.Result.{Result, ok, need, ◌>>=◌, ◌>>◌}
use forkfs.Handles.{LockRange, Table, Selected, find_handle, set_cursor}
use forkfs.Locks.Ranges.{blocked, carve, sort_by_start, normalize}

pub data Lock : Type 0 where
  shared exclusive unlock : Lock

abbrev pub int64_max : ℕ
int64_max = 2 ^ 63 - 1

-- requested=mode==Lock::Shared?1:2; Unlock takes no part in conflicts.
unfoldable pub requested : Lock → ℕ
requested shared = 1
requested exclusive = 2
requested unlock = 2

unfoldable pub is_unlock : Lock → Bool
is_unlock unlock = true
is_unlock _ = false

-- end=length?start+length:uint64_t(INT64_MAX)+1
unfoldable pub range_end : ℕ → ℕ → ℕ
range_end start length = if length == 0 then int64_max + 1 else start + length

-- The description's ranges after the operation.
unfoldable pub relocked : Lock → ℕ → ℕ → List LockRange → List LockRange
relocked mode start end held = normalize (
    sort_by_start (
      if is_unlock mode
      then carve start end held
      else carve start end held
        ++ (record { start = start; end = end; mode = requested mode } ∷ [])))

unfoldable pub try_lock_range : Table → Selected → Bytes → Lock → ℕ → ℕ → Result (Bool × Table)
try_lock_range t ns token mode start len = do
  need (leb start int64_max && (len == 0 || leb len (int64_max + 1 - start)))
      "lock range exceeds signed offset space"
  let end = range_end start len
  info ← find_handle t ns token
  let held = (t.cursors info.cursor).locks
  let next = relocked mode start end held
  if not (is_unlock mode) && blocked t.cursors info start end (requested mode) t.handles
      then ok (false, t)
      else do
        need (leb (length next) 128) "open description lock range limit reached"
        ok (true, set_cursor t info.cursor (record (t.cursors info.cursor) { locks = next }))

-- The whole file: a length of 0 reaches to the end of the offset space.
unfoldable pub try_lock : Table → Selected → Bytes → Lock → Result (Bool × Table)
try_lock t ns token mode = try_lock_range t ns token mode 0 0
