-- ===== src/Handles/Seek.antt =====
-- `Namespace::seek` (daemon/namespace.cpp). The size of the file that a handle is open on is an argument;
-- an int64_t offset is `pos n` or `negsuc n`, which is -(n+1).
use forkfs.Common.{ℕ, suc, ◌+◌, ◌-◌, ◌^◌, ◌≤◌, ◌≡◌, ◌↔◌, inl, inr, leb, ◌==◌, if◌then◌else◌, arith}
use forkfs.Common.Bytes.{Bytes}
use forkfs.Common.Int.{ℤ, pos, negsuc}
use forkfs.Common.Result.{Result, ok, need, ◌>>=◌, ◌>>◌, Result-cases}
use forkfs.Handles.{OpenHandle, Table, Selected, find_handle, set_cursor}

pub data Seek : Type 0 where
  set current end : Seek

abbrev pub int64_max : ℕ
int64_max = 2 ^ 63 - 1

unfoldable pub base_of : Table → (OpenHandle → Result ℕ) → OpenHandle → Seek → Result ℕ
base_of t size_of info set = ok 0
base_of t size_of info current = ok (t.cursors info.cursor).position
base_of t size_of info end = size_of info

unfoldable pub seek_to : ℕ → ℤ → Result ℕ
seek_to base (pos n) = do
  need (leb base int64_max) "file position overflow"
  need (leb n (int64_max - base)) "file position overflow"
  ok (base + n)
seek_to base (negsuc n) = do
  need (leb base int64_max) "file position overflow"
  need (leb (n + 1) base) "negative file position"
  ok (base - (n + 1))

unfoldable pub seek :
    Table → (OpenHandle → Result ℕ) → Selected → Bytes → ℤ → Seek → Result (ℕ × Table)
seek t size_of ns token offset origin = do
  info ← find_handle t ns token
  base ← base_of t size_of info origin
  result ← seek_to base offset
  ok (result, set_cursor t info.cursor (record (t.cursors info.cursor) { position = result }))

-- r is base plus the offset, as integers.
abbrev pub IsSum : ℕ → ℤ → ℕ → Type 0
IsSum base (pos n) r = r ≡ base + n
IsSum base (negsuc n) r = r + suc n ≡ base

-- `seek_to` returns r exactly if r is the sum, and neither the base nor the sum leaves 0 to 2^63 - 1.
pub seek_to-IsSum :
    (base r : ℕ) (offset : ℤ)
    → (seek_to base offset ≡ ok r) ↔ ((base ≤ int64_max) × (r ≤ int64_max) × IsSum base offset r)
unfolding seek_to
seek_to-IsSum base r (pos n) =
    (λ h. (ground arith, ground arith, ground arith), λ (a, b, c). ground arith)
seek_to-IsSum base r (negsuc n) =
    (λ h. (ground arith, ground arith, ground arith), λ (a, b, c). ground arith)

-- A call of `seek` that returns leaves its result as the position of every handle that shares the cursor,
-- the position of all others as it was, and all locks as they were.
pub seek-position :
    (t t' : Table) (size_of : OpenHandle → Result ℕ) (ns : Selected) (token : Bytes) (offset : ℤ)
    (origin : Seek) (r : ℕ)
    → seek t size_of ns token offset origin ≡ ok (r, t')
    → (info : OpenHandle) × (find_handle t ns token ≡ ok info)
      × ((h : OpenHandle)
          → ((t'.cursors h.cursor).position
              ≡ (if h.cursor == info.cursor then r else (t.cursors h.cursor).position))
            × ((t'.cursors h.cursor).locks ≡ (t.cursors h.cursor).locks))
unfolding seek
seek-position t t' size_of ns token offset origin r h =
    elim (Result-cases (find_handle t ns token)) [
      | inr (m, bad) ↦ absurd (ground arith)
      | inl (info, found) ↦ elim (Result-cases (base_of t size_of info origin)) [
        | inr (m, bad) ↦ absurd (ground arith)
        | inl (base, b) ↦ elim (Result-cases (seek_to base offset)) [
          | inr (m, bad) ↦ absurd (ground arith)
          | inl (result, good) ↦
              let same : result ≡ r = ground arith in
              let shape : set_cursor t info.cursor
                    (record (t.cursors info.cursor) { position = result })
                  ≡ t' =
                ground arith in
              (info, found, λ k. rw (← shape) (ground arith, ground arith))
        ]
      ]
    ]
