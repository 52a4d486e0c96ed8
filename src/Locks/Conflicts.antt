-- ===== src/Locks/Conflicts.antt =====
-- When `Namespace::try_lock_range` (daemon/namespace.cpp) finds a conflict, and the invariant of the table.
use forkfs.Common.{
  ℕ, ◌≤◌, ◌<◌, ◌≡◌, refl, inl, inr, Bool, true, false, not, ◌&&◌, ◌||◌, List, [], ◌∷◌, ltb, ◌==◌,
  if◌then◌else◌, arith, length, Bool-cases, ||-split,
}
use forkfs.Common.Bytes.{Bytes}
use forkfs.Common.Map.{Map, Entry}
use forkfs.Handles.{LockRange, OpenHandle, Cursor, Table, same_file}
use forkfs.Locks.Ranges.{blocked, blocked_by}
use forkfs.Locks.Cover.{mode_at, IsChain}
use forkfs.Locks.Order.{IsTight}

-- Two modes on one offset conflict if both are held and one of them is exclusive.
abbrev pub clash : ℕ → ℕ → Bool
clash m n = not (m == 0) && (not (n == 0) && (m == 2 || n == 2))

pub blocked_by-clear :
    (s e q x : ℕ) (rs : List LockRange)
    → blocked_by s e q rs ≡ false
    → s ≤ x
    → x < e
    → clash q (mode_at rs x) ≡ false
unfolding blocked_by mode_at
blocked_by-clear s e q x [] b p r = ground arith
blocked_by-clear s e q x (y ∷ ys) b p r = ground (arith, blocked_by-clear s e q x ys)

pub blocked_by-clash :
    (s e q lo : ℕ) (rs : List LockRange)
    → s < e
    → 0 < q
    → IsChain lo rs
    → blocked_by s e q rs ≡ true
    → (x : ℕ) × (s ≤ x) × (x < e) × (lo ≤ x) × (clash q (mode_at rs x) ≡ true)
unfolding blocked_by mode_at
blocked_by-clash s e q lo [] h p c b = cc
blocked_by-clash s e q lo (y ∷ ys) h p c b =
    elim (Bool-cases (ltb s y.end && (ltb y.start e && (q == 2 || y.mode == 2)))) [
      | inl here ↦
          let x = if ltb s y.start then y.start else s in
          (x, ground arith, ground arith, ground arith, ground arith)
      | inr later ↦
          let (x, a, b', l, k) = blocked_by-clash s e q y.end ys h p c.3 (ground arith) in
          (x, a, b', omega (arith, c.0, c.1), ground arith)
    ]

-- Another description of the file that `info` is open on.
abbrev pub IsRival : OpenHandle → OpenHandle → Type 0
IsRival other info = ((other.cursor == info.cursor) ≡ false) × (same_file other info ≡ true)

pub blocked-clear :
    (cs : ℕ → Cursor) (info : OpenHandle) (s e q : ℕ) (m : Map OpenHandle)
    → blocked cs info s e q m ≡ false
    → (token : Bytes) (other : OpenHandle) → Entry token other m
    → IsRival other info
    → blocked_by s e q (cs other.cursor).locks ≡ false
unfolding blocked
blocked-clear cs info s e q [] b token other h r = absurd h
blocked-clear cs info s e q ((j, w) ∷ m) b token other (inl (_, p)) r =
    let r' : IsRival w info = rw p r in rw (← p) (ground arith)
blocked-clear cs info s e q ((j, w) ∷ m) b token other (inr h) r =
    blocked-clear cs info s e q m (||-split _ _ b).1 token other h r

pub blocked-IsRival :
    (cs : ℕ → Cursor) (info : OpenHandle) (s e q : ℕ) (m : Map OpenHandle)
    → blocked cs info s e q m ≡ true
    → (token : Bytes) × (other : OpenHandle) × Entry token other m
      × IsRival other info
      × (blocked_by s e q (cs other.cursor).locks ≡ true)
unfolding blocked
blocked-IsRival cs info s e q [] b = cc
blocked-IsRival cs info s e q ((j, w) ∷ m) b = elim (Bool-cases (blocked cs info s e q m)) [
  | inl later ↦
      let (token, other, h, r, k) = blocked-IsRival cs info s e q m later in
      (token, other, inr h, r, k)
  | inr none' ↦ (j, w, inl (refl, refl), ground arith, ground arith)
]

abbrev pub locks_of : Table → OpenHandle → List LockRange
locks_of t h = (t.cursors h.cursor).locks

pub record Inv (t : Table) : Type 0 where
  pub normal :
      (token : Bytes) (h : OpenHandle)
      → Entry token h t.handles
      → IsChain 0 (locks_of t h) × IsTight (locks_of t h) × (length (locks_of t h) ≤ 128)
  pub one_file :
      (a b : Bytes) (h k : OpenHandle)
      → Entry a h t.handles
      → Entry b k t.handles
      → (h.cursor == k.cursor) ≡ true
      → same_file h k ≡ true
  pub exclusion :
      (a b : Bytes) (h k : OpenHandle) (x : ℕ)
      → Entry a h t.handles
      → Entry b k t.handles
      → IsRival h k
      → clash (mode_at (locks_of t h) x) (mode_at (locks_of t k) x) ≡ false
