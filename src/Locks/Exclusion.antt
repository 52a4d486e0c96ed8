-- ===== src/Locks/Exclusion.antt =====
-- Two descriptions of one file never hold conflicting ranges: the handle table under
-- `Namespace::try_lock_range` (daemon/namespace.cpp).
use forkfs.Common.{
  ℕ, ◌≤◌, ◌<◌, ◌≡◌, refl, inl, inr, Bool, true, false, not, ◌&&◌, List, ltb, leb, ◌==◌, arith, ◌∙◌,
  length, ltb→lt, Bool-cases, &&-split, leb→le,
}
use forkfs.Common.Bytes.{Bytes}
use forkfs.Common.Map.{Entry}
use forkfs.Common.Result.{ok}
use forkfs.Handles.{
  LockRange, OpenHandle, Table, Selected, same_file, same_file_sym, same_file_trans, set_cursor,
}
use forkfs.Locks.Ranges.{blocked}
use forkfs.Locks.Step.{
  Lock, shared, exclusive, unlock, relocked, requested, is_unlock, range_end, try_lock_range,
}
use forkfs.Locks.Cover.{mode_at, IsChain}
use forkfs.Locks.Order.{IsTight}
use forkfs.Locks.Grant.{granted, mode_at-relocked, relocked-IsChain}
use forkfs.Locks.Conflicts.{clash, IsRival, Inv, locks_of, blocked_by-clear, blocked-clear}
use forkfs.Locks.Outcome.{outcome, locks_of-set}

clash_sym : (m n : ℕ) → clash m n ≡ clash n m
clash_sym m n = ground arith

clash-granted :
    (mode : Lock) (n : ℕ)
    → ((is_unlock mode ≡ false) → clash (requested mode) n ≡ false)
    → clash (granted mode) n ≡ false
unfolding requested granted is_unlock
clash-granted shared n h = h refl
clash-granted exclusive n h = h refl
clash-granted unlock n h = refl

-- A granted operation on one description of a file against the ranges of a rival.
module _ (t : Table) (v : Inv t) (token : Bytes) (info : OpenHandle)
    (entry : Entry token info t.handles) (mode : Lock) (start end : ℕ) (span : start < end)
    (free : (not (is_unlock mode) && blocked t.cursors info start end (requested mode) t.handles)
      ≡ false) where
  next : List LockRange
  next = relocked mode start end (locks_of t info)

  granted_against :
      (a b : Bytes) (h k : OpenHandle) (x : ℕ)
      → Entry a h t.handles
      → Entry b k t.handles
      → (h.cursor == info.cursor) ≡ true
      → IsRival h k
      → clash (mode_at next x) (mode_at (locks_of t k) x) ≡ false
  unfolding next
  granted_against a b h k x eh ek own rival =
      let hi : same_file h info ≡ true = v.one_file a token h info eh entry own in
      let ki : IsRival k info =
        (ground arith, same_file_trans k h info (same_file_sym h k rival.1) hi) in
      rw (mode_at-relocked start end (locks_of t info) span (v.normal token info entry).0 mode x)
        (elim (Bool-cases (leb start x && ltb x end)) [
          | inl inside ↦
              let (lo, hi') = &&-split _ _ inside in
              rw inside (
                clash-granted mode _ λ locking.
                  blocked_by-clear start end (requested mode) x (locks_of t k)
                    (blocked-clear t.cursors info start end (requested mode) t.handles
                      (ground arith) b k ek ki)
                    (leb→le _ _ lo) (ltb→lt _ _ hi'))
          | inr outside ↦
              rw outside
                (v.exclusion token b info k x entry ek (ground arith, same_file_sym k info ki.1))
        ])

  after : Table
  after = set_cursor t info.cursor (record (t.cursors info.cursor) { locks = next })

  locks_of-own : (h : OpenHandle) → (h.cursor == info.cursor) ≡ true → locks_of after h ≡ next
  unfolding after
  locks_of-own h own = locks_of-set t info.cursor _ h ∙ rw own

  locks_of-other :
      (h : OpenHandle) → (h.cursor == info.cursor) ≡ false → locks_of after h ≡ locks_of t h
  unfolding after
  locks_of-other h other = locks_of-set t info.cursor _ h ∙ rw other

  granted-exclusion :
      (a b : Bytes) (h k : OpenHandle) (x : ℕ)
      → Entry a h t.handles
      → Entry b k t.handles
      → IsRival h k
      → clash (mode_at (locks_of after h) x) (mode_at (locks_of after k) x) ≡ false
  granted-exclusion a b h k x eh ek rival = elim (Bool-cases (h.cursor == info.cursor)) [
    | inl own ↦
        rw (locks_of-own h own, locks_of-other k (ground arith))
          (granted_against a b h k x eh ek own rival)
    | inr other ↦ rw (locks_of-other h other) (elim (Bool-cases (k.cursor == info.cursor)) [
      | inl own ↦ rw (locks_of-own k own) (
          clash_sym (mode_at (locks_of t h) x) (mode_at next x)
          ∙ granted_against b a k h x ek eh own (ground arith, same_file_sym h k rival.1))
      | inr neither ↦ rw (locks_of-other k neither) (v.exclusion a b h k x eh ek rival)
    ])
  ]

  granted-normal :
      (a : Bytes) (h : OpenHandle)
      → length next ≤ 128
      → Entry a h t.handles
      → IsChain 0 (locks_of after h)
        × IsTight (locks_of after h)
        × (length (locks_of after h) ≤ 128)
  granted-normal a h small eh = elim (Bool-cases (h.cursor == info.cursor)) [
    | inl own ↦ rw (locks_of-own h own) (next_chain.0, next_chain.1, small)
    | inr other ↦ rw (locks_of-other h other) (v.normal a h eh)
  ]
    where
      next_chain : IsChain 0 next × IsTight next
      next_chain =
          unfold next in
          relocked-IsChain start end (locks_of t info) span (v.normal token info entry).0 mode

  granted-Inv : length next ≤ 128 → Inv after
  unfolding after
  granted-Inv small = record {
    normal = λ a h. granted-normal a h small;
    one_file = v.one_file;
    exclusion = granted-exclusion;
  }

-- If the table is well formed (each description's ranges apart, in order, joined and at most 128;
-- handles that share a description open on one file; no conflicting ranges on one file), then so is
-- the table after any call of `try_lock_range` that returns, whether it grants the lock or not.
pub try_lock_range-Inv :
    (t : Table) (ns : Selected) (token : Bytes) (mode : Lock) (start len : ℕ) (b : Bool)
    (t' : Table)
    → Inv t
    → try_lock_range t ns token mode start len ≡ ok (b, t')
    → Inv t'
unfolding after next
try_lock_range-Inv t ns token mode start len b t' v h =
    let o = outcome t ns token mode start len b t' h in
    elim o.result [
      | inl (_, same, _, _) ↦ rw same v
      | inr (_, small, new, free) ↦ rw new (
          granted-Inv t v token o.info o.entry mode start (range_end start len) o.bounds.0 free
            small)
    ]
