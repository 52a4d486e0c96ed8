-- ===== src/Locks/Grant.antt =====
-- What one operation of `try_lock_range` does to the modes that an open file description holds.
use forkfs.Common.{ℕ, ◌<◌, ◌≡◌, ◌&&◌, List, [], ◌∷◌, ◌++◌, ltb, leb, if◌then◌else◌, arith, ◌∙◌}
use forkfs.Handles.{LockRange}
use forkfs.Locks.Ranges.{carve, sort_by_start, insert_by_start}
use forkfs.Locks.Step.{Lock, shared, exclusive, unlock, relocked, requested, is_unlock}
use forkfs.Locks.Cover.{mode_at, IsChain, mode_at-carve, carve-IsClear, carve-IsChain}
use forkfs.Locks.Order.{
  IsTight, sort_by_start-chain, sort_by_start-snoc, insert_by_start-IsChain, mode_at-insert,
  normalize-IsChain, normalize-IsTight, mode_at-normalize,
}

-- The mode that an operation leaves on its range.
unfoldable pub granted : Lock → ℕ
granted shared = 1
granted exclusive = 2
granted unlock = 0

module _ (start end : ℕ) (held : List LockRange) (h : start < end) (c : IsChain 0 held) where
  place : ℕ → LockRange
  place m = record { start = start; end = end; mode = m }

  placed :
      (m : ℕ)
      → sort_by_start (carve start end held ++ (place m ∷ []))
        ≡ insert_by_start (place m) (carve start end held)
  unfolding place
  placed m =
      sort_by_start-snoc (place m) 0 (carve start end held) (carve-IsChain start end 0 held h c) h
        (carve-IsClear start end held h)

  placed-IsChain : (m : ℕ) → 0 < m → IsChain 0 (insert_by_start (place m) (carve start end held))
  unfolding place
  placed-IsChain m p =
      insert_by_start-IsChain (place m) 0 (carve start end held) (omega arith) h p
        (carve-IsClear start end held h) (carve-IsChain start end 0 held h c)

  -- If the held ranges are apart and in order and the range is not empty, then after the operation each
  -- offset of the range has the mode asked for (none for an unlock), and any other offset what it had.
  pub mode_at-relocked :
      (mode : Lock) (x : ℕ)
      → mode_at (relocked mode start end held) x
        ≡ (if leb start x && ltb x end then granted mode else mode_at held x)
  unfolding relocked granted place requested is_unlock
  mode_at-relocked shared x = rw (placed 1) (
      mode_at-normalize 0 x _ (placed-IsChain 1 (omega arith))
      ∙ mode_at-insert (place 1) x (carve start end held) (carve-IsClear start end held h)
      ∙ ground (arith, mode_at-carve start end x 0 held h c))
  mode_at-relocked exclusive x = rw (placed 2) (
      mode_at-normalize 0 x _ (placed-IsChain 2 (omega arith))
      ∙ mode_at-insert (place 2) x (carve start end held) (carve-IsClear start end held h)
      ∙ ground (arith, mode_at-carve start end x 0 held h c))
  mode_at-relocked unlock x =
      let chain = carve-IsChain start end 0 held h c in
      rw (sort_by_start-chain 0 (carve start end held) chain)
        (mode_at-normalize 0 x _ chain ∙ mode_at-carve start end x 0 held h c)

  -- If the held ranges are apart and in order and the range is not empty, then so are the new ranges, and
  -- no two neighbours among them touch with one mode.
  pub relocked-IsChain :
      (mode : Lock)
      → IsChain 0 (relocked mode start end held) × IsTight (relocked mode start end held)
  unfolding relocked place requested is_unlock
  relocked-IsChain shared = rw (placed 1) (
    normalize-IsChain 0 _ (placed-IsChain 1 (omega arith)),
    normalize-IsTight (insert_by_start (place 1) (carve start end held)),
  )
  relocked-IsChain exclusive = rw (placed 2) (
    normalize-IsChain 0 _ (placed-IsChain 2 (omega arith)),
    normalize-IsTight (insert_by_start (place 2) (carve start end held)),
  )
  relocked-IsChain unlock =
      let chain = carve-IsChain start end 0 held h c in
      rw (sort_by_start-chain 0 (carve start end held) chain)
        (normalize-IsChain 0 _ chain, normalize-IsTight (carve start end held))
