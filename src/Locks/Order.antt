-- ===== src/Locks/Order.antt =====
-- Sorting and joining keep the ranges apart and in order, and do not change the mode at any offset.
use forkfs.Common.{
  ℕ, ◌≤◌, ◌<◌, ◌≡◌, ◌≢◌, refl, inl, inr, ◌&&◌, List, [], ◌∷◌, ◌++◌, ltb, leb, ◌==◌, if◌then◌else◌,
  arith, Bool-cases,
}
use forkfs.Handles.{LockRange}
use forkfs.Locks.Ranges.{insert_by_start, sort_by_start, join, normalize}
use forkfs.Locks.Cover.{mode_at, IsChain, IsClear}

pub insert_by_start-IsChain :
    (n : LockRange) (lo : ℕ) (rs : List LockRange)
    → lo ≤ n.start
    → n.start < n.end
    → 0 < n.mode
    → IsClear n.start n.end rs
    → IsChain lo rs
    → IsChain lo (insert_by_start n rs)
unfolding insert_by_start
insert_by_start-IsChain n lo [] p q m cl ch = (p, q, m, tt)
insert_by_start-IsChain n lo (r ∷ rs) p q m cl ch =
    ground (arith, insert_by_start-IsChain n r.end rs)

insert_by_start-chain_head :
    (lo : ℕ) (r : LockRange) (rs : List LockRange)
    → IsChain lo (r ∷ rs)
    → insert_by_start r rs ≡ r ∷ rs
unfolding insert_by_start
insert_by_start-chain_head lo r [] c = refl
insert_by_start-chain_head lo r (q ∷ qs) c = ground arith

-- A chain is sorted already.
pub sort_by_start-chain : (lo : ℕ) (rs : List LockRange) → IsChain lo rs → sort_by_start rs ≡ rs
unfolding sort_by_start
sort_by_start-chain lo [] c = refl
sort_by_start-chain lo (r ∷ rs) c =
    rw (sort_by_start-chain r.end rs c.3) (insert_by_start-chain_head lo r rs c)

-- Sorting a chain with one more range behind it puts that range in its place.
insert_by_start-swap :
    (n r : LockRange) (lo : ℕ) (rs : List LockRange)
    → IsChain lo (r ∷ rs)
    → n.start < n.end
    → IsClear n.start n.end (r ∷ rs)
    → insert_by_start r (insert_by_start n rs) ≡ insert_by_start n (r ∷ rs)
unfolding insert_by_start
insert_by_start-swap n r lo [] c q cl = ground arith
insert_by_start-swap n r lo (x ∷ xs) c q cl = ground arith

pub sort_by_start-snoc :
    (n : LockRange) (lo : ℕ) (rs : List LockRange)
    → IsChain lo rs
    → n.start < n.end
    → IsClear n.start n.end rs
    → sort_by_start (rs ++ (n ∷ [])) ≡ insert_by_start n rs
unfolding sort_by_start
sort_by_start-snoc n lo [] c q cl = refl
sort_by_start-snoc n lo (r ∷ rs) c q cl =
    rw (sort_by_start-snoc n r.end rs c.3 q cl.1) (insert_by_start-swap n r lo rs c q cl)

pub mode_at-insert :
    (n : LockRange) (x : ℕ) (rs : List LockRange)
    → IsClear n.start n.end rs
    → mode_at (insert_by_start n rs) x
      ≡ (if leb n.start x && ltb x n.end then n.mode else mode_at rs x)
unfolding insert_by_start mode_at
mode_at-insert n x [] cl = ground arith
mode_at-insert n x (r ∷ rs) cl = ground (arith, mode_at-insert n x rs cl.1)

-- Neighbours that touch differ in mode: what `normalized` reaches.
abbrev pub IsTight : List LockRange → Type 0
IsTight [] = Unit {0}
IsTight (r ∷ []) = Unit {0}
IsTight (r ∷ q ∷ rs) = (r.end ≡ q.start → r.mode ≢ q.mode) × IsTight (q ∷ rs)

-- Joining starts with the same offset, so what stands before it touches it as it touched `back`.
join-head :
    (back : LockRange) (rs : List LockRange)
    → (e : ℕ) × (tail : List LockRange) × (join back rs ≡ record back { end = e } ∷ tail)
unfolding join
join-head back [] = (back.end, [], refl)
join-head back (r ∷ rs) = elim (Bool-cases (back.end == r.start && back.mode == r.mode)) [
  | inl touch ↦ rw touch (join-head (record back { end = r.end }) rs)
  | inr apart ↦ rw apart (back.end, join r rs, refl)
]

pub mode_at-join :
    (back : LockRange) (x lo : ℕ) (rs : List LockRange)
    → IsChain lo (back ∷ rs)
    → mode_at (join back rs) x ≡ mode_at (back ∷ rs) x
unfolding join mode_at
mode_at-join back x lo [] c = refl
mode_at-join back x lo (r ∷ rs) c = elim (Bool-cases (back.end == r.start && back.mode == r.mode)) [
  | inl touch ↦ rw touch (
      ground (
        arith,
        mode_at-join (record back { end = r.end }) x back.start rs
            (omega arith, omega (arith, c.1), c.2, c.3.3),
        touch,
      ))
  | inr apart ↦ rw apart (ground (arith, mode_at-join r x back.end rs c.3))
]

pub join-IsChain :
    (back : LockRange) (lo : ℕ) (rs : List LockRange)
    → IsChain lo (back ∷ rs)
    → IsChain lo (join back rs)
unfolding join
join-IsChain back lo [] c = c
join-IsChain back lo (r ∷ rs) c = elim (Bool-cases (back.end == r.start && back.mode == r.mode)) [
  | inl touch ↦
      rw touch
        (join-IsChain (record back { end = r.end }) lo rs (c.0, omega (arith, c.1), c.2, c.3.3))
  | inr apart ↦ rw apart (c.0, c.1, c.2, join-IsChain r back.end rs c.3)
]

pub join-IsTight : (back : LockRange) (rs : List LockRange) → IsTight (join back rs)
unfolding join
join-IsTight back [] = tt
join-IsTight back (r ∷ rs) = elim (Bool-cases (back.end == r.start && back.mode == r.mode)) [
  | inl touch ↦ rw touch (join-IsTight (record back { end = r.end }) rs)
  | inr apart ↦
      let (e, tail, shape) = join-head r rs in
      rw (apart, shape) ((λ p q. absurd (ground arith)), rw shape at (join-IsTight r rs))
]

pub normalize-IsChain : (lo : ℕ) (rs : List LockRange) → IsChain lo rs → IsChain lo (normalize rs)
unfolding normalize
normalize-IsChain lo [] c = c
normalize-IsChain lo (r ∷ rs) c = join-IsChain r lo rs c

pub normalize-IsTight : (rs : List LockRange) → IsTight (normalize rs)
unfolding normalize
normalize-IsTight [] = tt
normalize-IsTight (r ∷ rs) = join-IsTight r rs

pub mode_at-normalize :
    (lo x : ℕ) (rs : List LockRange) → IsChain lo rs → mode_at (normalize rs) x ≡ mode_at rs x
unfolding normalize
mode_at-normalize lo x [] c = refl
mode_at-normalize lo x (r ∷ rs) c = mode_at-join r x lo rs c
