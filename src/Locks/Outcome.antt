-- ===== src/Locks/Outcome.antt =====
-- What a call of `Namespace::try_lock_range` (daemon/namespace.cpp) that returns has established, and
-- what it answers.
use forkfs.Common.{
  ℕ, ◌+◌, ◌-◌, ◌≤◌, ◌<◌, ◌≡◌, ◌⊎◌, ◌↔◌, inl, inr, Bool, true, false, not, ◌&&◌, ◌||◌, ltb, leb,
  ◌==◌, if◌then◌else◌, arith, ◌∙◌, ap, length, Bool-cases,
}
use forkfs.Common.Bytes.{Bytes}
use forkfs.Common.Map.{Entry, lookup-Entry}
use forkfs.Common.Result.{ok, Result-cases}
use forkfs.Handles.{OpenHandle, Cursor, Table, Selected, find_handle, set_cursor}
use forkfs.Locks.Ranges.{blocked}
use forkfs.Locks.Step.{
  Lock, shared, exclusive, unlock, relocked, requested, is_unlock, range_end, try_lock_range,
  int64_max,
}
use forkfs.Locks.Cover.{mode_at}
use forkfs.Locks.Grant.{granted, mode_at-relocked}
use forkfs.Locks.Conflicts.{
  clash, IsRival, Inv, locks_of, blocked_by-clear, blocked_by-clash, blocked-clear, blocked-IsRival,
}

pub range_end-bounds :
    (start len : ℕ)
    → (leb start int64_max && (len == 0 || leb len (int64_max + 1 - start))) ≡ true
    → (start < range_end start len) × (range_end start len ≤ int64_max + 1)
unfolding range_end
range_end-bounds start len h = ground arith

-- Everything that a call that returns has established.
pub record Outcome (t : Table) (ns : Selected) (token : Bytes) (mode : Lock) (start len : ℕ)
    (b : Bool) (t' : Table) : Type 0 where
  pub info : OpenHandle
  pub found : find_handle t ns token ≡ ok info
  pub entry : Entry token info t.handles
  pub bounds : (start < range_end start len) × (range_end start len ≤ int64_max + 1)
  pub result :
      ((b ≡ false)
        × (t' ≡ t)
        × (is_unlock mode ≡ false)
        × (blocked t.cursors info start (range_end start len) (requested mode) t.handles ≡ true))
      ⊎ ((b ≡ true)
          × (length (relocked mode start (range_end start len) (locks_of t info)) ≤ 128)
          × (t'
              ≡ set_cursor t info.cursor (record (t.cursors info.cursor) {
                locks = relocked mode start (range_end start len) (locks_of t info);
              }))
          × ((not (is_unlock mode)
                && blocked t.cursors info start (range_end start len) (requested mode) t.handles)
              ≡ false))

pub find_handle-Entry :
    (t : Table) (ns : Selected) (token : Bytes) {info : OpenHandle}
    → find_handle t ns token ≡ ok info
    → Entry token info t.handles
unfolding find_handle
find_handle-Entry t ns token {info} h = lookup-Entry token info t.handles (ground arith)

pub outcome :
    (t : Table) (ns : Selected) (token : Bytes) (mode : Lock) (start len : ℕ) (b : Bool)
    (t' : Table)
    → try_lock_range t ns token mode start len ≡ ok (b, t')
    → Outcome t ns token mode start len b t'
unfolding try_lock_range
outcome t ns token mode start len b t' h =
    elim (Bool-cases (leb start int64_max && (len == 0 || leb len (int64_max + 1 - start)))) [
      | inr over ↦ absurd (ground arith)
      | inl fits ↦ elim (Result-cases (find_handle t ns token)) [
        | inr (e, missing) ↦ absurd (ground arith)
        | inl (info, found) ↦ record {
          info = info;
          found = found;
          entry = find_handle-Entry t ns token found;
          bounds = range_end-bounds start len fits;
          result =
              elim (Bool-cases (
                not (is_unlock mode)
                && blocked t.cursors info start (range_end start len) (requested mode) t.handles)) [
                  | inl busy ↦ inl (ground arith, ground arith, ground arith, ground arith)
                  | inr free ↦ inr (ground arith, ground arith, ground arith, free)
                ];
        }
      ]
    ]

pub locks_of-set :
    (t : Table) (c : ℕ) (cursor : Cursor) (h : OpenHandle)
    → locks_of (set_cursor t c cursor) h ≡ (if h.cursor == c then cursor.locks else locks_of t h)
locks_of-set t c cursor h = ground arith

-- A conflicting range of another description of the file, at an offset in start..end.
abbrev pub Rivalry : Table → OpenHandle → ℕ → ℕ → Lock → Type 0
Rivalry t info start end mode =
    (token : Bytes) × (other : OpenHandle) × (x : ℕ) × Entry token other t.handles
    × IsRival other info
    × (start ≤ x)
    × (x < end)
    × (clash (requested mode) (mode_at (locks_of t other) x) ≡ true)

requested-pos : (mode : Lock) → 0 < requested mode
unfolding requested
requested-pos shared = omega arith
requested-pos exclusive = omega arith
requested-pos unlock = omega arith

pub blocked-Rivalry :
    (t : Table)
    → Inv t
    → (info : OpenHandle) (start end : ℕ) (mode : Lock) → is_unlock mode ≡ false
    → start < end
    → blocked t.cursors info start end (requested mode) t.handles ≡ true
    → Rivalry t info start end mode
blocked-Rivalry t v info start end mode lock h busy =
    let (token, other, e, r, k) =
      blocked-IsRival t.cursors info start end (requested mode) t.handles busy in
    let (x, lo, hi, _, c) =
      blocked_by-clash start end (requested mode) 0 (locks_of t other) h (requested-pos mode)
        (v.normal token other e).0 k in
    (token, other, x, e, r, lo, hi, c)

pub Rivalry-blocked :
    (t : Table) (info : OpenHandle) (start end : ℕ) (mode : Lock)
    → Rivalry t info start end mode
    → blocked t.cursors info start end (requested mode) t.handles ≡ false
    → ⊥
Rivalry-blocked t info start end mode (token, other, x, e, r, lo, hi, c) free = ground (
  arith,
  blocked_by-clear start end (requested mode) x (locks_of t other)
      (blocked-clear t.cursors info start end (requested mode) t.handles free token other e r) lo
      hi,
)

-- Under the invariant, a request for a lock that returns is refused exactly when some other description
-- of the same file holds, at an offset of the range, a mode that conflicts with the one requested; a
-- call that does not return true leaves the table as it was.
pub try_lock_range_refused :
    (t : Table) (ns : Selected) (token : Bytes) (mode : Lock) (start len : ℕ) (b : Bool)
    (t' : Table)
    → Inv t
    → is_unlock mode ≡ false
    → try_lock_range t ns token mode start len ≡ ok (b, t')
    → (info : OpenHandle) × (find_handle t ns token ≡ ok info)
      × ((b ≡ false) ↔ Rivalry t info start (range_end start len) mode)
      × ((b ≡ true) ⊎ (t' ≡ t))
try_lock_range_refused t ns token mode start len b t' v lock h =
    let o = outcome t ns token mode start len b t' h in
    (
      o.info,
      o.found,
      elim o.result [
        | inl (no', _, _, busy) ↦
            ((λ _. blocked-Rivalry t v o.info start _ mode lock o.bounds.0 busy), (λ _. no'))
        | inr (grants, _, _, free) ↦ (
          (λ no'. absurd (ground arith)),
          λ r. absurd (Rivalry-blocked t o.info start _ mode r (ground arith)),
        )
      ],
      elim o.result [ inl (_, same, _, _) ↦ inr same | inr (grants, _, _, _) ↦ inl grants ],
    )

-- Under the invariant, a call that returns true leaves on every offset of the range the mode asked for
-- (none for an unlock), in every handle that shares the description of the given handle; all other
-- modes, and all modes of other descriptions, are what they were.
pub try_lock_range-granted :
    (t : Table) (ns : Selected) (token : Bytes) (mode : Lock) (start len : ℕ) (t' : Table)
    → Inv t
    → try_lock_range t ns token mode start len ≡ ok (true, t')
    → (info : OpenHandle) × (find_handle t ns token ≡ ok info)
      × ((h : OpenHandle) (x : ℕ)
          → mode_at (locks_of t' h) x ≡ (
              if (h.cursor == info.cursor) && (leb start x && ltb x (range_end start len))
              then granted mode
              else mode_at (locks_of t h) x))
try_lock_range-granted t ns token mode start len t' v h =
    let o = outcome t ns token mode start len true t' h in
    (
      o.info,
      o.found,
      λ k x. elim o.result [
        | inl (no', _, _, _) ↦ absurd (ground arith)
        | inr (_, _, new, _) ↦ rw new (
            ap (λ l. mode_at l x) (locks_of-set t o.info.cursor _ k)
            ∙ elim (Bool-cases (k.cursor == o.info.cursor)) [
              | inl own ↦ rw own (
                  mode_at-relocked start (range_end start len) (locks_of t o.info) o.bounds.0
                    (v.normal token o.info o.entry).0 mode x
                  ∙ ground arith)
              | inr other ↦ rw other
            ])
      ],
    )
