-- ===== src/Locks/Cover.antt =====
-- What a list of lock ranges means: the mode held at each offset, 0 for none.
use forkfs.Common.{
  ℕ, ◌≤◌, ◌<◌, ◌≡◌, refl, ◌⊎◌, inl, inr, Bool, ◌&&◌, ◌||◌, List, [], ◌∷◌, ◌++◌, ltb, leb,
  if◌then◌else◌, arith, ◌∙◌, Bool-cases,
}
use forkfs.Handles.{LockRange}
use forkfs.Locks.Ranges.{pieces, carve}

unfoldable pub holds : LockRange → ℕ → Bool
holds r x = leb r.start x && ltb x r.end

unfoldable pub mode_at : List LockRange → ℕ → ℕ
mode_at [] x = 0
mode_at (r ∷ rs) x = if leb r.start x && ltb x r.end then r.mode else mode_at rs x

-- Non-empty ranges with a mode, in rising order from `lo` on, none overlapping the next.
abbrev pub IsChain : ℕ → List LockRange → Type 0
IsChain lo [] = Unit {0}
IsChain lo (r ∷ rs) = (lo ≤ r.start) × (r.start < r.end) × (0 < r.mode) × IsChain r.end rs

-- No range meets start <= x < end.
abbrev pub IsClear : ℕ → ℕ → List LockRange → Type 0
IsClear s e [] = Unit {0}
IsClear s e (r ∷ rs) = ((e ≤ r.start) ⊎ (r.end ≤ s)) × IsClear s e rs

pub IsChain-mono : (lo hi : ℕ) (rs : List LockRange) → lo ≤ hi → IsChain hi rs → IsChain lo rs
IsChain-mono lo hi [] h c = tt
IsChain-mono lo hi (r ∷ rs) h c = (omega arith, c.1, c.2, c.3)

-- Below its first bound a chain holds nothing.
pub mode_at-below : (lo x : ℕ) (rs : List LockRange) → IsChain lo rs → x < lo → mode_at rs x ≡ 0
unfolding mode_at
mode_at-below lo x [] c h = refl
mode_at-below lo x (r ∷ rs) c h = ground (arith, mode_at-below r.end x rs c.3)

-- Nor does a list clear of a span hold anything in it.
pub mode_at-clear :
    (s e x : ℕ) (rs : List LockRange) → IsClear s e rs → s ≤ x → x < e → mode_at rs x ≡ 0
unfolding mode_at
mode_at-clear s e x [] c p q = refl
mode_at-clear s e x (r ∷ rs) c p q = ground (arith, mode_at-clear s e x rs c.1)

-- The mode at `x` of a list that begins with `r`, and that of a range carved down to nothing in s..e.
under : ℕ → ℕ → LockRange → ℕ → ℕ → ℕ
under s e r x rest =
    if leb s x && ltb x e then rest else if leb r.start x && ltb x r.end then r.mode else rest

mode_at-pieces :
    (s e x : ℕ) (r : LockRange) (ys : List LockRange)
    → s < e
    → r.start < r.end
    → mode_at (pieces s e r ++ ys) x ≡ under s e r x (mode_at ys x)
unfolding mode_at pieces under
mode_at-pieces s e x r ys h q = elim (Bool-cases (leb r.end s || leb e r.start)) [
  | inl apart ↦ rw apart (ground arith)
  | inr meet ↦ rw meet (elim (Bool-cases (ltb r.start s)) [
    | inl left ↦ rw left (elim (Bool-cases (ltb e r.end)) [
      | inl right ↦ rw right (ground arith)
      | inr over ↦ rw over (ground arith)
    ])
    | inr inside ↦ rw inside (elim (Bool-cases (ltb e r.end)) [
      | inl right ↦ rw right (ground arith)
      | inr over ↦ rw over (ground arith)
    ])
  ])
]

pub mode_at-carve :
    (s e x lo : ℕ) (rs : List LockRange)
    → s < e
    → IsChain lo rs
    → mode_at (carve s e rs) x ≡ (if leb s x && ltb x e then 0 else mode_at rs x)
unfolding mode_at carve under
mode_at-carve s e x lo [] h c = ground arith
mode_at-carve s e x lo (r ∷ rs) h c =
    mode_at-pieces s e x r (carve s e rs) h c.1
    ∙ rw (mode_at-carve s e x r.end rs h c.3) (ground arith)

pub carve-IsClear : (s e : ℕ) (rs : List LockRange) → s < e → IsClear s e (carve s e rs)
unfolding carve
carve-IsClear s e [] h = tt
carve-IsClear s e (r ∷ rs) h = ground (arith, carve-IsClear s e rs h)

pub carve-IsChain :
    (s e lo : ℕ) (rs : List LockRange) → s < e → IsChain lo rs → IsChain lo (carve s e rs)
unfolding carve
carve-IsChain s e lo [] h c = tt
carve-IsChain s e lo (r ∷ rs) h c = ground (
  arith,
  carve-IsChain s e r.end rs h c.3,
  IsChain-mono s r.end (carve s e rs),
  IsChain-mono lo r.end (carve s e rs),
)
