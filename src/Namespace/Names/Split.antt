-- ===== src/Namespace/Names/Split.antt =====
-- The pieces of a path between its slashes, as the loops of `components` and `target_components`
-- (daemon/namespace.cpp) find them, and their join.
use forkfs.Common.{
  ℕ, ◌≡◌, ◌≢◌, refl, ap, Bool, true, false, inl, inr, List, [], ◌∷◌, ◌++◌, ◌==◌, subst,
  if◌then◌else◌, arith, All, Bool-cases,
}
use forkfs.Common.Bytes.{Bytes}

unfoldable pub is_empty : Bytes → Bool
is_empty [] = true
is_empty (c ∷ cs) = false

abbrev pub put_front : ℕ → List Bytes → List Bytes
put_front c [] = (c ∷ []) ∷ []
put_front c (piece ∷ pieces) = (c ∷ piece) ∷ pieces

-- path.find('/',begin) and path.substr(begin,end-begin), over and over.
unfoldable pub split : Bytes → List Bytes
split [] = [] ∷ []
split (c ∷ cs) = let rest = split cs in if c == b'/' then [] ∷ rest else put_front c rest

-- The names with a slash before each: the rest of the path after the first name.
unfoldable pub joined : List Bytes → Bytes
joined [] = []
joined (name ∷ names) = b'/' ∷ (name ++ joined names)

-- No slash in it.
abbrev pub IsSegment : Bytes → Type 0
IsSegment = All (λ c. c ≢ b'/')

pub split-cons : (cs : Bytes) → (first : Bytes) × (rest : List Bytes) × (split cs ≡ first ∷ rest)
unfolding split
split-cons [] = ([], [], refl)
split-cons (c ∷ cs) =
    let (first, rest, e) = split-cons cs in
    elim (Bool-cases (c == b'/')) [
      | inl slash ↦ ([], split cs, rw slash)
      | inr other ↦ (c ∷ first, rest, rw (other, e))
    ]

-- The pieces are segments, and joined by slashes they are the text.
pub split-joined : (cs : Bytes) → (All IsSegment (split cs)) × (joined (split cs) ≡ b'/' ∷ cs)
unfolding split joined
split-joined [] = ((tt, tt), refl)
split-joined (c ∷ cs) =
    let (first, rest, e) = split-cons cs in
    let ih = split-joined cs in
    let ih' = subst (λ ps. All IsSegment ps × (joined ps ≡ b'/' ∷ cs)) e ih in
    elim (Bool-cases (c == b'/')) [
      | inl slash ↦ rw slash ((tt, ih.0), ground (arith, ih.1))
      | inr other ↦ rw (other, e) (((ground arith, ih'.0.0), ih'.0.1), ground (arith, ih'.1))
    ]

-- The text of segments splits into them.
pub split-segments :
    (name : Bytes) (names : List Bytes)
    → IsSegment name
    → All IsSegment names
    → split (name ++ joined names) ≡ name ∷ names
unfolding split joined
split-segments [] [] s a = refl
split-segments [] (next ∷ names) s a = ap (◌∷◌ []) (split-segments next names a.0 a.1)
split-segments (c ∷ cs) names s a =
    let other : (c == b'/') ≡ false = ground (arith, s.0) in
    rw (other, split-segments cs names s.1 a)
