-- ===== src/Tree/Prefixes.antt =====
-- Where a walk over the keys with a prefix may turn back (MetadataTree::keys, daemon/metadata_tree.cpp).
use forkfs.Common.{
  ◌≡◌, refl, ap, ◌∙◌, inl, inr, Bool, true, false, none, List, [], ◌∷◌, ◌++◌, ◌==◌, if◌then◌else◌,
  arith, Bool-cases, Option-cases, All, &&-split,
}
use forkfs.Common.Bytes.{Bytes, bytes_lt, starts_with, bytes_lt-ne, bytes_lt_trans}
use forkfs.Common.Map
use forkfs.Common.Map.{Map, insert, contains}
use forkfs.View.Run.{ObjectId}
use forkfs.Tree.Read.{upper_of, under, emplace}
use forkfs.Tree.Bounds.{bytes_lt_asym, under_trans}

-- A string is not below a prefix of it.
pub starts_with-lt : (x p : Bytes) → starts_with x p ≡ true → bytes_lt x p ≡ false
unfolding starts_with bytes_lt
starts_with-lt [] [] h = refl
starts_with-lt (x ∷ xs) [] h = refl
starts_with-lt [] (p ∷ ps) h = cc
starts_with-lt (x ∷ xs) (p ∷ ps) h = ground (arith, starts_with-lt xs ps)

-- It is below the string that upper_of gives.
starts_with-upper_of : (x p : Bytes) → starts_with x p ≡ true → under (upper_of p) x ≡ true
unfolding starts_with upper_of bytes_lt
starts_with-upper_of x [] h = refl
starts_with-upper_of [] (p ∷ ps) h = cc
starts_with-upper_of (x ∷ xs) (p ∷ ps) h =
    let (same, more) = &&-split (x == p) (starts_with xs ps) h in
    elim (Option-cases (upper_of ps)) [
      | inl top ↦ elim (Bool-cases (p == 255)) [
        | inl last ↦ rw (top, upper_of) (rw last refl)
        | inr less ↦ rw (top, upper_of) (rw less (ground arith))
      ]
      | inr (upper, e) ↦
          let ih = starts_with-upper_of xs ps more in
          let low : bytes_lt xs upper ≡ true = rw e at ih in rw (e, upper_of) (ground arith)
    ]

-- Keys below one that is below the prefix, and keys above one that is not below its upper bound.
pub left_out : (k x p : Bytes) → bytes_lt k p ≡ true → bytes_lt x k ≡ true → starts_with x p ≡ false
left_out k x p low below = elim (Bool-cases (starts_with x p)) [
  | inr not_one ↦ not_one
  | inl one ↦ let e = starts_with-lt x p one in let f = bytes_lt_trans x k p below low in cc
]

pub right_out :
    (k x p : Bytes) → under (upper_of p) k ≡ false → bytes_lt k x ≡ true → starts_with x p ≡ false
right_out k x p high above' = elim (Bool-cases (starts_with x p)) [
  | inr not_one ↦ not_one
  | inl one ↦ let e = under_trans (upper_of p) x k (starts_with-upper_of x p one) above' in cc
]

-- The keys of a map that have the prefix, in order.
unfoldable pub chosen : Bytes → Map ObjectId → List Bytes
chosen prefix [] = []
chosen prefix ((k, v) ∷ m) =
    let rest = chosen prefix m in if starts_with k prefix then k ∷ rest else rest

pub chosen-append : (p : Bytes) (a b : Map ObjectId) → chosen p (a ++ b) ≡ chosen p a ++ chosen p b
unfolding chosen
chosen-append p [] b = refl
chosen-append p ((k, v) ∷ a) b = elim (Bool-cases (starts_with k p)) [
  | inl one ↦ rw one (ap (◌∷◌ k) (chosen-append p a b))
  | inr not_one ↦ rw not_one (chosen-append p a b)
]

pub chosen_none :
    (p : Bytes) (m : Map ObjectId) → All (λ e. starts_with e.0 p ≡ false) m → chosen p m ≡ []
unfolding chosen
chosen_none p [] a = refl
chosen_none p ((k, v) ∷ m) a = rw a.0 (chosen_none p m a.1)

-- Every key of the map is below x.
abbrev pub Below : Bytes → Map ObjectId → Type 0
Below x m = All (λ e. bytes_lt e.0 x ≡ true) m

lookup-Below : (k : Bytes) (m : Map ObjectId) → Below k m → Map.lookup k m ≡ none
unfolding Map.lookup
lookup-Below k [] a = refl
lookup-Below k ((j, w) ∷ m) a = rw (bytes_lt-ne j k a.0) (lookup-Below k m a.1)

insert-Below :
    (k : Bytes) (v : ObjectId) (m : Map ObjectId) → Below k m → insert k v m ≡ m ++ ((k, v) ∷ [])
unfolding insert
insert-Below k v [] a = refl
insert-Below k v ((j, w) ∷ m) a =
    rw (bytes_lt-ne j k a.0, bytes_lt_asym j k a.0) (ap (◌∷◌ (j, w)) (insert-Below k v m a.1))

-- A key above all others goes to the end.
pub emplace-Below :
    (k : Bytes) (v : ObjectId) (m : Map ObjectId) → Below k m → emplace k v m ≡ m ++ ((k, v) ∷ [])
emplace-Below k v m a =
    let fresh = lookup-Below k m a in
    let new : contains k m ≡ false = ground arith in
    ap (λ (b : Bool). if b then m else insert k v m) new ∙ insert-Below k v m a
