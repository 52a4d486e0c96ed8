-- ===== src/Tree/Picks.antt =====
-- The keys that a page is cut from (MetadataTree::page, daemon/metadata_tree.cpp).
use forkfs.Common.{
  ℕ, zero, suc, ◌≤◌, ◌<◌, ◌≡◌, refl, sym, ap, ◌∙◌, inl, inr, Bool, true, false, ◌&&◌, ◌||◌, List,
  [], ◌∷◌, ◌++◌, if◌then◌else◌, arith, All, Bool-cases, length, take, ◌==◌,
}
use forkfs.Common.Bytes.{Bytes, bytes_lt, bytes_lt_trans, starts_with}
use forkfs.Common.Map.{Map}
use forkfs.View.Run.{ObjectId}
use forkfs.Tree.Read.{under, upper_of}
use forkfs.Tree.Bounds.{trichotomy}
use forkfs.Tree.Prefixes.{starts_with-lt, left_out, right_out}
use mathlib.Core.List.{append-nil}

-- starts_with(prefix) && (after.empty() || key>after)
abbrev pub wanted : Bytes → Bytes → Bytes → Bool
wanted p after key = starts_with key p && (length after == 0 || bytes_lt after key)

unfoldable pub picked : Bytes → Bytes → Map ObjectId → List Bytes
picked p after [] = []
picked p after ((k, v) ∷ m) =
    let rest = picked p after m in if wanted p after k then k ∷ rest else rest

pub picked-append :
    (p after : Bytes) (a b : Map ObjectId)
    → picked p after (a ++ b) ≡ picked p after a ++ picked p after b
unfolding picked
picked-append p after [] b = refl
picked-append p after ((k, v) ∷ a) b = elim (Bool-cases (wanted p after k)) [
  | inl one ↦ rw one (ap (◌∷◌ k) (picked-append p after a b))
  | inr not_one ↦ rw not_one (picked-append p after a b)
]

pub picked_none :
    (p after : Bytes) (m : Map ObjectId)
    → All (λ e. wanted p after e.0 ≡ false) m
    → picked p after m ≡ []
unfolding picked
picked_none p after [] a = refl
picked_none p after ((k, v) ∷ m) a = rw a.0 (picked_none p after m a.1)

abbrev pub lower : Bytes → Bytes → Bytes
lower p after = if length after == 0 then p else after

and_false : (b : Bool) → (b && false) ≡ false
and_false true = refl
and_false false = refl

at_prefix : (x p : Bytes) → bytes_lt x p ≡ true → starts_with x p ≡ false
at_prefix x p below = elim (Bool-cases (starts_with x p)) [
  | inr not_one ↦ not_one
  | inl one ↦ let e = starts_with-lt x p one in cc
]

-- No key below one that is not above the lower bound is wanted.
pub not_above :
    (p after k x : Bytes)
    → bytes_lt (lower p after) k ≡ false
    → bytes_lt x k ≡ true
    → wanted p after x ≡ false
not_above p after k x low below = elim (Bool-cases (length after == 0)) [
  | inl empty ↦
      let low' : bytes_lt p k ≡ false = rw empty at low in
      let no_prefix : starts_with x p ≡ false = elim (trichotomy k p) [
        | inl same ↦ at_prefix x p (ap (bytes_lt x) (sym same) ∙ below)
        | inr (inl (less, _, _)) ↦ left_out k x p less below
        | inr (inr (more, _, _)) ↦ cc
      ] in
      rw no_prefix refl
  | inr there ↦
      let low' : bytes_lt after k ≡ false = rw there at low in
      elim (Bool-cases (bytes_lt after x)) [
        | inl up ↦ let e = bytes_lt_trans after x k up below in cc
        | inr not_up ↦ rw (there, not_up) (and_false (starts_with x p))
      ]
]

pub not_under :
    (p after k x : Bytes)
    → under (upper_of p) k ≡ false
    → bytes_lt k x ≡ true
    → wanted p after x ≡ false
not_under p after k x high above' = rw (right_out k x p high above') refl

-- A list cut off at a length that it has already.
pub take_full :
    (n : ℕ) (xs ys : List Bytes) → length (take n xs) ≡ n → take n (xs ++ ys) ≡ take n xs
take_full zero xs ys h = refl
take_full (suc n) [] ys h = absurd (omega arith)
take_full (suc n) (x ∷ xs) ys h = ap (◌∷◌ x) (take_full n xs ys (omega arith))

pub take_all : (n : ℕ) (xs : List Bytes) → length xs ≤ n → take n xs ≡ xs
take_all zero [] h = refl
take_all zero (x ∷ xs) h = absurd (omega arith)
take_all (suc n) [] h = refl
take_all (suc n) (x ∷ xs) h = ap (◌∷◌ x) (take_all n xs (omega arith))

pub take_short :
    (n : ℕ) (xs : List Bytes)
    → (length (take n xs) == n) ≡ false
    → (take n xs ≡ xs) × (length xs < n)
take_short zero xs h = cc
take_short (suc n) [] h = (refl, omega arith)
take_short (suc n) (x ∷ xs) h =
    let (same, less) = take_short n xs (ground arith) in (ap (◌∷◌ x) same, omega arith)

pub with_key :
    (p after k : Bytes) (value : ObjectId) (out : List Bytes)
    → (if wanted p after k then out ++ (k ∷ []) else out) ≡ out ++ picked p after ((k, value) ∷ [])
unfolding picked
with_key p after k value out = elim (Bool-cases (wanted p after k)) [
  | inl one ↦ rw one refl
  | inr not_one ↦ rw not_one (sym (append-nil out))
]

pub All-map :
    {A : Type 0} (P Q : A → Type 0) (xs : List A) → ((x : A) → P x → Q x) → All P xs → All Q xs
All-map P Q [] f a = tt
All-map P Q (x ∷ xs) f a = (f x a.0, All-map P Q xs f a.1)
