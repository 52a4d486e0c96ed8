-- ===== src/Tree/Bounds.antt =====
-- The bounds of a subtree in the walk of entries (daemon/metadata_tree.cpp), and the keys between them.
use forkfs.Common.{
  ◌≡◌, refl, ◌⊎◌, inl, inr, Bool, true, false, ◌&&◌, Option, none, some, Bool-cases, &&-split,
  if◌then◌else◌, ◌∙◌, sym, ap, arith,
}
use forkfs.Common.Bytes.{
  Bytes, bytes_eq, bytes_lt, bytes_lt_trans, bytes_lt_total, bytes_eq_sym, bytes_lt_irrefl,
  bytes_eq-eq,
}
use forkfs.Common.Map
use forkfs.Common.Map.{Map, insert, contains, lookup-insert, lookup-insert_self}
use forkfs.View.Run.{ObjectId}
use forkfs.Tree.Read.{above, under, emplace}

abbrev pub within : Option Bytes → Option Bytes → Bytes → Bool
within lo hi key = above lo key && under hi key

above_trans :
    (lo : Option Bytes) (k x : Bytes) → above lo k ≡ true → bytes_lt k x ≡ true → above lo x ≡ true
above_trans none k x h l = refl
above_trans (some lo) k x h l = bytes_lt_trans lo k x h l

pub under_trans :
    (hi : Option Bytes) (k x : Bytes) → under hi k ≡ true → bytes_lt x k ≡ true → under hi x ≡ true
under_trans none k x h l = refl
under_trans (some hi) k x h l = bytes_lt_trans x k hi l h

pub both : {a b : Bool} → a ≡ true → b ≡ true → (a && b) ≡ true
both p q = rw p q

-- What lies left or right of a key in the range lies in the range.
module _ (lo hi : Option Bytes) (k x : Bytes) (mid : within lo hi k ≡ true) where
  pub within_left : within lo (some k) x ≡ true → within lo hi x ≡ true
  within_left h =
      let (up, down) = &&-split (above lo x) (under (some k) x) h in
      both up (under_trans hi k x (&&-split (above lo k) (under hi k) mid).1 down)

  pub within_right : within (some k) hi x ≡ true → within lo hi x ≡ true
  within_right h =
      let (up, down) = &&-split (above (some k) x) (under hi x) h in
      both (above_trans lo k x (&&-split (above lo k) (under hi k) mid).0 up) down

pub not_left :
    (lo : Option Bytes) (k x : Bytes) → bytes_lt x k ≡ false → within lo (some k) x ≡ false
not_left lo k x h = ground (arith, &&-split (above lo x) (under (some k) x))

pub not_right :
    (hi : Option Bytes) (k x : Bytes) → bytes_lt k x ≡ false → within (some k) hi x ≡ false
not_right hi k x h = rw h refl

pub bytes_lt_asym : (x k : Bytes) → bytes_lt x k ≡ true → bytes_lt k x ≡ false
bytes_lt_asym x k low = elim (Bool-cases (bytes_lt k x)) [
  | inr not_back ↦ not_back
  | inl back ↦ let e = bytes_lt_trans x k x low back in let f = bytes_lt_irrefl x in cc
]

-- Two keys are equal, or one is below the other and not above it.
pub trichotomy :
    (x k : Bytes)
    → (x ≡ k)
      ⊎ (((bytes_lt x k ≡ true) × (bytes_lt k x ≡ false) × (bytes_eq k x ≡ false))
          ⊎ ((bytes_lt k x ≡ true) × (bytes_lt x k ≡ false) × (bytes_eq k x ≡ false)))
trichotomy x k = elim (Bool-cases (bytes_eq k x)) [
  | inl same ↦ inl (sym (bytes_eq-eq k x same))
  | inr differ ↦ elim (Bool-cases (bytes_lt x k)) [
    | inl low ↦ inr (inl (low, bytes_lt_asym x k low, differ))
    | inr high ↦ inr (inr (bytes_lt_total x k high (bytes_eq_sym x k ∙ differ), high, differ))
  ]
]

absent : (k : Bytes) (m : Map ObjectId) → Map.lookup k m ≡ none → contains k m ≡ false
absent k m fresh = ground arith

-- A key that the map does not have is put in.
pub lookup-emplace :
    (key k : Bytes) (value : ObjectId) (m : Map ObjectId)
    → Map.lookup k m ≡ none
    → Map.lookup key (emplace k value m) ≡ (if bytes_eq k key then some value else Map.lookup key m)
lookup-emplace key k value m fresh =
    let new : contains k m ≡ false = absent k m fresh in
    ap (λ (b : Bool). Map.lookup key (if b then m else insert k value m)) new
    ∙ lookup-insert key k value m
