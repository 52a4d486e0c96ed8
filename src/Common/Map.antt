-- ===== src/Common/Map.antt =====
-- `std::map<std::string, V>`: an association list kept in key order.
use mathlib.Core.Path.{◌≡◌, refl, ◌∙◌}
use mathlib.Core.Logic.{◌⊎◌, inl, inr}
use mathlib.Core.Bool.{Bool, true, false}
use mathlib.Core.Option.{Option, none, some}
use mathlib.Core.List.{List, [], ◌∷◌}
use native.Mathlib.Omega.{arith}
use forkfs.Common.Logic.{if◌then◌else◌, Bool-cases}
use forkfs.Common.Bytes.{
  Bytes, bytes_eq, bytes_lt, bytes_eq-eq, bytes_eq_refl, bytes_eq_sym, bytes_lt_total,
  bytes_lt_trans, bytes_lt_irrefl,
}

abbrev pub Map {ℓ} : Type ℓ → Type ℓ
Map V = List (Bytes × V)

module _ {ℓ} {V : Type ℓ} where
  unfoldable pub lookup : Bytes → Map V → Option V
  lookup k [] = none
  lookup k ((j, v) ∷ m) = if bytes_eq j k then some v else lookup k m

  unfoldable pub insert : Bytes → V → Map V → Map V
  insert k v [] = (k, v) ∷ []
  insert k v ((j, w) ∷ m) =
      if bytes_eq j k
      then (k, v) ∷ m
      else if bytes_lt k j
      then (k, v) ∷ (j, w) ∷ m
      else (j, w) ∷ insert k v m

  unfoldable pub erase : Bytes → Map V → Map V
  erase k [] = []
  erase k ((j, w) ∷ m) = let rest = erase k m in if bytes_eq j k then rest else (j, w) ∷ rest

  abbrev pub contains : Bytes → Map V → Bool
  contains k m = elim (lookup k m) [ none ↦ false | some _ ↦ true ]

  pub lookup-insert :
      (j k : Bytes) (v : V) (m : Map V)
      → lookup j (insert k v m) ≡ (if bytes_eq k j then some v else lookup j m)
  unfolding lookup insert
  lookup-insert j k v [] = refl
  lookup-insert j k v ((i, w) ∷ m) = ground (
    arith,
    bytes_eq-eq k j,
    bytes_eq-eq i k,
    bytes_eq-eq i j,
    bytes_eq_refl k,
    bytes_eq_refl j,
    lookup-insert j k v m,
  )

  pub lookup-erase :
      (j k : Bytes) (m : Map V) → lookup j (erase k m) ≡ (if bytes_eq k j then none else lookup j m)
  unfolding lookup erase
  lookup-erase j k [] = ground arith
  lookup-erase j k ((i, w) ∷ m) = ground (
    arith,
    bytes_eq-eq k j,
    bytes_eq-eq i k,
    bytes_eq-eq i j,
    bytes_eq_refl k,
    bytes_eq_refl j,
    lookup-erase j k m,
  )

  pub lookup-insert_self : (k : Bytes) (v : V) (m : Map V) → lookup k (insert k v m) ≡ some v
  lookup-insert_self k v m = rw lookup-insert (rw bytes_eq_refl)

-- Keys rise strictly along the list, all above `lo`.
abbrev pub IsAbove {ℓ} : {V : Type ℓ} → Bytes → Map V → Type 0
IsAbove lo [] = Unit {0}
IsAbove lo ((k, v) ∷ m) = (bytes_lt lo k ≡ true) × IsAbove k m

abbrev pub IsOrdered {ℓ} : {V : Type ℓ} → Map V → Type 0
IsOrdered [] = Unit {0}
IsOrdered ((k, v) ∷ m) = IsAbove k m

module _ {ℓ} {V : Type ℓ} where
  pub IsAbove-insert :
      (lo k : Bytes) (v : V) (m : Map V)
      → bytes_lt lo k ≡ true
      → IsAbove lo m
      → IsAbove lo (insert k v m)
  unfolding insert
  IsAbove-insert lo k v [] p a = (p, tt)
  IsAbove-insert lo k v ((j, w) ∷ m) p a = elim (Bool-cases (bytes_eq j k)) [
    | inl e ↦ rw e (p, subst_above (bytes_eq-eq j k e) m a.1)
    | inr n ↦ rw n (elim (Bool-cases (bytes_lt k j)) [
      | inl l ↦ rw l (p, (l, a.1))
      | inr g ↦ rw g (a.0, IsAbove-insert j k v m (bytes_lt_total k j g (bytes_eq_sym k j ∙ n)) a.1)
    ])
  ]
    where
      subst_above : {i k : Bytes} → i ≡ k → (m : Map V) → IsAbove i m → IsAbove k m
      subst_above e m h = rw e at h

  -- Insertion keeps the order of the keys.
  pub insert-IsOrdered : (k : Bytes) (v : V) (m : Map V) → IsOrdered m → IsOrdered (insert k v m)
  unfolding insert
  insert-IsOrdered k v [] a = tt
  insert-IsOrdered k v ((j, w) ∷ m) a = elim (Bool-cases (bytes_eq j k)) [
    | inl e ↦ rw e (rw (bytes_eq-eq j k e) at a)
    | inr n ↦ rw n (elim (Bool-cases (bytes_lt k j)) [
      | inl l ↦ rw l (l, a)
      | inr g ↦ rw g (IsAbove-insert j k v m (bytes_lt_total k j g (bytes_eq_sym k j ∙ n)) a)
    ])
  ]

-- An entry of the list, met by a loop over the map.
abbrev pub Entry : {V : Type 0} → Bytes → V → Map V → Type 0
Entry k v [] = ⊥
Entry k v ((j, w) ∷ m) = ((j ≡ k) × (w ≡ v)) ⊎ Entry k v m

module _ {V : Type 0} where
  pub lookup-Entry : (k : Bytes) (v : V) (m : Map V) → lookup k m ≡ some v → Entry k v m
  unfolding lookup
  lookup-Entry k v [] h = cc
  lookup-Entry k v ((j, w) ∷ m) h = elim (Bool-cases (bytes_eq j k)) [
    | inl e ↦ inl (bytes_eq-eq j k e, ground arith)
    | inr n ↦ inr (lookup-Entry k v m (ground arith))
  ]

module _ {ℓ} {V : Type ℓ} where
  -- An ordered map holds no key at or below its lower bound.
  pub lookup-IsAbove :
      (lo k : Bytes) (m : Map V) → IsAbove lo m → bytes_lt lo k ≡ false → lookup k m ≡ none
  unfolding lookup
  lookup-IsAbove lo k [] a h = refl
  lookup-IsAbove lo k ((j, w) ∷ m) a h = elim (Bool-cases (bytes_eq j k)) [
    | inl e ↦ let p : bytes_lt lo k ≡ true = rw (← bytes_eq-eq j k e) a.0 in cc
    | inr n ↦ rw n (
        lookup-IsAbove j k m a.1 (elim (Bool-cases (bytes_lt j k)) [
          | inl up ↦
              let p : bytes_lt lo k ≡ true = bytes_lt_trans lo j k a.0 up in absurd (ground arith)
          | inr down ↦ down
        ]))
  ]

  pub lookup-head : (k : Bytes) (m : Map V) → IsAbove k m → lookup k m ≡ none
  lookup-head k m a = lookup-IsAbove k k m a (bytes_lt_irrefl k)

  pub IsAbove-IsOrdered : (lo : Bytes) (m : Map V) → IsAbove lo m → IsOrdered m
  IsAbove-IsOrdered lo [] a = tt
  IsAbove-IsOrdered lo ((k, v) ∷ m) a = a.1

  pub IsAbove-trans :
      (lo hi : Bytes) (m : Map V) → bytes_lt lo hi ≡ true → IsAbove hi m → IsAbove lo m
  IsAbove-trans lo hi [] h a = tt
  IsAbove-trans lo hi ((k, v) ∷ m) h a = (bytes_lt_trans lo hi k h a.0, a.1)

  IsAbove-erase : (lo k : Bytes) (m : Map V) → IsAbove lo m → IsAbove lo (erase k m)
  unfolding erase
  IsAbove-erase lo k [] a = tt
  IsAbove-erase lo k ((j, w) ∷ m) a = elim (Bool-cases (bytes_eq j k)) [
    | inl e ↦ rw e (IsAbove-trans lo j (erase k m) a.0 (IsAbove-erase j k m a.1))
    | inr n ↦ rw n (a.0, IsAbove-erase j k m a.1)
  ]

  pub erase-IsOrdered : (k : Bytes) (m : Map V) → IsOrdered m → IsOrdered (erase k m)
  unfolding erase
  erase-IsOrdered k [] a = tt
  erase-IsOrdered k ((j, w) ∷ m) a = elim (Bool-cases (bytes_eq j k)) [
    | inl e ↦ rw e (IsAbove-IsOrdered j (erase k m) (IsAbove-erase j k m a))
    | inr n ↦ rw n (IsAbove-erase j k m a)
  ]
