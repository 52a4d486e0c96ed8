-- ===== src/Namespace/Listing/Picked.antt =====
-- The keys behind a key that a page ended with (`read_directory`, daemon/namespace.cpp).
use forkfs.Common.{
  ℕ, zero, suc, ◌≡◌, ◌≢◌, refl, ◌∙◌, subst, Bool, true, false, ◌&&◌, ◌||◌, ◌⊎◌, inl, inr, List, [],
  ◌∷◌, length, ◌==◌, take, drop, arith, Bool-cases, &&-split,
}
use forkfs.Common.Bytes.{Bytes, bytes_lt, starts_with, bytes_lt_trans, bytes_lt_irrefl}
use forkfs.Common.Map.{Map, IsAbove, IsOrdered, IsAbove-IsOrdered}
use forkfs.View.Run.{ObjectId}
use forkfs.Tree.Picks.{wanted, picked}
use forkfs.Namespace.Listing.{last_or}

List-cases : (xs : List Bytes) → (xs ≡ []) ⊎ ((y : Bytes) × (ys : List Bytes) × (xs ≡ y ∷ ys))
List-cases [] = inl refl
List-cases (x ∷ xs) = inr (x, xs, refl)

-- A key that is picked behind a bound lies above it.
picked-above :
    (p after lo x : Bytes) (xs : List Bytes) (m : Map ObjectId)
    → IsAbove lo m
    → picked p after m ≡ x ∷ xs
    → bytes_lt lo x ≡ true
unfolding picked
picked-above p after lo x xs [] a h = absurd (cc)
picked-above p after lo x xs ((k, v) ∷ m) a h = elim (Bool-cases (wanted p after k)) [
  | inl yes_k ↦ let h' = rw yes_k at h in let same : k ≡ x = cc in rw (← same) a.0
  | inr no_k ↦
      let h' = rw no_k at h in bytes_lt_trans lo k x a.0 (picked-above p after k x xs m a.1 h')
]

-- Above both bounds, both pick the same keys.
picked-same :
    (p lo after after' : Bytes) (m : Map ObjectId)
    → IsAbove lo m
    → ((k : Bytes) → bytes_lt lo k ≡ true → wanted p after k ≡ wanted p after' k)
    → picked p after m ≡ picked p after' m
unfolding picked
picked-same p lo after after' [] a same = refl
picked-same p lo after after' ((k, v) ∷ m) a same =
    let ih = picked-same p k after after' m a.1 (λ j up. same j (bytes_lt_trans lo k j a.0 up)) in
    rw (same k a.0, ih)

or_true : (b : Bool) → (b || true) ≡ true
or_true true = refl
or_true false = refl

wanted-above :
    (p after k j : Bytes)
    → wanted p after k ≡ true
    → bytes_lt k j ≡ true
    → wanted p k j ≡ wanted p after j
wanted-above p after k j w up =
    let (_, late) = &&-split (starts_with k p) (length after == 0 || bytes_lt after k) w in
    elim (Bool-cases (length after == 0)) [
      | inl first ↦ rw (up, first, or_true) refl
      | inr later ↦
          let behind : bytes_lt after k ≡ true = rw later at late in
          rw (up, later, bytes_lt_trans after k j behind up, or_true) refl
    ]

starts_with-full : (k p : Bytes) → length p ≢ 0 → starts_with k p ≡ true → (length k == 0) ≡ false
unfolding starts_with
starts_with-full k [] full h = absurd (full refl)
starts_with-full [] (c ∷ p) full h = absurd (cc)
starts_with-full (b ∷ k) (c ∷ p) full h = ground arith

-- A key that was picked is not wanted behind itself or behind a later key.
wanted-past :
    (p x k : Bytes) → (length x == 0) ≡ false → bytes_lt x k ≡ false → wanted p x k ≡ false
wanted-past p x k full below = rw (full, below) (and_no (starts_with k p))
  where
    and_no : (b : Bool) → (b && false) ≡ false
    and_no true = refl
    and_no false = refl

picked-starts :
    (p after x : Bytes) (xs : List Bytes) (m : Map ObjectId)
    → picked p after m ≡ x ∷ xs
    → starts_with x p ≡ true
unfolding picked
picked-starts p after x xs [] h = absurd (cc)
picked-starts p after x xs ((k, v) ∷ m) h = elim (Bool-cases (wanted p after k)) [
  | inl yes_k ↦
      let h' = rw yes_k at h in
      let same : k ≡ x = cc in
      rw (← same) (&&-split (starts_with k p) (length after == 0 || bytes_lt after k) yes_k).0
  | inr no_k ↦ picked-starts p after x xs m (rw no_k at h)
]

bytes_lt_asym : (a b : Bytes) → bytes_lt a b ≡ true → bytes_lt b a ≡ false
bytes_lt_asym a b h = elim (Bool-cases (bytes_lt b a)) [
  | inl back ↦ let loop = bytes_lt_trans a b a h back in absurd (ground (arith, bytes_lt_irrefl a))
  | inr none_back ↦ none_back
]

-- What is picked behind the first key that was picked is the rest.
picked-next :
    (p after x : Bytes) (xs : List Bytes) (m : Map ObjectId)
    → length p ≢ 0
    → IsOrdered m
    → picked p after m ≡ x ∷ xs
    → picked p x m ≡ xs
unfolding picked
picked-next p after x xs [] full o h = absurd (cc)
picked-next p after x xs ((k, v) ∷ m) full o h =
    let some_x = starts_with-full x p full (picked-starts p after x xs ((k, v) ∷ m) h) in
    elim (Bool-cases (wanted p after k)) [
      | inl yes_k ↦
          let h' = rw yes_k at h in
          let same : k ≡ x = cc in
          let rest : picked p after m ≡ xs = cc in
          let past = wanted-past p x k some_x (rw same (bytes_lt_irrefl x)) in
          rw past (
            subst (λ (y : Bytes). picked p y m ≡ xs) same
              (picked-same p k k after m o (λ j up. wanted-above p after k j yes_k up) ∙ rest))
      | inr no_k ↦
          let h' = rw no_k at h in
          let up = picked-above p after k x xs m o h' in
          let past = wanted-past p x k some_x (bytes_lt_asym k x up) in
          rw past (picked-next p after x xs m full (IsAbove-IsOrdered k m o) h')
    ]

-- After n of the keys, what is picked behind the last of them is what follows them.
pub picked-drop :
    (n : ℕ) (p after : Bytes) (m : Map ObjectId)
    → length p ≢ 0
    → IsOrdered m
    → picked p (last_or after (take n (picked p after m))) m ≡ drop n (picked p after m)
picked-drop zero p after m full o = refl
picked-drop (suc n) p after m full o = elim (List-cases (picked p after m)) [
  | inl none_left ↦ rw none_left none_left
  | inr (x, xs, e) ↦
      let next = picked-next p after x xs m full o e in
      let ih = picked-drop n p x m full o in rw e (rw next at ih)
]
