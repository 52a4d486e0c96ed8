-- ===== src/Namespace/Listing/Cut.antt =====
-- The keys of a page (`read_directory`, daemon/namespace.cpp): the front of a list, what is left, and their names.
use forkfs.Common.{
  ℕ, zero, suc, ◌≤◌, ◌<◌, ◌≡◌, refl, ap, ◌∙◌, false, ◌⊎◌, inl, inr, List, [], ◌∷◌, ◌++◌, length,
  leb, take, drop, arith,
}
use forkfs.Common.Bytes.{Bytes}
use forkfs.Namespace.Files.{names_after}

pub lt→leb_false : (a b : ℕ) → a < b → leb b a ≡ false
lt→leb_false a b h = ground arith

pub names_after-append :
    (n : ℕ) (xs ys : List Bytes) → names_after n xs ++ names_after n ys ≡ names_after n (xs ++ ys)
names_after-append n [] ys = refl
names_after-append n (x ∷ xs) ys = ap (◌∷◌ (drop n x)) (names_after-append n xs ys)

pub take-drop : (n : ℕ) (xs : List Bytes) → take n xs ++ drop n xs ≡ xs
take-drop zero xs = refl
take-drop (suc n) [] = refl
take-drop (suc n) (x ∷ xs) = ap (◌∷◌ x) (take-drop n xs)

pub take-all : (n : ℕ) (xs : List Bytes) → length xs ≤ n → take n xs ≡ xs
take-all zero [] h = refl
take-all zero (x ∷ xs) h = absurd (omega arith)
take-all (suc n) [] h = refl
take-all (suc n) (x ∷ xs) h = ap (◌∷◌ x) (take-all n xs (omega arith))

-- One key more than the page tells whether there are more.
pub take_more :
    (n : ℕ) (xs : List Bytes)
    → ((length (take (suc n) xs) ≤ n) × (take (suc n) xs ≡ xs))
      ⊎ ((n < length (take (suc n) xs))
          × (take n (take (suc n) xs) ≡ take n xs)
          × (length (take n xs) ≡ n))
take_more zero [] = inl (omega arith, refl)
take_more zero (x ∷ xs) = inr (omega arith, refl, refl)
take_more (suc n) [] = inl (omega arith, refl)
take_more (suc n) (x ∷ xs) = elim (take_more n xs) [
  | inl (few, all) ↦ inl (omega arith, ap (◌∷◌ x) all)
  | inr (many, front, full) ↦ inr (omega arith, ap (◌∷◌ x) front, ap suc full)
]

pub take_short : (n : ℕ) (xs : List Bytes) → length (take n xs) ≤ length xs
take_short zero xs = omega arith
take_short (suc n) [] = omega arith
take_short (suc n) (x ∷ xs) = omega (arith, take_short n xs)

pub drop_more : (n : ℕ) (xs : List Bytes) → n < length xs → 0 < length (drop n xs)
drop_more zero xs h = h
drop_more (suc n) [] h = absurd (omega arith)
drop_more (suc n) (x ∷ xs) h = drop_more n xs (omega arith)

pub length-names_after : (n : ℕ) (xs : List Bytes) → length (names_after n xs) ≡ length xs
length-names_after n [] = refl
length-names_after n (x ∷ xs) = ap suc (length-names_after n xs)

pub names_after-split :
    (n k : ℕ) (xs : List Bytes)
    → names_after n (take k xs) ++ names_after n (drop k xs) ≡ names_after n xs
names_after-split n k xs =
    names_after-append n (take k xs) (drop k xs) ∙ ap (names_after n) (take-drop k xs)

pub append_nil : (xs : List Bytes) → xs ++ [] ≡ xs
append_nil [] = refl
append_nil (x ∷ xs) = ap (◌∷◌ x) (append_nil xs)
