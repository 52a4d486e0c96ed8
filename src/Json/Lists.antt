-- ===== src/Json/Lists.antt =====
-- json_read_list (cli/json.h): a list that another process may lengthen between two calls. The k-th call of
-- json_list with a capacity gives the count of all records, and the records that fit.
use forkfs.Common.{
  true, false, refl, subst, ◌<◌, ℕ, zero, suc, ◌+◌, ◌≤◌, ◌≡◌, ◌⊎◌, inl, inr, Bool, List, [], leb,
  ◌==◌, if◌then◌else◌, take, arith, Bool-cases, leb→le,
}
use forkfs.Common.Result.{Result, ok, err, ◌>>=◌, >>=-eq-ok}

module _ {T : Type 0} (json_list : ℕ → ℕ → Result (ℕ × List T)) (calloc : ℕ → Bool) where
  -- The attempts that are left, the number of the next call, and the count that was reported last.
  unfoldable pub attempts : ℕ → ℕ → ℕ → Result (List T)
  attempts zero k n = err "EAGAIN"
  attempts (suc left) k n =
      let call = do
        (total, v) ← json_list k n
        let again = attempts left (k + 1) total
        if leb total n then ok (take total v) else again
      in if n == 0 then ok [] else if calloc n then call else err "ENOMEM"

  unfoldable pub json_read_list : Result (List T)
  unfolding attempts
  json_read_list = do (n, v) ← json_list 0 0; attempts 8 1 n

  -- What is returned is all of what one call reported: it is never cut off at a capacity.
  abbrev pub Complete : List T → Type 0
  Complete found =
      (k : ℕ) × (cap : ℕ) × (total : ℕ) × (v : List T) × (json_list k cap ≡ ok (total, v))
      × (total ≤ cap)
      × (found ≡ take total v)

  abbrev pub Returned : List T → Type 0
  Returned found = (found ≡ []) ⊎ Complete found

  attempts-Complete :
      (left k n : ℕ) {found : List T} → attempts left k n ≡ ok found → Returned found
  unfolding attempts
  attempts-Complete zero k n h = cc
  attempts-Complete (suc left) k n h = elim (Bool-cases (n == 0)) [
    | inl none' ↦ let h' = rw none' at h in inl (ground arith)
    | inr some' ↦ elim (Bool-cases (calloc n)) [
      | inr full ↦ let h' = rw (some', full) at h in cc
      | inl room ↦
          let h' = rw (some', room) at h in
          let ((total, v), called, rest) = >>=-eq-ok (json_list k n) _ h' in
          elim (Bool-cases (leb total n)) [
            | inl fits ↦
                inr (
                  k,
                  n,
                  total,
                  v,
                  called,
                  leb→le _ _ fits,
                  (let q = rw fits at rest in ground arith),
                )
            | inr more ↦ attempts-Complete left (k + 1) total (rw more at rest)
          ]
    ]
  ]

  -- A list that json_read_list returns is empty, or it is all that one call reported: the records up to the
  -- count of that same call, which was no more than the capacity it was given.
  pub json_read_list-Complete : {found : List T} → json_read_list ≡ ok found → Returned found
  unfolding json_read_list
  json_read_list-Complete h =
      let ((n, v), called, rest) = >>=-eq-ok (json_list 0 0) _ h in attempts-Complete 8 1 n rest

  module _ (t : ℕ → ℕ) (fill : ℕ → ℕ → List T) (room : (n : ℕ) → calloc n ≡ true)
      (answers : (k cap : ℕ) → json_list k cap ≡ ok (t k, fill k cap)) (j : ℕ)
      (still : t (j + 1) ≤ t j) where
    not_yet : (k : ℕ) → k ≤ j → leb (t (k + 1)) (t k) ≡ false → k + 1 ≤ j
    not_yet k before grown = elim (Bool-cases (k == j)) [
      | inr other ↦ ground arith
      | inl here ↦
          let same : j ≡ k = ground arith in
          let le : t (k + 1) ≤ t k = subst (λ i. t (i + 1) ≤ t i) same still in
          absurd (ground arith)
    ]

    attempts_settle :
        (left k : ℕ)
        → k ≤ j
        → j < k + left
        → (found : List T) × (attempts left (k + 1) (t k) ≡ ok found)
    unfolding attempts
    attempts_settle zero k before soon = absurd (omega arith)
    attempts_settle (suc left) k before soon = elim (Bool-cases (t k == 0)) [
      | inl none' ↦ ([], rw none' refl)
      | inr some' ↦ elim (Bool-cases (leb (t (k + 1)) (t k))) [
        | inl fits ↦ (
          take (t (k + 1)) (fill (k + 1) (t k)),
          rw (some', room (t k), answers (k + 1) (t k), fits) refl,
        )
        | inr grown ↦
            let (found, e) = attempts_settle left (k + 1) (not_yet k before grown) (omega arith) in
            (found, rw (some', room (t k), answers (k + 1) (t k), grown) e)
      ]
    ]

    -- If the memory is there, and the list does not grow between some two consecutive calls among the first
    -- nine, then json_read_list returns a list: it does not give up with EAGAIN.
    pub json_read_list_settles : j ≤ 7 → (found : List T) × (json_read_list ≡ ok found)
    unfolding json_read_list
    json_read_list_settles soon = rw (answers 0 0) (attempts_settle 8 0 (omega arith) (omega arith))
