-- ===== src/Json/RoundTrip.antt =====
-- A strict reader reads back what json_string (cli/json.h) writes.
use forkfs.Common.{
  ℕ, zero, suc, ◌≤◌, ◌≡◌, refl, sym, ap, ◌∙◌, Bool, true, false, not, ◌&&◌, ◌||◌, some, [], ◌∷◌,
  ◌++◌, leb, ltb, ◌==◌, arith, not-true, All, Bool-cases, inl, inr, &&-split,
}
use forkfs.Common.Bytes.{Bytes}
use forkfs.Json.Strings.{
  following, continues, excluded, first, valid, escape, raw, json_chars, json_string,
}
use mathlib.Core.List.{append_assoc}
use forkfs.Json.Reader.{
  IsChar, plain, before, count, low, high, refuses, push, read_chars, read_string, read_first,
  read_tail, read_control, read_undecodable, read_special,
}

-- The bytes that follow, with the bounds of the first of them.
abbrev holds : ℕ → ℕ → ℕ → Bytes → Bool
holds lo hi zero p = true
holds lo hi (suc k) [] = false
holds lo hi (suc k) (c ∷ p) = (leb lo c && leb c hi) && continues k p

continues-holds : (k : ℕ) (p : Bytes) → continues k p ≡ true → holds 0x80 0xbf k p ≡ true
unfolding continues
continues-holds zero p h = refl
continues-holds (suc k) [] h = h
continues-holds (suc k) (c ∷ p) h = h

and_true : (a b : Bool) → a ≡ true → b ≡ true → (a && b) ≡ true
and_true a b h k = rw (h, k) refl

first-holds :
    (lo hi k : ℕ) (p : Bytes)
    → continues k p ≡ true
    → (leb lo (first p) && leb (first p) hi) ≡ true
    → holds lo hi k p ≡ true
unfolding continues
first-holds lo hi zero p h b = refl
first-holds lo hi (suc k) [] h b = cc
first-holds lo hi (suc k) (c ∷ p) h b =
    and_true (leb lo c && leb c hi) (continues k p) b
      (&&-split (leb 0x80 c && leb c 0xbf) (continues k p) h).1

continues-first :
    (k : ℕ) (p : Bytes)
    → (k == 0) ≡ false
    → continues k p ≡ true
    → (leb 0x80 (first p) && leb (first p) 0xbf) ≡ true
unfolding continues
continues-first zero p n h = absurd (cc)
continues-first (suc k) [] n h = absurd (cc)
continues-first (suc k) (c ∷ p) n h = (&&-split (leb 0x80 c && leb c 0xbf) (continues k p) h).0

-- What `valid` leaves of the second byte.
within_bounds :
    (c p0 : ℕ)
    → (leb 0x80 p0 && leb p0 0xbf) ≡ true
    → excluded c p0 ≡ false
    → (leb (low c) p0 && leb p0 (high c)) ≡ true
within_bounds c p0 h e = ground arith

following-count :
    (c : ℕ) → (following c == 0) ≡ false → (following c ≡ count c) × (0xc2 ≤ c) × (c ≤ 0xf4)
unfolding following
following-count c h = (ground arith, ground arith, ground arith)

valid-holds :
    (c : ℕ) (p : Bytes)
    → valid c p ≡ true
    → (following c ≡ count c)
      × (0xc2 ≤ c)
      × (c ≤ 0xf4)
      × (holds (low c) (high c) (following c) p ≡ true)
unfolding valid
valid-holds c p h =
    let (leads, rest) = &&-split (not (following c == 0)) _ h in
    let (more, allowed) = &&-split (continues (following c) p) _ rest in
    let some_follow = not-true (following c == 0) leads in
    let (same, from, to) = following-count c some_follow in
    (
      same,
      from,
      to,
      first-holds (low c) (high c) (following c) p more (
          within_bounds c (first p) (continues-first (following c) p some_follow more)
            (not-true (excluded c (first p)) allowed)),
    )

-- Reading what is written for one byte: what it adds, the bytes that are then written as they are, and that
-- these are what the reader waits for.
read_escape :
    (c : ℕ) (p cs : Bytes)
    → IsChar c
    → (read_chars plain (escape c p ++ cs)
        ≡ push (c ∷ []) (read_chars (before (low c) (high c) (raw c p)) cs))
      × (holds (low c) (high c) (raw c p) p ≡ true)
unfolding escape raw refuses
read_escape c p cs (some_byte, h) = elim (Bool-cases (ltb c 0x80)) [
  | inl ascii ↦
      let none_raw : (not (ltb c 0x80) && valid c p) ≡ false = rw ascii refl in
      let alone : count c ≡ 0 = ground arith in
      elim (Bool-cases ((c == b'"') || (c == 92))) [
        | inl special ↦ rw (special, none_raw) (read_special c cs special, refl)
        | inr n ↦ elim (Bool-cases (ltb c 0x20)) [
          | inl control ↦ rw (n, control, none_raw) (read_control c cs (ground arith), refl)
          | inr m ↦
              let taken : refuses plain c ≡ false = ground arith in
              rw (n, m, ascii)
                (
                  read_first c cs (ground arith) (ground arith) taken
                      ∙ ap (λ (k : ℕ). push (c ∷ []) (read_chars (before (low c) (high c) k) cs))
                          alone,
                  refl,
                )
        ]
      ]
  | inr wide ↦
      let n : ((c == b'"') || (c == 92)) ≡ false = ground arith in
      let m : ltb c 0x20 ≡ false = ground arith in
      elim (Bool-cases (valid c p)) [
        | inl lead ↦
            let (same, from, to, waits) = valid-holds c p lead in
            let taken : refuses plain c ≡ false = ground arith in
            rw (n, m, wide, lead)
              (
                read_first c cs (ground arith) (ground arith) taken
                    ∙ ap (λ (k : ℕ). push (c ∷ []) (read_chars (before (low c) (high c) k) cs))
                        (sym same),
                waits,
              )
        | inr lone ↦ rw (n, m, wide, lone) (read_undecodable c cs (ground arith) h, refl)
      ]
]

read_close : (rest : Bytes) → read_chars plain (b'"' ∷ rest) ≡ some ([], rest)
unfolding read_chars
read_close rest = refl

-- What the loop writes is read from where its bytes are due.
json_chars-read :
    (k lo hi : ℕ) (p rest : Bytes)
    → All IsChar p
    → holds lo hi k p ≡ true
    → read_chars (before lo hi k) (json_chars k p ++ (b'"' ∷ rest)) ≡ some (p, rest)
unfolding json_chars
json_chars-read zero lo hi [] rest b h = read_close rest
json_chars-read (suc k) lo hi [] rest b h = absurd (cc)
json_chars-read (suc k) lo hi (c ∷ p) rest b h =
    let (here, more) = &&-split (leb lo c && leb c hi) (continues k p) h in
    read_tail lo hi k c (json_chars k p ++ (b'"' ∷ rest)) here
    ∙ rw (json_chars-read k 0x80 0xbf p rest b.1 (continues-holds k p more)) refl
json_chars-read zero lo hi (c ∷ p) rest b h =
    let no_nul : (c == 0) ≡ false = ground arith in
    let (reads, waits) = read_escape c p (json_chars (raw c p) p ++ (b'"' ∷ rest)) b.0 in
    rw (no_nul, append_assoc (escape c p) (json_chars (raw c p) p) (b'"' ∷ rest))
      (reads ∙ rw (json_chars-read (raw c p) (low c) (high c) p rest b.1 waits) refl)

-- What json_string writes for any C string is read back by a strict reader as the same bytes, whatever follows
-- it. So it is a JSON string of well-formed UTF-8 without control characters, in which quotes, backslashes,
-- control characters and the bytes that are no UTF-8 are all kept, as escapes.
pub read_string-json_string :
    (value rest : Bytes)
    → All IsChar value
    → read_string (json_string value ++ rest) ≡ some (value, rest)
unfolding read_string json_string
read_string-json_string value rest b =
    rw (append_assoc (json_chars 0 value) (b'"' ∷ []) rest)
      (json_chars-read 0 0 0 value rest b refl)
