-- ===== src/Namespace/Content/Written.antt =====
-- The bytes of a file after `write_at` or `handle_write` (daemon/namespace.cpp).
use forkfs.Common.{
  ℕ, zero, suc, ◌+◌, ◌-◌, ◌≤◌, ◌≡◌, refl, sym, ap, ◌∙◌, ◌||◌, inl, inr, [], ◌∷◌, ◌++◌, length, leb,
  ◌==◌, if◌then◌else◌, take, drop, replicate, min, arith, Bool-cases, leb→le, length-append,
  length-take, length-drop, length-replicate, take-append, drop-append, drop-append_past,
}
use forkfs.Common.Bytes.{Bytes}
use forkfs.Namespace.Files.Attributes.{resize}
use forkfs.Namespace.Content.{splice, slice}

take_long : (n : ℕ) (xs ys : Bytes) → n ≤ length xs → take n (xs ++ ys) ≡ take n xs
take_long zero xs ys h = refl
take_long (suc n) [] ys h = absurd (omega arith)
take_long (suc n) (x ∷ xs) ys h = ap (◌∷◌ x) (take_long n xs ys (omega arith))

take_whole : (xs : Bytes) (n : ℕ) → length xs ≡ n → take n xs ≡ xs
take_whole [] zero h = refl
take_whole [] (suc n) h = absurd (omega arith)
take_whole (x ∷ xs) zero h = absurd (omega arith)
take_whole (x ∷ xs) (suc n) h = ap (◌∷◌ x) (take_whole xs n (omega arith))

take-replicate : (n k : ℕ) → n ≤ k → take {A = ℕ} n (replicate k 0) ≡ replicate n 0
take-replicate zero k h = refl
take-replicate (suc n) zero h = absurd (omega arith)
take-replicate (suc n) (suc k) h = ap (◌∷◌ 0) (take-replicate n k (omega arith))

-- Any zeros behind the bytes will do, if there are enough.
take_zeros :
    (n k j : ℕ) (xs : Bytes)
    → n ≤ length xs + k
    → n ≤ length xs + j
    → take n (xs ++ replicate k 0) ≡ take n (xs ++ replicate j 0)
take_zeros n k j [] h i = take-replicate n k (omega arith) ∙ sym (take-replicate n j (omega arith))
take_zeros zero k j (x ∷ xs) h i = refl
take_zeros (suc n) k j (x ∷ xs) h i = ap (◌∷◌ x) (take_zeros n k j xs (omega arith) (omega arith))

drop_past : (n : ℕ) (xs : Bytes) → length xs ≤ n → drop n xs ≡ []
drop_past zero [] h = refl
drop_past zero (x ∷ xs) h = absurd (omega arith)
drop_past (suc n) [] h = refl
drop_past (suc n) (x ∷ xs) h = drop_past n xs (omega arith)

resize_longer :
    (size : ℕ) (bytes : Bytes)
    → length bytes ≤ size
    → resize size bytes ≡ bytes ++ replicate (size - length bytes) 0
unfolding resize
resize_longer size bytes h = take_whole (bytes ++ replicate (size - length bytes) 0) size (
    omega (
      arith,
      length-append bytes (replicate (size - length bytes) 0),
      length-replicate {A = ℕ} (size - length bytes) 0,
    ))

-- A slice that the bytes have room for.
slice-take :
    (offset count : ℕ) (out : Bytes)
    → offset + count ≤ length out
    → slice offset count out ≡ take count (drop offset out)
unfolding slice
slice-take offset count out room = elim (Bool-cases (leb (length out) offset || (count == 0))) [
  | inl nothing ↦ let none_left : count ≡ 0 = ground arith in rw (nothing, none_left) refl
  | inr some_left ↦
      let whole : min count (length out - offset) ≡ count = omega arith in
      rw (some_left, whole) refl
]

-- The bytes to be written over, long enough: they keep their front and what follows the write.
record IsLonger (offset count : ℕ) (bytes longer : Bytes) : Type 0 where
  front : take offset longer ≡ take offset (bytes ++ replicate offset 0)
  back : drop (offset + count) longer ≡ drop (offset + count) bytes
  room : offset + count ≤ length longer
  size : length longer ≡ length bytes + (offset + count - length bytes)

longer_of : ℕ → ℕ → Bytes → Bytes
longer_of offset count bytes =
    if leb (offset + count) (length bytes) then bytes else resize (offset + count) bytes

longer_of-IsLonger :
    (offset count : ℕ) (bytes : Bytes) → IsLonger offset count bytes (longer_of offset count bytes)
unfolding longer_of
longer_of-IsLonger offset count bytes = elim (Bool-cases (leb (offset + count) (length bytes))) [
  | inl long ↦
      let h = leb→le (offset + count) (length bytes) long in
      rw long (record {
        front = sym (take_long offset bytes (replicate offset 0) (omega arith));
        back = refl;
        room = h;
        size = omega arith;
      })
  | inr short ↦
      let h : length bytes ≤ offset + count = ground arith in
      let k = offset + count - length bytes in
      let long : length (bytes ++ replicate k 0) ≡ offset + count =
        omega (arith, length-append bytes (replicate k 0), length-replicate {A = ℕ} k 0) in
      rw (short, resize_longer (offset + count) bytes h)
        (record {
          front = take_zeros offset k offset bytes (omega arith) (omega arith);
          back =
              drop_past (offset + count) (bytes ++ replicate k 0) (omega arith)
              ∙ sym (drop_past (offset + count) bytes h);
          room = omega arith;
          size = omega arith;
        })
]

-- A write of `value` at `offset`: its bytes are there, the bytes before it are the old ones or zeros, those
-- behind it the old ones, and the file grows just so far that the write fits.
pub record IsWritten (offset : ℕ) (value bytes out : Bytes) : Type 0 where
  pub written : slice offset (length value) out ≡ value
  pub before : take offset out ≡ take offset (bytes ++ replicate offset 0)
  pub behind : drop (offset + length value) out ≡ drop (offset + length value) bytes
  pub size : length out ≡ length bytes + (offset + length value - length bytes)

-- What `splice` leaves of the bytes of a file of any size, also where it starts beyond the end.
pub splice-IsWritten :
    (offset : ℕ) (value bytes : Bytes) → IsWritten offset value bytes (splice offset value bytes)
unfolding splice slice longer_of
splice-IsWritten offset value bytes =
    let count = length value in
    let longer = longer_of offset count bytes in
    let l = longer_of-IsLonger offset count bytes in
    let front : length (take offset longer) ≡ offset =
      length-take offset longer (omega (arith, l.room)) in
    let rest = value ++ drop (offset + count) longer in
    let total : length (take offset longer ++ rest) ≡ length longer = omega (
      arith,
      l.room,
      front,
      length-append (take offset longer) rest,
      length-append value (drop (offset + count) longer),
      length-drop (offset + count) longer,
    ) in
    record {
      written =
          slice-take offset count (take offset longer ++ rest) (omega (arith, l.room, total))
          ∙ (ap (take count) (drop-append offset (take offset longer) rest front)
              ∙ take-append count value (drop (offset + count) longer) refl);
      before = take-append offset (take offset longer) rest front ∙ l.front;
      behind =
          drop-append_past offset count (take offset longer) rest front
          ∙ (drop-append count value (drop (offset + count) longer) refl ∙ l.back);
      size = total ∙ l.size;
    }
