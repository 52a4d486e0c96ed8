-- ===== src/Codec.antt =====
-- Little-endian integers, as every file of daemon/ writes them: `load` and `store` of journal.cpp and
-- namespace.cpp, `u32` and `put32` of metadata_view.cpp, metadata_tree.cpp and rpc.cpp, `integer` and
-- `number` of level_store.cpp, `decode_le` and `encode_le` of container.cpp.
mod Tests
use forkfs.Common.{
  ℕ, zero, suc, ◌+◌, ◌*◌, ◌/◌, ◌%◌, ◌^◌, ◌<◌, ◌≡◌, refl, ap, [], ◌∷◌, ◌++◌, arith, length, leb,
  String, take, drop, length-append, take-append, drop-append, All, le→leb,
}
use forkfs.Common.Bytes.{Bytes, IsByte}
use forkfs.Common.Result.{Result, ok, need, ◌>>◌}
use native.Mathlib.Nat.{pow-succ'}

-- for(i<n) p[i]=(unsigned char)(v>>(8*i))
unfoldable pub store_le : ℕ → ℕ → Bytes
store_le zero v = []
store_le (suc n) v = (v % 256) ∷ store_le n (v / 256)

-- for(i<n) v|=uint64_t(p[i])<<(8*i); the shifted bytes do not overlap, so that `|` adds them.
unfoldable pub load_le : Bytes → ℕ
load_le [] = 0
load_le (b ∷ bs) = b + 256 * load_le bs

-- uint32_t u32(b,at), reading at the front of what is left of the buffer; gives the rest too.
unfoldable pub u32 : String → Bytes → Result (ℕ × Bytes)
u32 message b = do need (leb 4 (length b)) message; ok (load_le (take 4 b), drop 4 b)

pub length-store_le : (n v : ℕ) → length (store_le n v) ≡ n
unfolding store_le
length-store_le zero v = refl
length-store_le (suc n) v = ap suc (length-store_le n (v / 256))

pub store_le-IsByte : (n v : ℕ) → All IsByte (store_le n v)
unfolding store_le
store_le-IsByte zero v = tt
store_le-IsByte (suc n) v = (omega arith, store_le-IsByte n (v / 256))

-- An integer that fits n bytes is read back.
pub load_le-store_le : (n v : ℕ) → v < 256 ^ n → load_le (store_le n v) ≡ v
unfolding load_le store_le
load_le-store_le zero v h = omega arith
load_le-store_le (suc n) v h =
    let h' : v < 256 * 256 ^ n = rw (← pow-succ' 256 n) h in
    omega (arith, load_le-store_le n (v / 256) (omega arith))

-- Any bytes are the bytes, as many, of the integer that they stand for.
pub store_le-load_le : (b : Bytes) → All IsByte b → store_le (length b) (load_le b) ≡ b
unfolding load_le store_le
store_le-load_le [] h = refl
store_le-load_le (x ∷ xs) h =
    let low : (x + 256 * load_le xs) % 256 ≡ x = omega (arith, h.0) in
    let high : (x + 256 * load_le xs) / 256 ≡ load_le xs = omega (arith, h.0) in
    rw (low, high, store_le-load_le xs h.1)

pub u32-store :
    (message : String) (v : ℕ) (rest : Bytes)
    → v < 256 ^ 4
    → u32 message (store_le 4 v ++ rest) ≡ ok (v, rest)
unfolding u32
u32-store message v rest h =
    let four : length (store_le 4 v) ≡ 4 = length-store_le 4 v in
    rw (
      le→leb 4 (length (store_le 4 v ++ rest)) (omega (arith, length-append (store_le 4 v) rest)),
      take-append 4 (store_le 4 v) rest four,
      drop-append 4 (store_le 4 v) rest four,
      load_le-store_le 4 v h,
    )
