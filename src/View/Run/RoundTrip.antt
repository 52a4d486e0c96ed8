-- ===== src/View/Run/RoundTrip.antt =====
-- What `encode_run` writes, `decode_run` reads back (daemon/metadata_view.cpp).
use forkfs.Common.{
  ℕ, ◌+◌, ◌-◌, ◌*◌, ◌/◌, ◌^◌, ◌≤◌, ◌<◌, ◌≡◌, refl, true, false, ◌&&◌, ◌||◌, Option, none, some, [],
  ◌∷◌, ◌++◌, length, leb, ltb, ◌==◌, arith, leb→le, &&-split, length-append, take-append,
  drop-append, le→leb, lt→ltb,
}
use mathlib.Core.List.{append_assoc, append-nil}
use forkfs.Common.Bytes.{Bytes, codes, bytes_eq, starts_with}
use forkfs.Common.Map.{IsAbove, IsOrdered, IsAbove-IsOrdered}
use forkfs.Common.Result.{ok}
use forkfs.Codec.{store_le, u32-store, length-store_le}
use forkfs.Keys.{prefix}
use forkfs.View.Run.{
  ObjectId, zero_id, Changes, magic, op_of, id_bytes, encode_entry, encode_entries, valid_keys,
  entry_bytes, encode_run, truncated, follows, decode_value, decode_entry, decode_entries,
  decode_run,
}

-- An identity has 32 bytes and is not the zero identity.
abbrev pub IsId : ObjectId → Type 0
IsId id = (length id ≡ 32) × (bytes_eq id zero_id ≡ false)

abbrev pub IsValue : Option ObjectId → Type 0
IsValue none = Unit {0}
IsValue (some id) = IsId id

abbrev pub HasIds : Changes → Type 0
HasIds [] = Unit {0}
HasIds ((key, value) ∷ rest) = IsValue value × HasIds rest

starts_with-length : (xs p : Bytes) → starts_with xs p ≡ true → length p ≤ length xs
unfolding starts_with
starts_with-length xs [] h = omega arith
starts_with-length [] (p ∷ ps) h = cc
starts_with-length (x ∷ xs) (p ∷ ps) h = ground (arith, starts_with-length xs ps)

length-id_bytes : (value : Option ObjectId) → IsValue value → length (id_bytes value) ≡ 32
length-id_bytes none h = refl
length-id_bytes (some id) h = h.0

decode_value-op :
    (value : Option ObjectId)
    → IsValue value
    → decode_value (op_of value) (id_bytes value) ≡ ok value
unfolding decode_value bytes_eq
decode_value-op none h = refl
decode_value-op (some id) h = rw h.1

encode_entry-shape :
    (key : Bytes) (value : Option ObjectId) (rest : Bytes)
    → encode_entry key value ++ rest
      ≡ store_le 4 (op_of value) ++ (store_le 4 (length key) ++ (key ++ (id_bytes value ++ rest)))
unfolding encode_entry
encode_entry-shape key value rest = simp append_assoc

op_fits : (value : Option ObjectId) → op_of value < 256 ^ 4
op_fits none = omega arith
op_fits (some id) = omega arith

entry_test :
    (value : Option ObjectId) (n len : ℕ)
    → 8 ≤ n
    → n ≤ 1024
    → n + 32 ≤ len
    → ((op_of value == 1 || op_of value == 2) && (leb 8 n && (leb n 1024 && leb (n + 32) len)))
      ≡ true
entry_test none n len a b c = ground arith
entry_test (some id) n len a b c = ground arith

decode_entry-encode :
    (previous : Option Bytes) (key : Bytes) (value : Option ObjectId) (rest : Bytes)
    → starts_with key prefix ≡ true
    → length key ≤ 1024
    → IsValue value
    → follows previous key ≡ true
    → decode_entry false previous (encode_entry key value ++ rest) ≡ ok ((key, value), rest)
unfolding decode_entry encode_entry
decode_entry-encode previous key value rest p q v o =
    let tail = id_bytes value ++ rest in
    let ids : length (id_bytes value) ≡ 32 = length-id_bytes value v in
    rw (encode_entry-shape key value rest) (
      rw (
        u32-store truncated (op_of value) (store_le 4 (length key) ++ (key ++ tail))
            (op_fits value),
        u32-store truncated (length key) (key ++ tail) (omega arith),
        entry_test value (length key) (length (key ++ tail)) (starts_with-length key prefix p) q
            (omega (arith, length-append key tail, length-append (id_bytes value) rest)),
        take-append (length key) key tail refl,
        drop-append (length key) key tail refl,
        p,
        o,
        take-append 32 (id_bytes value) rest ids,
        drop-append 32 (id_bytes value) rest ids,
        decode_value-op value v,
      ))

IsAbove-follows :
    (lo : Bytes) (m : Changes)
    → IsAbove lo m
    → (key : Bytes) (value : Option ObjectId) (more : Changes) → m ≡ (key, value) ∷ more
    → follows (some lo) key ≡ true
IsAbove-follows lo [] a key value more e = cc
IsAbove-follows lo ((k, v) ∷ m) a key value more e = ground arith

decode_entries-encode :
    (previous : Option Bytes) (changes : Changes) (rest : Bytes)
    → valid_keys changes ≡ true
    → HasIds changes
    → IsOrdered changes
    → ((key : Bytes) (value : Option ObjectId) (more : Changes)
        → changes ≡ (key, value) ∷ more
        → follows previous key ≡ true)
    → decode_entries (length changes) false previous (encode_entries changes ++ rest)
      ≡ ok (changes, rest)
unfolding decode_entries encode_entries valid_keys
decode_entries-encode previous [] rest k ids o f = refl
decode_entries-encode previous ((key, value) ∷ more) rest k ids o f =
    let (here, later) = &&-split _ _ k in
    let (p, q) = &&-split _ _ here in
    rw (
      append_assoc (encode_entry key value) (encode_entries more) rest,
      decode_entry-encode previous key value (encode_entries more ++ rest) p (leb→le _ _ q) ids.0
          (f key value more refl),
      decode_entries-encode (some key) more rest later ids.1 (IsAbove-IsOrdered key more o)
          (IsAbove-follows key more o),
    )

length-encode_entry :
    (key : Bytes) (value : Option ObjectId)
    → IsValue value
    → length (encode_entry key value) ≡ 40 + length key
unfolding encode_entry
length-encode_entry key value v = omega (
  arith,
  length-append (store_le 4 (op_of value)) (store_le 4 (length key) ++ (key ++ id_bytes value)),
  length-append (store_le 4 (length key)) (key ++ id_bytes value),
  length-append key (id_bytes value),
  length-store_le 4 (op_of value),
  length-store_le 4 (length key),
  length-id_bytes value v,
)

length-encode_entries :
    (changes : Changes) → HasIds changes → length (encode_entries changes) ≡ entry_bytes changes
unfolding encode_entries entry_bytes
length-encode_entries [] ids = refl
length-encode_entries ((key, value) ∷ more) ids = omega (
  arith,
  length-append (encode_entry key value) (encode_entries more),
  length-encode_entry key value ids.0,
  length-encode_entries more ids.1,
)

entry_bytes-ge :
    (changes : Changes) → valid_keys changes ≡ true → 48 * length changes ≤ entry_bytes changes
unfolding entry_bytes valid_keys
entry_bytes-ge [] k = omega arith
entry_bytes-ge ((key, value) ∷ more) k =
    let (here, later) = &&-split (starts_with key prefix && leb (length key) 1024) _ k in
    omega (
      arith,
      entry_bytes-ge more later,
      starts_with-length key prefix (&&-split (starts_with key prefix) _ here).0,
    )

follows-none :
    (changes : Changes) (key : Bytes) (value : Option ObjectId) (more : Changes)
    → changes ≡ (key, value) ∷ more
    → follows none key ≡ true
follows-none changes key value more e = refl

-- What `encode_run` has checked of changes that it accepts.
encode_run-accepts :
    (changes : Changes) (b : Bytes)
    → encode_run changes ≡ ok b
    → (0 < length changes)
      × (valid_keys changes ≡ true)
      × (12 + entry_bytes changes ≤ 256 * 1024)
      × (b ≡ codes "FFRUN001" ++ (store_le 4 (length changes) ++ encode_entries changes))
unfolding encode_run
encode_run-accepts changes b h = ground arith

run_count : (n size : ℕ) → 0 < n → 48 * n + 12 ≤ size → (ltb 0 n && leb n ((size - 12) / 48)) ≡ true
run_count n size h k = rw (lt→ltb 0 n h, le→leb n ((size - 12) / 48) (omega arith))

-- A run that `encode_run` writes of changes in key order, whose identities have 32 bytes and are not
-- zero, is decoded to the same changes, tombstones included.
pub decode_run-encode_run :
    (changes : Changes) (b : Bytes)
    → HasIds changes
    → IsOrdered changes
    → encode_run changes ≡ ok b
    → decode_run b ≡ ok changes
unfolding decode_run magic bytes_eq
decode_run-encode_run changes b ids o h =
    let (some', keys, small, shape) = encode_run-accepts changes b h in
    let body = store_le 4 (length changes) ++ encode_entries changes in
    let size : length body ≡ 4 + entry_bytes changes = omega (
      arith,
      length-append (store_le 4 (length changes)) (encode_entries changes),
      length-store_le 4 (length changes),
      length-encode_entries changes ids,
    ) in
    let room : 48 * length changes ≤ entry_bytes changes = entry_bytes-ge changes keys in
    let count : (ltb 0 (length changes)
          && leb (length changes) ((length (codes "FFRUN001" ++ body) - 12) / 48))
        ≡ true =
      run_count (length changes) (length (codes "FFRUN001" ++ body)) some' (omega arith) in
    rw (
      shape,
      le→leb 12 (length (codes "FFRUN001" ++ body)) (omega arith),
      u32-store truncated (length changes) (encode_entries changes) (omega arith),
      count,
      ← append-nil (encode_entries changes),
      decode_entries-encode none changes [] keys ids o (follows-none changes),
    )
