-- ===== src/Rpc/Frames.antt =====
-- The frames of the two sides fit: `decode` (daemon/rpc.cpp) reads the request of request_rpc
-- (daemon/rpc_client.cpp), which in turn reads the `response`.
use forkfs.Common.{
  ℕ, ◌<◌, ◌≤◌, ◌≡◌, refl, true, ◌&&◌, inl, inr, List, [], ◌∷◌, ◌++◌, length, drop, leb, ltb, String,
  arith, Bool-cases, length-append, take-append, drop-append, le→leb, leb→le, &&-split,
}
use forkfs.Common.Bytes.{Bytes, codes}
use forkfs.Common.Result.{ok, Result-cases}
use forkfs.Codec.{store_le, u32-store}
use forkfs.Rpc.{
  limit, truncated_integer, frame, put_fields, request, decode_fields, decode, Outcome, returned,
  thrown, rpc_error,
}

frame-inv :
    (magic : String) (payload b : Bytes)
    → frame magic payload ≡ ok b
    → (length payload ≤ limit) × (b ≡ codes magic ++ (store_le 4 (length payload) ++ payload))
unfolding frame
frame-inv magic payload b h = elim (Bool-cases (leb (length payload) limit)) [
  | inr n ↦ absurd (ground arith)
  | inl small ↦ (leb→le (length payload) limit small, ground arith)
]

put_fields-inv :
    (field : Bytes) (fields : List Bytes) (b : Bytes)
    → put_fields (field ∷ fields) ≡ ok b
    → (rest : Bytes) × (length field ≤ limit)
      × (put_fields fields ≡ ok rest)
      × (b ≡ store_le 4 (length field) ++ (field ++ rest))
unfolding put_fields
put_fields-inv field fields b h = elim (Bool-cases (leb (length field) limit)) [
  | inr n ↦ absurd (ground arith)
  | inl small ↦ elim (Result-cases (put_fields fields)) [
    | inr (m, bad) ↦ absurd (ground arith)
    | inl (rest, good) ↦ (rest, leb→le (length field) limit small, good, ground arith)
  ]
]

put_fields-nil : (b : Bytes) → put_fields [] ≡ ok b → [] ≡ b
unfolding put_fields
put_fields-nil b h = ground arith

-- The fields that were put are read back, and nothing is left.
decode_fields-put_fields :
    (fields : List Bytes) (b : Bytes)
    → put_fields fields ≡ ok b
    → decode_fields (length fields) b ≡ ok (fields, [])
unfolding decode_fields
decode_fields-put_fields [] b h = let e = put_fields-nil b h in rw (← e) refl
decode_fields-put_fields (field ∷ fields) b h =
    let (rest, small, good, shape) = put_fields-inv field fields b h in
    rw
      (
        shape,
        u32-store truncated_integer (length field) (field ++ rest) (omega (arith, small)),
        le→leb (length field) (length (field ++ rest)) (omega (arith, length-append field rest)),
        drop-append (length field) field rest refl,
        take-append (length field) field rest refl,
        decode_fields-put_fields fields rest good,
      )
      refl

request-inv :
    (fields : List Bytes) (b : Bytes)
    → request fields ≡ ok b
    → (payload : Bytes) × ((ltb 0 (length fields) && leb (length fields) 16) ≡ true)
      × (put_fields fields ≡ ok payload)
      × (frame "FFRPC001" (store_le 4 (length fields) ++ payload) ≡ ok b)
unfolding request
request-inv fields b h = elim (Bool-cases (ltb 0 (length fields) && leb (length fields) 16)) [
  | inr n ↦ absurd (ground arith)
  | inl count ↦ elim (Result-cases (put_fields fields)) [
    | inr (m, bad) ↦ absurd (ground arith)
    | inl (payload, good) ↦ (payload, count, good, ground arith)
  ]
]

request_header :
    (n : ℕ) (payload : Bytes) → drop 12 (codes "FFRPC001" ++ (store_le 4 n ++ payload)) ≡ payload
unfolding store_le
request_header n payload = drop-append 12 (codes "FFRPC001" ++ store_le 4 n) payload refl

-- A request that the client sends is decoded by the server to the same fields.
pub decode-request :
    (fields : List Bytes) (b : Bytes) → request fields ≡ ok b → decode b ≡ ok fields
unfolding decode
decode-request fields b h =
    let (payload, count, good, framed) = request-inv fields b h in
    let (small, shape) = frame-inv "FFRPC001" (store_le 4 (length fields) ++ payload) b framed in
    let few : length fields ≤ 16 = leb→le (length fields) 16 (&&-split _ _ count).1 in
    rw
      (
        shape,
        request_header (length (store_le 4 (length fields) ++ payload))
            (store_le 4 (length fields) ++ payload),
        u32-store truncated_integer (length fields) payload (omega (arith, few)),
        count,
        decode_fields-put_fields fields payload good,
      )
      refl

-- The outcomes that fit the code of a reply: an RpcError has a code of 1 to 4095.
abbrev pub IsServed : Outcome → Type 0
IsServed (returned value) = Unit {0}
IsServed (thrown message) = Unit {0}
IsServed (rpc_error code message) = (0 < code) × (code < 4096)
