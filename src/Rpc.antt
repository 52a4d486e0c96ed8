-- ===== src/Rpc.antt =====
-- The frames of the control protocol: frame, response and decode of daemon/rpc.cpp, and the request and the
-- reply of request_rpc in daemon/rpc_client.cpp. The socket is the list of the bytes that the peer sends.
pub mod Frames
pub mod Errors
pub mod Refusals
mod Tests
use forkfs.Common.{
  ℕ, zero, suc, ◌+◌, ◌-◌, ◌*◌, ◌^◌, ◌%◌, ◌≡◌, Bool, true, false, ◌&&◌, List, [], ◌∷◌, ◌++◌, length,
  take, drop, leb, ltb, ◌==◌, if◌then◌else◌, String,
}
use forkfs.Common.Bytes.{Bytes, codes, bytes_eq}
use forkfs.Common.Result.{Result, ok, err, need, ◌>>=◌, ◌>>◌}
use forkfs.Codec.{store_le, u32}

abbrev pub limit : ℕ
limit = 1024 * 1024

abbrev pub truncated_integer : String
truncated_integer = "truncated RPC integer"

unfoldable pub frame : String → Bytes → Result Bytes
frame magic payload = do
  need (leb (length payload) limit) "RPC payload exceeds 1 MiB"
  ok (codes magic ++ (store_le 4 (length payload) ++ payload))

unfoldable pub response : ℕ → Bytes → Result Bytes
response code value = frame "FFRSP001" (store_le 4 code ++ value)

-- for(const auto& field:fields){...put32(payload,field.size());payload+=field;}
unfoldable pub put_fields : List Bytes → Result Bytes
put_fields [] = ok []
put_fields (field ∷ fields) = do
  need (leb (length field) limit) "oversized RPC field"
  rest ← put_fields fields
  ok (store_le 4 (length field) ++ (field ++ rest))

-- The request that request_rpc sends.
unfoldable pub request : List Bytes → Result Bytes
request fields = do
  need (ltb 0 (length fields) && leb (length fields) 16) "RPC requires 1..16 fields"
  payload ← put_fields fields
  frame "FFRPC001" (store_le 4 (length fields) ++ payload)

unfoldable pub decode_fields : ℕ → Bytes → Result (List Bytes × Bytes)
decode_fields zero b = ok ([], b)
decode_fields (suc count) b = do
  (n, rest) ← u32 truncated_integer b
  need (leb n (length rest)) "truncated RPC field"
  (fields, suffix) ← decode_fields count (drop n rest)
  ok (take n rest ∷ fields, suffix)

unfoldable pub decode : Bytes → Result (List Bytes)
decode b = do
  (count, rest) ← u32 truncated_integer (drop 12 b)
  need (ltb 0 count && leb count 16) "RPC requires 1..16 fields"
  (fields, suffix) ← decode_fields count rest
  need (length suffix == 0) "trailing RPC bytes"
  ok fields

-- How a request ends, in dispatch and again in request_rpc: a value, an exception with its message, or an
-- RpcError with its code.
pub data Outcome : Type 0 where
  returned : Bytes → Outcome
  thrown : Bytes → Outcome
  rpc_error : ℕ → Bytes → Outcome

unfoldable pub outcome : ℕ → Bytes → Outcome
outcome code value =
    if code == 0
    then returned value
    else if code == 1
    then thrown value
    else rpc_error (code - 1) value

-- How serve_rpc answers a request that ended so: p.out=response(0,dispatch(...)), catch(const RpcError& e)
-- {p.out=response(static_cast<uint32_t>(e.code)+1,e.what());} and, for any other exception, response(1,e.what()).
unfoldable pub respond : Outcome → Result Bytes
unfolding response
respond (returned value) = response 0 value
respond (thrown message) = response 1 message
respond (rpc_error code message) = response ((code + 1) % 2 ^ 32) message

-- The reply that request_rpc reads from the bytes that the peer sends before it closes.
unfoldable pub reply : Bytes → Result Outcome
reply sent = do
  need (leb 12 (length sent)) "truncated RPC reply"
  need (bytes_eq (take 8 sent) (codes "FFRSP001")) "unsupported RPC reply"
  (n, rest) ← u32 truncated_integer (drop 8 sent)
  need (leb 4 n && leb n limit) "invalid RPC reply length"
  need (leb n (length rest)) "truncated RPC reply"
  (code, value) ← u32 truncated_integer (take n rest)
  need (leb code 4096) "invalid RPC result code"
  ok (outcome code value)
