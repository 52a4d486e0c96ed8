-- ===== src/View/Run.antt =====
-- Sorted runs: `NamespaceView::encode_run` and `NamespaceView::decode_run` (daemon/metadata_view.cpp).
pub mod RoundTrip
pub mod Sound
use forkfs.Common.{
  ℕ, zero, suc, ◌+◌, ◌-◌, ◌*◌, ◌/◌, ◌≤◌, ◌<◌, Bool, true, false, not, ◌&&◌, ◌||◌, Option, none,
  some, List, [], ◌∷◌, ◌++◌, length, take, drop, replicate, leb, ltb, ◌==◌, if◌then◌else◌, String,
}
use forkfs.Common.Bytes.{Bytes, codes, bytes_eq, bytes_lt, starts_with}
use forkfs.Common.Map.{Map}
use forkfs.Common.Result.{Result, ok, err, need, ◌>>=◌, ◌>>◌}
use forkfs.Codec.{store_le, u32}
use forkfs.Keys.{prefix}

-- std::array<unsigned char,32>; ObjectId{} is the zero identity.
abbrev pub ObjectId : Type 0
ObjectId = Bytes

abbrev pub zero_id : ObjectId
zero_id = replicate 32 0

-- std::map<std::string,std::optional<ObjectId>>: none deletes the key.
abbrev pub Changes : Type 0
Changes = Map (Option ObjectId)

-- bool magic(b,text)
unfoldable pub magic : Bytes → String → Bool
magic b text = leb 12 (length b) && bytes_eq (take 8 b) (codes text)

abbrev pub is_put : Option ObjectId → Bool
is_put none = false
is_put (some id) = true

abbrev pub op_of : Option ObjectId → ℕ
op_of value = if is_put value then 1 else 2

abbrev pub id_bytes : Option ObjectId → Bytes
id_bytes none = zero_id
id_bytes (some id) = id

unfoldable pub encode_entry : Bytes → Option ObjectId → Bytes
encode_entry key value =
    store_le 4 (op_of value) ++ (store_le 4 (length key) ++ (key ++ id_bytes value))

unfoldable pub encode_entries : Changes → Bytes
unfolding encode_entry
encode_entries [] = []
encode_entries ((key, value) ∷ rest) = encode_entry key value ++ encode_entries rest

-- The first loop of encode_run: key.starts_with(prefix) && key.size()<=1024.
unfoldable pub valid_keys : Changes → Bool
valid_keys [] = true
valid_keys ((key, value) ∷ rest) =
    (starts_with key prefix && leb (length key) 1024) && valid_keys rest

unfoldable pub entry_bytes : Changes → ℕ
entry_bytes [] = 0
entry_bytes ((key, value) ∷ rest) = 40 + length key + entry_bytes rest

unfoldable pub encode_run : Changes → Result Bytes
encode_run changes = do
  need (ltb 0 (length changes)) "cannot encode empty run"
  need (valid_keys changes) "invalid run key"
  need (leb (12 + entry_bytes changes) (256 * 1024)) "sorted run exceeds 256 KiB"
  ok (codes "FFRUN001" ++ (store_le 4 (length changes) ++ encode_entries changes))

abbrev pub truncated : String
truncated = "truncated metadata integer"

-- i==0 || previous<key
abbrev pub follows : Option Bytes → Bytes → Bool
follows none key = true
follows (some previous) key = bytes_lt previous key

unfoldable pub decode_value : ℕ → ObjectId → Result (Option ObjectId)
decode_value op target =
    if op == 1
    then (do need (not (bytes_eq target zero_id)) "zero PUT reference"; ok (some target))
    else (do need (bytes_eq target zero_id) "nonzero tombstone reference"; ok none)

-- One round of the loop of decode_run on what is left of the payload, behind op and n.
unfoldable pub decode_body :
    Option Bytes → ℕ → ℕ → Bytes → Result ((Bytes × Option ObjectId) × Bytes)
decode_body previous op n b = do
  need ((op == 1 || op == 2) && (leb 8 n && (leb n 1024 && leb (n + 32) (length b))))
      "invalid run entry"
  need (starts_with (take n b) prefix && follows previous (take n b)) "unordered run keys"
  value ← decode_value op (take 32 (drop n b))
  ok ((take n b, value), drop 32 (drop n b))

unfoldable pub decode_entry :
    Bool → Option Bytes → Bytes → Result ((Bytes × Option ObjectId) × Bytes)
unfolding decode_body
decode_entry full previous b = do
  (op, b1) ← (if full then ok (1, b) else u32 truncated b)
  (n, b2) ← u32 truncated b1
  decode_body previous op n b2

unfoldable pub decode_entries : ℕ → Bool → Option Bytes → Bytes → Result (Changes × Bytes)
decode_entries zero full previous b = ok ([], b)
decode_entries (suc count) full previous b = do
  ((key, value), rest) ← decode_entry full previous b
  (more, suffix) ← decode_entries count full (some key) rest
  ok ((key, value) ∷ more, suffix)

unfoldable pub decode_run : Bytes → Result Changes
decode_run b = do
  let full = magic b "FFMAN001"
  need (full || magic b "FFRUN001") "unsupported sorted run"
  (count, rest) ← u32 truncated (drop 8 b)
  need (ltb 0 count && leb count ((length b - 12) / (if full then 44 else 48)))
      "invalid sorted run count"
  (changes, suffix) ← decode_entries count full none rest
  need (length suffix == 0) "unexpected sorted run suffix"
  ok changes
