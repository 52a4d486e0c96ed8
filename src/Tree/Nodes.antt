-- ===== src/Tree/Nodes.antt =====
-- Nodes of the metadata tree and their bytes: valid_key, node, make and higher (daemon/metadata_tree.cpp).
use forkfs.Common.{
  ℕ, ◌+◌, Bool, not, ◌&&◌, none, some, ◌++◌, leb, ◌==◌, if◌then◌else◌, length, take, drop,
}
use forkfs.Common.Bytes.{Bytes, codes, bytes_eq, bytes_lt, starts_with}
use forkfs.Common.Result.{Result, ok, need, ◌>>=◌, ◌>>◌}
use forkfs.Common.Map.{Map, lookup, insert, contains}
use forkfs.Codec.{store_le, load_le}
use forkfs.Keys.{prefix}
use forkfs.View.Run.{ObjectId, zero_id}

pub record Node : Type 0 where
  pub key : Bytes
  pub value : ObjectId
  pub left : ObjectId
  pub right : ObjectId

unfoldable pub valid_key : Bytes → Bool
valid_key key = leb 8 (length key) && (leb (length key) 1024 && starts_with key prefix)

abbrev pub is_zero : ObjectId → Bool
is_zero id = bytes_eq id zero_id

-- The 32 bytes at an offset.
abbrev pub id_at : ℕ → Bytes → ObjectId
id_at at b = take 32 (drop at b)

unfoldable pub decode_node : Bytes → Result Node
unfolding valid_key
decode_node b = do
  need (leb 108 (length b) && bytes_eq (take 8 b) (codes "FFTRNO01")) "invalid metadata tree node"
  let n : ℕ = load_le (take 4 (drop 8 b))
  need (leb 8 n && (leb n 1024 && length b == 108 + n)) "invalid metadata node length"
  need (valid_key (drop 108 b)) "invalid metadata node key"
  need (not (is_zero (id_at 12 b))) "zero metadata value reference"
  ok (record { key = drop 108 b; value = id_at 12 b; left = id_at 44 b; right = id_at 76 b })

unfoldable pub encode_node : Node → Bytes
encode_node n =
    codes "FFTRNO01" ++ (store_le 4 (length n.key) ++ (n.value ++ (n.left ++ (n.right ++ n.key))))

-- What an editor of the tree keeps: the nodes that it read or made, and the bytes of those it made. The
-- heights that it remembers are those that height computes.
pub record Editor : Type 0 where
  pub cache : Map Node
  pub pending : Map Bytes

-- The identity of an object's bytes, and the store below.
module _ (object_id : Bytes → ObjectId) (get_object : ObjectId → Result Bytes) where
  unfoldable pub priority : Bytes → ObjectId
  priority key = object_id (codes "forkfs.metadata.priority.v1" ++ key)

  unfoldable pub higher : Node → Node → Bool
  unfolding priority
  higher a b =
      if bytes_eq (priority a.key) (priority b.key)
      then bytes_lt b.key a.key
      else bytes_lt (priority b.key) (priority a.key)

  unfoldable pub load : ObjectId → Result Node
  unfolding decode_node
  load id = do b ← get_object id; decode_node b

  unfoldable pub node : Editor → ObjectId → Result Node
  unfolding load
  node ed id = elim (lookup id ed.cache) [ some n ↦ ok n | none ↦ load id ]

  abbrev emplaced : ObjectId → Bytes → Map Bytes → Map Bytes
  emplaced id b m = if contains id m then m else insert id b m

  unfoldable pub make : Editor → Node → Result (ObjectId × Editor)
  unfolding encode_node valid_key
  make ed n = do
    need (valid_key n.key && not (is_zero n.value)) "invalid metadata node"
    let b : Bytes = encode_node n
    let id : ObjectId = object_id b
    ok (id, record { cache = insert id n ed.cache; pending = emplaced id b ed.pending })
