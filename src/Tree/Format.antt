-- ===== src/Tree/Format.antt =====
-- The bytes of a node (daemon/metadata_tree.cpp) are read back.
use forkfs.Common.{
  ℕ, ◌+◌, ◌≤◌, ◌≡◌, refl, ap, ◌∙◌, true, false, ◌++◌, length, take, drop, leb, arith, length-append,
  take-append, drop-append, drop-append_past, le→leb, eq→==, leb→le, &&-split,
}
use forkfs.Common.Bytes.{Bytes, codes, bytes_eq}
use forkfs.Common.Result.{ok}
use forkfs.Codec.{store_le, load_le, length-store_le, load_le-store_le}
use forkfs.Tree.Nodes.{Node, valid_key, is_zero, id_at, encode_node, decode_node}

-- What make asks for, and that an identity has 32 bytes.
pub record IsNode (n : Node) : Type 0 where
  pub key_valid : valid_key n.key ≡ true
  pub value_nonzero : is_zero n.value ≡ false
  pub value_length : length n.value ≡ 32
  pub left_length : length n.left ≡ 32
  pub right_length : length n.right ≡ 32

key_length : (key : Bytes) → valid_key key ≡ true → (8 ≤ length key) × (length key ≤ 1024)
unfolding valid_key
key_length key h =
    let (low, rest) = &&-split (leb 8 (length key)) _ h in
    let (high, _) = &&-split (leb (length key) 1024) _ rest in (leb→le 8 _ low, leb→le _ 1024 high)

module _ (n : Node) (v : IsNode n) where
  length-encode_node : length (encode_node n) ≡ 108 + length n.key
  unfolding encode_node
  length-encode_node = omega (
    arith,
    v.value_length,
    v.left_length,
    v.right_length,
    length-store_le 4 (length n.key),
    length-append (store_le 4 (length n.key)) (n.value ++ (n.left ++ (n.right ++ n.key))),
    length-append n.value (n.left ++ (n.right ++ n.key)),
    length-append n.left (n.right ++ n.key),
    length-append n.right n.key,
  )

  four : length (store_le 4 (length n.key)) ≡ 4
  four = length-store_le 4 (length n.key)

  length_read : load_le (take 4 (drop 8 (encode_node n))) ≡ length n.key
  unfolding encode_node
  length_read =
      ap load_le (take-append 4 (store_le 4 (length n.key)) _ four)
      ∙ load_le-store_le 4 (length n.key) (omega (arith, (key_length n.key v.key_valid).1))

  past :
      (k : ℕ) → drop (12 + k) (encode_node n) ≡ drop k (n.value ++ (n.left ++ (n.right ++ n.key)))
  unfolding encode_node
  past k =
      drop-append_past 12 k (codes "FFTRNO01" ++ store_le 4 (length n.key))
        (n.value ++ (n.left ++ (n.right ++ n.key))) (omega (arith, four))

  value_read : id_at 12 (encode_node n) ≡ n.value
  value_read =
      ap (take 32) (past 0) ∙ take-append 32 n.value (n.left ++ (n.right ++ n.key)) v.value_length

  past_value :
      (k : ℕ) → drop (12 + (32 + k)) (encode_node n) ≡ drop k (n.left ++ (n.right ++ n.key))
  past_value k =
      past (32 + k) ∙ drop-append_past 32 k n.value (n.left ++ (n.right ++ n.key)) v.value_length

  left_read : id_at 44 (encode_node n) ≡ n.left
  left_read = ap (take 32) (past_value 0) ∙ take-append 32 n.left (n.right ++ n.key) v.left_length

  past_left : (k : ℕ) → drop (12 + (32 + (32 + k))) (encode_node n) ≡ drop k (n.right ++ n.key)
  past_left k = past_value (32 + k) ∙ drop-append_past 32 k n.left (n.right ++ n.key) v.left_length

  right_read : id_at 76 (encode_node n) ≡ n.right
  right_read = ap (take 32) (past_left 0) ∙ take-append 32 n.right n.key v.right_length

  key_read : drop 108 (encode_node n) ≡ n.key
  key_read = past_left 32 ∙ drop-append 32 n.right n.key v.right_length

  magic_read : take 8 (encode_node n) ≡ codes "FFTRNO01"
  unfolding encode_node
  magic_read = refl

  -- A node that make accepts is read back from the bytes that it stores.
  pub decode_node-encode_node : decode_node (encode_node n) ≡ ok n
  unfolding decode_node bytes_eq
  decode_node-encode_node =
      let (low, high) = key_length n.key v.key_valid in
      rw
        (
          magic_read,
          length_read,
          length-encode_node,
          key_read,
          value_read,
          left_read,
          right_read,
          v.key_valid,
          v.value_nonzero,
          le→leb 108 (108 + length n.key) (omega arith),
          le→leb 8 (length n.key) low,
          le→leb (length n.key) 1024 high,
          eq→== (108 + length n.key) (108 + length n.key) refl,
        )
        refl
