-- ===== src/Tree/Tests.antt =====
-- A tree of two nodes, stored as objects 1 and 2; the identity of an object repeats its length.
use forkfs.Common.{take, ℕ, ◌%◌, ◌≡◌, refl, [], ◌∷◌, ◌++◌, if◌then◌else◌, length, replicate}
use forkfs.Common.Bytes.{Bytes, codes, bytes_eq, bytes_lt, starts_with}
use forkfs.Common.Result.{Result, ok, err}
use forkfs.Common.Map
use forkfs.Common.Map.{Map, insert}
use forkfs.Codec.{store_le, load_le}
use forkfs.Keys.{prefix}
use forkfs.View.Run.{ObjectId, zero_id}
use forkfs.Tree.Nodes.{Node, Editor, encode_node, decode_node, valid_key, higher, node}
use forkfs.Tree.Read.{entries, entries_from, lookup, keys, page}
use forkfs.Tree.Format.{IsNode, decode_node-encode_node}
use forkfs.Tree.Prefixes.{chosen}
use forkfs.Tree.Picks.{picked}
use forkfs.Tree.Listing.{keys-entries, page-entries}
use forkfs.Tree.Entries.{lookup-entries}

abbrev id_of : ℕ → ObjectId
id_of n = replicate 32 n

abbrev object_id : Bytes → ObjectId
object_id b = id_of (length b % 256)

abbrev a_key : Bytes
a_key = prefix ++ codes "a"

abbrev bc_key : Bytes
bc_key = prefix ++ codes "bc"

abbrev a_node : Node
a_node = record { key = a_key; value = id_of 7; left = zero_id; right = zero_id }

abbrev bc_node : Node
bc_node = record { key = bc_key; value = id_of 8; left = id_of 1; right = zero_id }

get_object : ObjectId → Result Bytes
unfolding encode_node bytes_eq
get_object id =
    if bytes_eq id (id_of 1)
    then ok (encode_node a_node)
    else if bytes_eq id (id_of 2)
    then ok (encode_node bc_node)
    else err "missing object"

abbrev fresh : Editor
fresh = record { cache = []; pending = [] }

abbrev two_entries : Map ObjectId
two_entries = (a_key, id_of 7) ∷ (bc_key, id_of 8) ∷ []

decoded : node object_id get_object fresh (id_of 2) ≡ ok bc_node
unfolding node get_object bytes_eq starts_with store_le load_le Map.lookup
decoded = refl

listed :
    entries (higher object_id get_object) (node object_id get_object fresh) (id_of 2)
    ≡ ok two_entries
unfolding entries entries_from higher node get_object bytes_eq bytes_lt starts_with store_le load_le
    insert Map.lookup
listed = refl

lookup-entries_example :
    lookup (higher object_id get_object) (node object_id get_object fresh) (id_of 2) a_key
    ≡ ok (Map.lookup a_key two_entries)
lookup-entries_example =
    lookup-entries (higher object_id get_object) (node object_id get_object fresh) (id_of 2)
      two_entries a_key listed

a_node-IsNode : IsNode a_node
unfolding valid_key bytes_eq starts_with
a_node-IsNode = record {
  key_valid = refl;
  value_nonzero = refl;
  value_length = refl;
  left_length = refl;
  right_length = refl;
}

decode_node-encode_node_example : decode_node (encode_node a_node) ≡ ok a_node
decode_node-encode_node_example = decode_node-encode_node a_node a_node-IsNode

keys-entries_example :
    keys
      (higher object_id get_object)
      (node object_id get_object fresh)
      (id_of 2)
      (prefix ++ codes "b")
    ≡ ok (chosen (prefix ++ codes "b") two_entries)
keys-entries_example =
    keys-entries (higher object_id get_object) (node object_id get_object fresh) (id_of 2)
      two_entries (prefix ++ codes "b") listed

chosen_key : chosen (prefix ++ codes "b") two_entries ≡ bc_key ∷ []
unfolding chosen starts_with
chosen_key = refl

page-entries_example :
    page (higher object_id get_object) (node object_id get_object fresh) (id_of 2) prefix a_key 1
    ≡ ok (take 1 (picked prefix a_key two_entries))
unfolding starts_with
page-entries_example =
    page-entries (higher object_id get_object) (node object_id get_object fresh) (id_of 2)
      two_entries prefix a_key 1 listed

next_page : take 1 (picked prefix a_key two_entries) ≡ bc_key ∷ []
unfolding picked starts_with bytes_lt
next_page = refl
