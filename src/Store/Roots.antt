-- ===== src/Store/Roots.antt =====
-- The root operations of the batch of `LevelStore::transact` (daemon/level_store.cpp), applied in order.
use forkfs.Common.{◌≡◌, refl, ◌∙◌, inl, inr, Option, none, some, List, [], ◌∷◌, ◌++◌, Bool-cases}
use forkfs.Common.Bytes.{Bytes, bytes_eq, bytes_eq-eq}
use forkfs.Common.Map.{Map, lookup, IsOrdered, IsAbove-IsOrdered, lookup-head}
use forkfs.View.Run.{ObjectId}
use forkfs.Store.Backend.{Op, put, delete, after}
use forkfs.Store.Transact.{root_of, object_of, root_ops}

pub after-append :
    (xs ys : List Op) (key : Bytes) (old : Option Bytes)
    → after (xs ++ ys) key old ≡ after ys key (after xs key old)
unfolding after
after-append [] ys key old = refl
after-append (put k v ∷ xs) ys key old = after-append xs ys key _
after-append (delete k ∷ xs) ys key old = after-append xs ys key _

-- What an update leaves under a root: nothing said keeps the old identity.
abbrev pub chosen : Option (Option ObjectId) → Option Bytes → Option Bytes
chosen none old = old
chosen (some update) old = update

pub after-root_ops :
    (updates : Map (Option ObjectId)) (key : Bytes) (old : Option Bytes)
    → IsOrdered updates
    → after (root_ops updates) (root_of key) old ≡ chosen (lookup key updates) old
unfolding after root_ops lookup bytes_eq
after-root_ops [] key old o = refl
after-root_ops ((j, some hash) ∷ rest) key old o =
    after-root_ops rest key _ (IsAbove-IsOrdered j rest o) ∙ elim (Bool-cases (bytes_eq j key)) [
      | inl e ↦ rw (e, ← bytes_eq-eq j key e, lookup-head j rest o)
      | inr n ↦ rw n
    ]
after-root_ops ((j, none) ∷ rest) key old o =
    after-root_ops rest key _ (IsAbove-IsOrdered j rest o) ∙ elim (Bool-cases (bytes_eq j key)) [
      | inl e ↦ rw (e, ← bytes_eq-eq j key e, lookup-head j rest o)
      | inr n ↦ rw n
    ]

pub after-root_ops_object :
    (updates : Map (Option ObjectId)) (id : ObjectId) (old : Option Bytes)
    → after (root_ops updates) (object_of id) old ≡ old
unfolding after root_ops bytes_eq
after-root_ops_object [] id old = refl
after-root_ops_object ((j, some hash) ∷ rest) id old = after-root_ops_object rest id old
after-root_ops_object ((j, none) ∷ rest) id old = after-root_ops_object rest id old
