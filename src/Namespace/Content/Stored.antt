-- ===== src/Namespace/Content/Stored.antt =====
-- A file's record and content after the commit of an edit (`edit_handle`, daemon/namespace.cpp): both are
-- found again where the file was, in the view or under the orphan's roots.
use forkfs.Common.{◌≡◌, refl, ap, ◌∙◌, Bool, true, false, some, [], ◌∷◌, ◌++◌, arith}
use forkfs.Common.Bytes.{Bytes, codes, bytes_eq, bytes_lt, starts_with, bytes_eq_sym}
use forkfs.Common.Map.{Map, lookup, insert, contains, lookup-insert, lookup-insert_self}
use forkfs.Common.Result.{ok}
use forkfs.Keys.{orphan_prefix}
use forkfs.Namespace.{InodeInfo, inode_key, content_key, get, inode, encode, decode_inode}
use forkfs.Namespace.Records.{IsInode, decode_inode-encode}
use forkfs.Namespace.Changes.{
  Changes, put, World, commit_changes, applied, view_changes, orphan_changes,
}
use forkfs.Namespace.Content.Handled.{open_file, root_bytes}

bytes_eq-append : (p x y : Bytes) → bytes_eq (p ++ x) (p ++ y) ≡ bytes_eq x y
unfolding bytes_eq
bytes_eq-append [] x y = refl
bytes_eq-append (b ∷ p) x y = ground (arith, bytes_eq-append p x y)

bytes_lt-append : (p x y : Bytes) → bytes_lt (p ++ x) (p ++ y) ≡ bytes_lt x y
unfolding bytes_lt
bytes_lt-append [] x y = refl
bytes_lt-append (b ∷ p) x y = ground (arith, bytes_lt-append p x y)

inode_ne_content : bytes_eq (codes "inode") (codes "content") ≡ false
unfolding bytes_eq
inode_ne_content = refl

content_lt_inode : bytes_lt (codes "content") (codes "inode") ≡ true
unfolding bytes_lt
content_lt_inode = refl

-- The two changes of an edit, under keys that differ only behind `p`.
edit_pair :
    (p b e : Bytes)
    → put (p ++ codes "content") b (put (p ++ codes "inode") e [])
      ≡ (p ++ codes "content", some b) ∷ (p ++ codes "inode", some e) ∷ []
unfolding insert
edit_pair p b e =
    let apart : bytes_eq (p ++ codes "inode") (p ++ codes "content") ≡ false =
      bytes_eq-append p (codes "inode") (codes "content") ∙ inode_ne_content in
    let before : bytes_lt (p ++ codes "content") (p ++ codes "inode") ≡ true =
      bytes_lt-append p (codes "content") (codes "inode") ∙ content_lt_inode in
    rw (apart, before) refl

linked_pair :
    (id b e : Bytes)
    → put (content_key id) b (put (inode_key id) e [])
      ≡ (content_key id, some b) ∷ (inode_key id, some e) ∷ []
unfolding insert bytes_eq bytes_lt
linked_pair id b e = refl

keys_apart : (id : Bytes) → bytes_eq (content_key id) (inode_key id) ≡ false
unfolding bytes_eq
keys_apart id = refl

fields_apart : (p : Bytes) → bytes_eq (p ++ codes "content") (p ++ codes "inode") ≡ false
fields_apart p =
    bytes_eq_sym _ _ ∙ (bytes_eq-append p (codes "inode") (codes "content") ∙ inode_ne_content)

-- Two insertions under different keys.
module _ (j k b e : Bytes) (m : Map Bytes) (apart : bytes_eq j k ≡ false) where
  first_found : lookup j (insert j b (insert k e m)) ≡ some b
  first_found = lookup-insert_self j b (insert k e m)

  second_found : lookup k (insert j b (insert k e m)) ≡ some e
  second_found = lookup-insert k j b (insert k e m) ∙ rw apart (lookup-insert_self k e m)

-- Where the changes of a linked file and of an orphan go.
linked_records :
    (w : World) (id b e : Bytes)
    → (commit_changes w ((content_key id, some b) ∷ (inode_key id, some e) ∷ [])).view.records
      ≡ insert (content_key id) b (insert (inode_key id) e w.view.records)
unfolding commit_changes view_changes applied starts_with
linked_records w id b e = refl

abbrev orphan_pair : World → Bytes → Bytes → Bytes → Changes
orphan_pair w id b e =
    (orphan_prefix w.name id ++ codes "content", some b)
    ∷ (orphan_prefix w.name id ++ codes "inode", some e)
    ∷ []

orphan_records :
    (w : World) (id b e : Bytes)
    → ((commit_changes w (orphan_pair w id b e)).view.records ≡ w.view.records)
      × ((commit_changes w (orphan_pair w id b e)).name ≡ w.name)
      × ((commit_changes w (orphan_pair w id b e)).orphans
          ≡ insert
              (orphan_prefix w.name id ++ codes "content")
              b
              (insert (orphan_prefix w.name id ++ codes "inode") e w.orphans))
unfolding commit_changes view_changes orphan_changes applied starts_with
orphan_records w id b e = (refl, refl, refl)

decoded :
    (id : Bytes) (orphan : Bool) (n : InodeInfo)
    → n.id ≡ id
    → IsInode n orphan
    → decode_inode (encode n) id orphan ≡ ok n
decoded id orphan n same well = rw (← same) (decode_inode-encode n orphan well)

some-contains : (k v : Bytes) (m : Map Bytes) → lookup k m ≡ some v → contains k m ≡ true
some-contains k v m h = rw (h, contains) refl

-- A linked file after an edit of its record and content.
pub open_file-linked :
    (w : World) (id b : Bytes) (n : InodeInfo)
    → n.id ≡ id
    → IsInode n false
    → open_file (commit_changes w (put (content_key id) b (put (inode_key id) (encode n) []))) id
      ≡ ok (record { record_key = inode_key id; bytes_key = content_key id; info = n; content = b })
unfolding open_file inode get
open_file-linked w id b n same well =
    let e = encode n in
    let at =
      ap (λ c. (commit_changes w c).view.records) (linked_pair id b e) ∙ linked_records w id b e in
    let content =
      ap (lookup (content_key id)) at
      ∙ first_found (content_key id) (inode_key id) b e w.view.records (keys_apart id) in
    let written =
      ap (lookup (inode_key id)) at
      ∙ second_found (content_key id) (inode_key id) b e w.view.records (keys_apart id) in
    let there =
      some-contains (inode_key id) e
        (commit_changes w (put (content_key id) b (put (inode_key id) e []))).view.records
        written in
    rw (there, written, content, decoded id false n same well) refl

-- An orphan after the same.
pub open_file-orphan :
    (w : World) (id b : Bytes) (n : InodeInfo)
    → contains (inode_key id) w.view.records ≡ false
    → n.id ≡ id
    → IsInode n true
    → open_file
        (commit_changes w (
          put
            (orphan_prefix w.name id ++ codes "content")
            b
            (put (orphan_prefix w.name id ++ codes "inode") (encode n) [])))
        id
      ≡ ok (record {
        record_key = orphan_prefix w.name id ++ codes "inode";
        bytes_key = orphan_prefix w.name id ++ codes "content";
        info = n;
        content = b;
      })
unfolding open_file root_bytes
open_file-orphan w id b n gone same well =
    let e = encode n in
    let p = orphan_prefix w.name id in
    let (records, name, orphans) = orphan_records w id b e in
    let content =
      ap (lookup (p ++ codes "content")) orphans
      ∙ first_found (p ++ codes "content") (p ++ codes "inode") b e w.orphans (fields_apart p) in
    let written =
      ap (lookup (p ++ codes "inode")) orphans
      ∙ second_found (p ++ codes "content") (p ++ codes "inode") b e w.orphans (fields_apart p) in
    rw (edit_pair p b e, records, gone, name, written, content, decoded id true n same well) refl
