-- ===== src/Namespace/Content/Found.antt =====
-- The file that a handle finds again after the commit of an edit (`edit_handle`, daemon/namespace.cpp).
use forkfs.Common.{
  ℕ, ◌≤◌, ◌<◌, ◌^◌, ◌≡◌, refl, Bool, true, false, not, inl, inr, [], ◌∷◌, ◌++◌, length, arith,
  Bool-cases,
}
use forkfs.Common.Bytes.{Bytes, codes}
use forkfs.Common.Map.{contains}
use forkfs.Common.Result.{ok, >>=-eq-ok}
use forkfs.Keys.{orphan_prefix}
use forkfs.Namespace.{InodeInfo, inode_key, content_key, get, inode, decode_inode, encode}
use forkfs.Namespace.Records.{IsInode, decode_inode-id}
use forkfs.Namespace.Changes.{Changes, put, World, commit_changes}
use forkfs.Namespace.Files.{touch}
use forkfs.Namespace.Content.Handled.{OpenFile, open_file, root_bytes, selected}
use forkfs.Namespace.Content.Stored.{open_file-linked, open_file-orphan}

-- What `open_file` found: the keys of its file, linked or an orphan.
data Found (w : World) (id : Bytes) (f : OpenFile) : Type 0 where
  linked :
      contains (inode_key id) w.view.records ≡ true
      → f.record_key ≡ inode_key id
      → f.bytes_key ≡ content_key id
      → f.info.id ≡ id
      → Found w id f
  orphaned :
      contains (inode_key id) w.view.records ≡ false
      → f.record_key ≡ orphan_prefix w.name id ++ codes "inode"
      → f.bytes_key ≡ orphan_prefix w.name id ++ codes "content"
      → f.info.id ≡ id
      → Found w id f

open_file-Found : (w : World) (id : Bytes) (f : OpenFile) → open_file w id ≡ ok f → Found w id f
unfolding open_file inode
open_file-Found w id f h = elim (Bool-cases (contains (inode_key id) w.view.records)) [
  | inl there ↦
      let h0 = rw there at h in
      let (n, read, h1) = >>=-eq-ok (inode w.view id) _ h0 in
      let (content, _, h2) = >>=-eq-ok (get w.view (content_key id)) _ h1 in
      let (b, _, read') = >>=-eq-ok (get w.view (inode_key id)) _ read in
      let same : n ≡ f.info = cc in
      linked there (cc) (cc) (rw (← same) (decode_inode-id b id false n read'))
  | inr gone ↦
      let h0 = rw gone at h in
      let (b, _, h1) = >>=-eq-ok (root_bytes w (orphan_prefix w.name id ++ codes "inode")) _ h0 in
      let (n, read, h2) = >>=-eq-ok (decode_inode b id true) _ h1 in
      let (content, _, h3) =
        >>=-eq-ok (root_bytes w (orphan_prefix w.name id ++ codes "content")) _ h2 in
      let same : n ≡ f.info = cc in
      orphaned gone (cc) (cc) (rw (← same) (decode_inode-id b id true n read))
]

pub selected_commit : (w : World) (c : Changes) → selected (commit_changes w c) ≡ selected w
unfolding commit_changes
selected_commit w [] = refl
selected_commit w (first ∷ rest) = refl

-- The record of a file after an edit.
abbrev pub after_edit : InodeInfo → ℕ → Bytes → InodeInfo
after_edit n time b = touch (record n { size = length b }) time

after_edit-IsInode :
    (n : InodeInfo) (orphan : Bool) (time : ℕ) (b : Bytes)
    → IsInode n orphan
    → n.directory ≡ false
    → time < 256 ^ 8
    → length b ≤ 262144
    → IsInode (after_edit n time b) orphan
after_edit-IsInode n orphan time b well file soon small = record {
  mode_fits = well.mode_fits;
  links_fit = well.links_fit;
  size_fits = omega arith;
  modified_fits = soon;
  changed_fits = soon;
  one_type = well.one_type;
  state = rw file (rw file at well.state);
}

-- A commit of the changes of an edit is found again.
pub open_file-commit :
    (w : World) (id b : Bytes) (f : OpenFile) (time : ℕ)
    → open_file w id ≡ ok f
    → IsInode f.info (not (contains (inode_key id) w.view.records))
    → f.info.directory ≡ false
    → time < 256 ^ 8
    → length b ≤ 262144
    → (g : OpenFile) × (open_file
          (commit_changes w
            (put f.bytes_key b (put f.record_key (encode (after_edit f.info time b)) [])))
          id
        ≡ ok g)
      × (g.info ≡ after_edit f.info time b)
      × (g.content ≡ b)
open_file-commit w id b f time opened well file soon small = elim (open_file-Found w id f opened) [
  | linked there rk bk same ↦
      let well' : IsInode f.info false = rw there at well in
      let n = after_edit f.info time b in
      (
        record { record_key = inode_key id; bytes_key = content_key id; info = n; content = b },
        rw (rk, bk)
            (open_file-linked w id b n same
              (after_edit-IsInode f.info false time b well' file soon small)),
        refl,
        refl,
      )
  | orphaned gone rk bk same ↦
      let well' : IsInode f.info true = rw gone at well in
      let n = after_edit f.info time b in
      (
        record {
          record_key = orphan_prefix w.name id ++ codes "inode";
          bytes_key = orphan_prefix w.name id ++ codes "content";
          info = n;
          content = b;
        },
        rw (rk, bk)
            (open_file-orphan w id b n gone same
              (after_edit-IsInode f.info true time b well' file soon small)),
        refl,
        refl,
      )
]
