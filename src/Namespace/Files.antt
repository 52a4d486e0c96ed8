-- ===== src/Namespace/Files.antt =====
-- Making, replacing and reading files and directories: `initialize` to `read`, `list`, `stat`, `lstat`,
-- `symlink`, `readlink`, `retire` and the attributes (daemon/namespace.cpp). `now k` is what the call number
-- k of `now()` in an operation returns, and `entropy` what its attempts read from /dev/urandom.
pub mod Attributes
use forkfs.Common.{
  ℕ, ◌+◌, ◌-◌, ◌%◌, ◌^◌, Bool, true, false, not, ◌&&◌, ◌||◌, Option, none, some, List, [], ◌∷◌,
  ◌++◌, length, leb, ltb, ◌==◌, if◌then◌else◌, drop, bool_eq, ◌⊎◌, inl, inr,
}
use forkfs.Common.Bytes.{Bytes, codes, bytes_eq}
use forkfs.Common.Map.{Map, contains}
use forkfs.Common.Result.{Result, ok, err, need, ◌>>=◌, ◌>>◌}
use forkfs.Keys.{prefix, root_key, orphan_prefix}
use forkfs.Namespace.{
  InodeInfo, View, inode_key, allocated_key, content_key, directory_prefix, id_bytes, decode_id,
  get, keys, inode, encode, new_id,
}
use forkfs.Namespace.Names.{target_components, is_nil}
use forkfs.Namespace.Walk.{Parent, parent, resolve, resolve_missing}
use forkfs.Namespace.Changes.{Changes, put, drop_key, World, update}

abbrev pub file_limit : ℕ
file_limit = 262144

abbrev pub uint64_max : ℕ
uint64_max = 2 ^ 64 - 1

-- --links in uint64_t.
abbrev pub dec : ℕ → ℕ
dec links = (links + uint64_max) % 2 ^ 64

abbrev pub touch : InodeInfo → ℕ → InodeInfo
touch n time = record n { modified_ns = time; changed_ns = time }

-- decode_id(j.get(key))
unfoldable pub entry_id : View → Bytes → Result Bytes
unfolding get decode_id
entry_id view key = do b ← get view key; decode_id b

abbrev pub fresh : Bytes → Bool → ℕ → ℕ → ℕ → ℕ → ℕ → Bool → InodeInfo
fresh id directory mode links size modified changed symlink = record {
  id = id;
  directory = directory;
  mode = mode;
  links = links;
  size = size;
  modified_ns = modified;
  changed_ns = changed;
  symlink = symlink;
}

-- The records of a new entry: its parent, the entry and the allocation of the identity.
unfoldable pub add_entry : Parent → InodeInfo → Bytes → Changes → Result Changes
unfolding id_bytes encode
add_entry p pn id c = do
  b ← id_bytes id
  ok (put (allocated_key id) [] (put p.key b (put (inode_key p.id) (encode pn) c)))

-- The record of an inode with one link less, or none at all. A file that is still open keeps its record and
-- content under orphan roots.
unfoldable pub retire : World → View → ℕ → InodeInfo → Changes → Result Changes
unfolding encode get
retire w view time n c =
    let gone = drop_key (inode_key n.id) c in
    let pre = orphan_prefix w.name n.id in
    let orphan = record n { links = 0; changed_ns = time } in
    if n.directory
    then ok gone
    else if w.open_counts n.id == 0
    then ok (drop_key (content_key n.id) gone)
    else (get view (content_key n.id) >>= λ content. ok (
        put (pre ++ codes "content") content
          (put (pre ++ codes "inode") (encode orphan) (drop_key (content_key n.id) gone))))

unfoldable pub unlinked : World → View → ℕ → InodeInfo → Changes → Result Changes
unfolding retire encode
unlinked w view time n c =
    if n.links == 1
    then retire w view time n c
    else ok (put (inode_key n.id) (encode (record n { links = dec n.links; changed_ns = time })) c)

unfoldable pub read_view : View → Bytes → Result Bytes
unfolding resolve inode get
read_view view path = do
  id ← resolve view path true
  n ← inode view id
  need (not n.directory) "cannot read a directory"
  value ← get view (content_key id)
  need (length value == n.size) "inode size mismatch"
  ok value

abbrev pub names_after : ℕ → List Bytes → List Bytes
names_after n [] = []
names_after n (key ∷ rest) = drop n key ∷ names_after n rest

unfoldable pub list_view : View → Bytes → Result (List Bytes)
unfolding resolve inode keys
list_view view path = do
  id ← resolve view path true
  n ← inode view id
  need n.directory "path is not a directory"
  ok (names_after (length (directory_prefix id)) (keys view.records (directory_prefix id)))

unfoldable pub stat : View → Bytes → Result InodeInfo
unfolding resolve inode
stat view path = do id ← resolve view path true; inode view id

unfoldable pub lstat : View → Bytes → Result InodeInfo
unfolding resolve inode
lstat view path = do id ← resolve view path false; inode view id

unfoldable pub readlink : View → Bytes → Result Bytes
unfolding resolve inode get target_components
readlink view path = do
  id ← resolve view path false
  n ← inode view id
  need n.symlink "path is not a symbolic link"
  target ← get view (content_key id)
  need (length target == n.size) "symlink size mismatch"
  parts ← target_components target
  ok target

-- Where `write` writes: an inode, whether it exists, and the parent that takes a new one.
pub record Destination : Type 0 where
  pub id : Bytes
  pub exists : Bool
  pub place : Parent

module _ (now : ℕ → ℕ) (entropy : ℕ → Bytes) where
  unfoldable pub initialize : World → Result (Unit {0} × World)
  unfolding update new_id id_bytes encode keys
  initialize w =
      need (bytes_eq w.name (codes "main") && not w.revision) "fs-init initializes main only"
      >> update w λ view. do
        need (not (contains root_key view.records)) "filesystem already initialized"
        need (is_nil (keys view.records prefix)) "orphan filesystem records prevent initialization"
        id ← new_id view entropy
        b ← id_bytes id
        ok (
          tt,
          put (allocated_key id) [] (
              put (inode_key id) (encode (fresh id true 0o755 2 0 (now 0) (now 1) false))
                (put root_key b [])),
        )

  unfoldable pub mkdir : World → Bytes → ℕ → Result (Unit {0} × World)
  unfolding update parent new_id inode encode add_entry
  mkdir w path mode =
      need (leb mode 0o777) "invalid creation mode"
      >> update w λ view. do
        p ← parent view path
        need (not (contains p.key view.records)) "path already exists"
        id ← new_id view entropy
        pn ← inode view p.id
        need (ltb pn.links uint64_max) "directory link count exhausted"
        c ←
            add_entry p (touch (record pn { links = pn.links + 1 }) (now 2)) id
              (put (inode_key id) (encode (fresh id true mode 2 0 (now 0) (now 1) false)) [])
        ok (tt, c)

  unfoldable pub write_destination : View → Bytes → Parent → Result Destination
  unfolding entry_id inode resolve_missing new_id
  write_destination view path p = do
    if contains p.key view.records
        then (entry_id view p.key >>= λ id. inode view id >>= λ n.
            if n.symlink
            then (resolve_missing view path >>= λ (r : Bytes ⊎ Parent). elim r [
              | inl target ↦ ok (record { id = target; exists = true; place = p })
              | inr q ↦
                  (new_id view entropy >>= λ made.
                  ok (record { id = made; exists = false; place = q }))
            ])
            else ok (record { id = id; exists = true; place = p }))
        else (new_id view entropy >>= λ made. ok (record { id = made; exists = false; place = p }))

  -- The inode that is written: the one there, or a new regular file.
  unfoldable pub written : View → Destination → Result InodeInfo
  unfolding inode
  written view d =
      if d.exists then inode view d.id else ok (fresh d.id false 0o644 1 0 (now 0) (now 1) false)

  unfoldable pub write_changes : View → Destination → InodeInfo → Bytes → Result Changes
  unfolding encode inode add_entry
  write_changes view d n value =
      let c =
        put (content_key d.id) value
          (put (inode_key d.id) (encode (touch (record n { size = length value }) (now 2))) []) in
      if d.exists
      then ok c
      else (inode view d.place.id >>= λ pn. add_entry d.place (touch pn (now 3)) d.id c)

  unfoldable pub write : World → Bytes → Bytes → Result (Unit {0} × World)
  unfolding update parent write_destination written write_changes
  write w path value =
      need (leb (length value) file_limit) "prototype files are limited to 256 KiB"
      >> update w λ view. do
        p ← parent view path
        d ← write_destination view path p
        n ← written view d
        need (not n.directory && not n.symlink) "cannot write non-regular file"
        c ← write_changes view d n value
        ok (tt, c)

  -- What `replace_file` leaves of the old file, and the mode of the new one.
  unfoldable pub replaced : World → View → Bytes → Result (ℕ × Changes)
  unfolding entry_id inode unlinked
  replaced w view key = do
    if contains key view.records
        then (entry_id view key >>= λ id. inode view id >>= λ old.
            need (not old.directory) "cannot replace directory with a file"
            >> (unlinked w view (now 0) old [] >>= λ c.
                ok (if old.symlink then 0o644 else old.mode, c)))
        else ok (0o644, [])

  unfoldable pub replace_file : World → Bytes → Bytes → Result (Unit {0} × World)
  unfolding update parent replaced new_id inode encode add_entry
  replace_file w path value =
      need (leb (length value) file_limit) "prototype files are limited to 256 KiB"
      >> update w λ view. do
        p ← parent view path
        (mode, old) ← replaced w view p.key
        id ← new_id view entropy
        pn ← inode view p.id
        c ← add_entry p (touch pn (now 3)) id (
            put (content_key id) value (
              put (inode_key id)
                (encode (fresh id false mode 1 (length value) (now 1) (now 2) false)) old))
        ok (tt, c)

  unfoldable pub symlink : World → Bytes → Bytes → Result (Unit {0} × World)
  unfolding target_components update parent new_id inode encode add_entry
  symlink w target path = do
    parts ← target_components target
    update w λ view. do
      p ← parent view path
      need (not (contains p.key view.records)) "path already exists"
      id ← new_id view entropy
      pn ← inode view p.id
      c ← add_entry p (touch pn (now 2)) id (
          put (content_key id) target (
            put (inode_key id)
              (encode (fresh id false 0o777 1 (length target) (now 0) (now 1) true)) []))
      ok (tt, c)
