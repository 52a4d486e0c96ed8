-- ===== src/Namespace/Content/Handled.antt =====
-- Reads and edits through a handle: `read_handle_locked`, `edit_handle` and the operations on top of them,
-- `handle_stat` and `handle_set_attributes` (daemon/namespace.cpp).
use forkfs.Common.{
  ℕ, ◌+◌, true, not, ◌||◌, Option, none, some, [], ◌++◌, length, leb, ◌==◌, if◌then◌else◌,
}
use forkfs.Common.Bytes.{Bytes, codes}
use forkfs.Common.Map.{lookup, contains}
use forkfs.Common.Result.{Result, ok, need, need_some, ◌>>=◌, ◌>>◌}
use forkfs.Keys.{orphan_prefix}
use forkfs.Handles.{OpenHandle, Table, Selected, find_handle, set_cursor}
use forkfs.Namespace.{InodeInfo, inode_key, content_key, get, inode, encode, decode_inode}
use forkfs.Namespace.Changes.{Changes, put, World, commit_changes}
use forkfs.Namespace.Files.{file_limit}
use forkfs.Namespace.Files.Attributes.{
  Attributes, valid_attributes, apply_attributes, asks_nothing, resize, is_some,
}
use forkfs.Namespace.Content.{
  int64_max, Edit, fits, splice, append_edit, truncate_edit, slice, edited,
}

-- The keys, the record and the content of an open file: in the view while it is linked, else the orphan's.
pub record OpenFile : Type 0 where
  pub record_key : Bytes
  pub bytes_key : Bytes
  pub info : InodeInfo
  pub content : Bytes

unfoldable pub root_bytes : World → Bytes → Result Bytes
root_bytes w key = need_some (lookup key w.orphans) "object root not found"

unfoldable pub open_file : World → Bytes → Result OpenFile
unfolding inode get root_bytes decode_inode
open_file w id =
    let pre = orphan_prefix w.name id in
    if contains (inode_key id) w.view.records
    then (inode w.view id >>= λ n. get w.view (content_key id) >>= λ content. ok (record {
      record_key = inode_key id;
      bytes_key = content_key id;
      info = n;
      content = content;
    }))
    else (root_bytes w (pre ++ codes "inode") >>= λ b. decode_inode b id true >>= λ n.
        root_bytes w (pre ++ codes "content") >>= λ content. ok (record {
          record_key = pre ++ codes "inode";
          bytes_key = pre ++ codes "content";
          info = n;
          content = content;
        }))

-- The Namespace object that a World stands for, as the table of handles sees it.
abbrev pub selected : World → Selected
selected w = record { view = w.name; revision = w.revision }

unfoldable pub read_handle_locked : World → OpenHandle → ℕ → ℕ → Result Bytes
unfolding open_file slice
read_handle_locked w info offset count = do
  need (contains (inode_key info.inode) w.view.records || not w.revision) "revision inode missing"
  f ← open_file w info.inode
  need (length f.content == f.info.size) "inode size mismatch"
  ok (slice offset count f.content)

unfoldable pub handle_read : World → Table → Bytes → ℕ → ℕ → Result Bytes
unfolding find_handle read_handle_locked
handle_read w t token offset count = do
  need (leb offset int64_max) "file offset exceeds signed 64-bit range"
  info ← find_handle t (selected w) token
  need info.readable "handle is not readable"
  read_handle_locked w info offset count

unfoldable pub handle_read_next : World → Table → Bytes → ℕ → Result (Bytes × Table)
unfolding find_handle read_handle_locked
handle_read_next w t token count = do
  info ← find_handle t (selected w) token
  need info.readable "handle is not readable"
  let cursor = t.cursors info.cursor
  bytes ← read_handle_locked w info cursor.position count
  ok (bytes, set_cursor t info.cursor (record cursor { position = cursor.position + length bytes }))

-- The edit is told whether the handle appends.
unfoldable pub edit_handle :
    {A : Type 0} → World → Table → Bytes → ℕ → (OpenHandle → Edit A) → Result (A × World)
unfolding find_handle open_file edited commit_changes
edit_handle w t token time edit = do
  need (not w.revision) "revision view is read-only"
  info ← find_handle t (selected w) token
  need info.writable "handle is not writable"
  f ← open_file w info.inode
  need (length f.content == f.info.size) "inode size mismatch"
  (result, r) ← edit info f.content
  c ← edited f.record_key f.bytes_key f.info time r
  ok (result, commit_changes w c)

-- Where a write lands: at the end for a handle that appends. The end of what was
-- written comes with it, for `handle_write_next`.
unfoldable pub write_handle_edit : ℕ → Bytes → OpenHandle → Edit ℕ
unfolding fits splice
write_handle_edit offset value info bytes =
    let actual = if info.append then length bytes else offset in
    if length value == 0
    then ok (offset, none)
    else (need (fits actual value) "prototype files are limited to 256 KiB"
        >> ok (actual + length value, some (splice actual value bytes)))

unfoldable pub handle_write : World → Table → Bytes → ℕ → ℕ → Bytes → Result (Unit {0} × World)
unfolding edit_handle write_handle_edit
handle_write w t token time offset value = do
  need (leb offset int64_max) "file offset exceeds signed 64-bit range"
  need (leb (length value) file_limit) "prototype files are limited to 256 KiB"
  (next, w') ← edit_handle w t token time (write_handle_edit offset value)
  ok (tt, w')

unfoldable pub handle_append : World → Table → Bytes → ℕ → Bytes → Result (ℕ × World)
unfolding edit_handle append_edit
handle_append w t token time value = do
  need (leb (length value) file_limit) "prototype files are limited to 256 KiB"
  edit_handle w t token time (λ info. append_edit value)

unfoldable pub handle_truncate : World → Table → Bytes → ℕ → ℕ → Result (Unit {0} × World)
unfolding edit_handle truncate_edit
handle_truncate w t token time size = do
  need (leb size file_limit) "prototype files are limited to 256 KiB"
  edit_handle w t token time (λ info. truncate_edit size)

-- The cursor moves only if the write is committed.
unfoldable pub handle_write_next : World → Table → Bytes → ℕ → Bytes → Result (ℕ × Table × World)
unfolding edit_handle write_handle_edit find_handle
handle_write_next w t token time value = do
  need (leb (length value) file_limit) "prototype files are limited to 256 KiB"
  (next, w') ←
      edit_handle w t token time
        (λ info. write_handle_edit (t.cursors info.cursor).position value info)
  info ← find_handle t (selected w) token
  ok (
    length value,
    set_cursor t info.cursor (record (t.cursors info.cursor) { position = next }),
    w',
  )

unfoldable pub handle_stat : World → Table → Bytes → Result InodeInfo
unfolding find_handle inode root_bytes decode_inode
handle_stat w t token = do
  info ← find_handle t (selected w) token
  if contains (inode_key info.inode) w.view.records
      then inode w.view info.inode
      else (need (not w.revision) "revision inode missing"
          >> (root_bytes w (orphan_prefix w.name info.inode ++ codes "inode") >>= λ b.
              decode_inode b info.inode true))

-- A new size, for the content that is read only then.
unfoldable pub handle_sized :
    World → Bytes → Bytes → InodeInfo → Option ℕ → ℕ → Result (InodeInfo × Changes)
unfolding resize root_bytes get
handle_sized w bytes_key id n none time = ok (n, [])
handle_sized w bytes_key id n (some size) time = do
  content ←
      if contains (inode_key id) w.view.records
      then get w.view bytes_key
      else root_bytes w bytes_key
  need (length content == n.size) "inode size mismatch"
  if n.size == size
      then ok (n, [])
      else ok (
        record n { size = size; modified_ns = time; changed_ns = time },
        put bytes_key (resize size content) [],
      )

unfoldable pub handle_set_attributes : World → Table → Bytes → (ℕ → ℕ) → Attributes → Result World
unfolding valid_attributes find_handle inode root_bytes decode_inode asks_nothing handle_sized
    apply_attributes encode commit_changes
handle_set_attributes w t token now a = do
  valid_attributes a
  need (not w.revision) "revision view is read-only"
  info ← find_handle t (selected w) token
  let linked = contains (inode_key info.inode) w.view.records
  let pre = orphan_prefix w.name info.inode
  let key = if linked then inode_key info.inode else pre ++ codes "inode"
  let bytes_key = if linked then content_key info.inode else pre ++ codes "content"
  n ←
      if linked
      then inode w.view info.inode
      else (root_bytes w key >>= λ b. decode_inode b info.inode true)
  need (not (is_some a.size) || info.writable) "handle is not writable"
  if asks_nothing a n
      then ok w
      else (handle_sized w bytes_key info.inode n a.size (now 0) >>= λ (n', c).
          ok (commit_changes w (put key (encode (apply_attributes n' a (now 1))) c)))
