-- ===== src/Namespace/Content.antt =====
-- Reads and edits of a file's bytes: `edit_content`, `write_at`, `append`, `truncate`, `read_at`, and the
-- same through a handle, `edit_handle` to `handle_truncate`, `read_handle_locked`, `handle_read_next` and
-- `handle_write_next` (daemon/namespace.cpp).
pub mod Written
pub mod Handled
mod Stored
mod Found
pub mod Seen
mod Placed
mod Tests
use forkfs.Common.{
  ℕ, ◌+◌, ◌-◌, ◌^◌, Bool, true, false, not, ◌&&◌, ◌||◌, Option, none, some, List, [], ◌∷◌, ◌++◌,
  length, leb, ◌==◌, if◌then◌else◌, take, drop, min,
}
use forkfs.Common.Bytes.{Bytes, codes}
use forkfs.Common.Map.{Map, lookup, contains}
use forkfs.Common.Result.{Result, ok, err, need, need_some, ◌>>=◌, ◌>>◌}
use forkfs.Keys.{orphan_prefix}
use forkfs.Handles.{OpenHandle, Table, Selected, find_handle, set_cursor}
use forkfs.Namespace.{InodeInfo, View, inode_key, content_key, get, inode, encode, decode_inode}
use forkfs.Namespace.Walk.{resolve}
use forkfs.Namespace.Changes.{Changes, put, World, update, publish}
use forkfs.Namespace.Files.{file_limit, touch, read_view}
use forkfs.Namespace.Files.Attributes.{
  Attributes, valid_attributes, apply_attributes, asks_nothing, resize,
}

abbrev pub int64_max : ℕ
int64_max = 2 ^ 63 - 1

-- `edit`, with what it stores for its caller; it is false (`none`) where it leaves the file alone.
abbrev pub Edit : Type 0 → Type 0
Edit A = Bytes → Result (A × Option Bytes)

-- end=offset+value.size(); resize to end if longer; std::copy of value at offset.
unfoldable pub splice : ℕ → Bytes → Bytes → Bytes
unfolding resize
splice offset value bytes =
    let end = offset + length value in
    let longer = if leb end (length bytes) then bytes else resize end bytes in
    take offset longer ++ (value ++ drop end longer)

unfoldable pub fits : ℕ → Bytes → Bool
fits offset value = leb offset file_limit && leb (length value) (file_limit - offset)

unfoldable pub write_edit : ℕ → Bytes → Edit (Unit {0})
unfolding splice
write_edit offset value bytes =
    ok (tt, if length value == 0 then none else some (splice offset value bytes))

unfoldable pub append_edit : Bytes → Edit ℕ
unfolding fits
append_edit value bytes = do
  need (fits (length bytes) value) "prototype files are limited to 256 KiB"
  ok (length bytes, if length value == 0 then none else some (bytes ++ value))

unfoldable pub truncate_edit : ℕ → Edit (Unit {0})
unfolding resize
truncate_edit size bytes = ok (tt, if length bytes == size then none else some (resize size bytes))

-- The slice that a read returns.
unfoldable pub slice : ℕ → ℕ → Bytes → Bytes
slice offset count bytes =
    if leb (length bytes) offset || (count == 0)
    then []
    else take (min count (length bytes - offset)) (drop offset bytes)

unfoldable pub read_at : World → Bytes → ℕ → ℕ → Result Bytes
unfolding read_view slice
read_at w path offset count = do
  need (leb offset int64_max) "file offset exceeds signed 64-bit range"
  bytes ← read_view w.view path
  ok (slice offset count bytes)

-- The end of an edit: the new record and content of an inode, under its keys.
unfoldable pub edited : Bytes → Bytes → InodeInfo → ℕ → Option Bytes → Result Changes
unfolding encode
edited record_key bytes_key n time none = ok []
edited record_key bytes_key n time (some bytes) = do
  need (leb (length bytes) file_limit) "prototype files are limited to 256 KiB"
  ok (
      put bytes_key bytes
        (put record_key (encode (touch (record n { size = length bytes }) time)) []))

unfoldable pub edit_changes : {A : Type 0} → View → Bytes → ℕ → Edit A → Result (A × Changes)
unfolding resolve inode get edited
edit_changes view path time edit = do
  id ← resolve view path true
  n ← inode view id
  need (not n.directory) "cannot modify directory content"
  value ← get view (content_key id)
  need (length value == n.size) "inode size mismatch"
  (result, r) ← edit value
  c ← edited (inode_key id) (content_key id) n time r
  ok (result, c)

unfoldable pub edit_content : {A : Type 0} → World → Bytes → ℕ → Edit A → Result (A × World)
unfolding update edit_changes
edit_content w path time edit = update w λ view. edit_changes view path time edit

unfoldable pub write_at : World → Bytes → ℕ → ℕ → Bytes → Result (Unit {0} × World)
unfolding edit_content write_edit fits
write_at w path time offset value = do
  need (leb offset int64_max) "file offset exceeds signed 64-bit range"
  need ((length value == 0) || fits offset value) "prototype files are limited to 256 KiB"
  edit_content w path time (write_edit offset value)

-- The offset of an append is the size before it.
unfoldable pub append : World → Bytes → ℕ → Bytes → Result (ℕ × World)
unfolding edit_content append_edit
append w path time value = do
  need (leb (length value) file_limit) "prototype files are limited to 256 KiB"
  edit_content w path time (append_edit value)

unfoldable pub truncate : World → Bytes → ℕ → ℕ → Result (Unit {0} × World)
unfolding edit_content truncate_edit
truncate w path time size = do
  need (leb size file_limit) "prototype files are limited to 256 KiB"
  edit_content w path time (truncate_edit size)
