-- ===== src/Namespace/Content/Tests.antt =====
-- A file that is written and read through a handle (daemon/namespace.cpp).
use forkfs.Common.{◌≡◌, refl, true, false, [], ◌∷◌, ◌++◌, replicate, arith}
use forkfs.Common.Bytes.{Bytes, codes, bytes_eq, bytes_lt, starts_with}
use forkfs.Common.Map.{lookup, insert}
use forkfs.Common.Result.{Result, ok}
use forkfs.Codec.{load_le}
use forkfs.Handles.{OpenHandle, Table, find_handle}
use forkfs.Keys.{root_key}
use forkfs.Namespace.{
  InodeInfo, inode_key, entry_key, content_key, encode, get, root, decode_id, valid_id,
}
use forkfs.Namespace.Walk.{resolve, walk_from}
use forkfs.Namespace.Content.Placed.{Placed, write_at-Placed}
use forkfs.Namespace.Changes.{World, applied}
use forkfs.Namespace.Content.{splice, write_at}
use forkfs.Namespace.Content.Written.{IsWritten, splice-IsWritten}
use forkfs.Namespace.Content.Handled.{OpenFile, open_file, handle_write, handle_read}
use forkfs.Namespace.Content.Seen.{handle_read-handle_write}

abbrev id : Bytes
id = replicate 32 b'0'

abbrev info : InodeInfo
info = record {
  id = id;
  directory = false;
  mode = 0o644;
  links = 1;
  size = 5;
  modified_ns = 1;
  changed_ns = 1;
  symlink = false;
}

-- One linked file of five bytes.
before : World
unfolding encode
before = record {
  name = codes "main";
  revision = false;
  view = record {
    records = (content_key id, codes "hello") ∷ (inode_key id, encode info) ∷ [];
    allocated = λ i. true;
  };
  orphans = [];
  runs = 1;
  open_counts = λ i. 1;
}

abbrev handle : OpenHandle
handle = record {
  view = codes "main";
  inode = id;
  revision = false;
  readable = true;
  writable = true;
  append = false;
  cursor = 0;
}

abbrev table : Table
table = record {
  handles = (codes "t", handle) ∷ [];
  cursors = λ c. record { position = 0; locks = [] };
}

abbrev file : OpenFile
file = record {
  record_key = inode_key id;
  bytes_key = content_key id;
  info = info;
  content = codes "hello";
}

opened : open_file before id ≡ ok file
unfolding before open_file lookup bytes_eq load_le
opened = refl

abbrev or_before : {A : Type 0} → Result (A × World) → World
or_before (Result.err message) = before
or_before (ok (_, w)) = w

-- Four bytes over the end of the file.
after : World
unfolding handle_write
after = or_before (handle_write before table (codes "t") 9 3 (codes "pful"))

wrote : handle_write before table (codes "t") 9 3 (codes "pful") ≡ ok (tt, after)
unfolding after before handle_write lookup insert bytes_eq bytes_lt load_le applied starts_with
wrote = refl

whole : handle_read after table (codes "t") 0 100 ≡ ok (codes "helpful")
unfolding after before handle_read lookup insert bytes_eq bytes_lt load_le applied starts_with
whole = refl

handle_read-handle_write_example : handle_read after table (codes "t") 3 4 ≡ ok (codes "pful")
unfolding lookup bytes_eq before find_handle
handle_read-handle_write_example =
    handle_read-handle_write before after table (codes "t") 9 3 (codes "pful") handle file refl refl
      refl (omega arith) opened
      (record {
        mode_fits = omega arith;
        links_fit = omega arith;
        size_fits = omega arith;
        modified_fits = omega arith;
        changed_fits = omega arith;
        one_type = refl;
        state = refl;
      })
      refl (omega arith) wrote

splice-IsWritten_at_input :
    IsWritten 7 (codes "x") (codes "hello") (splice 7 (codes "x") (codes "hello"))
splice-IsWritten_at_input = splice-IsWritten 7 (codes "x") (codes "hello")

-- The same file under the name "/f", in the root directory.
abbrev root_id : Bytes
root_id = replicate 32 b'a'

abbrev root_info : InodeInfo
root_info = record {
  id = root_id;
  directory = true;
  mode = 0o755;
  links = 2;
  size = 0;
  modified_ns = 1;
  changed_ns = 1;
  symlink = false;
}

named : World
unfolding encode before
named = record before {
  view = record (before.view) {
    records =
        (root_key, root_id)
        ∷ (inode_key root_id, encode root_info)
        ∷ (entry_key root_id (codes "f"), id)
        ∷ before.view.records;
  };
}

abbrev named_file : OpenFile
named_file = record {
  record_key = inode_key id;
  bytes_key = content_key id;
  info = info;
  content = codes "hello";
}

named_found : resolve named.view (codes "/f") true ≡ ok id
unfolding named before resolve walk_from lookup bytes_eq load_le get root decode_id valid_id
named_found = refl

named_opened : open_file named id ≡ ok named_file
unfolding named before open_file lookup bytes_eq load_le
named_opened = refl

or_named : {A : Type 0} → Result (A × World) → World
or_named (Result.err message) = named
or_named (ok (_, w)) = w

-- One byte behind the end.
placed : World
unfolding write_at
placed = or_named (write_at named (codes "/f") 9 7 (codes "x"))

placed_written : write_at named (codes "/f") 9 7 (codes "x") ≡ ok (tt, placed)
unfolding placed named before write_at lookup insert bytes_eq bytes_lt load_le applied starts_with
    walk_from get root decode_id valid_id or_named
placed_written = refl

placed_content : get placed.view (content_key id) ≡ ok (codes "hello" ++ (0 ∷ 0 ∷ codes "x"))
unfolding placed named before write_at lookup insert bytes_eq bytes_lt load_le applied starts_with
    walk_from get root decode_id valid_id or_named
placed_content = refl

write_at-Placed_example : Placed named placed id 7 (codes "x") named_file
write_at-Placed_example =
    write_at-Placed named placed (codes "/f") id 9 7 (codes "x") named_file named_found named_opened
      (record {
        mode_fits = omega arith;
        links_fit = omega arith;
        size_fits = omega arith;
        modified_fits = omega arith;
        changed_fits = omega arith;
        one_type = refl;
        state = refl;
      })
      (omega arith) placed_written
