-- ===== src/Namespace/Tests.antt =====
-- The namespace (daemon/namespace.cpp) on concrete views, and its theorems at concrete inputs.
use forkfs.Codec.{load_le}
use forkfs.Keys.{history}
use forkfs.Handles.Counts.{OpenFiles}
use forkfs.Handles.Balance.{number_open, IsBalanced}
use forkfs.Namespace.Opening.{read_write, OpenOptions, open_handle, blank}
use forkfs.Namespace.Opening.Balance.{Unchanged, open_handle-IsBalanced}
use forkfs.View.Run.{ObjectId, zero_id}
use forkfs.Tree.Picks.{picked}
use forkfs.Namespace.Records.{decode_inode-encode}
use forkfs.Namespace.Names.{IsComponent}
use forkfs.Namespace.Names.Paths.{absolute, components-absolute_iff}
use forkfs.Namespace.History.Names.{
  recover_orphans, orphan_batches, check_orphan, concat, recover_orphans-batches,
}
use forkfs.Namespace.Listing.{DirectoryCursor, DirectoryPage, Caller, read_directory}
use forkfs.Namespace.Listing.Pages.{IsPage, read_directory-IsPage}
use forkfs.Common.{
  ◌≤◌, ◌<◌, ◌≢◌, ◌⊎◌, All, take, leb, ltb, ◌==◌, ◌&&◌, ◌||◌, if◌then◌else◌, ℕ, ◌+◌, ◌≡◌, ◌↔◌, refl,
  Bool, true, false, none, List, [], ◌∷◌, ◌++◌, length, replicate, arith, String,
}
use forkfs.Common.Bytes.{Bytes, codes, bytes_eq, bytes_lt, starts_with}
use forkfs.Common.Map.{Map, lookup, insert, erase}
use forkfs.Common.Result.{Result, ok, err, ◌>>=◌}
use forkfs.Namespace.{
  InodeInfo, decode_inode, encode, get, keys, root, new_id_from, hex_id, valid_id, decode_id,
  id_bytes,
}
use forkfs.Namespace.Changes.{
  World, publish, commit_changes, applied, orphan_changes, view_changes, allocates,
}
use forkfs.Namespace.Walk.{walk_from}
use forkfs.Namespace.Names.{components}
use forkfs.Namespace.Files.{initialize, mkdir, write, read_view, list_view}

abbrev empty : World
empty = record {
  name = codes "main";
  revision = false;
  view = record { records = []; allocated = λ id. false };
  orphans = [];
  runs = 0;
  open_counts = λ id. 0;
}

-- The identity of 16 bytes k.
abbrev draw : ℕ → ℕ → Bytes
draw k attempt = replicate 16 k

abbrev clock : ℕ → ℕ
clock k = 1000 + k

-- A file is made in a directory, read back and listed.
session : Result (Bytes × List Bytes)
unfolding initialize mkdir write read_view list_view publish commit_changes applied orphan_changes
    view_changes allocates lookup insert erase bytes_eq bytes_lt starts_with hex_id valid_id
    decode_id id_bytes get keys root
session = do
  (_, w1) ← initialize clock (draw 1) empty
  (_, w2) ← mkdir clock (draw 2) w1 (codes "/a") 0o755
  (_, w3) ← write clock (draw 3) w2 (codes "/a/f") (codes "hello")
  b ← read_view w3.view (codes "/a/f")
  names ← list_view w3.view (codes "/a")
  ok (b, names)

session_result : session ≡ ok (codes "hello", codes "f" ∷ [])
unfolding session new_id_from walk_from load_le
session_result = refl

file : InodeInfo
file = record {
  id = replicate 32 b'0';
  directory = false;
  mode = 0o644;
  links = 2;
  size = 5;
  modified_ns = 1000;
  changed_ns = 2000;
  symlink = false;
}

decode_inode-encode_example : decode_inode (encode file) (replicate 32 b'0') false ≡ ok file
unfolding file
decode_inode-encode_example = decode_inode-encode file false (record {
  mode_fits = omega arith;
  links_fit = omega arith;
  size_fits = omega arith;
  modified_fits = omega arith;
  changed_fits = omega arith;
  one_type = refl;
  state = refl;
})

components-absolute_iff_example :
    (components (codes "/ab/c") ≡ ok (codes "ab" ∷ codes "c" ∷ [])) ↔ (
      (codes "/ab/c" ≡ absolute (codes "ab" ∷ codes "c" ∷ []))
      × All IsComponent (codes "ab" ∷ codes "c" ∷ [])
      × (length (codes "/ab/c") ≤ 4096))
components-absolute_iff_example =
    components-absolute_iff (codes "/ab/c") (codes "ab" ∷ codes "c" ∷ [])

abbrev orphan : Bytes
orphan = history ++ (codes "orphan/main/" ++ (replicate 32 b'0' ++ codes "/inode"))

recover_orphans-batches_example :
    All (λ batch. (0 < length batch) × (length batch ≤ 4096)) (recover_orphans (orphan ∷ [])).0
    × (((recover_orphans (orphan ∷ [])).1 ≢ ok tt)
        ⊎ (concat (recover_orphans (orphan ∷ [])).0 ≡ orphan ∷ []))
recover_orphans-batches_example = recover_orphans-batches (orphan ∷ [])

orphans_recovered : recover_orphans (orphan ∷ []) ≡ ((orphan ∷ []) ∷ [], ok tt)
unfolding recover_orphans orphan_batches check_orphan
orphans_recovered = refl

-- A directory of three names, read two at a time.
abbrev shelf : Map ObjectId
shelf = (codes "d/a", zero_id) ∷ (codes "d/b", zero_id) ∷ (codes "d/c", zero_id) ∷ []

abbrev shelf_page : ObjectId → Bytes → Bytes → ℕ → Result (List Bytes)
shelf_page id p after count =
    if ltb 0 count && (leb count 1025 && (length after == 0 || starts_with after p))
    then ok (take count (picked p after shelf))
    else err "invalid metadata page request"

abbrev caller : Caller
caller = record { lifetime = 1; view = codes "main"; revision = false }

abbrev at : Bytes → Bool → DirectoryCursor
at after done = record {
  lifetime = 1;
  view = codes "main";
  prefix = codes "d/";
  after = after;
  revision = false;
  done = done;
  manifest = zero_id;
}

abbrev first_page : DirectoryPage
first_page = record { names = codes "a" ∷ codes "b" ∷ []; eof = false; entries = [] }

first_page_read :
    read_directory shelf_page (λ id. empty.view) caller (at [] false) 2 false
    ≡ ok (first_page, at (codes "d/b") false)
unfolding read_directory picked starts_with bytes_eq bytes_lt
first_page_read = refl

read_directory-IsPage_example : IsPage shelf (at [] false) (at (codes "d/b") false) 2 first_page
unfolding bytes_lt
read_directory-IsPage_example =
    read_directory-IsPage shelf_page (λ id. empty.view) shelf caller (at [] false)
      (at (codes "d/b") false) 2 false first_page (refl, (refl, tt)) (λ h. cc) (λ after count. refl)
      first_page_read

abbrev or_empty : {A : Type 0} → Result (A × World) → World
or_empty (err message) = empty
or_empty (ok (a, w)) = w

-- The World after `initialize`.
started : World
unfolding initialize
started = or_empty (initialize clock (draw 1) empty)

abbrev no_files : OpenFiles
no_files = record {
  table = record { handles = []; cursors = λ c. blank };
  open_counts = λ view id. 0;
}

abbrev making : OpenOptions
making = record {
  create = true;
  exclusive = true;
  truncate = false;
  mode = 0o600;
  append = false;
  nofollow = true;
}

-- An exclusive open that makes /f, where the journal refuses the commit.
refused : Result Bytes × World × OpenFiles
unfolding open_handle
refused =
    open_handle clock (draw 2) (replicate 32 b'e' ∷ []) true (λ w c. err "commit LevelDB batch")
      started no_files 7 (codes "/f") read_write making

refused_message : refused.0 ≡ err "commit LevelDB batch"
unfolding refused started new_id_from walk_from load_le lookup insert bytes_lt applied starts_with
refused_message = refl

open_handle-IsBalanced_example :
    ((token : Bytes) × (refused.0 ≡ ok token)
      × (lookup token no_files.table.handles ≡ none)
      × IsBalanced refused.2)
    ⊎ ((message : String) × (refused.0 ≡ err message)
        × (refused.1 ≡ started)
        × Unchanged no_files refused.2)
unfolding refused number_open
open_handle-IsBalanced_example =
    open_handle-IsBalanced clock (draw 2) (replicate 32 b'e' ∷ []) true
      (λ w c. err "commit LevelDB batch") started refused.1 no_files refused.2 7 (codes "/f")
      read_write making refused.0 (record { ordered = tt; counted = λ view id. refl }) refl
