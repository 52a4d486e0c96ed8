-- ===== src/Namespace/Listing.antt =====
-- Directory cursors: `open_directory`, `read_directory` and `rewind_directory` (daemon/namespace.cpp). A
-- manifest names a view for good: its pages and its records are parameters. The pins that keep it from
-- collection are not modelled.
mod Picked
mod Cut
pub mod Pages
use forkfs.Common.{
  ℕ, zero, suc, ◌+◌, Bool, true, false, not, ◌&&◌, ◌||◌, Option, none, some, List, [], ◌∷◌, ◌++◌,
  length, leb, ◌==◌, if◌then◌else◌, take, drop, bool_eq,
}
use forkfs.Common.Bytes.{Bytes, bytes_eq}
use forkfs.Common.Result.{Result, ok, err, need, ◌>>=◌, ◌>>◌}
use forkfs.View.Run.{ObjectId, zero_id}
use forkfs.Namespace.{InodeInfo, View, directory_prefix, decode_id, get, keys, inode}
use forkfs.Namespace.Names.{is_nil}
use forkfs.Namespace.Walk.{resolve}
use forkfs.Namespace.Files.{names_after, entry_id}

-- `lifetime` names the container that a cursor was opened in.
pub record DirectoryCursor : Type 0 where
  pub lifetime : ℕ
  pub view : Bytes
  pub prefix : Bytes
  pub after : Bytes
  pub revision : Bool
  pub done : Bool
  pub manifest : ObjectId

pub record DirectoryPage : Type 0 where
  pub names : List Bytes
  pub eof : Bool
  pub entries : List (Bytes × InodeInfo)

-- The Namespace object that a call is made on.
pub record Caller : Type 0 where
  pub lifetime : ℕ
  pub view : Bytes
  pub revision : Bool

-- `head` is the manifest of the World or revision, and none for a flat namespace.
unfoldable pub open_directory :
    Caller → Bool → View → Option ObjectId → Bytes → Result DirectoryCursor
unfolding resolve inode keys
open_directory ns is_leveldb view head path = do
  need is_leveldb "directory cursors require LevelDB"
  id ← resolve view path true
  n ← inode view id
  need n.directory "path is not a directory"
  let cursor : DirectoryCursor = record {
    lifetime = ns.lifetime;
    view = ns.view;
    prefix = directory_prefix id;
    after = [];
    revision = ns.revision;
    done = false;
    manifest = zero_id;
  }
  elim head [
    | some manifest ↦ ok (record cursor { manifest = manifest })
    | none ↦
        need (is_nil (keys view.records (directory_prefix id)))
          "flat namespace directory is not empty"
        >> ok (record cursor { done = true })
  ]

unfoldable pub belongs : Caller → DirectoryCursor → Bool
belongs ns c =
    (c.lifetime == ns.lifetime) && (bytes_eq c.view ns.view && bool_eq c.revision ns.revision)

-- keys.back(), or what was there if the page has no key.
abbrev pub last_or : Bytes → List Bytes → Bytes
last_or old [] = old
last_or old (key ∷ keys) = last_or key keys

abbrev pub zero_manifest : ObjectId → Bool
zero_manifest id = bytes_eq id zero_id

unfoldable pub rewind_directory : Caller → DirectoryCursor → Result DirectoryCursor
unfolding belongs
rewind_directory ns c = do
  need (belongs ns c) "directory cursor belongs to another repository/view"
  ok (record c { after = []; done = zero_manifest c.manifest })

module _ (page_of : ObjectId → Bytes → Bytes → ℕ → Result (List Bytes))
    (snapshot_of : ObjectId → View) where
  unfoldable pub entries_of : View → ℕ → List Bytes → Result (List (Bytes × InodeInfo))
  unfolding entry_id inode
  entries_of view n [] = ok []
  entries_of view n (key ∷ rest) = do
    id ← entry_id view key
    info ← inode view id
    more ← entries_of view n rest
    ok ((drop n key, info) ∷ more)

  unfoldable pub next_page :
      DirectoryCursor → ℕ → Bool → List Bytes → Result (DirectoryPage × DirectoryCursor)
  unfolding entries_of
  next_page c limit attributes keys =
      let eof = leb (length keys) limit in
      let shown = if eof then keys else take limit keys in
      (if attributes then entries_of (snapshot_of c.manifest) (length c.prefix) shown else ok [])
      >>= λ entries. ok (
        record { names = names_after (length c.prefix) shown; eof = eof; entries = entries },
        record c { after = last_or c.after shown; done = eof },
      )

  unfoldable pub read_directory :
      Caller → DirectoryCursor → ℕ → Bool → Result (DirectoryPage × DirectoryCursor)
  unfolding belongs next_page
  read_directory ns c limit attributes = do
    need (leb 1 limit && leb limit 1024) "directory page limit must be 1..1024"
    need (belongs ns c) "directory cursor belongs to another repository/view"
    if c.done
        then ok (record { names = []; eof = true; entries = [] }, c)
        else (page_of c.manifest c.prefix c.after (limit + 1) >>= next_page c limit attributes)
