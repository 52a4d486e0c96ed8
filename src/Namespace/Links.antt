-- ===== src/Namespace/Links.antt =====
-- Links and names that go: `link`, `remove` and `rename` (daemon/namespace.cpp).
pub mod Moved
mod Tests
use forkfs.Common.{
  ℕ, ◌+◌, Bool, false, not, ◌&&◌, ◌||◌, Option, none, some, List, [], ◌∷◌, ltb, if◌then◌else◌,
  bool_eq,
}
use forkfs.Common.Bytes.{Bytes, bytes_eq}
use forkfs.Common.Map.{Map, lookup, insert, contains}
use forkfs.Common.Result.{Result, ok, need, need_some, ◌>>=◌, ◌>>◌}
use forkfs.Namespace.{InodeInfo, View, inode_key, directory_prefix, id_bytes, keys, inode, encode}
use forkfs.Namespace.Names.{is_nil}
use forkfs.Namespace.Walk.{Parent, parent, parent_at, resolve}
use forkfs.Namespace.Changes.{Changes, put, drop_key, World, update}
use forkfs.Namespace.Files.{uint64_max, dec, touch, entry_id, add_entry, retire, unlinked}

module _ (now : ℕ → ℕ) where
  unfoldable pub link_changes : View → Bytes → Bytes → Result Changes
  unfolding resolve inode parent encode add_entry
  link_changes view source target = do
    id ← resolve view source false
    n ← inode view id
    need (not n.directory) "directory hard links are forbidden"
    p ← parent view target
    need (not (contains p.key view.records)) "target already exists"
    need (ltb n.links uint64_max) "link count exhausted"
    pn ← inode view p.id
    add_entry p (touch pn (now 1)) id
        (put (inode_key id) (encode (record n { links = n.links + 1; changed_ns = now 0 })) [])

  unfoldable pub link : World → Bytes → Bytes → Result (Unit {0} × World)
  unfolding update link_changes
  link w source target = update w λ view. link_changes view source target >>= λ c. ok (tt, c)

  -- The record of a removed directory goes, that of a file by its links.
  unfoldable pub removed : World → View → InodeInfo → Changes → Result Changes
  unfolding retire unlinked
  removed w view n c =
      if n.directory then retire w view (now 0) n c else unlinked w view (now 0) n c

  unfoldable pub remove_changes : World → View → Bytes → Bool → Result Changes
  unfolding parent entry_id inode keys removed encode
  remove_changes w view path directory = do
    p ← parent view path
    need (contains p.key view.records) "path not found"
    id ← entry_id view p.key
    n ← inode view id
    pn ← inode view p.id
    need (bool_eq n.directory directory) "wrong removal operation for inode type"
    need (not directory || is_nil (keys view.records (directory_prefix id)))
        "directory is not empty"
    c ← removed w view n (drop_key p.key [])
    let links = if directory then dec pn.links else pn.links
    ok (put (inode_key p.id) (encode (touch (record pn { links = links }) (now 1))) c)

  unfoldable pub remove : World → Bytes → Bool → Result (Unit {0} × World)
  unfolding update remove_changes
  remove w path directory =
      update w λ view. remove_changes w view path directory >>= λ c. ok (tt, c)

  abbrev pub mem : Bytes → List Bytes → Bool
  mem id [] = false
  mem id (i ∷ ids) = bytes_eq i id || mem id ids

  -- std::map<std::string,InodeInfo> parents: one record if both names stand in one directory.
  unfoldable pub parents_of : InodeInfo → InodeInfo → Map InodeInfo
  unfolding insert
  parents_of from to = insert from.id from (insert to.id to [])

  abbrev pub count_links : (ℕ → ℕ) → Bytes → Map InodeInfo → Map InodeInfo
  count_links f id parents = elim (lookup id parents) [
    | none ↦ parents
    | some pn ↦ insert id (record pn { links = f pn.links }) parents
  ]

  -- for(auto& [parent_id,pn]:parents){touch(pn);c[inode_key(parent_id)]=encode(pn);}, from reading `k` on.
  unfoldable pub touch_parents : ℕ → Map InodeInfo → Changes → Changes
  unfolding encode
  touch_parents k [] c = c
  touch_parents k ((id, pn) ∷ rest) c =
      touch_parents (k + 1) rest (put (inode_key id) (encode (touch pn (now k))) c)

  -- What stands under the new name makes way. `none`: both names are of one inode, and nothing is done.
  unfoldable pub make_way :
      World → View → InodeInfo → Parent → Map InodeInfo → Result (Option (Changes × Map InodeInfo))
  unfolding entry_id inode keys retire unlinked
  make_way w view n dst parents = do
    if contains dst.key view.records
        then (entry_id view dst.key >>= λ replaced.
            if bytes_eq replaced n.id
            then ok none
            else (inode view replaced >>= λ other.
                need (bool_eq other.directory n.directory) "rename inode types differ"
                >> (need
                      (not other.directory
                        || is_nil (keys view.records (directory_prefix replaced)))
                      "target directory is not empty"
                    >> ((if other.directory
                          then retire w view (now 0) other []
                          else unlinked w view (now 0) other [])
                        >>= λ c. ok (
                            some (
                              c,
                              if other.directory then count_links dec dst.id parents else parents,
                            ))))))
        else ok (some ([], parents))

  -- A directory that moves takes its ".." with it.
  unfoldable pub moved_links : InodeInfo → Parent → Parent → Map InodeInfo → Result (Map InodeInfo)
  unfolding lookup
  moved_links n src dst parents = do
    if n.directory && not (bytes_eq src.id dst.id)
        then (need_some (lookup dst.id parents) "map::at" >>= λ pn.
            need (ltb pn.links uint64_max) "directory link count exhausted"
            >> ok (count_links (λ (links : ℕ). links + 1) dst.id (count_links dec src.id parents)))
        else ok parents

  unfoldable pub move_changes :
      Parent → Parent → InodeInfo → Option (Changes × Map InodeInfo) → Result Changes
  unfolding moved_links id_bytes encode touch_parents
  move_changes src dst n none = ok []
  move_changes src dst n (some (c, parents)) = do
    moved ← moved_links n src dst parents
    b ← id_bytes n.id
    ok (
        touch_parents 2 moved (
          put (inode_key n.id) (encode (record n { changed_ns = now 1 }))
            (put dst.key b (drop_key src.key c))))

  unfoldable pub rename_changes : World → View → Bytes → Bytes → Result Changes
  unfolding parent parent_at entry_id inode parents_of make_way move_changes
  rename_changes w view source target = do
    src ← parent view source
    need (contains src.key view.records) "source not found"
    id ← entry_id view src.key
    n ← inode view id
    (dst, ancestry) ← parent_at view target
    if bytes_eq src.key dst.key
        then ok []
        else (need (not (n.directory && mem id ancestry)) "cannot move directory into itself"
            >> (inode view src.id >>= λ from. inode view dst.id >>= λ to.
                make_way w view n dst (parents_of from to) >>= move_changes src dst n))

  unfoldable pub rename : World → Bytes → Bytes → Result (Unit {0} × World)
  unfolding update rename_changes
  rename w source target = update w λ view. rename_changes w view source target >>= λ c. ok (tt, c)
