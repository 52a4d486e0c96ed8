-- ===== src/Namespace/Opening.antt =====
-- `open` (daemon/namespace.cpp): what it makes or empties, and the handle that it reserves before the commit
-- and takes back if the commit throws. `now` and `entropy` are as in `write`, and `draws` the identities that
-- the token is chosen from.
pub mod Balance
use forkfs.Common.{
  ℕ, ◌+◌, ◌-◌, ◌⊎◌, inl, inr, Bool, true, false, not, ◌&&◌, ◌||◌, Option, none, some, List, [], ◌∷◌,
  ◌++◌, length, leb, ltb, ◌==◌, if◌then◌else◌,
}
use forkfs.Common.Bytes.{Bytes, bytes_eq}
use forkfs.Common.Map.{Map, insert, erase, contains}
use forkfs.Common.Result.{Result, ok, err, need, ◌>>=◌, ◌>>◌}
use forkfs.Handles.{OpenHandle, Cursor, Table, Selected, set_cursor}
use forkfs.Handles.Counts.{OpenFiles, set_count, drop_token}
use forkfs.Namespace.{InodeInfo, View, inode_key, content_key, get, inode, encode, new_id}
use forkfs.Namespace.Walk.{Parent, parent, resolve, resolve_missing}
use forkfs.Namespace.Changes.{Changes, put, no_changes, World, commit_changes}
use forkfs.Namespace.Files.{fresh, touch, entry_id, add_entry, Destination}

pub data Access : Type 0 where
  read write read_write : Access

-- access!=Access::Write and access!=Access::Read
abbrev pub reads : Access → Bool
reads write = false
reads other = true

abbrev pub writes : Access → Bool
writes read = false
writes other = true

pub record OpenOptions : Type 0 where
  pub create : Bool
  pub exclusive : Bool
  pub truncate : Bool
  pub mode : ℕ
  pub append : Bool
  pub nofollow : Bool

unfoldable pub check_options : Bool → Access → OpenOptions → Result (Unit {0})
check_options revision access o = do
  need (not o.exclusive || o.create) "exclusive open requires create"
  need (not o.truncate || writes access) "truncate open requires writable access"
  need (not o.append || writes access) "append open requires writable access"
  need (leb o.mode 0o777) "invalid creation mode"
  need (not revision || (not (writes access) && (reads access && (not o.create && not o.truncate))))
      "revision view is read-only"

module _ (now : ℕ → ℕ) (entropy : ℕ → Bytes) where
  -- The file that an open with `create` finds, or the place for a new one.
  unfoldable pub open_destination : View → Bytes → OpenOptions → Result Destination
  unfolding parent entry_id inode resolve_missing new_id
  open_destination view path o = do
    p ← parent view path
    let exists = contains p.key view.records
    need (not exists || not o.exclusive) "path already exists"
    if exists
        then (entry_id view p.key >>= λ raw_id. inode view raw_id >>= λ raw.
            need (not o.nofollow || not raw.symlink) "final symbolic link is forbidden"
            >> (resolve_missing view path >>= λ (r : Bytes ⊎ Parent). elim r [
              | inl id ↦ ok (record { id = id; exists = true; place = p })
              | inr q ↦
                  (new_id view entropy >>= λ made.
                  ok (record { id = made; exists = false; place = q }))
            ]))
        else (new_id view entropy >>= λ made. ok (record { id = made; exists = false; place = p }))

  unfoldable pub created : View → OpenOptions → Destination → Result (Bytes × Changes)
  unfolding inode encode add_entry
  created view o d =
      if d.exists
      then ok (d.id, [])
      else (inode view d.place.id >>= λ pn.
          add_entry d.place (touch pn (now 2)) d.id (
            put (content_key d.id) [] (
              put (inode_key d.id) (encode (fresh d.id false o.mode 1 0 (now 0) (now 1) false)) []))
          >>= λ c. ok (d.id, c))

  unfoldable pub opened : View → Bytes → OpenOptions → Result (Bytes × Changes)
  unfolding open_destination created resolve inode
  opened view path o =
      if o.create
      then (open_destination view path o >>= created view o)
      else (resolve view path (not o.nofollow) >>= λ id.
          (if o.nofollow
            then (inode view id >>= λ n. need (not n.symlink) "final symbolic link is forbidden")
            else ok tt)
          >> ok (id, []))

  -- A file that was there must be regular, and loses its content if asked to.
  unfoldable pub emptied : View → OpenOptions → Bytes × Changes → Result (Bytes × Changes)
  unfolding inode encode
  emptied view o (id, c) =
      if no_changes c
      then (inode view id >>= λ n.
          need (not n.directory && not n.symlink) "only regular file handles are implemented"
          >> ok (
            id,
            if o.truncate && not (n.size == 0)
                then put (content_key id) []
                    (put (inode_key id) (encode (touch (record n { size = 0 }) (now 3))) [])
                else [],
          ))
      else ok (id, c)

  unfoldable pub open_changes : View → Bytes → OpenOptions → Result (Bytes × Changes)
  unfolding opened emptied
  open_changes view path o = opened view path o >>= emptied view o

-- while(token==id || container_.handles_.contains(token))token=new_id(view)
unfoldable pub new_token : Bytes → Map OpenHandle → List Bytes → Result Bytes
new_token id handles [] = err "identity entropy unavailable"
new_token id handles (token ∷ draws) =
    let again = new_token id handles draws in
    if bytes_eq token id || contains token handles then again else ok token

abbrev pub blank : Cursor
blank = record { position = 0; locks = [] }

-- The handle and the count that are there before the commit.
unfoldable pub reserve : OpenFiles → Bytes → OpenHandle → OpenFiles
reserve f token h =
    let table = set_cursor f.table h.cursor blank in
    record {
      table = record table { handles = insert token h f.table.handles };
      open_counts =
          if h.revision
          then f.open_counts
          else set_count f.open_counts h.view h.inode (f.open_counts h.view h.inode + 1);
    }

-- catch(...): the count goes back down, and the handle goes.
unfoldable pub roll_back : OpenFiles → Bytes → OpenHandle → OpenFiles
roll_back f token h =
    let uncounted = record f {
      open_counts =
          if h.revision
          then f.open_counts
          else set_count f.open_counts h.view h.inode (f.open_counts h.view h.inode - 1);
    } in
    drop_token uncounted token

-- Everything before the reservation: the token, the handle and the changes.
pub record Opened : Type 0 where
  pub token : Bytes
  pub handle : OpenHandle
  pub changes : Changes

module _ (now : ℕ → ℕ) (entropy : ℕ → Bytes) (draws : List Bytes) where
  -- `cursor` is the Cursor that make_shared allocates, and `is_leveldb` what j.is_leveldb() says.
  unfoldable pub prepare_open :
      Bool → World → OpenFiles → ℕ → Bytes → Access → OpenOptions → Result Opened
  unfolding check_options open_changes new_token
  prepare_open is_leveldb w f cursor path access o = do
    check_options w.revision access o
    need is_leveldb "file handles require the LevelDB backend"
    need (ltb (length f.table.handles) 4096) "file handle limit reached"
    (id, changes) ← open_changes now entropy w.view path o
    token ← new_token id f.table.handles draws
    ok (record {
      token = token;
      handle = record {
        view = w.name;
        inode = id;
        revision = w.revision;
        readable = reads access;
        writable = writes access;
        append = o.append;
        cursor = cursor;
      };
      changes = changes;
    })

  -- `commit` is `commit_changes`, or the error that the journal throws in it.
  unfoldable pub open_handle :
      Bool
      → (World → Changes → Result World)
      → World
      → OpenFiles
      → ℕ
      → Bytes
      → Access
      → OpenOptions
      → Result Bytes × World × OpenFiles
  unfolding prepare_open reserve roll_back
  open_handle is_leveldb commit w f cursor path access o =
      elim (prepare_open is_leveldb w f cursor path access o) [
        | err message ↦ (err message, w, f)
        | ok p ↦
            let reserved = reserve f p.token p.handle in
            elim (commit w p.changes) [
              | err message ↦ (err message, w, roll_back reserved p.token p.handle)
              | ok w' ↦ (ok p.token, w', reserved)
            ]
      ]
