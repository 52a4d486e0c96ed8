-- ===== src/LiveView/Tests.antt =====
-- A view of a World at /w in which inode 7 is the directory d and inode 9 the file d/f, on a disk that accepts
-- every change; the inode number of any other path is its length.
use forkfs.Common.{
  ℕ, zero, suc, ◌+◌, ◌≡◌, refl, subst, inl, inr, Bool, true, false, Option, none, some, List, [],
  ◌∷◌, ◌==◌, length, if◌then◌else◌, All,
}
use forkfs.Common.Bytes.{Bytes, codes, bytes_eq}
use forkfs.Common.Int.{pos}
use forkfs.Common.Result.{Result, ok, err}
use forkfs.Json.Records.{WorldRec}
use forkfs.LiveView.Types.{file, dir, Timespec, Attr, SetattrReq, Dirent, NodeRec, Fs, View}
use forkfs.LiveView.Paths.{interned, valid_name, has_byte, path_locked, child_path, extended}
use forkfs.LiveView.Ops.{view_open, opened_on, rename, lookup}
use forkfs.LiveView.Xattrs.{listxattr}
use forkfs.LiveView.Readdir.{readdir}
use forkfs.LiveView.Calls.{Call, to_lookup, to_readdir, to_rename, run_calls}
use forkfs.LiveView.Confined.{IsBelow}
use forkfs.LiveView.Listed.{IsEntry, Lists}
use forkfs.LiveView.Reached.{run_calls-IsBelow}
use forkfs.LiveView.Climb.{Avoids, climb-root}
use forkfs.LiveView.Renames.{rename-path_locked}
use forkfs.LiveView.Lookups.{lookup-path_locked}
use forkfs.LiveView.Listing.{HasNoNul, terminate, visible, Answers, listxattr-visible}

abbrev Disk : Type 0
Disk = Unit {0}

abbrev epoch : Timespec
epoch = record { sec = pos 0; nsec = pos 0 }

abbrev attr_at : Bytes → Attr
attr_at path = record {
  ino = length path;
  parent = 0;
  type = file;
  mode = 420;
  uid = 0;
  gid = 0;
  nlink = 1;
  flags = 0;
  size = 0;
  alloc_size = 0;
  atime = epoch;
  mtime = epoch;
  ctime = epoch;
  btime = epoch;
  shared = false;
}

abbrev quarantine : Bytes
quarantine = codes "com.apple.quarantine"

abbrev two_names : List Bytes
two_names = quarantine ∷ codes "user.tag" ∷ []

abbrev accepting : Fs Disk
accepting = record {
  fs_lstat = λ path d. ok (attr_at path);
  fs_readlink = λ path cap d. ok [];
  fs_mkfile = λ path mode d. (ok tt, d);
  fs_mkdir = λ path mode d. (ok tt, d);
  fs_mkfifo = λ path mode d. (ok tt, d);
  fs_symlink = λ target path d. (ok tt, d);
  fs_link = λ src dst d. (ok tt, d);
  fs_unlink = λ path is_dir d. (ok tt, d);
  fs_rename = λ from to d. (ok tt, d);
  fs_setattr = λ path req d. (ok tt, d);
  fs_getxattr = λ path name cap d. err "ENOATTR";
  fs_setxattr = λ path name value flags d. (ok tt, d);
  fs_removexattr = λ path name d. (ok tt, d);
  fs_list_size = λ path d. ok (length (terminate two_names));
  fs_listxattr = λ path cap d. ok (terminate two_names);
  fs_statfs = λ path d. err "EIO";
  fs_xattr_is_own_quarantine = λ path name d. bytes_eq name quarantine;
  fs_readdir_emits_dots = λ with_attrs. true;
  opendir = λ path d. ok (
      record { name = codes "."; ino = 3; type = dir }
      ∷ record { name = codes "g"; ino = 8; type = file }
      ∷ []);
}

abbrev records : ℕ → Option NodeRec
records i =
    if i == 1
    then some (record { parent = 1; type = dir; name = [] })
    else if i == 7
    then some (record { parent = 1; type = dir; name = codes "d" })
    else if i == 9
    then some (record { parent = 7; type = file; name = codes "f" })
    else none

abbrev mounted : Bool → View Disk
mounted writable = record {
  world = 2;
  base_dir = codes "/w";
  writable = writable;
  nodes = records;
  disk = tt;
}

moved : (rename accepting 7 (codes "f") 1 (codes "top") 9 (mounted true)).0 ≡ ok tt
unfolding rename path_locked child_path bytes_eq
moved = refl

path_9 : path_locked (mounted true) 9 ≡ ok (codes "/w/d/f")
unfolding path_locked
path_9 = refl

no_nul : All HasNoNul two_names
unfolding has_byte
no_nul = (refl, (refl, tt))

abbrev no_change : SetattrReq
no_change = record {
  valid = 0;
  mode = 0;
  uid = 0;
  gid = 0;
  flags = 0;
  size = 0;
  atime = epoch;
  mtime = epoch;
  btime = epoch;
}

root-Avoids_9 : (n : ℕ) → Avoids n records 9 1
root-Avoids_9 zero = refl
root-Avoids_9 (suc n) = (refl, root-Avoids_9 n)

rename-path_locked_example :
    path_locked (rename accepting 7 (codes "f") 1 (codes "top") 9 (mounted true)).1 9
    ≡ extended (path_locked (mounted true) 1) (codes "top")
rename-path_locked_example =
    rename-path_locked accepting 7 (codes "f") 1 (codes "top") 9 (mounted true)
      (record { parent = 7; type = file; name = codes "f" }) [] refl refl
      (climb-root 1023 records 1 [] refl) (root-Avoids_9 1023) moved

moved_to : extended (path_locked (mounted true) 1) (codes "top") ≡ ok (codes "/w/top")
unfolding path_locked
moved_to = refl

looked_up :
    (lookup accepting 1 (codes "new") (mounted true)).0
    ≡ ok (record (attr_at (codes "/w/new")) { parent = 1 })
unfolding lookup path_locked child_path bytes_eq
looked_up = refl

lookup-path_locked_at_input :
    path_locked (lookup accepting 1 (codes "new") (mounted true)).1 6
    ≡ extended (path_locked (mounted true) 1) (codes "new")
lookup-path_locked_at_input =
    lookup-path_locked accepting 1 (codes "new") (mounted true)
      (record (attr_at (codes "/w/new")) { parent = 1 }) [] looked_up refl refl
      (climb-root 1023 records 1 [] refl)

listxattr-visible_example :
    (r : Result Bytes) × (listxattr accepting 9 (some 20) (mounted true) ≡ (r, mounted true))
    × Answers (some 20) (terminate (visible (λ name. bytes_eq name quarantine) two_names)) r
listxattr-visible_example =
    listxattr-visible accepting 9 (some 20) (mounted true) (codes "/w/d/f") two_names path_9 refl
      refl no_nul

abbrev world : WorldRec
world = record {
  id = 2;
  origin = 1;
  parent_world = 0;
  snapshot_id = 4;
  name = codes "w";
  path = codes "/w";
  dir_dev = 0;
  dir_ino = 0;
  state = 1;
  fsevents_id = 0;
  entries = 0;
  created_at = pos 0;
  trashed_at = pos 0;
  present = true;
}

abbrev opened : View Disk
opened = opened_on 2 tt world

accepting-Lists : Lists accepting
unfolding valid_name bytes_eq
accepting-Lists path d es listed =
    let same : (record { name = codes "."; ino = 3; type = dir }
          ∷ record { name = codes "g"; ino = 8; type = file }
          ∷ [])
        ≡ es =
      cc in
    subst (All IsEntry) same (inl refl, (inr refl, tt))

keep_all : Dirent → ℕ → Bool × ℕ
keep_all e n = (false, n + 1)

abbrev some_calls : List (Call ℕ)
some_calls =
    to_lookup 1 (codes "new")
    ∷ to_readdir 6 0 true 0
    ∷ to_rename 1 (codes "new") 1 (codes "d") 6
    ∷ []

opens : view_open (λ w. ok world) 2 tt ≡ ok opened
unfolding view_open
opens = refl

asked :
    child_path (run_calls accepting keep_all some_calls opened) 6 (codes "x") ≡ ok (codes "/w/d/x")
unfolding run_calls lookup readdir rename keep_all path_locked child_path bytes_eq interned
asked = refl

run_calls-IsBelow_example : IsBelow (codes "/w") (codes "/w/d/x")
run_calls-IsBelow_example =
    run_calls-IsBelow accepting keep_all (λ w. ok world) 2 tt opened some_calls 6 (codes "x")
      (codes "/w/d/x") accepting-Lists opens (inr asked)
