-- ===== src/LiveView/Ops.antt =====
-- The operations on a view (core/src/view.cpp), extended attributes and directories apart. The checks for null
-- pointers have no counterpart.
use forkfs.Common.{
  ℕ, ◌+◌, Bool, true, false, not, ◌&&◌, String, Option, none, some, [], ◌==◌, ltb, if◌then◌else◌,
  length,
}
use forkfs.Common.Bytes.{Bytes, bytes_eq}
use forkfs.Common.Result.{Result, ok, err, need}
use forkfs.Json.Records.{WorldRec}
use forkfs.LiveView.Types.{
  NodeType, file, dir, fifo, NodeRec, Nodes, update, Attr, SetattrReq, StatfsInfo, Fs, View, M, ask,
  put_nodes, change, get, pure, ◌>>=◌, ◌>>◌,
}
use forkfs.LiveView.Paths.{root, path_locked, valid_name, child_path, intern, fill_parent, extended}

abbrev pub root_only : Nodes
root_only = update root (some (record { parent = root; type = dir; name = [] })) (λ i. none)

abbrev pub opened_on : {Disk : Type 0} → ℕ → Disk → WorldRec → View Disk
opened_on w disk rec = record {
  world = w;
  base_dir = rec.path;
  writable = true;
  nodes = root_only;
  disk = disk;
}

-- WFS_ST_ACTIVE is 1.
unfoldable pub view_open : {Disk : Type 0} → (ℕ → Result WorldRec) → ℕ → Disk → Result (View Disk)
view_open {Disk} world_info w disk =
    let opened = λ (rec : WorldRec).
      if not (rec.state == 1)
      then err "ESTALE"
      else if not rec.present
      then err "ESTALE"
      else ok (opened_on w disk rec) in
    let result : Result (View Disk) = elim (world_info w) [ err e ↦ err e | ok rec ↦ opened rec ] in
    if w == 0 then err "EINVAL" else result

module _ {Disk : Type 0} where
  abbrev pub path_of : ℕ → M Disk Bytes
  path_of ino = ask (λ v. path_locked v ino)

  abbrev pub path_under : ℕ → Bytes → M Disk Bytes
  path_under dir' name = ask (λ v. child_path v dir' name)

  abbrev pub guard : Bool → String → M Disk (Unit {0})
  guard b e = ask (λ v. need b e)

  unfoldable pub may_write : View Disk → Result (Unit {0})
  may_write v = need v.writable "EROFS"

  abbrev pub writes : M Disk (Unit {0})
  writes = ask may_write

  unfoldable pub forget : ℕ → M Disk (Unit {0})
  forget ino = put_nodes (λ nodes. if ino == root then nodes else update ino none nodes)

  unfoldable pub backing_path : ℕ → Bool → ℕ → M Disk Bytes
  backing_path ino writable cap = do
    v ← get
    guard (not (writable && not v.writable)) "EROFS"
    p ← path_of ino
    guard (not (ltb cap (length p + 1))) "ENAMETOOLONG"
    pure p

-- Of what inode a name is the one remembered.
abbrev pub names : NodeRec → ℕ → Bytes → Bool
names rec dir' name = (rec.parent == dir') && bytes_eq rec.name name

-- The record is dropped where it remembers this very name.
unfoldable pub drop_name : ℕ → ℕ → Bytes → Nodes → Nodes
drop_name ino dir' name nodes = elim (nodes ino) [
  | none ↦ nodes
  | some rec ↦ if names rec dir' name then update ino none nodes else nodes
]

unfoldable pub move : ℕ → ℕ → Bytes → Nodes → Nodes
move ino dir' name nodes = elim (nodes ino) [
  | none ↦ nodes
  | some rec ↦ update ino (some (record rec { parent = dir'; name = name })) nodes
]

abbrev pub is_dir : Option NodeRec → Bool
is_dir none = false
is_dir (some rec) = elim rec.type [ dir ↦ true | _ ↦ false ]

module _ {Disk : Type 0} (fs : Fs Disk) where
  unfoldable pub getattr : ℕ → M Disk Attr
  unfolding fill_parent
  getattr ino = do
    p ← path_of ino
    a ← ask (λ v. fs.fs_lstat p v.disk)
    v ← get
    pure (fill_parent v.nodes (if ino == root then record a { ino = root } else a))

  unfoldable pub lookup : ℕ → Bytes → M Disk Attr
  lookup dir' name = do
    p ← path_under dir' name
    a ← ask (λ v. fs.fs_lstat p v.disk)
    intern dir' name a
    pure (record a { parent = dir' })

  unfoldable pub readlink : ℕ → ℕ → M Disk Bytes
  readlink ino cap = do p ← path_of ino; ask (λ v. fs.fs_readlink p cap v.disk)

  unfoldable pub make : NodeType → Bytes → ℕ → M Disk (Unit {0})
  make file p mode = change (fs.fs_mkfile p mode)
  make dir p mode = change (fs.fs_mkdir p mode)
  make fifo p mode = change (fs.fs_mkfifo p mode)
  make _ p mode = ask (λ v. err "ENOTSUP")

  unfoldable pub create : ℕ → Bytes → NodeType → ℕ → M Disk Attr
  unfolding may_write make lookup
  create dir' name type mode = do
    writes
    p ← path_under dir' name
    make type p mode
    lookup dir' name

  unfoldable pub symlink : ℕ → Bytes → Bytes → M Disk Attr
  unfolding may_write lookup
  symlink dir' name target = do
    writes
    p ← path_under dir' name
    change (fs.fs_symlink target p)
    lookup dir' name

  unfoldable pub link : ℕ → ℕ → Bytes → M Disk (Unit {0})
  unfolding may_write
  link ino dir' name = do
    writes
    src ← path_of ino
    dst ← path_under dir' name
    change (fs.fs_link src dst)

  unfoldable pub unlink : ℕ → Bytes → ℕ → M Disk (Unit {0})
  unfolding may_write drop_name
  unlink dir' name ino = do
    writes
    p ← path_under dir' name
    v ← get
    change (fs.fs_unlink p (is_dir (v.nodes ino)))
    put_nodes (drop_name ino dir' name)

  -- The inode that the rename replaces, where its record is to be dropped.
  unfoldable pub overwritten : Bytes → ℕ → Disk → Option ℕ
  overwritten to ino disk = elim (fs.fs_lstat to disk) [
    | err e ↦ none
    | ok over ↦ if over.ino == ino then none else some over.ino
  ]

  abbrev pub drop_over : Option ℕ → ℕ → Bytes → Nodes → Nodes
  drop_over none dir' name nodes = nodes
  drop_over (some over) dir' name nodes = drop_name over dir' name nodes

  unfoldable pub rename : ℕ → Bytes → ℕ → Bytes → ℕ → M Disk (Unit {0})
  unfolding may_write overwritten drop_name move
  rename sdir sname ddir dname ino = do
    writes
    guard (valid_name sname && valid_name dname) "EINVAL"
    from ← ask (λ v. extended (path_locked v sdir) sname)
    to ← ask (λ v. extended (path_locked v ddir) dname)
    v ← get
    change (fs.fs_rename from to)
    put_nodes
        (λ nodes. move ino ddir dname (drop_over (overwritten to ino v.disk) ddir dname nodes))

  unfoldable pub setattr : ℕ → SetattrReq → M Disk Attr
  unfolding may_write getattr
  setattr ino req = do writes; p ← path_of ino; change (fs.fs_setattr p req); getattr ino

  unfoldable pub statfs : M Disk StatfsInfo
  statfs = ask (λ v. fs.fs_statfs v.base_dir v.disk)
