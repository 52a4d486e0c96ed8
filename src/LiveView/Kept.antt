-- ===== src/LiveView/Kept.antt =====
-- The calls that change the backing file system keep the invariant of the view too (core/src/view.cpp).
use forkfs.Common.{ℕ, inl, inr, ◌&&◌, none, ◌==◌, Bool-cases, &&-split}
use forkfs.Common.Bytes.{Bytes}
use forkfs.Common.Result.{Result-cases}
use forkfs.LiveView.Types.{
  NodeType, unknown, file, fifo, chr, blk, sock, NodeRec, Nodes, update, Attr, SetattrReq, RawEntry,
  Dirent, Fs, View, M, after, ask, put_nodes, change, get, pure, ◌>>=◌, ◌>>◌,
}
use forkfs.LiveView.Types
use forkfs.LiveView.Paths.{root, path_locked, valid_name, child_path, extended}
use forkfs.LiveView.Ops.{
  drop_name, lookup, getattr, create, symlink, link, unlink, rename, setattr, make, overwritten,
  forget, is_dir, may_write,
}
use forkfs.LiveView.Xattrs.{setxattr, removexattr}
use forkfs.LiveView.Keeps.{
  Inv, changed, renamed, lookup-Inv, getattr-Inv, then-Inv, drop_name-NamesValid, move-NamesValid,
  drop_over-NamesValid, update-NamesValid,
}

module _ {Disk : Type 0} {base : Bytes} (fs : Fs Disk) where
  pub forget-Inv : (ino : ℕ) (v : View Disk) → Inv base v → Inv base (forget ino v).1
  unfolding forget
  forget-Inv ino v inv = elim (Bool-cases (ino == root)) [
    | inl top ↦ rw (top, forget) inv
    | inr low ↦
        rw (low, forget)
          (renamed v _ (update-NamesValid ino none v.nodes (λ rec h l. cc) inv.named) inv)
  ]

  make-Inv :
      (type : NodeType) (p : Bytes) (mode dir : ℕ) (name : Bytes) (v : View Disk)
      → Inv base v
      → Inv base (after (make fs type p mode v) (λ _. lookup fs dir name)).1
  unfolding make
  make-Inv file p mode dir name v inv =
      then-Inv fs (fs.fs_mkfile p mode) (lookup fs dir name) (lookup-Inv fs dir name) v inv
  make-Inv Types.dir p mode dir name v inv =
      then-Inv fs (fs.fs_mkdir p mode) (lookup fs dir name) (lookup-Inv fs dir name) v inv
  make-Inv fifo p mode dir name v inv =
      then-Inv fs (fs.fs_mkfifo p mode) (lookup fs dir name) (lookup-Inv fs dir name) v inv
  make-Inv unknown p mode dir name v inv = inv
  make-Inv Types.symlink p mode dir name v inv = inv
  make-Inv chr p mode dir name v inv = inv
  make-Inv blk p mode dir name v inv = inv
  make-Inv sock p mode dir name v inv = inv

  pub create-Inv :
      (dir : ℕ) (name : Bytes) (type : NodeType) (mode : ℕ) (v : View Disk)
      → Inv base v
      → Inv base (create fs dir name type mode v).1
  unfolding create
  create-Inv dir name type mode v inv = elim (Result-cases (may_write v)) [
    | inr (z, fixed) ↦ rw (fixed, create) inv
    | inl (u, writes) ↦ elim (Result-cases (child_path v dir name)) [
      | inr (z, e) ↦ rw (writes, e, create) inv
      | inl (p, e) ↦ rw (writes, e, create) (make-Inv type p mode dir name v inv)
    ]
  ]

  pub symlink-Inv :
      (dir : ℕ) (name target : Bytes) (v : View Disk)
      → Inv base v
      → Inv base (symlink fs dir name target v).1
  unfolding symlink
  symlink-Inv dir name target v inv = elim (Result-cases (may_write v)) [
    | inr (z, fixed) ↦ rw (fixed, symlink) inv
    | inl (u, writes) ↦ elim (Result-cases (child_path v dir name)) [
      | inr (z, e) ↦ rw (writes, e, symlink) inv
      | inl (p, e) ↦
          rw (writes, e, symlink)
            (then-Inv fs (fs.fs_symlink target p) (lookup fs dir name) (lookup-Inv fs dir name) v
              inv)
    ]
  ]

  pub link-Inv :
      (ino dir : ℕ) (name : Bytes) (v : View Disk)
      → Inv base v
      → Inv base (link fs ino dir name v).1
  unfolding link
  link-Inv ino dir name v inv = elim (Result-cases (may_write v)) [
    | inr (z, fixed) ↦ rw (fixed, link) inv
    | inl (u, writes) ↦ elim (Result-cases (path_locked v ino)) [
      | inr (z, e) ↦ rw (writes, e, link) inv
      | inl (src, e) ↦ elim (Result-cases (child_path v dir name)) [
        | inr (z, f) ↦ rw (writes, e, f, link) inv
        | inl (dst, f) ↦ rw (writes, e, f, link) (changed v (fs.fs_link src dst v.disk).1 inv)
      ]
    ]
  ]

  pub unlink-Inv :
      (dir : ℕ) (name : Bytes) (ino : ℕ) (v : View Disk)
      → Inv base v
      → Inv base (unlink fs dir name ino v).1
  unfolding unlink
  unlink-Inv dir name ino v inv = elim (Result-cases (may_write v)) [
    | inr (z, fixed) ↦ rw (fixed, unlink) inv
    | inl (u, writes) ↦ elim (Result-cases (child_path v dir name)) [
      | inr (z, e) ↦ rw (writes, e, unlink) inv
      | inl (p, e) ↦
          rw (writes, e, unlink)
            (then-Inv fs (fs.fs_unlink p (is_dir (v.nodes ino)))
              (put_nodes (drop_name ino dir name))
              (λ w i. renamed w _ (drop_name-NamesValid ino dir name w.nodes i.named) i) v inv)
    ]
  ]

  pub rename-Inv :
      (sdir : ℕ) (sname : Bytes) (ddir : ℕ) (dname : Bytes) (ino : ℕ) (v : View Disk)
      → Inv base v
      → Inv base (rename fs sdir sname ddir dname ino v).1
  unfolding rename
  rename-Inv sdir sname ddir dname ino v inv = elim (Result-cases (may_write v)) [
    | inr (z, fixed) ↦ rw (fixed, rename) inv
    | inl (u, writes) ↦ elim (Bool-cases (valid_name sname && valid_name dname)) [
      | inr bad ↦ rw (writes, bad, rename) inv
      | inl good ↦ elim (Result-cases (extended (path_locked v sdir) sname)) [
        | inr (z, e) ↦ rw (writes, good, e, rename) inv
        | inl (from, e) ↦ elim (Result-cases (extended (path_locked v ddir) dname)) [
          | inr (z, f) ↦ rw (writes, good, e, f, rename) inv
          | inl (to, f) ↦
              rw (writes, good, e, f, rename)
                (then-Inv fs (fs.fs_rename from to) _
                  (λ w i.
                    renamed w _
                      (move-NamesValid ino ddir dname _ (&&-split _ _ good).1 (
                        drop_over-NamesValid fs (overwritten fs to ino v.disk) ddir dname w.nodes
                          i.named))
                      i)
                  v inv)
        ]
      ]
    ]
  ]

  pub setattr-Inv :
      (ino : ℕ) (req : SetattrReq) (v : View Disk) → Inv base v → Inv base (setattr fs ino req v).1
  unfolding setattr
  setattr-Inv ino req v inv = elim (Result-cases (may_write v)) [
    | inr (z, fixed) ↦ rw (fixed, setattr) inv
    | inl (u, writes) ↦ elim (Result-cases (path_locked v ino)) [
      | inr (z, e) ↦ rw (writes, e, setattr) inv
      | inl (p, e) ↦
          rw (writes, e, setattr)
            (then-Inv fs (fs.fs_setattr p req) (getattr fs ino) (getattr-Inv fs ino) v inv)
    ]
  ]

  pub setxattr-Inv :
      (ino : ℕ) (name value : Bytes) (flags : ℕ) (v : View Disk)
      → Inv base v
      → Inv base (setxattr fs ino name value flags v).1
  unfolding setxattr
  setxattr-Inv ino name value flags v inv = elim (Result-cases (may_write v)) [
    | inr (z, fixed) ↦ rw (fixed, setxattr) inv
    | inl (u, writes) ↦ elim (Result-cases (path_locked v ino)) [
      | inr (z, e) ↦ rw (writes, e, setxattr) inv
      | inl (p, e) ↦
          rw (writes, e, setxattr) (changed v (fs.fs_setxattr p name value flags v.disk).1 inv)
    ]
  ]

  pub removexattr-Inv :
      (ino : ℕ) (name : Bytes) (v : View Disk) → Inv base v → Inv base (removexattr fs ino name v).1
  unfolding removexattr
  removexattr-Inv ino name v inv = elim (Result-cases (may_write v)) [
    | inr (z, fixed) ↦ rw (fixed, removexattr) inv
    | inl (u, writes) ↦ elim (Result-cases (path_locked v ino)) [
      | inr (z, e) ↦ rw (writes, e, removexattr) inv
      | inl (p, e) ↦ rw (writes, e, removexattr) (changed v (fs.fs_removexattr p name v.disk).1 inv)
    ]
  ]
