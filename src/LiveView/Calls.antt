-- ===== src/LiveView/Calls.antt =====
-- The calls on a mounted view (core/src/view.cpp), and a run of them one after the other.
use forkfs.Common.{ℕ, Bool, Option, List, [], ◌∷◌}
use forkfs.Common.Bytes.{Bytes}
use forkfs.LiveView.Types.{NodeType, SetattrReq, Dirent, Fs, View}
use forkfs.LiveView.Ops.{
  forget, getattr, lookup, readlink, create, symlink, link, unlink, rename, setattr,
}
use forkfs.LiveView.Xattrs.{getxattr, setxattr, removexattr, listxattr}
use forkfs.LiveView.Readdir.{readdir}

pub data Call (C : Type 0) : Type 0 where
  to_getattr : ℕ → Call C
  to_lookup : ℕ → Bytes → Call C
  to_forget : ℕ → Call C
  to_readlink : ℕ → ℕ → Call C
  to_readdir : ℕ → ℕ → Bool → C → Call C
  to_create : ℕ → Bytes → NodeType → ℕ → Call C
  to_symlink : ℕ → Bytes → Bytes → Call C
  to_link : ℕ → ℕ → Bytes → Call C
  to_unlink : ℕ → Bytes → ℕ → Call C
  to_rename : ℕ → Bytes → ℕ → Bytes → ℕ → Call C
  to_setattr : ℕ → SetattrReq → Call C
  to_getxattr : ℕ → Bytes → ℕ → Call C
  to_setxattr : ℕ → Bytes → Bytes → ℕ → Call C
  to_removexattr : ℕ → Bytes → Call C
  to_listxattr : ℕ → Option ℕ → Call C

-- The view after a call, whether it failed or not.
module _ {Disk C : Type 0} (fs : Fs Disk) (cb : Dirent → C → Bool × C) where
  unfoldable pub run_call : Call C → View Disk → View Disk
  run_call (to_getattr ino) v = (getattr fs ino v).1
  run_call (to_lookup dir name) v = (lookup fs dir name v).1
  run_call (to_forget ino) v = (forget ino v).1
  run_call (to_readlink ino cap) v = (readlink fs ino cap v).1
  run_call (to_readdir dir cookie want_attr c) v = (readdir fs cb dir cookie want_attr c v).1
  run_call (to_create dir name type mode) v = (create fs dir name type mode v).1
  run_call (to_symlink dir name target) v = (symlink fs dir name target v).1
  run_call (to_link ino dir name) v = (link fs ino dir name v).1
  run_call (to_unlink dir name ino) v = (unlink fs dir name ino v).1
  run_call (to_rename sdir sname ddir dname ino) v = (rename fs sdir sname ddir dname ino v).1
  run_call (to_setattr ino req) v = (setattr fs ino req v).1
  run_call (to_getxattr ino name cap) v = (getxattr fs ino name cap v).1
  run_call (to_setxattr ino name value flags) v = (setxattr fs ino name value flags v).1
  run_call (to_removexattr ino name) v = (removexattr fs ino name v).1
  run_call (to_listxattr ino cap) v = (listxattr fs ino cap v).1

  unfoldable pub run_calls : List (Call C) → View Disk → View Disk
  unfolding run_call
  run_calls [] v = v
  run_calls (c ∷ cs) v = run_calls cs (run_call c v)
