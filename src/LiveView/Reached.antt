-- ===== src/LiveView/Reached.antt =====
-- The paths of a view after any calls (core/src/view.cpp).
use forkfs.Common.{
  ℕ, ◌≡◌, refl, ◌⊎◌, inl, inr, Bool, false, Option, List, [], ◌∷◌, ◌==◌, arith, Bool-cases,
}
use forkfs.Common.Bytes.{Bytes}
use forkfs.Common.Result.{Result, ok, Result-cases}
use forkfs.Json.Records.{WorldRec}
use forkfs.LiveView.Types.{Dirent, Fs, View}
use forkfs.LiveView.Paths.{root, path_locked, child_path}
use forkfs.LiveView.Ops.{view_open, opened_on, root_only, readlink}
use forkfs.LiveView.Xattrs.{getxattr, listxattr}
use forkfs.LiveView.Calls.{
  Call, to_getattr, to_lookup, to_forget, to_readlink, to_readdir, to_create, to_symlink, to_link,
  to_unlink, to_rename, to_setattr, to_getxattr, to_setxattr, to_removexattr, to_listxattr,
  run_call, run_calls,
}
use forkfs.LiveView.Confined.{NamesValid, IsBelow, path_locked-IsBelow, child_path-IsBelow}
use forkfs.LiveView.Keeps.{Inv, lookup-Inv, getattr-Inv}
use forkfs.LiveView.Kept.{
  forget-Inv, create-Inv, symlink-Inv, link-Inv, unlink-Inv, rename-Inv, setattr-Inv, setxattr-Inv,
  removexattr-Inv,
}
use forkfs.LiveView.Listed.{Lists, readdir-Inv}

module _ {Disk C : Type 0} (base : Bytes) (fs : Fs Disk) (cb : Dirent → C → Bool × C) where
  -- The calls that only ask.
  readlink-Inv : (ino cap : ℕ) (v : View Disk) → Inv base v → Inv base (readlink fs ino cap v).1
  unfolding readlink
  readlink-Inv ino cap v inv = elim (Result-cases (path_locked v ino)) [
    | inr (z, e) ↦ rw (e, readlink) inv
    | inl (p, e) ↦ rw (e, readlink) inv
  ]

  getxattr-Inv :
      (ino : ℕ) (name : Bytes) (cap : ℕ) (v : View Disk)
      → Inv base v
      → Inv base (getxattr fs ino name cap v).1
  unfolding getxattr
  getxattr-Inv ino name cap v inv = elim (Result-cases (path_locked v ino)) [
    | inr (z, e) ↦ rw (e, getxattr) inv
    | inl (p, e) ↦
        rw (e, getxattr)
          (elim (Bool-cases (fs.fs_xattr_is_own_quarantine p name v.disk)) [
            | inl own ↦ rw own inv
            | inr other ↦ rw other inv
          ])
  ]

  listxattr-Inv :
      (ino : ℕ) (cap : Option ℕ) (v : View Disk) → Inv base v → Inv base (listxattr fs ino cap v).1
  unfolding listxattr
  listxattr-Inv ino cap v inv = elim (Result-cases (path_locked v ino)) [
    | inr (z, e) ↦ rw (e, listxattr) inv
    | inl (p, e) ↦
        rw (e, listxattr)
          (elim (Result-cases (fs.fs_list_size p v.disk)) [
            | inr (z, f) ↦ rw f inv
            | inl (full, f) ↦ rw f (elim (Bool-cases (full == 0)) [
              | inl empty ↦ rw empty inv
              | inr some' ↦ rw some' (elim (Result-cases (fs.fs_listxattr p full v.disk)) [
                | inr (z, g) ↦ rw g inv
                | inl (tmp, g) ↦ rw g inv
              ])
            ])
          ])
  ]

  run_call-Inv :
      (c : Call C) (v : View Disk) → Lists fs → Inv base v → Inv base (run_call fs cb c v)
  unfolding run_call
  run_call-Inv (to_getattr ino) v lists inv = getattr-Inv fs ino v inv
  run_call-Inv (to_lookup dir name) v lists inv = lookup-Inv fs dir name v inv
  run_call-Inv (to_forget ino) v lists inv = forget-Inv fs ino v inv
  run_call-Inv (to_readlink ino cap) v lists inv = readlink-Inv ino cap v inv
  run_call-Inv (to_readdir dir cookie want_attr c) v lists inv =
      readdir-Inv base fs cb dir cookie want_attr c v lists inv
  run_call-Inv (to_create dir name type mode) v lists inv = create-Inv fs dir name type mode v inv
  run_call-Inv (to_symlink dir name target) v lists inv = symlink-Inv fs dir name target v inv
  run_call-Inv (to_link ino dir name) v lists inv = link-Inv fs ino dir name v inv
  run_call-Inv (to_unlink dir name ino) v lists inv = unlink-Inv fs dir name ino v inv
  run_call-Inv (to_rename sdir sname ddir dname ino) v lists inv =
      rename-Inv fs sdir sname ddir dname ino v inv
  run_call-Inv (to_setattr ino req) v lists inv = setattr-Inv fs ino req v inv
  run_call-Inv (to_getxattr ino name cap) v lists inv = getxattr-Inv ino name cap v inv
  run_call-Inv (to_setxattr ino name value flags) v lists inv =
      setxattr-Inv fs ino name value flags v inv
  run_call-Inv (to_removexattr ino name) v lists inv = removexattr-Inv fs ino name v inv
  run_call-Inv (to_listxattr ino cap) v lists inv = listxattr-Inv ino cap v inv

  run_calls-Inv :
      (cs : List (Call C)) (v : View Disk) → Lists fs → Inv base v → Inv base (run_calls fs cb cs v)
  unfolding run_calls
  run_calls-Inv [] v lists inv = inv
  run_calls-Inv (c ∷ cs) v lists inv =
      run_calls-Inv cs (run_call fs cb c v) lists (run_call-Inv c v lists inv)

root_only-NamesValid : NamesValid root_only
root_only-NamesValid i rec h low =
    let other : (root == i) ≡ false = ground arith in let h' = rw other at h in cc

view_open-opened_on :
    {Disk : Type 0} (world_info : ℕ → Result WorldRec) (w : ℕ) (disk : Disk) (v : View Disk)
    → view_open world_info w disk ≡ ok v
    → (rec : WorldRec) × (v ≡ opened_on w disk rec)
unfolding view_open
view_open-opened_on world_info w disk v opened = elim (Bool-cases (w == 0)) [
  | inl none' ↦ let h = rw none' at opened in cc
  | inr some' ↦ elim (Result-cases (world_info w)) [
    | inr (z, e) ↦ let h = rw (some', e) at opened in cc
    | inl (rec, e) ↦ elim (Bool-cases (rec.state == 1)) [
      | inr other ↦ let h = rw (some', e, other) at opened in cc
      | inl active ↦ elim (Bool-cases rec.present) [
        | inr gone ↦ let h = rw (some', e, active, gone) at opened in cc
        | inl here ↦ let h = rw (some', e, active, here) at opened in (rec, cc)
      ]
    ]
  ]
]

view_open-Inv :
    {Disk : Type 0} (world_info : ℕ → Result WorldRec) (w : ℕ) (disk : Disk) (v : View Disk)
    → view_open world_info w disk ≡ ok v
    → Inv v.base_dir v
view_open-Inv world_info w disk v opened =
    let (rec, e) = view_open-opened_on world_info w disk v opened in
    rw e (record { based = refl; named = root_only-NamesValid })

module _ {Disk C : Type 0} (fs : Fs Disk) (cb : Dirent → C → Bool × C) where
  -- After any calls on an opened view, failed ones included, every path that it builds for an inode, or for a
  -- name in a directory, is written as the base directory followed by names none of which is empty, "." or "..",
  -- or has a slash or a NUL. What the platform makes of a symbolic link among these names is not said. The names
  -- that ::readdir gives are taken to be such.
  pub run_calls-IsBelow :
      (world_info : ℕ → Result WorldRec) (w : ℕ) (disk : Disk) (v : View Disk) (cs : List (Call C))
      (ino : ℕ) (name p : Bytes)
      → Lists fs
      → view_open world_info w disk ≡ ok v
      → (path_locked (run_calls fs cb cs v) ino ≡ ok p)
        ⊎ (child_path (run_calls fs cb cs v) ino name ≡ ok p)
      → IsBelow v.base_dir p
  run_calls-IsBelow world_info w disk v cs ino name p lists opened asked =
      let inv =
        run_calls-Inv v.base_dir fs cb cs v lists (view_open-Inv world_info w disk v opened) in
      rw (← inv.based) (elim asked [
        | inl h ↦ path_locked-IsBelow (run_calls fs cb cs v) inv.named ino h
        | inr h ↦ child_path-IsBelow (run_calls fs cb cs v) inv.named ino name h
      ])
