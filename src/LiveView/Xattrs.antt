-- ===== src/LiveView/Xattrs.antt =====
-- The extended attributes of a view (core/src/view.cpp): the calls, and the list without the names that the
-- namespace hides.
use forkfs.Common.{
  ℕ, ◌+◌, Bool, true, not, Option, none, some, [], ◌∷◌, ◌++◌, ◌==◌, leb, if◌then◌else◌, length,
}
use forkfs.Common.Bytes.{Bytes}
use forkfs.Common.Result.{Result, ok, err}
use forkfs.LiveView.Types.{Fs, M, ask, change, get, pure, ◌>>=◌, ◌>>◌}
use forkfs.LiveView.Ops.{path_of, may_write, writes, guard}

-- Whether `size` bytes go into the buffer, if there is one.
abbrev pub fits : Option ℕ → ℕ → Bool
fits none size = true
fits (some cap) size = leb size cap

-- The loop over the bytes of the full list: what is kept so far, and the name that is being read.
unfoldable pub keep_names : (Bytes → Bool) → Option ℕ → Bytes → Bytes → Bytes → Result Bytes
keep_names hidden cap out name [] = ok out
keep_names hidden cap out name (c ∷ tmp) =
    let longer = keep_names hidden cap out (name ++ (c ∷ [])) tmp in
    let skipped = keep_names hidden cap out [] tmp in
    let kept = keep_names hidden cap (out ++ (name ++ (0 ∷ []))) [] tmp in
    if not (c == 0)
    then longer
    else if hidden name
    then skipped
    else if fits cap (length out + length name + 1)
    then kept
    else err "ERANGE"

module _ {Disk : Type 0} (fs : Fs Disk) where
  unfoldable pub getxattr : ℕ → Bytes → ℕ → M Disk Bytes
  getxattr ino name cap = do
    p ← path_of ino
    v ← get
    guard (not (fs.fs_xattr_is_own_quarantine p name v.disk)) "ENOATTR"
    ask (λ w. fs.fs_getxattr p name cap w.disk)

  unfoldable pub setxattr : ℕ → Bytes → Bytes → ℕ → M Disk (Unit {0})
  unfolding may_write
  setxattr ino name value flags = do
    writes
    p ← path_of ino
    change (fs.fs_setxattr p name value flags)

  unfoldable pub removexattr : ℕ → Bytes → M Disk (Unit {0})
  unfolding may_write
  removexattr ino name = do writes; p ← path_of ino; change (fs.fs_removexattr p name)

  unfoldable pub listxattr : ℕ → Option ℕ → M Disk Bytes
  unfolding keep_names
  listxattr ino cap = do
    p ← path_of ino
    full ← ask (λ v. fs.fs_list_size p v.disk)
    let rest : M Disk Bytes = do
      tmp ← ask (λ v. fs.fs_listxattr p full v.disk)
      ask (λ v. keep_names (λ name. fs.fs_xattr_is_own_quarantine p name v.disk) cap [] [] tmp)
    if full == 0 then pure [] else rest
