-- ===== src/LiveView/Types.antt =====
-- The inode table, the view and its platform layer (core/src/internal.h, core/include/worldfs). A Disk is the
-- state of the backing file system, which only the platform layer looks into. A negative errno is an error.
use forkfs.Common.{ℕ, Bool, Option, List, ◌==◌, if◌then◌else◌}
use forkfs.Common.Bytes.{Bytes}
use forkfs.Common.Int.{ℤ}
use forkfs.Common.Result.{Result, ok, err}

pub data NodeType : Type 0 where
  unknown file dir symlink fifo chr blk sock : NodeType

pub record Timespec : Type 0 where
  pub sec : ℤ
  pub nsec : ℤ

pub record Attr : Type 0 where
  pub ino : ℕ
  pub parent : ℕ
  pub type : NodeType
  pub mode : ℕ
  pub uid : ℕ
  pub gid : ℕ
  pub nlink : ℕ
  pub flags : ℕ
  pub size : ℕ
  pub alloc_size : ℕ
  pub atime : Timespec
  pub mtime : Timespec
  pub ctime : Timespec
  pub btime : Timespec
  pub shared : Bool

pub record StatfsInfo : Type 0 where
  pub block_size : ℕ
  pub total_blocks : ℕ
  pub free_blocks : ℕ
  pub avail_blocks : ℕ
  pub total_files : ℕ
  pub free_files : ℕ

pub record SetattrReq : Type 0 where
  pub valid : ℕ
  pub mode : ℕ
  pub uid : ℕ
  pub gid : ℕ
  pub flags : ℕ
  pub size : ℕ
  pub atime : Timespec
  pub mtime : Timespec
  pub btime : Timespec

pub record Dirent : Type 0 where
  pub name : Bytes
  pub ino : ℕ
  pub type : NodeType
  pub next_cookie : ℕ
  pub attr : Option Attr

pub record NodeRec : Type 0 where
  pub parent : ℕ
  pub type : NodeType
  pub name : Bytes

-- What ::readdir gives for one entry.
pub record RawEntry : Type 0 where
  pub name : Bytes
  pub ino : ℕ
  pub type : NodeType

-- The platform layer. A capacity of a buffer is an argument, and the bytes put into it are the result.
pub record Fs (Disk : Type 0) : Type 0 where
  pub fs_lstat : Bytes → Disk → Result Attr
  pub fs_readlink : Bytes → ℕ → Disk → Result Bytes
  pub fs_mkfile : Bytes → ℕ → Disk → Result (Unit {0}) × Disk
  pub fs_mkdir : Bytes → ℕ → Disk → Result (Unit {0}) × Disk
  pub fs_mkfifo : Bytes → ℕ → Disk → Result (Unit {0}) × Disk
  pub fs_symlink : Bytes → Bytes → Disk → Result (Unit {0}) × Disk
  pub fs_link : Bytes → Bytes → Disk → Result (Unit {0}) × Disk
  pub fs_unlink : Bytes → Bool → Disk → Result (Unit {0}) × Disk
  pub fs_rename : Bytes → Bytes → Disk → Result (Unit {0}) × Disk
  pub fs_setattr : Bytes → SetattrReq → Disk → Result (Unit {0}) × Disk
  pub fs_getxattr : Bytes → Bytes → ℕ → Disk → Result Bytes
  pub fs_setxattr : Bytes → Bytes → Bytes → ℕ → Disk → Result (Unit {0}) × Disk
  pub fs_removexattr : Bytes → Bytes → Disk → Result (Unit {0}) × Disk
  pub fs_list_size : Bytes → Disk → Result ℕ
  pub fs_listxattr : Bytes → ℕ → Disk → Result Bytes
  pub fs_statfs : Bytes → Disk → Result StatfsInfo
  pub fs_xattr_is_own_quarantine : Bytes → Bytes → Disk → Bool
  pub fs_readdir_emits_dots : Bool → Bool
  pub opendir : Bytes → Disk → Result (List RawEntry)

-- wfs::InodeTable: a map from inode numbers to records.
abbrev pub Nodes : Type 0
Nodes = ℕ → Option NodeRec

abbrev pub update : ℕ → Option NodeRec → Nodes → Nodes
update i r nodes j = if i == j then r else nodes j

pub record View (Disk : Type 0) : Type 0 where
  pub world : ℕ
  pub base_dir : Bytes
  pub writable : Bool
  pub nodes : Nodes
  pub disk : Disk

-- An operation on a view, which may fail after a change.
abbrev pub M : Type 0 → Type 0 → Type 0
M Disk A = View Disk → Result A × View Disk

module _ {Disk : Type 0} where
  abbrev pub after : {A B : Type 0} → Result A × View Disk → (A → M Disk B) → Result B × View Disk
  after (ok a, v) f = f a v
  after (err e, v) f = (err e, v)

  infixl 5 ◌>>=◌ ◌>>◌
  abbrev pub ◌>>=◌ : {A B : Type 0} → M Disk A → (A → M Disk B) → M Disk B
  ◌>>=◌ m f v = after (m v) f

  abbrev pub ◌>>◌ : {B : Type 0} → M Disk (Unit {0}) → M Disk B → M Disk B
  m >> k = m >>= λ _. k

  abbrev pub pure : {A : Type 0} → A → M Disk A
  pure a v = (ok a, v)

  abbrev pub get : M Disk (View Disk)
  get v = (ok v, v)

  -- A question to the view or to its disk.
  abbrev pub ask : {A : Type 0} → (View Disk → Result A) → M Disk A
  ask f v = (f v, v)

  abbrev pub put_nodes : (Nodes → Nodes) → M Disk (Unit {0})
  put_nodes f v = (ok tt, record v { nodes = f v.nodes })

  -- A change of the backing file system.
  abbrev pub change : (Disk → Result (Unit {0}) × Disk) → M Disk (Unit {0})
  change f v = ((f v.disk).0, record v { disk = (f v.disk).1 })
