-- ===== src/Handles.antt =====
-- The runtime state of open files (daemon/container.h: LockRange, Cursor, OpenHandle, handles_) and
-- `Namespace::find_handle` of daemon/namespace.cpp. A `std::shared_ptr<Cursor>` is a number, and the
-- cursors stand in a store of their own, so that `dup` shares one.
pub mod Counts
pub mod Balance
pub mod Closing
pub mod Seek
mod Tests
use forkfs.Common.{
  ℕ, ◌≡◌, Bool, ◌&&◌, List, bool_eq, bool_eq-eq, bool_eq_refl, &&-split, true, sym, ◌∙◌,
  if◌then◌else◌, ◌==◌,
}
use forkfs.Common.Bytes.{Bytes, bytes_eq, bytes_eq-eq, eq-bytes_eq}
use forkfs.Common.Map.{Map, lookup}
use forkfs.Common.Result.{Result, ok, need, need_some, ◌>>=◌, ◌>>◌}

-- mode 1 is shared and 2 exclusive; the range holds start <= x < end.
pub record LockRange : Type 0 where
  pub start : ℕ
  pub end : ℕ
  pub mode : ℕ

pub record Cursor : Type 0 where
  pub position : ℕ
  pub locks : List LockRange

pub record OpenHandle : Type 0 where
  pub view : Bytes
  pub inode : Bytes
  pub revision : Bool
  pub readable : Bool
  pub writable : Bool
  pub append : Bool
  pub cursor : ℕ

-- The World or revision that a Namespace object is opened on.
pub record Selected : Type 0 where
  pub view : Bytes
  pub revision : Bool

pub record Table : Type 0 where
  pub handles : Map OpenHandle
  pub cursors : ℕ → Cursor

unfoldable pub find_handle : Table → Selected → Bytes → Result OpenHandle
find_handle t ns token = do
  info ← need_some (lookup token t.handles) "invalid or expired file handle"
  need (bytes_eq info.view ns.view && bool_eq info.revision ns.revision)
      "file handle belongs to another view"
  ok info

-- Two handles refer to one file: the same World or revision and the same inode.
unfoldable pub same_file : OpenHandle → OpenHandle → Bool
same_file a b =
    bytes_eq a.view b.view && (bool_eq a.revision b.revision && bytes_eq a.inode b.inode)

abbrev pub set_cursor : Table → ℕ → Cursor → Table
set_cursor t c cursor = record t { cursors = λ i. if i == c then cursor else t.cursors i }

pub same_file-eq :
    (a b : OpenHandle)
    → same_file a b ≡ true
    → (a.view ≡ b.view) × (a.revision ≡ b.revision) × (a.inode ≡ b.inode)
unfolding same_file
same_file-eq a b h =
    let (v, rest) = &&-split _ _ h in
    let (r, i) = &&-split _ _ rest in (bytes_eq-eq _ _ v, bool_eq-eq _ _ r, bytes_eq-eq _ _ i)

pub eq-same_file :
    (a b : OpenHandle)
    → a.view ≡ b.view
    → a.revision ≡ b.revision
    → a.inode ≡ b.inode
    → same_file a b ≡ true
unfolding same_file
eq-same_file a b v r i =
    rw (eq-bytes_eq a.view b.view v, r, bool_eq_refl, eq-bytes_eq a.inode b.inode i)

pub same_file_sym : (a b : OpenHandle) → same_file a b ≡ true → same_file b a ≡ true
same_file_sym a b h = let (v, r, i) = same_file-eq a b h in eq-same_file b a (sym v) (sym r) (sym i)

pub same_file_trans :
    (a b c : OpenHandle) → same_file a b ≡ true → same_file b c ≡ true → same_file a c ≡ true
same_file_trans a b c h k =
    let (v, r, i) = same_file-eq a b h in
    let (v', r', i') = same_file-eq b c k in eq-same_file a c (v ∙ v') (r ∙ r') (i ∙ i')
