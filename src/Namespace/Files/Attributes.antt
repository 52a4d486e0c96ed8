-- ===== src/Namespace/Files/Attributes.antt =====
-- `valid_attributes`, `apply_attributes` and `set_attributes` (daemon/namespace.cpp).
use forkfs.Common.{
  ℕ, ◌-◌, ◌^◌, Bool, true, false, not, ◌&&◌, Option, none, some, [], ◌++◌, length, leb, ◌==◌,
  if◌then◌else◌, take, replicate,
}
use forkfs.Common.Bytes.{Bytes}
use forkfs.Common.Result.{Result, ok, need, ◌>>=◌, ◌>>◌}
use forkfs.Namespace.{InodeInfo, View, inode_key, content_key, get, inode, encode}
use forkfs.Namespace.Walk.{resolve}
use forkfs.Namespace.Changes.{Changes, put, World, update}

-- Namespace::Attributes
pub record Attributes : Type 0 where
  pub mode : Option ℕ
  pub modified_ns : Option ℕ
  pub size : Option ℕ

abbrev pub at_most : ℕ → Option ℕ → Bool
at_most limit none = true
at_most limit (some n) = leb n limit

abbrev pub or : Option ℕ → ℕ → ℕ
or none old = old
or (some n) old = n

abbrev pub is_some : Option ℕ → Bool
is_some none = false
is_some (some n) = true

unfoldable pub valid_attributes : Attributes → Result (Unit {0})
valid_attributes a = do
  need (at_most 0o777 a.mode) "unsupported mode bits"
  need (at_most 262144 a.size) "prototype files are limited to 256 KiB"
  need (at_most (2 ^ 63 - 1) a.modified_ns) "mtime exceeds supported nanosecond range"

unfoldable pub apply_attributes : InodeInfo → Attributes → ℕ → InodeInfo
apply_attributes n a time = record n {
  mode = or a.mode n.mode;
  modified_ns = or a.modified_ns n.modified_ns;
  changed_ns = time;
}

-- data.resize(size,0)
unfoldable pub resize : ℕ → Bytes → Bytes
resize size bytes = take size (bytes ++ replicate (size - length bytes) 0)

-- Nothing asked for, or only the size that the file has.
unfoldable pub asks_nothing : Attributes → InodeInfo → Bool
asks_nothing a n =
    not (is_some a.mode) && (not (is_some a.modified_ns) && (or a.size n.size == n.size))

module _ (now : ℕ → ℕ) where
  -- The inode and the content after a change of size.
  unfoldable pub sized : View → InodeInfo → Option ℕ → Result (InodeInfo × Changes)
  unfolding get resize
  sized view n none = ok (n, [])
  sized view n (some size) = do
    need (not n.directory && not n.symlink) "only regular files support size changes"
    content ← get view (content_key n.id)
    need (length content == n.size) "inode size mismatch"
    if n.size == size
        then ok (n, [])
        else ok (
          record n { size = size; modified_ns = now 0; changed_ns = now 0 },
          put (content_key n.id) (resize size content) [],
        )

  unfoldable pub set_attributes : World → Bytes → Attributes → Result (Unit {0} × World)
  unfolding valid_attributes update resolve inode asks_nothing sized apply_attributes encode
  set_attributes w path a =
      valid_attributes a
      >> update w λ view. do
        id ← resolve view path true
        n ← inode view id
        if asks_nothing a n
            then ok (tt, [])
            else (sized view n a.size >>= λ (n', c).
                ok (tt, put (inode_key id) (encode (apply_attributes n' a (now 1))) c))
