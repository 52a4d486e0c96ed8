-- ===== src/Namespace/Names.antt =====
-- Names and paths: `valid_view_name`, `components` and `target_components` (daemon/namespace.cpp).
pub mod Split
pub mod Paths
use forkfs.Common.{
  ℕ, ◌≤◌, ◌≡◌, ◌≢◌, ◌↔◌, refl, sym, ◌∙◌, ap, Bool, true, false, not, ◌&&◌, ◌||◌, ◌⊎◌, inl, inr,
  List, [], ◌∷◌, ◌++◌, length, leb, ◌==◌, if◌then◌else◌, arith, All, Bool-cases, &&-split, leb→le,
  le→leb,
}
use forkfs.Common.Bytes.{Bytes, codes, bytes_eq, bytes_eq-eq, bytes_eq_refl}
use forkfs.Common.Result.{Result, ok, err, need, ◌>>=◌, ◌>>◌, >>=-eq-ok}
use forkfs.Namespace.{all_of}
use forkfs.Namespace.Names.Split.{split, is_empty, joined, IsSegment}

abbrev pub name_byte : ℕ → Bool
name_byte c =
    (leb b'a' c && leb c b'z')
    || ((leb b'A' c && leb c b'Z')
        || ((leb b'0' c && leb c b'9') || ((c == b'_') || ((c == b'-') || (c == b'.')))))

-- The test of `valid_view_name`.
unfoldable pub view_name : Bytes → Bool
unfolding is_empty bytes_eq
view_name name =
    not (is_empty name)
    && (leb (length name) 64
        && (all_of name_byte name && not (bytes_eq name (codes ".") || bytes_eq name (codes ".."))))

unfoldable pub valid_view_name : Bytes → Result (Unit {0})
unfolding view_name
valid_view_name name = need (view_name name) "invalid World/revision name"

abbrev pub printable : ℕ → Bool
printable c = leb 32 c && leb c 126

-- One turn of the loop of `components`.
unfoldable pub name_test : Bytes → Bool
unfolding is_empty bytes_eq
name_test name =
    not (is_empty name)
    && (not (bytes_eq name (codes "."))
        && (not (bytes_eq name (codes "..")) && leb (length name) 255))

-- A rest that is one empty piece: the path ended with the slash before it.
unfoldable pub is_trailing : List Bytes → Bool
unfolding is_empty
is_trailing [] = false
is_trailing (piece ∷ []) = is_empty piece
is_trailing (piece ∷ more ∷ rest) = false

-- The loop over the pieces between slashes.
unfoldable pub checked : List Bytes → Result (List Bytes)
unfolding name_test is_trailing
checked [] = ok []
checked (name ∷ rest) = do
  need (name_test name) "invalid path component"
  need (all_of printable name) "prototype names must be printable ASCII"
  need (not (is_trailing rest)) "trailing slash is unsupported"
  names ← checked rest
  ok (name ∷ names)

abbrev pub starts_slash : Bytes → Bool
starts_slash [] = false
starts_slash (c ∷ cs) = c == b'/'

abbrev pub tail : Bytes → Bytes
tail [] = []
tail (c ∷ cs) = cs

unfoldable pub components : Bytes → Result (List Bytes)
unfolding split checked is_empty
components path = do
  need (starts_slash path && leb (length path) 4096) "path must be absolute and at most 4096 bytes"
  if is_empty (tail path) then ok [] else checked (split (tail path))

-- The nonempty pieces of a symlink's target.
unfoldable pub target_names : List Bytes → Result (List Bytes)
unfolding is_empty
target_names [] = ok []
target_names (name ∷ rest) =
    let more = target_names rest in
    if is_empty name
    then more
    else (need (leb (length name) 255) "invalid symlink component"
        >> (more >>= λ names. ok (name ∷ names)))

unfoldable pub ends_slash : Bytes → Bool
ends_slash [] = false
ends_slash (c ∷ []) = c == b'/'
ends_slash (c ∷ d ∷ cs) = ends_slash (d ∷ cs)

abbrev pub is_nil : List Bytes → Bool
is_nil [] = true
is_nil (x ∷ xs) = false

-- A trailing slash asks for a directory: a last "." makes `walk` check it.
unfoldable pub target_components : Bytes → Result (List Bytes)
unfolding split target_names is_empty ends_slash
target_components target = do
  need (not (is_empty target) && leb (length target) 4096) "invalid symlink target length"
  need (all_of printable target) "prototype symlink targets must be printable ASCII"
  names ← target_names (split target)
  ok (if ends_slash target && not (is_nil names) then names ++ (codes "." ∷ []) else names)

-- A name that `components` may give: not empty, "." or "..", at most 255 printable bytes, and no slash.
abbrev pub IsComponent : Bytes → Type 0
IsComponent name =
    (name ≢ [])
    × (name ≢ codes ".")
    × (name ≢ codes "..")
    × (length name ≤ 255)
    × All (λ c. (32 ≤ c) × (c ≤ 126) × (c ≢ b'/')) name
