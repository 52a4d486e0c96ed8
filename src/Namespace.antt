-- ===== src/Namespace.antt =====
-- Inode records and the keys of a World's view (daemon/namespace.cpp, and InodeInfo of
-- daemon/namespace.h). A view is the records that `NamespaceView` gives for its keys, with the
-- identities that the repository has ever allocated.
pub mod Records
pub mod Names
pub mod Walk
pub mod Changes
pub mod Files
pub mod Content
pub mod Links
pub mod History
pub mod Opening
pub mod Listing
mod Tests
use forkfs.Common.{
  ℕ, zero, suc, ◌+◌, ◌-◌, ◌/◌, ◌%◌, Bool, true, false, not, ◌&&◌, ◌||◌, Option, none, some, List,
  [], ◌∷◌, ◌++◌, length, take, drop, leb, ltb, ◌==◌, if◌then◌else◌,
}
use forkfs.Common.Bytes.{Bytes, codes, bytes_eq, starts_with}
use forkfs.Common.Map.{Map, lookup, contains}
use forkfs.Common.Result.{Result, ok, err, need, need_some, ◌>>=◌, ◌>>◌}
use forkfs.Codec.{store_le, load_le}
use forkfs.Keys.{prefix, root_key}

pub record InodeInfo : Type 0 where
  pub id : Bytes
  pub directory : Bool
  pub mode : ℕ
  pub links : ℕ
  pub size : ℕ
  pub modified_ns : ℕ
  pub changed_ns : ℕ
  pub symlink : Bool

pub record View : Type 0 where
  pub records : Map Bytes
  pub allocated : Bytes → Bool

-- hex[c>>4], hex[c&15]
abbrev pub hex_digit : ℕ → ℕ
hex_digit d = if ltb d 10 then b'0' + d else b'a' + (d - 10)

unfoldable pub hex_id : Bytes → Bytes
hex_id [] = []
hex_id (c ∷ cs) = hex_digit (c / 16) ∷ hex_digit (c % 16) ∷ hex_id cs

abbrev pub inode_key : Bytes → Bytes
inode_key id = prefix ++ (codes "inode/" ++ id)

abbrev pub allocated_key : Bytes → Bytes
allocated_key id = prefix ++ (codes "allocated/" ++ id)

abbrev pub content_key : Bytes → Bytes
content_key id = prefix ++ (codes "content/" ++ id)

abbrev pub directory_prefix : Bytes → Bytes
directory_prefix id = prefix ++ (codes "entry/" ++ (id ++ codes "/"))

abbrev pub entry_key : Bytes → Bytes → Bytes
entry_key id name = prefix ++ (codes "entry/" ++ (id ++ (codes "/" ++ name)))

abbrev pub all_of : (ℕ → Bool) → Bytes → Bool
all_of test [] = true
all_of test (c ∷ cs) = test c && all_of test cs

abbrev pub is_hex : ℕ → Bool
is_hex c = (leb b'0' c && leb c b'9') || (leb b'a' c && leb c b'f')

unfoldable pub valid_id : Bytes → Bool
valid_id id = (length id == 32) && all_of is_hex id

unfoldable pub id_bytes : Bytes → Result Bytes
unfolding valid_id
id_bytes id = do need (valid_id id) "invalid inode identity"; ok id

unfoldable pub decode_id : Bytes → Result Bytes
unfolding valid_id
decode_id b = do need (valid_id b) "invalid inode reference"; ok b

-- NamespaceView::get
unfoldable pub get : View → Bytes → Result Bytes
get view key = need_some (lookup key view.records) "namespace key not found"

-- NamespaceView::keys
unfoldable pub keys : Map Bytes → Bytes → List Bytes
keys [] key_prefix = []
keys ((key, value) ∷ rest) key_prefix =
    let more = keys rest key_prefix in if starts_with key key_prefix then key ∷ more else more

unfoldable pub root : View → Result Bytes
unfolding get decode_id
root view = do
  need (contains root_key view.records) "filesystem not initialized; use fs-init"
  b ← get view root_key
  decode_id b

abbrev pub uint32 : ℕ → Bytes → ℕ
uint32 at b = load_le (take 4 (drop at b))

abbrev pub uint64 : ℕ → Bytes → ℕ
uint64 at b = load_le (take 8 (drop at b))

-- The state that a record may be in: an orphan is a regular file of no links.
abbrev pub valid_state : InodeInfo → Bool → Bool
valid_state n orphan =
    (if orphan then not n.directory && (not n.symlink && (n.links == 0)) else ltb 0 n.links)
    && (not n.directory || (leb 2 n.links && (n.size == 0)))

-- The fields of a record.
unfoldable pub info_of : Bytes → Bytes → InodeInfo
info_of b id = record {
  id = id;
  directory = uint32 8 b == 2;
  mode = uint32 12 b;
  links = uint64 16 b;
  size = uint64 24 b;
  modified_ns = uint64 32 b;
  changed_ns = uint64 40 b;
  symlink = uint32 8 b == 3;
}

abbrev pub known_type : ℕ → Bool
known_type type = (type == 1) || ((type == 2) || (type == 3))

unfoldable pub decode_inode : Bytes → Bytes → Bool → Result InodeInfo
unfolding info_of
decode_inode b id orphan = do
  need ((length b == 48) && bytes_eq (take 8 b) (codes "FFINOD01")) "invalid inode record"
  need (known_type (uint32 8 b) && leb (uint32 12 b) 0o777) "unsupported inode attributes"
  need (valid_state (info_of b id) orphan) "invalid inode state"
  ok (info_of b id)

unfoldable pub inode : View → Bytes → Result InodeInfo
unfolding get decode_inode
inode view id = do b ← get view (inode_key id); decode_inode b id false

abbrev pub type_of : InodeInfo → ℕ
type_of n = if n.symlink then 3 else if n.directory then 2 else 1

unfoldable pub encode : InodeInfo → Bytes
unfolding store_le
encode n =
    codes "FFINOD01"
    ++ (store_le 4 (type_of n)
        ++ (store_le 4 n.mode
            ++ (store_le 8 n.links
                ++ (store_le 8 n.size ++ (store_le 8 n.modified_ns ++ store_le 8 n.changed_ns)))))

-- Each attempt reads 16 bytes of /dev/urandom, here `entropy attempt`; `left` attempts of 8 are left.
unfoldable pub new_id_from : View → (ℕ → Bytes) → ℕ → Result Bytes
unfolding hex_id
new_id_from view entropy zero = err "inode identity collision"
new_id_from view entropy (suc left) =
    let id = hex_id (entropy left) in
    let again = new_id_from view entropy left in
    if not (view.allocated id)
      && (not (contains (allocated_key id) view.records)
          && not (contains (inode_key id) view.records))
    then ok id
    else again

-- 8 attempts.
unfoldable pub new_id : View → (ℕ → Bytes) → Result Bytes
new_id view entropy = new_id_from view entropy 8
