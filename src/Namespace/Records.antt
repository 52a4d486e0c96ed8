-- ===== src/Namespace/Records.antt =====
-- The inode record: `encode` and `decode_inode` (daemon/namespace.cpp).
use forkfs.Common.{
  ℕ, ◌^◌, ◌≤◌, ◌<◌, ◌≡◌, refl, Bool, true, false, ◌&&◌, ◌||◌, inl, inr, length, take, ◌==◌, arith,
  Bool-cases, le→leb, leb, sym, ap, ◌∙◌,
}
use forkfs.Common.Bytes.{Bytes, codes, bytes_eq}
use forkfs.Common.Result.{ok, need, >>=-eq-ok, >>-eq-ok}
use forkfs.Codec.{store_le, load_le, load_le-store_le}
use forkfs.Namespace.{
  InodeInfo, View, valid_state, type_of, uint32, uint64, decode_inode, encode, info_of, known_type,
  get, inode, inode_key,
}

-- A record that fits its fields, and is not a directory and a link at once.
pub record IsInode (n : InodeInfo) (orphan : Bool) : Type 0 where
  pub mode_fits : n.mode ≤ 0o777
  pub links_fit : n.links < 256 ^ 8
  pub size_fits : n.size < 256 ^ 8
  pub modified_fits : n.modified_ns < 256 ^ 8
  pub changed_fits : n.changed_ns < 256 ^ 8
  pub one_type : (n.directory && n.symlink) ≡ false
  pub state : valid_state n orphan ≡ true

length-encode : (n : InodeInfo) → length (encode n) ≡ 48
unfolding encode store_le
length-encode n = refl

-- The type field is read back, and tells both flags.
abbrev Tells : InodeInfo → ℕ → Type 0
Tells n t =
    (t ≡ type_of n)
    × (((t == 1) || ((t == 2) || (t == 3))) ≡ true)
    × ((t == 2) ≡ n.directory)
    × ((t == 3) ≡ n.symlink)

type-encode : (n : InodeInfo) → (n.directory && n.symlink) ≡ false → Tells n (uint32 8 (encode n))
unfolding encode store_le load_le
type-encode n one = elim (Bool-cases n.symlink) [
  | inl s ↦ elim (Bool-cases n.directory) [
    | inl d ↦ absurd (ground arith)
    | inr d ↦ rw (s, d) (refl, refl, refl, refl)
  ]
  | inr s ↦ elim (Bool-cases n.directory) [
    | inl d ↦ rw (s, d) (refl, refl, refl, refl)
    | inr d ↦ rw (s, d) (refl, refl, refl, refl)
  ]
]

mode-encode : (n : InodeInfo) → n.mode ≤ 0o777 → uint32 12 (encode n) ≡ n.mode
unfolding encode store_le load_le
mode-encode n h = load_le-store_le 4 n.mode (omega arith)

links-encode : (n : InodeInfo) → n.links < 256 ^ 8 → uint64 16 (encode n) ≡ n.links
unfolding encode store_le load_le
links-encode n h = load_le-store_le 8 n.links h

size-encode : (n : InodeInfo) → n.size < 256 ^ 8 → uint64 24 (encode n) ≡ n.size
unfolding encode store_le load_le
size-encode n h = load_le-store_le 8 n.size h

modified-encode : (n : InodeInfo) → n.modified_ns < 256 ^ 8 → uint64 32 (encode n) ≡ n.modified_ns
unfolding encode store_le load_le
modified-encode n h = load_le-store_le 8 n.modified_ns h

changed-encode : (n : InodeInfo) → n.changed_ns < 256 ^ 8 → uint64 40 (encode n) ≡ n.changed_ns
unfolding encode store_le load_le
changed-encode n h = load_le-store_le 8 n.changed_ns h

magic-encode :
    (n : InodeInfo)
    → ((length (encode n) == 48) && bytes_eq (take 8 (encode n)) (codes "FFINOD01")) ≡ true
unfolding encode store_le bytes_eq
magic-encode n = refl

-- An inode record that fits its fields, in a state that its kind allows, is read back as it was written,
-- with the flags that its type field stands for.
pub decode_inode-encode :
    (n : InodeInfo) (orphan : Bool) → IsInode n orphan → decode_inode (encode n) n.id orphan ≡ ok n
unfolding decode_inode
decode_inode-encode n orphan w =
    let (_, known, dir, link) = type-encode n w.one_type in
    rw (
      magic-encode n,
      known,
      dir,
      link,
      mode-encode n w.mode_fits,
      links-encode n w.links_fit,
      size-encode n w.size_fits,
      modified-encode n w.modified_fits,
      changed-encode n w.changed_fits,
      le→leb n.mode 0o777 w.mode_fits,
      w.state,
    )

info_of_id : (b id : Bytes) → (info_of b id).id ≡ id
unfolding info_of
info_of_id b id = refl

pub decode_inode-id :
    (b id : Bytes) (orphan : Bool) (n : InodeInfo) → decode_inode b id orphan ≡ ok n → n.id ≡ id
unfolding decode_inode
decode_inode-id b id orphan n h =
    let (_, h1) =
      >>-eq-ok
        (need ((length b == 48) && bytes_eq (take 8 b) (codes "FFINOD01")) "invalid inode record") _
        h in
    let (_, h2) =
      >>-eq-ok
        (need (known_type (uint32 8 b) && leb (uint32 12 b) 0o777) "unsupported inode attributes") _
        h1 in
    let (_, h3) = >>-eq-ok (need (valid_state (info_of b id) orphan) "invalid inode state") _ h2 in
    let same : info_of b id ≡ n = cc in sym (ap (λ (i : InodeInfo). i.id) same) ∙ info_of_id b id

pub inode-id : (view : View) (id : Bytes) (n : InodeInfo) → inode view id ≡ ok n → n.id ≡ id
unfolding inode
inode-id view id n h =
    let (b, _, read) = >>=-eq-ok (get view (inode_key id)) _ h in decode_inode-id b id false n read
