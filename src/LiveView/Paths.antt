-- ===== src/LiveView/Paths.antt =====
-- Paths built from the inode table: path_locked to fill_parent (core/src/view.cpp).
use forkfs.Common.{
  ℕ, zero, suc, Bool, false, not, ◌||◌, none, some, List, [], ◌∷◌, ◌++◌, ◌==◌, if◌then◌else◌,
}
use forkfs.Common.Bytes.{Bytes, bytes_eq}
use forkfs.Common.Result.{Result, ok, err}
use forkfs.LiveView.Types.{Nodes, update, Attr, View, M, put_nodes}

abbrev pub root : ℕ
root = 1

-- The names from the root down to `cur`, before the names gathered so far, with the number of records that
-- the chain still has room for.
unfoldable pub climb : ℕ → Nodes → ℕ → List Bytes → Result (List Bytes)
climb zero nodes cur names =
    if cur == root
    then ok names
    else elim (nodes cur) [ none ↦ err "ESTALE" | some rec ↦ err "ELOOP" ]
climb (suc left) nodes cur names =
    let up : Result (List Bytes) = elim (nodes cur) [
      | none ↦ err "ESTALE"
      | some rec ↦ climb left nodes rec.parent (rec.name ∷ names)
    ] in
    if cur == root then ok names else up

unfoldable pub join : Bytes → List Bytes → Bytes
join out [] = out
join out (name ∷ names) = join (out ++ (b'/' ∷ name)) names

abbrev pub max_depth : ℕ
max_depth = 1024

abbrev pub joined : Bytes → Result (List Bytes) → Result Bytes
joined base (ok names) = ok (join base names)
joined base (err e) = err e

unfoldable pub path_locked : {Disk : Type 0} → View Disk → ℕ → Result Bytes
unfolding climb join
path_locked v ino = joined v.base_dir (climb max_depth v.nodes ino [])

unfoldable pub has_byte : ℕ → Bytes → Bool
has_byte b [] = false
has_byte b (c ∷ cs) = c == b || has_byte b cs

-- A name of length 0, one with a slash or a NUL, "." and "..".
unfoldable pub valid_name : Bytes → Bool
unfolding has_byte
valid_name [] = false
valid_name (c ∷ cs) =
    if has_byte b'/' (c ∷ cs) || has_byte 0 (c ∷ cs)
    then false
    else not (bytes_eq (c ∷ cs) (b'.' ∷ []) || bytes_eq (c ∷ cs) (b'.' ∷ b'.' ∷ []))

abbrev pub extended : Result Bytes → Bytes → Result Bytes
extended (ok path) name = ok (path ++ (b'/' ∷ name))
extended (err e) name = err e

unfoldable pub child_path : {Disk : Type 0} → View Disk → ℕ → Bytes → Result Bytes
unfolding valid_name path_locked
child_path v dir name = if valid_name name then extended (path_locked v dir) name else err "EINVAL"

-- A record that is there keeps its name, and takes the new type.
unfoldable pub interned : ℕ → Bytes → Attr → Nodes → Nodes
interned dir name a nodes =
    update a.ino
      (elim (nodes a.ino) [
        | none ↦ some (record { parent = dir; type = a.type; name = name })
        | some rec ↦ some (record rec { type = a.type })
      ])
      nodes

abbrev pub intern : {Disk : Type 0} → ℕ → Bytes → Attr → M Disk (Unit {0})
intern dir name a = put_nodes (interned dir name a)

unfoldable pub fill_parent : Nodes → Attr → Attr
fill_parent nodes a =
    let known : ℕ = elim (nodes a.ino) [ none ↦ root | some rec ↦ rec.parent ] in
    record a { parent = if a.ino == root then root else known }
