-- ===== src/Namespace/Walk.antt =====
-- The walk along a path with its symbolic links: `walk`, `parent` and `resolve` (daemon/namespace.cpp). The
-- stack of directories is the root and those above it, the last first.
use forkfs.Common.{
  ℕ, zero, suc, ◌+◌, ◌⊎◌, inl, inr, Bool, true, false, not, ◌&&◌, ◌||◌, List, [], ◌∷◌, ◌++◌, length,
  leb, ◌==◌, if◌then◌else◌,
}
use forkfs.Common.Bytes.{Bytes, codes, bytes_eq}
use forkfs.Common.Map.{contains}
use forkfs.Common.Result.{Result, ok, err, need, ◌>>=◌, ◌>>◌}
use forkfs.Namespace.{View, entry_key, content_key, get, decode_id, inode, root}
use forkfs.Namespace.Names.{components, target_components, starts_slash, is_nil}

pub record Parent : Type 0 where
  pub id : Bytes
  pub name : Bytes
  pub key : Bytes

-- stack.back()
abbrev pub back : Bytes → List Bytes → Bytes
back top [] = top
back top (id ∷ above) = id

abbrev pub pop : List Bytes → List Bytes
pop [] = []
pop (id ∷ above) = above

-- What one name does: it moves the stack, meets a link, or ends the walk at an absent last entry.
pub data Turn : Type 0 where
  go : List Bytes → Turn
  link : Bytes → ℕ → Turn
  absent : Parent → Turn

-- Where the walk ends; `found` has the stack.
pub data Walked : Type 0 where
  found : List Bytes → Walked
  missing : Parent → Walked

unfoldable pub child_turn : View → Bool → Bool → List Bytes → Bytes → Result Turn
unfolding inode
child_turn view follow_final last above child = do
  n ← inode view child
  ok (if n.symlink && (follow_final || not last) then link child n.size else go (child ∷ above))

unfoldable pub entry_turn : View → Bytes → Bool → Bool → List Bytes → Bytes → Bool → Result Turn
unfolding child_turn get decode_id
entry_turn view top follow_final may_miss above name last =
    let id = back top above in
    let key = entry_key id name in
    if contains key view.records
    then (get view key >>= decode_id >>= child_turn view follow_final last above)
    else (need (may_miss && last) "path not found"
        >> ok (absent (record { id = id; name = name; key = key })))

-- One turn of the loop, where `last` tells whether more names are pending.
unfoldable pub turn : View → Bytes → Bool → Bool → List Bytes → Bytes → Bool → Result Turn
unfolding entry_turn inode bytes_eq
turn view top follow_final may_miss above name last = do
  n ← inode view (back top above)
  need n.directory "path component is not a directory"
  if bytes_eq name (codes ".")
      then ok (go above)
      else if bytes_eq name (codes "..")
      then ok (go (pop above))
      else entry_turn view top follow_final may_miss above name last

-- The target of a link: its parts, whether it starts at the root, and the bytes expanded so far.
pub record Expansion : Type 0 where
  pub parts : List Bytes
  pub absolute : Bool
  pub expanded : ℕ

unfoldable pub expand : View → Bytes → ℕ → ℕ → Result Expansion
unfolding get target_components
expand view child size expanded = do
  target ← get view (content_key child)
  need (length target == size) "symlink size mismatch"
  parts ← target_components target
  need (leb (expanded + length target) 65536) "symlink expansion limit"
  ok (record { parts = parts; absolute = starts_slash target; expanded = expanded + length target })

-- The loop, with the number of links that may still be followed. Each turn takes a pending name, or one
-- of these.
unfoldable pub walk_from :
    View → Bytes → Bool → Bool → ℕ → List Bytes → List Bytes → ℕ → Result Walked
unfolding turn expand
walk_from view top follow_final may_miss left [] above expanded = ok (found above)
walk_from view top follow_final may_miss zero (name ∷ pending) above expanded =
    elim (turn view top follow_final may_miss above name (is_nil pending)) [
      | err m ↦ err m
      | ok (go above') ↦ walk_from view top follow_final may_miss zero pending above' expanded
      | ok (link child size) ↦ err "too many symbolic links"
      | ok (absent p) ↦ ok (missing p)
    ]
walk_from view top follow_final may_miss (suc left) (name ∷ pending) above expanded =
    elim (turn view top follow_final may_miss above name (is_nil pending)) [
      | err m ↦ err m
      | ok (go above') ↦ walk_from view top follow_final may_miss (suc left) pending above' expanded
      | ok (link child size) ↦ elim (expand view child size expanded) [
        | err m ↦ err m
        | ok e ↦
            walk_from view top follow_final may_miss left (e.parts ++ pending)
              (if e.absolute then [] else above) e.expanded
      ]
      | ok (absent p) ↦ ok (missing p)
    ]

-- walk(view,names,names.size(),...): 40 links, and no bytes expanded.
unfoldable pub walk : View → Bool → Bool → List Bytes → Result (Bytes × Walked)
unfolding root
walk view follow_final may_miss names = do
  top ← root view
  w ← walk_from view top follow_final may_miss 40 names [] 0
  ok (top, w)

-- The identity that a walk without `missing` ends at, and its stack.
unfoldable pub arrived : Bytes × Walked → Result (Bytes × List Bytes)
arrived (top, found above) = ok (back top above, above)
arrived (top, missing p) = err "path not found"

-- names.back(), and the names before it.
unfoldable pub split_last : List Bytes → Result (List Bytes × Bytes)
split_last [] = err "cannot modify filesystem root"
split_last (name ∷ []) = ok ([], name)
split_last (name ∷ next ∷ names) = do
  (firsts, last) ← split_last (next ∷ names)
  ok (name ∷ firsts, last)

-- With the stack of the parent directory, from the root.
unfoldable pub parent_at : View → Bytes → Result (Parent × List Bytes)
unfolding components split_last walk arrived inode
parent_at view path = do
  names ← components path
  (firsts, name) ← split_last names
  w ← walk view true false firsts
  (id, above) ← arrived w
  n ← inode view id
  need n.directory "parent is not a directory"
  ok (record { id = id; name = name; key = entry_key id name }, above ++ (w.0 ∷ []))

unfoldable pub parent : View → Bytes → Result Parent
unfolding parent_at
parent view path = do (p, ancestry) ← parent_at view path; ok p

unfoldable pub resolve : View → Bytes → Bool → Result Bytes
unfolding components walk arrived
resolve view path follow = do
  names ← components path
  w ← walk view follow false names
  (id, above) ← arrived w
  ok id

-- With a place for the parent of an absent last name: the identity, or that parent.
unfoldable pub resolve_missing : View → Bytes → Result (Bytes ⊎ Parent)
unfolding components walk
resolve_missing view path = do
  names ← components path
  (top, w) ← walk view true true names
  ok (elim w [ found above ↦ inl (back top above) | missing p ↦ inr p ])
