-- ===== src/Tree/Read.antt =====
-- Reading the metadata tree: height, lookup, keys, page and entries (daemon/metadata_tree.cpp). The fuel is the
-- depth that is left of 256, where each of them fails.
use forkfs.Common.{
  ℕ, zero, suc, ◌+◌, Bool, true, false, not, ◌&&◌, ◌||◌, Option, none, some, List, [], ◌∷◌, ◌++◌,
  leb, ltb, ◌==◌, if◌then◌else◌, length, String,
}
use forkfs.Common.Bytes.{Bytes, bytes_eq, bytes_lt, starts_with}
use forkfs.Common.Result.{Result, ok, err, need, ◌>>=◌, ◌>>◌}
use forkfs.Common.Map.{Map, insert, contains}
use forkfs.View.Run.{ObjectId}
use forkfs.Tree.Nodes.{Node, is_zero}

abbrev pub max : ℕ → ℕ → ℕ
max a b = if ltb a b then b else a

abbrev pub mem : ObjectId → List ObjectId → Bool
mem id [] = false
mem id (x ∷ xs) = bytes_eq x id || mem id xs

abbrev pub depth_limit : String
depth_limit = "metadata tree depth limit"

-- The first string above all that begin with the prefix; none if there is no such string.
unfoldable pub upper_of : Bytes → Option Bytes
upper_of [] = none
upper_of (c ∷ cs) = elim (upper_of cs) [
  | some upper ↦ some (c ∷ upper)
  | none ↦ if c == 255 then none else some ((c + 1) ∷ [])
]

-- !bounded || key<upper
abbrev pub under : Option Bytes → Bytes → Bool
under none key = true
under (some upper) key = bytes_lt key upper

-- The bounds of a subtree: !lo || *lo<key, and !hi || key<*hi.
abbrev pub above : Option Bytes → Bytes → Bool
above none key = true
above (some lo) key = bytes_lt lo key

abbrev pub emplace : Bytes → ObjectId → Map ObjectId → Map ObjectId
emplace key value m = if contains key m then m else insert key value m

-- The variables of the walk of entries.
pub record Walk : Type 0 where
  pub visited : List ObjectId
  pub result : Map ObjectId

module _ (higher : Node → Node → Bool) (node : ObjectId → Result Node) where
  unfoldable pub height : ℕ → ObjectId → Result ℕ
  height zero root = if is_zero root then ok 0 else err depth_limit
  height (suc fuel) root =
      let below : Result ℕ = do
        n ← node root
        l ← height fuel n.left
        r ← height fuel n.right
        ok (1 + max l r)
      in if is_zero root then ok 0 else below

  unfoldable pub lookup_from : ℕ → Bytes → ObjectId → Result (Option ObjectId)
  lookup_from zero key current = if is_zero current then ok none else err depth_limit
  lookup_from (suc fuel) key current =
      let below : Result (Option ObjectId) = do
        n ← node current
        let next = lookup_from fuel key (if bytes_lt key n.key then n.left else n.right)
        if bytes_eq key n.key then ok (some n.value) else next
      in if is_zero current then ok none else below

  unfoldable pub lookup : ObjectId → Bytes → Result (Option ObjectId)
  lookup root key = lookup_from 256 key root

  unfoldable pub walk_keys : ℕ → Bytes → ObjectId → List Bytes → Result (List Bytes)
  walk_keys zero prefix id out = if is_zero id then ok out else err depth_limit
  walk_keys (suc fuel) prefix id out =
      let below : Result (List Bytes) = do
        n ← node id
        let left = walk_keys fuel prefix n.left out
        some_keys ← if bytes_lt n.key prefix then ok out else left
        let more = if starts_with n.key prefix then some_keys ++ (n.key ∷ []) else some_keys
        let right = walk_keys fuel prefix n.right more
        if under (upper_of prefix) n.key then right else ok more
      in if is_zero id then ok out else below

  unfoldable pub keys : ObjectId → Bytes → Result (List Bytes)
  keys root prefix = walk_keys 256 prefix root []

  unfoldable pub walk_page : ℕ → Bytes → Bytes → ℕ → ObjectId → List Bytes → Result (List Bytes)
  walk_page zero prefix after limit id out =
      if is_zero id || length out == limit then ok out else err depth_limit
  walk_page (suc fuel) prefix after limit id out =
      let lower = if length after == 0 then prefix else after in
      let below : Result (List Bytes) = do
        n ← node id
        let left = walk_page fuel prefix after limit n.left out
        some_keys ← if bytes_lt lower n.key then left else ok out
        let wanted = starts_with n.key prefix && (length after == 0 || bytes_lt after n.key)
        let more = if wanted then some_keys ++ (n.key ∷ []) else some_keys
        let right = walk_page fuel prefix after limit n.right more
        let rest =
            if ltb (length more) limit && under (upper_of prefix) n.key then right else ok more
        if length some_keys == limit then ok some_keys else rest
      in if is_zero id || length out == limit then ok out else below

  unfoldable pub page : ObjectId → Bytes → Bytes → ℕ → Result (List Bytes)
  page root prefix after limit = do
    need (ltb 0 limit && (leb limit 1025 && (length after == 0 || starts_with after prefix)))
        "invalid metadata page request"
    walk_page 256 prefix after limit root []

  -- need(!higher(node(child),n)) where there is a child.
  unfoldable pub heap_checked : ObjectId → Node → Result (Unit {0})
  heap_checked child n =
      let test : Result (Unit {0}) = do
        c ← node child
        need (not (higher c n)) "metadata tree heap mismatch"
      in if is_zero child then ok tt else test

  unfoldable pub walk : ℕ → ObjectId → Option Bytes → Option Bytes → Walk → Result Walk
  unfolding heap_checked
  walk zero id lo hi w = if is_zero id then ok w else err "metadata tree cycle/depth"
  walk (suc fuel) id lo hi w =
      let below : Result Walk = do
        need (not (mem id w.visited)) "metadata tree cycle/depth"
        n ← node id
        need (above lo n.key && under hi n.key) "metadata tree ordering mismatch"
        heap_checked n.left n
        heap_checked n.right n
        left ← walk fuel n.left lo (some n.key) (record w { visited = id ∷ w.visited })
        let here = record left { result = emplace n.key n.value left.result }
        walk fuel n.right (some n.key) hi here
      in if is_zero id then ok w else below

  unfoldable pub entries_from : ℕ → ObjectId → Result (Map ObjectId)
  unfolding walk
  entries_from fuel root = do
    w ← walk fuel root none none (record { visited = []; result = [] })
    ok w.result

  unfoldable pub entries : ObjectId → Result (Map ObjectId)
  entries root = entries_from 256 root
