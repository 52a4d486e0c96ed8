-- ===== src/Namespace/Changes.antt =====
-- The changes that an operation collects, and their commit: `Changes`, `update` and `commit_changes`
-- (daemon/namespace.cpp). The wait of `update` for the background compaction is not modelled: the number
-- of runs is the one that it finds afterwards.
use forkfs.Common.{
  ℕ, Bool, true, false, not, ◌&&◌, ◌||◌, Option, none, some, [], ◌∷◌, ◌++◌, ltb, drop,
  if◌then◌else◌,
}
use forkfs.Common.Bytes.{Bytes, codes, bytes_eq, starts_with}
use forkfs.Common.Map.{Map, insert, erase}
use forkfs.Common.Result.{Result, ok, need, ◌>>=◌, ◌>>◌}
use forkfs.Keys.{prefix, history}
use forkfs.Namespace.{View}

-- std::map<std::string,std::optional<Bytes>>
abbrev pub Changes : Type 0
Changes = Map (Option Bytes)

-- changes[key]=value and changes[key]=std::nullopt
abbrev pub put : Bytes → Bytes → Changes → Changes
put key value changes = insert key (some value) changes

abbrev pub drop_key : Bytes → Changes → Changes
drop_key key changes = insert key none changes

abbrev pub apply_one : Bytes → Option Bytes → Map Bytes → Map Bytes
apply_one key none records = erase key records
apply_one key (some value) records = insert key value records

-- The records after changes; each key stands once, so that their order has no effect.
unfoldable pub applied : Changes → Map Bytes → Map Bytes
applied [] records = records
applied ((key, change) ∷ rest) records = apply_one key change (applied rest records)

abbrev pub is_orphan : Bytes → Bool
is_orphan key = starts_with key (history ++ codes "orphan/")

-- The changes under orphan roots go to the journal, the others to the view.
unfoldable pub orphan_changes : Changes → Changes
orphan_changes [] = []
orphan_changes ((key, change) ∷ rest) =
    let more = orphan_changes rest in if is_orphan key then (key, change) ∷ more else more

unfoldable pub view_changes : Changes → Changes
view_changes [] = []
view_changes ((key, change) ∷ rest) =
    let more = view_changes rest in if is_orphan key then more else (key, change) ∷ more

abbrev pub allocations : Bytes
allocations = prefix ++ codes "allocated/"

abbrev pub is_put : Bytes → Option Bytes → Bytes → Bool
is_put key none id = false
is_put key (some value) id = starts_with key allocations && bytes_eq (drop 18 key) id

-- new_objects.emplace(history+"allocated/"+key.substr(allocated.size()),Bytes{})
unfoldable pub allocates : Changes → Bytes → Bool
allocates [] id = false
allocates ((key, change) ∷ rest) id = is_put key change id || allocates rest id

-- A World: its view, the roots of orphans beside it, and the number of open handles of an inode.
pub record World : Type 0 where
  pub name : Bytes
  pub revision : Bool
  pub view : View
  pub orphans : Map Bytes
  pub runs : ℕ
  pub open_counts : Bytes → ℕ

unfoldable pub commit_changes : World → Changes → World
unfolding orphan_changes view_changes allocates
commit_changes w [] = w
commit_changes w (first ∷ rest) = record w {
  view = record {
    records = applied (view_changes (first ∷ rest)) w.view.records;
    allocated = λ id. w.view.allocated id || allocates (first ∷ rest) id;
  };
  orphans = applied (orphan_changes (first ∷ rest)) w.orphans;
}

abbrev pub hard_run_limit : ℕ
hard_run_limit = 32

abbrev pub no_changes : Changes → Bool
no_changes [] = true
no_changes (c ∷ rest) = false

-- The end of `update`: it checks the runs only if there is something to commit.
unfoldable pub publish : World → Changes → Result World
unfolding commit_changes
publish w changes = do
  need (no_changes changes || ltb w.runs hard_run_limit) "namespace run capacity exhausted"
  ok (commit_changes w changes)

-- An operation that only changes the view, with a result beside the changes.
unfoldable pub update : {A : Type 0} → World → (View → Result (A × Changes)) → Result (A × World)
unfolding publish
update w operation = do
  need (not w.revision) "revision view is read-only"
  (result, changes) ← operation w.view
  w' ← publish w changes
  ok (result, w')
