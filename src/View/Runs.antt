-- ===== src/View/Runs.antt =====
-- A stack of sorted runs, newest first, read as one map: `NamespaceView::lookup`, `references`, `keys`
-- and the part of `plan` and `compact_frozen` that partitions a complete map (daemon/metadata_view.cpp).
pub mod Merge
pub mod Partition
pub mod Compact
use forkfs.Common.{
  ℕ, zero, suc, ◌+◌, ◌-◌, ◌*◌, ◌/◌, ◌≤◌, ◌<◌, Bool, true, false, not, ◌&&◌, ◌||◌, Option, none,
  some, List, [], ◌∷◌, ◌++◌, length, leb, ltb, ◌==◌, if◌then◌else◌, String, map,
}
use forkfs.Common.Bytes.{Bytes, codes, bytes_eq, bytes_lt, starts_with}
use forkfs.Common.Map.{Map, lookup, insert, erase, contains}
use forkfs.Common.Result.{Result, ok, err, need, ◌>>=◌, ◌>>◌}
use forkfs.Codec.{store_le}
use forkfs.Keys.{root_key}
use forkfs.View.Run.{ObjectId, Changes, encode_run, decode_run}

-- The first run with an entry decides, also with a tombstone.
unfoldable pub lookup_runs : List Changes → Bytes → Option ObjectId
lookup_runs [] key = none
lookup_runs (run ∷ runs) key =
    let older = lookup_runs runs key in elim (lookup key run) [ none ↦ older | some value ↦ value ]

-- for(const auto& [key,id]:run) {if(id)result[key]=*id;else result.erase(key);}
unfoldable pub apply_run : Changes → Map ObjectId → Map ObjectId
apply_run [] result = result
apply_run ((key, none) ∷ rest) result = apply_run rest (erase key result)
apply_run ((key, some id) ∷ rest) result = apply_run rest (insert key id result)

-- for(it=runs_.rbegin();it!=runs_.rend();++it): from the oldest run on.
unfoldable pub references : Map ObjectId → List Changes → Map ObjectId
unfolding apply_run
references flat [] = flat
references flat (run ∷ runs) = apply_run run (references flat runs)

-- if(part.empty())return; the part becomes a run.
unfoldable pub flush : Changes → List Changes
flush [] = []
flush (entry ∷ part) = (entry ∷ part) ∷ []

-- The loop that cuts the complete map into parts of at most 64 KiB.
unfoldable pub partition : ℕ → Changes → Map ObjectId → List Changes
unfolding flush
partition bytes part [] = flush part
partition bytes part ((key, id) ∷ rest) =
    let cut = flush part ++ partition (12 + (40 + length key)) ((key, some id) ∷ []) rest in
    let grown = partition (bytes + (40 + length key)) (part ++ ((key, some id) ∷ [])) rest in
    if ltb (64 * 1024) (bytes + 40 + length key) then cut else grown

unfoldable pub encode_all : List Changes → Result (List Bytes)
encode_all [] = ok []
encode_all (part ∷ parts) = do
  payload ← encode_run part
  payloads ← encode_all parts
  ok (payload ∷ payloads)

unfoldable pub join_ids : List ObjectId → Bytes
join_ids [] = []
join_ids (id ∷ ids) = id ++ join_ids ids

unfoldable pub encode_manifest : List ObjectId → Result Bytes
unfolding join_ids
encode_manifest runs = do
  need (ltb 0 (length runs) && leb (length runs) 32) "manifest run count exceeds prototype limit"
  ok (codes "FFMAN002" ++ (store_le 4 (length runs) ++ join_ids runs))

pub record Plan : Type 0 where
  pub objects : List Bytes
  pub manifest : Bytes
  pub run_count : ℕ

pub record Frozen : Type 0 where
  pub flat : Map ObjectId
  pub runs : List Bytes

unfoldable pub decode_all : List Bytes → Result (List Changes)
decode_all [] = ok []
decode_all (payload ∷ payloads) = do
  run ← decode_run payload
  runs ← decode_all payloads
  ok (run ∷ runs)

-- The identity of a stored object is a hash of its bytes, from a library: a parameter.
module _ (object_id : Bytes → ObjectId) where
  unfoldable pub compact_complete : Map ObjectId → Result Plan
  compact_complete complete = do
    need (contains root_key complete) "compaction would lose namespace root"
    objects ← encode_all (partition 12 [] complete)
    manifest ← encode_manifest (map object_id objects)
    ok (record { objects = objects; manifest = manifest; run_count = length objects })

  unfoldable pub compact_frozen : Frozen → Result Plan
  unfolding compact_complete
  compact_frozen input = do
    runs ← decode_all input.runs
    compact_complete (references input.flat runs)
