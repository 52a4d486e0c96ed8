-- ===== src/View/Plan.antt =====
-- `NamespaceView::plan` on the single-file journal (daemon/metadata_view.cpp): a delta becomes the newest
-- run; a flat namespace, or a request to compact, becomes partitioned image runs.
use forkfs.Common.{
  ◌≡◌, refl, ap, Bool, true, false, ◌||◌, none, List, [], ◌∷◌, arith, if◌then◌else◌, Bool-cases,
  inl, inr, length, map,
}
use forkfs.Common.Bytes.{Bytes, bytes_eq, bytes_eq-eq}
use forkfs.Common.Map.{Map, lookup}
use forkfs.Common.Result.{Result, ok, ◌>>=◌}
use forkfs.View.Run.{ObjectId, Changes, encode_run}
use forkfs.View.Runs.{lookup_runs, apply_run, encode_manifest, Plan, compact_complete}
use forkfs.View.Runs.Merge.{over}

-- runs.erase(std::remove(runs.begin(),runs.end(),id),runs.end())
unfoldable pub remove_id : ObjectId → List ObjectId → List ObjectId
remove_id id [] = []
remove_id id (run ∷ runs) =
    let rest = remove_id id runs in if bytes_eq run id then rest else run ∷ rest

-- !runs.empty() && runs.front()==id
unfoldable pub is_front : ObjectId → List ObjectId → Bool
is_front id [] = false
is_front id (run ∷ runs) = bytes_eq run id

-- The runs after a delta with identity `id`: an identical delta at the front is not written again.
unfoldable pub push_run : ObjectId → List ObjectId → List ObjectId
unfolding remove_id is_front
push_run id runs = if is_front id runs then runs else id ∷ remove_id id runs

module _ (object_id : Bytes → ObjectId) where
  unfoldable pub plan_delta : List ObjectId → Changes → Result Plan
  plan_delta runs [] = do
    manifest ← encode_manifest runs
    ok (record { objects = []; manifest = manifest; run_count = length runs })
  plan_delta runs (change ∷ changes) = do
    b ← encode_run (change ∷ changes)
    let next = push_run (object_id b) runs
    manifest ← encode_manifest next
    ok (record {
      objects = if is_front (object_id b) runs then [] else b ∷ [];
      manifest = manifest;
      run_count = length next;
    })

  -- `complete` is references() and is used on the compacting branch alone.
  unfoldable pub plan : Bool → Bool → Map ObjectId → List ObjectId → Changes → Result Plan
  unfolding plan_delta compact_complete
  plan legacy compact complete runs changes =
      if legacy || compact
      then compact_complete object_id (apply_run changes complete)
      else plan_delta runs changes

-- What the runs hold is read back from the store by identity.
module _ (run_of : ObjectId → Changes) where
  same_run : (id run : ObjectId) → bytes_eq run id ≡ true → run_of run ≡ run_of id
  same_run id run e = ap run_of (bytes_eq-eq run id e)

  lookup_runs-remove :
      (id : ObjectId) (k : Bytes) (runs : List ObjectId)
      → lookup k (run_of id) ≡ none
      → lookup_runs (map run_of (remove_id id runs)) k ≡ lookup_runs (map run_of runs) k
  unfolding lookup_runs remove_id
  lookup_runs-remove id k [] h = refl
  lookup_runs-remove id k (run ∷ runs) h = elim (Bool-cases (bytes_eq run id)) [
    | inl e ↦ rw (e, same_run id run e) (ground (arith, lookup_runs-remove id k runs h))
    | inr n ↦ rw n (ground (arith, lookup_runs-remove id k runs h))
  ]

  lookup_runs-front :
      (id : ObjectId) (k : Bytes) (runs : List ObjectId)
      → is_front id runs ≡ true
      → lookup_runs (map run_of runs) k
        ≡ over (lookup k (run_of id)) (lookup_runs (map run_of runs) k)
  unfolding lookup_runs is_front
  lookup_runs-front id k [] h = cc
  lookup_runs-front id k (run ∷ runs) h = rw (same_run id run h) (ground arith)

  -- Pushing the run `id`, once or again, gives each key the entry of that run where it has one (a
  -- tombstone included) and leaves every other lookup as it was, though older copies of the run are
  -- dropped from the stack.
  pub lookup_runs-push_run :
      (id : ObjectId) (k : Bytes) (runs : List ObjectId)
      → lookup_runs (map run_of (push_run id runs)) k
        ≡ over (lookup k (run_of id)) (lookup_runs (map run_of runs) k)
  unfolding push_run lookup_runs
  lookup_runs-push_run id k runs = elim (Bool-cases (is_front id runs)) [
    | inl front ↦ rw front (lookup_runs-front id k runs front)
    | inr new ↦ rw new (ground (arith, lookup_runs-remove id k runs))
  ]
