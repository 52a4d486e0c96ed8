-- ===== src/Store/Refused.antt =====
-- What `LevelStore::transact` (daemon/level_store.cpp) leaves when it throws: the store as it was, or one that
-- answers nothing before it is opened again.
use forkfs.Common.{ℕ, ◌≡◌, false, List, String}
use forkfs.Common.Bytes.{Bytes, codes, bytes_eq}
use forkfs.Common.Map.{Map}
use forkfs.Common.Result.{Result, err}
use forkfs.View.Run.{ObjectId}
use forkfs.Store.Backend.{LevelDb}
use forkfs.Store.Transact.{Mutation, Store, object, root, transact}

abbrev pub write_failed : String
write_failed = "commit LevelDB batch"

abbrev pub reopen : String
reopen = "LevelDB store requires reopen after write failure"

-- No error of the checks is that of a failed write.
abbrev Refuses : {A : Type 0} → Result A → Type 0
Refuses r = (m : String) → r ≡ err m → bytes_eq (codes m) (codes write_failed) ≡ false

module _ (L : LevelDb) (object_id : Bytes → ObjectId) where
  open L use {get, write}

  -- Every later call on the store fails, and changes nothing.
  pub record IsShut (s : Store L) : Type 0 where
    pub transacts :
        (expected : ℕ) (ms : List Mutation) → transact L object_id s expected ms ≡ (err reopen, s)
    pub roots : (key : Bytes) → root L object_id s key ≡ err reopen
    pub objects : (id : ObjectId) → object L object_id s id ≡ err reopen
