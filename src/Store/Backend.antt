-- ===== src/Store/Backend.antt =====
-- What daemon/level_store.cpp relies on of LevelDB (a submodule): Get, and Write of a WriteBatch, which
-- is applied whole and in order, or fails.
use forkfs.Common.{◌≡◌, Option, none, some, List, [], ◌∷◌, if◌then◌else◌}
use forkfs.Common.Bytes.{Bytes, bytes_eq}

-- batch.Put(key,value) and batch.Delete(key)
pub data Op : Type 0 where
  put : Bytes → Bytes → Op
  delete : Bytes → Op

-- What a key holds once the operations are applied in order to a database that held `old` there.
unfoldable pub after : List Op → Bytes → Option Bytes → Option Bytes
after [] key old = old
after (put k v ∷ ops) key old = after ops key (if bytes_eq k key then some v else old)
after (delete k ∷ ops) key old = after ops key (if bytes_eq k key then none else old)

pub record LevelDb : Type 1 where
  pub Db : Type 0
  pub get : Db → Bytes → Option Bytes
  -- none: the status is not ok.
  pub write : Db → List Op → Option Db
  pub get-write :
      (d d' : Db) (ops : List Op) (key : Bytes)
      → write d ops ≡ some d'
      → get d' key ≡ after ops key (get d key)
