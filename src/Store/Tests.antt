-- ===== src/Store/Tests.antt =====
-- A store with two roots, and the batch that deletes one and points the other at its object.
use forkfs.Common.{
  ◌+◌, ◌%◌, ◌≡◌, refl, sym, ap, false, Option, none, some, List, [], ◌∷◌, ◌++◌, length, replicate,
  arith,
}
use forkfs.Common.Bytes.{Bytes, codes, bytes_eq, bytes_lt}
use forkfs.Common.Map.{lookup, insert}
use forkfs.Common.Result.{ok}
use forkfs.Codec.{store_le}
use forkfs.View.Run.{ObjectId}
use forkfs.Store.Backend.{Op, LevelDb, after}
use forkfs.Store.Transact.{
  Mutation, Store, root_of, object_of, root_ops, healthy, object, root, collect_value, update_of,
  prepare_one, prepare, object_ops, batch_of, gather, assemble, transact, integer,
}
use forkfs.Store.Roots.{chosen}
use forkfs.Store.Prepared.{effect_on}
use forkfs.Store.Durable.{
  IsSound, transact-commits, transact-counters, transact-keeps_object, transact-IsSound,
  object-root,
}

-- A database as the function that looks a key up; no write fails.
written : (Bytes → Option Bytes) → List Op → Option (Bytes → Option Bytes)
unfolding after
written d ops = some (λ key. after ops key (d key))

written-get :
    (d d' : Bytes → Option Bytes) (ops : List Op) (key : Bytes)
    → written d ops ≡ some d'
    → d' key ≡ after ops key (d key)
unfolding written
written-get d d' ops key h =
    let same : (λ k. after ops k (d k)) ≡ d' = cc in ap (λ f. f key) (sym same)

abbrev memory : LevelDb
memory = record {
  Db = Bytes → Option Bytes;
  get = λ d key. d key;
  write = written;
  get-write = written-get;
}

abbrev sample_id : Bytes → ObjectId
sample_id b = replicate 31 7 ++ (length b % 256) ∷ []

abbrev id_two : ObjectId
id_two = sample_id (1 ∷ 2 ∷ [])

abbrev fresh : Store memory
fresh = record { db = λ key. none; sequence = 0; objects = 0; roots = 0; poisoned = false }

abbrev first_batch : List Mutation
first_batch =
    record { key = codes "x"; value = some (1 ∷ 2 ∷ []); reference = none }
    ∷ record { key = codes "y"; value = some (3 ∷ []); reference = none }
    ∷ []

abbrev second_batch : List Mutation
second_batch =
    record { key = codes "x"; value = none; reference = none }
    ∷ record { key = codes "y"; value = none; reference = some id_two }
    ∷ []

loaded : Store memory
unfolding transact assemble healthy gather prepare prepare_one update_of collect_value object
    object_ops batch_of root_ops after lookup insert bytes_eq bytes_lt store_le written
loaded = (transact memory sample_id fresh 0 first_batch).1

moved : Store memory
unfolding loaded
moved = (transact memory sample_id loaded 1 second_batch).1

load_first : transact memory sample_id fresh 0 first_batch ≡ (ok tt, loaded)
unfolding loaded
load_first = refl

move_second : transact memory sample_id loaded 1 second_batch ≡ (ok tt, moved)
unfolding moved
move_second = refl

-- A database that fails every write.
failing : (Bytes → Option Bytes) → List Op → Option (Bytes → Option Bytes)
failing d ops = none

failing-get :
    (d d' : Bytes → Option Bytes) (ops : List Op) (key : Bytes)
    → failing d ops ≡ some d'
    → d' key ≡ after ops key (d key)
unfolding failing
failing-get d d' ops key h = cc

abbrev full_disk : LevelDb
full_disk = record {
  Db = Bytes → Option Bytes;
  get = λ d key. d key;
  write = failing;
  get-write = failing-get;
}

abbrev unwritten : Store full_disk
unwritten = record { db = λ key. none; sequence = 0; objects = 0; roots = 0; poisoned = false }

transact-commits_example :
    (1 ≡ loaded.sequence)
    × (moved.sequence ≡ loaded.sequence + 1)
    × ((key : Bytes)
        → moved.db (root_of key)
          ≡ chosen (effect_on memory sample_id loaded key second_batch) (loaded.db (root_of key)))
transact-commits_example = transact-commits memory sample_id loaded moved 1 second_batch move_second

transact-counters_at_input :
    (moved.db (codes "M/sequence") ≡ some (integer moved.sequence))
    × (moved.db (codes "M/objects") ≡ some (integer moved.objects))
    × (moved.db (codes "M/roots") ≡ some (integer moved.roots))
transact-counters_at_input =
    transact-counters memory sample_id loaded moved 1 second_batch move_second

two_stored : loaded.db (object_of id_two) ≡ some (1 ∷ 2 ∷ [])
unfolding loaded
two_stored = refl

transact-keeps_object_example : moved.db (object_of id_two) ≡ some (1 ∷ 2 ∷ [])
transact-keeps_object_example =
    transact-keeps_object memory sample_id loaded moved 1 second_batch (ok tt) id_two (1 ∷ 2 ∷ [])
      move_second two_stored

fresh-IsSound : IsSound memory sample_id fresh
fresh-IsSound = record {
  hashed = λ id v h. absurd (ground arith);
  rooted = λ key id h. absurd (ground arith);
}

transact-IsSound_example : IsSound memory sample_id loaded
transact-IsSound_example =
    transact-IsSound memory sample_id fresh loaded 0 first_batch (ok tt) fresh-IsSound load_first

loaded-IsSound : IsSound memory sample_id loaded
loaded-IsSound =
    transact-IsSound memory sample_id fresh loaded 0 first_batch (ok tt) fresh-IsSound load_first

x_root : root memory sample_id loaded (codes "x") ≡ ok id_two
unfolding root loaded
x_root = refl

object-root_at_input :
    (v : Bytes) × (object memory sample_id loaded id_two ≡ ok v) × (sample_id v ≡ id_two)
object-root_at_input = object-root memory sample_id loaded (codes "x") id_two loaded-IsSound x_root
