-- ===== src/Namespace/History/Tests.antt =====
-- A World of a small store, its snapshot and a fork of that (daemon/namespace.cpp).
use forkfs.Common.{
  ◌≡◌, ◌≢◌, refl, sym, ap, true, false, Bool, Option, none, some, List, [], ◌∷◌, length, replicate,
  ◌==◌, if◌then◌else◌, inl, inr, arith, Bool-cases,
}
use forkfs.Common.Bytes.{Bytes, codes, bytes_eq, bytes_lt, bytes_eq-cases, bytes_eq_refl}
use forkfs.Common.Map.{lookup, insert}
use forkfs.Common.Result.{Result, ok}
use forkfs.Keys.{root_key}
use forkfs.View.Run.{ObjectId, zero_id}
use forkfs.Store.Backend.{Op, LevelDb, after}
use forkfs.Store.Transact.{
  Store, root_of, transact, assemble, gather, prepare, prepare_one, update_of, collect_value,
  batch_of, object_ops, root_ops,
}
use forkfs.Store.Transact
use forkfs.Namespace.{View}
use forkfs.Namespace.History
use forkfs.Namespace.History.{
  world_key, base_key, revision_key, put_value, descriptor, snapshot, fork, parent_revision,
}
use forkfs.Namespace.History.Heads.{snapshot-fork}

-- A database as the function that looks a key up; no write fails.
applied : (Bytes → Option Bytes) → List Op → Option (Bytes → Option Bytes)
unfolding after
applied d ops = some (λ key. after ops key (d key))

applied-get :
    (d d' : Bytes → Option Bytes) (ops : List Op) (key : Bytes)
    → applied d ops ≡ some d'
    → d' key ≡ after ops key (d key)
unfolding applied
applied-get d d' ops key h =
    let same : (λ k. after ops k (d k)) ≡ d' = cc in ap (λ f. f key) (sym same)

abbrev database : LevelDb
database = record {
  Db = Bytes → Option Bytes;
  get = λ d key. d key;
  write = applied;
  get-write = applied-get;
}

abbrev head : ObjectId
head = replicate 32 2

-- The descriptor of the first revision of a World that was made in transaction 1.
revision : Bytes
unfolding descriptor
revision = descriptor head zero_id 1

-- A hash that tells the descriptor from all else, and identities from manifests.
hash : Bytes → ObjectId
hash b =
    if bytes_eq b revision
    then replicate 32 1
    else if length b == 32
    then replicate 32 3
    else replicate 32 2

abbrev shows : Store database → Bytes → Bool → Result View
shows s name is_revision =
    ok (record { records = (root_key, replicate 32 b'0') ∷ []; allocated = λ id. true })

abbrev empty : Store database
empty = record { db = λ key. none; sequence = 0; objects = 0; roots = 0; poisoned = false }

one_world : Result (Unit {0}) × Store database
unfolding transact hash assemble gather prepare prepare_one update_of collect_value batch_of
    object_ops root_ops lookup insert applied bytes_lt revision
one_world = transact database hash empty 0 (put_value (world_key (codes "w")) (9 ∷ []) ∷ [])

snapped : Result Bytes × Store database
unfolding one_world snapshot History.Namespace.root Transact.root
snapped = snapshot database hash shows one_world.1 (codes "w") false none (codes "r1")

forked : Result (Unit {0}) × Store database
unfolding snapped fork
forked = fork database hash shows snapped.1 false (codes "r1") (codes "v")

abbrev hex : Bytes
hex = codes "0101010101010101010101010101010101010101010101010101010101010101"

snapped_result : snapped ≡ (ok hex, snapped.1)
unfolding snapped
snapped_result = refl

forked_result : forked ≡ (ok tt, forked.1)
unfolding forked
forked_result = refl

rooted : History.root database hash shows one_world.1 (world_key (codes "w")) ≡ ok head
unfolding one_world Transact.root History.root bytes_eq
rooted = refl

first : parent_revision database hash shows one_world.1 (codes "w") ≡ ok zero_id
unfolding one_world parent_revision bytes_eq
first = refl

unique : (v : Bytes) → hash v ≡ hash revision → v ≡ revision
unfolding hash
unique v same = elim (bytes_eq-cases v revision) [
  | inl (e, _) ↦ e
  | inr other ↦
      let same' = rw (other, bytes_eq_refl revision, hash) at same in
      elim (Bool-cases (length v == 32)) [
        | inl short ↦ let h = rw short at same' in absurd (ground arith)
        | inr long ↦ let h = rw long at same' in absurd (ground arith)
      ]
]

snapshot-fork_example :
    (forked.1.db (root_of (world_key (codes "v"))) ≡ some head)
    × ((key : Bytes)
        → key ≢ revision_key (codes "r1")
        → key ≢ base_key (codes "w")
        → key ≢ world_key (codes "v")
        → key ≢ base_key (codes "v")
        → forked.1.db (root_of key) ≡ one_world.1.db (root_of key))
unfolding descriptor revision one_world snapshot snapped fork forked
snapshot-fork_example =
    snapshot-fork database hash shows one_world.1 snapped.1 forked.1 (codes "w") (codes "r1")
      (codes "v") hex head zero_id rooted first unique snapped_result forked_result
