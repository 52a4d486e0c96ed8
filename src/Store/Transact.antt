-- ===== src/Store/Transact.antt =====
-- `LevelStore::transact`, with `read`, `root`, `contains` and `object` (daemon/level_store.cpp). The caches
-- in front of the database return what it holds and are left out; so are the metrics.
use forkfs.Common.{
  ℕ, ◌+◌, ◌-◌, ◌*◌, ◌%◌, ◌^◌, Bool, true, false, not, ◌&&◌, Option, none, some, List, [], ◌∷◌, ◌++◌,
  length, leb, ltb, ◌==◌, if◌then◌else◌,
}
use forkfs.Common.Bytes.{Bytes, codes, bytes_eq}
use forkfs.Common.Map.{Map, insert, contains}
use forkfs.Common.Result.{Result, ok, err, need, need_some, ◌>>=◌, ◌>>◌}
use forkfs.Codec.{store_le}
use forkfs.View.Run.{ObjectId}
use forkfs.Store.Backend.{Op, put, delete, LevelDb}

-- struct Mutation (journal.h): neither value nor reference deletes the root.
pub record Mutation : Type 0 where
  pub key : Bytes
  pub value : Option Bytes
  pub reference : Option ObjectId

abbrev pub root_of : Bytes → Bytes
root_of key = codes "R/" ++ key

abbrev pub object_of : ObjectId → Bytes
object_of id = codes "O/" ++ id

-- std::string integer(uint64_t n)
abbrev pub integer : ℕ → Bytes
integer n = store_le 8 n

abbrev pub uint64_max : ℕ
uint64_max = 2 ^ 64 - 1

-- The variables of the loop over the mutations; `seen` holds the keys of `updates`.
pub record Prep : Type 0 where
  pub values : Map Bytes
  pub updates : Map (Option ObjectId)
  pub total : ℕ
  pub roots : ℕ

abbrev pub is_some : {A : Type 0} → Option A → Bool
is_some none = false
is_some (some a) = true

-- roots+1 in uint64_t, and roots-1 with its wrap.
abbrev pub count_up : Bool → ℕ → ℕ
count_up exists roots = if exists then roots else ((roots + 1) % 2 ^ 64)

abbrev pub count_down : ℕ → ℕ
count_down roots = if roots == 0 then uint64_max else roots - 1

-- for(const auto& [key,hash]:updates) Put or Delete.
unfoldable pub root_ops : Map (Option ObjectId) → List Op
root_ops [] = []
root_ops ((key, some hash) ∷ rest) = put (root_of key) hash ∷ root_ops rest
root_ops ((key, none) ∷ rest) = delete (root_of key) ∷ root_ops rest

-- The store: the open database and the counters kept beside it.
pub record Store (L : LevelDb) : Type 0 where
  pub db : LevelDb.Db L
  pub sequence : ℕ
  pub objects : ℕ
  pub roots : ℕ
  pub poisoned : Bool

module _ (L : LevelDb) (object_id : Bytes → ObjectId) where
  open L use {get, write}

  -- ObjectId root(key), contains(key) and Bytes object(id).
  unfoldable pub healthy : Store L → Result (Unit {0})
  healthy s = need (not s.poisoned) "LevelDB store requires reopen after write failure"

  unfoldable pub root : Store L → Bytes → Result ObjectId
  unfolding healthy
  root s key = do
    healthy s
    value ← need_some (get s.db (root_of key)) "object root not found"
    need (length value == 32) "invalid object reference"
    ok value

  unfoldable pub object : Store L → ObjectId → Result Bytes
  unfolding healthy
  object s id = do
    healthy s
    value ← need_some (get s.db (object_of id)) "object not indexed"
    need (bytes_eq (object_id value) id) "LevelDB object hash mismatch"
    ok value

  -- if(!values.contains(hash)){total+=m.value->size();values.emplace(hash,&*m.value);}
  unfoldable pub collect_value : Prep → Bytes → Prep
  collect_value p value = if contains (object_id value) p.values then p else record p {
    values = insert (object_id value) value p.values;
    total = p.total + length value;
  }

  -- The three kinds of mutation: what is gathered, and the new identity of the root.
  unfoldable pub update_of :
      Store L → Prep → Bool → Option ObjectId → Option Bytes → Result (Prep × Option ObjectId)
  update_of s p exists (some id) value = do
    payload ← object s id
    ok (record p { roots = count_up exists p.roots }, some id)
  update_of s p exists none (some value) = do
    need (leb (length value) (256 * 1024)) "object exceeds 256 KiB"
    need (leb (collect_value p value).total (16 * 1024 * 1024)) "LevelDB batch exceeds 16 MiB"
    ok (record (collect_value p value) { roots = count_up exists p.roots }, some (object_id value))
  update_of s p exists none none = do
    need exists "cannot delete absent root"
    ok (record p { roots = count_down p.roots }, none)

  -- One round of the loop over the mutations.
  unfoldable pub prepare_one : Store L → Prep → Mutation → Result Prep
  prepare_one s p m = do
    need ((ltb 0 (length m.key) && leb (length m.key) 1024) && not (contains m.key p.updates))
        "invalid or duplicate root key"
    need (not (is_some m.value && is_some m.reference)) "mutation has both value and reference"
    (q, update) ← update_of s p (is_some (get s.db (root_of m.key))) m.reference m.value
    ok (record q { updates = insert m.key update q.updates })

  unfoldable pub prepare : Store L → Prep → List Mutation → Result Prep
  prepare s p [] = ok p
  prepare s p (m ∷ ms) = do q ← prepare_one s p m; prepare s q ms

  -- The loop over `values`: an object already stored must be equal, a new one is written and counted.
  unfoldable pub object_ops : Store L → Map Bytes → ℕ → Result (List Op × ℕ)
  object_ops s [] objects = ok ([], objects)
  object_ops s ((hash, value) ∷ rest) objects = elim (get s.db (object_of hash)) [
    | some previous ↦ do
      need (bytes_eq previous value) "immutable object collision/corruption"
      object_ops s rest objects
    | none ↦ do
      (ops, count) ← object_ops s rest ((objects + 1) % 2 ^ 64)
      ok (put (object_of hash) value ∷ ops, count)
  ]

  -- The batch, and the counters that it writes.
  unfoldable pub batch_of : Store L → Prep → Result (List Op × ℕ × ℕ)
  batch_of s p = do
    (ops, objects) ← object_ops s p.values s.objects
    ok (
      ops
          ++ (root_ops p.updates
              ++ (put (codes "M/sequence") (integer (s.sequence + 1))
                  ∷ put (codes "M/objects") (integer objects)
                  ∷ put (codes "M/roots") (integer p.roots)
                  ∷ [])),
      objects,
      p.roots,
    )

  abbrev pub empty : Store L → Prep
  empty s = record { values = []; updates = []; total = 0; roots = s.roots }

  unfoldable pub gather : Store L → List Mutation → Result (List Op × ℕ × ℕ)
  gather s changes = do p ← prepare s (empty s) changes; batch_of s p

  unfoldable pub assemble : Store L → ℕ → List Mutation → Result (List Op × ℕ × ℕ)
  assemble s expected changes = do
    healthy s
    need (expected == s.sequence) "transaction conflict: sequence changed"
    need (not (s.sequence == uint64_max)) "transaction sequence exhausted"
    need (ltb 0 (length changes) && leb (length changes) 4096)
        "LevelDB batch requires 1..4096 mutations"
    gather s changes

  -- A failed write poisons the store; every other failure leaves it as it was.
  unfoldable pub transact : Store L → ℕ → List Mutation → Result (Unit {0}) × Store L
  transact s expected changes = elim (assemble s expected changes) [
    | err message ↦ (err message, s)
    | ok (ops, objects, roots) ↦ elim (write s.db ops) [
      | none ↦ (err "commit LevelDB batch", record s { poisoned = true })
      | some db ↦
          (ok tt, record s { db = db; sequence = s.sequence + 1; objects = objects; roots = roots })
    ]
  ]
