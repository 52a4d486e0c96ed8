-- ===== src/Store/Durable.antt =====
-- What clients rely on of `LevelStore::transact` (daemon/level_store.cpp): a batch is committed whole or
-- not at all, objects are immutable, and every root has its object.
use forkfs.Common.{
  ℕ, ◌+◌, ◌≡◌, refl, ◌∙◌, ap, true, false, ◌⊎◌, inl, inr, some, List, String, arith, Option-cases,
}
use forkfs.Common.Bytes.{Bytes, codes, bytes_eq, bytes_eq_refl}
use forkfs.Common.Map.{lookup}
use forkfs.Common.Result.{Result, ok, err, Result-cases}
use forkfs.View.Run.{ObjectId}
use forkfs.Store.Backend.{LevelDb, after}
use forkfs.Store.Transact.{
  Mutation, Store, root_of, object_of, healthy, object, root, assemble, transact, integer, empty,
}
use forkfs.Store.Roots.{chosen}
use forkfs.Store.Prepared.{effect_on, prepare-lem}
use forkfs.Store.Commit.{
  Written, transact-Written, Written-get, Written-root, Written-object, IsBacked-empty,
}

-- Every stored object stands under its hash, and every root names a stored object.
pub record IsSound (L : LevelDb) (object_id : Bytes → ObjectId) (s : Store L) : Type 0 where
  pub hashed :
      (id : ObjectId) (v : Bytes) → LevelDb.get L s.db (object_of id) ≡ some v → object_id v ≡ id
  pub rooted :
      (key : Bytes) (id : ObjectId)
      → LevelDb.get L s.db (root_of key) ≡ some id
      → (v : Bytes) × (LevelDb.get L s.db (object_of id) ≡ some v)

module _ (L : LevelDb) (object_id : Bytes → ObjectId) where
  open L use {get, write}

  -- A batch that is committed was checked against the current sequence, advances it by one, and leaves
  -- under every root what the batch says of it, or else what was there.
  pub transact-commits :
      (s s' : Store L) (expected : ℕ) (ms : List Mutation)
      → transact L object_id s expected ms ≡ (ok tt, s')
      → (expected ≡ s.sequence)
        × (s'.sequence ≡ s.sequence + 1)
        × ((key : Bytes)
            → get s'.db (root_of key)
              ≡ chosen (effect_on L object_id s key ms) (get s.db (root_of key)))
  transact-commits s s' expected ms h =
      let w = transact-Written L object_id s s' expected ms h in
      (w.current, rw w.now refl, Written-root L object_id s s' expected ms w)

  -- A committed batch leaves the three counters of the store in the database, in eight bytes each.
  pub transact-counters :
      (s s' : Store L) (expected : ℕ) (ms : List Mutation)
      → transact L object_id s expected ms ≡ (ok tt, s')
      → (get s'.db (codes "M/sequence") ≡ some (integer s'.sequence))
        × (get s'.db (codes "M/objects") ≡ some (integer s'.objects))
        × (get s'.db (codes "M/roots") ≡ some (integer s'.roots))
  unfolding after bytes_eq
  transact-counters s s' expected ms h =
      let w = transact-Written L object_id s s' expected ms h in
      let at = Written-get L object_id s s' expected ms w in
      (at (codes "M/sequence"), at (codes "M/objects"), at (codes "M/roots"))

  -- A call that throws leaves the store as it was, or only marks it as needing a reopen.
  pub transact-refused :
      (s s' : Store L) (expected : ℕ) (ms : List Mutation) (message : String)
      → transact L object_id s expected ms ≡ (err message, s')
      → (s' ≡ s) ⊎ (s' ≡ record s { poisoned = true })
  unfolding transact
  transact-refused s s' expected ms message h =
      elim (Result-cases (assemble L object_id s expected ms)) [
        | inr (e, bad) ↦ inl (ground arith)
        | inl ((batch, objects, roots), good) ↦ elim (Option-cases (write s.db batch)) [
          | inl bad ↦ inr (ground arith)
          | inr (db, stored) ↦ absurd (ground arith)
        ]
      ]

  -- No call changes a stored object.
  pub transact-keeps_object :
      (s s' : Store L) (expected : ℕ) (ms : List Mutation) (r : Result (Unit {0})) (id : ObjectId)
      (v : Bytes)
      → transact L object_id s expected ms ≡ (r, s')
      → get s.db (object_of id) ≡ some v
      → get s'.db (object_of id) ≡ some v
  transact-keeps_object s s' expected ms (ok x) id v h there =
      let w = transact-Written L object_id s s' expected ms h in
      rw (Written-object L object_id s s' expected ms w id, there) refl
  transact-keeps_object s s' expected ms (err message) id v h there =
      elim (transact-refused s s' expected ms message h) [
        | inl same ↦ rw same there
        | inr poisoned ↦ rw poisoned there
      ]

  Written-hashed :
      (s s' : Store L) (expected : ℕ) (ms : List Mutation)
      → Written L object_id s s' expected ms
      → IsSound L object_id s
      → (id : ObjectId) (v : Bytes) → get s'.db (object_of id) ≡ some v
      → object_id v ≡ id
  Written-hashed s s' expected ms w sound id v h =
      let g = w.gathered in
      let (b, says) =
        prepare-lem L object_id s (empty L object_id s) g.prep ms (IsBacked-empty L object_id s)
          g.prepared in
      let h' = rw (Written-object L object_id s s' expected ms w id) at h in
      elim (Option-cases (get s.db (object_of id))) [
        | inl new ↦ b.hashed id v (rw new at h')
        | inr (old, there) ↦ sound.hashed id v (there ∙ (rw there at h'))
      ]

  Written-rooted :
      (s s' : Store L) (expected : ℕ) (ms : List Mutation)
      → Written L object_id s s' expected ms
      → IsSound L object_id s
      → (key : Bytes) (id : ObjectId) → get s'.db (root_of key) ≡ some id
      → (v : Bytes) × (get s'.db (object_of id) ≡ some v)
  unfolding lookup
  Written-rooted s s' expected ms w sound key id h =
      let g = w.gathered in
      let (b, says) =
        prepare-lem L object_id s (empty L object_id s) g.prep ms (IsBacked-empty L object_id s)
          g.prepared in
      let h' = rw (Written-root L object_id s s' expected ms w key) at h in
      elim (Option-cases (effect_on L object_id s key ms)) [
        | inl unsaid ↦
            let (v, there) = sound.rooted key id (rw unsaid at h') in (v, kept id v there)
        | inr (u, said) ↦
            let now : u ≡ some id = rw said at h' in
            elim (b.backed key id (says key ∙ (said ∙ ap some now))) [
              | inl (v, e) ↦ elim (Option-cases (get s.db (object_of id))) [
                | inl new ↦ (v, rw (Written-object L object_id s s' expected ms w id, new) e)
                | inr (old, there) ↦ (old, kept id old there)
              ]
              | inr (v, there) ↦ (v, kept id v there)
            ]
      ]
    where
      kept :
          (id : ObjectId) (v : Bytes)
          → get s.db (object_of id) ≡ some v
          → get s'.db (object_of id) ≡ some v
      kept id v there = rw (Written-object L object_id s s' expected ms w id, there) refl

  -- Every call, whatever its outcome, keeps the store sound: each object stands under its hash and each root
  -- names a stored object.
  pub transact-IsSound :
      (s s' : Store L) (expected : ℕ) (ms : List Mutation) (r : Result (Unit {0}))
      → IsSound L object_id s
      → transact L object_id s expected ms ≡ (r, s')
      → IsSound L object_id s'
  transact-IsSound s s' expected ms (ok x) sound h =
      let w = transact-Written L object_id s s' expected ms h in
      record {
        hashed = Written-hashed s s' expected ms w sound;
        rooted = Written-rooted s s' expected ms w sound;
      }
  transact-IsSound s s' expected ms (err message) sound h =
      elim (transact-refused s s' expected ms message h) [
        | inl same ↦ rw same sound
        | inr poisoned ↦ rw poisoned record { hashed = sound.hashed; rooted = sound.rooted }
      ]

  pub root-found :
      (s : Store L) (key : Bytes) (id : ObjectId)
      → root L object_id s key ≡ ok id
      → (get s.db (root_of key) ≡ some id) × (s.poisoned ≡ false)
  unfolding root healthy
  root-found s key id h = (ground arith, ground arith)

  object-ok :
      (s : Store L) (id : ObjectId) (v : Bytes)
      → s.poisoned ≡ false
      → get s.db (object_of id) ≡ some v
      → object_id v ≡ id
      → object L object_id s id ≡ ok v
  unfolding object healthy
  object-ok s id v well there hash = rw (there, hash, bytes_eq_refl) (ground arith)

  -- In a sound store that needs no reopen, what a root names can be read back, and has the root's hash.
  pub object-root :
      (s : Store L) (key : Bytes) (id : ObjectId)
      → IsSound L object_id s
      → root L object_id s key ≡ ok id
      → (v : Bytes) × (object L object_id s id ≡ ok v) × (object_id v ≡ id)
  object-root s key id sound h =
      let (found, well) = root-found s key id h in
      let (v, there) = sound.rooted key id found in
      let hash = sound.hashed id v there in (v, object-ok s id v well there hash, hash)
