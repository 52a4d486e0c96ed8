-- ===== src/Store/Commit.antt =====
-- What a committed batch of `LevelStore::transact` (daemon/level_store.cpp) leaves in the database, and
-- what a refused one leaves of the store.
use forkfs.Common.{
  ℕ, ◌+◌, ◌≡◌, refl, ◌∙◌, false, inl, inr, some, List, [], ◌∷◌, arith, Option-cases,
}
use forkfs.Common.Bytes.{Bytes, codes, bytes_eq}
use forkfs.Common.Map.{lookup}
use forkfs.Common.Result.{ok, Result-cases}
use forkfs.View.Run.{ObjectId}
use forkfs.Store.Backend.{Op, put, LevelDb, after}
use forkfs.Store.Transact.{
  Mutation, Store, root_of, object_of, root_ops, assemble, transact, integer, empty,
}
use forkfs.Store.Roots.{after-append, chosen, after-root_ops, after-root_ops_object}
use forkfs.Store.Updates.{IsBacked}
use forkfs.Store.Prepared.{effect_on, prepare-lem}
use forkfs.Store.Objects.{kept_or, object_ops-root, object_ops-object}
use forkfs.Store.Batch.{Gathered, gather-Gathered, assemble-gather}

module _ (L : LevelDb) (object_id : Bytes → ObjectId) where
  open L use {get, write, get-write}

  -- The outcomes of a call: the batch is in the database, the write failed, or nothing was written.
  pub record Written (s s' : Store L) (expected : ℕ) (ms : List Mutation) : Type 0 where
    pub batch : List Op
    pub objects : ℕ
    pub roots : ℕ
    pub db : LevelDb.Db L
    pub well : s.poisoned ≡ false
    pub current : expected ≡ s.sequence
    pub gathered : Gathered L object_id s ms batch objects roots
    pub stored : write s.db batch ≡ some db
    pub now : s' ≡ record s { db = db; sequence = s.sequence + 1; objects = objects; roots = roots }

  pub transact-Written :
      (s s' : Store L) (expected : ℕ) (ms : List Mutation)
      → transact L object_id s expected ms ≡ (ok tt, s')
      → Written s s' expected ms
  unfolding transact
  transact-Written s s' expected ms h = elim (Result-cases (assemble L object_id s expected ms)) [
    | inr (e, bad) ↦ absurd (ground arith)
    | inl ((batch, objects, roots), good) ↦ elim (Option-cases (write s.db batch)) [
      | inl bad ↦ absurd (ground arith)
      | inr (db, stored) ↦
          let (well, current, g) = assemble-gather L object_id s expected ms good in
          record {
            batch = batch;
            objects = objects;
            roots = roots;
            db = db;
            well = well;
            current = current;
            gathered = gather-Gathered L object_id s ms batch objects roots g;
            stored = stored;
            now = ground arith;
          }
    ]
  ]

  pub Written-get :
      (s s' : Store L) (expected : ℕ) (ms : List Mutation) (w : Written s s' expected ms)
      (key : Bytes)
      → get s'.db key
        ≡ after
            (put (codes "M/sequence") (integer s'.sequence)
              ∷ put (codes "M/objects") (integer s'.objects)
              ∷ put (codes "M/roots") (integer s'.roots)
              ∷ [])
            key
            (after (root_ops w.gathered.prep.updates) key (after w.gathered.ops key (get s.db key)))
  Written-get s s' expected ms w key =
      rw
        (
          w.now,
          get-write s.db w.db w.batch key w.stored,
          w.gathered.batched,
          after-append,
          after-append,
        )
        refl

  pub IsBacked-empty : (s : Store L) → IsBacked L object_id s (empty L object_id s)
  unfolding lookup
  IsBacked-empty s = record {
    ordered = tt;
    sorted = tt;
    hashed = λ h v e. absurd (ground arith);
    backed = λ key id e. absurd (ground arith);
  }

  pub Written-root :
      (s s' : Store L) (expected : ℕ) (ms : List Mutation)
      → Written s s' expected ms
      → (key : Bytes)
      → get s'.db (root_of key) ≡ chosen (effect_on L object_id s key ms) (get s.db (root_of key))
  unfolding after bytes_eq lookup
  Written-root s s' expected ms w key =
      let g = w.gathered in
      let (b, says) =
        prepare-lem L object_id s (empty L object_id s) g.prep ms (IsBacked-empty s) g.prepared in
      rw
        (
          Written-get s s' expected ms w (root_of key),
          object_ops-root L object_id s g.prep.values s.objects w.objects g.ops key
              (get s.db (root_of key)) g.written,
        )
        (after-root_ops g.prep.updates key (get s.db (root_of key)) b.ordered ∙ rw (says key) refl)

  pub Written-object :
      (s s' : Store L) (expected : ℕ) (ms : List Mutation) (w : Written s s' expected ms)
      → (id : ObjectId)
      → get s'.db (object_of id)
        ≡ kept_or (get s.db (object_of id)) (lookup id w.gathered.prep.values)
  unfolding after bytes_eq
  Written-object s s' expected ms w id =
      let g = w.gathered in
      let (b, says) =
        prepare-lem L object_id s (empty L object_id s) g.prep ms (IsBacked-empty s) g.prepared in
      rw (Written-get s s' expected ms w (object_of id), after-root_ops_object g.prep.updates id)
        (object_ops-object L object_id s g.prep.values s.objects w.objects g.ops id b.sorted
          g.written)
