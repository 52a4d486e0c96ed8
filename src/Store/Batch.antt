-- ===== src/Store/Batch.antt =====
-- What `LevelStore::transact` (daemon/level_store.cpp) has gathered when it writes its batch.
use forkfs.Common.{
  ℕ, ◌+◌, ◌≡◌, refl, false, ◌&&◌, ◌⊎◌, inl, inr, List, [], ◌∷◌, ◌++◌, length, leb, ltb, ◌==◌,
  String, arith, Bool-cases,
}
use forkfs.Common.Bytes.{Bytes, codes}
use forkfs.Common.Result.{ok, err, >>=-eq-ok}
use forkfs.View.Run.{ObjectId}
use forkfs.Store.Backend.{Op, put, LevelDb}
use forkfs.Store.Transact.{
  Mutation, Prep, Store, root_ops, healthy, prepare, object_ops, assemble, integer, empty, batch_of,
  gather, uint64_max,
}

module _ (L : LevelDb) (object_id : Bytes → ObjectId) where
  open L use {get, write, get-write}

  -- What was gathered for a batch that was assembled.
  pub record Gathered (s : Store L) (ms : List Mutation) (batch : List Op) (objects roots : ℕ)
      : Type 0 where
    pub prep : Prep
    pub ops : List Op
    pub prepared : prepare L object_id s (empty L object_id s) ms ≡ ok prep
    pub written : object_ops L object_id s prep.values s.objects ≡ ok (ops, objects)
    pub batched : batch ≡ (
        ops
        ++ (root_ops prep.updates
            ++ (put (codes "M/sequence") (integer (s.sequence + 1))
                ∷ put (codes "M/objects") (integer objects)
                ∷ put (codes "M/roots") (integer roots)
                ∷ [])))

  healthy-cases :
      (s : Store L)
      → ((healthy L object_id s ≡ ok tt) × (s.poisoned ≡ false))
        ⊎ ((m : String) × (healthy L object_id s ≡ err m))
  unfolding healthy
  healthy-cases s = elim (Bool-cases s.poisoned) [
    | inl bad ↦ inr ("LevelDB store requires reopen after write failure", rw bad refl)
    | inr well ↦ inl (rw well refl, well)
  ]

  batch_of-inv :
      (s : Store L) (p : Prep) (batch : List Op) (objects roots : ℕ)
      → batch_of L object_id s p ≡ ok (batch, objects, roots)
      → (ops : List Op) × (object_ops L object_id s p.values s.objects ≡ ok (ops, objects))
        × (batch ≡ (
            ops
            ++ (root_ops p.updates
                ++ (put (codes "M/sequence") (integer (s.sequence + 1))
                    ∷ put (codes "M/objects") (integer objects)
                    ∷ put (codes "M/roots") (integer roots)
                    ∷ []))))
  unfolding batch_of
  batch_of-inv s p batch objects roots h =
      let ((ops, count), written, h2) =
        >>=-eq-ok (object_ops L object_id s p.values s.objects) _ h in
      let c : count ≡ objects = ground arith in
      let r : p.roots ≡ roots = ground arith in
      (ops, rw (← c) written, rw (← c, ← r) (ground arith))

  pub gather-Gathered :
      (s : Store L) (ms : List Mutation) (batch : List Op) (objects roots : ℕ)
      → gather L object_id s ms ≡ ok (batch, objects, roots)
      → Gathered s ms batch objects roots
  unfolding gather
  gather-Gathered s ms batch objects roots h =
      let (p, prepared, h1) = >>=-eq-ok (prepare L object_id s (empty L object_id s) ms) _ h in
      let (ops, written, shape) = batch_of-inv s p batch objects roots h1 in
      record { prep = p; ops = ops; prepared = prepared; written = written; batched = shape }

  pub assemble-gather :
      (s : Store L) (expected : ℕ) (ms : List Mutation) {r : List Op × ℕ × ℕ}
      → assemble L object_id s expected ms ≡ ok r
      → (s.poisoned ≡ false) × (expected ≡ s.sequence) × (gather L object_id s ms ≡ ok r)
  unfolding assemble
  assemble-gather s expected ms h = elim (healthy-cases s) [
    | inr (m, bad) ↦ absurd (ground arith)
    | inl (fine, well) ↦ elim (Bool-cases (expected == s.sequence)) [
      | inr n ↦ absurd (ground arith)
      | inl c ↦ elim (Bool-cases (s.sequence == uint64_max)) [
        | inl n ↦ absurd (ground arith)
        | inr x ↦ elim (Bool-cases (ltb 0 (length ms) && leb (length ms) 4096)) [
          | inr n ↦ absurd (ground arith)
          | inl k ↦ (well, ground arith, rw (fine, c, x, k) at h)
        ]
      ]
    ]
  ]
