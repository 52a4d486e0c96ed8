-- ===== src/Store/Objects.antt =====
-- What the objects of a batch of `LevelStore::transact` (daemon/level_store.cpp) do to the database.
use forkfs.Common.{
  ℕ, ◌+◌, ◌%◌, ◌^◌, ◌≡◌, refl, sym, false, ◌⊎◌, inl, inr, Option, none, some, List, [], ◌∷◌, arith,
  Option-cases,
}
use forkfs.Common.Bytes.{Bytes, bytes_eq, bytes_eq-cases}
use forkfs.Common.Map.{Map, lookup, IsOrdered, IsAbove-IsOrdered, lookup-head}
use forkfs.Common.Result.{ok, ◌>>=◌, >>=-eq-ok}
use forkfs.View.Run.{ObjectId}
use forkfs.Store.Backend.{Op, put, LevelDb, after}
use forkfs.Store.Transact.{Store, root_of, object_of, object_ops}

-- The value that stays: a stored object is never replaced.
abbrev pub kept_or : Option Bytes → Option Bytes → Option Bytes
kept_or (some old) new = some old
kept_or none new = new

kept_or-none : (old : Option Bytes) → kept_or old none ≡ old
kept_or-none none = refl
kept_or-none (some old) = refl

module _ (L : LevelDb) (object_id : Bytes → ObjectId) (s : Store L) where
  open L use {get}

  object_ops-new :
      (hash value : Bytes) (rest : Map Bytes) (n : ℕ)
      → get s.db (object_of hash) ≡ none
      → object_ops L object_id s ((hash, value) ∷ rest) n ≡ (do
        (ops', count') ← object_ops L object_id s rest ((n + 1) % 2 ^ 64)
        ok (put (object_of hash) value ∷ ops', count'))
  unfolding object_ops
  object_ops-new hash value rest n new = rw (object_ops, new) refl

  -- One value of the loop: stored and equal, or new.
  object_ops-shape :
      (hash value : Bytes) (rest : Map Bytes) (n count : ℕ) (ops : List Op)
      → object_ops L object_id s ((hash, value) ∷ rest) n ≡ ok (ops, count)
      → ((old : Bytes) × (get s.db (object_of hash) ≡ some old)
          × (object_ops L object_id s rest n ≡ ok (ops, count)))
        ⊎ ((ops' : List Op) × (get s.db (object_of hash) ≡ none)
            × (object_ops L object_id s rest ((n + 1) % 2 ^ 64) ≡ ok (ops', count))
            × (ops ≡ put (object_of hash) value ∷ ops'))
  unfolding object_ops
  object_ops-shape hash value rest n count ops h = elim (Option-cases (get s.db (object_of hash))) [
    | inl new ↦
        let h' = rw (object_ops-new hash value rest n new) at h in
        let ((ops', c), e, h1) =
          >>=-eq-ok (object_ops L object_id s rest ((n + 1) % 2 ^ 64)) _ h' in
        inr (ops', new, ground arith, ground arith)
    | inr (old, there) ↦ inl (old, there, ground arith)
  ]

  object_ops-nil :
      (n count : ℕ) (ops : List Op) → object_ops L object_id s [] n ≡ ok (ops, count) → [] ≡ ops
  unfolding object_ops
  object_ops-nil n count ops h = ground arith

  pub object_ops-root :
      (values : Map Bytes) (n count : ℕ) (ops : List Op) (key : Bytes) (old : Option Bytes)
      → object_ops L object_id s values n ≡ ok (ops, count)
      → after ops (root_of key) old ≡ old
  unfolding after bytes_eq
  object_ops-root [] n count ops key old h = let e = object_ops-nil n count ops h in rw (← e) refl
  object_ops-root ((hash, value) ∷ rest) n count ops key old h =
      elim (object_ops-shape hash value rest n count ops h) [
        | inl (_, _, e) ↦ object_ops-root rest n count ops key old e
        | inr (ops', _, e, shape) ↦ rw shape (object_ops-root rest _ count ops' key old e)
      ]

  -- A hash that the values do not hold is not written.
  object_ops-other :
      (values : Map Bytes) (n count : ℕ) (ops : List Op) (id : ObjectId) (old : Option Bytes)
      → lookup id values ≡ none
      → object_ops L object_id s values n ≡ ok (ops, count)
      → after ops (object_of id) old ≡ old
  unfolding after bytes_eq lookup
  object_ops-other [] n count ops id old f h = let e = object_ops-nil n count ops h in rw (← e) refl
  object_ops-other ((hash, value) ∷ rest) n count ops id old f h =
      let other : bytes_eq hash id ≡ false = ground arith in
      let f' : lookup id rest ≡ none = rw other at f in
      elim (object_ops-shape hash value rest n count ops h) [
        | inl (_, _, e) ↦ object_ops-other rest n count ops id old f' e
        | inr (ops', _, e, shape) ↦
            rw (shape, other) (object_ops-other rest _ count ops' id old f' e)
      ]

  pub object_ops-object :
      (values : Map Bytes) (n count : ℕ) (ops : List Op) (id : ObjectId)
      → IsOrdered values
      → object_ops L object_id s values n ≡ ok (ops, count)
      → after ops (object_of id) (get s.db (object_of id))
        ≡ kept_or (get s.db (object_of id)) (lookup id values)
  unfolding after bytes_eq lookup
  object_ops-object [] n count ops id o h =
      let e = object_ops-nil n count ops h in
      rw (← e) (sym (kept_or-none (get s.db (object_of id))))
  object_ops-object ((hash, value) ∷ rest) n count ops id o h =
      let o' = IsAbove-IsOrdered hash rest o in
      elim (bytes_eq-cases hash id) [
        | inl (same, eq) ↦ elim (object_ops-shape hash value rest n count ops h) [
          | inl (v, there, e) ↦
              let there' : get s.db (object_of id) ≡ some v = rw same at there in
              let ih = object_ops-object rest n count ops id o' e in rw there' (rw there' at ih)
          | inr (ops', new, e, shape) ↦
              let new' : get s.db (object_of id) ≡ none = rw same at new in
              let absent : lookup id rest ≡ none = rw same at (lookup-head hash rest o) in
              rw (shape, new', eq) (object_ops-other rest _ count ops' id (some value) absent e)
        ]
        | inr other ↦ elim (object_ops-shape hash value rest n count ops h) [
          | inl (_, _, e) ↦ rw other (object_ops-object rest n count ops id o' e)
          | inr (ops', _, e, shape) ↦
              rw (shape, other) (object_ops-object rest _ count ops' id o' e)
        ]
      ]
