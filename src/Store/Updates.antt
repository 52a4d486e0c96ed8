-- ===== src/Store/Updates.antt =====
-- What one mutation adds in the loop of `LevelStore::transact` (daemon/level_store.cpp).
use forkfs.Common.{◌≡◌, refl, ap, Bool, ◌⊎◌, inl, inr, Option, none, some, arith, Option-cases}
use forkfs.Common.Bytes.{Bytes, bytes_eq_refl, bytes_eq-cases}
use forkfs.Common.Map.{lookup, insert, lookup-insert, IsOrdered, insert-IsOrdered}
use forkfs.Common.Result.{ok, >>=-eq-ok}
use forkfs.View.Run.{ObjectId}
use forkfs.Store.Backend.{LevelDb}
use forkfs.Store.Transact.{
  Prep, Store, object_of, count_up, healthy, object, collect_value, update_of,
}

module _ (L : LevelDb) (object_id : Bytes → ObjectId) (s : Store L) where
  open L use {get}

  -- The identity that a mutation gives its root; none deletes it.
  unfoldable pub effect : Option ObjectId → Option Bytes → Option ObjectId
  effect (some id) value = some id
  effect none (some value) = some (object_id value)
  effect none none = none

  -- Everything gathered so far is backed by an object: one in the batch, or one stored.
  pub record IsBacked (p : Prep) : Type 0 where
    pub ordered : IsOrdered p.updates
    pub sorted : IsOrdered p.values
    pub hashed : (h : ObjectId) (v : Bytes) → lookup h p.values ≡ some v → object_id v ≡ h
    pub backed :
        (key : Bytes) (id : ObjectId)
        → lookup key p.updates ≡ some (some id)
        → ((v : Bytes) × (lookup id p.values ≡ some v))
          ⊎ ((v : Bytes) × (get s.db (object_of id) ≡ some v))

  object-stored :
      (id : ObjectId) (v : Bytes)
      → object L object_id s id ≡ ok v
      → get s.db (object_of id) ≡ some v
  unfolding object healthy
  object-stored id v h = ground arith

  -- What update_of has done: the new identity is the effect of the mutation and is backed.
  pub record Updated (p q : Prep) (reference : Option ObjectId) (value : Option Bytes)
      (u : Option ObjectId) : Type 0 where
    pub updates : q.updates ≡ p.updates
    pub effects : u ≡ effect reference value
    pub sorted : IsOrdered p.values → IsOrdered q.values
    pub kept : (h : ObjectId) (v : Bytes) → lookup h p.values ≡ some v → lookup h q.values ≡ some v
    pub hashed :
        ((h : ObjectId) (v : Bytes) → lookup h p.values ≡ some v → object_id v ≡ h)
        → (h : ObjectId) (v : Bytes) → lookup h q.values ≡ some v
        → object_id v ≡ h
    pub backed :
        (id : ObjectId)
        → u ≡ some id
        → ((v : Bytes) × (lookup id q.values ≡ some v))
          ⊎ ((v : Bytes) × (get s.db (object_of id) ≡ some v))

  collect_value-new :
      (p : Prep) (value : Bytes)
      → lookup (object_id value) p.values ≡ none
      → (collect_value L object_id p value).values ≡ insert (object_id value) value p.values
  unfolding collect_value
  collect_value-new p value h = ground arith

  collect_value-old :
      (p : Prep) (value w : Bytes)
      → lookup (object_id value) p.values ≡ some w
      → (collect_value L object_id p value).values ≡ p.values
  unfolding collect_value
  collect_value-old p value w h = ground arith

  collect_value-updates :
      (p : Prep) (value : Bytes) → (collect_value L object_id p value).updates ≡ p.updates
  unfolding collect_value
  collect_value-updates p value = ground arith

  collect_value-keeps :
      (p : Prep) (value : Bytes) (h : ObjectId) (v : Bytes)
      → lookup h p.values ≡ some v
      → lookup h (collect_value L object_id p value).values ≡ some v
  collect_value-keeps p value h v e = elim (Option-cases (lookup (object_id value) p.values)) [
    | inl new ↦
        rw (collect_value-new p value new, lookup-insert)
          (elim (bytes_eq-cases (object_id value) h) [
            | inl (same, _) ↦ absurd (ground (arith, ap (λ k. lookup k p.values) same))
            | inr n ↦ rw n e
          ])
    | inr (w, old) ↦ rw (collect_value-old p value w old) e
  ]

  collect_value-hashed :
      (p : Prep) (value : Bytes)
      → ((h : ObjectId) (v : Bytes) → lookup h p.values ≡ some v → object_id v ≡ h)
      → (h : ObjectId) (v : Bytes) → lookup h (collect_value L object_id p value).values ≡ some v
      → object_id v ≡ h
  collect_value-hashed p value k h v e = elim (Option-cases (lookup (object_id value) p.values)) [
    | inl new ↦
        let e' = rw (collect_value-new p value new, lookup-insert) at e in
        elim (bytes_eq-cases (object_id value) h) [
          | inl (same, eq) ↦ let w : value ≡ v = ground arith in rw (← w) same
          | inr n ↦ k h v (ground arith)
        ]
    | inr (w, old) ↦ k h v (rw (collect_value-old p value w old) at e)
  ]

  collect_value-sorted :
      (p : Prep) (value : Bytes)
      → IsOrdered p.values
      → IsOrdered (collect_value L object_id p value).values
  collect_value-sorted p value o = elim (Option-cases (lookup (object_id value) p.values)) [
    | inl new ↦
        rw (collect_value-new p value new) (insert-IsOrdered (object_id value) value p.values o)
    | inr (w, old) ↦ rw (collect_value-old p value w old) o
  ]

  collect_value-has :
      (p : Prep) (value : Bytes)
      → (v : Bytes) × (lookup (object_id value) (collect_value L object_id p value).values ≡ some v)
  collect_value-has p value = elim (Option-cases (lookup (object_id value) p.values)) [
    | inl new ↦ (value, rw (collect_value-new p value new, lookup-insert, bytes_eq_refl))
    | inr (w, old) ↦ (w, rw (collect_value-old p value w old) old)
  ]

  pub update_of-Updated :
      (p q : Prep) (exists : Bool) (reference : Option ObjectId) (value : Option Bytes)
      (u : Option ObjectId)
      → update_of L object_id s p exists reference value ≡ ok (q, u)
      → Updated p q reference value u
  unfolding update_of effect
  update_of-Updated p q exists (some id) value u h =
      let (payload, found, h1) = >>=-eq-ok (object L object_id s id) _ h in
      let same_values : p.values ≡ q.values = ground arith in
      record {
        updates = ground arith;
        effects = ground arith;
        sorted = λ o. rw (← same_values) o;
        kept = λ k v e. ground arith;
        hashed = λ f k v e. f k v (ground arith);
        backed = λ i e. inr (
          payload,
          (let same : id ≡ i = ground arith in rw (← same) (object-stored id payload found)),
        );
      }
  update_of-Updated p q exists none (some value) u h =
      let c = collect_value L object_id p value in
      let shape : (record c { roots = count_up exists p.roots } ≡ q)
          × (some (object_id value) ≡ u) =
        ground arith in
      rw (← shape.0, ← shape.1)
        (record {
          updates = collect_value-updates p value;
          effects = refl;
          sorted = collect_value-sorted p value;
          kept = collect_value-keeps p value;
          hashed = collect_value-hashed p value;
          backed = λ i e.
              let same : object_id value ≡ i = ground arith in
              rw (← same) (inl (collect_value-has p value));
        })
  update_of-Updated p q exists none none u h =
      let same_values : p.values ≡ q.values = ground arith in
      record {
        updates = ground arith;
        effects = ground arith;
        sorted = λ o. rw (← same_values) o;
        kept = λ k v e. ground arith;
        hashed = λ f k v e. f k v (ground arith);
        backed = λ i e. absurd (ground arith);
      }
