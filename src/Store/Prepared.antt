-- ===== src/Store/Prepared.antt =====
-- What the loop of `LevelStore::transact` (daemon/level_store.cpp) has gathered at its end.
use forkfs.Common.{
  ◌≡◌, refl, ◌∙◌, ap, false, not, ◌&&◌, inl, inr, Option, none, some, List, [], ◌∷◌, length, leb,
  ltb, if◌then◌else◌, arith, Bool-cases, Option-cases,
}
use forkfs.Common.Bytes.{Bytes, bytes_eq, bytes_eq-cases}
use forkfs.Common.Map.{Map, lookup, insert, contains, lookup-insert, insert-IsOrdered}
use forkfs.Common.Result.{ok, ◌>>=◌, >>=-eq-ok}
use forkfs.View.Run.{ObjectId}
use forkfs.Store.Backend.{LevelDb}
use forkfs.Store.Transact.{Mutation, Prep, Store, root_of, is_some, update_of, prepare_one, prepare}
use forkfs.Store.Updates.{effect, IsBacked, update_of-Updated}

module _ (L : LevelDb) (object_id : Bytes → ObjectId) (s : Store L) where
  open L use {get}

  -- The last word of a batch on a root: its keys are all different.
  unfoldable pub effect_on : Bytes → List Mutation → Option (Option ObjectId)
  unfolding effect
  effect_on key [] = none
  effect_on key (m ∷ ms) =
      let rest = effect_on key ms in
      if bytes_eq m.key key then some (effect L object_id s m.reference m.value) else rest

  -- The call of update_of that a round of the loop succeeds by.
  prepare_one-shape :
      (p q : Prep) (m : Mutation)
      → prepare_one L object_id s p m ≡ ok q
      → (q' : Prep) × (u : Option ObjectId) × (update_of L object_id s p
            (is_some (get s.db (root_of m.key)))
            m.reference
            m.value
          ≡ ok (q', u))
        × (contains m.key p.updates ≡ false)
        × (q ≡ record q' { updates = insert m.key u q'.updates })
  unfolding prepare_one
  prepare_one-shape p q m h =
      elim (Bool-cases
        ((ltb 0 (length m.key) && leb (length m.key) 1024) && not (contains m.key p.updates))) [
          | inr n ↦ absurd (ground arith)
          | inl a ↦ elim (Bool-cases (not (is_some m.value && is_some m.reference))) [
            | inr n ↦ absurd (ground arith)
            | inl c ↦
                let h' : (do
                  (q, update) ←
                      update_of L object_id s p (is_some (get s.db (root_of m.key))) m.reference
                        m.value
                  ok (record q { updates = insert m.key update q.updates }))
                    ≡ ok q =
                  rw (a, c) at h in
                let ((q', u), found, h1) =
                  >>=-eq-ok
                    (update_of L object_id s p (is_some (get s.db (root_of m.key))) m.reference
                      m.value)
                    _ h' in
                (q', u, found, ground arith, ground arith)
          ]
        ]

  pub prepare_one-lem :
      (p q : Prep) (m : Mutation)
      → IsBacked L object_id s p
      → prepare_one L object_id s p m ≡ ok q
      → IsBacked L object_id s q
        × (contains m.key p.updates ≡ false)
        × (q.updates ≡ insert m.key (effect L object_id s m.reference m.value) p.updates)
  prepare_one-lem p q m b h =
      let (q', u, found, fresh, e) = prepare_one-shape p q m h in
      let up =
        update_of-Updated L object_id s p q' (is_some (get s.db (root_of m.key))) m.reference
          m.value u found in
      rw e (
        record {
          ordered = rw up.updates (insert-IsOrdered m.key u p.updates b.ordered);
          sorted = up.sorted b.sorted;
          hashed = up.hashed b.hashed;
          backed = λ key id f. elim (bytes_eq-cases m.key key) [
            | inl (same, eq) ↦
                let f' : some u ≡ some (some id) = rw (lookup-insert, eq) at f in up.backed id cc
            | inr n ↦ elim (b.backed key id (rw (lookup-insert, n, up.updates) at f)) [
              | inl (v, g) ↦ inl (v, up.kept id v g)
              | inr g ↦ inr g
            ]
          ];
        },
        fresh,
        rw (up.updates, up.effects) refl,
      )

  -- What was said of a root before, or what the rest of the batch says of it.
  abbrev pub settled :
      Option (Option ObjectId) → Option (Option ObjectId) → Option (Option ObjectId)
  settled none rest = rest
  settled (some update) rest = some update

  settled-insert :
      (key : Bytes) (m : Mutation) (updates : Map (Option ObjectId))
      (rest : Option (Option ObjectId))
      → contains m.key updates ≡ false
      → settled (lookup key (insert m.key (effect L object_id s m.reference m.value) updates)) rest
        ≡ settled
            (lookup key updates)
            (if bytes_eq m.key key then some (effect L object_id s m.reference m.value) else rest)
  settled-insert key m updates rest fresh = elim (bytes_eq-cases m.key key) [
    | inl (same, eq) ↦ elim (Option-cases (lookup key updates)) [
      | inl none_there ↦ rw (lookup-insert, eq, none_there) refl
      | inr (u, there) ↦ absurd (ground (arith, ap (λ k. lookup k updates) same))
    ]
    | inr n ↦ rw (lookup-insert, n) refl
  ]

  pub prepare-lem :
      (p q : Prep) (ms : List Mutation)
      → IsBacked L object_id s p
      → prepare L object_id s p ms ≡ ok q
      → IsBacked L object_id s q
        × ((key : Bytes) → lookup key q.updates ≡ settled (lookup key p.updates) (effect_on key ms))
  unfolding prepare effect_on
  prepare-lem p q [] b h = let e : p ≡ q = ground arith in rw (← e) (b, λ key. ground arith)
  prepare-lem p q (m ∷ ms) b h =
      let (r, one, rest) = >>=-eq-ok (prepare_one L object_id s p m) _ h in
      let (c, fresh, shape) = prepare_one-lem p r m b one in
      let (d, says) = prepare-lem r q ms c rest in
      (d, λ key. says key ∙ rw shape (settled-insert key m p.updates (effect_on key ms) fresh))
