-- ===== src/Namespace/History/Forks.antt =====
-- What `snapshot`, `fork` and `revision_manifest` (daemon/namespace.cpp) read and commit when they return.
use forkfs.Common.{
  ℕ, ◌≡◌, ◌≢◌, refl, sym, ◌∙◌, ap, Bool, true, false, not, ◌&&◌, inl, inr, Option, none, some, List,
  [], ◌∷◌, ◌++◌, arith, length, take, drop, take-append, Option-cases, Bool-cases,
}
use forkfs.Common.Bytes.{Bytes, codes, bytes_eq, bytes_eq-eq, eq-bytes_eq, bytes_eq-cases}
use forkfs.Codec.{store_le}
use forkfs.Common.Result.{Result, ok, err, need, >>=-eq-ok, >>-eq-ok}
use forkfs.Namespace
use forkfs.Namespace.{View}
use forkfs.Namespace.Names.{valid_view_name}
use forkfs.View.Run.{ObjectId}
use forkfs.Store.Backend.{LevelDb}
use forkfs.Store.Transact
use forkfs.Store.Transact.{Mutation, Store, root_of, object_of, object, healthy, transact}
use forkfs.Store.Updates.{effect}
use forkfs.Store.Prepared.{effect_on}
use forkfs.Store.Roots.{chosen}
use forkfs.Store.Durable.{transact-commits, root-found}
use forkfs.Namespace.History
use forkfs.Namespace.History.{
  revision_key, world_key, base_key, put_value, put_reference, descriptor, committed, fork_batch,
  fork, contains, snapshot_batch, snapshot, revision_manifest, manifest_of, parent_revision,
  is_revision,
}

module _ (L : LevelDb) (object_id : Bytes → ObjectId)
    (view_of : Store L → Bytes → Bool → Result View) where
  open L use {get}

  -- A call that returned: its batch was committed on the current sequence.
  committed-inv :
      {A : Type 0} (s s' : Store L) (b : Result (List Mutation × A)) (a : A)
      → committed L object_id view_of s b ≡ (ok a, s')
      → (ms : List Mutation) × (b ≡ ok (ms, a))
        × (transact L object_id s s.sequence ms ≡ (ok tt, s'))
  unfolding committed
  committed-inv s s' (err m) a h = absurd (cc)
  committed-inv s s' (ok (ms, r)) a h =
      let (done, same) =
        >>-eq-ok (transact L object_id s s.sequence ms).0 (ok r) (ap (λ q. q.0) h) in
      (ms, cc, λ j. (done j, (h j).1))

  -- What the committed batch says of a key is what the key holds.
  pub committed-root :
      {A : Type 0} (s s' : Store L) (b : Result (List Mutation × A)) (a : A)
      → committed L object_id view_of s b ≡ (ok a, s')
      → (ms : List Mutation) × (b ≡ ok (ms, a))
        × ((key : Bytes)
            → get s'.db (root_of key)
              ≡ chosen (effect_on L object_id s key ms) (get s.db (root_of key)))
  committed-root s s' b a h =
      let (ms, e, t) = committed-inv s s' b a h in
      let (_, _, roots) = transact-commits L object_id s s' s.sequence ms t in (ms, e, roots)

  pub fork_batch-inv :
      (s : Store L) (rv : Bool) (revision world : Bytes) (ms : List Mutation)
      → fork_batch L object_id view_of s rv revision world ≡ ok (ms, tt)
      → (manifest : ObjectId) × (id : ObjectId) × (revision_manifest L object_id view_of s revision
          ≡ ok manifest)
        × (History.root L object_id view_of s (revision_key revision) ≡ ok id)
        × (ms ≡ put_reference (world_key world) manifest ∷ put_value (base_key world) id ∷ [])
  unfolding fork_batch
  fork_batch-inv s rv revision world ms h =
      let (_, h1) = >>-eq-ok (valid_view_name revision) _ h in
      let (_, h2) = >>-eq-ok (valid_view_name world) _ h1 in
      let (_, h3) =
        >>-eq-ok (need (not (bytes_eq world (codes "main"))) "main World already exists") _ h2 in
      let (_, h4) = >>-eq-ok (need (not rv) "revision view is read-only") _ h3 in
      let (head, _, h5) = >>=-eq-ok (contains L object_id view_of s (world_key world)) _ h4 in
      let (base, _, h6) = >>=-eq-ok (contains L object_id view_of s (base_key world)) _ h5 in
      let (_, h7) = >>-eq-ok (need (not head && not base) "World already exists") _ h6 in
      let (manifest, found, h8) =
        >>=-eq-ok (revision_manifest L object_id view_of s revision) _ h7 in
      let (validated, _, h9) = >>=-eq-ok (view_of s revision true) _ h8 in
      let (top, _, h10) = >>=-eq-ok (Namespace.root validated) _ h9 in
      let (id, rooted, h11) =
        >>=-eq-ok (History.root L object_id view_of s (revision_key revision)) _ h10 in
      (manifest, id, found, rooted, ground arith)

  pub snapshot_batch-inv :
      (s : Store L) (world name : Bytes) (ms : List Mutation) (result head parent_id : ObjectId)
      → History.root L object_id view_of s (world_key world) ≡ ok head
      → parent_revision L object_id view_of s world ≡ ok parent_id
      → snapshot_batch L object_id view_of s world false none name ≡ ok (ms, result)
      → ms
        ≡ put_value (revision_key name) (descriptor head parent_id s.sequence)
          ∷ put_value (base_key world) (object_id (descriptor head parent_id s.sequence))
          ∷ []
  unfolding snapshot_batch manifest_of
  snapshot_batch-inv s world name ms result head parent_id rooted based h =
      let (_, h1) = >>-eq-ok (valid_view_name name) _ h in
      let (there, _, h2) = >>=-eq-ok (contains L object_id view_of s (revision_key name)) _ h1 in
      let (_, h3) = >>-eq-ok (need (not there) "revision name already exists") _ h2 in
      let (view, _, h4) = >>=-eq-ok (view_of s world false) _ h3 in
      let (top, _, h5) = >>=-eq-ok (Namespace.root view) _ h4 in
      let h6 = rw (rooted, based) at h5 in cc

  object-hash :
      (s : Store L) (id : ObjectId) (v : Bytes) → object L object_id s id ≡ ok v → object_id v ≡ id
  unfolding object healthy
  object-hash s id v h = elim (Option-cases (get s.db (object_of id))) [
    | inl none_there ↦ absurd (ground arith)
    | inr (value, there) ↦ elim (Bool-cases (bytes_eq (object_id value) id)) [
      | inr other ↦ absurd (ground arith)
      | inl same ↦
          let e : value ≡ v = ground arith in rw (← e) (bytes_eq-eq (object_id value) id same)
    ]
  ]

  -- The root of a revision names a descriptor, and its manifest is the one in it.
  pub revision_manifest-inv :
      (s : Store L) (name manifest : Bytes) (d : Bytes)
      → revision_manifest L object_id view_of s name ≡ ok manifest
      → get s.db (root_of (revision_key name)) ≡ some (object_id d)
      → ((v : Bytes) → object_id v ≡ object_id d → v ≡ d)
      → manifest ≡ take 32 (drop 8 d)
  unfolding revision_manifest History.get History.root
  revision_manifest-inv s name manifest d h there unique =
      let (_, h1) = >>-eq-ok (valid_view_name name) _ h in
      let (b, got, h2) = >>=-eq-ok (History.get L object_id view_of s (revision_key name)) _ h1 in
      let (_, h3) = >>-eq-ok (need (is_revision b) "invalid revision record") _ h2 in
      let (id, rooted, read) =
        >>=-eq-ok (History.root L object_id view_of s (revision_key name)) _ got in
      let (found, _) = root-found L object_id s (revision_key name) id rooted in
      let same : id ≡ object_id d = cc in
      let whole = unique b (object-hash s id b read ∙ same) in
      let e : take 32 (drop 8 b) ≡ manifest = cc in
      sym e ∙ ap (λ (x : Bytes). take 32 (drop 8 x)) whole

  pub descriptor-manifest :
      (head parent_id : ObjectId) (sequence : ℕ)
      → length head ≡ 32
      → take 32 (drop 8 (descriptor head parent_id sequence)) ≡ head
  unfolding descriptor
  descriptor-manifest head parent_id sequence h =
      take-append 32 head (parent_id ++ store_le 8 sequence) h

  pub root-length :
      (s : Store L) (key : Bytes) (id : ObjectId)
      → History.root L object_id view_of s key ≡ ok id
      → length id ≡ 32
  unfolding History.root Transact.root healthy
  root-length s key id h = ground arith

  pub chosen-first :
      (s : Store L) (key : Bytes) (m : Mutation) (ms : List Mutation) (old : Option Bytes)
      → m.key ≡ key
      → chosen (effect_on L object_id s key (m ∷ ms)) old ≡ effect L object_id s m.reference m.value
  unfolding effect_on
  chosen-first s key m ms old same = rw (eq-bytes_eq m.key key same) refl

  pub chosen-other :
      (s : Store L) (key : Bytes) (m n : Mutation) (old : Option Bytes)
      → key ≢ m.key
      → key ≢ n.key
      → chosen (effect_on L object_id s key (m ∷ n ∷ [])) old ≡ old
  unfolding effect_on
  chosen-other s key m n old first second = elim (bytes_eq-cases m.key key) [
    | inl (same, _) ↦ absurd (first (sym same))
    | inr no_m ↦ elim (bytes_eq-cases n.key key) [
      | inl (same, _) ↦ absurd (second (sym same))
      | inr no_n ↦ rw (no_m, no_n) refl
    ]
  ]
