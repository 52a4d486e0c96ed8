-- ===== src/Namespace/History/Heads.antt =====
-- The heads of Worlds after `snapshot` and `fork` (daemon/namespace.cpp).
use forkfs.Common.{◌≡◌, ◌≢◌, refl, Bool, ◌∙◌, ap, false, none, some}
use forkfs.Common.Bytes.{Bytes}
use forkfs.Common.Result.{Result, ok, ◌>>=◌, >>=-eq-ok}
use forkfs.Namespace.{View, hex_id}
use forkfs.View.Run.{ObjectId}
use forkfs.Store.Backend.{LevelDb}
use forkfs.Store.Transact.{Store, root_of}
use forkfs.Store.Updates.{effect}
use forkfs.Namespace.History
use forkfs.Namespace.History.{
  revision_key, world_key, base_key, put_value, put_reference, descriptor, snapshot_batch, snapshot,
  fork_batch, fork, parent_revision,
}
use forkfs.Namespace.History.Forks.{
  committed-root, fork_batch-inv, snapshot_batch-inv, revision_manifest-inv, descriptor-manifest,
  root-length, chosen-first, chosen-other,
}

module _ (L : LevelDb) (object_id : Bytes → ObjectId)
    (view_of : Store L → Bytes → Bool → Result View) where
  open L use {get}

  -- After a snapshot the revision's root is its descriptor, and only it and the World's base are written.
  snapshot_roots :
      (s s1 : Store L) (world name hex : Bytes) (head parent_id : ObjectId)
      → History.root L object_id view_of s (world_key world) ≡ ok head
      → parent_revision L object_id view_of s world ≡ ok parent_id
      → snapshot L object_id view_of s world false none name ≡ (ok hex, s1)
      → (get s1.db (root_of (revision_key name))
          ≡ some (object_id (descriptor head parent_id s.sequence)))
        × ((key : Bytes)
            → key ≢ revision_key name
            → key ≢ base_key world
            → get s1.db (root_of key) ≡ get s.db (root_of key))
  unfolding snapshot effect
  snapshot_roots s s1 world name hex head parent_id rooted based h =
      let (ms, e, roots) =
        committed-root L object_id view_of s s1
          (snapshot_batch L object_id view_of s world false none name >>= λ (batch, id).
            ok (batch, hex_id id))
          hex h in
      let ((batch, id), made, shown) =
        >>=-eq-ok (snapshot_batch L object_id view_of s world false none name) _ e in
      let shape =
        snapshot_batch-inv L object_id view_of s world name batch id head parent_id rooted based
          made in
      let same : ms ≡ batch = cc in
      let roots' = rw (same ∙ shape) at roots in
      (
        roots' (revision_key name)
            ∙ chosen-first L object_id view_of s (revision_key name) _ _ _ refl,
        λ key a b. roots' key ∙ chosen-other L object_id view_of s key _ _ _ a b,
      )

  -- A snapshot of a World, and a fork of that revision: the new World has the head that the World had, and
  -- every root but the four that they name, of other Worlds and of the World itself too, is as it was.
  -- The descriptor's hash is taken to be the hash of no other object.
  pub snapshot-fork :
      (s s1 s2 : Store L) (world name new hex : Bytes) (head parent_id : ObjectId)
      → History.root L object_id view_of s (world_key world) ≡ ok head
      → parent_revision L object_id view_of s world ≡ ok parent_id
      → ((v : Bytes)
          → object_id v ≡ object_id (descriptor head parent_id s.sequence)
          → v ≡ descriptor head parent_id s.sequence)
      → snapshot L object_id view_of s world false none name ≡ (ok hex, s1)
      → fork L object_id view_of s1 false name new ≡ (ok tt, s2)
      → (get s2.db (root_of (world_key new)) ≡ some head)
        × ((key : Bytes)
            → key ≢ revision_key name
            → key ≢ base_key world
            → key ≢ world_key new
            → key ≢ base_key new
            → get s2.db (root_of key) ≡ get s.db (root_of key))
  unfolding fork effect
  snapshot-fork s s1 s2 world name new hex head parent_id rooted based unique h k =
      let (there, kept) = snapshot_roots s s1 world name hex head parent_id rooted based h in
      let (ms, e, roots) =
        committed-root L object_id view_of s1 s2 (fork_batch L object_id view_of s1 false name new)
          tt k in
      let (manifest, id, found, _, shape) =
        fork_batch-inv L object_id view_of s1 false name new ms e in
      let taken =
        revision_manifest-inv L object_id view_of s1 name manifest
          (descriptor head parent_id s.sequence) found there unique in
      let same =
        taken
        ∙ descriptor-manifest L object_id view_of head parent_id s.sequence
            (root-length L object_id view_of s (world_key world) head rooted) in
      let roots' = rw shape at roots in
      (
        roots' (world_key new)
            ∙ (chosen-first L object_id view_of s1 (world_key new) _ _ _ refl ∙ ap some same),
        λ key a b c d.
            roots' key ∙ (chosen-other L object_id view_of s1 key _ _ _ c d ∙ kept key a b),
      )
