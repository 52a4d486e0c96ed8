-- ===== src/Namespace/History.antt =====
-- Revisions and Worlds over the store: `revision_manifest`, `snapshot`, `fork`, `worlds`, `revisions` and
-- `recover_orphans` (daemon/namespace.cpp), for a repository whose journal is a `LevelStore`. What a
-- `NamespaceView` opened on a name shows is a parameter, and so is the scan of the root keys.
pub mod Names
mod Forks
pub mod Heads
mod Tests
use forkfs.Common.{
  ℕ, zero, suc, ◌+◌, Bool, true, false, not, ◌&&◌, ◌||◌, Option, none, some, List, [], ◌∷◌, ◌++◌,
  length, take, drop, leb, ltb, ◌==◌, if◌then◌else◌,
}
use forkfs.Common.Bytes.{Bytes, codes, bytes_eq}
use forkfs.Common.Result.{Result, ok, err, need, ◌>>=◌, ◌>>◌}
use forkfs.Codec.{store_le}
use forkfs.Keys.{history}
use forkfs.View.Run.{ObjectId, zero_id}
use forkfs.View.Runs.{Plan}
use forkfs.Store.Backend.{LevelDb}
use forkfs.Store.Transact.{Mutation, Store, root_of, is_some, healthy, object, transact}
use forkfs.Store.Transact as Transact
use forkfs.Namespace
use forkfs.Namespace.{View, hex_id}
use forkfs.Namespace.Names.{valid_view_name}

abbrev pub revision_key : Bytes → Bytes
revision_key name = history ++ (codes "revision/" ++ name)

abbrev pub world_key : Bytes → Bytes
world_key name = history ++ (codes "world/" ++ name)

abbrev pub base_key : Bytes → Bytes
base_key name = history ++ (codes "base/" ++ name)

abbrev pub object_key : ObjectId → Bytes
object_key id = history ++ (codes "object/" ++ hex_id id)

-- {key,value} and {key,nullopt,reference}
abbrev pub put_value : Bytes → Bytes → Mutation
put_value key value = record { key = key; value = some value; reference = none }

abbrev pub put_reference : Bytes → ObjectId → Mutation
put_reference key id = record { key = key; value = none; reference = some id }

abbrev pub delete_root : Bytes → Mutation
delete_root key = record { key = key; value = none; reference = none }

abbrev pub is_revision : Bytes → Bool
is_revision b = (length b == 80) && bytes_eq (take 8 b) (codes "FFREV001")

-- "FFREV001", the manifest, the parent revision and the sequence.
unfoldable pub descriptor : ObjectId → ObjectId → ℕ → Bytes
unfolding store_le
descriptor manifest parent_id sequence =
    codes "FFREV001" ++ (manifest ++ (parent_id ++ store_le 8 sequence))

module _ (L : LevelDb) (object_id : Bytes → ObjectId)
    (view_of : Store L → Bytes → Bool → Result View) where
  unfoldable pub contains : Store L → Bytes → Result Bool
  unfolding healthy
  contains s key = do healthy L object_id s; ok (is_some (LevelDb.get L s.db (root_of key)))

  unfoldable pub root : Store L → Bytes → Result ObjectId
  root s key = Transact.root L object_id s key

  -- Journal::get
  unfoldable pub get : Store L → Bytes → Result Bytes
  unfolding root object
  get s key = do id ← root s key; object L object_id s id

  unfoldable pub revision_manifest : Store L → Bytes → Result ObjectId
  unfolding valid_view_name get
  revision_manifest s name = do
    valid_view_name name
    b ← get s (revision_key name)
    need (is_revision b) "invalid revision record"
    ok (take 32 (drop 8 b))

  -- if(!j.contains(key))batch.push_back({key,payload}), for each payload.
  unfoldable pub absent_objects : Store L → List Bytes → Result (List Mutation)
  unfolding contains
  absent_objects s [] = ok []
  absent_objects s (payload ∷ rest) = do
    there ← contains s (object_key (object_id payload))
    more ← absent_objects s rest
    ok (if there then more else put_value (object_key (object_id payload)) payload ∷ more)

  -- The manifest of a World, with what has to be stored first if it is still flat (`plan`).
  unfoldable pub manifest_of : Store L → Bytes → Option Plan → Result (ObjectId × List Mutation)
  unfolding absent_objects root
  manifest_of s world (some plan) = do
    batch ← absent_objects s (plan.objects ++ (plan.manifest ∷ []))
    ok (object_id plan.manifest, batch)
  manifest_of s world none = do id ← root s (world_key world); ok (id, [])

  unfoldable pub parent_revision : Store L → Bytes → Result ObjectId
  unfolding contains get
  parent_revision s world = do
    there ← contains s (base_key world)
    if there
        then (get s (base_key world) >>= λ b.
            need (length b == 32) "invalid revision ancestry"
            >> (object L object_id s b >>= λ d.
                need (is_revision d) "invalid parent revision" >> ok b))
        else ok zero_id

  -- What `snapshot` commits, and the identity of the revision.
  unfoldable pub snapshot_batch :
      Store L → Bytes → Bool → Option Plan → Bytes → Result (List Mutation × ObjectId)
  unfolding valid_view_name contains manifest_of parent_revision descriptor
  snapshot_batch s world is_revision_view flat name = do
    valid_view_name name
    need (not is_revision_view) "revision view is read-only"
    there ← contains s (revision_key name)
    need (not there) "revision name already exists"
    view ← view_of s world false
    top ← Namespace.root view
    (manifest, objects) ← manifest_of s world flat
    parent_id ← parent_revision s world
    let d = descriptor manifest parent_id s.sequence
    ok (
      objects ++ (put_value (revision_key name) d ∷ put_value (base_key world) (object_id d) ∷ []),
      object_id d,
    )

  -- transact(sequence(),batch), and the value returned after it.
  unfoldable pub committed :
      {A : Type 0} → Store L → Result (List Mutation × A) → Result A × Store L
  committed s (err message) = (err message, s)
  committed s (ok (batch, result)) =
      let (r, s') = transact L object_id s s.sequence batch in ((r >> ok result), s')

  unfoldable pub snapshot : Store L → Bytes → Bool → Option Plan → Bytes → Result Bytes × Store L
  unfolding snapshot_batch committed hex_id
  snapshot s world is_revision_view flat name =
      committed s
        (snapshot_batch s world is_revision_view flat name >>= λ (batch, id). ok (batch, hex_id id))

  unfoldable pub fork_batch : Store L → Bool → Bytes → Bytes → Result (List Mutation × Unit {0})
  unfolding valid_view_name contains revision_manifest root
  fork_batch s is_revision_view revision world = do
    valid_view_name revision
    valid_view_name world
    need (not (bytes_eq world (codes "main"))) "main World already exists"
    need (not is_revision_view) "revision view is read-only"
    head ← contains s (world_key world)
    base ← contains s (base_key world)
    need (not head && not base) "World already exists"
    manifest ← revision_manifest s revision
    validated ← view_of s revision true
    top ← Namespace.root validated
    id ← root s (revision_key revision)
    ok (put_reference (world_key world) manifest ∷ put_value (base_key world) id ∷ [], tt)

  unfoldable pub fork : Store L → Bool → Bytes → Bytes → Result (Unit {0}) × Store L
  unfolding fork_batch committed
  fork s is_revision_view revision world =
      committed s (fork_batch s is_revision_view revision world)
