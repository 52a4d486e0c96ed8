-- ===== src/View/Runs/Compact.antt =====
-- Full compaction (`NamespaceView::compact_frozen`, daemon/metadata_view.cpp) keeps every lookup.
use forkfs.Common.{
  suc, ◌≡◌, refl, ◌∙◌, ap, true, none, some, List, [], ◌∷◌, ◌++◌, arith, All, Bool-cases, inl, inr,
  length, map,
}
use forkfs.Common.Bytes.{Bytes, bytes_eq, bytes_lt}
use forkfs.Common.Map.{Map, insert, erase, contains, IsOrdered}
use forkfs.Common.Result.{ok, >>=-eq-ok}
use forkfs.Keys.{root_key}
use forkfs.View.Run.{ObjectId, Changes, encode_run, decode_run}
use forkfs.View.Run.RoundTrip.{IsId, HasIds, decode_run-encode_run}
use forkfs.View.Run.Sound.{decode_run_sound}
use forkfs.View.Runs.{
  lookup_runs, apply_run, references, partition, encode_all, decode_all, encode_manifest, Plan,
  Frozen, compact_complete, compact_frozen,
}
use forkfs.View.Runs.Merge.{puts, lookup-references, references-IsOrdered}
use forkfs.View.Runs.Partition.{MapHasIds, partition-good, lookup_runs-partition}

decode_all-encode_all :
    (parts : List Changes) (objects : List Bytes)
    → All (λ part. IsOrdered part × HasIds part) parts
    → encode_all parts ≡ ok objects
    → (decode_all objects ≡ ok parts) × (length objects ≡ length parts)
unfolding encode_all decode_all
decode_all-encode_all [] objects g h = let e : objects ≡ [] = ground arith in rw e (refl, refl)
decode_all-encode_all (part ∷ parts) objects g h =
    let (payload, here, h1) = >>=-eq-ok (encode_run part) _ h in
    let (payloads, later, h2) = >>=-eq-ok (encode_all parts) _ h1 in
    let shape : objects ≡ payload ∷ payloads = ground arith in
    let (ih, size) = decode_all-encode_all parts payloads g.1 later in
    rw (shape, decode_run-encode_run part payload g.0.1 g.0.0 here, ih) (refl, ap suc size)

decode_all-good :
    (payloads : List Bytes) (runs : List Changes)
    → decode_all payloads ≡ ok runs
    → All IsOrdered runs × All HasIds runs
unfolding decode_all
decode_all-good [] runs h = let e : runs ≡ [] = ground arith in rw e (tt, tt)
decode_all-good (payload ∷ payloads) runs h =
    let (run, here, h1) = >>=-eq-ok (decode_run payload) _ h in
    let (rest, later, h2) = >>=-eq-ok (decode_all payloads) _ h1 in
    let shape : runs ≡ run ∷ rest = ground arith in
    let (o, ids, _) = decode_run_sound payload run here in
    let (os, idss) = decode_all-good payloads rest later in rw shape ((o, os), (ids, idss))

MapHasIds-insert :
    (k : Bytes) (id : ObjectId) (m : Map ObjectId)
    → IsId id
    → MapHasIds m
    → MapHasIds (insert k id m)
unfolding insert
MapHasIds-insert k id [] v h = (v, tt)
MapHasIds-insert k id ((j, w) ∷ m) v h = elim (Bool-cases (bytes_eq j k)) [
  | inl e ↦ rw e (v, h.1)
  | inr n ↦ rw n (elim (Bool-cases (bytes_lt k j)) [
    | inl l ↦ rw l (v, h)
    | inr g ↦ rw g (h.0, MapHasIds-insert k id m v h.1)
  ])
]

MapHasIds-erase : (k : Bytes) (m : Map ObjectId) → MapHasIds m → MapHasIds (erase k m)
unfolding erase
MapHasIds-erase k [] h = tt
MapHasIds-erase k ((j, w) ∷ m) h = elim (Bool-cases (bytes_eq j k)) [
  | inl e ↦ rw e (MapHasIds-erase k m h.1)
  | inr n ↦ rw n (h.0, MapHasIds-erase k m h.1)
]

MapHasIds-apply_run :
    (run : Changes) (m : Map ObjectId) → HasIds run → MapHasIds m → MapHasIds (apply_run run m)
unfolding apply_run
MapHasIds-apply_run [] m v h = h
MapHasIds-apply_run ((j, none) ∷ rest) m v h =
    MapHasIds-apply_run rest (erase j m) v.1 (MapHasIds-erase j m h)
MapHasIds-apply_run ((j, some id) ∷ rest) m v h =
    MapHasIds-apply_run rest (insert j id m) v.1 (MapHasIds-insert j id m v.0 h)

MapHasIds-references :
    (flat : Map ObjectId) (runs : List Changes)
    → All HasIds runs
    → MapHasIds flat
    → MapHasIds (references flat runs)
unfolding references
MapHasIds-references flat [] v h = h
MapHasIds-references flat (run ∷ runs) v h =
    MapHasIds-apply_run run (references flat runs) v.0 (MapHasIds-references flat runs v.1 h)

module _ (object_id : Bytes → ObjectId) where
  compact_complete-lookup :
      (complete : Map ObjectId) (plan : Plan)
      → IsOrdered complete
      → MapHasIds complete
      → compact_complete object_id complete ≡ ok plan
      → (decode_all plan.objects ≡ ok (partition 12 [] complete))
        × (plan.run_count ≡ length (partition 12 [] complete))
        × (contains root_key complete ≡ true)
  unfolding compact_complete
  compact_complete-lookup complete plan o v h = elim (Bool-cases (contains root_key complete)) [
    | inr lost ↦ absurd (ground arith)
    | inl kept ↦
        let h1 = rw kept at h in
        let (objects, encoded, h2) = >>=-eq-ok (encode_all (partition 12 [] complete)) _ h1 in
        let (manifest, _, h3) = >>=-eq-ok (encode_manifest (map object_id objects)) _ h2 in
        let (decoded, size) =
          decode_all-encode_all (partition 12 [] complete) objects (partition-good complete o v)
            encoded in
        let same : objects ≡ plan.objects = ground arith in
        let count : length objects ≡ plan.run_count = ground arith in
        (rw (← same) decoded, omega (arith, size, count), kept)
  ]

  -- If compaction of a frozen view succeeds (its flat part in key order with whole non-zero identities),
  -- then the frozen runs and the output objects all decode, the output runs give every key exactly what
  -- the input gave it (its runs, newest first, on top of its flat part), the namespace root is among the
  -- keys, and run_count is the number of output runs.
  pub compact_frozen-lookup :
      (input : Frozen) (plan : Plan)
      → IsOrdered input.flat
      → MapHasIds input.flat
      → compact_frozen object_id input ≡ ok plan
      → (runs : List Changes) × (out : List Changes) × (decode_all input.runs ≡ ok runs)
        × (decode_all plan.objects ≡ ok out)
        × ((k : Bytes) → lookup_runs out k ≡ lookup_runs (runs ++ (puts input.flat ∷ [])) k)
        × (contains root_key (references input.flat runs) ≡ true)
        × (plan.run_count ≡ length out)
  unfolding compact_frozen
  compact_frozen-lookup input plan o v h =
      let (runs, decoded, h1) = >>=-eq-ok (decode_all input.runs) _ h in
      let (os, ids) = decode_all-good input.runs runs decoded in
      let complete = references input.flat runs in
      let (objects, count, kept) =
        compact_complete-lookup complete plan (references-IsOrdered input.flat runs o)
          (MapHasIds-references input.flat runs ids v) h1 in
      (
        runs,
        partition 12 [] complete,
        decoded,
        objects,
        (λ k. lookup_runs-partition complete k ∙ lookup-references input.flat runs k os),
        kept,
        count,
      )
