-- ===== src/View/Tests.antt =====
-- A namespace of two runs, an old one with two keys and a newer one that deletes a key, compacted.
use forkfs.Common.{
  ℕ, ◌+◌, ◌*◌, ◌%◌, ◌≤◌, ◌≡◌, refl, true, none, some, List, [], ◌∷◌, ◌++◌, arith, length, replicate,
  map, All, if◌then◌else◌,
}
use forkfs.Common.Bytes.{Bytes, codes, bytes_eq, bytes_lt, starts_with}
use forkfs.Common.Map.{IsOrdered, lookup, insert, erase, contains}
use forkfs.Common.Result.{ok}
use forkfs.Codec.{store_le, load_le, u32}
use forkfs.Keys.{prefix, root_key}
use forkfs.View.Run.{
  ObjectId, Changes, magic, encode_run, encode_entries, valid_keys, entry_bytes, decode_run,
  decode_entries, decode_entry, decode_value,
}
use forkfs.View.Run.RoundTrip.{HasIds, decode_run-encode_run}
use forkfs.View.Run.Sound.{KeysValid, decode_run_sound}
use forkfs.View.Runs.{
  lookup_runs, references, partition, encode_all, decode_all, encode_manifest, Plan, Frozen,
  compact_frozen,
}
use forkfs.View.Runs.Merge.{puts, over, lookup-references}
use forkfs.View.Runs.Partition.{partition-small}
use forkfs.View.Runs.Compact.{compact_frozen-lookup}
use forkfs.View.Plan.{push_run, lookup_runs-push_run}

-- A stand-in for the hash: the length of the object.
abbrev sample_id : Bytes → ObjectId
sample_id b = replicate 31 7 ++ (length b % 256) ∷ []

abbrev id_a : ObjectId
id_a = replicate 32 1

abbrev id_b : ObjectId
id_b = replicate 32 2

abbrev x_key : Bytes
x_key = prefix ++ codes "x"

abbrev old_changes : Changes
old_changes = (root_key, some id_a) ∷ (x_key, some id_b) ∷ []

abbrev new_changes : Changes
new_changes = (x_key, none) ∷ []

abbrev entry_of : Bytes → ℕ → ObjectId → Bytes
entry_of key op id = op ∷ 0 ∷ 0 ∷ 0 ∷ length key ∷ 0 ∷ 0 ∷ 0 ∷ (key ++ id)

abbrev old_run : Bytes
old_run = codes "FFRUN001" ++ (2 ∷ 0 ∷ 0 ∷ 0 ∷ (entry_of root_key 1 id_a ++ entry_of x_key 1 id_b))

abbrev new_run : Bytes
new_run = codes "FFRUN001" ++ (1 ∷ 0 ∷ 0 ∷ 0 ∷ entry_of x_key 2 (replicate 32 0))

encode_old : encode_run old_changes ≡ ok old_run
unfolding encode_run encode_entries valid_keys entry_bytes store_le starts_with
encode_old = refl

old_ids : HasIds old_changes
unfolding bytes_eq
old_ids = ((refl, refl), ((refl, refl), tt))

old-IsOrdered : IsOrdered old_changes
unfolding bytes_lt
old-IsOrdered = (refl, tt)

decode_run-encode_run_example : decode_run old_run ≡ ok old_changes
decode_run-encode_run_example =
    decode_run-encode_run old_changes old_run old_ids old-IsOrdered encode_old

decode_new : decode_run new_run ≡ ok new_changes
unfolding decode_run magic bytes_eq u32 load_le decode_entries decode_entry decode_value starts_with
decode_new = refl

decode_run_sound_example : IsOrdered new_changes × HasIds new_changes × KeysValid new_changes
decode_run_sound_example = decode_run_sound new_run new_changes decode_new

newest_run_wins :
    lookup x_key (references [] (new_changes ∷ old_changes ∷ []))
    ≡ lookup_runs ((new_changes ∷ old_changes ∷ []) ++ (puts [] ∷ [])) x_key
newest_run_wins =
    lookup-references [] (new_changes ∷ old_changes ∷ []) x_key (tt, (old-IsOrdered, tt))

abbrev kept_run : Bytes
kept_run = codes "FFRUN001" ++ (1 ∷ 0 ∷ 0 ∷ 0 ∷ entry_of root_key 1 id_a)

abbrev input : Frozen
input = record { flat = []; runs = new_run ∷ old_run ∷ [] }

abbrev compacted : Plan
compacted = record {
  objects = kept_run ∷ [];
  manifest = codes "FFMAN002" ++ (1 ∷ 0 ∷ 0 ∷ 0 ∷ sample_id kept_run);
  run_count = 1;
}

compacts : compact_frozen sample_id input ≡ ok compacted
unfolding compact_frozen decode_all decode_run magic bytes_eq bytes_lt u32 load_le decode_entries
    decode_entry decode_value starts_with references insert erase lookup partition encode_all
    encode_run encode_entries valid_keys entry_bytes store_le encode_manifest
compacts = refl

compact_frozen-lookup_example :
    (runs : List Changes) × (out : List Changes) × (decode_all input.runs ≡ ok runs)
    × (decode_all compacted.objects ≡ ok out)
    × ((k : Bytes) → lookup_runs out k ≡ lookup_runs (runs ++ (puts input.flat ∷ [])) k)
    × (contains root_key (references input.flat runs) ≡ true)
    × (compacted.run_count ≡ length out)
compact_frozen-lookup_example = compact_frozen-lookup sample_id input compacted tt tt compacts

partition-small_at_input :
    All (λ part. 12 + entry_bytes part ≤ 64 * 1024) (partition 12 [] ((root_key, id_a) ∷ []))
unfolding entry_bytes
partition-small_at_input =
    partition-small 12 [] ((root_key, id_a) ∷ []) (omega arith) (unfold entry_bytes in refl)
      (omega arith)

abbrev run_at : ObjectId → Changes
run_at id = if bytes_eq id id_a then old_changes else new_changes

lookup_runs-push_run_at_input :
    lookup_runs (map run_at (push_run id_b (id_a ∷ id_b ∷ []))) x_key
    ≡ over (lookup x_key (run_at id_b)) (lookup_runs (map run_at (id_a ∷ id_b ∷ [])) x_key)
lookup_runs-push_run_at_input = lookup_runs-push_run run_at id_b x_key (id_a ∷ id_b ∷ [])
