-- ===== src/Namespace/Links/Tests.antt =====
-- A file that is renamed (daemon/namespace.cpp).
use forkfs.Common.{ℕ, ◌+◌, ◌≡◌, refl, false, [], replicate}
use forkfs.Common.Bytes.{Bytes, codes, bytes_eq, bytes_lt, starts_with}
use forkfs.Common.Map.{lookup, insert, erase}
use forkfs.Common.Result.{Result, ok, err, ◌>>=◌}
use forkfs.Codec.{load_le}
use forkfs.Namespace.{new_id_from, hex_id, valid_id, decode_id, id_bytes, get, keys, root}
use forkfs.Namespace.Changes.{
  World, Changes, publish, commit_changes, applied, orphan_changes, view_changes, allocates,
}
use forkfs.Namespace.Walk.{walk_from}
use forkfs.Namespace.Files.{initialize, write}
use forkfs.Namespace.Links.{rename_changes}
use forkfs.Namespace.Links.Moved.{Renames, rename_changes-Renames}

abbrev empty : World
empty = record {
  name = codes "main";
  revision = false;
  view = record { records = []; allocated = λ id. false };
  orphans = [];
  runs = 0;
  open_counts = λ id. 0;
}

abbrev draw : ℕ → ℕ → Bytes
draw k attempt = replicate 16 k

abbrev clock : ℕ → ℕ
clock k = 1000 + k

abbrev world_of : {A : Type 0} → Result (A × World) → World
world_of (ok (_, w)) = w
world_of (err _) = empty

-- A view whose one file is "/f".
named : World
unfolding initialize write publish commit_changes applied orphan_changes view_changes allocates
    lookup insert erase bytes_eq bytes_lt starts_with hex_id valid_id decode_id id_bytes get keys
    root new_id_from walk_from load_le
named = world_of (
    initialize clock (draw 1) empty >>= λ (_, w).
    write clock (draw 2) w (codes "/f") (codes "hello"))

abbrev changes_of : Result Changes → Changes
changes_of (ok c) = c
changes_of (err _) = []

changes : Changes
unfolding named rename_changes
changes = changes_of (rename_changes clock named named.view (codes "/f") (codes "/g"))

renamed : rename_changes clock named named.view (codes "/f") (codes "/g") ≡ ok changes
unfolding changes
renamed = refl

rename_changes-Renames_example : Renames named.view (codes "/f") (codes "/g") changes
rename_changes-Renames_example =
    rename_changes-Renames clock named named.view (codes "/f") (codes "/g") changes renamed
