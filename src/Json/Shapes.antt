-- ===== src/Json/Shapes.antt =====
-- How each record is printed (cli/json.h): its members in the order in which they are written.
use forkfs.Common.{Option, none, some, List, [], ◌∷◌, if◌then◌else◌}
use forkfs.Common.Bytes.{Bytes, codes}
use forkfs.Json.Records.{
  SnapshotRec, WorldRec, GitInfo, RevisionRec, RevisionChange, TrashStat, json_state,
  json_change_code, json_coverage, json_origin, world_origin,
}
use forkfs.Json.Writer.{
  open_json, close_json, Member, text, number, signed, flag, id, object_text, write, write_members,
}

-- The members of each record, in the order in which they are written.
unfoldable pub snapshot_members : SnapshotRec → List Member
snapshot_members v =
    number "schema_version" 1
    ∷ text "kind" (codes "snapshot")
    ∷ id "id" b'S' v.id
    ∷ text "name" v.name
    ∷ text "path" v.path
    ∷ text "src_path" v.src_path
    ∷ id "from_world" b'W' v.from_world
    ∷ text "state" (json_state v.state)
    ∷ signed "created_at" v.created_at
    ∷ signed "trashed_at" v.trashed_at
    ∷ number "entries" v.entries
    ∷ number "hardlinks" v.hardlinks
    ∷ number "hl_groups" v.hl_groups
    ∷ number "hl_external" v.hl_external
    ∷ number "root_mode" v.root_mode
    ∷ text "protection" (if v.hard then codes "hard" else codes "gate")
    ∷ []

unfoldable pub world_members : WorldRec → List Member
world_members v =
    number "schema_version" 1
    ∷ text "kind" (codes "world")
    ∷ id "id" b'W' v.id
    ∷ text "name" v.name
    ∷ text "path" v.path
    ∷ text "state" (json_state v.state)
    ∷ id "parent_world" b'W' v.parent_world
    ∷ id "snapshot_id" b'S' v.snapshot_id
    ∷ text "origin" (world_origin v.origin)
    ∷ signed "created_at" v.created_at
    ∷ signed "trashed_at" v.trashed_at
    ∷ number "entries" v.entries
    ∷ number "dir_dev" v.dir_dev
    ∷ number "dir_ino" v.dir_ino
    ∷ number "fsevents_id" v.fsevents_id
    ∷ flag "present" v.present
    ∷ []

unfoldable pub git_members : GitInfo → List Member
git_members git =
    text "branch" git.branch
    ∷ text "head" git.head
    ∷ text "baseline" git.baseline
    ∷ text "git_dir" git.git_dir
    ∷ []

unfoldable pub revision_members : RevisionRec → List Member
revision_members v =
    number "schema_version" 1
    ∷ text "kind" (codes "revision")
    ∷ id "id" b'R' v.id
    ∷ id "world_id" b'W' v.world_id
    ∷ id "parent_revision" b'R' v.parent_revision
    ∷ id "baseline_snapshot" b'S' v.baseline_snapshot
    ∷ text "origin" (json_origin v.origin)
    ∷ text "coverage" (json_coverage v.coverage)
    ∷ text "actor_id" v.actor_id
    ∷ text "turn_id" v.turn_id
    ∷ text "tool_call_id" v.tool_call_id
    ∷ text "git_head" v.git_head
    ∷ signed "capture_started_at" v.capture_started_at
    ∷ signed "capture_finished_at" v.capture_finished_at
    ∷ signed "created_at" v.created_at
    ∷ number "changes" v.changes
    ∷ number "added" v.added
    ∷ number "modified" v.modified
    ∷ number "deleted" v.deleted
    ∷ number "meta" v.meta
    ∷ []

unfoldable pub revision_change_members : RevisionChange → List Member
revision_change_members c =
    number "file_id" c.file_id
    ∷ text "change" (json_change_code c.change)
    ∷ text "path" c.path
    ∷ text "before_hash" c.before_hash
    ∷ text "after_hash" c.after_hash
    ∷ number "size" c.size
    ∷ number "mode" c.mode
    ∷ []

unfoldable pub trash_members : TrashStat → List Member
trash_members ts =
    number "schema_version" 1
    ∷ number "entries" ts.entries
    ∷ number "deleting" ts.deleting
    ∷ number "due" ts.due
    ∷ number "worlds" ts.worlds
    ∷ number "snapshots" ts.snapshots
    ∷ number "tree_entries" ts.tree_entries
    ∷ number "bytes_estimate" ts.bytes_estimate
    ∷ number "volume_free_bytes" ts.volume_free_bytes
    ∷ number "volume_total_bytes" ts.volume_total_bytes
    ∷ number "creating_stranded" ts.creating_stranded
    ∷ number "pool_stranded" ts.pool_stranded
    ∷ number "dirs_unreadable" ts.dirs_unreadable
    ∷ number "dirs_unreadable_errno" ts.dirs_unreadable_errno
    ∷ number "trash_blocked" ts.trash_blocked
    ∷ number "trash_foreign" ts.trash_foreign
    ∷ number "worker_done" ts.worker_done
    ∷ number "worker_remaining" ts.worker_remaining
    ∷ signed "worker_pid" ts.worker_pid
    ∷ signed "worker_started_at" ts.worker_started_at
    ∷ text "dirs_unreadable_path" ts.dirs_unreadable_path
    ∷ text "blocked_path" ts.blocked_path
    ∷ text "foreign_path" ts.foreign_path
    ∷ []

unfoldable pub json_snapshot : Bytes → SnapshotRec → Bytes
unfolding snapshot_members write_members
json_snapshot out v = close_json (write_members (open_json out) (snapshot_members v))

unfoldable pub json_revision : Bytes → RevisionRec → Bytes
unfolding revision_members write_members
json_revision out v = close_json (write_members (open_json out) (revision_members v))

unfoldable pub json_revision_change : Bytes → RevisionChange → Bytes
unfolding revision_change_members write_members
json_revision_change out v = close_json (write_members (open_json out) (revision_change_members v))

unfoldable pub json_trash : Bytes → TrashStat → Bytes
unfolding trash_members write_members
json_trash out v = close_json (write_members (open_json out) (trash_members v))

-- The Git member is an object of its own, where the World has one.
unfoldable pub json_world : Bytes → WorldRec → Option GitInfo → Bytes
unfolding world_members git_members write_members
json_world out v none = close_json (write_members (open_json out) (world_members v))
json_world out v (some git) =
    let j = write_members (open_json out) (world_members v) in
    let inner = close_json (write_members (open_json []) (git_members git)) in
    if git.present then close_json (write j (object_text "git" inner)) else close_json j
