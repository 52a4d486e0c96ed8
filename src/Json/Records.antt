-- ===== src/Json/Records.antt =====
-- The records that the command line prints (core/include/worldfs/worldfs.h) and how (cli/json.h). A char
-- array is the text in it, and an enumeration a number, as in the records.
use forkfs.Common.{ℕ, Bool, ◌==◌, if◌then◌else◌}
use forkfs.Common.Bytes.{Bytes, codes}
use forkfs.Common.Int.{ℤ}

pub record SnapshotRec : Type 0 where
  pub id : ℕ
  pub name : Bytes
  pub path : Bytes
  pub src_path : Bytes
  pub from_world : ℕ
  pub created_at : ℤ
  pub entries : ℕ
  pub hardlinks : ℕ
  pub state : ℕ
  pub hard : Bool
  pub root_mode : ℕ
  pub trashed_at : ℤ
  pub hl_groups : ℕ
  pub hl_external : ℕ

pub record WorldRec : Type 0 where
  pub id : ℕ
  pub origin : ℕ
  pub parent_world : ℕ
  pub snapshot_id : ℕ
  pub name : Bytes
  pub path : Bytes
  pub dir_dev : ℕ
  pub dir_ino : ℕ
  pub state : ℕ
  pub fsevents_id : ℕ
  pub entries : ℕ
  pub created_at : ℤ
  pub trashed_at : ℤ
  pub present : Bool

pub record GitInfo : Type 0 where
  pub present : Bool
  pub branch : Bytes
  pub head : Bytes
  pub baseline : Bytes
  pub git_dir : Bytes

pub record RevisionRec : Type 0 where
  pub id : ℕ
  pub world_id : ℕ
  pub parent_revision : ℕ
  pub baseline_snapshot : ℕ
  pub origin : ℕ
  pub coverage : ℕ
  pub actor_id : Bytes
  pub turn_id : Bytes
  pub tool_call_id : Bytes
  pub git_head : Bytes
  pub capture_started_at : ℤ
  pub capture_finished_at : ℤ
  pub created_at : ℤ
  pub changes : ℕ
  pub added : ℕ
  pub modified : ℕ
  pub deleted : ℕ
  pub meta : ℕ

pub record RevisionChange : Type 0 where
  pub file_id : ℕ
  pub change : ℕ
  pub path : Bytes
  pub before_hash : Bytes
  pub after_hash : Bytes
  pub size : ℕ
  pub mode : ℕ

pub record TrashStat : Type 0 where
  pub entries : ℕ
  pub deleting : ℕ
  pub due : ℕ
  pub worlds : ℕ
  pub snapshots : ℕ
  pub tree_entries : ℕ
  pub bytes_estimate : ℕ
  pub volume_free_bytes : ℕ
  pub volume_total_bytes : ℕ
  pub creating_stranded : ℕ
  pub pool_stranded : ℕ
  pub dirs_unreadable : ℕ
  pub dirs_unreadable_path : Bytes
  pub dirs_unreadable_errno : ℕ
  pub trash_blocked : ℕ
  pub blocked_path : Bytes
  pub trash_foreign : ℕ
  pub foreign_path : Bytes
  pub worker_pid : ℤ
  pub worker_started_at : ℤ
  pub worker_done : ℕ
  pub worker_remaining : ℕ

-- The numbers of wfs_state, wfs_change, wfs_revision_coverage and wfs_revision_origin.
unfoldable pub json_state : ℕ → Bytes
json_state s =
    if s == 0
    then codes "creating"
    else if s == 1
    then codes "active"
    else if s == 2
    then codes "trashed"
    else if s == 3
    then codes "dead"
    else if s == 4
    then codes "trashing"
    else codes "unknown"

unfoldable pub json_change_code : ℕ → Bytes
json_change_code c =
    if c == b'A'
    then codes "added"
    else if c == b'M'
    then codes "modified"
    else if c == b'D'
    then codes "deleted"
    else if c == b'T'
    then codes "metadata"
    else codes "unknown"

unfoldable pub json_coverage : ℕ → Bytes
json_coverage c =
    if c == 1
    then codes "mediated"
    else if c == 2
    then codes "observed"
    else if c == 3
    then codes "incomplete"
    else codes "unknown"

unfoldable pub json_origin : ℕ → Bytes
json_origin o =
    if o == 1
    then codes "tool"
    else if o == 2
    then codes "filesystem"
    else if o == 3
    then codes "restore"
    else codes "unknown"

-- WFS_O_SNAPSHOT, WFS_O_WORLD and WFS_O_ADOPTED.
unfoldable pub world_origin : ℕ → Bytes
world_origin o =
    if o == 1
    then codes "snapshot"
    else if o == 2
    then codes "world"
    else if o == 3
    then codes "adopted"
    else codes "unknown"
