-- ===== src/Handles/Counts.antt =====
-- `Namespace::dup` and `Namespace::close` (daemon/namespace.cpp) on handles_ and open_counts_
-- (daemon/container.h). A count that the map does not hold is 0; open_counts_ keeps no other zero.
use forkfs.Common.{
  ℕ, ◌+◌, ◌-◌, Bool, not, ◌&&◌, none, List, [], ◌∷◌, ◌++◌, length, ltb, ◌==◌, if◌then◌else◌,
}
use forkfs.Common.Bytes.{Bytes, codes, bytes_eq}
use forkfs.Common.Map.{Map, insert, erase, contains}
use forkfs.Common.Result.{Result, ok, err, need, ◌>>=◌, ◌>>◌}
use forkfs.Keys.{orphan_prefix}
use forkfs.Handles.{OpenHandle, Selected, Table, find_handle}
use forkfs.View.Run.{ObjectId}
use forkfs.Store.Backend.{LevelDb}
use forkfs.Store.Transact.{Store, root_of, is_some, healthy, transact}

-- The runtime state of the open files of a container.
pub record OpenFiles : Type 0 where
  pub table : Table
  pub open_counts : Bytes → Bytes → ℕ

-- The handle keeps an inode of this World alive.
abbrev pub keeps : OpenHandle → Bytes → Bytes → Bool
keeps h view inode = not h.revision && (bytes_eq h.view view && bytes_eq h.inode inode)

abbrev pub set_count : (Bytes → Bytes → ℕ) → Bytes → Bytes → ℕ → Bytes → Bytes → ℕ
set_count counts view inode n v i = if bytes_eq view v && bytes_eq inode i then n else counts v i

-- while(container_.handles_.contains(result))result=new_id(view)
unfoldable pub new_handle : Map OpenHandle → List Bytes → Result Bytes
new_handle handles [] = err "identity entropy unavailable"
new_handle handles (id ∷ draws) =
    let again = new_handle handles draws in if contains id handles then again else ok id

unfoldable pub dup : OpenFiles → Selected → Bytes → List Bytes → Result (Bytes × OpenFiles)
dup o ns token draws = do
  info ← find_handle o.table ns token
  need (ltb (length o.table.handles) 4096) "file handle limit reached"
  result ← new_handle o.table.handles draws
  let table = record o.table { handles = insert result info o.table.handles }
  let counts =
      if ns.revision
      then o.open_counts
      else set_count o.open_counts ns.view info.inode (o.open_counts ns.view info.inode + 1)
  ok (result, record { table = table; open_counts = counts })

abbrev pub drop_token : OpenFiles → Bytes → OpenFiles
drop_token o token = record o { table = record o.table { handles = erase token o.table.handles } }

module _ (L : LevelDb) (object_id : Bytes → ObjectId) where
  open L use {get}

  -- The orphan of an inode that its last handle has kept: both roots go in one transaction.
  unfoldable pub release : Store L → Bytes → Bytes → Result (Unit {0}) × Store L
  release s view inode = elim (healthy L object_id s) [
    | err message ↦ (err message, s)
    | ok done ↦
        let pre = orphan_prefix view inode in
        let removed = transact L object_id s s.sequence (
          record { key = pre ++ codes "inode"; value = none; reference = none }
          ∷ record { key = pre ++ codes "content"; value = none; reference = none }
          ∷ []) in
        if is_some (get s.db (root_of (pre ++ codes "inode"))) then removed else (ok tt, s)
  ]

  -- The count of a World's inode goes down; the last one releases its orphan first.
  unfoldable pub uncount : Store L → OpenFiles → Bytes → Bytes → Result OpenFiles × Store L
  uncount s o view inode =
      let n = o.open_counts view inode in
      let less = record o { open_counts = set_count o.open_counts view inode (n - 1) } in
      let (released, s') = release s view inode in
      let last : Result OpenFiles × Store L = elim released [
        | err message ↦ (err message, s')
        | ok done ↦ (ok less, s')
      ] in
      if n == 0 then (err "invalid open count", s) else if n == 1 then last else (ok less, s)

  unfoldable pub close :
      Store L → OpenFiles → Selected → Bytes → Result (Unit {0}) × OpenFiles × Store L
  close s o ns token = elim (find_handle o.table ns token) [
    | err message ↦ (err message, o, s)
    | ok info ↦
        let (uncounted, s') = uncount s o info.view info.inode in
        let counted : Result (Unit {0}) × OpenFiles × Store L = elim uncounted [
          | err message ↦ (err message, o, s')
          | ok o' ↦ (ok tt, drop_token o' token, s')
        ] in
        if info.revision then (ok tt, drop_token o token, s) else counted
  ]
