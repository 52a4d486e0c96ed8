-- ===== src/Rpc/Tests.antt =====
-- A request of two fields, the second empty, and a reply of the code for a busy mount.
use forkfs.Common.{◌≡◌, refl, List, [], ◌∷◌, ◌++◌, false, none, some, ◌⊎◌}
use forkfs.Common.Bytes.{Bytes, codes, bytes_eq, bytes_lt}
use forkfs.Common.Map.{lookup, insert}
use forkfs.Common.Result.{ok, err}
use forkfs.Handles.{Table, Selected, find_handle}
use forkfs.Sessions.{
  Session, Sessions, acquire, mounts, no_handles, not_busy, same_mount, mountable, mount_acquire,
}
use forkfs.Rpc.Errors.{einval, eio, rpc_posix_error}
use forkfs.Rpc.Refusals.{IsMountError, mount_acquire-rpc_posix_error, find_handle-rpc_posix_error}
use forkfs.Codec.{store_le}
use forkfs.Rpc.{frame, put_fields, request, decode}
use forkfs.Rpc.Frames.{decode-request}

abbrev fields : List Bytes
fields = codes "stat" ∷ [] ∷ []

abbrev sent : Bytes
sent =
    codes "FFRPC001"
    ++ (16 ∷ 0 ∷ 0 ∷ 0 ∷ 2 ∷ 0 ∷ 0 ∷ 0 ∷ 4 ∷ 0 ∷ 0 ∷ 0 ∷ (codes "stat" ++ (0 ∷ 0 ∷ 0 ∷ 0 ∷ [])))

abbrev answered : Bytes
answered = codes "FFRSP001" ++ (8 ∷ 0 ∷ 0 ∷ 0 ∷ 17 ∷ 0 ∷ 0 ∷ 0 ∷ codes "busy")

send : request fields ≡ ok sent
unfolding request put_fields frame store_le
send = refl

decode-request_example : decode sent ≡ ok fields
decode-request_example = decode-request fields sent send

abbrev idle : Session
idle = record {
  lease = 1000;
  deadline = 1000;
  closing = false;
  handles = [];
  mount = none;
  directories = [];
}

abbrev leased_table : Sessions
leased_table =
    (codes "a", record idle { mount = some (record { view = codes "w"; revision = false }) })
    ∷ (codes "b", idle)
    ∷ []

refused :
    mount_acquire leased_table (λ k. 0) (codes "b") (codes "w") false
    ≡ (err "mount view is busy", leased_table)
unfolding mount_acquire mountable acquire same_mount not_busy no_handles mounts lookup insert
    bytes_eq bytes_lt
refused = refl

mount_acquire-rpc_posix_error_example : IsMountError "mount view is busy"
mount_acquire-rpc_posix_error_example =
    mount_acquire-rpc_posix_error leased_table leased_table (λ k. 0) (codes "b") (codes "w") false
      "mount view is busy" refused

abbrev no_files : Table
no_files = record { handles = []; cursors = λ c. record { position = 0; locks = [] } }

abbrev selected : Selected
selected = record { view = codes "w"; revision = false }

closed_handle : find_handle no_files selected (codes "a") ≡ err "invalid or expired file handle"
unfolding find_handle lookup
closed_handle = refl

find_handle-rpc_posix_error_example :
    (rpc_posix_error (codes "invalid or expired file handle") ≡ einval)
    ⊎ (rpc_posix_error (codes "invalid or expired file handle") ≡ eio)
find_handle-rpc_posix_error_example =
    find_handle-rpc_posix_error no_files selected (codes "a") "invalid or expired file handle"
      closed_handle
