-- ===== src/Sessions.antt =====
-- The session table of the RPC server: OwnedHandle, Session and Sessions of daemon/rpc.cpp. The clock is an
-- argument, in milliseconds, and the tokens that random_token draws are a list.
pub mod Leases
pub mod Mounts
pub mod Tokens
mod Tests
use forkfs.Common.{
  ℕ, ◌+◌, ◌≡◌, Bool, true, false, not, ◌&&◌, ◌||◌, Option, none, some, List, [], ◌∷◌, length, leb,
  ltb, if◌then◌else◌, String, bool_eq,
}
use forkfs.Common.Bytes.{Bytes, bytes_eq}
use forkfs.Common.Map.{Map, lookup, insert, contains}
use forkfs.Common.Result.{Result, ok, err, need, need_some, ◌>>=◌, ◌>>◌}

pub record OwnedHandle : Type 0 where
  pub view : Bytes
  pub revision : Bool

-- An OwnedDirectory is kept without its cursor.
pub record Session : Type 0 where
  pub lease : ℕ
  pub deadline : ℕ
  pub closing : Bool
  pub handles : Map OwnedHandle
  pub mount : Option OwnedHandle
  pub directories : Map OwnedHandle

abbrev pub Sessions : Type 0
Sessions = Map Session

-- while(values_.contains(token))token=random_token(): the first draw that is not in use.
unfoldable pub new_token : Sessions → List Bytes → Result Bytes
new_token values [] = err "session entropy unavailable"
new_token values (token ∷ draws) =
    let again = new_token values draws in if contains token values then again else ok token

unfoldable pub create : Sessions → ℕ → List Bytes → ℕ → Result (Bytes × Sessions)
create values now draws lease = do
  need (leb 100 lease && leb lease 300000) "session lease must be 100..300000 ms"
  need (ltb (length values) 128) "session limit reached"
  token ← new_token values draws
  ok (
    token,
    insert token
        (record {
          lease = lease;
          deadline = now + lease;
          closing = false;
          handles = [];
          mount = none;
          directories = [];
        })
        values,
  )

-- The session with its lease renewed, and the table that holds it. The clock is read twice, for the deadline and
-- for the new one: `now` gives the reading of each call.
unfoldable pub acquire : Sessions → (ℕ → ℕ) → Bytes → Result (Session × Sessions)
acquire values now token = do
  session ← need_some (lookup token values) "invalid or expired session"
  need (not session.closing && ltb (now 0) session.deadline) "invalid or expired session"
  let renewed = record session { deadline = now 1 + session.lease }
  ok (renewed, insert token renewed values)

-- The session mounts a World, not a revision, of this name.
unfoldable pub mounts : Session → Bytes → Bool
mounts session view = elim session.mount [
  | none ↦ false
  | some mount ↦ not mount.revision && bytes_eq mount.view view
]

-- for(const auto& [h,owner]:s.handles)
unfoldable pub no_handles : Map OwnedHandle → Bytes → Result (Unit {0})
no_handles [] view = ok tt
no_handles ((h, owner) ∷ rest) view = do
  need (owner.revision || not (bytes_eq owner.view view)) "mount view has outstanding handles"
  no_handles rest view

-- for(const auto& [other,s]:values_)if(other!=token)
unfoldable pub not_busy : Sessions → Bytes → Bytes → Result (Unit {0})
not_busy [] token view = ok tt
not_busy ((other, s) ∷ rest) token view = do
  need (bytes_eq other token || not (mounts s view)) "mount view is busy"
  (if bytes_eq other token then ok tt else no_handles s.handles view)
  not_busy rest token view

unfoldable pub same_mount : Option OwnedHandle → Bytes → Bool → Bool
same_mount none view revision = true
same_mount (some mount) view revision = bytes_eq mount.view view && bool_eq mount.revision revision

-- The checks of mount_acquire after the session is found.
unfoldable pub mountable : Sessions → Session → Bytes → Bytes → Bool → Result (Unit {0})
mountable values selected token view revision = do
  need (same_mount selected.mount view revision) "invalid mount view"
  (if revision then ok tt else not_busy values token view)

-- The lease is renewed also when the mount is refused.
unfoldable pub mount_acquire :
    Sessions → (ℕ → ℕ) → Bytes → Bytes → Bool → Result (Unit {0}) × Sessions
mount_acquire values now token view revision = elim (acquire values now token) [
  | err message ↦ (err message, values)
  | ok (selected, renewed) ↦ elim (mountable renewed selected token view revision) [
    | err message ↦ (err message, renewed)
    | ok done ↦ (
      ok tt,
      insert token (record selected { mount = some (record { view = view; revision = revision }) })
          renewed,
    )
  ]
]

unfoldable pub mount_require :
    Sessions → (ℕ → ℕ) → Bytes → Bytes → Bool → Result (Unit {0}) × Sessions
mount_require values now token view revision = elim (acquire values now token) [
  | err message ↦ (err message, values)
  | ok (s, renewed) ↦ elim s.mount [
    | none ↦ (err "invalid mount view/session", renewed)
    | some mount ↦
        (need (same_mount (some mount) view revision) "invalid mount view/session", renewed)
  ]
]

-- for(const auto& [other,s]:values_): EBUSY for a World that another session mounts.
unfoldable pub unleased : Sessions → Bytes → Bytes → Result (Unit {0})
unleased [] token view = ok tt
unleased ((other, s) ∷ rest) token view = do
  need (bytes_eq other token || not (mounts s view))
      "World is exclusively leased to a mounted filesystem"
  unleased rest token view

unfoldable pub authorize : Sessions → Bytes → Bytes → Bool → Bool → Result (Unit {0})
authorize values token view revision writes =
    if not writes || revision then ok tt else unleased values token view

unfoldable pub directory_count : Sessions → ℕ
directory_count [] = 0
directory_count ((token, s) ∷ rest) = length s.directories + directory_count rest
