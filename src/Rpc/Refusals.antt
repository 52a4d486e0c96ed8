-- ===== src/Rpc/Refusals.antt =====
-- The POSIX errors (daemon/rpc.h) of the refusals of `Sessions::mount_acquire` (daemon/rpc.cpp).
use forkfs.Common.{
  ℕ, ◌≡◌, refl, ◌∙◌, sym, Bool, not, ◌&&◌, ◌||◌, ◌⊎◌, inl, inr, [], ◌∷◌, String, ltb, arith,
  Bool-cases, Option-cases, bool_eq,
}
use forkfs.Common.Bytes.{Bytes, codes, bytes_eq, starts_with}
use forkfs.Common.Map.{Map, lookup}
use forkfs.Common.Result.{err, Result-cases}
use forkfs.Sessions.{
  OwnedHandle, Session, Sessions, acquire, mounts, no_handles, not_busy, same_mount, mountable,
  mount_acquire,
}
use forkfs.Handles.{Table, Selected, find_handle}
use forkfs.Rpc.Errors.{estale, ebusy, einval, eio, holds, rpc_posix_error}

-- The session or the view is stale, or the World is in use.
abbrev pub IsMountError : String → Type 0
IsMountError m = (rpc_posix_error (codes m) ≡ estale) ⊎ (rpc_posix_error (codes m) ≡ ebusy)

expired : IsMountError "invalid or expired session"
unfolding rpc_posix_error holds starts_with bytes_eq
expired = inl refl

other_view : IsMountError "invalid mount view"
unfolding rpc_posix_error holds starts_with bytes_eq
other_view = inl refl

busy : IsMountError "mount view is busy"
unfolding rpc_posix_error holds starts_with bytes_eq
busy = inr refl

outstanding : IsMountError "mount view has outstanding handles"
unfolding rpc_posix_error holds starts_with bytes_eq
outstanding = inr refl

acquire-error :
    (values : Sessions) (now : ℕ → ℕ) (token : Bytes) (m : String)
    → acquire values now token ≡ err m
    → m ≡ "invalid or expired session"
unfolding acquire
acquire-error values now token m h = elim (Option-cases (lookup token values)) [
  | inl missing ↦ ground arith
  | inr (s, there) ↦ elim (Bool-cases (not s.closing && ltb (now 0) s.deadline)) [
    | inl live ↦ absurd (ground arith)
    | inr dead ↦ ground arith
  ]
]

no_handles-error :
    (handles : Map OwnedHandle) (view : Bytes) (m : String)
    → no_handles handles view ≡ err m
    → m ≡ "mount view has outstanding handles"
unfolding no_handles
no_handles-error [] view m h = absurd (ground arith)
no_handles-error ((token, owner) ∷ rest) view m h =
    elim (Bool-cases (owner.revision || not (bytes_eq owner.view view))) [
      | inl fine ↦ no_handles-error rest view m (rw fine at h)
      | inr bad ↦ ground arith
    ]

not_busy-error :
    (values : Sessions) (token view : Bytes) (m : String)
    → not_busy values token view ≡ err m
    → (m ≡ "mount view is busy") ⊎ (m ≡ "mount view has outstanding handles")
unfolding not_busy
not_busy-error [] token view m h = absurd (ground arith)
not_busy-error ((other, s) ∷ rest) token view m h =
    elim (Bool-cases (bytes_eq other token || not (mounts s view))) [
      | inr bad ↦ inl (ground arith)
      | inl fine ↦ elim (Bool-cases (bytes_eq other token)) [
        | inl own ↦ not_busy-error rest token view m (rw (fine, own) at h)
        | inr n ↦ elim (Result-cases (no_handles s.handles view)) [
          | inl (done, free) ↦ not_busy-error rest token view m (rw (fine, n, free) at h)
          | inr (e, held) ↦
              let same : e ≡ m = ground arith in
              inr (sym same ∙ no_handles-error s.handles view e held)
        ]
      ]
    ]

mountable-error :
    (values : Sessions) (s : Session) (token view : Bytes) (revision : Bool) (m : String)
    → mountable values s token view revision ≡ err m
    → (m ≡ "invalid mount view") ⊎ (not_busy values token view ≡ err m)
unfolding mountable
mountable-error values s token view revision m h =
    elim (Bool-cases (same_mount s.mount view revision)) [
      | inr n ↦ inl (ground arith)
      | inl fine ↦ elim (Bool-cases revision) [
        | inl r ↦ absurd (ground arith)
        | inr w ↦ inr (rw (fine, w) at h)
      ]
    ]

-- Every refusal of `mount_acquire` reaches a POSIX client as ESTALE or EBUSY.
pub mount_acquire-rpc_posix_error :
    (values values' : Sessions) (now : ℕ → ℕ) (token view : Bytes) (revision : Bool) (m : String)
    → mount_acquire values now token view revision ≡ (err m, values')
    → IsMountError m
unfolding mount_acquire
mount_acquire-rpc_posix_error values values' now token view revision m h =
    elim (Result-cases (acquire values now token)) [
      | inr (e, bad) ↦
          let same : e ≡ m = ground arith in
          let dead = sym same ∙ acquire-error values now token e bad in rw dead expired
      | inl ((s, renewed), good) ↦ elim (Result-cases (mountable renewed s token view revision)) [
        | inl (done, fine) ↦ absurd (ground arith)
        | inr (e, bad) ↦
            let same : e ≡ m = ground arith in
            rw (← same) (elim (mountable-error renewed s token view revision e bad) [
              | inl stale ↦ rw stale other_view
              | inr used ↦ elim (not_busy-error renewed token view e used) [
                | inl b ↦ rw b busy
                | inr o ↦ rw o outstanding
              ]
            ])
      ]
    ]

no_handle : rpc_posix_error (codes "invalid or expired file handle") ≡ einval
unfolding rpc_posix_error holds starts_with bytes_eq
no_handle = refl

other_handle : rpc_posix_error (codes "file handle belongs to another view") ≡ eio
unfolding rpc_posix_error holds starts_with bytes_eq
other_handle = refl

-- Every refusal of `find_handle` reaches a POSIX client as EINVAL or EIO, so never as ESTALE.
pub find_handle-rpc_posix_error :
    (t : Table) (ns : Selected) (token : Bytes) (m : String)
    → find_handle t ns token ≡ err m
    → (rpc_posix_error (codes m) ≡ einval) ⊎ (rpc_posix_error (codes m) ≡ eio)
unfolding find_handle
find_handle-rpc_posix_error t ns token m h = elim (Option-cases (lookup token t.handles)) [
  | inl missing ↦
      let e : m ≡ "invalid or expired file handle" = ground arith in inl (rw e no_handle)
  | inr (info, there) ↦
      elim (Bool-cases (bytes_eq info.view ns.view && bool_eq info.revision ns.revision)) [
        | inl same ↦ absurd (ground arith)
        | inr other ↦
            let e : m ≡ "file handle belongs to another view" = ground arith in
            inr (rw e other_handle)
      ]
]
