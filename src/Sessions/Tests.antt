-- ===== src/Sessions/Tests.antt =====
-- Two sessions; the first mounts a World, and the second is refused.
use forkfs.Common.{
  ◌+◌, ◌≡◌, refl, true, false, List, [], ◌∷◌, ltb, if◌then◌else◌, none, some, arith,
}
use forkfs.Common.Bytes.{Bytes, codes, bytes_eq, bytes_lt}
use forkfs.Common.Map.{lookup, insert}
use forkfs.Common.Result.{ok, err}
use forkfs.Sessions.{
  Sessions, acquire, new_token, create, mounts, no_handles, not_busy, same_mount, mountable,
  mount_acquire, authorize,
}
use forkfs.Sessions.Leases.{leased}
use forkfs.Sessions.Mounts.{IsExclusive, mount_acquire-IsExclusive, mount_acquire-authorize}
use forkfs.Sessions.Tokens.{opened, create-IsExclusive, create-acquire}

abbrev one_session : Sessions
one_session = (codes "a", opened 0 1000) ∷ []

abbrev two_sessions : Sessions
two_sessions = (codes "a", opened 0 1000) ∷ (codes "b", opened 10 1000) ∷ []

abbrev draws : List Bytes
draws = codes "a" ∷ codes "b" ∷ []

abbrev mounted : Sessions
mounted =
    (
      codes "a",
      record (opened 20 1000) { mount = some (record { view = codes "w"; revision = false }) },
    )
    ∷ (codes "b", opened 10 1000)
    ∷ []

second : create one_session 10 draws 1000 ≡ ok (codes "b", two_sessions)
unfolding create new_token lookup insert bytes_eq bytes_lt
second = refl

mount_first : mount_acquire two_sessions (λ k. 20) (codes "a") (codes "w") false ≡ (ok tt, mounted)
unfolding mount_acquire mountable acquire same_mount not_busy no_handles mounts lookup insert
    bytes_eq bytes_lt
mount_first = refl

mount_second :
    mount_acquire mounted (λ k. 30) (codes "b") (codes "w") false
    ≡ (err "mount view is busy", insert (codes "b") (opened 30 1000) mounted)
unfolding mount_acquire mountable acquire same_mount not_busy no_handles mounts lookup insert
    bytes_eq bytes_lt
mount_second = refl

one-IsExclusive : IsExclusive one_session
unfolding lookup mounts
one-IsExclusive = record { alone = λ a b view s t fa fb ma mb. absurd (ground arith) }

create-IsExclusive_example :
    IsExclusive two_sessions
    × (lookup (codes "b") one_session ≡ none)
    × ((other : Bytes)
        → lookup other two_sessions ≡ (
            if bytes_eq (codes "b") other then some (opened 10 1000) else lookup other one_session))
create-IsExclusive_example =
    create-IsExclusive one_session two_sessions 10 1000 draws (codes "b") one-IsExclusive second

two-IsExclusive : IsExclusive two_sessions
two-IsExclusive =
    (create-IsExclusive one_session two_sessions 10 1000 draws (codes "b") one-IsExclusive second).0

mount_acquire-IsExclusive_example : IsExclusive mounted
mount_acquire-IsExclusive_example =
    mount_acquire-IsExclusive two_sessions mounted (λ k. 20) (codes "a") (codes "w") false (ok tt)
      two-IsExclusive mount_first

apart : bytes_eq (codes "b") (codes "a") ≡ false
unfolding bytes_eq
apart = refl

mount_acquire-authorize_example :
    (authorize mounted (codes "b") (codes "w") false true ≡ err leased)
    × (authorize mounted (codes "a") (codes "w") false true ≡ ok tt)
mount_acquire-authorize_example =
    mount_acquire-authorize two_sessions mounted (λ k. 20) (codes "a") (codes "w") (codes "b")
      mount_first apart

create-acquire_at_input : acquire two_sessions (λ k. 500) (codes "b") ≡ (
    if ltb 500 (10 + 1000)
    then (let s = opened 500 1000 in ok (s, insert (codes "b") s two_sessions))
    else err "invalid or expired session")
create-acquire_at_input =
    create-acquire one_session two_sessions 10 1000 (λ k. 500) draws (codes "b") second
