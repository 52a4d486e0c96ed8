-- ===== src/Sessions/Tokens.antt =====
-- Session creation: `Sessions::create` of daemon/rpc.cpp, followed by `Sessions::acquire`.
use forkfs.Common.{
  ℕ, ◌+◌, ◌≡◌, refl, ap, ◌∙◌, false, ◌&&◌, inl, inr, none, some, List, [], ◌∷◌, length, leb, ltb,
  if◌then◌else◌, arith, Bool-cases, Option-cases,
}
use forkfs.Common.Bytes.{Bytes, bytes_eq}
use forkfs.Common.Map.{lookup, insert, lookup-insert, lookup-insert_self}
use forkfs.Common.Result.{ok, err, Result-cases}
use forkfs.Sessions.{Session, Sessions, acquire, new_token, create, mounts}
use forkfs.Sessions.Mounts.{IsExclusive, insert-IsExclusive}

abbrev pub opened : ℕ → ℕ → Session
opened now lease = record {
  lease = lease;
  deadline = now + lease;
  closing = false;
  handles = [];
  mount = none;
  directories = [];
}

new_token-fresh :
    (values : Sessions) (draws : List Bytes) (token : Bytes)
    → new_token values draws ≡ ok token
    → lookup token values ≡ none
unfolding new_token
new_token-fresh values [] token h = absurd (ground arith)
new_token-fresh values (draw ∷ draws) token h = elim (Option-cases (lookup draw values)) [
  | inl free ↦ let same : draw ≡ token = ground arith in rw (← same) free
  | inr (s, taken) ↦ new_token-fresh values draws token (ground arith)
]

create-inv :
    (values values' : Sessions) (now lease : ℕ) (draws : List Bytes) (token : Bytes)
    → create values now draws lease ≡ ok (token, values')
    → (lookup token values ≡ none) × (values' ≡ insert token (opened now lease) values)
unfolding create
create-inv values values' now lease draws token h =
    elim (Bool-cases (leb 100 lease && leb lease 300000)) [
      | inr n ↦ absurd (ground arith)
      | inl a ↦ elim (Bool-cases (ltb (length values) 128)) [
        | inr n ↦ absurd (ground arith)
        | inl b ↦ elim (Result-cases (new_token values draws)) [
          | inr (m, bad) ↦ absurd (ground arith)
          | inl (drawn, good) ↦
              let same : drawn ≡ token = ground arith in
              (new_token-fresh values draws token (good ∙ ap ok same), ground arith)
        ]
      ]
    ]

-- A session that is created has a token that was not in use, changes no other session, and mounts nothing,
-- so that no World becomes mounted by two sessions.
pub create-IsExclusive :
    (values values' : Sessions) (now lease : ℕ) (draws : List Bytes) (token : Bytes)
    → IsExclusive values
    → create values now draws lease ≡ ok (token, values')
    → IsExclusive values'
      × (lookup token values ≡ none)
      × ((other : Bytes)
          → lookup other values'
            ≡ (if bytes_eq token other then some (opened now lease) else lookup other values))
unfolding mounts
create-IsExclusive values values' now lease draws token x h =
    let (fresh, shape) = create-inv values values' now lease draws token h in
    (
      rw shape (
          insert-IsExclusive values token (opened now lease) x
            (λ view other t m n f. absurd (ground arith))),
      fresh,
      λ other. rw (shape, lookup-insert) refl,
    )

-- The token of a created session is accepted until the lease has passed since its creation, and from then
-- on it is refused.
pub create-acquire :
    (values values' : Sessions) (now lease : ℕ) (later : ℕ → ℕ) (draws : List Bytes) (token : Bytes)
    → create values now draws lease ≡ ok (token, values')
    → acquire values' later token ≡ (
        if ltb (later 0) (now + lease)
        then (let s = opened (later 1) lease in ok (s, insert token s values'))
        else err "invalid or expired session")
unfolding acquire
create-acquire values values' now lease later draws token h =
    let (fresh, shape) = create-inv values values' now lease draws token h in
    let found : lookup token values' ≡ some (opened now lease) =
      rw shape (lookup-insert_self token (opened now lease) values) in
    rw found (elim (Bool-cases (ltb (later 0) (now + lease))) [
      | inl live ↦ rw live refl
      | inr late ↦ rw late refl
    ])
