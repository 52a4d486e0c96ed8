-- ===== src/Sessions/Leases.antt =====
-- What the loops over the other sessions (`Sessions::mount_acquire` and `Sessions::authorize` of
-- daemon/rpc.cpp) establish, and what renewing a lease leaves alone.
use forkfs.Common.{
  ℕ, ◌+◌, ◌≡◌, refl, true, false, not, ◌&&◌, ◌||◌, inl, inr, some, [], ◌∷◌, ltb, String, arith,
  Bool-cases, Option-cases,
}
use forkfs.Common.Bytes.{Bytes, bytes_eq, bytes_eq_refl, bytes_eq-cases}
use forkfs.Common.Map.{lookup, insert}
use forkfs.Common.Result.{ok, err, Result-cases}
use forkfs.Sessions.{Session, Sessions, acquire, mounts, no_handles, not_busy, unleased}

-- One round of the loop that let its session through.
not_busy-step :
    (j token view : Bytes) (t : Session) (rest : Sessions)
    → not_busy ((j, t) ∷ rest) token view ≡ ok tt
    → ((bytes_eq j token || not (mounts t view)) ≡ true) × (not_busy rest token view ≡ ok tt)
unfolding not_busy
not_busy-step j token view t rest h = elim (Bool-cases (bytes_eq j token || not (mounts t view))) [
  | inr n ↦ absurd (ground arith)
  | inl fine ↦ (
    fine,
    elim (Bool-cases (bytes_eq j token)) [
      | inl e ↦ ground arith
      | inr n ↦ elim (Result-cases (no_handles t.handles view)) [
        | inl (done, free) ↦ ground arith
        | inr (m, bad) ↦ absurd (ground arith)
      ]
    ],
  )
]

-- The loop let through only tables where no other session mounts the World.
pub not_busy-mounts :
    (values : Sessions) (token view other : Bytes) (s : Session)
    → not_busy values token view ≡ ok tt
    → bytes_eq other token ≡ false
    → lookup other values ≡ some s
    → mounts s view ≡ false
unfolding lookup
not_busy-mounts [] token view other s h n e = absurd (ground arith)
not_busy-mounts ((j, t) ∷ rest) token view other s h n e =
    let (fine, more) = not_busy-step j token view t rest h in
    elim (bytes_eq-cases j other) [
      | inl (same, eq) ↦
          let n' : bytes_eq j token ≡ false = rw (← same) at n in
          let e' : t ≡ s = ground arith in rw (← e') (ground arith)
      | inr d ↦ not_busy-mounts rest token view other s more n (rw d at e)
    ]

pub not_busy-unleased :
    (values : Sessions) (token view : Bytes)
    → not_busy values token view ≡ ok tt
    → unleased values token view ≡ ok tt
unfolding unleased
not_busy-unleased [] token view h = refl
not_busy-unleased ((j, t) ∷ rest) token view h =
    let (fine, more) = not_busy-step j token view t rest h in
    rw fine (not_busy-unleased rest token view more)

-- The table with another session under the same token refuses no more.
pub unleased-insert :
    (values : Sessions) (token view : Bytes) (s : Session)
    → unleased values token view ≡ ok tt
    → unleased (insert token s values) token view ≡ ok tt
unfolding unleased insert
unleased-insert [] token view s h = rw bytes_eq_refl refl
unleased-insert ((j, t) ∷ rest) token view s h =
    ground (arith, bytes_eq_refl token, unleased-insert rest token view s)

abbrev pub leased : String
leased = "World is exclusively leased to a mounted filesystem"

pub unleased-refuses :
    (values : Sessions) (token view other : Bytes) (s : Session)
    → lookup other values ≡ some s
    → bytes_eq other token ≡ false
    → mounts s view ≡ true
    → unleased values token view ≡ err leased
unfolding unleased lookup
unleased-refuses [] token view other s e n m = absurd (ground arith)
unleased-refuses ((j, t) ∷ rest) token view other s e n m =
    let again = unleased-refuses rest token view other s in
    elim (bytes_eq-cases j other) [
      | inl (same, eq) ↦
          let n' : bytes_eq j token ≡ false = rw (← same) at n in
          let e' : t ≡ s = ground arith in
          let m' : mounts t view ≡ true = rw (← e') at m in rw (n', m') refl
      | inr d ↦
          let refused = again (rw d at e) n m in
          elim (Bool-cases (bytes_eq j token || not (mounts t view))) [
            | inl fine ↦ rw fine refused
            | inr bad ↦ rw bad refl
          ]
    ]

pub acquire-inv :
    (values renewed : Sessions) (now : ℕ → ℕ) (token : Bytes) (s : Session)
    → acquire values now token ≡ ok (s, renewed)
    → (old : Session) × (lookup token values ≡ some old)
      × (s ≡ record old { deadline = now 1 + old.lease })
      × (renewed ≡ insert token s values)
unfolding acquire
acquire-inv values renewed now token s h = elim (Option-cases (lookup token values)) [
  | inl none_there ↦ absurd (ground arith)
  | inr (old, there) ↦ elim (Bool-cases (not old.closing && ltb (now 0) old.deadline)) [
    | inr n ↦ absurd (ground arith)
    | inl live ↦ (old, there, ground arith, ground arith)
  ]
]
