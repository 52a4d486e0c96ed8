-- ===== src/Sessions/Mounts.antt =====
-- Mount exclusivity: `Sessions::mount_acquire` and `Sessions::authorize` of daemon/rpc.cpp.
use forkfs.Common.{
  ℕ, ◌+◌, ◌≡◌, refl, ap, ◌∙◌, sym, Bool, true, false, ◌⊎◌, inl, inr, some, String, arith,
  Bool-cases,
}
use forkfs.Common.Bytes.{
  Bytes, bytes_eq, bytes_eq-eq, bytes_eq_refl, bytes_eq-cases, eq-bytes_eq, bytes_eq_sym,
}
use forkfs.Common.Map.{lookup, insert, lookup-insert, lookup-insert_self}
use forkfs.Common.Result.{Result, ok, err, Result-cases}
use forkfs.Sessions.{
  Session, Sessions, acquire, mounts, not_busy, same_mount, mountable, mount_acquire, authorize,
}
use forkfs.Sessions.Leases.{
  not_busy-mounts, not_busy-unleased, unleased-insert, unleased-refuses, leased, acquire-inv,
}

-- No two sessions mount one World.
pub record IsExclusive (values : Sessions) : Type 0 where
  pub alone :
      (a b view : Bytes) (s t : Session)
      → lookup a values ≡ some s
      → lookup b values ≡ some t
      → mounts s view ≡ true
      → mounts t view ≡ true
      → a ≡ b

some_eq : (s t : Session) → some s ≡ some t → s ≡ t
some_eq s t h = cc

-- A session under a token stays apart if it mounts only what no other session does.
pub insert-IsExclusive :
    (values : Sessions) (token : Bytes) (s : Session)
    → IsExclusive values
    → ((view other : Bytes) (t : Session)
        → mounts s view ≡ true
        → bytes_eq other token ≡ false
        → lookup other values ≡ some t
        → mounts t view ≡ false)
    → IsExclusive (insert token s values)
insert-IsExclusive values token s x apart = record {
  alone = λ a b view sa sb fa fb ma mb.
      let fa' = rw lookup-insert at fa in
      let fb' = rw lookup-insert at fb in
      elim (bytes_eq-cases token a) [
        | inl (ta, ea) ↦ elim (bytes_eq-cases token b) [
          | inl (tb, eb) ↦ sym ta ∙ tb
          | inr nb ↦
              let e = some_eq s sa (rw ea at fa') in
              let t =
                apart view b sb (ap (λ z. mounts z view) e ∙ ma) (bytes_eq_sym b token ∙ nb)
                  (rw nb at fb') in
              absurd (ground arith)
        ]
        | inr na ↦ elim (bytes_eq-cases token b) [
          | inl (tb, eb) ↦
              let e = some_eq s sb (rw eb at fb') in
              let t =
                apart view a sa (ap (λ z. mounts z view) e ∙ mb) (bytes_eq_sym a token ∙ na)
                  (rw na at fa') in
              absurd (ground arith)
          | inr nb ↦ x.alone a b view sa sb (rw na at fa') (rw nb at fb') ma mb
        ]
      ];
}

-- What an accepted mount has found, and the table it leaves.
record Mounted (values values' : Sessions) (now : ℕ → ℕ) (token view : Bytes) (revision : Bool)
    : Type 0 where
  selected : Session
  renewed : Sessions
  acquired : acquire values now token ≡ ok (selected, renewed)
  free : revision ≡ false → not_busy renewed token view ≡ ok tt
  result :
      values'
      ≡ insert token
          (record selected { mount = some (record { view = view; revision = revision }) })
          renewed

mountable-free :
    (values : Sessions) (s : Session) (token view : Bytes) (revision : Bool)
    → revision ≡ false
    → mountable values s token view revision ≡ ok tt
    → not_busy values token view ≡ ok tt
unfolding mountable
mountable-free values s token view revision world h =
    elim (Bool-cases (same_mount s.mount view revision)) [
      | inr n ↦ absurd (ground arith)
      | inl fine ↦ elim (Result-cases (not_busy values token view)) [
        | inl (done, free) ↦ free
        | inr (m, bad) ↦ absurd (ground arith)
      ]
    ]

mount_acquire-Mounted :
    (values values' : Sessions) (now : ℕ → ℕ) (token view : Bytes) (revision : Bool)
    → mount_acquire values now token view revision ≡ (ok tt, values')
    → Mounted values values' now token view revision
unfolding mount_acquire mountable
mount_acquire-Mounted values values' now token view revision h =
    elim (Result-cases (acquire values now token)) [
      | inr (m, bad) ↦ absurd (ground arith)
      | inl ((selected, renewed), good) ↦
          elim (Result-cases (mountable renewed selected token view revision)) [
            | inr (m, bad) ↦ absurd (ground arith)
            | inl (done, fine) ↦ record {
              selected = selected;
              renewed = renewed;
              acquired = good;
              free = λ world. mountable-free renewed selected token view revision world fine;
              result = ground arith;
            }
          ]
    ]

-- The mount of a World by one session.
mounts-new :
    (s : Session) (view other : Bytes) (revision : Bool)
    → mounts (record s { mount = some (record { view = view; revision = revision }) }) other ≡ true
    → (view ≡ other) × (revision ≡ false)
unfolding mounts
mounts-new s view other false h = (bytes_eq-eq view other h, refl)
mounts-new s view other true h = absurd (ground arith)

mounts-own :
    (s : Session) (view : Bytes)
    → mounts (record s { mount = some (record { view = view; revision = false }) }) view ≡ true
unfolding mounts
mounts-own s view = bytes_eq_refl view

mounts-deadline :
    (s : Session) (d : ℕ) (view : Bytes) → mounts (record s { deadline = d }) view ≡ mounts s view
unfolding mounts
mounts-deadline s d view = refl

acquire-IsExclusive :
    (values renewed : Sessions) (now : ℕ → ℕ) (token : Bytes) (s : Session)
    → IsExclusive values
    → acquire values now token ≡ ok (s, renewed)
    → IsExclusive renewed
acquire-IsExclusive values renewed now token s x h =
    let (old, found, same, table) = acquire-inv values renewed now token s h in
    rw table (
      insert-IsExclusive values token s x (λ view other t m n f. elim (Bool-cases (mounts t view)) [
        | inr free ↦ free
        | inl both ↦
            let before : mounts old view ≡ true =
              sym (mounts-deadline old (now 1 + old.lease) view)
              ∙ (sym (ap (λ z. mounts z view) same) ∙ m) in
            let one = x.alone token other view old t found f before both in
            let eq = eq-bytes_eq other token (sym one) in absurd (ground arith)
      ]))

mount_acquire-refused :
    (values values' : Sessions) (now : ℕ → ℕ) (token view : Bytes) (revision : Bool) (m : String)
    → mount_acquire values now token view revision ≡ (err m, values')
    → (values' ≡ values) ⊎ ((s : Session) × (acquire values now token ≡ ok (s, values')))
unfolding mount_acquire
mount_acquire-refused values values' now token view revision m h =
    elim (Result-cases (acquire values now token)) [
      | inr (e, bad) ↦ inl (ground arith)
      | inl ((selected, renewed), good) ↦
          elim (Result-cases (mountable renewed selected token view revision)) [
            | inr (e, bad) ↦
                let same : renewed ≡ values' = ground arith in inr (selected, rw (← same) good)
            | inl (done, fine) ↦ absurd (ground arith)
          ]
    ]

-- Every call of `mount_acquire`, whatever its outcome, leaves no World mounted by two sessions if none was.
pub mount_acquire-IsExclusive :
    (values values' : Sessions) (now : ℕ → ℕ) (token view : Bytes) (revision : Bool)
    (r : Result (Unit {0}))
    → IsExclusive values
    → mount_acquire values now token view revision ≡ (r, values')
    → IsExclusive values'
mount_acquire-IsExclusive values values' now token view revision (ok done) x h =
    let w = mount_acquire-Mounted values values' now token view revision h in
    rw w.result (
      insert-IsExclusive w.renewed token _
        (acquire-IsExclusive values w.renewed now token w.selected x w.acquired)
        (λ seen other t m n f.
          let (same, world) = mounts-new w.selected view seen revision m in
          rw (← same) (not_busy-mounts w.renewed token view other t (w.free world) n f)))
mount_acquire-IsExclusive values values' now token view revision (err m) x h =
    elim (mount_acquire-refused values values' now token view revision m h) [
      | inl same ↦ rw same x
      | inr (s, acquired) ↦ acquire-IsExclusive values values' now token s x acquired
    ]

-- After `mount_acquire` returns for a World, every other session is refused to write to that World, and the
-- session itself is not.
pub mount_acquire-authorize :
    (values values' : Sessions) (now : ℕ → ℕ) (token view other : Bytes)
    → mount_acquire values now token view false ≡ (ok tt, values')
    → bytes_eq other token ≡ false
    → (authorize values' other view false true ≡ err leased)
      × (authorize values' token view false true ≡ ok tt)
unfolding authorize
mount_acquire-authorize values values' now token view other h n =
    let w = mount_acquire-Mounted values values' now token view false h in
    (
      rw w.result (
          unleased-refuses _ other view token _ (lookup-insert_self token _ w.renewed)
            (bytes_eq_sym token other ∙ n) (mounts-own w.selected view)),
      rw w.result (
          unleased-insert w.renewed token view _
            (not_busy-unleased w.renewed token view (w.free refl))),
    )
