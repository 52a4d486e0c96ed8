-- ===== src/Handles/Closing.antt =====
-- The open counts after `Namespace::close` (daemon/namespace.cpp) are the numbers of open handles.
use forkfs.Common.{
  ◌+◌, ◌-◌, ◌<◌, ◌≡◌, ◌∙◌, ap, true, false, ◌⊎◌, inl, inr, ◌==◌, if◌then◌else◌, arith, Bool-cases,
}
use forkfs.Common.Bytes.{Bytes, bytes_eq-cases}
use forkfs.Common.Map.{erase, erase-IsOrdered}
use forkfs.Common.Result.{Result, ok, Result-cases}
use forkfs.Handles.{OpenHandle, Selected, find_handle}
use forkfs.Handles.Counts.{OpenFiles, keeps, set_count, drop_token, release, uncount, close}
use forkfs.View.Run.{ObjectId}
use forkfs.Store.Backend.{LevelDb}
use forkfs.Store.Transact.{Store}
use forkfs.Handles.Balance.{number_open, IsBalanced, number_open-erase, find_handle-inv}

counted-same :
    (o : OpenFiles) (info : OpenHandle) (token : Bytes)
    → info.revision ≡ true
    → (view inode : Bytes) → o.open_counts view inode ≡ number_open o.table.handles view inode
    → number_open o.table.handles view inode
      ≡ (if keeps info view inode then 1 else 0)
        + number_open (erase token o.table.handles) view inode
    → o.open_counts view inode ≡ number_open (erase token o.table.handles) view inode
counted-same o info token revision view inode c less = omega (arith, c, rw revision at less)

counted-down :
    (o : OpenFiles) (info : OpenHandle) (token : Bytes)
    → info.revision ≡ false
    → ((view inode : Bytes) → o.open_counts view inode ≡ number_open o.table.handles view inode)
    → (view inode : Bytes)
    → number_open o.table.handles view inode
      ≡ (if keeps info view inode then 1 else 0)
        + number_open (erase token o.table.handles) view inode
    → set_count o.open_counts info.view info.inode
        (o.open_counts info.view info.inode - 1)
        view
        inode
      ≡ number_open (erase token o.table.handles) view inode
counted-down o info token world c view inode less = elim (bytes_eq-cases info.view view) [
  | inr n1 ↦ let less' = rw (world, n1) at less in rw n1 (omega (arith, c view inode, less'))
  | inl (sv, ev) ↦ elim (bytes_eq-cases info.inode inode) [
    | inr n2 ↦
        let less' = rw (world, ev, n2) at less in rw (ev, n2) (omega (arith, c view inode, less'))
    | inl (si, ei) ↦
        let less' = rw (world, ev, ei) at less in
        rw (ev, ei, sv, si) (omega (arith, c view inode, less'))
  ]
]

module _ (L : LevelDb) (object_id : Bytes → ObjectId) where
  uncount-inv :
      (s : Store L) (o o' : OpenFiles) (view inode : Bytes)
      → (uncount L object_id s o view inode).0 ≡ ok o'
      → (0 < o.open_counts view inode)
        × (o' ≡ record o {
          open_counts = set_count o.open_counts view inode (o.open_counts view inode - 1);
        })
  unfolding uncount
  uncount-inv s o o' view inode h = elim (Bool-cases (o.open_counts view inode == 0)) [
    | inl none_left ↦ absurd (ground arith)
    | inr some_left ↦ elim (Bool-cases (o.open_counts view inode == 1)) [
      | inr many ↦ (ground arith, ground arith)
      | inl one ↦ elim (Result-cases (release L object_id s view inode).0) [
        | inr (m, bad) ↦ absurd (ground arith)
        | inl (done, fine) ↦ (ground arith, ground arith)
      ]
    ]
  ]

  -- The two outcomes of a call.
  close-cases :
      (s s' : Store L) (o o' : OpenFiles) (ns : Selected) (token : Bytes) (r : Result (Unit {0}))
      → close L object_id s o ns token ≡ (r, o', s')
      → (o' ≡ o)
        ⊎ ((info : OpenHandle) × (find_handle o.table ns token ≡ ok info)
            × (((info.revision ≡ true) × (o' ≡ drop_token o token))
                ⊎ ((info.revision ≡ false)
                    × (0 < o.open_counts info.view info.inode)
                    × (o'
                        ≡ drop_token
                            (record o {
                              open_counts =
                                  set_count o.open_counts info.view info.inode
                                    (o.open_counts info.view info.inode - 1);
                            })
                            token))))
  unfolding close
  close-cases s s' o o' ns token r h = elim (Result-cases (find_handle o.table ns token)) [
    | inr (m, bad) ↦ inl (ground arith)
    | inl (info, found) ↦ elim (Bool-cases info.revision) [
      | inl revision ↦ inr (info, found, inl (revision, ground arith))
      | inr world ↦ elim (Result-cases (uncount L object_id s o info.view info.inode).0) [
        | inr (m, bad) ↦ inl (ground arith)
        | inl (less, fine) ↦
            let (some_left, shape) = uncount-inv s o less info.view info.inode fine in
            let now : o' ≡ drop_token less token = ground arith in
            inr (info, found, inr (world, some_left, now ∙ ap (λ z. drop_token z token) shape))
      ]
    ]
  ]

  -- Every call of `close`, whatever its outcome, keeps the counts balanced.
  pub close-IsBalanced :
      (s s' : Store L) (o o' : OpenFiles) (ns : Selected) (token : Bytes) (r : Result (Unit {0}))
      → IsBalanced o
      → close L object_id s o ns token ≡ (r, o', s')
      → IsBalanced o'
  close-IsBalanced s s' o o' ns token r b h = elim (close-cases s s' o o' ns token r h) [
    | inl same ↦ rw same b
    | inr (info, found, rest) ↦
        let (there, v, k) = find_handle-inv o.table ns token info found in
        let sorted = erase-IsOrdered token o.table.handles b.ordered in
        let less = λ (view : Bytes) (inode : Bytes).
          number_open-erase token info o.table.handles view inode b.ordered there in
        elim rest [
          | inl (revision, shape) ↦ rw shape (record {
            ordered = sorted;
            counted = λ view inode.
                counted-same o info token revision view inode (b.counted view inode)
                  (less view inode);
          })
          | inr (world, left, shape) ↦ rw shape (record {
            ordered = sorted;
            counted = λ view inode.
                counted-down o info token world b.counted view inode (less view inode);
          })
        ]
  ]
