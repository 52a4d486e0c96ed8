-- ===== src/Namespace/Opening/Balance.antt =====
-- The handles and counts after `open` (daemon/namespace.cpp), whether it returns, throws before the
-- reservation, or takes it back.
use forkfs.Common.{
  ℕ, ◌≡◌, refl, ap, ◌⊎◌, inl, inr, Bool, none, List, [], ◌∷◌, arith, subst, ltb, length, String,
  Bool-cases, Option-cases,
}
use forkfs.Common.Bytes.{Bytes, bytes_eq, bytes_eq-cases, bytes_eq_refl, bytes_lt}
use forkfs.Common.Map.{Map, lookup, insert, erase, insert-IsOrdered}
use forkfs.Common.Result.{Result, ok, err, need, Result-cases, >>=-eq-ok, >>-eq-ok}
use forkfs.Handles.{OpenHandle}
use forkfs.Handles.Counts.{OpenFiles}
use forkfs.Handles.Balance.{number_open, IsBalanced, number_open-insert, erase-absent, counted-up}
use forkfs.Namespace.Changes.{World, Changes}
use forkfs.Namespace.Opening.{
  Access, OpenOptions, new_token, reserve, roll_back, Opened, prepare_open, open_handle,
  check_options, open_changes,
}

erase-insert :
    (k : Bytes) (h : OpenHandle) (m : Map OpenHandle)
    → lookup k m ≡ none
    → erase k (insert k h m) ≡ m
unfolding erase insert lookup
erase-insert k h [] e = rw bytes_eq_refl
erase-insert k h ((j, w) ∷ m) e = elim (Bool-cases (bytes_eq j k)) [
  | inl same ↦ absurd (ground arith)
  | inr other ↦
      let absent : lookup k m ≡ none = rw other at e in
      elim (Bool-cases (bytes_lt k j)) [
        | inl less ↦ rw (other, less, bytes_eq_refl, other, erase-absent k m absent) refl
        | inr more ↦ rw (other, more, other, erase-insert k h m absent) refl
      ]
]

new_token-fresh :
    (id : Bytes) (handles : Map OpenHandle) (draws : List Bytes) (token : Bytes)
    → new_token id handles draws ≡ ok token
    → lookup token handles ≡ none
unfolding new_token
new_token-fresh id handles [] token h = absurd (ground arith)
new_token-fresh id handles (draw ∷ draws) token h = elim (Bool-cases (bytes_eq draw id)) [
  | inl own ↦ new_token-fresh id handles draws token (rw own at h)
  | inr other ↦ elim (Option-cases (lookup draw handles)) [
    | inl free ↦ let same : draw ≡ token = ground arith in rw (← same) free
    | inr (s, taken) ↦ new_token-fresh id handles draws token (ground arith)
  ]
]

reserve-IsBalanced :
    (f : OpenFiles) (token : Bytes) (h : OpenHandle)
    → IsBalanced f
    → lookup token f.table.handles ≡ none
    → IsBalanced (reserve f token h)
unfolding reserve
reserve-IsBalanced f token h b fresh = record {
  ordered = insert-IsOrdered token h f.table.handles b.ordered;
  counted = λ view inode. rw (number_open-insert token h f.table.handles view inode fresh) (
      counted-up f.open_counts (number_open f.table.handles)
        (record { view = h.view; revision = h.revision }) h refl refl b.counted view inode);
}

roll_back-handles :
    (f : OpenFiles) (token : Bytes) (h : OpenHandle)
    → lookup token f.table.handles ≡ none
    → (roll_back (reserve f token h) token h).table.handles ≡ f.table.handles
unfolding roll_back reserve
roll_back-handles f token h fresh = erase-insert token h f.table.handles fresh

roll_back-counts :
    (f : OpenFiles) (token : Bytes) (h : OpenHandle) (view inode : Bytes)
    → (roll_back (reserve f token h) token h).open_counts view inode ≡ f.open_counts view inode
unfolding roll_back reserve
roll_back-counts f token h view inode = elim (Bool-cases h.revision) [
  | inl revision ↦ rw revision
  | inr world ↦
      rw (world, bytes_eq_refl h.view, bytes_eq_refl h.inode)
        (elim (bytes_eq-cases h.view view) [
          | inr n1 ↦ rw n1
          | inl (sv, ev) ↦ elim (bytes_eq-cases h.inode inode) [
            | inr n2 ↦ rw (ev, n2)
            | inl (si, ei) ↦ rw (ev, ei, sv, si) (omega arith)
          ]
        ])
]

prepare_open-fresh :
    (now : ℕ → ℕ) (entropy : ℕ → Bytes) (draws : List Bytes) (is_leveldb : Bool) (w : World)
    (f : OpenFiles) (cursor : ℕ) (path : Bytes) (access : Access) (o : OpenOptions) (p : Opened)
    → prepare_open now entropy draws is_leveldb w f cursor path access o ≡ ok p
    → lookup p.token f.table.handles ≡ none
unfolding prepare_open
prepare_open-fresh now entropy draws is_leveldb w f cursor path access o p h =
    let (_, h1) = >>-eq-ok (check_options w.revision access o) _ h in
    let (_, h0) = >>-eq-ok (need is_leveldb "file handles require the LevelDB backend") _ h1 in
    let (_, h2) =
      >>-eq-ok (need (ltb (length f.table.handles) 4096) "file handle limit reached") _ h0 in
    let ((id, changes), _, h3) = >>=-eq-ok (open_changes now entropy w.view path o) _ h2 in
    let (token, drawn, h4) = >>=-eq-ok (new_token id f.table.handles draws) _ h3 in
    let same : token ≡ p.token = ground arith in
    rw (← same) (new_token-fresh id f.table.handles draws token drawn)

-- Same handles and counts.
pub record Unchanged (f f' : OpenFiles) : Type 0 where
  pub handles : f'.table.handles ≡ f.table.handles
  pub counts : (view inode : Bytes) → f'.open_counts view inode ≡ f.open_counts view inode

-- An `open` that returns keeps the open counts equal to the numbers of handles. One that throws, also out of
-- the commit, after its handle was entered, leaves the handles and counts that were there, and the World.
pub open_handle-IsBalanced :
    (now : ℕ → ℕ) (entropy : ℕ → Bytes) (draws : List Bytes) (is_leveldb : Bool)
    (commit : World → Changes → Result World) (w w' : World) (f f' : OpenFiles) (cursor : ℕ)
    (path : Bytes) (access : Access) (o : OpenOptions) (r : Result Bytes)
    → IsBalanced f
    → open_handle now entropy draws is_leveldb commit w f cursor path access o ≡ (r, w', f')
    → ((token : Bytes) × (r ≡ ok token) × (lookup token f.table.handles ≡ none) × IsBalanced f')
      ⊎ ((message : String) × (r ≡ err message) × (w' ≡ w) × Unchanged f f')
unfolding open_handle
open_handle-IsBalanced now entropy draws is_leveldb commit w w' f f' cursor path access o r b h =
    elim (Result-cases (prepare_open now entropy draws is_leveldb w f cursor path access o)) [
      | inr (m, bad) ↦
          let h' = rw (bad, open_handle) at h in
          let same : f ≡ f' = ap (λ q. q.2) h' in
          inr (m, cc, cc, rw (← same) (record { handles = refl; counts = λ view inode. refl }))
      | inl (p, good) ↦
          let fresh =
            prepare_open-fresh now entropy draws is_leveldb w f cursor path access o p good in
          elim (Result-cases (commit w p.changes)) [
            | inl (w1, done) ↦
                let h' = rw (good, done, open_handle) at h in
                let same : reserve f p.token p.handle ≡ f' = ap (λ q. q.2) h' in
                inl (
                  p.token,
                  cc,
                  fresh,
                  subst IsBalanced same (reserve-IsBalanced f p.token p.handle b fresh),
                )
            | inr (m, bad) ↦
                let h' = rw (good, bad, open_handle) at h in
                let same : roll_back (reserve f p.token p.handle) p.token p.handle ≡ f' =
                  ap (λ q. q.2) h' in
                inr (
                  m,
                  cc,
                  cc,
                  subst (Unchanged f) same (record {
                    handles = roll_back-handles f p.token p.handle fresh;
                    counts = roll_back-counts f p.token p.handle;
                  }),
                )
          ]
    ]
