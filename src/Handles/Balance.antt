-- ===== src/Handles/Balance.antt =====
-- The open counts after `Namespace::dup` (daemon/namespace.cpp) are the numbers of open handles.
use forkfs.Common.{
  ℕ, ◌+◌, ◌≡◌, refl, ◌∙◌, ap, ◌&&◌, inl, inr, none, some, List, [], ◌∷◌, length, ltb, if◌then◌else◌,
  arith, Bool-cases, Option-cases, &&-split, bool_eq, bool_eq-eq,
}
use forkfs.Common.Bytes.{Bytes, bytes_eq, bytes_eq-eq, bytes_eq-cases, bytes_lt}
use forkfs.Common.Map.{
  Map, lookup, insert, erase, IsOrdered, insert-IsOrdered, lookup-head, IsAbove-IsOrdered,
}
use forkfs.Common.Result.{ok, Result-cases}
use forkfs.Handles.{OpenHandle, Selected, Table, find_handle}
use forkfs.Handles.Counts.{OpenFiles, keeps, set_count, new_handle, dup}

-- How many handles keep an inode of a World alive.
unfoldable pub number_open : Map OpenHandle → Bytes → Bytes → ℕ
number_open [] view inode = 0
number_open ((token, h) ∷ rest) view inode =
    (if keeps h view inode then 1 else 0) + number_open rest view inode

-- The tokens are in order, and each count is the number of handles.
pub record IsBalanced (o : OpenFiles) : Type 0 where
  pub ordered : IsOrdered o.table.handles
  pub counted :
      (view inode : Bytes) → o.open_counts view inode ≡ number_open o.table.handles view inode

pub number_open-insert :
    (k : Bytes) (h : OpenHandle) (m : Map OpenHandle) (view inode : Bytes)
    → lookup k m ≡ none
    → number_open (insert k h m) view inode
      ≡ (if keeps h view inode then 1 else 0) + number_open m view inode
unfolding number_open insert lookup
number_open-insert k h [] view inode e = refl
number_open-insert k h ((j, w) ∷ m) view inode e = elim (Bool-cases (bytes_eq j k)) [
  | inl same ↦ absurd (ground arith)
  | inr other ↦ elim (Bool-cases (bytes_lt k j)) [
    | inl less ↦ rw (other, less) refl
    | inr more ↦
        let again = number_open-insert k h m view inode (rw other at e) in
        rw (other, more) (omega (arith, again))
  ]
]

pub erase-absent : (k : Bytes) (m : Map OpenHandle) → lookup k m ≡ none → erase k m ≡ m
unfolding erase lookup
erase-absent k [] e = refl
erase-absent k ((j, w) ∷ m) e = elim (Bool-cases (bytes_eq j k)) [
  | inl same ↦ absurd (ground arith)
  | inr other ↦ rw other (ap (λ z. (j, w) ∷ z) (erase-absent k m (rw other at e)))
]

pub number_open-erase :
    (k : Bytes) (h : OpenHandle) (m : Map OpenHandle) (view inode : Bytes)
    → IsOrdered m
    → lookup k m ≡ some h
    → number_open m view inode
      ≡ (if keeps h view inode then 1 else 0) + number_open (erase k m) view inode
unfolding number_open erase lookup
number_open-erase k h [] view inode o e = absurd (ground arith)
number_open-erase k h ((j, w) ∷ m) view inode o e = elim (bytes_eq-cases j k) [
  | inl (same, eq) ↦
      let e' : w ≡ h = ground arith in
      let absent : lookup k m ≡ none = rw same at (lookup-head j m o) in
      rw (eq, erase-absent k m absent, ← e') refl
  | inr other ↦
      let again = number_open-erase k h m view inode (IsAbove-IsOrdered j m o) (rw other at e) in
      rw other (omega (arith, again))
]

pub find_handle-inv :
    (t : Table) (ns : Selected) (token : Bytes) (info : OpenHandle)
    → find_handle t ns token ≡ ok info
    → (lookup token t.handles ≡ some info) × (info.view ≡ ns.view) × (info.revision ≡ ns.revision)
unfolding find_handle
find_handle-inv t ns token info h = elim (Option-cases (lookup token t.handles)) [
  | inl missing ↦ absurd (ground arith)
  | inr (found, there) ↦
      elim (Bool-cases (bytes_eq found.view ns.view && bool_eq found.revision ns.revision)) [
        | inr n ↦ absurd (ground arith)
        | inl same ↦
            let e : found ≡ info = ground arith in
            let (v, r) = &&-split _ _ same in
            rw (← e)
              (there, bytes_eq-eq found.view ns.view v, bool_eq-eq found.revision ns.revision r)
      ]
]

new_handle-fresh :
    (handles : Map OpenHandle) (draws : List Bytes) (id : Bytes)
    → new_handle handles draws ≡ ok id
    → lookup id handles ≡ none
unfolding new_handle
new_handle-fresh handles [] id h = absurd (ground arith)
new_handle-fresh handles (draw ∷ draws) id h = elim (Option-cases (lookup draw handles)) [
  | inl free ↦ let same : draw ≡ id = ground arith in rw (← same) free
  | inr (s, taken) ↦ new_handle-fresh handles draws id (ground arith)
]

dup-inv :
    (o o' : OpenFiles) (ns : Selected) (token result : Bytes) (draws : List Bytes)
    → dup o ns token draws ≡ ok (result, o')
    → (info : OpenHandle) × (find_handle o.table ns token ≡ ok info)
      × (lookup result o.table.handles ≡ none)
      × (o'.table.handles ≡ insert result info o.table.handles)
      × (o'.open_counts ≡ (
          if ns.revision
          then o.open_counts
          else set_count o.open_counts ns.view info.inode (o.open_counts ns.view info.inode + 1)))
unfolding dup
dup-inv o o' ns token result draws h = elim (Result-cases (find_handle o.table ns token)) [
  | inr (m, bad) ↦ absurd (ground arith)
  | inl (info, found) ↦ elim (Bool-cases (ltb (length o.table.handles) 4096)) [
    | inr n ↦ absurd (ground arith)
    | inl small ↦ elim (Result-cases (new_handle o.table.handles draws)) [
      | inr (m, bad) ↦ absurd (ground arith)
      | inl (id, drawn) ↦
          let same : id ≡ result = ground arith in
          let fresh = new_handle-fresh o.table.handles draws result (drawn ∙ ap ok same) in
          (info, found, fresh, ground arith, ground arith)
    ]
  ]
]

pub counted-up :
    (counts : Bytes → Bytes → ℕ) (n : Bytes → Bytes → ℕ) (ns : Selected) (info : OpenHandle)
    → info.view ≡ ns.view
    → info.revision ≡ ns.revision
    → ((view inode : Bytes) → counts view inode ≡ n view inode)
    → (view inode : Bytes)
    → (if ns.revision
          then counts
          else set_count counts ns.view info.inode (counts ns.view info.inode + 1))
        view inode
      ≡ (if keeps info view inode then 1 else 0) + n view inode
counted-up counts n ns info v r c view inode = elim (Bool-cases ns.revision) [
  | inl revision ↦ rw (r, revision) (omega (arith, c view inode))
  | inr world ↦
      rw (r, world, v)
        (elim (bytes_eq-cases ns.view view) [
          | inr n1 ↦ rw n1 (omega (arith, c view inode))
          | inl (sv, ev) ↦ elim (bytes_eq-cases info.inode inode) [
            | inr n2 ↦ rw (ev, n2) (omega (arith, c view inode))
            | inl (si, ei) ↦ rw (ev, ei, sv, si) (omega (arith, c view inode))
          ]
        ])
]

-- A `dup` that returns keeps the counts balanced.
pub dup-IsBalanced :
    (o o' : OpenFiles) (ns : Selected) (token result : Bytes) (draws : List Bytes)
    → IsBalanced o
    → dup o ns token draws ≡ ok (result, o')
    → IsBalanced o'
dup-IsBalanced o o' ns token result draws b h =
    let (info, found, fresh, handles, counts) = dup-inv o o' ns token result draws h in
    let (there, v, r) = find_handle-inv o.table ns token info found in
    record {
      ordered = rw handles (insert-IsOrdered result info o.table.handles b.ordered);
      counted = λ view inode.
          rw (counts, handles, number_open-insert result info o.table.handles view inode fresh)
            (counted-up o.open_counts (number_open o.table.handles) ns info v r b.counted view
              inode);
    }
