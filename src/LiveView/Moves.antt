-- ===== src/LiveView/Moves.antt =====
-- The path of an inode whose record is new (core/src/view.cpp).
use forkfs.Common.{
  ℕ, ◌≤◌, ◌≡◌, refl, sym, ap, ◌∙◌, ◌⊎◌, inl, inr, true, false, some, List, [], ◌∷◌, ◌++◌, ◌==◌,
  arith, Bool-cases, Option-cases, &&-split,
}
use forkfs.Common.Bytes.{Bytes}
use forkfs.Common.Result.{ok}
use forkfs.LiveView.Types.{NodeRec, Nodes, View}
use forkfs.LiveView.Paths.{root, climb, join, path_locked, extended}
use forkfs.LiveView.Ops.{move, drop_name, names}
use forkfs.LiveView.Confined.{join-append}
use forkfs.LiveView.Climb.{
  Avoids, Steps, climb-suc, climb-Steps, climb_same, climb_names, append_names, climb_more,
  path_of_climb,
}

-- A table that differs only in the record of `i`, and in records further from the root than `dir` is, gives
-- `i`, now in `dir`, the path of `dir` and the name.
pub path_in :
    {Disk : Type 0} (v v' : View Disk) (i dir : ℕ) (name : Bytes) (rec : NodeRec)
    (found : List Bytes)
    → v'.base_dir ≡ v.base_dir
    → climb 1023 v.nodes dir [] ≡ ok found
    → (i == root) ≡ false
    → v'.nodes i ≡ some rec
    → rec.parent ≡ dir
    → rec.name ≡ name
    → ((m : ℕ) → m ≤ 1023 → Steps m v.nodes dir → Avoids m v.nodes i dir)
    → ((m c k : ℕ)
        → Steps m v.nodes dir
        → k ≤ m
        → Steps k v.nodes c
        → (c == root) ≡ false
        → (i == c) ≡ false
        → v'.nodes c ≡ v.nodes c)
    → path_locked v' i ≡ extended (path_locked v dir) name
path_in v v' i dir name rec found based up low here in_dir named a same =
    let (m, le, s) = climb-Steps 1023 v.nodes dir [] up in
    let over : climb 1023 v'.nodes dir (name ∷ []) ≡ ok (found ++ (name ∷ [])) =
      climb_same m 1023 v.nodes v'.nodes i dir (name ∷ []) s (a m le s) (λ c k. same m c k s)
      ∙ (climb_names m 1023 v.nodes dir [] (name ∷ []) s
          ∙ ap (λ r. append_names r (name ∷ [])) up) in
    let moved : climb 1024 v'.nodes i [] ≡ ok (found ++ (name ∷ [])) =
      climb-suc 1023 v'.nodes i [] low here
      ∙ ((λ j. climb 1023 v'.nodes (in_dir j) (named j ∷ [])) ∙ over) in
    path_of_climb v' i moved
    ∙ (ap (λ (base : Bytes). ok (join base (found ++ (name ∷ [])))) based
        ∙ (ap ok (join-append v.base_dir found name)
            ∙ sym (
                ap (λ r. extended r name)
                  (path_of_climb v dir (climb_more 1023 v.nodes dir [] up)))))

pub move_self :
    (ino dir : ℕ) (name : Bytes) (nodes : Nodes) (rec : NodeRec)
    → nodes ino ≡ some rec
    → move ino dir name nodes ino ≡ some (record rec { parent = dir; name = name })
unfolding move
move_self ino dir name nodes rec there =
    let self : (ino == ino) ≡ true = ground arith in rw (there, move) (rw self refl)

pub move_other :
    (ino dir : ℕ) (name : Bytes) (nodes : Nodes) (c : ℕ)
    → (ino == c) ≡ false
    → move ino dir name nodes c ≡ nodes c
unfolding move
move_other ino dir name nodes c other = elim (Option-cases (nodes ino)) [
  | inl gone ↦ rw (gone, move) refl
  | inr (rec, there) ↦ rw (there, move) (rw other refl)
]

pub drop_name_apart :
    (ino dir : ℕ) (name : Bytes) (nodes : Nodes) (c : ℕ)
    → (ino == c) ≡ false
    → drop_name ino dir name nodes c ≡ nodes c
unfolding drop_name
drop_name_apart ino dir name nodes c apart = elim (Option-cases (nodes ino)) [
  | inl gone ↦ rw (gone, drop_name) refl
  | inr (rec, there) ↦ elim (Bool-cases (names rec dir name)) [
    | inr other ↦ rw (there, drop_name) (rw other refl)
    | inl this ↦ rw (there, drop_name) (rw (this, apart) refl)
  ]
]

-- What a dropped name leaves alone: every record but one in `dir`.
pub drop_name_other :
    (ino dir : ℕ) (name : Bytes) (nodes : Nodes) (c : ℕ)
    → ((rec : NodeRec) × (nodes c ≡ some rec) × ((rec.parent == dir) ≡ true))
      ⊎ (drop_name ino dir name nodes c ≡ nodes c)
unfolding drop_name
drop_name_other ino dir name nodes c = elim (Option-cases (nodes ino)) [
  | inl gone ↦ inr (rw (gone, drop_name) refl)
  | inr (rec, there) ↦ elim (Bool-cases (names rec dir name)) [
    | inr other ↦ inr (rw (there, drop_name) (rw other refl))
    | inl this ↦ elim (Bool-cases (ino == c)) [
      | inl here ↦
          let same : ino ≡ c = ground arith in
          inl (rec, ap nodes (sym same) ∙ there, (&&-split _ _ this).0)
      | inr elsewhere ↦ inr (rw (there, drop_name) (rw (this, elsewhere) refl))
    ]
  ]
]
