-- ===== src/LiveView/Lookups.antt =====
-- Which path an inode has after it is first looked up (core/src/view.cpp).
use forkfs.Common.{
  ℕ, zero, suc, ◌≡◌, refl, sym, ap, ◌∙◌, inl, inr, true, false, none, some, List, [], ◌==◌, arith,
  Bool-cases,
}
use forkfs.Common.Bytes.{Bytes}
use forkfs.Common.Result.{Result, ok, Result-cases}
use forkfs.LiveView.Types.{Nodes, Attr, Fs, View}
use forkfs.LiveView.Paths.{root, climb, path_locked, child_path, extended, interned}
use forkfs.LiveView.Ops.{lookup}
use forkfs.LiveView.Climb.{Avoids, Steps}
use forkfs.LiveView.Moves.{path_in}

interned_self :
    (dir : ℕ) (name : Bytes) (a : Attr) (nodes : Nodes)
    → nodes a.ino ≡ none
    → interned dir name a nodes a.ino ≡ some (record { parent = dir; type = a.type; name = name })
unfolding interned
interned_self dir name a nodes gone =
    let self : (a.ino == a.ino) ≡ true = ground arith in rw (self, interned) (rw gone refl)

interned_other :
    (dir : ℕ) (name : Bytes) (a : Attr) (nodes : Nodes) (c : ℕ)
    → (a.ino == c) ≡ false
    → interned dir name a nodes c ≡ nodes c
unfolding interned
interned_other dir name a nodes c other = rw (other, interned) refl

-- An inode without a record is not on the way up from any directory.
Avoids-none :
    (m : ℕ) (nodes : Nodes) (i cur : ℕ)
    → nodes i ≡ none
    → (i == root) ≡ false
    → Steps m nodes cur
    → Avoids m nodes i cur
Avoids-none zero nodes i cur gone low top = ground arith
Avoids-none (suc m) nodes i cur gone low (_, rec, there, up) = (
  elim (Bool-cases (i == cur)) [
    | inl same ↦
        let here : i ≡ cur = ground arith in
        let e : nodes cur ≡ none = ap nodes (sym here) ∙ gone in cc
    | inr other ↦ other
  ],
  rw there (Avoids-none m nodes i rec.parent gone low up),
)

ok-eq : {x y : Attr} → ◌≡◌ {A = Result Attr} (ok x) (ok y) → x ≡ y
ok-eq h = cc

module _ {Disk : Type 0} (fs : Fs Disk) where
  lookup_view :
      (dir : ℕ) (name : Bytes) (v : View Disk) {a : Attr}
      → (lookup fs dir name v).0 ≡ ok a
      → ((lookup fs dir name v).1.nodes ≡ interned dir name a v.nodes)
        × ((lookup fs dir name v).1.base_dir ≡ v.base_dir)
  unfolding lookup interned
  lookup_view dir name v h = elim (Result-cases (child_path v dir name)) [
    | inr (z, e) ↦ let h' = rw (e, lookup) at h in cc
    | inl (p, e) ↦ elim (Result-cases (fs.fs_lstat p v.disk)) [
      | inr (z, f) ↦ let h' = rw (e, f, lookup) at h in cc
      | inl (b, f) ↦
          let h' = rw (e, f, lookup) at h in
          (
            rw (e, f, lookup) (ap (λ (x : Attr). interned dir name x v.nodes) (ok-eq h')),
            rw (e, f, lookup) refl,
          )
    ]
  ]

  -- An inode that is looked up for the first time has the path of the directory and its name, and keeps it in
  -- the table, if the directory is at most 1023 levels deep.
  pub lookup-path_locked :
      (dir : ℕ) (name : Bytes) (v : View Disk) (a : Attr) (found : List Bytes)
      → (lookup fs dir name v).0 ≡ ok a
      → v.nodes a.ino ≡ none
      → (a.ino == root) ≡ false
      → climb 1023 v.nodes dir [] ≡ ok found
      → path_locked (lookup fs dir name v).1 a.ino ≡ extended (path_locked v dir) name
  lookup-path_locked dir name v a found h gone low up =
      let (now, based) = lookup_view dir name v h in
      path_in v (lookup fs dir name v).1 a.ino dir name
        (record { parent = dir; type = a.type; name = name }) found based up low
        (ap (λ (n : Nodes). n a.ino) now ∙ interned_self dir name a v.nodes gone) refl refl
        (λ m le s. Avoids-none m v.nodes a.ino dir gone low s)
        (λ m c k s le t below other.
          ap (λ (n : Nodes). n c) now ∙ interned_other dir name a v.nodes c other)
