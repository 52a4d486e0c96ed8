-- ===== src/LiveView/Keeps.antt =====
-- What each operation on a view keeps: the base directory, and that every name in the inode table is valid
-- (core/src/view.cpp).
use forkfs.Common.{
  ℕ, ◌≡◌, subst, inl, inr, false, Option, none, some, ◌==◌, arith, Bool-cases, Option-cases,
}
use forkfs.Common.Bytes.{Bytes}
use forkfs.Common.Result.{Result, ok, Result-cases}
use forkfs.LiveView.Types.{NodeRec, Nodes, update, Attr, Fs, View, M, after, change}
use forkfs.LiveView.Paths.{root, path_locked, valid_name, child_path, interned}
use forkfs.LiveView.Ops.{drop_name, move, names, lookup, getattr, drop_over}
use forkfs.LiveView.Confined.{NamesValid, IsName}

name_of_record : (old rec : NodeRec) → some old ≡ some rec → IsName old.name → IsName rec.name
name_of_record old rec h good = let same : old ≡ rec = cc in subst (λ r. IsName r.name) same good

pub update-NamesValid :
    (i : ℕ) (r : Option NodeRec) (nodes : Nodes)
    → ((rec : NodeRec) → r ≡ some rec → (i == root) ≡ false → IsName rec.name)
    → NamesValid nodes
    → NamesValid (update i r nodes)
update-NamesValid i r nodes good n j rec h low = elim (Bool-cases (i == j)) [
  | inr other ↦ n j rec (rw other at h) low
  | inl here ↦ good rec (rw here at h) (ground arith)
]

pub interned-NamesValid :
    (dir : ℕ) (name : Bytes) (a : Attr) (nodes : Nodes)
    → IsName name
    → NamesValid nodes
    → NamesValid (interned dir name a nodes)
unfolding interned
interned-NamesValid dir name a nodes good n = elim (Option-cases (nodes a.ino)) [
  | inl gone ↦ rw gone (
      update-NamesValid a.ino _ nodes
        (λ rec h low.
          name_of_record (record { parent = dir; type = a.type; name = name }) rec h good)
        n)
  | inr (old, there) ↦ rw there (
      update-NamesValid a.ino _ nodes
        (λ rec h low. name_of_record (record old { type = a.type }) rec h (n a.ino old there low))
        n)
]

pub drop_name-NamesValid :
    (ino dir : ℕ) (name : Bytes) (nodes : Nodes)
    → NamesValid nodes
    → NamesValid (drop_name ino dir name nodes)
unfolding drop_name
drop_name-NamesValid ino dir name nodes n = elim (Option-cases (nodes ino)) [
  | inl gone ↦ rw (gone, drop_name) n
  | inr (old, there) ↦
      rw (there, drop_name)
        (elim (Bool-cases (names old dir name)) [
          | inr other ↦ rw other n
          | inl this ↦ rw this (update-NamesValid ino none nodes (λ rec h low. cc) n)
        ])
]

pub move-NamesValid :
    (ino dir : ℕ) (name : Bytes) (nodes : Nodes)
    → IsName name
    → NamesValid nodes
    → NamesValid (move ino dir name nodes)
unfolding move
move-NamesValid ino dir name nodes good n = elim (Option-cases (nodes ino)) [
  | inl gone ↦ rw (gone, move) n
  | inr (old, there) ↦
      rw (there, move)
        (update-NamesValid ino _ nodes
          (λ rec h low. name_of_record (record old { parent = dir; name = name }) rec h good) n)
]

-- A view whose paths start at `base`.
pub record Inv {Disk : Type 0} (base : Bytes) (v : View Disk) : Type 0 where
  pub based : v.base_dir ≡ base
  pub named : NamesValid v.nodes

pub under-IsName :
    {Disk : Type 0} (dir : ℕ) (name : Bytes) (v : View Disk) {p : Bytes}
    → child_path v dir name ≡ ok p
    → IsName name
unfolding child_path
under-IsName dir name v h = elim (Bool-cases (valid_name name)) [
  | inl good ↦ good
  | inr bad ↦ let h' = rw bad at h in cc
]

pub drop_over-NamesValid :
    {Disk : Type 0} (fs : Fs Disk) (over : Option ℕ) (dir : ℕ) (name : Bytes) (nodes : Nodes)
    → NamesValid nodes
    → NamesValid (drop_over fs over dir name nodes)
drop_over-NamesValid fs none dir name nodes n = n
drop_over-NamesValid fs (some ino) dir name nodes n = drop_name-NamesValid ino dir name nodes n

module _ {Disk : Type 0} {base : Bytes} where
  pub changed : (v : View Disk) (d : Disk) → Inv base v → Inv base (record v { disk = d })
  changed v d inv = record { based = inv.based; named = inv.named }

  pub renamed :
      (v : View Disk) (nodes : Nodes)
      → NamesValid nodes
      → Inv base v
      → Inv base (record v { nodes = nodes })
  renamed v nodes n inv = record { based = inv.based; named = n }

  module _ (fs : Fs Disk) where
    pub lookup-Inv :
        (dir : ℕ) (name : Bytes) (v : View Disk) → Inv base v → Inv base (lookup fs dir name v).1
    unfolding lookup
    lookup-Inv dir name v inv = elim (Result-cases (child_path v dir name)) [
      | inr (z, e) ↦ rw (e, lookup) inv
      | inl (p, e) ↦
          rw (e, lookup)
            (elim (Result-cases (fs.fs_lstat p v.disk)) [
              | inr (z, f) ↦ rw f inv
              | inl (a, f) ↦ rw f (
                  renamed v _
                    (interned-NamesValid dir name a v.nodes (under-IsName dir name v e) inv.named)
                    inv)
            ])
    ]

    pub getattr-Inv : (ino : ℕ) (v : View Disk) → Inv base v → Inv base (getattr fs ino v).1
    unfolding getattr
    getattr-Inv ino v inv = elim (Result-cases (path_locked v ino)) [
      | inr (z, e) ↦ rw (e, getattr) inv
      | inl (p, e) ↦
          rw (e, getattr)
            (elim (Result-cases (fs.fs_lstat p v.disk)) [
              | inr (z, f) ↦ rw f inv
              | inl (a, f) ↦ rw f inv
            ])
    ]

    -- The rest of an operation behind a change of the disk.
    module _ {A : Type 0} (f : Disk → Result (Unit {0}) × Disk) (next : M Disk A)
        (keeps : (v : View Disk) → Inv base v → Inv base (next v).1) where
      pub then-Inv : (v : View Disk) → Inv base v → Inv base (after (change f v) (λ _. next)).1
      then-Inv v inv = elim (Result-cases (f v.disk).0) [
        | inr (z, e) ↦ rw e (changed v (f v.disk).1 inv)
        | inl (u, e) ↦ rw e (keeps (record v { disk = (f v.disk).1 }) (changed v (f v.disk).1 inv))
      ]
