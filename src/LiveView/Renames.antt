-- ===== src/LiveView/Renames.antt =====
-- Which path an inode has after a rename (core/src/view.cpp).
use forkfs.Common.{
  ℕ, zero, suc, ◌≤◌, ◌≡◌, refl, ap, subst, ◌∙◌, inl, inr, false, ◌&&◌, Option, none, some, List, [],
  ◌==◌, arith, Bool-cases, Option-cases,
}
use forkfs.Common.Bytes.{Bytes}
use forkfs.Common.Result.{ok, Result-cases}
use forkfs.LiveView.Types.{NodeRec, Nodes, Fs, View}
use forkfs.LiveView.Paths.{root, climb, path_locked, valid_name, extended}
use forkfs.LiveView.Ops.{move, may_write, rename, overwritten, drop_over}
use forkfs.LiveView.Climb.{Avoids, Steps, Steps-unique, Avoids-mono}
use forkfs.LiveView.Moves.{path_in, move_self, move_other, drop_name_apart, drop_name_other}

module _ {Disk : Type 0} (fs : Fs Disk) where
  rename_nodes :
      (sdir : ℕ) (sname : Bytes) (ddir : ℕ) (dname : Bytes) (ino : ℕ) (v : View Disk)
      → (rename fs sdir sname ddir dname ino v).0 ≡ ok tt
      → (to : Bytes) × ((rename fs sdir sname ddir dname ino v).1.nodes
          ≡ move ino ddir dname (drop_over fs (overwritten fs to ino v.disk) ddir dname v.nodes))
        × ((rename fs sdir sname ddir dname ino v).1.base_dir ≡ v.base_dir)
  unfolding rename
  rename_nodes sdir sname ddir dname ino v done = elim (Result-cases (may_write v)) [
    | inr (z, fixed) ↦ let h = rw (fixed, rename) at done in cc
    | inl (u, writes) ↦ elim (Bool-cases (valid_name sname && valid_name dname)) [
      | inr bad ↦ let h = rw (writes, bad, rename) at done in cc
      | inl good ↦ elim (Result-cases (extended (path_locked v sdir) sname)) [
        | inr (z, e) ↦ let h = rw (writes, good, e, rename) at done in cc
        | inl (from, e) ↦ elim (Result-cases (extended (path_locked v ddir) dname)) [
          | inr (z, f) ↦ let h = rw (writes, good, e, f, rename) at done in cc
          | inl (to, f) ↦ elim (Result-cases (fs.fs_rename from to v.disk).0) [
            | inr (z, g) ↦ let h = rw (writes, good, e, f, g, rename) at done in cc
            | inl (w, g) ↦ (
              to,
              rw (writes, good, e, f, g, rename) refl,
              rw (writes, good, e, f, g, rename) refl,
            )
          ]
        ]
      ]
    ]
  ]

  overwritten-ne :
      (to : Bytes) (ino over : ℕ) (disk : Disk)
      → overwritten fs to ino disk ≡ some over
      → (over == ino) ≡ false
  unfolding overwritten
  overwritten-ne to ino over disk h = elim (Result-cases (fs.fs_lstat to disk)) [
    | inr (z, e) ↦ let h' = rw (e, overwritten) at h in cc
    | inl (a, e) ↦ elim (Bool-cases (a.ino == ino)) [
      | inl same ↦ let h' = rw (e, overwritten) at h in let h'' = rw same at h' in cc
      | inr other ↦ let h' = rw (e, overwritten) at h in let h'' = rw other at h' in ground arith
    ]
  ]

  -- The record that a rename drops is not nearer to the root than the directory of its destination.
  drop_over_other :
      (over : Option ℕ) (dir : ℕ) (name : Bytes) (nodes : Nodes) (m c k : ℕ)
      → Steps m nodes dir
      → k ≤ m
      → Steps k nodes c
      → (c == root) ≡ false
      → drop_over fs over dir name nodes c ≡ nodes c
  drop_over_other none dir name nodes m c k s le t low = refl
  drop_over_other (some over) dir name nodes m c zero s le t low = cc
  drop_over_other (some over) dir name nodes m c (suc k) s le t low =
      elim (drop_name_other over dir name nodes c) [
        | inr same ↦ same
        | inl (rec, there, in_dir) ↦
            let (_, rec', there', up) = t in
            let in_dir' : rec'.parent ≡ dir = ground arith in
            let e = Steps-unique m k nodes dir s (subst (λ (d : ℕ). Steps k nodes d) in_dir' up) in
            absurd (omega arith)
      ]

  drop_over_self :
      (to : Bytes) (ino dir : ℕ) (name : Bytes) (v : View Disk)
      → drop_over fs (overwritten fs to ino v.disk) dir name v.nodes ino ≡ v.nodes ino
  drop_over_self to ino dir name v = elim (Option-cases (overwritten fs to ino v.disk)) [
    | inl nothing ↦ rw nothing refl
    | inr (over, e) ↦
        rw e (drop_name_apart over dir name v.nodes ino (overwritten-ne to ino over v.disk e))
  ]

  -- After a rename that succeeds the moved inode has the path of the destination's directory and the new name,
  -- whatever the rename replaced, if the destination's directory is at most 1023 levels deep and does not lie
  -- below the moved inode.
  pub rename-path_locked :
      (sdir : ℕ) (sname : Bytes) (ddir : ℕ) (dname : Bytes) (ino : ℕ) (v : View Disk)
      (rec : NodeRec) (found : List Bytes)
      → v.nodes ino ≡ some rec
      → (ino == root) ≡ false
      → climb 1023 v.nodes ddir [] ≡ ok found
      → Avoids 1023 v.nodes ino ddir
      → (rename fs sdir sname ddir dname ino v).0 ≡ ok tt
      → path_locked (rename fs sdir sname ddir dname ino v).1 ino
        ≡ extended (path_locked v ddir) dname
  rename-path_locked sdir sname ddir dname ino v rec found there low up a done =
      let (to, now, based) = rename_nodes sdir sname ddir dname ino v done in
      let dropped = drop_over fs (overwritten fs to ino v.disk) ddir dname v.nodes in
      path_in v (rename fs sdir sname ddir dname ino v).1 ino ddir dname
        (record rec { parent = ddir; name = dname }) found based up low
        (ap (λ (n : Nodes). n ino) now
          ∙ move_self ino ddir dname dropped rec (drop_over_self to ino ddir dname v ∙ there))
        refl refl (λ m le s. Avoids-mono m 1023 v.nodes ino ddir le a)
        (λ m c k s le t below other.
          ap (λ (n : Nodes). n c) now
          ∙ (move_other ino ddir dname dropped c other
              ∙ drop_over_other (overwritten fs to ino v.disk) ddir dname v.nodes m c k s le t
                  below))
