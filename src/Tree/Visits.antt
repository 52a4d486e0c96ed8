-- ===== src/Tree/Visits.antt =====
-- One visit of the walk of entries (daemon/metadata_tree.cpp).
use forkfs.Common.{ℕ, zero, suc, ◌≡◌, refl, Bool, true, false, not, Option, some, ◌∷◌, String}
use forkfs.Common.Bytes.{Bytes}
use forkfs.Common.Result.{Result, ok, err, need, ◌>>◌, >>=-eq-ok}
use forkfs.View.Run.{ObjectId}
use forkfs.Tree.Nodes.{Node, is_zero}
use forkfs.Tree.Read.{Walk, mem, emplace, heap_checked, walk}
use forkfs.Tree.Bounds.{within}

pub contra : (a b : Bool) → (a ≡ true → b ≡ true) → b ≡ false → a ≡ false
contra true b f h = let e = f refl in cc
contra false b f h = refl

need_ok :
    {A : Type 0} (b : Bool) (message : String) (rest : Result A) {a : A}
    → (need b message >> rest) ≡ ok a
    → (b ≡ true) × (rest ≡ ok a)
need_ok true message rest h = (refl, h)
need_ok false message rest h = cc

then_ok :
    {A : Type 0} (r : Result (Unit {0})) (rest : Result A) {a : A}
    → (r >> rest) ≡ ok a
    → rest ≡ ok a
then_ok (ok u) rest h = h
then_ok (err e) rest h = cc

module _ (higher : Node → Node → Bool) (node : ObjectId → Result Node) where
  abbrev pub marked : ObjectId → Walk → Walk
  marked id w = record w { visited = id ∷ w.visited }

  abbrev pub placed : Node → Walk → Walk
  placed n left = record left { result = emplace n.key n.value left.result }

  -- What a walk that returned did at its root.
  pub record Visit (fuel : ℕ) (id : ObjectId) (lo hi : Option Bytes) (w w' : Walk) : Type 0 where
    pub n : Node
    pub left : Walk
    pub found : node id ≡ ok n
    pub ordered : within lo hi n.key ≡ true
    pub on_left : walk higher node fuel n.left lo (some n.key) (marked id w) ≡ ok left
    pub on_right : walk higher node fuel n.right (some n.key) hi (placed n left) ≡ ok w'

  pub visit :
      (fuel : ℕ) (id : ObjectId) (lo hi : Option Bytes) (w w' : Walk)
      → is_zero id ≡ false
      → walk higher node (suc fuel) id lo hi w ≡ ok w'
      → Visit fuel id lo hi w w'
  unfolding walk
  visit fuel id lo hi w w' there h =
      let h0 = rw there at h in
      let (fresh, h1) = need_ok (not (mem id w.visited)) _ _ h0 in
      let (n, found, h2) = >>=-eq-ok (node id) _ h1 in
      let (ordered, h3) = need_ok (within lo hi n.key) _ _ h2 in
      let h4 = then_ok (heap_checked higher node n.left n) _ h3 in
      let h5 = then_ok (heap_checked higher node n.right n) _ h4 in
      let (left, on_left, on_right) =
        >>=-eq-ok (walk higher node fuel n.left lo (some n.key) (marked id w)) _ h5 in
      record {
        n = n;
        left = left;
        found = found;
        ordered = ordered;
        on_left = on_left;
        on_right = on_right;
      }

  pub walk_gone :
      (fuel : ℕ) (id : ObjectId) (lo hi : Option Bytes) (w : Walk)
      → is_zero id ≡ true
      → walk higher node fuel id lo hi w ≡ ok w
  unfolding walk
  walk_gone zero id lo hi w gone = rw gone refl
  walk_gone (suc fuel) id lo hi w gone = rw gone refl

  pub walk_stop :
      (id : ObjectId) (lo hi : Option Bytes) (w : Walk)
      → is_zero id ≡ false
      → walk higher node 0 id lo hi w ≡ err "metadata tree cycle/depth"
  unfolding walk
  walk_stop id lo hi w there = rw there refl
