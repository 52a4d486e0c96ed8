-- ===== src/Tree/Entries.antt =====
-- The entries of a metadata tree against its lookups (daemon/metadata_tree.cpp).
use forkfs.Common.{
  ℕ, zero, suc, ◌≡◌, refl, sym, ap, ◌∙◌, inl, inr, Bool, true, false, Option, none, some, [],
  if◌then◌else◌, Bool-cases, &&-split,
}
use forkfs.Common.Bytes.{
  Bytes, bytes_eq, bytes_lt, bytes_lt_irrefl, bytes_lt-ne, bytes_eq_sym, bytes_eq-eq, eq-bytes_eq,
}
use forkfs.Common.Result.{Result, ok, >>=-eq-ok}
use forkfs.Common.Map
use forkfs.Common.Map.{Map, insert}
use forkfs.View.Run.{ObjectId}
use forkfs.Tree.Nodes.{Node, is_zero}
use forkfs.Tree.Read.{Walk, above, under, walk, entries_from, entries, lookup_from, lookup}
use forkfs.Tree.Bounds.{
  within, within_left, within_right, not_left, not_right, trichotomy, lookup-emplace, both,
  bytes_lt_asym,
}
use forkfs.Tree.Visits.{Visit, visit, marked, placed, walk_gone, walk_stop, contra}

empty_map : (key : Bytes) → Map.lookup {V = ObjectId} key [] ≡ none
unfolding Map.lookup
empty_map key = refl

module _ (higher : Node → Node → Bool) (node : ObjectId → Result Node) where
  lookup_step :
      (fuel : ℕ) (key : Bytes) (id : ObjectId) {n : Node}
      → is_zero id ≡ false
      → node id ≡ ok n
      → lookup_from higher node (suc fuel) key id ≡ (
          if bytes_eq key n.key
          then ok (some n.value)
          else lookup_from higher node fuel key (if bytes_lt key n.key then n.left else n.right))
  unfolding lookup_from
  lookup_step fuel key id there found = rw (there, found) refl

  -- For a key between the bounds the walk has put in what a lookup finds; other keys are as before.
  record Agrees (fuel : ℕ) (id : ObjectId) (lo hi : Option Bytes) (w w' : Walk) (key : Bytes)
      : Type 0 where
    inside :
        within lo hi key ≡ true
        → lookup_from higher node fuel key id ≡ ok (Map.lookup key w'.result)
    outside : within lo hi key ≡ false → Map.lookup key w'.result ≡ Map.lookup key w.result

  abbrev Empty : Option Bytes → Option Bytes → Walk → Type 0
  Empty lo hi w = (key : Bytes) → within lo hi key ≡ true → Map.lookup key w.result ≡ none

  module _ (fuel : ℕ) (id : ObjectId) (lo hi : Option Bytes) (w w' : Walk)
      (there : is_zero id ≡ false) (v : Visit higher node fuel id lo hi w w')
      (empty : Empty lo hi w)
      (left : (key : Bytes)
        → Agrees fuel v.n.left lo (some v.n.key) (marked higher node id w) v.left key) where
    no_key : Map.lookup v.n.key v.left.result ≡ none
    no_key =
        (left v.n.key).outside (not_left lo v.n.key v.n.key (bytes_lt_irrefl v.n.key))
        ∙ empty v.n.key v.ordered

    at_here :
        (key : Bytes)
        → Map.lookup key (placed higher node v.n v.left).result
          ≡ (if bytes_eq v.n.key key then some v.n.value else Map.lookup key v.left.result)
    at_here key = lookup-emplace key v.n.key v.n.value v.left.result no_key

    elsewhere :
        (key : Bytes)
        → bytes_eq v.n.key key ≡ false
        → Map.lookup key (placed higher node v.n v.left).result ≡ Map.lookup key v.left.result
    elsewhere key differ = at_here key ∙ rw differ refl

    right-Empty : Empty (some v.n.key) hi (placed higher node v.n v.left)
    right-Empty key in_range =
        let (high, _) = &&-split (bytes_lt v.n.key key) (under hi key) in_range in
        elsewhere key (bytes_lt-ne v.n.key key high)
        ∙ ((left key).outside (not_left lo v.n.key key (bytes_lt_asym v.n.key key high))
            ∙ empty key (within_right lo hi v.n.key key v.ordered in_range))

    module _
        (right : (key : Bytes)
          → Agrees fuel v.n.right (some v.n.key) hi (placed higher node v.n v.left) w' key)
        (key : Bytes) where
      visit_outside : within lo hi key ≡ false → Map.lookup key w'.result ≡ Map.lookup key w.result
      visit_outside out =
          (right key).outside (contra _ _ (within_right lo hi v.n.key key v.ordered) out)
          ∙ (elsewhere key (
                contra _ _
                  (λ same. ap (within lo hi) (sym (bytes_eq-eq v.n.key key same)) ∙ v.ordered) out)
              ∙ (left key).outside (contra _ _ (within_left lo hi v.n.key key v.ordered) out))

      visit_here : key ≡ v.n.key → Map.lookup key w'.result ≡ some v.n.value
      visit_here same =
          (right key).outside
            (not_right hi v.n.key key (ap (bytes_lt v.n.key) same ∙ bytes_lt_irrefl v.n.key))
          ∙ (at_here key ∙ rw (eq-bytes_eq v.n.key key (sym same)) refl)

      visit_inside :
          within lo hi key ≡ true
          → lookup_from higher node (suc fuel) key id ≡ ok (Map.lookup key w'.result)
      visit_inside in_range =
          let (up, down) = &&-split (above lo key) (under hi key) in_range in
          lookup_step fuel key id there v.found ∙ elim (trichotomy key v.n.key) [
            | inl same ↦ rw (eq-bytes_eq key v.n.key same) (ap ok (sym (visit_here same)))
            | inr (inl (low, not_high, differ)) ↦
                rw (bytes_eq_sym key v.n.key ∙ differ, low)
                  ((left key).inside (both up low)
                    ∙ ap ok (
                        sym (
                          (right key).outside (not_right hi v.n.key key not_high)
                          ∙ elsewhere key differ)))
            | inr (inr (high, not_low, differ)) ↦
                rw (bytes_eq_sym key v.n.key ∙ differ, not_low)
                  ((right key).inside (both high down))
          ]

  lookup_gone :
      (fuel : ℕ) (key : Bytes) (id : ObjectId)
      → is_zero id ≡ true
      → lookup_from higher node fuel key id ≡ ok none
  unfolding lookup_from
  lookup_gone zero key id gone = rw gone refl
  lookup_gone (suc fuel) key id gone = rw gone refl

  gone-Agrees :
      (fuel : ℕ) (id : ObjectId) (lo hi : Option Bytes) (w w' : Walk)
      → is_zero id ≡ true
      → walk higher node fuel id lo hi w ≡ ok w'
      → Empty lo hi w
      → (key : Bytes) → Agrees fuel id lo hi w w' key
  gone-Agrees fuel id lo hi w w' gone h empty key =
      let e = walk_gone higher node fuel id lo hi w gone in
      let same : w' ≡ w = cc in
      let kept : Map.lookup key w'.result ≡ Map.lookup key w.result =
        ap (λ (v : Walk). Map.lookup key v.result) same in
      record {
        inside = λ in_range. lookup_gone fuel key id gone ∙ ap ok (sym (kept ∙ empty key in_range));
        outside = λ out. kept;
      }

  walk-Agrees :
      (fuel : ℕ) (id : ObjectId) (lo hi : Option Bytes) (w w' : Walk)
      → walk higher node fuel id lo hi w ≡ ok w'
      → Empty lo hi w
      → (key : Bytes) → Agrees fuel id lo hi w w' key
  walk-Agrees zero id lo hi w w' h empty key = elim (Bool-cases (is_zero id)) [
    | inr there ↦ let e = walk_stop higher node id lo hi w there in cc
    | inl gone ↦ gone-Agrees zero id lo hi w w' gone h empty key
  ]
  walk-Agrees (suc fuel) id lo hi w w' h empty key = elim (Bool-cases (is_zero id)) [
    | inl gone ↦ gone-Agrees (suc fuel) id lo hi w w' gone h empty key
    | inr there ↦
        let v = visit higher node fuel id lo hi w w' there h in
        let left =
          walk-Agrees fuel v.n.left lo (some v.n.key) (marked higher node id w) v.left v.on_left
            (λ k r. empty k (within_left lo hi v.n.key k v.ordered r)) in
        let right =
          walk-Agrees fuel v.n.right (some v.n.key) hi (placed higher node v.n v.left) w' v.on_right
            (right-Empty fuel id lo hi w w' there v empty left) in
        record {
          inside = visit_inside fuel id lo hi w w' there v empty left right key;
          outside = visit_outside fuel id lo hi w w' there v empty left right key;
        }
  ]

  lookup-entries_from :
      (fuel : ℕ) (root : ObjectId) (m : Map ObjectId)
      → entries_from higher node fuel root ≡ ok m
      → (key : Bytes) → lookup_from higher node fuel key root ≡ ok (Map.lookup key m)
  unfolding entries_from
  lookup-entries_from fuel root m h key =
      let start : Walk = record { visited = []; result = [] } in
      let (w, walked, done) =
        >>=-eq-ok (walk higher node fuel root none none start) (λ (v : Walk). ok v.result) h in
      let same : w.result ≡ m = cc in
      (walk-Agrees fuel root none none start w walked (λ k r. empty_map k) key).inside refl
      ∙ ap (λ (r : Map ObjectId). ok (Map.lookup key r)) same

  -- Where entries accepts a tree, that is, where it finds the keys in order, the heap in order, no cycle and no
  -- path longer than 256, the map that it returns gives for every key what a lookup of that key returns, and
  -- the lookup does not fail.
  pub lookup-entries :
      (root : ObjectId) (m : Map ObjectId) (key : Bytes)
      → entries higher node root ≡ ok m
      → lookup higher node root key ≡ ok (Map.lookup key m)
  unfolding lookup entries
  lookup-entries root m key h = lookup-entries_from 256 root m h key
