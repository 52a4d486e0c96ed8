-- ===== src/Tree/Listing.antt =====
-- The keys with a prefix against the entries (daemon/metadata_tree.cpp).
use forkfs.Common.{
  refl, List, ◌++◌, arith, length, take, leb, ltb, ◌==◌, ◌≤◌, ◌&&◌, ◌||◌, if◌then◌else◌, ℕ, zero,
  suc, ◌≡◌, sym, ap, ◌∙◌, inl, inr, Bool, true, Option, none, some, [], Bool-cases,
}
use forkfs.Common.Bytes.{Bytes, starts_with}
use forkfs.Common.Result.{err, Result, ok, >>=-eq-ok}
use forkfs.Common.Map.{Map}
use forkfs.View.Run.{ObjectId}
use forkfs.Tree.Nodes.{Node, is_zero}
use forkfs.Tree.Read.{walk_page, page, Walk, walk, entries_from, entries, walk_keys, keys}
use forkfs.Tree.Bounds.{within_left}
use forkfs.Tree.Visits.{visit, marked, placed, walk_gone, walk_stop}
use forkfs.Tree.Prefixes.{chosen}
use mathlib.Core.List.{append-nil}
use forkfs.Tree.Picks.{take_all, picked}
use forkfs.Tree.Pages.{page_done}
use forkfs.Tree.Blocks.{Block, IsLow, keys_gone, right_IsLow, visit-Block}

module _ (higher : Node → Node → Bool) (node : ObjectId → Result Node) where
  gone_page :
      (fuel : ℕ) (p after : Bytes) (limit : ℕ) (id : ObjectId) (out : List Bytes)
      → is_zero id ≡ true
      → length out ≤ limit
      → walk_page higher node fuel p after limit id out ≡ ok (take limit (out ++ []))
  gone_page fuel p after limit id out gone b =
      page_done higher node fuel p after limit id out (rw gone refl)
      ∙ ap ok (sym (ap (take limit) (append-nil out) ∙ take_all limit out b))

  gone-Block :
      (fuel : ℕ) (id : ObjectId) (lo hi : Option Bytes) (w w' : Walk)
      → is_zero id ≡ true
      → walk higher node fuel id lo hi w ≡ ok w'
      → Block higher node fuel id lo hi w w'
  unfolding chosen picked
  gone-Block fuel id lo hi w w' gone h =
      let e = walk_gone higher node fuel id lo hi w gone in
      let same : w' ≡ w = cc in
      record {
        block = [];
        appended = ap (λ (u : Walk). u.result) same ∙ sym (append-nil w.result);
        ranged = tt;
        listed = λ p out. keys_gone higher node fuel p id out gone ∙ ap ok (sym (append-nil out));
        paged = λ p after limit out b. gone_page fuel p after limit id out gone b;
      }

  walk-Block :
      (fuel : ℕ) (id : ObjectId) (lo hi : Option Bytes) (w w' : Walk)
      → walk higher node fuel id lo hi w ≡ ok w'
      → IsLow higher node lo hi w
      → Block higher node fuel id lo hi w w'
  walk-Block zero id lo hi w w' h low = elim (Bool-cases (is_zero id)) [
    | inl gone ↦ gone-Block zero id lo hi w w' gone h
    | inr there ↦ let e = walk_stop higher node id lo hi w there in cc
  ]
  walk-Block (suc fuel) id lo hi w w' h low = elim (Bool-cases (is_zero id)) [
    | inl gone ↦ gone-Block (suc fuel) id lo hi w w' gone h
    | inr there ↦
        let v = visit higher node fuel id lo hi w w' there h in
        let left =
          walk-Block fuel v.n.left lo (some v.n.key) (marked higher node id w) v.left v.on_left
            (λ x r. low x (within_left lo hi v.n.key x v.ordered r)) in
        let right =
          walk-Block fuel v.n.right (some v.n.key) hi (placed higher node v.n v.left) w' v.on_right
            (right_IsLow higher node fuel id lo hi w w' there v low left) in
        visit-Block higher node fuel id lo hi w w' there v low left right
  ]

  walk_keys-entries_from :
      (fuel : ℕ) (root : ObjectId) (m : Map ObjectId) (p : Bytes)
      → entries_from higher node fuel root ≡ ok m
      → walk_keys higher node fuel p root [] ≡ ok (chosen p m)
  unfolding entries_from
  walk_keys-entries_from fuel root m p h =
      let start : Walk = record { visited = []; result = [] } in
      let (w, walked, done) =
        >>=-eq-ok (walk higher node fuel root none none start) (λ (v : Walk). ok v.result) h in
      let b = walk-Block fuel root none none start w walked (λ x r. tt) in
      let same : w.result ≡ m = cc in
      b.listed p [] ∙ ap (λ (r : Map ObjectId). ok (chosen p r)) (sym b.appended ∙ same)

  -- Where entries accepts a tree, the keys with a prefix are the keys of the entries that have the prefix, in
  -- order, none left out and none twice: the subtrees that the walk does not enter hold no such key.
  pub keys-entries :
      (root : ObjectId) (m : Map ObjectId) (p : Bytes)
      → entries higher node root ≡ ok m
      → keys higher node root p ≡ ok (chosen p m)
  unfolding keys entries
  keys-entries root m p h = walk_keys-entries_from 256 root m p h

  walk_page-entries_from :
      (fuel : ℕ) (root : ObjectId) (m : Map ObjectId) (p after : Bytes) (limit : ℕ)
      → entries_from higher node fuel root ≡ ok m
      → walk_page higher node fuel p after limit root [] ≡ ok (take limit (picked p after m))
  unfolding entries_from
  walk_page-entries_from fuel root m p after limit h =
      let start : Walk = record { visited = []; result = [] } in
      let (w, walked, done) =
        >>=-eq-ok (walk higher node fuel root none none start) (λ (v : Walk). ok v.result) h in
      let b = walk-Block fuel root none none start w walked (λ x r. tt) in
      let same : w.result ≡ m = cc in
      b.paged p after limit [] (omega arith)
      ∙ ap (λ (r : Map ObjectId). ok (take limit (picked p after r))) (sym b.appended ∙ same)

  -- Where entries accepts a tree, a page is the first keys of the entries, as many as asked for, that have the
  -- prefix and stand behind the key where the page before ended; a request for no key or for more than 1025, or
  -- that goes on behind a key without the prefix, fails.
  pub page-entries :
      (root : ObjectId) (m : Map ObjectId) (p after : Bytes) (limit : ℕ)
      → entries higher node root ≡ ok m
      → page higher node root p after limit ≡ (
          if ltb 0 limit && (leb limit 1025 && (length after == 0 || starts_with after p))
          then ok (take limit (picked p after m))
          else err "invalid metadata page request")
  unfolding page entries
  page-entries root m p after limit h =
      elim (Bool-cases
        (ltb 0 limit && (leb limit 1025 && (length after == 0 || starts_with after p)))) [
          | inl fine ↦ rw fine (walk_page-entries_from 256 root m p after limit h)
          | inr bad ↦ rw bad refl
        ]
