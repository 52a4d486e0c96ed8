-- ===== src/Tree/Pages.antt =====
-- One visit of MetadataTree::page (daemon/metadata_tree.cpp): the keys that a page still has room for.
use forkfs.Common.{
  ℕ, zero, suc, ◌≤◌, ◌<◌, ◌≡◌, refl, sym, ap, ◌∙◌, inl, inr, Bool, true, false, ◌&&◌, ◌||◌, List,
  [], ◌∷◌, ◌++◌, if◌then◌else◌, arith, All, Bool-cases, length, take, ltb, ◌==◌, length-append,
  take-append,
}
use forkfs.Common.Bytes.{Bytes, bytes_lt}
use forkfs.Common.Result.{Result, ok, ◌>>=◌}
use forkfs.Common.Map.{Map}
use forkfs.View.Run.{ObjectId}
use forkfs.Tree.Nodes.{Node, is_zero}
use forkfs.Tree.Read.{under, upper_of, walk_page}
use forkfs.Tree.Prefixes.{Below}
use mathlib.Core.List.{append_assoc, append-nil}
use forkfs.Tree.Picks.{
  wanted, picked, picked-append, picked_none, lower, not_above, not_under, take_full, take_all,
  take_short, with_key, All-map,
}

module _ (higher : Node → Node → Bool) (node : ObjectId → Result Node) where
  -- The walk adds the wanted keys of the block, as far as there is room.
  abbrev pub Paged : ℕ → ObjectId → Map ObjectId → Type 0
  Paged fuel id block =
      (p after : Bytes) (limit : ℕ) (out : List Bytes)
      → length out ≤ limit
      → walk_page higher node fuel p after limit id out
        ≡ ok (take limit (out ++ picked p after block))

  abbrev go_right : ℕ → Bytes → Bytes → ℕ → Node → List Bytes → Result (List Bytes)
  go_right fuel p after limit n some_keys =
      let more = if wanted p after n.key then some_keys ++ (n.key ∷ []) else some_keys in
      let right = walk_page higher node fuel p after limit n.right more in
      let rest = if ltb (length more) limit && under (upper_of p) n.key then right else ok more in
      if length some_keys == limit then ok some_keys else rest

  page_step :
      (fuel : ℕ) (p after : Bytes) (limit : ℕ) (id : ObjectId) (out : List Bytes) {n : Node}
      → (is_zero id || length out == limit) ≡ false
      → node id ≡ ok n
      → walk_page higher node (suc fuel) p after limit id out ≡ (
          (if bytes_lt (lower p after) n.key
            then walk_page higher node fuel p after limit n.left out
            else ok out)
          >>= go_right fuel p after limit n)
  unfolding walk_page
  page_step fuel p after limit id out there found = rw (there, found) refl

  pub page_done :
      (fuel : ℕ) (p after : Bytes) (limit : ℕ) (id : ObjectId) (out : List Bytes)
      → (is_zero id || length out == limit) ≡ true
      → walk_page higher node fuel p after limit id out ≡ ok out
  unfolding walk_page
  page_done zero p after limit id out done = rw done refl
  page_done (suc fuel) p after limit id out done = rw done refl

  module _ (fuel : ℕ) (n : Node) (lb rb : Map ObjectId) (on_left : Below n.key lb)
      (on_right : All (λ e. bytes_lt n.key e.0 ≡ true) rb) (left : Paged fuel n.left lb)
      (right : Paged fuel n.right rb) (p after : Bytes) (limit : ℕ) where
    left_paged :
        (out : List Bytes)
        → length out ≤ limit
        → (if bytes_lt (lower p after) n.key
            then walk_page higher node fuel p after limit n.left out
            else ok out)
          ≡ ok (take limit (out ++ picked p after lb))
    left_paged out h = elim (Bool-cases (bytes_lt (lower p after) n.key)) [
      | inl go ↦ rw go (left p after limit out h)
      | inr low ↦
          let nothing : picked p after lb ≡ [] =
            picked_none p after lb
              (All-map _ _ lb (λ e b. not_above p after n.key e.0 low b) on_left) in
          rw low (
            ap ok (
              sym (
                ap (λ (o : List Bytes). take limit (out ++ o)) nothing
                ∙ (ap (take limit) (append-nil out) ∙ take_all limit out h))))
    ]

    go_rest :
        (more : List Bytes)
        → length more ≤ limit
        → (if ltb (length more) limit && under (upper_of p) n.key
            then walk_page higher node fuel p after limit n.right more
            else ok more)
          ≡ ok (take limit (more ++ picked p after rb))
    go_rest more h = elim (Bool-cases (ltb (length more) limit)) [
      | inr full ↦ rw full (ap ok (sym (take-append limit more (picked p after rb) (ground arith))))
      | inl room ↦ elim (Bool-cases (under (upper_of p) n.key)) [
        | inl go ↦ rw (room, go) (right p after limit more h)
        | inr high ↦
            let nothing : picked p after rb ≡ [] =
              picked_none p after rb
                (All-map _ _ rb (λ e b. not_under p after n.key e.0 high b) on_right) in
            rw (room, high)
              (ap ok (
                sym (
                  ap (λ (o : List Bytes). take limit (more ++ o)) nothing
                  ∙ (ap (take limit) (append-nil more) ∙ take_all limit more h))))
      ]
    ]

    one_more :
        (before : List Bytes)
        → length before < limit
        → length (if wanted p after n.key then before ++ (n.key ∷ []) else before) ≤ limit
    one_more before less = elim (Bool-cases (wanted p after n.key)) [
      | inl one ↦ rw one (omega (arith, length-append before (n.key ∷ [])))
      | inr not_one ↦ rw not_one (omega arith)
    ]

    go_more :
        (before : List Bytes)
        → length before < limit
        → go_right fuel p after limit n before
          ≡ ok
              (take limit (before ++ (picked p after ((n.key, n.value) ∷ []) ++ picked p after rb)))
    go_more before less =
        let room : (length before == limit) ≡ false = ground arith in
        rw room (
          go_rest _ (one_more before less)
          ∙ (ap (λ (o : List Bytes). ok (take limit (o ++ picked p after rb)))
                (with_key p after n.key n.value before)
              ∙ ap (λ (o : List Bytes). ok (take limit o))
                  (append_assoc before (picked p after ((n.key, n.value) ∷ []))
                    (picked p after rb))))

    right_paged :
        (before : List Bytes)
        → go_right fuel p after limit n (take limit before)
          ≡ ok
              (take limit (before ++ (picked p after ((n.key, n.value) ∷ []) ++ picked p after rb)))
    right_paged before = elim (Bool-cases (length (take limit before) == limit)) [
      | inl full ↦ rw full (ap ok (sym (take_full limit before _ (ground arith))))
      | inr room ↦
          let (same, less) = take_short limit before room in
          ap (go_right fuel p after limit n) same ∙ go_more before less
    ]

    pub visit_paged :
        (id : ObjectId) (out : List Bytes)
        → is_zero id ≡ false
        → node id ≡ ok n
        → length out ≤ limit
        → walk_page higher node (suc fuel) p after limit id out
          ≡ ok (take limit (out ++ picked p after (lb ++ ((n.key, n.value) ∷ rb))))
    visit_paged id out there found h = elim (Bool-cases (length out == limit)) [
      | inl full ↦
          page_done (suc fuel) p after limit id out (rw there full)
          ∙ ap ok (sym (take-append limit out _ (ground arith)))
      | inr room ↦
          page_step fuel p after limit id out (rw there room) found
          ∙ (ap (λ (r : Result (List Bytes)). r >>= go_right fuel p after limit n)
                (left_paged out h)
              ∙ (right_paged (out ++ picked p after lb)
                  ∙ ap (λ (o : List Bytes). ok (take limit o)) (regrouped out)))
    ]
      where
        regrouped :
            (out : List Bytes)
            → (out ++ picked p after lb)
                ++ (picked p after ((n.key, n.value) ∷ []) ++ picked p after rb)
              ≡ out ++ picked p after (lb ++ ((n.key, n.value) ∷ rb))
        regrouped out =
            append_assoc out (picked p after lb) _
            ∙ ap (◌++◌ out) (
                sym (
                  picked-append p after lb ((n.key, n.value) ∷ rb)
                  ∙ ap (◌++◌ (picked p after lb))
                      (picked-append p after ((n.key, n.value) ∷ []) rb)))
