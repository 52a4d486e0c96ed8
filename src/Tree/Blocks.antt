-- ===== src/Tree/Blocks.antt =====
-- What one visit of a walk adds to the entries and to the keys (daemon/metadata_tree.cpp).
use forkfs.Common.{
  ℕ, zero, suc, ◌≡◌, refl, sym, ap, ◌∙◌, subst, inl, inr, Bool, true, false, Option, some, List, [],
  ◌∷◌, ◌++◌, if◌then◌else◌, All, All-append, Bool-cases, &&-split,
}
use forkfs.Common.Bytes.{Bytes, bytes_lt, bytes_lt_trans, starts_with}
use forkfs.Common.Result.{Result, ok, ◌>>=◌}
use forkfs.Common.Map.{Map}
use forkfs.View.Run.{ObjectId}
use forkfs.Tree.Nodes.{Node, is_zero}
use forkfs.Tree.Read.{Walk, above, under, upper_of, walk_keys}
use forkfs.Tree.Bounds.{within, within_left, within_right}
use forkfs.Tree.Visits.{Visit, marked, placed}
use forkfs.Tree.Picks.{All-map}
use forkfs.Tree.Pages.{Paged, visit_paged}
use forkfs.Tree.Prefixes.{
  left_out, right_out, chosen, chosen-append, chosen_none, Below, emplace-Below,
}
use mathlib.Core.List.{append_assoc, append-nil}

abbrev pub Ranged : Option Bytes → Option Bytes → Map ObjectId → Type 0
Ranged lo hi m = All (λ e. within lo hi e.0 ≡ true) m

with_entry :
    (p k : Bytes) (value : ObjectId) (out : List Bytes)
    → (if starts_with k p then out ++ (k ∷ []) else out) ≡ out ++ chosen p ((k, value) ∷ [])
unfolding chosen
with_entry p k value out = elim (Bool-cases (starts_with k p)) [
  | inl one ↦ rw one refl
  | inr not_one ↦ rw not_one (sym (append-nil out))
]

module _ (higher : Node → Node → Bool) (node : ObjectId → Result Node) where
  -- What a walk adds to the map: keys between its bounds, of which walk_keys lists those with the prefix.
  pub record Block (fuel : ℕ) (id : ObjectId) (lo hi : Option Bytes) (w w' : Walk) : Type 0 where
    pub block : Map ObjectId
    pub appended : w'.result ≡ w.result ++ block
    pub ranged : Ranged lo hi block
    pub listed :
        (p : Bytes) (out : List Bytes)
        → walk_keys higher node fuel p id out ≡ ok (out ++ chosen p block)
    pub paged : Paged higher node fuel id block

  abbrev pub IsLow : Option Bytes → Option Bytes → Walk → Type 0
  IsLow lo hi w = (x : Bytes) → within lo hi x ≡ true → Below x w.result

  abbrev on_the_right : ℕ → Bytes → Node → List Bytes → Result (List Bytes)
  on_the_right fuel p n out =
      let more = if starts_with n.key p then out ++ (n.key ∷ []) else out in
      if under (upper_of p) n.key then walk_keys higher node fuel p n.right more else ok more

  keys_step :
      (fuel : ℕ) (p : Bytes) (id : ObjectId) (out : List Bytes) {n : Node}
      → is_zero id ≡ false
      → node id ≡ ok n
      → walk_keys higher node (suc fuel) p id out ≡ (
          (if bytes_lt n.key p then ok out else walk_keys higher node fuel p n.left out)
          >>= on_the_right fuel p n)
  unfolding walk_keys
  keys_step fuel p id out there found = rw (there, found) refl

  pub keys_gone :
      (fuel : ℕ) (p : Bytes) (id : ObjectId) (out : List Bytes)
      → is_zero id ≡ true
      → walk_keys higher node fuel p id out ≡ ok out
  unfolding walk_keys
  keys_gone zero p id out gone = rw gone refl
  keys_gone (suc fuel) p id out gone = rw gone refl

  module _ (fuel : ℕ) (id : ObjectId) (lo hi : Option Bytes) (w w' : Walk)
      (there : is_zero id ≡ false) (v : Visit higher node fuel id lo hi w w') (low : IsLow lo hi w)
      (left : Block fuel v.n.left lo (some v.n.key) (marked higher node id w) v.left) where
    Below-key : Below v.n.key left.block
    Below-key =
        All-map _ _ left.block (λ e h. (&&-split (above lo e.0) (bytes_lt e.0 v.n.key) h).1)
          left.ranged

    placed_result :
        (placed higher node v.n v.left).result
        ≡ w.result ++ (left.block ++ ((v.n.key, v.n.value) ∷ []))
    placed_result =
        emplace-Below v.n.key v.n.value v.left.result (
          subst (Below v.n.key) (sym left.appended)
            (All-append _ w.result left.block (low v.n.key v.ordered) Below-key))
        ∙ (ap (λ (m : Map ObjectId). m ++ ((v.n.key, v.n.value) ∷ [])) left.appended
            ∙ append_assoc w.result left.block ((v.n.key, v.n.value) ∷ []))

    pub right_IsLow : IsLow (some v.n.key) hi (placed higher node v.n v.left)
    right_IsLow x in_range =
        let (high, _) = &&-split (bytes_lt v.n.key x) (under hi x) in_range in
        subst (Below x) (sym placed_result) (
          All-append _ w.result (left.block ++ ((v.n.key, v.n.value) ∷ []))
            (low x (within_right lo hi v.n.key x v.ordered in_range))
            (All-append _ left.block ((v.n.key, v.n.value) ∷ [])
              (All-map _ _ left.block (λ e h. bytes_lt_trans e.0 v.n.key x h high) Below-key)
              (high, tt)))

    module _
        (right : Block fuel v.n.right (some v.n.key) hi (placed higher node v.n v.left) w') where
      left_listed :
          (p : Bytes) (out : List Bytes)
          → (if bytes_lt v.n.key p then ok out else walk_keys higher node fuel p v.n.left out)
            ≡ ok (out ++ chosen p left.block)
      left_listed p out = elim (Bool-cases (bytes_lt v.n.key p)) [
        | inr go ↦ rw go (left.listed p out)
        | inl small ↦
            let nothing : chosen p left.block ≡ [] =
              chosen_none p left.block
                (All-map _ _ left.block (λ e h. left_out v.n.key e.0 p small h) Below-key) in
            rw small (ap ok (sym (ap (◌++◌ out) nothing ∙ append-nil out)))
      ]

      right_listed :
          (p : Bytes) (out : List Bytes)
          → on_the_right fuel p v.n out
            ≡ ok (out ++ (chosen p ((v.n.key, v.n.value) ∷ []) ++ chosen p right.block))
      right_listed p out = elim (Bool-cases (under (upper_of p) v.n.key)) [
        | inl go ↦ rw go (
            right.listed p _
            ∙ (ap (λ (o : List Bytes). ok (o ++ chosen p right.block))
                  (with_entry p v.n.key v.n.value out)
                ∙ ap ok (
                    append_assoc out (chosen p ((v.n.key, v.n.value) ∷ []))
                      (chosen p right.block))))
        | inr great ↦
            let nothing : chosen p right.block ≡ [] = chosen_none p right.block (
              All-map _ _ right.block
                (λ e h.
                  right_out v.n.key e.0 p great
                    (&&-split (bytes_lt v.n.key e.0) (under hi e.0) h).0)
                right.ranged) in
            rw great (
              ap ok (
                with_entry p v.n.key v.n.value out
                ∙ ap (◌++◌ out) (
                    sym (ap (◌++◌ (chosen p ((v.n.key, v.n.value) ∷ []))) nothing ∙ append-nil _))))
      ]

      visit_listed :
          (p : Bytes) (out : List Bytes)
          → walk_keys higher node (suc fuel) p id out
            ≡ ok (out ++ chosen p (left.block ++ ((v.n.key, v.n.value) ∷ right.block)))
      visit_listed p out =
          keys_step fuel p id out there v.found
          ∙ (ap (λ (r : Result (List Bytes)). r >>= on_the_right fuel p v.n) (left_listed p out)
              ∙ (right_listed p (out ++ chosen p left.block) ∙ ap ok (regrouped p out)))
        where
          regrouped :
              (p : Bytes) (out : List Bytes)
              → (out ++ chosen p left.block)
                  ++ (chosen p ((v.n.key, v.n.value) ∷ []) ++ chosen p right.block)
                ≡ out ++ chosen p (left.block ++ ((v.n.key, v.n.value) ∷ right.block))
          regrouped p out =
              append_assoc out (chosen p left.block) _
              ∙ ap (◌++◌ out) (
                  sym (
                    chosen-append p left.block ((v.n.key, v.n.value) ∷ right.block)
                    ∙ ap (◌++◌ (chosen p left.block))
                        (chosen-append p ((v.n.key, v.n.value) ∷ []) right.block)))

      pub visit-Block : Block (suc fuel) id lo hi w w'
      visit-Block = record {
        block = left.block ++ ((v.n.key, v.n.value) ∷ right.block);
        appended =
            right.appended
            ∙ (ap (λ (m : Map ObjectId). m ++ right.block) placed_result
                ∙ (append_assoc w.result (left.block ++ ((v.n.key, v.n.value) ∷ [])) right.block
                    ∙ ap (◌++◌ w.result)
                        (append_assoc left.block ((v.n.key, v.n.value) ∷ []) right.block)));
        ranged =
            All-append _ left.block ((v.n.key, v.n.value) ∷ right.block)
              (All-map _ _ left.block (λ e h. within_left lo hi v.n.key e.0 v.ordered h)
                left.ranged)
              (
                v.ordered,
                All-map _ _ right.block (λ e h. within_right lo hi v.n.key e.0 v.ordered h)
                    right.ranged,
              );
        listed = visit_listed;
        paged = λ p after limit out h.
            visit_paged higher node fuel v.n left.block right.block Below-key
              (All-map _ _ right.block (λ e r. (&&-split (bytes_lt v.n.key e.0) (under hi e.0) r).0)
                right.ranged)
              left.paged right.paged p after limit id out there v.found h;
      }
