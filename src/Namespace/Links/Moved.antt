-- ===== src/Namespace/Links/Moved.antt =====
-- The entries after `rename` (daemon/namespace.cpp).
use forkfs.Common.{
  ℕ, ◌+◌, ◌≡◌, ◌≢◌, refl, sym, ap, subst, ◌∙◌, true, false, not, ◌&&◌, ◌||◌, bool_eq, ◌⊎◌, inl, inr,
  Option, none, some, List, [], ◌∷◌, ◌++◌, if◌then◌else◌, Bool-cases,
}
use forkfs.Common.Bytes.{Bytes, bytes_eq, bytes_eq-eq, bytes_eq_sym}
use forkfs.Common.Map.{Map, lookup, contains, lookup-insert, lookup-insert_self}
use forkfs.Common.Result.{Result, ok, need, ◌>>=◌, >>=-eq-ok, >>-eq-ok, same_ok}
use forkfs.Namespace.Names.{is_nil}
use forkfs.Namespace.{
  InodeInfo, View, keys, directory_prefix, inode_key, entry_key, id_bytes, valid_id, inode, encode,
}
use forkfs.Namespace.Records.{inode-id}
use forkfs.Namespace.Names.{components}
use forkfs.Namespace.Walk.{Parent, parent, parent_at, walk, arrived, split_last}
use forkfs.Namespace.Changes.{Changes, put, drop_key, World}
use forkfs.Namespace.Files.{entry_id, touch, retire, unlinked}
use forkfs.Namespace.Links.{
  mem, parents_of, touch_parents, make_way, moved_links, move_changes, rename_changes,
}

inode_ne_entry : (i id name : Bytes) → bytes_eq (inode_key i) (entry_key id name) ≡ false
unfolding bytes_eq
inode_ne_entry i id name = refl

-- The new records of the parents are no entries.
lookup-touch_parents :
    (now : ℕ → ℕ) (k : ℕ) (parents : Map InodeInfo) (c : Changes) (id name : Bytes)
    → lookup (entry_key id name) (touch_parents now k parents c) ≡ lookup (entry_key id name) c
unfolding touch_parents
lookup-touch_parents now k [] c id name = refl
lookup-touch_parents now k ((i, pn) ∷ rest) c id name =
    let e = encode (touch pn (now k)) in
    lookup-touch_parents now (k + 1) rest (put (inode_key i) e c) id name
    ∙ (lookup-insert (entry_key id name) (inode_key i) (some e) c
        ∙ rw (inode_ne_entry i id name) refl)

placed :
    (id name : Bytes) (a b : List Bytes) (p : Parent)
    → ◌≡◌ {A = Result (Parent × List Bytes)}
        (ok (record { id = id; name = name; key = entry_key id name }, a))
        (ok (p, b))
    → p.key ≡ entry_key p.id p.name
placed id name a b p h =
    let q : Parent = record { id = id; name = name; key = entry_key id name } in
    let same : q ≡ p = cc in subst (λ (x : Parent). x.key ≡ entry_key x.id x.name) same refl

-- A place that `parent` gives is an entry of its directory.
parent_at-key :
    (view : View) (path : Bytes) (p : Parent) (ancestry : List Bytes)
    → parent_at view path ≡ ok (p, ancestry)
    → p.key ≡ entry_key p.id p.name
unfolding parent_at
parent_at-key view path p ancestry h =
    let (names, _, h1) = >>=-eq-ok (components path) _ h in
    let ((firsts, name), _, h2) = >>=-eq-ok (split_last names) _ h1 in
    let (w, _, h3) = >>=-eq-ok (walk view true false firsts) _ h2 in
    let ((id, above), _, h4) = >>=-eq-ok (arrived w) _ h3 in
    let (n, _, h5) = >>=-eq-ok (inode view id) _ h4 in
    let (_, h6) = >>-eq-ok (need n.directory "parent is not a directory") _ h5 in
    placed id name (above ++ (w.0 ∷ [])) ancestry p h6

-- The same of a key that is known to be an entry's.
lookup-touched :
    (now : ℕ → ℕ) (k : ℕ) (parents : Map InodeInfo) (c : Changes) (i e : Bytes) (p : Parent)
    → p.key ≡ entry_key p.id p.name
    → lookup p.key (touch_parents now k parents (put (inode_key i) e c)) ≡ lookup p.key c
lookup-touched now k parents c i e p pk =
    subst
      (λ (key : Bytes).
        lookup key (touch_parents now k parents (put (inode_key i) e c)) ≡ lookup key c)
      (sym pk)
      (lookup-touch_parents now k parents (put (inode_key i) e c) p.id p.name
        ∙ (lookup-insert (entry_key p.id p.name) (inode_key i) (some e) c
            ∙ rw (inode_ne_entry i p.id p.name) refl))

parent-key :
    (view : View) (path : Bytes) (p : Parent)
    → parent view path ≡ ok p
    → p.key ≡ entry_key p.id p.name
unfolding parent
parent-key view path p h =
    let ((q, ancestry), at, h1) = >>=-eq-ok (parent_at view path) _ h in
    parent_at-key view path p ancestry (at ∙ ap (λ (x : Parent). ok (x, ancestry)) (same_ok q p h1))

parent-parent_at :
    (view : View) (path : Bytes) (p : Parent) (ancestry : List Bytes)
    → parent_at view path ≡ ok (p, ancestry)
    → parent view path ≡ ok p
unfolding parent
parent-parent_at view path p ancestry h = rw h refl

id_bytes_same : (id b : Bytes) → id_bytes id ≡ ok b → b ≡ id
unfolding id_bytes
id_bytes_same id b h =
    let (_, h1) = >>-eq-ok (need (valid_id id) "invalid inode identity") _ h in cc

-- What the changes say of both names.
move_changes-lookup :
    (now : ℕ → ℕ) (src dst : Parent) (n : InodeInfo) (c c' : Changes) (parents : Map InodeInfo)
    → src.key ≡ entry_key src.id src.name
    → dst.key ≡ entry_key dst.id dst.name
    → bytes_eq dst.key src.key ≡ false
    → move_changes now src dst n (some (c, parents)) ≡ ok c'
    → (lookup src.key c' ≡ some none) × (lookup dst.key c' ≡ some (some n.id))
unfolding move_changes
move_changes-lookup now src dst n c c' parents sk dk apart h =
    let (moved, _, h1) = >>=-eq-ok (moved_links now n src dst parents) _ h in
    let (b, valid, h2) = >>=-eq-ok (id_bytes n.id) _ h1 in
    let e = encode (record n { changed_ns = now 1 }) in
    let named = put dst.key b (drop_key src.key c) in
    let all : touch_parents now 2 moved (put (inode_key n.id) e named) ≡ c' = same_ok _ _ h2 in
    (
      ap (lookup src.key) (sym all)
          ∙ (lookup-touched now 2 moved named n.id e src sk
              ∙ (lookup-insert src.key dst.key (some b) (drop_key src.key c)
                  ∙ rw apart (lookup-insert_self src.key none c))),
      ap (lookup dst.key) (sym all)
          ∙ (lookup-touched now 2 moved named n.id e dst dk
              ∙ (lookup-insert_self dst.key (some b) (drop_key src.key c)
                  ∙ ap (λ (x : Bytes). some (some x)) (id_bytes_same n.id b valid))),
    )

-- Whatever makes way leaves changes.
leaves_changes :
    {A B : Type 0} (made : Result A) (paired : A → B)
    → ◌≢◌ {A = Result (Option B)} (made >>= λ c. ok (some (paired c))) (ok none)
leaves_changes made paired h =
    let (c, _, h1) = >>=-eq-ok made (λ c. ok (some (paired c))) h in absurd (cc)

make_way-same :
    (now : ℕ → ℕ) (w : World) (view : View) (n : InodeInfo) (dst : Parent) (parents : Map InodeInfo)
    → make_way now w view n dst parents ≡ ok none
    → entry_id view dst.key ≡ ok n.id
unfolding make_way
make_way-same now w view n dst parents h = elim (Bool-cases (contains dst.key view.records)) [
  | inr free ↦ let h0 = rw free at h in absurd (cc)
  | inl taken ↦
      let h0 = rw taken at h in
      let (replaced, found, h1) = >>=-eq-ok (entry_id view dst.key) _ h0 in
      elim (Bool-cases (bytes_eq replaced n.id)) [
        | inl same ↦ rw (← bytes_eq-eq replaced n.id same) found
        | inr other ↦
            let h2 = rw other at h1 in
            let (old, _, h3) = >>=-eq-ok (inode view replaced) _ h2 in
            let (_, h4) =
              >>-eq-ok (need (bool_eq old.directory n.directory) "rename inode types differ") _
                h3 in
            let (_, h5) =
              >>-eq-ok
                (need (not old.directory || is_nil (keys view.records (directory_prefix replaced)))
                  "target directory is not empty")
                _ h4 in
            absurd (
              leaves_changes
                (if old.directory
                  then retire w view (now 0) old []
                  else unlinked w view (now 0) old [])
                _ h5)
      ]
]

-- The two outcomes of the moves between two places.
abbrev pub Moves : Parent → Parent → Bytes → View → Changes → Type 0
Moves src dst id view c =
    ((c ≡ []) × (entry_id view dst.key ≡ ok id))
    ⊎ ((lookup src.key c ≡ some none) × (lookup dst.key c ≡ some (some id)))

move_outcome :
    (now : ℕ → ℕ) (w : World) (view : View) (src dst : Parent) (n : InodeInfo)
    (parents : Map InodeInfo) (c : Changes)
    → src.key ≡ entry_key src.id src.name
    → dst.key ≡ entry_key dst.id dst.name
    → bytes_eq src.key dst.key ≡ false
    → (make_way now w view n dst parents >>= move_changes now src dst n) ≡ ok c
    → Moves src dst n.id view c
unfolding move_changes
move_outcome now w view src dst n parents c sk dk apart h =
    let (way, made, h1) = >>=-eq-ok (make_way now w view n dst parents) _ h in
    outcome_of way made h1
  where
    outcome_of :
        (way : Option (Changes × Map InodeInfo))
        → make_way now w view n dst parents ≡ ok way
        → move_changes now src dst n way ≡ ok c
        → Moves src dst n.id view c
    outcome_of none made h1 =
        inl (sym (same_ok [] c h1), make_way-same now w view n dst parents made)
    outcome_of (some (first, linked)) made h1 = inr (
        move_changes-lookup now src dst n first c linked sk dk
          (bytes_eq_sym dst.key src.key ∙ apart) h1)

-- What a rename of `source` to `target` that returns has done: either the target names the inode already and
-- nothing is changed, or the source's entry goes and the target's names the inode.
pub record Renames (view : View) (source target : Bytes) (c : Changes) : Type 0 where
  pub src : Parent
  pub dst : Parent
  pub id : Bytes
  pub from : parent view source ≡ ok src
  pub to : parent view target ≡ ok dst
  pub named : entry_id view src.key ≡ ok id
  pub done : Moves src dst id view c

-- A rename that returns takes the source's entry out of the view and puts the same inode under the target, in
-- one set of changes; or, where both names are of one inode, changes nothing.
pub rename_changes-Renames :
    (now : ℕ → ℕ) (w : World) (view : View) (source target : Bytes) (c : Changes)
    → rename_changes now w view source target ≡ ok c
    → Renames view source target c
unfolding rename_changes parent
rename_changes-Renames now w view source target c h =
    let (src, from, h1) = >>=-eq-ok (parent view source) _ h in
    let (_, h2) = >>-eq-ok (need (contains src.key view.records) "source not found") _ h1 in
    let (id, named, h3) = >>=-eq-ok (entry_id view src.key) _ h2 in
    let (n, found, h4) = >>=-eq-ok (inode view id) _ h3 in
    let ((dst, ancestry), placed_at, h5) = >>=-eq-ok (parent_at view target) _ h4 in
    let sk = parent-key view source src from in
    let dk = parent_at-key view target dst ancestry placed_at in
    let to : parent view target ≡ ok dst = parent-parent_at view target dst ancestry placed_at in
    elim (Bool-cases (bytes_eq src.key dst.key)) [
      | inl same ↦
          let h6 = rw same at h5 in
          record {
            src = src;
            dst = dst;
            id = id;
            from = from;
            to = to;
            named = named;
            done = inl (sym (same_ok [] c h6), rw (← bytes_eq-eq src.key dst.key same) named);
          }
      | inr apart ↦
          let h6 = rw apart at h5 in
          let (_, h7) =
            >>-eq-ok
              (need (not (n.directory && mem now id ancestry)) "cannot move directory into itself")
              _ h6 in
          let (pn, _, h8) = >>=-eq-ok (inode view src.id) _ h7 in
          let (tn, _, h9) = >>=-eq-ok (inode view dst.id) _ h8 in
          record {
            src = src;
            dst = dst;
            id = id;
            from = from;
            to = to;
            named = named;
            done =
                subst (λ (x : Bytes). Moves src dst x view c) (inode-id view id n found)
                  (move_outcome now w view src dst n (parents_of now pn tn) c sk dk apart h9);
          }
    ]
