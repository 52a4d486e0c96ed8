-- ===== src/Namespace/Listing/Pages.antt =====
-- The pages of a directory cursor (`read_directory`, daemon/namespace.cpp), joined, are the directory.
use forkfs.Common.{
  ℕ, suc, ◌+◌, ◌≤◌, ◌<◌, ◌≡◌, ◌≢◌, refl, subst, Bool, true, false, ◌&&◌, ◌||◌, ◌⊎◌, inl, inr, List,
  [], ◌++◌, length, leb, ltb, ◌==◌, if◌then◌else◌, take, arith, Bool-cases, le→leb,
}
use forkfs.Common.Bytes.{Bytes, starts_with}
use forkfs.Common.Map.{Map, IsOrdered}
use forkfs.Common.Result.{Result, ok, err, >>=-eq-ok, >>-eq-ok, need}
use forkfs.View.Run.{ObjectId}
use forkfs.Tree.Picks.{picked}
use forkfs.Namespace.{View}
use forkfs.Namespace.Files.{names_after}
use forkfs.Namespace.Listing.{
  DirectoryCursor, DirectoryPage, Caller, last_or, belongs, entries_of, next_page, read_directory,
}
use forkfs.Namespace.Listing.Picked.{picked-drop}
use forkfs.Namespace.Listing.Cut.{
  lt→leb_false, take_more, take_short, drop_more, length-names_after, names_after-split, append_nil,
}

-- The names that a cursor has still to give.
abbrev pub left : Map ObjectId → DirectoryCursor → List Bytes
left m c = if c.done then [] else names_after (length c.prefix) (picked c.prefix c.after m)

-- What one page is: the next names, at most `limit`. It says that it is the last where no name is left, and
-- only there; any other has exactly `limit` names.
pub record IsPage (m : Map ObjectId) (c c' : DirectoryCursor) (limit : ℕ) (page : DirectoryPage)
    : Type 0 where
  pub joined : page.names ++ left m c' ≡ left m c
  pub bounded : length page.names ≤ limit
  pub ended :
      ((page.eof ≡ true) × (left m c' ≡ []))
      ⊎ ((page.eof ≡ false) × (0 < length (left m c')) × (length page.names ≡ limit))
  pub manifest : c'.manifest ≡ c.manifest
  pub prefix : c'.prefix ≡ c.prefix

-- The page and the cursor after it, for what is shown of the keys.
abbrev Shows : DirectoryCursor → DirectoryCursor → DirectoryPage → Bool → List Bytes → Type 0
Shows c c' page eof shown =
    (page.names ≡ names_after (length c.prefix) shown)
    × (page.eof ≡ eof)
    × (c' ≡ record c { after = last_or c.after shown; done = eof })

add_one : (n : ℕ) → n + 1 ≡ suc n
add_one n = omega arith

over-IsPage :
    (m : Map ObjectId) (c c' : DirectoryCursor) (limit : ℕ) (page : DirectoryPage)
    → c.done ≡ true
    → page.names ≡ []
    → page.eof ≡ true
    → c ≡ c'
    → IsPage m c c' limit page
over-IsPage m c c' limit page over names eof same = rw (← same) (record {
  joined = rw names refl;
  bounded = rw names (omega arith);
  ended = inl (eof, rw over refl);
  manifest = refl;
  prefix = refl;
})

Shows-IsPage_last :
    (m : Map ObjectId) (c c' : DirectoryCursor) (limit : ℕ) (page : DirectoryPage)
    → c.done ≡ false
    → length (picked c.prefix c.after m) ≤ limit
    → Shows c c' page true (picked c.prefix c.after m)
    → IsPage m c c' limit page
Shows-IsPage_last m c c' limit page open_c few (names, eof, after) = rw after (record {
  joined =
      rw (names, open_c) (append_nil (names_after (length c.prefix) (picked c.prefix c.after m)));
  bounded = rw (names, length-names_after) few;
  ended = inl (eof, refl);
  manifest = refl;
  prefix = refl;
})

Shows-IsPage_more :
    (m : Map ObjectId) (c c' : DirectoryCursor) (limit : ℕ) (page : DirectoryPage)
    → IsOrdered m
    → length c.prefix ≢ 0
    → c.done ≡ false
    → limit < length (picked c.prefix c.after m)
    → length (take limit (picked c.prefix c.after m)) ≡ limit
    → Shows c c' page false (take limit (picked c.prefix c.after m))
    → IsPage m c c' limit page
Shows-IsPage_more m c c' limit page o full open_c many exact (names, eof, after) =
    rw after (record {
      joined =
          rw (names, open_c, picked-drop limit c.prefix c.after m full o)
            (names_after-split (length c.prefix) limit (picked c.prefix c.after m));
      bounded = rw (names, length-names_after, exact) (omega arith);
      ended = inr (
        eof,
        rw (picked-drop limit c.prefix c.after m full o, length-names_after)
            (drop_more limit (picked c.prefix c.after m) many),
        rw (names, length-names_after) exact,
      );
      manifest = refl;
      prefix = refl;
    })

module _ (page_of : ObjectId → Bytes → Bytes → ℕ → Result (List Bytes))
    (snapshot_of : ObjectId → View) where
  next_page-Shows :
      (c c' : DirectoryCursor) (limit : ℕ) (attributes eof : Bool) (page : DirectoryPage)
      (keys shown : List Bytes)
      → leb (length keys) limit ≡ eof
      → (if eof then keys else take limit keys) ≡ shown
      → next_page page_of snapshot_of c limit attributes keys ≡ ok (page, c')
      → Shows c c' page eof shown
  unfolding next_page
  next_page-Shows c c' limit attributes eof page keys shown few seen h =
      let h0 = rw (few, seen, next_page) at h in
      let (entries, _, h1) =
        >>=-eq-ok
          (if attributes
            then entries_of page_of snapshot_of (snapshot_of c.manifest) (length c.prefix) shown
            else ok [])
          _ h0 in
      (cc, cc, cc)

  next_page-IsPage :
      (m : Map ObjectId) (c c' : DirectoryCursor) (limit : ℕ) (attributes : Bool)
      (page : DirectoryPage)
      → IsOrdered m
      → length c.prefix ≢ 0
      → c.done ≡ false
      → next_page page_of snapshot_of c limit attributes
          (take (suc limit) (picked c.prefix c.after m))
        ≡ ok (page, c')
      → IsPage m c c' limit page
  next_page-IsPage m c c' limit attributes page o full open_c h =
      let keys = picked c.prefix c.after m in
      elim (take_more limit keys) [
        | inl (few, all) ↦
            let h' = rw all at h in
            Shows-IsPage_last m c c' limit page open_c (subst (λ ks. length ks ≤ limit) all few) (
              next_page-Shows c c' limit attributes true page keys keys
                (le→leb (length keys) limit (subst (λ ks. length ks ≤ limit) all few)) refl h')
        | inr (many, front, exact) ↦
            Shows-IsPage_more m c c' limit page o full open_c
              (omega (arith, many, take_short (suc limit) keys)) exact
              (next_page-Shows c c' limit attributes false page (take (suc limit) keys)
                (take limit keys) (lt→leb_false limit (length (take (suc limit) keys)) many) front
                h)
      ]

  -- Where the pages of a snapshot are what its tree gives, the first keys behind a key with the prefix, a read
  -- that returns gives the next names of the directory, and leaves the cursor at those that follow: pages
  -- read on until the end are the directory, in order, with no name left out and none twice. A page has at
  -- most `limit` names; `eof` says just whether none is left behind it, and a page with more to come has
  -- exactly `limit`.
  pub read_directory-IsPage :
      (m : Map ObjectId) (ns : Caller) (c c' : DirectoryCursor) (limit : ℕ) (attributes : Bool)
      (page : DirectoryPage)
      → IsOrdered m
      → length c.prefix ≢ 0
      → ((after : Bytes) (count : ℕ)
          → page_of c.manifest c.prefix after count ≡ (
              if ltb 0 count
                && (leb count 1025 && (length after == 0 || starts_with after c.prefix))
              then ok (take count (picked c.prefix after m))
              else err "invalid metadata page request"))
      → read_directory page_of snapshot_of ns c limit attributes ≡ ok (page, c')
      → IsPage m c c' limit page
  unfolding read_directory
  read_directory-IsPage m ns c c' limit attributes page o full pages h =
      let (_, h1) =
        >>-eq-ok (need (leb 1 limit && leb limit 1024) "directory page limit must be 1..1024") _
          h in
      let (_, h2) =
        >>-eq-ok (need (belongs ns c) "directory cursor belongs to another repository/view") _ h1 in
      elim (Bool-cases c.done) [
        | inl over ↦ let h3 = rw over at h2 in over-IsPage m c c' limit page over (cc) (cc) (cc)
        | inr open_c ↦
            let h3 = rw open_c at h2 in
            let count = limit + 1 in
            elim (Bool-cases (
              ltb 0 count
              && (leb count 1025 && (length c.after == 0 || starts_with c.after c.prefix)))) [
                | inr bad ↦ let h4 = rw (pages c.after count, bad) at h3 in absurd (cc)
                | inl fine ↦
                    let h4 = rw (pages c.after count, fine, add_one limit) at h3 in
                    next_page-IsPage m c c' limit attributes page o full open_c h4
              ]
      ]
