-- ===== src/Namespace/Content/Placed.antt =====
-- The file that `write_at` leaves (daemon/namespace.cpp).
use forkfs.Common.{
  ℕ, ◌<◌, ◌^◌, ◌≡◌, ◌⊎◌, inl, inr, refl, sym, ap, subst, ◌∙◌, true, false, not, ltb, ◌||◌, none,
  some, [], length, leb, ◌==◌, if◌then◌else◌, arith, not-true, Bool-cases, Option-cases,
}
use forkfs.Common.Bytes.{Bytes}
use forkfs.Common.Map.{lookup, contains}
use forkfs.Common.Result.{ok, need, >>=-eq-ok, >>-eq-ok, need-eq-ok, same_ok, same_pair}
use forkfs.Namespace.{InodeInfo, View, inode_key, content_key, get, inode}
use forkfs.Namespace.Records.{IsInode}
use forkfs.Namespace.Walk.{resolve}
use forkfs.Namespace.Changes.{
  Changes, World, no_changes, hard_run_limit, commit_changes, publish, update,
}
use forkfs.Namespace.Content.{
  int64_max, splice, fits, write_edit, edited, edit_changes, edit_content, write_at,
}
use forkfs.Namespace.Content.Written.{IsWritten, splice-IsWritten}
use forkfs.Namespace.Content.Handled.{OpenFile, open_file}
use forkfs.Namespace.Content.Found.{open_file-commit}
use forkfs.Namespace.Content.Seen.{edited-inv}

-- The file of a linked inode.
abbrev linked_file : Bytes → InodeInfo → Bytes → OpenFile
linked_file id n content = record {
  record_key = inode_key id;
  bytes_key = content_key id;
  info = n;
  content = content;
}

get-contains :
    (view : View) (key b : Bytes) → get view key ≡ ok b → contains key view.records ≡ true
unfolding get
get-contains view key b h = elim (Option-cases (lookup key view.records)) [
  | inl gone ↦ let h0 = rw gone at h in absurd (cc)
  | inr (a, there) ↦ rw (there, contains) refl
]

inode-contains :
    (view : View) (id : Bytes) (n : InodeInfo)
    → inode view id ≡ ok n
    → contains (inode_key id) view.records ≡ true
unfolding inode
inode-contains view id n h =
    let (b, read, _) = >>=-eq-ok (get view (inode_key id)) _ h in
    get-contains view (inode_key id) b read

open_file_linked :
    (w : World) (id : Bytes) (n : InodeInfo) (content : Bytes)
    → inode w.view id ≡ ok n
    → get w.view (content_key id) ≡ ok content
    → open_file w id ≡ ok (linked_file id n content)
unfolding open_file
open_file_linked w id n content read got = rw (inode-contains w.view id n read, read, got) refl

-- The file after a write to `f`: an empty value leaves all as it is, also one beyond the end.
abbrev pub Placed : World → World → Bytes → ℕ → Bytes → OpenFile → Type 0
Placed w w' id offset value f =
    ((length value ≡ 0) × (w' ≡ w))
    ⊎ ((0 < length value)
        × ((g : OpenFile) × (open_file w' id ≡ ok g)
            × IsWritten offset value f.content g.content
            × (g.info.size ≡ length g.content)))

-- The changes of the write of some bytes.
commit-Placed :
    (w : World) (id : Bytes) (n : InodeInfo) (content : Bytes) (time offset : ℕ) (value : Bytes)
    (c : Changes)
    → inode w.view id ≡ ok n
    → get w.view (content_key id) ≡ ok content
    → IsInode n false
    → n.directory ≡ false
    → time < 256 ^ 8
    → 0 < length value
    → edited (inode_key id) (content_key id) n time (some (splice offset value content)) ≡ ok c
    → Placed w (commit_changes w c) id offset value (linked_file id n content)
commit-Placed w id n content time offset value c read got well file soon more made =
    let b = splice offset value content in
    let (small, changes) = edited-inv (inode_key id) (content_key id) b n time c made in
    let f = linked_file id n content in
    let there = inode-contains w.view id n read in
    let (g, found, info, same) =
      open_file-commit w id b f time (open_file_linked w id n content read got) (rw there well) file
        soon small in
    inr (
      more,
      (g, rw changes found, rw same (splice-IsWritten offset value content), rw (info, same) refl),
    )

-- The end of `write_at`, where the file and its changes are known.
finish :
    (w w' : World) (id : Bytes) (n : InodeInfo) (content : Bytes) (time offset : ℕ) (value : Bytes)
    (c : Changes)
    → inode w.view id ≡ ok n
    → get w.view (content_key id) ≡ ok content
    → IsInode n false
    → n.directory ≡ false
    → time < 256 ^ 8
    → edited
        (inode_key id)
        (content_key id)
        n
        time
        (if length value == 0 then none else some (splice offset value content))
      ≡ ok c
    → commit_changes w c ≡ w'
    → Placed w w' id offset value (linked_file id n content)
unfolding edited commit_changes
finish w w' id n content time offset value c read got well file soon made after =
    elim (Bool-cases (length value == 0)) [
      | inl empty ↦
          let none_made = rw empty at made in
          let same : c ≡ [] = sym (same_ok [] c none_made) in
          inl (ground arith, sym after ∙ ap (commit_changes w) same)
      | inr more ↦
          let some_made = rw more at made in
          subst (λ (x : World). Placed w x id offset value (linked_file id n content)) after
            (commit-Placed w id n content time offset value c read got well file soon (ground arith)
              some_made)
    ]

publish-commit : (w w' : World) (c : Changes) → publish w c ≡ ok w' → commit_changes w c ≡ w'
unfolding publish
publish-commit w w' c h =
    let (_, h1) =
      >>-eq-ok (need (no_changes c || ltb w.runs hard_run_limit) "namespace run capacity exhausted")
        _ h in
    same_ok (commit_changes w c) w' h1

-- Where `write_at` returns, an empty value has left everything as it was, whatever the offset; any other stands
-- in the file at the offset: the bytes before it are the old ones, with zeros where the file ended before, those
-- behind it the old ones, and the file, with its recorded size, grows just so far that the value fits.
pub write_at-Placed :
    (w w' : World) (path id : Bytes) (time offset : ℕ) (value : Bytes) (f : OpenFile)
    → resolve w.view path true ≡ ok id
    → open_file w id ≡ ok f
    → IsInode f.info false
    → time < 256 ^ 8
    → write_at w path time offset value ≡ ok (tt, w')
    → Placed w w' id offset value f
unfolding write_at edit_content edit_changes update write_edit
write_at-Placed w w' path id time offset value f found opened well soon h =
    let edit = write_edit offset value in
    let (_, h1) =
      >>-eq-ok (need (leb offset int64_max) "file offset exceeds signed 64-bit range") _ h in
    let (_, h2) =
      >>-eq-ok
        (need ((length value == 0) || fits offset value) "prototype files are limited to 256 KiB") _
        h1 in
    let (_, h3) = >>-eq-ok (need (not w.revision) "revision view is read-only") _ h2 in
    let ((r, c), changed, h4) = >>=-eq-ok (edit_changes w.view path time edit) _ h3 in
    let (w2, published, h5) = >>=-eq-ok (publish w c) _ h4 in
    let after : commit_changes w c ≡ w' =
      publish-commit w w2 c published ∙ same_pair r tt w2 w' h5 in
    let h6 = rw found at changed in
    let (n, read, h7) = >>=-eq-ok (inode w.view id) _ h6 in
    let (file, h8) = >>-eq-ok (need (not n.directory) "cannot modify directory content") _ h7 in
    let (content, got, h9) = >>=-eq-ok (get w.view (content_key id)) _ h8 in
    let (_, h10) = >>-eq-ok (need (length content == n.size) "inode size mismatch") _ h9 in
    let (c', made, h11) =
      >>=-eq-ok
        (edited (inode_key id) (content_key id) n time
          (if length value == 0 then none else some (splice offset value content)))
        _ h10 in
    let same : linked_file id n content ≡ f =
      same_ok _ f (sym (open_file_linked w id n content read got) ∙ opened) in
    subst (λ (x : OpenFile). Placed w w' id offset value x) same
      (finish w w' id n content time offset value c' read got
        (subst (λ (x : OpenFile). IsInode x.info false) (sym same) well)
        (not-true n.directory (need-eq-ok _ _ file)) soon made
        (ap (commit_changes w) (same_pair tt r c' c h11) ∙ after))
