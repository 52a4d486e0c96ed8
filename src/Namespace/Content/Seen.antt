-- ===== src/Namespace/Content/Seen.antt =====
-- What a handle reads after a write through it (`handle_write`, `handle_read`, daemon/namespace.cpp).
use forkfs.Common.{
  ℕ, ◌≤◌, ◌<◌, ◌^◌, ◌≡◌, ◌≢◌, refl, sym, ap, ◌∙◌, Bool, true, false, not, ◌||◌, Option, some, [],
  length, leb, arith, ◌==◌, leb→le, eq→==, not-true,
}
use forkfs.Common.Bytes.{Bytes}
use forkfs.Common.Map.{contains}
use forkfs.Common.Result.{ok, need, >>=-eq-ok, >>-eq-ok, need-eq-ok, same_ok, same_pair}
use forkfs.Handles.{OpenHandle, Table, find_handle}
use forkfs.Namespace.{InodeInfo, inode_key, encode}
use forkfs.Namespace.Records.{IsInode}
use forkfs.Namespace.Changes.{Changes, put, World, commit_changes}
use forkfs.Namespace.Files.{file_limit}
use forkfs.Namespace.Content.{int64_max, slice, splice, edited, fits}
use forkfs.Namespace.Content.Written.{splice-IsWritten}
use forkfs.Namespace.Content.Handled.{
  OpenFile, open_file, selected, edit_handle, write_handle_edit, handle_write, handle_read,
  read_handle_locked,
}
use forkfs.Namespace.Content.Found.{selected_commit, after_edit, open_file-commit}

-- What a write through a handle that does not append has done when it returns.
pub record Wrote (w w' : World) (info : OpenHandle) (time offset : ℕ) (value : Bytes) : Type 0 where
  pub file : OpenFile
  pub opened : open_file w info.inode ≡ ok file
  pub live : w.revision ≡ false
  pub in_range : leb offset int64_max ≡ true
  pub small : length (splice offset value file.content) ≤ 262144
  pub now :
      w'
      ≡ commit_changes w (
          put file.bytes_key (splice offset value file.content) (
            put file.record_key
              (encode (after_edit file.info time (splice offset value file.content)))
              []))

write_handle_edit-inv :
    (offset : ℕ) (value content : Bytes) (info : OpenHandle) (next : ℕ) (r : Option Bytes)
    → info.append ≡ false
    → length value ≢ 0
    → write_handle_edit offset value info content ≡ ok (next, r)
    → r ≡ some (splice offset value content)
unfolding write_handle_edit
write_handle_edit-inv offset value content info next r plain some_bytes h =
    let full : (length value == 0) ≡ false = ground arith in
    let h0 = rw (plain, full) at h in
    let (_, h1) =
      >>-eq-ok (need (fits offset value) "prototype files are limited to 256 KiB") _ h0 in
    cc

pub edited-inv :
    (rk bk b : Bytes) (n : InodeInfo) (time : ℕ) (c : Changes)
    → edited rk bk n time (some b) ≡ ok c
    → (length b ≤ 262144) × (c ≡ put bk b (put rk (encode (after_edit n time b)) []))
unfolding edited
edited-inv rk bk b n time c h =
    let (small, h1) =
      >>-eq-ok (need (leb (length b) file_limit) "prototype files are limited to 256 KiB") _ h in
    (leb→le (length b) 262144 (need-eq-ok _ _ small), cc)

handle_write-Wrote :
    (w w' : World) (t : Table) (token : Bytes) (time offset : ℕ) (value : Bytes) (info : OpenHandle)
    → find_handle t (selected w) token ≡ ok info
    → info.append ≡ false
    → length value ≢ 0
    → handle_write w t token time offset value ≡ ok (tt, w')
    → Wrote w w' info time offset value
unfolding handle_write edit_handle
handle_write-Wrote w w' t token time offset value info found plain some_bytes h =
    let edit = write_handle_edit offset value in
    let (in_range, h1) =
      >>-eq-ok (need (leb offset int64_max) "file offset exceeds signed 64-bit range") _ h in
    let (_, h2) =
      >>-eq-ok (need (leb (length value) file_limit) "prototype files are limited to 256 KiB") _
        h1 in
    let ((next, w''), edits, ended) = >>=-eq-ok (edit_handle w t token time edit) _ h2 in
    let (live, h3) = >>-eq-ok (need (not w.revision) "revision view is read-only") _ edits in
    let h4 = rw found at h3 in
    let (_, h5) = >>-eq-ok (need info.writable "handle is not writable") _ h4 in
    let (f, opened, h6) = >>=-eq-ok (open_file w info.inode) _ h5 in
    let (_, h7) = >>-eq-ok (need (length f.content == f.info.size) "inode size mismatch") _ h6 in
    let ((at, r), made, h8) = >>=-eq-ok (edit info f.content) _ h7 in
    let wrote = write_handle_edit-inv offset value f.content info at r plain some_bytes made in
    let (c, done, h9) = >>=-eq-ok (edited f.record_key f.bytes_key f.info time r) _ h8 in
    let b = splice offset value f.content in
    let (small, changes) =
      edited-inv f.record_key f.bytes_key b f.info time c
        (ap (edited f.record_key f.bytes_key f.info time) (sym wrote) ∙ done) in
    let after = same_pair at next (commit_changes w c) w'' h9 in
    let last = same_pair tt tt w'' w' ended in
    record {
      file = f;
      opened = opened;
      live = not-true w.revision (need-eq-ok _ _ live);
      in_range = need-eq-ok _ _ in_range;
      small = small;
      now = sym last ∙ (sym after ∙ ap (commit_changes w) changes);
    }

or_true : (b : Bool) → (b || true) ≡ true
or_true true = refl
or_true false = refl

-- Bytes that are written through a handle are what a read at their offset gives, for a file that is linked
-- and for one that only its handles keep. The handle reads, and does not append; the file's record fits its
-- fields.
pub handle_read-handle_write :
    (w w' : World) (t : Table) (token : Bytes) (time offset : ℕ) (value : Bytes) (info : OpenHandle)
    (f : OpenFile)
    → find_handle t (selected w) token ≡ ok info
    → info.readable ≡ true
    → info.append ≡ false
    → length value ≢ 0
    → open_file w info.inode ≡ ok f
    → IsInode f.info (not (contains (inode_key info.inode) w.view.records))
    → f.info.directory ≡ false
    → time < 256 ^ 8
    → handle_write w t token time offset value ≡ ok (tt, w')
    → handle_read w' t token offset (length value) ≡ ok value
unfolding handle_read read_handle_locked
handle_read-handle_write w w' t token time offset value info f found reads plain some_bytes opened
      well file soon h =
    let d = handle_write-Wrote w w' t token time offset value info found plain some_bytes h in
    let same : d.file ≡ f = same_ok d.file f (sym d.opened ∙ opened) in
    let n = d.file.info in
    let well' : IsInode n (not (contains (inode_key info.inode) w.view.records)) = rw same well in
    let file' : n.directory ≡ false = rw same file in
    let b = splice offset value d.file.content in
    let (g, opened', info', content') =
      open_file-commit w info.inode b d.file time d.opened well' file' soon d.small in
    let found' : find_handle t (selected w') token ≡ ok info =
      ap (λ x. find_handle t x token) (ap selected d.now ∙ selected_commit w _) ∙ found in
    let live' : w'.revision ≡ false =
      ap (λ x. x.revision) (ap selected d.now ∙ selected_commit w _) ∙ d.live in
    let open' : open_file w' info.inode ≡ ok g = ap (λ x. open_file x info.inode) d.now ∙ opened' in
    let size' : (length g.content == g.info.size) ≡ true =
      rw (content', info') (eq→== (length b) (length b) refl) in
    let seen : slice offset (length value) g.content ≡ value =
      ap (slice offset (length value)) content'
      ∙ (splice-IsWritten offset value d.file.content).written in
    rw (d.in_range, found', reads, live', or_true, open', size') (ap ok seen)
