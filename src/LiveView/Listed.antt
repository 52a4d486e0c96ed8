-- ===== src/LiveView/Listed.antt =====
-- Enumerating a directory keeps the invariant of the view (core/src/view.cpp).
use forkfs.Common.{
  ℕ, ◌+◌, ◌≡◌, ◌⊎◌, inl, inr, Bool, true, false, ◌||◌, List, [], ◌∷◌, ltb, All, Bool-cases,
}
use forkfs.Common.Bytes.{Bytes}
use forkfs.Common.Result.{Result, ok, err, Result-cases}
use forkfs.LiveView.Types.{Attr, RawEntry, Dirent, Fs, View}
use forkfs.LiveView.Paths.{path_locked}
use forkfs.LiveView.Readdir.{
  each, ReaddirCtx, is_dot, is_dotdot, found, readdir_trampoline, readdir, context,
}
use forkfs.LiveView.Confined.{IsName}
use forkfs.LiveView.Keeps.{Inv, renamed, interned-NamesValid}

-- What ::readdir gives: "." and "..", and names that can stand in a directory.
abbrev pub IsEntry : RawEntry → Type 0
IsEntry e = ((is_dot e.name || is_dotdot e.name) ≡ true) ⊎ IsName e.name

abbrev pub Lists : {Disk : Type 0} → Fs Disk → Type 0
Lists {Disk} fs =
    (path : Bytes) (disk : Disk) (es : List RawEntry)
    → fs.opendir path disk ≡ ok es
    → All IsEntry es

each_inv :
    {S : Type 0} (P : S → Type 0) (Q : RawEntry → Type 0) (cb : RawEntry → ℕ → S → Bool × S)
    → ((e : RawEntry) (i : ℕ) (s : S) → Q e → P s → P (cb e i s).1)
    → (skip index : ℕ) (es : List RawEntry) (s : S) → All Q es
    → P s
    → P (each cb skip index es s)
unfolding each
each_inv P Q cb keep skip index [] s q p = p
each_inv P Q cb keep skip index (e ∷ es) s q p = elim (Bool-cases (ltb index skip)) [
  | inl early ↦ rw early (each_inv P Q cb keep skip (index + 1) es s q.1 p)
  | inr due ↦ elim (Bool-cases (cb e index s).0) [
    | inl stop ↦ rw (due, stop) (keep e index s q.0 p)
    | inr more ↦
        rw (due, more)
          (each_inv P Q cb keep skip (index + 1) es (cb e index s).1 q.1 (keep e index s q.0 p))
  ]
]

plain_name :
    (e : RawEntry) → (is_dot e.name || is_dotdot e.name) ≡ false → IsEntry e → IsName e.name
plain_name e plain (inl dots) = cc
plain_name e plain (inr good) = good

module _ {Disk C : Type 0} (base : Bytes) (fs : Fs Disk) (cb : Dirent → C → Bool × C) where
  abbrev Held : View Disk × C → Type 0
  Held s = Inv base s.0

  found-Inv :
      (x : ReaddirCtx) (e : RawEntry) (index : ℕ) (v : View Disk) (c : C) (r : Result Attr)
      → IsName e.name
      → Inv base v
      → Held (found fs cb x e index v c r).1
  found-Inv x e index v c (err z) good inv = inv
  found-Inv x e index v c (ok a) good inv =
      renamed v _ (interned-NamesValid x.dir_ino e.name a v.nodes good inv.named) inv

  trampoline-Inv :
      (x : ReaddirCtx) (e : RawEntry) (index : ℕ) (s : View Disk × C)
      → IsEntry e
      → Held s
      → Held (readdir_trampoline fs cb x e index s).1
  unfolding readdir_trampoline
  trampoline-Inv x e index (v, c) q inv = elim (Bool-cases (is_dot e.name || is_dotdot e.name)) [
    | inl dots ↦
        rw dots (elim (Bool-cases x.emit_dots) [ inl emit ↦ rw emit inv | inr hide ↦ rw hide inv ])
    | inr plain ↦ rw plain (elim (Bool-cases x.want_attr) [
      | inr bare ↦ rw bare inv
      | inl full ↦ rw full (found-Inv x e index v c _ (plain_name e plain q) inv)
    ])
  ]

  pub readdir-Inv :
      (dir cookie : ℕ) (want_attr : Bool) (c : C) (v : View Disk)
      → Lists fs
      → Inv base v
      → Inv base (readdir fs cb dir cookie want_attr c v).1
  unfolding readdir
  readdir-Inv dir cookie want_attr c v lists inv = elim (Result-cases (path_locked v dir)) [
    | inr (z, e) ↦ rw (e, readdir) inv
    | inl (p, e) ↦
        rw (e, readdir)
          (elim (Result-cases (fs.opendir p v.disk)) [
            | inr (z, f) ↦ rw f inv
            | inl (es, f) ↦ rw f (
                each_inv Held IsEntry (readdir_trampoline fs cb (context fs cb dir p want_attr v))
                  (trampoline-Inv (context fs cb dir p want_attr v)) cookie 0 es (v, c)
                  (lists p v.disk es f) inv)
          ])
  ]
