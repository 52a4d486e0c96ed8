-- ===== src/LiveView/Listing.antt =====
-- What a list of extended attributes shows (core/src/view.cpp).
use forkfs.Common.{
  ℕ, ◌+◌, ◌<◌, ◌⊎◌, leb, leb→le, ◌≤◌, ◌≡◌, refl, sym, ap, ◌∙◌, inl, inr, Bool, true, false, Option,
  none, some, List, [], ◌∷◌, ◌++◌, ◌==◌, if◌then◌else◌, arith, All, Bool-cases, length,
  length-append,
}
use forkfs.Common.Bytes.{Bytes}
use forkfs.Common.Result.{Result, ok, err}
use forkfs.LiveView.Types.{Fs, View}
use forkfs.LiveView.Xattrs.{listxattr, keep_names, fits}
use forkfs.LiveView.Paths.{has_byte, path_locked}
use mathlib.Core.List.{append_assoc, append-nil}

-- The names, each with the NUL that ends it.
unfoldable pub terminate : List Bytes → Bytes
terminate [] = []
terminate (name ∷ names) = name ++ (0 ∷ terminate names)

unfoldable pub visible : (Bytes → Bool) → List Bytes → List Bytes
visible hidden [] = []
visible hidden (name ∷ names) =
    let rest = visible hidden names in if hidden name then rest else name ∷ rest

abbrev pub HasNoNul : Bytes → Type 0
HasNoNul name = has_byte 0 name ≡ false

-- What the loop gives once the whole list fits, or does not.
abbrev shown : Option ℕ → Bytes → Result Bytes
shown cap text = if fits cap (length text) then ok text else err "ERANGE"

read_name :
    (hidden : Bytes → Bool) (cap : Option ℕ) (out before name : Bytes) (tmp : Bytes)
    → HasNoNul name
    → keep_names hidden cap out before (name ++ tmp)
      ≡ keep_names hidden cap out (before ++ name) tmp
unfolding keep_names has_byte
read_name hidden cap out before [] tmp h =
    ap (λ (n : Bytes). keep_names hidden cap out n tmp) (sym (append-nil before))
read_name hidden cap out before (c ∷ name) tmp h = elim (Bool-cases (c == 0)) [
  | inl nul ↦ let h' = rw nul at h in cc
  | inr other ↦ rw other (
      read_name hidden cap out (before ++ (c ∷ [])) name tmp (let h' = rw other at h in h')
      ∙ ap (λ (n : Bytes). keep_names hidden cap out n tmp) (append_assoc before (c ∷ []) name))
]

-- A longer text fits only if a shorter one does.
fits_mono : (cap : Option ℕ) (m n : ℕ) → m ≤ n → fits cap m ≡ false → fits cap n ≡ false
fits_mono none m n h f = f
fits_mono (some cap) m n h f = ground arith

extent : (out name : Bytes) → length (out ++ (name ++ (0 ∷ []))) ≡ length out + length name + 1
extent out name = omega (arith, length-append out (name ++ (0 ∷ [])), length-append name (0 ∷ []))

within :
    (out name rest : Bytes) → length out + length name + 1 ≤ length (out ++ (name ++ (0 ∷ rest)))
within out name rest =
    omega (arith, length-append out (name ++ (0 ∷ rest)), length-append name (0 ∷ rest))

regroup :
    (out name rest : Bytes) → (out ++ (name ++ (0 ∷ []))) ++ rest ≡ out ++ (name ++ (0 ∷ rest))
regroup out name rest = simp (append_assoc)

-- The loop over a list of names keeps, in order, those that are not hidden, and fails just where they do not
-- all fit.
keep_names-terminate :
    (hidden : Bytes → Bool) (cap : Option ℕ) (out : Bytes) (names : List Bytes)
    → All HasNoNul names
    → fits cap (length out) ≡ true
    → keep_names hidden cap out [] (terminate names)
      ≡ shown cap (out ++ terminate (visible hidden names))
unfolding keep_names terminate visible
keep_names-terminate hidden cap out [] a f = rw (append-nil out) (rw f refl)
keep_names-terminate hidden cap out (name ∷ names) a f =
    read_name hidden cap out [] name (0 ∷ terminate names) a.0 ∙ elim (Bool-cases (hidden name)) [
      | inl own ↦ rw own (keep_names-terminate hidden cap out names a.1 f)
      | inr other ↦ rw other (elim (Bool-cases (fits cap (length out + length name + 1))) [
        | inr small ↦
            rw
              (
                small,
                fits_mono cap _ (length (out ++ (name ++ (0 ∷ terminate (visible hidden names)))))
                    (within out name (terminate (visible hidden names))) small,
              )
              refl
        | inl room ↦ rw room (
            keep_names-terminate hidden cap (out ++ (name ++ (0 ∷ []))) names a.1
              (rw (extent out name) room)
            ∙ ap (shown cap) (regroup out name (terminate (visible hidden names))))
      ])
    ]

-- Room for `size` bytes in the buffer, if there is one, and none.
abbrev pub HasRoom : Option ℕ → ℕ → Type 0
HasRoom none size = Unit {0}
HasRoom (some cap) size = size ≤ cap

abbrev pub HasNoRoom : Option ℕ → ℕ → Type 0
HasNoRoom none size = ⊥
HasNoRoom (some cap) size = cap < size

-- The whole text, into a buffer that holds it, or ERANGE for one that is too short.
abbrev pub Answers : Option ℕ → Bytes → Result Bytes → Type 0
Answers cap text r =
    ((r ≡ ok text) × HasRoom cap (length text)) ⊎ ((r ≡ err "ERANGE") × HasNoRoom cap (length text))

shown-Answers : (cap : Option ℕ) (text : Bytes) → Answers cap text (shown cap text)
shown-Answers none text = inl (refl, tt)
shown-Answers (some cap) text = elim (Bool-cases (leb (length text) cap)) [
  | inl room ↦ rw room (inl (refl, leb→le (length text) cap room))
  | inr short ↦ rw short (inr (refl, ground arith))
]

length-terminate : (names : List Bytes) → length (terminate names) ≡ 0 → names ≡ []
unfolding terminate
length-terminate [] h = refl
length-terminate (name ∷ names) h = absurd (omega (arith, length-append name (0 ∷ terminate names)))

fits_zero : (cap : Option ℕ) → fits cap 0 ≡ true
fits_zero none = refl
fits_zero (some cap) = ground arith

nothing_shown :
    {Disk : Type 0} (own : Bytes → Bool) (cap : Option ℕ) (names : List Bytes) (v : View Disk)
    → names ≡ []
    → ◌≡◌ {A = Result Bytes × View Disk} (ok [], v) (shown cap (terminate (visible own names)), v)
unfolding terminate visible
nothing_shown own cap names v gone = rw gone (rw (fits_zero cap) refl)

module _ {Disk : Type 0} (fs : Fs Disk) where
  listxattr-shown :
      (ino : ℕ) (cap : Option ℕ) (v : View Disk) (p : Bytes) (names : List Bytes)
      → path_locked v ino ≡ ok p
      → fs.fs_list_size p v.disk ≡ ok (length (terminate names))
      → fs.fs_listxattr p (length (terminate names)) v.disk ≡ ok (terminate names)
      → All HasNoNul names
      → listxattr fs ino cap v ≡ (
        shown cap (terminate (visible (λ name. fs.fs_xattr_is_own_quarantine p name v.disk) names)),
        v,
      )
  unfolding listxattr
  listxattr-shown ino cap v p names e f g a =
      let own = λ (name : Bytes). fs.fs_xattr_is_own_quarantine p name v.disk in
      rw (e, f, listxattr)
        (elim (Bool-cases (length (terminate names) == 0)) [
          | inl empty ↦
              let gone : names ≡ [] = length-terminate names (ground arith) in
              rw empty (nothing_shown own cap names v gone)
          | inr some' ↦
              rw (some', g)
                (ap (λ r. (r, v)) (keep_names-terminate own cap [] names a (fits_zero cap)))
        ])

  -- Where the platform lists some names of attributes, listxattr gives those of them that are not the process's
  -- own quarantine marks, in order and each ended by a NUL; with a buffer that is shorter than these, and only
  -- then, it fails with ERANGE. It changes nothing.
  pub listxattr-visible :
      (ino : ℕ) (cap : Option ℕ) (v : View Disk) (p : Bytes) (names : List Bytes)
      → path_locked v ino ≡ ok p
      → fs.fs_list_size p v.disk ≡ ok (length (terminate names))
      → fs.fs_listxattr p (length (terminate names)) v.disk ≡ ok (terminate names)
      → All HasNoNul names
      → (r : Result Bytes) × (listxattr fs ino cap v ≡ (r, v))
        × Answers cap
            (terminate (visible (λ name. fs.fs_xattr_is_own_quarantine p name v.disk) names))
            r
  listxattr-visible ino cap v p names e f g a =
      let text = terminate (visible (λ name. fs.fs_xattr_is_own_quarantine p name v.disk) names) in
      (shown cap text, listxattr-shown ino cap v p names e f g a, shown-Answers cap text)
