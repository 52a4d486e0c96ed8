-- ===== src/Namespace/Names/Paths.antt =====
-- What `components` (daemon/namespace.cpp) accepts: exactly the absolute paths of plain names.
use forkfs.Common.{
  ℕ, ◌≤◌, ◌≡◌, ◌≢◌, ◌↔◌, refl, sym, ◌∙◌, ap, subst, true, false, not, ◌&&◌, inl, inr, List, [], ◌∷◌,
  length, leb, ◌==◌, if◌then◌else◌, arith, All, Bool-cases, &&-split, leb→le, le→leb,
}
use forkfs.Common.Bytes.{Bytes, codes, bytes_eq, bytes_eq_refl, bytes_eq-cases}
use forkfs.Common.Result.{ok, Result-cases}
use forkfs.Namespace.{all_of}
use forkfs.Namespace.Names.Split.{
  split, is_empty, joined, IsSegment, split-joined, split-segments, split-cons,
}
use forkfs.Namespace.Names.{printable, name_test, is_trailing, checked, components, IsComponent}

-- "/" for no names, else a slash before each.
abbrev pub absolute : List Bytes → Bytes
absolute [] = codes "/"
absolute (name ∷ names) = joined (name ∷ names)

abbrev Plain : ℕ → Type 0
Plain c = (32 ≤ c) × (c ≤ 126) × (c ≢ b'/')

printable-All : (name : Bytes) → IsSegment name → all_of printable name ≡ true → All Plain name
printable-All [] s h = tt
printable-All (c ∷ cs) s h =
    let (p, rest) = &&-split (printable c) (all_of printable cs) h in
    ((ground arith, ground arith, s.0), printable-All cs s.1 rest)

All-printable : (name : Bytes) → All Plain name → (all_of printable name ≡ true) × IsSegment name
All-printable [] a = (refl, tt)
All-printable (c ∷ cs) a =
    let (rest, s) = All-printable cs a.1 in
    let here : printable c ≡ true = ground (arith, a.0) in (rw here rest, (a.0.2, s))

ne-not : (xs ys : Bytes) → xs ≢ ys → not (bytes_eq xs ys) ≡ true
ne-not xs ys d = elim (bytes_eq-cases xs ys) [ inl (same, _) ↦ absurd (d same) | inr n ↦ rw n ]

not-ne : (xs ys : Bytes) → not (bytes_eq xs ys) ≡ true → xs ≢ ys
not-ne xs ys n same = let n' = rw (same, bytes_eq_refl ys) at n in cc

not_empty-ne : (name : Bytes) → not (is_empty name) ≡ true → name ≢ []
unfolding is_empty
not_empty-ne [] h same = cc
not_empty-ne (c ∷ cs) h same = cc

ne-not_empty : (name : Bytes) → name ≢ [] → not (is_empty name) ≡ true
unfolding is_empty
ne-not_empty [] d = absurd (d refl)
ne-not_empty (c ∷ cs) d = refl

tests-IsComponent :
    (name : Bytes)
    → IsSegment name
    → name_test name ≡ true
    → all_of printable name ≡ true
    → IsComponent name
unfolding name_test
tests-IsComponent name s t p =
    let (full, t1) = &&-split _ _ t in
    let (dot, t2) = &&-split _ _ t1 in
    let (dots, short) = &&-split _ _ t2 in
    (
      not_empty-ne name full,
      not-ne name (codes ".") dot,
      not-ne name (codes "..") dots,
      leb→le (length name) 255 short,
      printable-All name s p,
    )

IsComponent-name_test : (name : Bytes) → IsComponent name → name_test name ≡ true
unfolding name_test
IsComponent-name_test name (full, dot, dots, short, plain) = rw (
  ne-not_empty name full,
  ne-not name (codes ".") dot,
  ne-not name (codes "..") dots,
  le→leb (length name) 255 short,
)

is_trailing-All : (names : List Bytes) → All IsComponent names → is_trailing names ≡ false
unfolding is_trailing is_empty
is_trailing-All [] a = refl
is_trailing-All ([] ∷ []) a = absurd (a.0.0 refl)
is_trailing-All ((c ∷ cs) ∷ []) a = refl
is_trailing-All (name ∷ more ∷ rest) a = refl

checked-All : (names : List Bytes) → All IsComponent names → checked names ≡ ok names
unfolding checked
checked-All [] a = refl
checked-All (name ∷ rest) a = rw (
  IsComponent-name_test name a.0,
  (All-printable name a.0.4).0,
  is_trailing-All rest a.1,
  checked-All rest a.1,
)

checked-inv :
    (parts names : List Bytes)
    → All IsSegment parts
    → checked parts ≡ ok names
    → (names ≡ parts) × All IsComponent parts
unfolding checked
checked-inv [] names s h = (ground arith, tt)
checked-inv (name ∷ rest) names s h = elim (Bool-cases (name_test name)) [
  | inr bad ↦ let h' = rw bad at h in absurd (cc)
  | inl t ↦ elim (Bool-cases (all_of printable name)) [
    | inr bad ↦ let h' = rw (t, bad) at h in absurd (cc)
    | inl p ↦ elim (Bool-cases (is_trailing rest)) [
      | inl bad ↦ let h' = rw (t, p, bad) at h in absurd (cc)
      | inr more ↦ elim (Result-cases (checked rest)) [
        | inr (m, bad) ↦ let h' = rw (t, p, more, bad) at h in absurd (cc)
        | inl (found, good) ↦
            let (same, all) = checked-inv rest found s.1 good in
            let h' = rw (t, p, more, good) at h in
            (
              let e : name ∷ found ≡ names = cc in sym e ∙ ap (◌∷◌ name) same,
              (tests-IsComponent name s.0 t p, all),
            )
      ]
    ]
  ]
]

IsComponent-IsSegment : (names : List Bytes) → All IsComponent names → All IsSegment names
IsComponent-IsSegment [] a = tt
IsComponent-IsSegment (name ∷ names) a =
    ((All-printable name a.0.4).1, IsComponent-IsSegment names a.1)

components-absolute :
    (names : List Bytes)
    → All IsComponent names
    → length (absolute names) ≤ 4096
    → components (absolute names) ≡ ok names
unfolding components joined is_empty
components-absolute [] a short = refl
components-absolute ([] ∷ names) a short = absurd (a.0.0 refl)
components-absolute ((c ∷ cs) ∷ names) a short =
    let segments = IsComponent-IsSegment ((c ∷ cs) ∷ names) a in
    rw (
      le→leb (length (absolute ((c ∷ cs) ∷ names))) 4096 short,
      split-segments (c ∷ cs) names segments.0 segments.1,
      checked-All ((c ∷ cs) ∷ names) a,
    )

absolute-split : (cs : Bytes) → absolute (split cs) ≡ joined (split cs)
absolute-split cs =
    let (first, rest, e) = split-cons cs in
    subst (λ (parts : List Bytes). absolute parts ≡ joined parts) (sym e) refl

absolute-checked :
    (cs : Bytes) (names : List Bytes)
    → checked (split cs) ≡ ok names
    → (b'/' ∷ cs ≡ absolute names) × All IsComponent names
absolute-checked cs names h =
    let (segments, joins) = split-joined cs in
    let (same, all) = checked-inv (split cs) names segments h in
    (sym joins ∙ sym (absolute-split cs) ∙ ap absolute (sym same), rw same all)

rooted :
    (c : ℕ) (cs : Bytes) (names : List Bytes)
    → c ≡ b'/'
    → (if is_empty cs then ok [] else checked (split cs)) ≡ ok names
    → (c ∷ cs ≡ absolute names) × All IsComponent names
unfolding is_empty
rooted c [] names slash h =
    let none_left : [] ≡ names = cc in
    subst (λ ns. (c ∷ [] ≡ absolute ns) × All IsComponent ns) none_left
      (ap (λ (x : ℕ). x ∷ []) slash, tt)
rooted c (d ∷ cs) names slash h = rw slash (absolute-checked (d ∷ cs) names h)

components-inv :
    (path : Bytes) (names : List Bytes)
    → components path ≡ ok names
    → (path ≡ absolute names) × All IsComponent names × (length path ≤ 4096)
unfolding components
components-inv [] names h = absurd (cc)
components-inv (c ∷ cs) names h = elim (Bool-cases ((c == b'/') && leb (length (c ∷ cs)) 4096)) [
  | inr bad ↦ let h' = rw bad at h in absurd (cc)
  | inl good ↦
      let (slash, short) = &&-split (c == b'/') (leb (length (c ∷ cs)) 4096) good in
      let c_slash : c ≡ b'/' = ground arith in
      let fits = leb→le (length (c ∷ cs)) 4096 short in
      let (e, all) = rooted c cs names c_slash (rw good at h) in (e, all, fits)
]

-- `components` gives names exactly if the path is those names with a slash before each, or "/" for none, of
-- at most 4096 bytes, where every name is 1 to 255 printable bytes without a slash, and is not "." or "..".
pub components-absolute_iff :
    (path : Bytes) (names : List Bytes)
    → (components path ≡ ok names)
      ↔ ((path ≡ absolute names) × All IsComponent names × (length path ≤ 4096))
components-absolute_iff path names = (
  components-inv path names,
  λ (e, all, short). rw e (components-absolute names all (rw (← e) short)),
)
