-- ===== src/LiveView/Confined.antt =====
-- Every path that a view builds lies below its base directory: no name in it is empty, "." or "..", or has a
-- slash (core/src/view.cpp).
use forkfs.Common.{
  ℕ, zero, suc, ◌≡◌, ◌≢◌, refl, sym, ap, ◌∙◌, inl, inr, Bool, true, false, not, ◌||◌, some, List,
  [], ◌∷◌, ◌++◌, ◌==◌, arith, All, All-append, Bool-cases, Option-cases, ||-split,
}
use forkfs.Common.Bytes.{Bytes, codes, bytes_eq, eq-bytes_eq}
use forkfs.Common.Result.{Result, ok, Result-cases}
use forkfs.LiveView.Types.{NodeRec, Nodes, View}
use forkfs.LiveView.Paths.{
  root, climb, join, max_depth, path_locked, valid_name, has_byte, child_path,
}
use forkfs.LiveView.Ops.{names}

abbrev pub IsName : Bytes → Type 0
IsName name = valid_name name ≡ true

abbrev pub NamesValid : Nodes → Type 0
NamesValid nodes =
    (i : ℕ) (rec : NodeRec) → nodes i ≡ some rec → (i == root) ≡ false → IsName rec.name

-- One step down in a tree: not empty, not "." or "..", without a slash or a NUL.
pub record IsComponent (name : Bytes) : Type 0 where
  pub not_empty : name ≢ []
  pub not_dot : name ≢ codes "."
  pub not_dotdot : name ≢ codes ".."
  pub no_slash : All (λ c. c ≢ b'/') name
  pub no_nul : All (λ c. c ≢ 0) name

has_byte-All : (b : ℕ) (name : Bytes) → has_byte b name ≡ false → All (λ c. c ≢ b) name
unfolding has_byte
has_byte-All b [] h = tt
has_byte-All b (c ∷ cs) h =
    let (other, rest) = ||-split (c == b) _ h in
    (λ same. absurd (ground arith), has_byte-All b cs rest)

neither : (a b : Bool) → not (a || b) ≡ true → (a ≡ false) × (b ≡ false)
neither true b h = cc
neither false true h = cc
neither false false h = (refl, refl)

differ : (xs ys : Bytes) → bytes_eq xs ys ≡ false → xs ≢ ys
differ xs ys h same = let e = eq-bytes_eq xs ys same in cc

IsName-IsComponent : (name : Bytes) → IsName name → IsComponent name
unfolding valid_name
IsName-IsComponent [] h = cc
IsName-IsComponent (c ∷ cs) h = elim (Bool-cases (has_byte b'/' (c ∷ cs) || has_byte 0 (c ∷ cs))) [
  | inl bad ↦ let h' = rw bad at h in cc
  | inr good ↦
      let (slash, nul) = ||-split (has_byte b'/' (c ∷ cs)) (has_byte 0 (c ∷ cs)) good in
      let h' = rw good at h in
      let (dot, dotdot) =
        neither (bytes_eq (c ∷ cs) (b'.' ∷ [])) (bytes_eq (c ∷ cs) (b'.' ∷ b'.' ∷ [])) h' in
      record {
        not_empty = λ same. cc;
        not_dot = λ same. differ (c ∷ cs) (codes ".") dot same;
        not_dotdot = λ same. differ (c ∷ cs) (codes "..") dotdot same;
        no_slash = has_byte-All b'/' (c ∷ cs) slash;
        no_nul = has_byte-All 0 (c ∷ cs) nul;
      }
]

All-IsComponent : (names : List Bytes) → All IsName names → All IsComponent names
All-IsComponent [] a = tt
All-IsComponent (name ∷ names) a = (IsName-IsComponent name a.0, All-IsComponent names a.1)

-- What a path is: the base directory, then names that stay below it.
abbrev pub IsBelow : Bytes → Bytes → Type 0
IsBelow base path = (names : List Bytes) × All IsComponent names × (path ≡ join base names)

climb-All :
    (left : ℕ) (nodes : Nodes) (cur : ℕ) (names : List Bytes) {found : List Bytes}
    → NamesValid nodes
    → All IsName names
    → climb left nodes cur names ≡ ok found
    → All IsName found
unfolding climb
climb-All zero nodes cur names n a h = elim (Bool-cases (cur == root)) [
  | inl top ↦ let h' = rw top at h in ground arith
  | inr low ↦ elim (Option-cases (nodes cur)) [
    | inl gone ↦ let h' = rw (low, gone) at h in cc
    | inr (rec, there) ↦ let h' = rw (low, there) at h in cc
  ]
]
climb-All (suc left) nodes cur names n a h = elim (Bool-cases (cur == root)) [
  | inl top ↦ let h' = rw top at h in ground arith
  | inr low ↦ elim (Option-cases (nodes cur)) [
    | inl gone ↦ let h' = rw (low, gone) at h in cc
    | inr (rec, there) ↦
        let h' = rw (low, there) at h in
        climb-All left nodes rec.parent (rec.name ∷ names) n (n cur rec there low, a) h'
  ]
]

pub join-append :
    (base : Bytes) (xs : List Bytes) (name : Bytes)
    → join base (xs ++ (name ∷ [])) ≡ join base xs ++ (b'/' ∷ name)
unfolding join
join-append base [] name = refl
join-append base (x ∷ xs) name = join-append (base ++ (b'/' ∷ x)) xs name

ok_eq : {x y : Bytes} → ◌≡◌ {A = Result Bytes} (ok x) (ok y) → y ≡ x
ok_eq h = ground arith

module _ {Disk : Type 0} (v : View Disk) (n : NamesValid v.nodes) where
  pub path_locked-IsBelow : (ino : ℕ) {p : Bytes} → path_locked v ino ≡ ok p → IsBelow v.base_dir p
  unfolding path_locked
  path_locked-IsBelow ino h = elim (Result-cases (climb max_depth v.nodes ino [])) [
    | inl (found, e) ↦
        let h' = rw e at h in
        (found, All-IsComponent found (climb-All max_depth v.nodes ino [] n tt e), ground arith)
    | inr (z, e) ↦ let h' = rw e at h in cc
  ]

  joined_to :
      (path : Bytes) (found : List Bytes) (name : Bytes) {p : Bytes}
      → path ≡ join v.base_dir found
      → p ≡ path ++ (b'/' ∷ name)
      → p ≡ join v.base_dir (found ++ (name ∷ []))
  joined_to path found name same h =
      h ∙ (ap (λ (z : Bytes). z ++ (b'/' ∷ name)) same ∙ sym (join-append v.base_dir found name))

  pub child_path-IsBelow :
      (dir : ℕ) (name : Bytes) {p : Bytes} → child_path v dir name ≡ ok p → IsBelow v.base_dir p
  unfolding child_path
  child_path-IsBelow dir name h = elim (Bool-cases (valid_name name)) [
    | inr bad ↦ let h' = rw bad at h in cc
    | inl good ↦ elim (Result-cases (path_locked v dir)) [
      | inr (z, e) ↦ let h' = rw (good, e) at h in cc
      | inl (path, e) ↦
          let h' = rw (good, e) at h in
          let (found, a, same) = path_locked-IsBelow dir e in
          (
            found ++ (name ∷ []),
            All-append IsComponent found (name ∷ []) a (IsName-IsComponent name good, tt),
            joined_to path found name same (ok_eq h'),
          )
    ]
  ]
