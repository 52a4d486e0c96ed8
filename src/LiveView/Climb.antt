-- ===== src/LiveView/Climb.antt =====
-- Climbing the inode table, record by record (path_locked, core/src/view.cpp).
use forkfs.Common.{
  ℕ, zero, suc, ◌≤◌, ◌≡◌, refl, sym, ap, subst, ◌∙◌, inl, inr, true, false, none, some, List, [],
  ◌∷◌, ◌++◌, ◌==◌, arith, Bool-cases, Option-cases,
}
use forkfs.Common.Bytes.{Bytes}
use forkfs.Common.Result.{Result, ok, err}
use forkfs.LiveView.Types.{NodeRec, Nodes, View}
use forkfs.LiveView.Paths.{root, climb, join, joined, path_locked}
use forkfs.LiveView.Readdir.{parent_of}
use forkfs.LiveView.Ops.{names}

abbrev pub parent_at : Nodes → ℕ → ℕ
parent_at nodes cur = parent_of (nodes cur)

-- The record of `i` is not among the first n+1 on the way up from `cur`.
abbrev pub Avoids : ℕ → Nodes → ℕ → ℕ → Type 0
Avoids zero nodes i cur = (i == cur) ≡ false
Avoids (suc n) nodes i cur = ((i == cur) ≡ false) × Avoids n nodes i (parent_at nodes cur)

-- n records lie between `cur` and the root, its own among them.
abbrev pub Steps : ℕ → Nodes → ℕ → Type 0
Steps zero nodes cur = (cur == root) ≡ true
Steps (suc n) nodes cur =
    ((cur == root) ≡ false) × (rec : NodeRec) × (nodes cur ≡ some rec) × Steps n nodes rec.parent

pub climb-root :
    (left : ℕ) (nodes : Nodes) (cur : ℕ) (names : List Bytes)
    → (cur == root) ≡ true
    → climb left nodes cur names ≡ ok names
unfolding climb
climb-root zero nodes cur names top = rw top refl
climb-root (suc left) nodes cur names top = rw top refl

pub climb-none :
    (left : ℕ) (nodes : Nodes) (cur : ℕ) (names : List Bytes)
    → (cur == root) ≡ false
    → nodes cur ≡ none
    → climb left nodes cur names ≡ err "ESTALE"
unfolding climb
climb-none zero nodes cur names low gone = rw (low, gone) refl
climb-none (suc left) nodes cur names low gone = rw (low, gone) refl

pub climb_zero :
    (nodes : Nodes) (cur : ℕ) (names : List Bytes) {rec : NodeRec}
    → (cur == root) ≡ false
    → nodes cur ≡ some rec
    → climb 0 nodes cur names ≡ err "ELOOP"
unfolding climb
climb_zero nodes cur names low there = rw (low, there) refl

pub climb-suc :
    (left : ℕ) (nodes : Nodes) (cur : ℕ) (names : List Bytes) {rec : NodeRec}
    → (cur == root) ≡ false
    → nodes cur ≡ some rec
    → climb (suc left) nodes cur names ≡ climb left nodes rec.parent (rec.name ∷ names)
unfolding climb
climb-suc left nodes cur names low there = rw (low, there) refl

pub climb-Steps :
    (left : ℕ) (nodes : Nodes) (cur : ℕ) (names : List Bytes) {found : List Bytes}
    → climb left nodes cur names ≡ ok found
    → (n : ℕ) × (n ≤ left) × Steps n nodes cur
climb-Steps zero nodes cur names h = elim (Bool-cases (cur == root)) [
  | inl top ↦ (0, omega arith, top)
  | inr low ↦ elim (Option-cases (nodes cur)) [
    | inl gone ↦ let e = climb-none 0 nodes cur names low gone in cc
    | inr (rec, there) ↦ let e = climb_zero nodes cur names low there in cc
  ]
]
climb-Steps (suc left) nodes cur names h = elim (Bool-cases (cur == root)) [
  | inl top ↦ (0, omega arith, top)
  | inr low ↦ elim (Option-cases (nodes cur)) [
    | inl gone ↦ let e = climb-none (suc left) nodes cur names low gone in cc
    | inr (rec, there) ↦
        let up = sym (climb-suc left nodes cur names low there) ∙ h in
        let (n, le, s) = climb-Steps left nodes rec.parent (rec.name ∷ names) up in
        (suc n, omega arith, (low, rec, there, s))
  ]
]

pub Steps-unique :
    (m n : ℕ) (nodes : Nodes) (cur : ℕ) → Steps m nodes cur → Steps n nodes cur → m ≡ n
Steps-unique zero zero nodes cur p q = refl
Steps-unique zero (suc n) nodes cur p q = let e = q.0 in cc
Steps-unique (suc m) zero nodes cur p q = let e = p.0 in cc
Steps-unique (suc m) (suc n) nodes cur (_, rec, h, p) (_, rec', h', q) =
    let same : rec' ≡ rec = cc in
    ap suc
      (Steps-unique m n nodes rec.parent p (subst (λ (r : NodeRec). Steps n nodes r.parent) same q))

pub climb_same :
    (m left : ℕ) (nodes nodes' : Nodes) (i cur : ℕ) (names : List Bytes)
    → Steps m nodes cur
    → Avoids m nodes i cur
    → ((c k : ℕ)
        → k ≤ m
        → Steps k nodes c
        → (c == root) ≡ false
        → (i == c) ≡ false
        → nodes' c ≡ nodes c)
    → climb left nodes' cur names ≡ climb left nodes cur names
climb_same zero left nodes nodes' i cur names top a same =
    climb-root left nodes' cur names top ∙ sym (climb-root left nodes cur names top)
climb_same (suc m) zero nodes nodes' i cur names s a same =
    let (low, rec, there, up) = s in
    climb_zero nodes' cur names low (same cur (suc m) (omega arith) s low a.0 ∙ there)
    ∙ sym (climb_zero nodes cur names low there)
climb_same (suc m) (suc left) nodes nodes' i cur names s a same =
    let (low, rec, there, up) = s in
    climb-suc left nodes' cur names low (same cur (suc m) (omega arith) s low a.0 ∙ there)
    ∙ (climb_same m left nodes nodes' i rec.parent (rec.name ∷ names) up (rw there at a.1)
          (λ c k le. same c k (omega arith))
        ∙ sym (climb-suc left nodes cur names low there))

abbrev pub append_names : Result (List Bytes) → List Bytes → Result (List Bytes)
append_names (ok names) tail = ok (names ++ tail)
append_names (err e) tail = err e

-- The names gathered before stand behind those found on the way up.
pub climb_names :
    (m left : ℕ) (nodes : Nodes) (cur : ℕ) (names tail : List Bytes)
    → Steps m nodes cur
    → climb left nodes cur (names ++ tail) ≡ append_names (climb left nodes cur names) tail
climb_names zero left nodes cur names tail top =
    climb-root left nodes cur _ top ∙ rw (climb-root left nodes cur names top) refl
climb_names (suc m) zero nodes cur names tail (low, rec, there, up) =
    climb_zero nodes cur _ low there ∙ rw (climb_zero nodes cur names low there) refl
climb_names (suc m) (suc left) nodes cur names tail (low, rec, there, up) =
    climb-suc left nodes cur _ low there
    ∙ (climb_names m left nodes rec.parent (rec.name ∷ names) tail up
        ∙ rw (climb-suc left nodes cur names low there) refl)

pub climb_lift :
    (m left : ℕ) (nodes : Nodes) (cur : ℕ) (names : List Bytes)
    → Steps m nodes cur
    → m ≤ left
    → climb (suc left) nodes cur names ≡ climb left nodes cur names
climb_lift zero left nodes cur names top le =
    climb-root (suc left) nodes cur names top ∙ sym (climb-root left nodes cur names top)
climb_lift (suc m) zero nodes cur names s le = absurd (omega arith)
climb_lift (suc m) (suc left) nodes cur names (low, rec, there, up) le =
    climb-suc (suc left) nodes cur names low there
    ∙ (climb_lift m left nodes rec.parent (rec.name ∷ names) up (omega arith)
        ∙ sym (climb-suc left nodes cur names low there))

pub climb_more :
    (left : ℕ) (nodes : Nodes) (cur : ℕ) (names : List Bytes) {found : List Bytes}
    → climb left nodes cur names ≡ ok found
    → climb (suc left) nodes cur names ≡ ok found
climb_more left nodes cur names h =
    let (m, le, s) = climb-Steps left nodes cur names h in
    climb_lift m left nodes cur names s le ∙ h

pub Avoids-mono :
    (m n : ℕ) (nodes : Nodes) (i cur : ℕ) → m ≤ n → Avoids n nodes i cur → Avoids m nodes i cur
Avoids-mono zero zero nodes i cur h a = a
Avoids-mono zero (suc n) nodes i cur h a = a.0
Avoids-mono (suc m) zero nodes i cur h a = absurd (omega arith)
Avoids-mono (suc m) (suc n) nodes i cur h a =
    (a.0, Avoids-mono m n nodes i (parent_at nodes cur) (omega arith) a.1)

pub path_of_climb :
    {Disk : Type 0} (v : View Disk) (ino : ℕ) {found : List Bytes}
    → climb 1024 v.nodes ino [] ≡ ok found
    → path_locked v ino ≡ ok (join v.base_dir found)
unfolding path_locked
path_of_climb v ino h = ap (joined v.base_dir) h
