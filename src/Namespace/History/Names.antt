-- ===== src/Namespace/History/Names.antt =====
-- The names that a repository lists, and the roots of orphans that a start releases: `worlds`, `revisions`
-- and `recover_orphans` (daemon/namespace.cpp), over the root keys that `Journal::keys` finds.
use forkfs.Common.{
  ℕ, ◌+◌, Bool, true, false, ◌&&◌, ◌||◌, Option, none, some, List, [], ◌∷◌, ◌++◌, length, take,
  drop, leb, ◌==◌, if◌then◌else◌, ◌≤◌, ◌<◌, ◌≡◌, ◌≢◌, refl, ap, ◌∙◌, ◌⊎◌, inl, inr, arith, All,
  length-append, Bool-cases,
}
use forkfs.Common.Bytes.{Bytes, codes, bytes_eq}
use forkfs.Common.Result.{Result, ok, err, need, need_some, ◌>>=◌, ◌>>◌, Result-cases}
use forkfs.Namespace.{valid_id}
use forkfs.Namespace.Names.{valid_view_name}

-- The names after a prefix of n bytes, all of them valid.
unfoldable pub names_under : ℕ → List Bytes → Result (List Bytes)
unfolding valid_view_name
names_under n [] = ok []
names_under n (key ∷ keys) = do
  valid_view_name (drop n key)
  more ← names_under n keys
  ok (drop n key ∷ more)

abbrev without_main : List Bytes → List Bytes
without_main [] = []
without_main (name ∷ names) =
    let rest = without_main names in if bytes_eq name (codes "main") then rest else name ∷ rest

-- worlds(): "main" if the flat root is there; `keys` are those under history+"world/".
unfoldable pub worlds : Bool → List Bytes → Result (List Bytes)
unfolding names_under
worlds initialized keys = do
  names ← names_under 22 keys
  ok (if initialized then codes "main" ∷ without_main names else without_main names)

-- revisions(), of the keys under history+"revision/".
unfoldable pub revisions : List Bytes → Result (List Bytes)
unfolding names_under
revisions keys = names_under 25 keys

-- relative.find('/'): what stands before it and after it.
unfoldable pub cut_slash : Bytes → Option (Bytes × Bytes)
cut_slash [] = none
cut_slash (c ∷ cs) = elim (c == b'/') [
  | true ↦ some ([], cs)
  | false ↦ elim (cut_slash cs) [ none ↦ none | some (before, after) ↦ some (c ∷ before, after) ]
]

-- An identity of 32 bytes, a slash and one of the two fields.
unfoldable pub is_orphan_field : Bytes → Bool
unfolding valid_id bytes_eq
is_orphan_field relative =
    leb 33 (length relative)
    && (valid_id (take 32 relative)
        && (bytes_eq (take 1 (drop 32 relative)) (codes "/")
            && (bytes_eq (drop 33 relative) (codes "inode")
                || bytes_eq (drop 33 relative) (codes "content"))))

unfoldable pub check_orphan : Bytes → Result (Unit {0})
unfolding cut_slash valid_view_name is_orphan_field
check_orphan relative = do
  (world, rest) ← need_some (cut_slash relative) "invalid orphan root"
  valid_view_name world
  need (is_orphan_field rest) "invalid orphan root"

abbrev pub batch_limit : ℕ
batch_limit = 4096

abbrev pub left_over : List Bytes → List (List Bytes)
left_over [] = []
left_over (key ∷ keys) = (key ∷ keys) ∷ []

-- The loop over the keys under history+"orphan/": the batches that are committed, each a deletion of its
-- keys, and how it ends. A batch is sent once it has `limit` keys, the last one if it has any.
unfoldable pub orphan_batches : ℕ → List Bytes → List Bytes → List (List Bytes) × Result (Unit {0})
unfolding check_orphan
orphan_batches limit batch [] = (left_over batch, ok tt)
orphan_batches limit batch (key ∷ keys) = elim (check_orphan (drop 23 key)) [
  | err message ↦ ([], err message)
  | ok done ↦
      let grown = batch ++ (key ∷ []) in
      let full = length grown == limit in
      let (sent, r) = orphan_batches limit (if full then [] else grown) keys in
      (if full then grown ∷ sent else sent, r)
]

-- recover_orphans over the keys found: batches of at most 4096 keys.
unfoldable pub recover_orphans : List Bytes → List (List Bytes) × Result (Unit {0})
recover_orphans keys = orphan_batches batch_limit [] keys

abbrev pub concat : List (List Bytes) → List Bytes
concat [] = []
concat (batch ∷ batches) = batch ++ concat batches

abbrev Sized : ℕ → List Bytes → Type 0
Sized limit batch = (0 < length batch) × (length batch ≤ limit)

append_one :
    (xs : List Bytes) (x : Bytes) (ys : List Bytes) → (xs ++ (x ∷ [])) ++ ys ≡ xs ++ (x ∷ ys)
append_one [] x ys = refl
append_one (z ∷ xs) x ys = ap (◌∷◌ z) (append_one xs x ys)

append_none : (xs : List Bytes) → xs ++ [] ≡ xs
append_none [] = refl
append_none (x ∷ xs) = ap (◌∷◌ x) (append_none xs)

room_left :
    (n grown limit : ℕ) → n < limit → grown ≡ n + 1 → (grown == limit) ≡ false → grown < limit
room_left n grown limit h g more = ground arith

orphan_batches-Sized :
    (limit : ℕ) (batch keys : List Bytes)
    → length batch < limit
    → All (Sized limit) (orphan_batches limit batch keys).0
unfolding orphan_batches
orphan_batches-Sized limit [] [] h = tt
orphan_batches-Sized limit (key ∷ keys) [] h = ((omega arith, omega arith), tt)
orphan_batches-Sized limit batch (key ∷ keys) h = elim (Result-cases (check_orphan (drop 23 key))) [
  | inr (m, bad) ↦ rw (bad, orphan_batches) tt
  | inl (u, good) ↦
      let grown = length-append batch (key ∷ []) in
      elim (Bool-cases (length (batch ++ (key ∷ [])) == limit)) [
        | inl full ↦
            rw (good, full, orphan_batches)
              (
                (omega (arith, grown), omega (arith, grown)),
                orphan_batches-Sized limit [] keys (omega arith),
              )
        | inr more ↦
            rw (good, more, orphan_batches)
              (orphan_batches-Sized limit (batch ++ (key ∷ [])) keys
                (room_left _ _ limit h grown more))
      ]
]

orphan_batches-concat :
    (limit : ℕ) (batch keys : List Bytes)
    → (orphan_batches limit batch keys).1 ≡ ok tt
    → concat (orphan_batches limit batch keys).0 ≡ batch ++ keys
unfolding orphan_batches
orphan_batches-concat limit [] [] h = refl
orphan_batches-concat limit (key ∷ keys) [] h = refl
orphan_batches-concat limit batch (key ∷ keys) h =
    elim (Result-cases (check_orphan (drop 23 key))) [
      | inr (m, bad) ↦ let h' = rw (bad, orphan_batches) at h in absurd (cc)
      | inl (u, good) ↦ elim (Bool-cases (length (batch ++ (key ∷ [])) == limit)) [
        | inl full ↦
            let h' = rw (good, full, orphan_batches) at h in
            rw (good, full, orphan_batches)
              (ap (λ ks. (batch ++ (key ∷ [])) ++ ks) (orphan_batches-concat limit [] keys h')
                ∙ append_one batch key keys)
        | inr more ↦
            let h' = rw (good, more, orphan_batches) at h in
            rw (good, more, orphan_batches)
              (orphan_batches-concat limit (batch ++ (key ∷ [])) keys h'
                ∙ append_one batch key keys)
      ]
    ]

-- Each batch that a start sends to release orphans has 1 to 4096 keys, as many as one transaction may have;
-- and a start that does not throw sends all keys, in their order and each once.
pub recover_orphans-batches :
    (keys : List Bytes)
    → All (λ batch. (0 < length batch) × (length batch ≤ 4096)) (recover_orphans keys).0
      × (((recover_orphans keys).1 ≢ ok tt) ⊎ (concat (recover_orphans keys).0 ≡ keys))
unfolding recover_orphans
recover_orphans-batches keys = (
  orphan_batches-Sized batch_limit [] keys (omega arith),
  elim (Result-cases (orphan_batches batch_limit [] keys).1) [
    | inl (u, done) ↦ inr (orphan_batches-concat batch_limit [] keys done)
    | inr (m, bad) ↦ inl (λ good. cc)
  ],
)
