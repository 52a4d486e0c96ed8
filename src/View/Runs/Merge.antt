-- ===== src/View/Runs/Merge.antt =====
-- Merging runs from the oldest to the newest is the same map as looking a key up from the newest on.
use forkfs.Common.{
  ◌≡◌, refl, Option, none, some, List, [], ◌∷◌, ◌++◌, ◌∙◌, arith, All, Bool-cases, inl, inr,
}
use forkfs.Common.Bytes.{Bytes, bytes_eq, bytes_eq-eq}
use forkfs.Common.Map.{
  Map, lookup, insert, erase, lookup-insert, lookup-erase, IsOrdered, IsAbove-IsOrdered,
  lookup-head, insert-IsOrdered, erase-IsOrdered,
}
use forkfs.View.Run.{ObjectId, Changes}
use forkfs.View.Runs.{lookup_runs, apply_run, references}

-- The newer value if there is one, or the older.
abbrev pub over : Option (Option ObjectId) → Option ObjectId → Option ObjectId
over none older = older
over (some value) older = value

pub lookup-apply_run :
    (k : Bytes) (run : Changes) (m : Map ObjectId)
    → IsOrdered run
    → lookup k (apply_run run m) ≡ over (lookup k run) (lookup k m)
unfolding apply_run lookup
lookup-apply_run k [] m o = refl
lookup-apply_run k ((j, none) ∷ rest) m o =
    lookup-apply_run k rest (erase j m) (IsAbove-IsOrdered j rest o)
    ∙ rw lookup-erase (elim (Bool-cases (bytes_eq j k)) [
      | inl e ↦ rw (e, ← bytes_eq-eq j k e, lookup-head j rest o)
      | inr n ↦ rw n
    ])
lookup-apply_run k ((j, some id) ∷ rest) m o =
    lookup-apply_run k rest (insert j id m) (IsAbove-IsOrdered j rest o)
    ∙ rw lookup-insert (elim (Bool-cases (bytes_eq j k)) [
      | inl e ↦ rw (e, ← bytes_eq-eq j k e, lookup-head j rest o)
      | inr n ↦ rw n
    ])

pub apply_run-IsOrdered :
    (run : Changes) (m : Map ObjectId) → IsOrdered m → IsOrdered (apply_run run m)
unfolding apply_run
apply_run-IsOrdered [] m o = o
apply_run-IsOrdered ((j, none) ∷ rest) m o =
    apply_run-IsOrdered rest (erase j m) (erase-IsOrdered j m o)
apply_run-IsOrdered ((j, some id) ∷ rest) m o =
    apply_run-IsOrdered rest (insert j id m) (insert-IsOrdered j id m o)

pub references-IsOrdered :
    (flat : Map ObjectId) (runs : List Changes) → IsOrdered flat → IsOrdered (references flat runs)
unfolding references
references-IsOrdered flat [] o = o
references-IsOrdered flat (run ∷ runs) o =
    apply_run-IsOrdered run (references flat runs) (references-IsOrdered flat runs o)

-- A complete map as a run without tombstones.
unfoldable pub puts : Map ObjectId → Changes
puts [] = []
puts ((key, id) ∷ rest) = (key, some id) ∷ puts rest

pub lookup-puts :
    (k : Bytes) (m : Map ObjectId)
    → lookup k (puts m) ≡ elim (lookup k m) [ none ↦ none | some id ↦ some (some id) ]
unfolding puts lookup
lookup-puts k [] = refl
lookup-puts k ((j, id) ∷ rest) = ground (arith, lookup-puts k rest)

-- If every run is in key order, then the map that `references` merges from a flat map and the runs on
-- top of it has at each key what `lookup` finds in them: the newest entry, where a tombstone hides
-- what is older.
pub lookup-references :
    (flat : Map ObjectId) (runs : List Changes) (k : Bytes)
    → All IsOrdered runs
    → lookup k (references flat runs) ≡ lookup_runs (runs ++ (puts flat ∷ [])) k
unfolding references lookup_runs
lookup-references flat [] k o = ground (arith, lookup-puts k flat)
lookup-references flat (run ∷ runs) k o =
    lookup-apply_run k run (references flat runs) o.0
    ∙ rw (lookup-references flat runs k o.1) (ground arith)
