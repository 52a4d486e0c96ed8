-- ===== src/View/Runs/Partition.antt =====
-- Cutting a complete map into parts keeps every lookup, the key order and the size limit of each part.
use forkfs.Common.{
  ℕ, ◌+◌, ◌*◌, ◌≤◌, ◌≡◌, refl, none, some, List, [], ◌∷◌, ◌++◌, ◌∙◌, arith, All, Bool-cases, inl,
  inr, length, ltb, All-append,
}
use mathlib.Core.List.{append_assoc, append-nil}
use forkfs.Common.Bytes.{Bytes}
use forkfs.Common.Map.{Map, lookup, IsOrdered, IsAbove, IsAbove-IsOrdered}
use forkfs.View.Run.{ObjectId, Changes, entry_bytes}
use forkfs.View.Run.RoundTrip.{IsId, HasIds}
use forkfs.View.Runs.{lookup_runs, flush, partition}
use forkfs.View.Runs.Merge.{over, puts, lookup-puts}

unfoldable pub concat : List Changes → Changes
concat [] = []
concat (part ∷ parts) = part ++ concat parts

concat-append : (xs ys : List Changes) → concat (xs ++ ys) ≡ concat xs ++ concat ys
unfolding concat
concat-append [] ys = refl
concat-append (x ∷ xs) ys = simp (concat-append xs ys, append_assoc)

concat-flush : (part : Changes) → concat (flush part) ≡ part
unfolding concat flush
concat-flush [] = refl
concat-flush (entry ∷ part) = rw append-nil

-- The parts in order are the map.
pub concat-partition :
    (bytes : ℕ) (part : Changes) (m : Map ObjectId)
    → concat (partition bytes part m) ≡ part ++ puts m
unfolding partition puts
concat-partition bytes part [] = rw append-nil (concat-flush part)
concat-partition bytes part ((key, id) ∷ rest) =
    elim (Bool-cases (ltb (64 * 1024) (bytes + 40 + length key))) [
      | inl cut ↦ rw cut (
          concat-append (flush part) (partition (12 + (40 + length key)) ((key, some id) ∷ []) rest)
          ∙ rw (
            concat-flush part,
            concat-partition (12 + (40 + length key)) ((key, some id) ∷ []) rest,
          ))
      | inr grown ↦ rw grown (
          concat-partition (bytes + (40 + length key)) (part ++ ((key, some id) ∷ [])) rest
          ∙ append_assoc part ((key, some id) ∷ []) (puts rest))
    ]

lookup-append :
    (k : Bytes) (xs ys : Changes)
    → lookup k (xs ++ ys) ≡ elim (lookup k xs) [ none ↦ lookup k ys | some v ↦ some v ]
unfolding lookup
lookup-append k [] ys = refl
lookup-append k ((j, v) ∷ xs) ys = ground (arith, lookup-append k xs ys)

lookup_runs-concat :
    (parts : List Changes) (k : Bytes) → lookup_runs parts k ≡ over (lookup k (concat parts)) none
unfolding lookup_runs concat lookup
lookup_runs-concat [] k = refl
lookup_runs-concat (part ∷ parts) k =
    ground (arith, lookup-append k part (concat parts), lookup_runs-concat parts k)

-- Looking a key up in the parts is looking it up in the map.
pub lookup_runs-partition :
    (m : Map ObjectId) (k : Bytes) → lookup_runs (partition 12 [] m) k ≡ lookup k m
lookup_runs-partition m k =
    lookup_runs-concat (partition 12 [] m) k
    ∙ rw (concat-partition 12 [] m) (ground (arith, lookup-puts k m))

abbrev pub MapHasIds : Map ObjectId → Type 0
MapHasIds [] = Unit {0}
MapHasIds ((key, id) ∷ rest) = IsId id × MapHasIds rest

HasIds-puts : (m : Map ObjectId) → MapHasIds m → HasIds (puts m)
unfolding puts
HasIds-puts [] h = tt
HasIds-puts ((key, id) ∷ rest) h = (h.0, HasIds-puts rest h.1)

IsAbove-puts : (lo : Bytes) (m : Map ObjectId) → IsAbove lo m → IsAbove lo (puts m)
unfolding puts
IsAbove-puts lo [] a = tt
IsAbove-puts lo ((key, id) ∷ rest) a = (a.0, IsAbove-puts key rest a.1)

IsOrdered-puts : (m : Map ObjectId) → IsOrdered m → IsOrdered (puts m)
unfolding puts
IsOrdered-puts [] a = tt
IsOrdered-puts ((key, id) ∷ rest) a = IsAbove-puts key rest a

IsAbove-split :
    (lo : Bytes) (xs ys : Changes) → IsAbove lo (xs ++ ys) → IsAbove lo xs × IsOrdered ys
IsAbove-split lo [] ys a = (tt, IsAbove-IsOrdered lo ys a)
IsAbove-split lo ((k, v) ∷ xs) ys a = let (p, q) = IsAbove-split k xs ys a.1 in ((a.0, p), q)

IsOrdered-split : (xs ys : Changes) → IsOrdered (xs ++ ys) → IsOrdered xs × IsOrdered ys
IsOrdered-split [] ys a = (tt, a)
IsOrdered-split ((k, v) ∷ xs) ys a = IsAbove-split k xs ys a

HasIds-split : (xs ys : Changes) → HasIds (xs ++ ys) → HasIds xs × HasIds ys
HasIds-split [] ys h = (tt, h)
HasIds-split ((k, v) ∷ xs) ys h = let (p, q) = HasIds-split xs ys h.1 in ((h.0, p), q)

concat-good :
    (parts : List Changes)
    → IsOrdered (concat parts)
    → HasIds (concat parts)
    → All (λ part. IsOrdered part × HasIds part) parts
unfolding concat
concat-good [] o h = tt
concat-good (part ∷ parts) o h =
    let (p, q) = IsOrdered-split part (concat parts) o in
    let (r, s) = HasIds-split part (concat parts) h in ((p, r), concat-good parts q s)

pub partition-good :
    (m : Map ObjectId)
    → IsOrdered m
    → MapHasIds m
    → All (λ part. IsOrdered part × HasIds part) (partition 12 [] m)
partition-good m o h =
    concat-good (partition 12 [] m) (rw (concat-partition 12 [] m) (IsOrdered-puts m o))
      (rw (concat-partition 12 [] m) (HasIds-puts m h))

entry_bytes-append : (xs ys : Changes) → entry_bytes (xs ++ ys) ≡ entry_bytes xs + entry_bytes ys
unfolding entry_bytes
entry_bytes-append [] ys = omega arith
entry_bytes-append ((k, v) ∷ xs) ys = omega (arith, entry_bytes-append xs ys)

flush-small :
    (part : Changes)
    → 12 + entry_bytes part ≤ 64 * 1024
    → All (λ part. 12 + entry_bytes part ≤ 64 * 1024) (flush part)
unfolding flush
flush-small [] h = tt
flush-small (entry ∷ part) h = (h, tt)

abbrev pub KeysFit : Map ObjectId → Type 0
KeysFit [] = Unit {0}
KeysFit ((key, id) ∷ rest) = (length key ≤ 1024) × KeysFit rest

-- If no key is longer than 1024 bytes, every part that the loop cuts is encoded in at most 64 KiB, so
-- `encode_run` never meets its limit of 256 KiB there.
pub partition-small :
    (bytes : ℕ) (part : Changes) (m : Map ObjectId)
    → KeysFit m
    → bytes ≡ 12 + entry_bytes part
    → bytes ≤ 64 * 1024
    → All (λ part. 12 + entry_bytes part ≤ 64 * 1024) (partition bytes part m)
unfolding partition
partition-small bytes part [] f e h = flush-small part (omega arith)
partition-small bytes part ((key, id) ∷ rest) f e h =
    elim (Bool-cases (ltb (64 * 1024) (bytes + 40 + length key))) [
      | inl cut ↦ rw cut (
          All-append _ (flush part) _ (flush-small part (omega arith)) (
            partition-small (12 + (40 + length key)) ((key, some id) ∷ []) rest f.1
              (unfold entry_bytes in omega arith) (omega (arith, f.0))))
      | inr grown ↦ rw grown (
          partition-small (bytes + (40 + length key)) (part ++ ((key, some id) ∷ [])) rest f.1
            (unfold entry_bytes in omega (arith, entry_bytes-append part ((key, some id) ∷ [])))
            (ground arith))
    ]
