-- ===== src/Handles/Tests.antt =====
-- A file open once, its handle duplicated, and the first handle closed, on a store of no objects.
use forkfs.Common.{
  ◌↔◌, ◌==◌, if◌then◌else◌, ◌≤◌, ◌+◌, ℕ, ◌≡◌, refl, sym, ap, true, false, none, some, Option, List,
  [], ◌∷◌, arith,
}
use forkfs.Common.Bytes.{Bytes, codes, bytes_eq, bytes_lt}
use forkfs.Common.Map.{lookup, insert, erase}
use forkfs.Common.Result.{ok, err}
use forkfs.Handles.{OpenHandle, Cursor, Selected, Table, find_handle}
use forkfs.Handles.Counts.{OpenFiles, new_handle, dup, uncount, close, set_count}
use forkfs.Handles.Balance.{number_open, IsBalanced, dup-IsBalanced}
use forkfs.Handles.Closing.{close-IsBalanced}
use forkfs.Common.Int.{negsuc}
use forkfs.Handles.Seek.{end, int64_max, seek, seek_to, base_of, seek_to-IsSum, seek-position}
use forkfs.Store.Backend.{Op, LevelDb, after}
use forkfs.Store.Transact.{Store}

written : (Bytes → Option Bytes) → List Op → Option (Bytes → Option Bytes)
unfolding after
written d ops = some (λ key. after ops key (d key))

written-get :
    (d d' : Bytes → Option Bytes) (ops : List Op) (key : Bytes)
    → written d ops ≡ some d'
    → d' key ≡ after ops key (d key)
unfolding written
written-get d d' ops key h =
    let same : (λ k. after ops k (d k)) ≡ d' = cc in ap (λ f. f key) (sym same)

abbrev memory : LevelDb
memory = record {
  Db = Bytes → Option Bytes;
  get = λ d key. d key;
  write = written;
  get-write = written-get;
}

abbrev fresh : Store memory
fresh = record { db = λ key. none; sequence = 0; objects = 0; roots = 0; poisoned = false }

abbrev world : Selected
world = record { view = codes "w"; revision = false }

abbrev file : OpenHandle
file = record {
  view = codes "w";
  inode = codes "i";
  revision = false;
  readable = true;
  writable = true;
  append = false;
  cursor = 0;
}

abbrev cursors : ℕ → Cursor
cursors i = record { position = 0; locks = [] }

abbrev count_of : ℕ → Bytes → Bytes → ℕ
count_of n = set_count (λ view inode. 0) (codes "w") (codes "i") n

abbrev once : OpenFiles
once = record {
  table = record { handles = (codes "a", file) ∷ []; cursors = cursors };
  open_counts = count_of 1;
}

twice : OpenFiles
unfolding dup find_handle new_handle lookup insert bytes_eq bytes_lt
twice = elim (dup once world (codes "a") (codes "a" ∷ codes "b" ∷ [])) [
  | err m ↦ once
  | ok (token, o) ↦ o
]

again : dup once world (codes "a") (codes "a" ∷ codes "b" ∷ []) ≡ ok (codes "b", twice)
unfolding twice
again = refl

once-IsBalanced : IsBalanced once
unfolding number_open
once-IsBalanced = record { ordered = tt; counted = λ view inode. ground arith }

dup-IsBalanced_example : IsBalanced twice
dup-IsBalanced_example =
    dup-IsBalanced once twice world (codes "a") (codes "b") (codes "a" ∷ codes "b" ∷ [])
      once-IsBalanced again

twice-IsBalanced : IsBalanced twice
twice-IsBalanced =
    dup-IsBalanced once twice world (codes "a") (codes "b") (codes "a" ∷ codes "b" ∷ [])
      once-IsBalanced again

abbrev no_hash : Bytes → Bytes
no_hash b = []

closed : OpenFiles
unfolding close uncount twice erase
closed = (close memory no_hash fresh twice world (codes "a")).1

shut : close memory no_hash fresh twice world (codes "a") ≡ (ok tt, closed, fresh)
unfolding closed
shut = refl

close-IsBalanced_example : IsBalanced closed
close-IsBalanced_example =
    close-IsBalanced memory no_hash fresh fresh twice closed world (codes "a") (ok tt)
      twice-IsBalanced shut

-- Both handles of the file move, since they share the cursor.
sought : Table
unfolding twice seek seek_to base_of find_handle
sought = elim (seek twice.table (λ h. ok 10) world (codes "b") (negsuc 2) end) [
  | err m ↦ twice.table
  | ok (r, t) ↦ t
]

seek_back : seek twice.table (λ h. ok 10) world (codes "b") (negsuc 2) end ≡ ok (7, sought)
unfolding sought
seek_back = refl

seek-position_at_input :
    (info : OpenHandle) × (find_handle twice.table world (codes "b") ≡ ok info)
    × ((h : OpenHandle)
        → ((sought.cursors h.cursor).position
            ≡ (if h.cursor == info.cursor then 7 else (twice.table.cursors h.cursor).position))
          × ((sought.cursors h.cursor).locks ≡ (twice.table.cursors h.cursor).locks))
seek-position_at_input =
    seek-position twice.table sought (λ h. ok 10) world (codes "b") (negsuc 2) end 7 seek_back

seek_to-IsSum_example :
    (seek_to 10 (negsuc 2) ≡ ok 7) ↔ ((10 ≤ int64_max) × (7 ≤ int64_max) × (7 + 3 ≡ 10))
seek_to-IsSum_example = seek_to-IsSum 10 7 (negsuc 2)
