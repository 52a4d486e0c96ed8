-- ===== src/View/Run/Sound.antt =====
-- What `decode_run` accepts (daemon/metadata_view.cpp): keys in order, whole identities, no zero one.
use forkfs.Common.{
  ℕ, zero, suc, ◌+◌, ◌-◌, ◌/◌, ◌≤◌, ◌≡◌, refl, ap, Bool, true, ◌&&◌, ◌||◌, Option, none, some, [],
  ◌∷◌, length, take, drop, leb, ltb, ◌==◌, if◌then◌else◌, arith, &&-split, Bool-cases, length-take,
  length-drop, inl, inr,
}
use forkfs.Common.Bytes.{Bytes, starts_with}
use forkfs.Common.Map.{IsAbove, IsOrdered}
use forkfs.Common.Result.{ok, need, ◌>>=◌, ◌>>◌, >>=-eq-ok, Result-cases}
use forkfs.Codec.{u32}
use forkfs.Keys.{prefix}
use forkfs.View.Run.{
  ObjectId, Changes, magic, truncated, follows, decode_value, decode_body, decode_entry,
  decode_entries, decode_run,
}
use forkfs.View.Run.RoundTrip.{IsValue, HasIds}

abbrev pub IsAfter : Option Bytes → Changes → Type 0
IsAfter none changes = IsOrdered changes
IsAfter (some previous) changes = IsAbove previous changes

-- Every key is in the namespace, and of 8 to 1024 bytes.
abbrev pub KeysValid : Changes → Type 0
KeysValid [] = Unit {0}
KeysValid ((key, value) ∷ rest) =
    ((starts_with key prefix ≡ true) × (8 ≤ length key) × (length key ≤ 1024)) × KeysValid rest

decode_value-IsValue :
    (op : ℕ) (target : ObjectId) (value : Option ObjectId)
    → length target ≡ 32
    → decode_value op target ≡ ok value
    → IsValue value
unfolding decode_value
decode_value-IsValue op target none l h = tt
decode_value-IsValue op target (some id) l h = ground arith

abbrev Accepted : Option Bytes → Bytes → Option ObjectId → Type 0
Accepted previous key value =
    (follows previous key ≡ true)
    × IsValue value
    × ((starts_with key prefix ≡ true) × (8 ≤ length key) × (length key ≤ 1024))

decode_body_sound :
    (previous : Option Bytes) (op n : ℕ) (b : Bytes) (key : Bytes) (value : Option ObjectId)
    (rest : Bytes)
    → decode_body previous op n b ≡ ok ((key, value), rest)
    → Accepted previous key value
unfolding decode_body
decode_body_sound previous op n b key value rest h =
    elim (Bool-cases
      ((op == 1 || op == 2) && (leb 8 n && (leb n 1024 && leb (n + 32) (length b))))) [
        | inr bad ↦ absurd (ground arith)
        | inl fits ↦
            elim (Bool-cases (starts_with (take n b) prefix && follows previous (take n b))) [
              | inr bad ↦ absurd (ground arith)
              | inl placed ↦ elim (Result-cases (decode_value op (take 32 (drop n b)))) [
                | inr (e, bad) ↦ absurd (ground arith)
                | inl (v, good) ↦ accepted fits placed v good
              ]
            ]
      ]
  where
    accepted :
        ((op == 1 || op == 2) && (leb 8 n && (leb n 1024 && leb (n + 32) (length b)))) ≡ true
        → (starts_with (take n b) prefix && follows previous (take n b)) ≡ true
        → (v : Option ObjectId) → decode_value op (take 32 (drop n b)) ≡ ok v
        → Accepted previous key value
    accepted fits placed v good =
        let key' : take n b ≡ key = ground arith in
        let value' : v ≡ value = ground arith in
        let (p, o) =
          &&-split (starts_with (take n b) prefix) (follows previous (take n b)) placed in
        let size : (8 ≤ n) × (n ≤ 1024) × (n + 32 ≤ length b) = ground arith in
        let len : length (take n b) ≡ n = length-take n b (omega arith) in
        rw (← key', ← value')
          (
            o,
            decode_value-IsValue op (take 32 (drop n b)) v
                (length-take 32 (drop n b) (omega (arith, length-drop n b))) good,
            (p, omega arith, omega arith),
          )

decode_entry_sound :
    (full : Bool) (previous : Option Bytes) (b : Bytes) (key : Bytes) (value : Option ObjectId)
    (rest : Bytes)
    → decode_entry full previous b ≡ ok ((key, value), rest)
    → Accepted previous key value
unfolding decode_entry
decode_entry_sound full previous b key value rest h =
    let (op, _, h1) = >>=-eq-ok (if full then ok (1, b) else u32 truncated b) _ h in
    let (n, _, h2) = >>=-eq-ok (u32 truncated op.1) _ h1 in
    decode_body_sound previous op.0 n.0 n.1 key value rest h2

-- The keys after the first are above it; the first is placed after `previous`.
prepend :
    (previous : Option Bytes) (key : Bytes) (value : Option ObjectId) (more : Changes)
    → follows previous key ≡ true
    → IsAbove key more
    → IsAfter previous ((key, value) ∷ more)
prepend none key value more o a = a
prepend (some p) key value more o a = (o, a)

IsAfter-nothing : (previous : Option Bytes) → IsAfter previous []
IsAfter-nothing none = tt
IsAfter-nothing (some p) = tt

decode_entries-nil :
    (full : Bool) (previous : Option Bytes) (b : Bytes) (changes : Changes) (rest : Bytes)
    → decode_entries zero full previous b ≡ ok (changes, rest)
    → changes ≡ []
unfolding decode_entries
decode_entries-nil full previous b changes rest h = ground arith

-- What a run of `count` entries that is accepted holds.
pub decode_entries_sound :
    (count : ℕ) (full : Bool) (previous : Option Bytes) (b : Bytes) (changes : Changes)
    (rest : Bytes)
    → decode_entries count full previous b ≡ ok (changes, rest)
    → IsAfter previous changes × HasIds changes × KeysValid changes × (length changes ≡ count)
unfolding decode_entries
decode_entries_sound zero full previous b changes rest h =
    rw (decode_entries-nil full previous b changes rest h) (IsAfter-nothing previous, tt, tt, refl)
decode_entries_sound (suc count) full previous b changes rest h =
    let (((key, value), left), here, h1) = >>=-eq-ok (decode_entry full previous b) _ h in
    let ((more, suffix), later, h2) = >>=-eq-ok (decode_entries count full (some key) left) _ h1 in
    let (o, v, k) = decode_entry_sound full previous b key value left here in
    let (above, ids, keys, size) =
      decode_entries_sound count full (some key) left more suffix later in
    let shape : (key, value) ∷ more ≡ changes = ground arith in
    rw (← shape) (prepend previous key value more o above, (v, ids), (k, keys), ap suc size)

-- Of every payload that `decode_run` accepts, a written run or an old full map: the keys rise strictly,
-- each lies in the namespace and has 8 to 1024 bytes, and each identity has 32 bytes and is not zero.
pub decode_run_sound :
    (b : Bytes) (changes : Changes)
    → decode_run b ≡ ok changes
    → IsOrdered changes × HasIds changes × KeysValid changes
unfolding decode_run
decode_run_sound b changes h =
    let full = magic b "FFMAN001" in
    elim (Bool-cases (full || magic b "FFRUN001")) [
      | inr bad ↦ absurd (ground arith)
      | inl known ↦
          let h1 = rw known at h in
          let (head, _, h2) = >>=-eq-ok (u32 truncated (drop 8 b)) _ h1 in
          entries full head.0 head.1 h2
    ]
  where
    entries :
        (full : Bool) (count : ℕ) (rest : Bytes)
        → (do
          need
              (ltb 0 count && leb count ((length b - 12) / (if full then 44 else 48)))
              "invalid sorted run count"
          (out, suffix) ← decode_entries count full none rest
          need (length suffix == 0) "unexpected sorted run suffix"
          ok out)
          ≡ ok changes
        → IsOrdered changes × HasIds changes × KeysValid changes
    entries full count rest h = elim (Result-cases (decode_entries count full none rest)) [
      | inr (e, bad) ↦ absurd (ground arith)
      | inl ((out, suffix), good) ↦
          let (o, ids, keys, _) = decode_entries_sound count full none rest out suffix good in
          let same : out ≡ changes = ground arith in rw (← same) (o, ids, keys)
    ]
