-- ===== src/LiveView/Readdir.antt =====
-- Enumerating a directory (core/src/view.cpp), over the loop of fs_readdir (core/src/platform_posix.cpp).
use forkfs.Common.{
  ℕ, ◌+◌, Bool, false, not, ◌||◌, Option, none, some, List, [], ◌∷◌, ◌++◌, ltb, if◌then◌else◌,
}
use forkfs.Common.Bytes.{Bytes, bytes_eq}
use forkfs.Common.Result.{Result, ok, err}
use forkfs.LiveView.Types.{
  NodeType, dir, RawEntry, NodeRec, Dirent, Attr, Fs, View, M, ask, get, ◌>>=◌,
}
use forkfs.LiveView.Paths.{root, path_locked, interned}
use forkfs.LiveView.Ops.{getattr}

-- The entries from `skip` on, until the callback stops.
unfoldable pub each : {S : Type 0} → (RawEntry → ℕ → S → Bool × S) → ℕ → ℕ → List RawEntry → S → S
each cb skip index [] s = s
each cb skip index (e ∷ es) s =
    let (stop, s') = cb e index s in
    let taken = each cb skip (index + 1) es s' in
    let passed = each cb skip (index + 1) es s in
    if ltb index skip then passed else if stop then s' else taken

pub record ReaddirCtx : Type 0 where
  pub dir_ino : ℕ
  pub parent : ℕ
  pub dir_path : Bytes
  pub want_attr : Bool
  pub emit_dots : Bool

abbrev pub is_dot : Bytes → Bool
is_dot name = bytes_eq name (b'.' ∷ [])

abbrev pub is_dotdot : Bytes → Bool
is_dotdot name = bytes_eq name (b'.' ∷ b'.' ∷ [])

abbrev pub attr_of : Result Attr → Option Attr
attr_of (ok a) = some a
attr_of (err e) = none

abbrev pub parent_of : Option NodeRec → ℕ
parent_of none = root
parent_of (some rec) = rec.parent

-- The callback of the host, and what it keeps between two calls.
module _ {Disk C : Type 0} (fs : Fs Disk) (cb : Dirent → C → Bool × C) where
  abbrev pub called : View Disk → C → Dirent → Bool × (View Disk × C)
  called v c e = let (stop, c') = cb e c in (stop, (v, c'))

  unfoldable pub dot_entry : ReaddirCtx → RawEntry → ℕ → View Disk → C → Bool × (View Disk × C)
  dot_entry x e index v c =
      let ino : ℕ = if is_dot e.name then x.dir_ino else x.parent in
      called v c (record {
        name = e.name;
        ino = ino;
        type = dir;
        next_cookie = index + 1;
        attr = if x.want_attr then attr_of (getattr fs ino v).0 else none;
      })

  abbrev pub plain_dirent : RawEntry → ℕ → NodeType → Option Attr → Dirent
  plain_dirent e index type attr = record {
    name = e.name;
    ino = e.ino;
    type = type;
    next_cookie = index + 1;
    attr = attr;
  }

  abbrev pub found :
      ReaddirCtx → RawEntry → ℕ → View Disk → C → Result Attr → Bool × (View Disk × C)
  found x e index v c (err z) = called v c (plain_dirent e index e.type none)
  found x e index v c (ok a) =
      called (record v { nodes = interned x.dir_ino e.name a v.nodes }) c
        (plain_dirent e index a.type (some (record a { parent = x.dir_ino })))

  unfoldable pub readdir_trampoline :
      ReaddirCtx → RawEntry → ℕ → View Disk × C → Bool × (View Disk × C)
  unfolding dot_entry
  readdir_trampoline x e index (v, c) =
      if is_dot e.name || is_dotdot e.name
      then if not x.emit_dots then (false, (v, c)) else dot_entry x e index v c
      else if x.want_attr
      then found x e index v c (fs.fs_lstat (x.dir_path ++ (b'/' ∷ e.name)) v.disk)
      else called v c (plain_dirent e index e.type none)

  abbrev pub finished : View Disk × C → Result C × View Disk
  finished (v, c) = (ok c, v)

  abbrev pub context : ℕ → Bytes → Bool → View Disk → ReaddirCtx
  context dir_ino dir_path want_attr v = record {
    dir_ino = dir_ino;
    parent = parent_of (v.nodes dir_ino);
    dir_path = dir_path;
    want_attr = want_attr;
    emit_dots = fs.fs_readdir_emits_dots want_attr;
  }

  unfoldable pub readdir : ℕ → ℕ → Bool → C → M Disk C
  unfolding readdir_trampoline each
  readdir dir_ino cookie want_attr c = do
    v ← get
    dir_path ← ask (λ w. path_locked w dir_ino)
    entries ← ask (λ w. fs.opendir dir_path w.disk)
    λ w.
        finished
          (each (readdir_trampoline (context dir_ino dir_path want_attr v)) cookie 0 entries (w, c))
