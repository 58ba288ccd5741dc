-- ===== src/Fs/Path.antt =====
-- OS/HW4/xv6-proj/fs.c: path names. A path is the list of its bytes, of which none is zero.
pub mod Elements
use hyu_3rd_1se.Prelude.{
  ℕ, zero, suc, ◌+◌, Bool, true, false, not, ◌&&◌, Option, none, some, List, [], ◌∷◌, length, take,
  ltb, ◌==◌, if◌then◌else◌, Result, ok, fault, diverges, ◌>>=◌,
}
use hyu_3rd_1se.Fs.{FsState}
use hyu_3rd_1se.Fs.Inodes.{iget, idup, ilock, iunlock}
use hyu_3rd_1se.Fs.Content.{Devices, iput}
use hyu_3rd_1se.Fs.Dir.{dirsiz, dirlookup, t_dir}

abbrev pub slash : ℕ
slash = b'/'

-- `while(*path == '/') path++`
unfoldable pub skip_slashes : List ℕ → List ℕ
skip_slashes [] = []
skip_slashes (c ∷ cs) = let rest = skip_slashes cs in if c == slash then rest else c ∷ cs

-- `while(*path != '/' && *path != 0) path++`, with the bytes that are passed.
unfoldable pub split_element : List ℕ → List ℕ × List ℕ
split_element [] = ([], [])
split_element (c ∷ cs) =
    let rest = split_element cs in if c == slash then ([], c ∷ cs) else (c ∷ rest.0, rest.1)

-- The name is cut after DIRSIZ bytes.
unfoldable pub skip_first : List ℕ → Option (List ℕ × List ℕ)
skip_first [] = none
skip_first (c ∷ cs) =
    let (name, rest) = split_element (c ∷ cs) in some (take dirsiz name, skip_slashes rest)

unfoldable pub skipelem : List ℕ → Option (List ℕ × List ℕ)
skipelem path = skip_first (skip_slashes path)

unfoldable pub iunlockput : FsState → ℕ → Result FsState
iunlockput s i = iunlock s i >>= λ s1. iput s1 i

-- What `namex` does with the result of `dirlookup`; `onward` is its next round.
unfoldable pub step_into :
    (FsState → ℕ → Result (FsState × Option (ℕ × List ℕ)))
    → FsState
    → ℕ
    → Option (ℕ × ℕ)
    → Result (FsState × Option (ℕ × List ℕ))
step_into onward s i none = iunlockput s i >>= λ s1. ok (s1, none)
step_into onward s i (some (next, off)) = iunlockput s i >>= λ s1. onward s1 next

-- The loop of `namex` with its inode `i`; `parent` is `nameiparent`. The result is none
-- for 0, and else the inode with the name that `nameiparent` stores.
unfoldable pub namex_loop :
    Devices → ℕ → Bool → FsState → ℕ → List ℕ → Result (FsState × Option (ℕ × List ℕ))
namex_loop devs zero parent s i path = fault diverges
namex_loop devs (suc rounds) parent s i path = elim (skipelem path) [
  | none ↦ if parent then (iput s i >>= λ s1. ok (s1, none)) else ok (s, some (i, []))
  | some (name, rest) ↦ ilock s i >>= λ s1.
      let deeper = dirlookup devs s1 i name >>= λ (s2, r).
      step_into (λ s3 j. namex_loop devs rounds parent s3 j rest) s2 i r in
      let last = iunlock s1 i >>= λ s2. ok (s2, some (i, name)) in
      if not ((s1.inodes i).type == t_dir)
      then (iunlockput s1 i >>= λ s2. ok (s2, none))
      else if parent && length rest == 0
      then last
      else deeper
]

-- `ROOTDEV` and `ROOTINO`
abbrev pub rootdev : ℕ
rootdev = 1

abbrev pub rootino : ℕ
rootino = 1

-- `namex`; `cwd` is the inode of `proc->cwd`.
unfoldable pub namex :
    Devices → Bool → FsState → ℕ → List ℕ → Result (FsState × Option (ℕ × List ℕ))
namex devs parent s cwd [] = namex_loop devs 1 parent (idup s cwd) cwd []
namex devs parent s cwd (c ∷ cs) =
    (if c == slash then iget s rootdev rootino else ok (idup s cwd, cwd)) >>= λ (s1, i).
    namex_loop devs (length (c ∷ cs) + 1) parent s1 i (c ∷ cs)

unfoldable pub namei : Devices → FsState → ℕ → List ℕ → Result (FsState × Option (ℕ × List ℕ))
namei devs s cwd path = namex devs false s cwd path

unfoldable pub nameiparent : Devices → FsState → ℕ → List ℕ → Result (FsState × Option (ℕ × List ℕ))
nameiparent devs s cwd path = namex devs true s cwd path
