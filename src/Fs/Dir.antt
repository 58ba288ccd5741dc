-- ===== src/Fs/Dir.antt =====
-- OS/HW4/xv6-proj/fs.c: directories. The entry of a name is 16 bytes, the inode number and 14 bytes
-- of the name. A C string is the list of its bytes before the terminating zero.
pub mod Entries
pub mod Link
use hyu_3rd_1se.Prelude.{
  ℕ, zero, suc, ◌+◌, ◌*◌, ◌/◌, ◌%◌, Bool, true, false, Option, none, some, List, [], ◌∷◌, length,
  ltb, ◌==◌, if◌then◌else◌, Result, ok, fault, panic, diverges, ◌>>=◌,
}
use hyu_3rd_1se.Fs.{FsState}
use hyu_3rd_1se.Fs.Inodes.{iget}
use hyu_3rd_1se.Fs.Content.{Devices, readi, writei, iput}

abbrev pub dirsiz : ℕ
dirsiz = 14

-- `struct dirent`: `inum` in two bytes, then the name.
abbrev pub head : List ℕ → ℕ
head [] = 0
head (c ∷ cs) = c

abbrev pub tail : List ℕ → List ℕ
tail [] = []
tail (c ∷ cs) = cs

abbrev pub dirent_inum : List ℕ → ℕ
dirent_inum de = head de + 256 * head (tail de)

abbrev pub dirent_name : List ℕ → List ℕ
dirent_name de = tail (tail de)

-- `strncmp(p, q, n) == 0`
unfoldable pub strncmp : ℕ → List ℕ → List ℕ → Bool
strncmp zero p q = true
strncmp (suc n) p q =
    let rest = strncmp n (tail p) (tail q) in
    if head p == 0 then head q == 0 else if head p == head q then rest else false

unfoldable pub namecmp : List ℕ → List ℕ → Bool
namecmp s t = strncmp dirsiz s t

-- `strncpy(s, t, n)`, the `n` bytes that it stores.
unfoldable pub strncpy : ℕ → List ℕ → List ℕ
strncpy zero t = []
strncpy (suc n) [] = 0 ∷ strncpy n []
strncpy (suc n) (c ∷ cs) = c ∷ strncpy n cs

unfoldable pub make_dirent : ℕ → List ℕ → List ℕ
make_dirent inum name = (inum % 256) ∷ (inum / 256 % 256) ∷ strncpy dirsiz name

-- `readi` of one entry; a short one panics.
unfoldable pub read_dirent : Devices → FsState → ℕ → ℕ → Result (FsState × List ℕ)
read_dirent devs s dp off = readi devs s dp off 16 >>= λ (s1, r). elim r [
  | none ↦ fault panic
  | some de ↦ if length de == 16 then ok (s1, de) else fault panic
]

-- The loop of `dirlookup` from offset `off` on: the inode of the name and the offset of its entry.
unfoldable pub lookup_loop :
    Devices → ℕ → FsState → ℕ → List ℕ → ℕ → Result (FsState × Option (ℕ × ℕ))
lookup_loop devs zero s dp name off = fault diverges
lookup_loop devs (suc rounds) s dp name off =
    let step = read_dirent devs s dp off >>= λ (s1, de).
    let next = lookup_loop devs rounds s1 dp name (off + 16) in
    let found = iget s1 (s1.inodes dp).dev (dirent_inum de) >>= λ (s2, i). ok (s2, some (i, off)) in
    if dirent_inum de == 0 then next else if namecmp name (dirent_name de) then found else next in
    if ltb off (s.inodes dp).size then step else ok (s, none)

abbrev pub t_dir : ℕ
t_dir = 1

unfoldable pub dirlookup : Devices → FsState → ℕ → List ℕ → Result (FsState × Option (ℕ × ℕ))
dirlookup devs s dp name =
    let loop = lookup_loop devs ((s.inodes dp).size + 1) s dp name 0 in
    if (s.inodes dp).type == t_dir then loop else fault panic

-- The loop of `dirlink`: the offset of the first empty entry, or the size.
unfoldable pub empty_loop : Devices → ℕ → FsState → ℕ → ℕ → Result (FsState × ℕ)
empty_loop devs zero s dp off = fault diverges
empty_loop devs (suc rounds) s dp off =
    let step = read_dirent devs s dp off >>= λ (s1, de).
    let next = empty_loop devs rounds s1 dp (off + 16) in
    if dirent_inum de == 0 then ok (s1, off) else next in
    if ltb off (s.inodes dp).size then step else ok (s, off)

-- The end of `dirlink`: the entry is written.
unfoldable pub put_dirent : Devices → FsState → ℕ → ℕ → List ℕ → Result (FsState × Bool)
put_dirent devs s dp off de = writei devs s dp off de >>= λ (s1, r). elim r [
  | none ↦ fault panic
  | some n ↦ if n == 16 then ok (s1, true) else fault panic
]

-- `dirlink` after its lookup; false stands for -1.
unfoldable pub link_at :
    Devices → FsState → ℕ → List ℕ → ℕ → Option (ℕ × ℕ) → Result (FsState × Bool)
link_at devs s dp name inum (some (i, off)) = iput s i >>= λ s1. ok (s1, false)
link_at devs s dp name inum none = empty_loop devs ((s.inodes dp).size + 1) s dp 0 >>= λ (s1, off).
    put_dirent devs s1 dp off (make_dirent inum name)

unfoldable pub dirlink : Devices → FsState → ℕ → List ℕ → ℕ → Result (FsState × Bool)
dirlink devs s dp name inum = dirlookup devs s dp name >>= λ (s1, r). link_at devs s1 dp name inum r
