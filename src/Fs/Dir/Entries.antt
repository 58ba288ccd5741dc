-- ===== src/Fs/Dir/Entries.antt =====
-- `dirlookup` of fs.c on the entries of a directory.
use hyu_3rd_1se.Prelude.{
  ℕ, zero, suc, ◌+◌, ◌-◌, ◌*◌, ◌%◌, ◌<◌, ◌≤◌, ◌≡◌, refl, ap, ◌∙◌, Bool, true, false, not, ◌&&◌,
  Option, none, some, List, length, ltb, ◌==◌, Result, ok, ◌>>=◌, arith, Bool-cases, inl, inr,
  ==_iff, ltb-false, subst,
}
use hyu_3rd_1se.Fs.{FsState}
use hyu_3rd_1se.Fs.Inodes.{iget}
use hyu_3rd_1se.Fs.Content.{Devices, readi, min}
use hyu_3rd_1se.Fs.Content.Read.{contents, Mapped, readi-contents}
use hyu_3rd_1se.Fs.Dir.{dirent_inum, dirent_name, namecmp, read_dirent, lookup_loop, dirlookup}

-- A directory: its blocks are there, and it consists of whole entries.
pub record IsDir (s : FsState) (dp : ℕ) : Type 0 where
  pub is_dir : (s.inodes dp).type ≡ 1
  pub mapped : Mapped s dp
  pub whole : (s.inodes dp).size % 16 ≡ 0
  pub small : (s.inodes dp).size < 4294967280

-- The bytes of the entry `k`, and whether it has the name.
abbrev pub dirent : FsState → ℕ → ℕ → List ℕ
dirent s dp k = contents s dp (16 * k) 16

abbrev pub has_name : FsState → ℕ → List ℕ → ℕ → Bool
has_name s dp name k =
    not (dirent_inum (dirent s dp k) == 0) && namecmp name (dirent_name (dirent s dp k))

-- What `dirlookup` returns: nothing, or an inode of the first entry with the name.
abbrev pub inode_at : FsState → ℕ → ℕ → Result (FsState × Option (ℕ × ℕ))
inode_at s dp k =
    iget s (s.inodes dp).dev (dirent_inum (dirent s dp k)) >>= λ (s2, i). ok (s2, some (i, 16 * k))

pub data Looked (s : FsState) (dp : ℕ) (name : List ℕ) (from : ℕ)
    : Result (FsState × Option (ℕ × ℕ)) → Type 0 where
  missing :
      ((k : ℕ) → from ≤ k → 16 * k < (s.inodes dp).size → has_name s dp name k ≡ false)
      → Looked s dp name from (ok (s, none))
  found :
      (k : ℕ)
      → from ≤ k
      → 16 * k < (s.inodes dp).size
      → has_name s dp name k ≡ true
      → ((j : ℕ) → from ≤ j → j < k → has_name s dp name j ≡ false)
      → Looked s dp name from (inode_at s dp k)

pub length-contents : (s : FsState) (i off n : ℕ) → length (contents s i off n) ≡ n
unfolding contents
length-contents s i off zero = refl
length-contents s i off (suc n) = ap suc (length-contents s i (suc off) n)

pub read_dirent-dirent :
    (devs : Devices) (s : FsState) (dp k : ℕ)
    → IsDir s dp
    → 16 * k < (s.inodes dp).size
    → read_dirent devs s dp (16 * k) ≡ ok (s, dirent s dp k)
unfolding read_dirent
read_dirent-dirent devs s dp k d l =
    let inside : ltb (s.inodes dp).size (16 * k) ≡ false = ltb-false _ _ (omega arith) in
    let all : min 16 ((s.inodes dp).size - 16 * k) ≡ 16 = ground (arith, d.whole) in
    let long : (length (dirent s dp k) == 16) ≡ true =
      ground (arith, length-contents s dp (16 * k) 16) in
    let read : readi devs s dp (16 * k) 16 ≡ ok (s, some (dirent s dp k)) =
      readi-contents devs s dp (16 * k) 16 (omega (arith, d.is_dir)) d.mapped
        (omega (arith, d.small))
      ∙ rw (inside, all) in
    rw (read, long)

Looked-suc :
    (s : FsState) (dp : ℕ) (name : List ℕ) (from : ℕ) {r : Result (FsState × Option (ℕ × ℕ))}
    → has_name s dp name from ≡ false
    → Looked s dp name (suc from) r
    → Looked s dp name from r
Looked-suc s dp name from h (missing f) = missing (λ k a l. elim (Bool-cases (from == k)) [
  | inl e ↦
      let same : from ≡ k = (==_iff from k).0 e in subst (λ x. has_name s dp name x ≡ false) same h
  | inr e ↦ f k (ground arith) l
])
Looked-suc s dp name from h (found k a l c f) = found k (omega arith) l c (λ j x y.
    elim (Bool-cases (from == j)) [
      | inl e ↦
          let same : from ≡ j = (==_iff from j).0 e in
          subst (λ x. has_name s dp name x ≡ false) same h
      | inr e ↦ f j (ground arith) y
    ])

lookup_loop-Looked :
    (devs : Devices) (rounds : ℕ) (s : FsState) (dp : ℕ) (name : List ℕ) (from : ℕ)
    → IsDir s dp
    → (s.inodes dp).size < 16 * from + rounds
    → 16 * from ≤ (s.inodes dp).size
    → Looked s dp name from (lookup_loop devs rounds s dp name (16 * from))
unfolding lookup_loop
lookup_loop-Looked devs zero s dp name from d f g = absurd (omega arith)
lookup_loop-Looked devs (suc rounds) s dp name from d f g =
    elim (Bool-cases (ltb (16 * from) (s.inodes dp).size)) [
      | inr end ↦ rw end (missing (λ k a l. absurd (ground arith)))
      | inl more ↦
          let l : 16 * from < (s.inodes dp).size = ground arith in
          let next : 16 * from + 16 ≡ 16 * suc from = omega arith in
          let rest =
            lookup_loop-Looked devs rounds s dp name (suc from) d (omega (arith, f))
              (omega (arith, l, d.whole)) in
          rw (more, read_dirent-dirent devs s dp from d l, next)
            (elim (Bool-cases (dirent_inum (dirent s dp from) == 0)) [
              | inl empty ↦ rw empty (Looked-suc s dp name from (rw empty) rest)
              | inr full ↦ elim (Bool-cases (namecmp name (dirent_name (dirent s dp from)))) [
                | inr other ↦ rw (full, other) (Looked-suc s dp name from (rw (full, other)) rest)
                | inl same ↦
                    rw (full, same)
                      (found from (omega arith) l (rw (full, same)) (λ j a b. absurd (omega arith)))
              ]
            ])
    ]

-- `dirlookup` gives an inode of the first entry that is in use and has the name, with the offset of the
-- entry, or nothing where no entry of the directory has it.
pub dirlookup-Looked :
    (devs : Devices) (s : FsState) (dp : ℕ) (name : List ℕ)
    → IsDir s dp
    → Looked s dp name 0 (dirlookup devs s dp name)
unfolding dirlookup
dirlookup-Looked devs s dp name d =
    let dir : ((s.inodes dp).type == 1) ≡ true = ground (arith, d.is_dir) in
    rw dir
      (lookup_loop-Looked devs ((s.inodes dp).size + 1) s dp name 0 d (omega arith) (omega arith))
