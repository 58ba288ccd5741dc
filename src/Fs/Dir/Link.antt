-- ===== src/Fs/Dir/Link.antt =====
-- `dirlink` of fs.c where the directory has an entry to spare, and the lookup of the new name.
use hyu_3rd_1se.Prelude.{
  ℕ, zero, suc, ◌+◌, ◌*◌, ◌/◌, ◌%◌, ◌<◌, ◌≤◌, ◌≡◌, ◌≢◌, refl, sym, ap, ◌∙◌, true, false, not, ◌&&◌,
  Option, none, some, List, [], ◌∷◌, length, ltb, ◌==◌, Result, ok, ◌>>=◌, arith, Bool-cases, inl,
  inr, ==-of_ne, ==-refl, ==_iff, subst,
}
use hyu_3rd_1se.Disk.{bsize}
use hyu_3rd_1se.Fs.{Inode, FsState}
use hyu_3rd_1se.Fs.Inodes.{iget}
use hyu_3rd_1se.Fs.Content.{Devices, maxfile}
use hyu_3rd_1se.Fs.Content.Read.{contents}
use hyu_3rd_1se.Fs.Content.Write.{IsFile}
use hyu_3rd_1se.Fs.Content.Overwrite.{Written, writei-Written, contents-cong}
use hyu_3rd_1se.Fs.Dir.{
  dirent_inum, dirent_name, strncmp, strncpy, namecmp, make_dirent, empty_loop, put_dirent, link_at,
  dirlink, dirlookup,
}
use hyu_3rd_1se.Fs.Dir.Entries.{
  IsDir, dirent, has_name, inode_at, Looked, missing, found, read_dirent-dirent, dirlookup-Looked,
}

length-strncpy : (n : ℕ) (t : List ℕ) → length (strncpy n t) ≡ n
unfolding strncpy
length-strncpy zero t = refl
length-strncpy (suc n) [] = ap suc (length-strncpy n [])
length-strncpy (suc n) (c ∷ cs) = ap suc (length-strncpy n cs)

-- A name equals its copy.
strncmp-strncpy : (n : ℕ) (t : List ℕ) → strncmp n t (strncpy n t) ≡ true
unfolding strncmp strncpy
strncmp-strncpy zero t = refl
strncmp-strncpy (suc n) [] = refl
strncmp-strncpy (suc n) (c ∷ cs) = elim (Bool-cases (c == 0)) [
  | inl z ↦ rw z
  | inr z ↦ rw (z, ==-refl c) (strncmp-strncpy n cs)
]

length-make_dirent : (inum : ℕ) (name : List ℕ) → length (make_dirent inum name) ≡ 16
unfolding make_dirent
length-make_dirent inum name = ap (λ n. suc (suc n)) (length-strncpy 14 name)

-- An entry that is made for a name has it.
make_dirent-named :
    (inum : ℕ) (name : List ℕ)
    → inum < 65536
    → inum ≢ 0
    → (not (dirent_inum (make_dirent inum name) == 0)
        && namecmp name (dirent_name (make_dirent inum name)))
      ≡ true
unfolding make_dirent namecmp
make_dirent-named inum name l n =
    let number : inum % 256 + 256 * (inum / 256 % 256) ≡ inum = omega arith in
    rw (number, ==-of_ne inum 0 n) (strncmp-strncpy 14 name)

dirent_inum-make_dirent :
    (inum : ℕ) (name : List ℕ) → inum < 65536 → dirent_inum (make_dirent inum name) ≡ inum
unfolding make_dirent
dirent_inum-make_dirent inum name l = omega arith

-- The first entry that is not in use.
data Emptied (s : FsState) (dp from : ℕ) : Result (FsState × ℕ) → Type 0 where
  slot :
      (k : ℕ)
      → from ≤ k
      → 16 * k < (s.inodes dp).size
      → dirent_inum (dirent s dp k) ≡ 0
      → Emptied s dp from (ok (s, 16 * k))
  none_empty :
      (off : ℕ)
      → ((k : ℕ) → from ≤ k → 16 * k < (s.inodes dp).size → dirent_inum (dirent s dp k) ≢ 0)
      → Emptied s dp from (ok (s, off))

Emptied-suc :
    (s : FsState) (dp from : ℕ) {r : Result (FsState × ℕ)}
    → dirent_inum (dirent s dp from) ≢ 0
    → Emptied s dp (suc from) r
    → Emptied s dp from r
Emptied-suc s dp from h (slot k a l c) = slot k (omega arith) l c
Emptied-suc s dp from h (none_empty off f) = none_empty off (λ k a l.
    elim (Bool-cases (from == k)) [
      | inl e ↦
          let same : from ≡ k = (==_iff from k).0 e in
          subst (λ x. dirent_inum (dirent s dp x) ≢ 0) same h
      | inr e ↦ f k (ground arith) l
    ])

empty_loop-Emptied :
    (devs : Devices) (rounds : ℕ) (s : FsState) (dp from : ℕ)
    → IsDir s dp
    → (s.inodes dp).size < 16 * from + rounds
    → 16 * from ≤ (s.inodes dp).size
    → Emptied s dp from (empty_loop devs rounds s dp (16 * from))
unfolding empty_loop
empty_loop-Emptied devs zero s dp from d f g = absurd (omega arith)
empty_loop-Emptied devs (suc rounds) s dp from d f g =
    elim (Bool-cases (ltb (16 * from) (s.inodes dp).size)) [
      | inr end ↦ rw end (none_empty (16 * from) (λ k a l. absurd (ground arith)))
      | inl more ↦
          let l : 16 * from < (s.inodes dp).size = ground arith in
          let next : 16 * from + 16 ≡ 16 * suc from = omega arith in
          let rest =
            empty_loop-Emptied devs rounds s dp (suc from) d (omega (arith, f))
              (omega (arith, l, d.whole)) in
          rw (more, read_dirent-dirent devs s dp from d l, next)
            (elim (Bool-cases (dirent_inum (dirent s dp from) == 0)) [
              | inl empty ↦ rw empty (slot from (omega arith) l ((==_iff _ 0).0 empty))
              | inr full ↦
                  rw full (Emptied-suc s dp from (λ z. absurd (ground (arith, full, z))) rest)
            ])
    ]

Emptied-slot :
    (s : FsState) (dp e : ℕ) {r : Result (FsState × ℕ)}
    → 16 * e < (s.inodes dp).size
    → dirent_inum (dirent s dp e) ≡ 0
    → Emptied s dp 0 r
    → (k : ℕ) × (16 * k < (s.inodes dp).size)
      × (dirent_inum (dirent s dp k) ≡ 0)
      × (r ≡ ok (s, 16 * k))
Emptied-slot s dp e l z (slot k a m c) = (k, m, c, refl)
Emptied-slot s dp e l z (none_empty off f) = absurd (f e (omega arith) l z)

Looked-none :
    (s : FsState) (dp : ℕ) (name : List ℕ) {r : Result (FsState × Option (ℕ × ℕ))}
    → ((k : ℕ) → 16 * k < (s.inodes dp).size → has_name s dp name k ≡ false)
    → Looked s dp name 0 r
    → r ≡ ok (s, none)
Looked-none s dp name f (missing g) = refl
Looked-none s dp name f (found k a l c g) = let no = f k l in absurd (ground (arith, no, c))

Looked-only :
    (s : FsState) (dp : ℕ) (name : List ℕ) (k : ℕ) {r : Result (FsState × Option (ℕ × ℕ))}
    → 16 * k < (s.inodes dp).size
    → has_name s dp name k ≡ true
    → ((j : ℕ) → j ≢ k → 16 * j < (s.inodes dp).size → has_name s dp name j ≡ false)
    → Looked s dp name 0 r
    → r ≡ inode_at s dp k
Looked-only s dp name k l h f (missing g) =
    let no = g k (omega arith) l in absurd (ground (arith, no, h))
Looked-only s dp name k l h f (found j a m c g) = elim (Bool-cases (j == k)) [
  | inl e ↦ ap (inode_at s dp) ((==_iff j k).0 e)
  | inr e ↦ let no = f j (ground arith) m in absurd (ground (arith, no, c))
]

-- The state after the entry `k` was written.
module _ (s s' : FsState) (dp inum k : ℕ) (name : List ℕ) (d : IsDir s dp)
    (l : 16 * k < (s.inodes dp).size) (w : Written dp (16 * k) (make_dirent inum name) s s') where
  size_kept : (s'.inodes dp).size ≡ (s.inodes dp).size
  size_kept = ap (λ (u : ℕ → Inode). (u dp).size) w.inodes_same

  linked-IsDir : IsDir s' dp
  linked-IsDir = record {
    is_dir = ap (λ (u : ℕ → Inode). (u dp).type) w.inodes_same ∙ d.is_dir;
    mapped = w.is_file.mapped;
    whole = omega (arith, size_kept, d.whole);
    small = omega (arith, size_kept, d.small);
  }

  linked_entry : dirent s' dp k ≡ make_dirent inum name
  linked_entry = ap (contents s' dp (16 * k)) (sym (length-make_dirent inum name)) ∙ w.got

  other_entries : (j : ℕ) → j ≢ k → 16 * j < (s.inodes dp).size → dirent s' dp j ≡ dirent s dp j
  other_entries j n m = contents-cong s s' dp (16 * j) 16 (λ x a b.
      w.outside x (omega (arith, d.whole)) (elim (Bool-cases (ltb j k)) [
        | inl c ↦ inl (ground (arith, c))
        | inr c ↦
            let behind : k < j = ground (arith, c) in
            inr (omega (arith, length-make_dirent inum name))
      ]))

-- `dirlink` of a name that the directory has not, with an inode number from 1 to 65535, succeeds where an
-- entry inside the directory is empty, all its blocks are there and apart, and it has at most MAXFILE
-- blocks: it takes an entry that was empty, inside the directory as it was, and all other entries and
-- the inodes stay. A `dirlookup` of the name then gets the inode that was linked. (A directory that grows is
-- not covered.)
pub dirlookup-dirlink :
    (devs : Devices) (s : FsState) (dp inum e : ℕ) (name : List ℕ)
    → IsDir s dp
    → IsFile s dp
    → (s.inodes dp).size ≤ maxfile * bsize
    → inum < 65536
    → inum ≢ 0
    → ((j : ℕ) → 16 * j < (s.inodes dp).size → has_name s dp name j ≡ false)
    → 16 * e < (s.inodes dp).size
    → dirent_inum (dirent s dp e) ≡ 0
    → (k : ℕ) × (s' : FsState) × (16 * k < (s.inodes dp).size)
      × (dirent_inum (dirent s dp k) ≡ 0)
      × (dirlink devs s dp name inum ≡ ok (s', true))
      × ((j : ℕ) → j ≢ k → 16 * j < (s.inodes dp).size → dirent s' dp j ≡ dirent s dp j)
      × (s'.inodes ≡ s.inodes)
      × (dirlookup devs s' dp name
          ≡ (iget s' (s'.inodes dp).dev inum >>= λ (s2, i). ok (s2, some (i, 16 * k))))
unfolding dirlink link_at put_dirent
dirlookup-dirlink devs s dp inum e name d h big l n free m z =
    let absent = Looked-none s dp name free (dirlookup-Looked devs s dp name d) in
    let (k, a, empty, slot_at) =
      Emptied-slot s dp e m z
        (empty_loop-Emptied devs ((s.inodes dp).size + 1) s dp 0 d (omega arith) (omega arith)) in
    let long = length-make_dirent inum name in
    let (s', write, w) =
      writei-Written devs s dp (16 * k) (make_dirent inum name) (omega (arith, d.is_dir)) h
        (omega (arith, long, a, d.whole)) big in
    let number = dirent_inum-make_dirent inum name l in
    let entry = linked_entry s s' dp inum k name d a w in
    let others = other_entries s s' dp inum k name d a w in
    let size = size_kept s s' dp inum k name d a w in
    let named : has_name s' dp name k ≡ true =
      ap (λ de. not (dirent_inum de == 0) && namecmp name (dirent_name de)) entry
      ∙ make_dirent-named inum name l n in
    let alone : (j : ℕ) → j ≢ k → 16 * j < (s'.inodes dp).size → has_name s' dp name j ≡ false =
      λ j ne x.
        ap (λ de. not (dirent_inum de == 0) && namecmp name (dirent_name de))
          (others j ne (omega (arith, x, size)))
        ∙ free j (omega (arith, x, size)) in
    (
      k,
      s',
      a,
      empty,
      rw (absent, slot_at, write, long) refl,
      others,
      w.inodes_same,
      Looked-only s' dp name k (omega (arith, a, size)) named alone
            (dirlookup-Looked devs s' dp name (linked-IsDir s s' dp inum k name d a w))
          ∙ ap (λ x. iget s' (s'.inodes dp).dev x >>= λ (s2, i). ok (s2, some (i, 16 * k)))
              (ap dirent_inum entry ∙ number),
    )
