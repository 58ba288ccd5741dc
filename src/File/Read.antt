-- ===== src/File/Read.antt =====
-- `fileread` of file.c on a regular file.
use hyu_3rd_1se.Prelude.{
  ℕ, ◌+◌, ◌-◌, ◌*◌, ◌/◌, ◌%◌, ◌<◌, ◌≤◌, ◌≡◌, ◌≢◌, refl, sym, ap, ◌∙◌, true, false, Option, none,
  some, List, length, ltb, ◌==◌, if◌then◌else◌, ok, arith, Bool-cases, inl, inr, ==-of_ne, ==-refl,
  ==_iff, ltb-false, subst,
}
use hyu_3rd_1se.Proc.{u32}
use hyu_3rd_1se.Pipe.{PipeState}
use hyu_3rd_1se.Fs.{Inode, FsState, set_inode}
use hyu_3rd_1se.Fs.Inodes.{ilock, iunlock}
use hyu_3rd_1se.Fs.Content.{Devices, readi, min}
use hyu_3rd_1se.Fs.Content.Lookup.{block_of, tree_block}
use hyu_3rd_1se.Fs.Content.Read.{contents, Mapped, readi-contents}
use hyu_3rd_1se.Fs.Content.Overwrite.{contents-cong}
use hyu_3rd_1se.Fs.Dir.Entries.{length-contents}
use hyu_3rd_1se.File.{FileType, fd_inode, Files, advance, fileread_of, fileread}

-- A regular file in the cache that nobody has locked, with all its blocks there.
pub record IsOpen (s : FsState) (i : ℕ) : Type 0 where
  pub cached : (s.inodes i).valid ≡ true
  pub unlocked : (s.inodes i).locked ≡ false
  pub held : 0 < (s.inodes i).ref
  pub regular : (s.inodes i).type ≢ 3
  pub mapped : Mapped s i

abbrev pub locked_fs : FsState → ℕ → FsState
locked_fs s i = set_inode s i (record (s.inodes i) { locked = true })

ilock_here : (s : FsState) (i : ℕ) → IsOpen s i → ilock s i ≡ ok (locked_fs s i)
unfolding ilock
ilock_here s i h =
    let some_ref : ltb (s.inodes i).ref 1 ≡ false = ground (arith, h.held) in
    rw (some_ref, h.unlocked, h.cached)

iunlock_here :
    (s : FsState) (i : ℕ)
    → IsOpen s i
    → (s' : FsState) × (iunlock (locked_fs s i) i ≡ ok s')
      × (s'.blocks ≡ s.blocks)
      × (s'.logged ≡ s.logged)
      × ((j : ℕ) → s'.inodes j ≡ s.inodes j)
unfolding iunlock
iunlock_here s i h =
    let some_ref : ltb (s.inodes i).ref 1 ≡ false = ground (arith, h.held) in
    (
      set_inode (locked_fs s i) i (record (s.inodes i) { locked = false }),
      simp (==-refl i, some_ref),
      refl,
      refl,
      λ j. elim (Bool-cases (i == j)) [
        | inl e ↦
            let same : i ≡ j = (==_iff i j).0 e in
            rw e (ap (λ l. record (s.inodes i) { locked = l }) (sym h.unlocked) ∙ ap s.inodes same)
        | inr e ↦ simp e
      ],
    )

field_kept :
    {A : Type 0} (s : FsState) (i : ℕ) (g : Inode → A)
    → g ((locked_fs s i).inodes i) ≡ g (record (s.inodes i) { locked = true })
field_kept s i g = simp (==-refl i)

block_of-locked : (s : FsState) (i bn : ℕ) → block_of (locked_fs s i) i bn ≡ block_of s i bn
block_of-locked s i bn =
    ap (λ (u : ℕ → ℕ). tree_block s.blocks u bn) (field_kept s i (λ u. u.addrs))

readi_locked :
    (devs : Devices) (s : FsState) (i off n : ℕ)
    → IsOpen s i
    → off + n < 4294967296
    → off ≤ (s.inodes i).size
    → readi devs (locked_fs s i) i off n
      ≡ ok (locked_fs s i, some (contents s i off (min n ((s.inodes i).size - off))))
readi_locked devs s i off n h l o =
    let size = field_kept s i (λ u. u.size) in
    let inside : ltb (s.inodes i).size off ≡ false = ltb-false _ _ o in
    readi-contents devs (locked_fs s i) i off n
      (λ e. h.regular (sym (field_kept s i (λ u. u.type)) ∙ e))
      (λ bn m.
        λ z. h.mapped bn (subst (λ u. bn * 512 < u) size m) (sym (block_of-locked s i bn) ∙ z))
      l
    ∙ ap
        (λ (u : ℕ). ok (
          locked_fs s i,
          (if ltb u off then none else some (contents (locked_fs s i) i off (min n (u - off)))),
        ))
        size
    ∙ rw inside (
        ap (λ (c : List ℕ). ok (locked_fs s i, some c))
          (contents-cong s (locked_fs s i) i off (min n ((s.inodes i).size - off))
            (λ x a b. ap (λ c. s.blocks c (x % 512)) (block_of-locked s i (x / 512)))))

advance_off :
    (s : Files) (f : ℕ) (bs : List ℕ)
    → (s.file f).off + length bs < 4294967296
    → ((advance s f (some bs)).file f ≡ record (s.file f) { off = (s.file f).off + length bs })
      × ((g : ℕ) → g ≢ f → (advance s f (some bs)).file g ≡ s.file g)
      × (record (advance s f (some bs)) { file = s.file } ≡ s)
advance_off s f bs l = elim (Bool-cases (ltb 0 (length bs))) [
  | inl a ↦
      let exact : u32 ((s.file f).off + length bs) ≡ (s.file f).off + length bs = omega arith in
      (
        simp (a, ==-refl f) (ap (λ o. record (s.file f) { off = o }) exact),
        λ g n. simp (a, ==-of_ne f g (λ e. n (sym e))),
        rw a,
      )
  | inr a ↦
      let nothing : (s.file f).off ≡ (s.file f).off + length bs = ground (arith, a) in
      (rw a (ap (λ o. record (s.file f) { off = o }) nothing), λ g n. rw a, rw a)
]

fileread_inode :
    (devs : Devices) (others : PipeState → PipeState) (rounds : ℕ) (s : Files) (f i n : ℕ)
    (s1 s2 s3 : FsState) (r : Option (List ℕ))
    → ilock s.fs i ≡ ok s1
    → readi devs s1 i (s.file f).off n ≡ ok (s2, r)
    → iunlock s2 i ≡ ok s3
    → fileread_of devs others rounds s f n (fd_inode i) ≡ ok (advance (record s { fs = s3 }) f r, r)
unfolding fileread_of
fileread_inode devs others rounds s f i n s1 s2 s3 r a b c = rw (a, b, c)

fileread_readable :
    (devs : Devices) (others : PipeState → PipeState) (rounds : ℕ) (s : Files) (f n : ℕ)
    (kind : FileType)
    → (s.file f).readable ≡ true
    → (s.file f).type ≡ kind
    → fileread devs others rounds s f n ≡ fileread_of devs others rounds s f n kind
unfolding fileread
fileread_readable devs others rounds s f n kind r t =
    rw r (ap (fileread_of devs others rounds s f n) t)

-- `fileread` of a readable file that stands for a regular file returns the bytes of the file from the
-- offset of the open file on, as many as are wanted and no more than there are, and puts the offset behind
-- them. Nothing else of the open file changes, nor any other open file, pipe, block or inode, nor the log
-- or the kernel. The file has all its blocks and is in the cache, and nobody has locked it; the offset is
-- not behind its end, and the offset and the number of the bytes wanted have a sum below 2^32.
pub fileread-contents :
    (devs : Devices) (others : PipeState → PipeState) (rounds : ℕ) (s : Files) (f i n : ℕ)
    → (s.file f).readable ≡ true
    → (s.file f).type ≡ fd_inode i
    → IsOpen s.fs i
    → (s.file f).off + n < 4294967296
    → (s.file f).off ≤ (s.fs.inodes i).size
    → let m = min n ((s.fs.inodes i).size - (s.file f).off) in
      (s' : Files) × (fileread devs others rounds s f n
        ≡ ok (s', some (contents s.fs i (s.file f).off m)))
      × (s'.file f ≡ record (s.file f) { off = (s.file f).off + m })
      × ((g : ℕ) → g ≢ f → s'.file g ≡ s.file g)
      × (s'.fs.blocks ≡ s.fs.blocks)
      × (s'.fs.logged ≡ s.fs.logged)
      × ((j : ℕ) → s'.fs.inodes j ≡ s.fs.inodes j)
      × (s'.pipes ≡ s.pipes)
      × (s'.kernel ≡ s.kernel)
fileread-contents devs others rounds s f i n r t h l o =
    let (fs', e, blocks, logged, inodes) = iunlock_here s.fs i h in
    let m = min n ((s.fs.inodes i).size - (s.file f).off) in
    let bytes = contents s.fs i (s.file f).off m in
    let few : m ≤ n = ground arith in
    let count : length bytes ≡ m = length-contents s.fs i (s.file f).off m in
    let (moved, rest, kept) =
      advance_off (record s { fs = fs' }) f bytes (omega (arith, few, count)) in
    (
      advance (record s { fs = fs' }) f (some bytes),
      fileread_readable devs others rounds s f n (fd_inode i) r t
          ∙ fileread_inode devs others rounds s f i n (locked_fs s.fs i) (locked_fs s.fs i) fs'
              (some bytes) (ilock_here s.fs i h) (readi_locked devs s.fs i (s.file f).off n h l o)
              e,
      moved ∙ ap (λ k. record (s.file f) { off = (s.file f).off + k }) count,
      rest,
      ap (λ (u : Files). u.fs.blocks) kept ∙ blocks,
      ap (λ (u : Files). u.fs.logged) kept ∙ logged,
      λ j. ap (λ (u : Files). u.fs.inodes j) kept ∙ inodes j,
      ap (λ (u : Files). u.pipes) kept,
      ap (λ (u : Files). u.kernel) kept,
    )
