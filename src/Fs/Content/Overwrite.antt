-- ===== src/Fs/Content/Overwrite.antt =====
-- `writei` of fs.c inside a file whose blocks are all there.
use hyu_3rd_1se.Prelude.{
  ℕ, zero, suc, ◌+◌, ◌-◌, ◌*◌, ◌/◌, ◌%◌, ◌<◌, ◌≤◌, ◌≡◌, ◌≢◌, refl, sym, ap, ◌∙◌, Bool, true, false,
  List, [], ◌∷◌, ◌++◌, length, take, drop, ltb, leb, ◌==◌, ◌&&◌, if◌then◌else◌, some, Result, ok,
  ◌>>=◌, arith, Bool-cases, inl, inr, ◌⊎◌, ==-of_ne, ==-refl, ==_iff, ltb-false, length-take,
  length-drop, take-append-drop,
}
use hyu_3rd_1se.Disk.{bsize}
use hyu_3rd_1se.Fs.{Inode, FsState, put_block}
use hyu_3rd_1se.Fs.Content.{
  Devices, slice, splice, min, chunk, readi, maxfile, write_loop, write_file, writei,
}
use hyu_3rd_1se.Fs.Content.Lookup.{block_of, bmap-block_of}
use hyu_3rd_1se.Fs.Content.Read.{
  byte_at, contents, contents-append, slice-contents, chunk_bounds, readi-contents,
}
use hyu_3rd_1se.Fs.Content.Write.{
  splice_outside, slice-splice, IsFile, written, written_tree, written-IsFile, written_bytes,
}

-- The bytes from an offset on are `bs`, all others of the file are as before, and so is the inode.
pub record Written (i off : ℕ) (bs : List ℕ) (s s' : FsState) : Type 0 where
  pub got : contents s' i off (length bs) ≡ bs
  pub outside :
      (x : ℕ)
      → x < (s.inodes i).size
      → (x < off) ⊎ (off + length bs ≤ x)
      → byte_at s' i x ≡ byte_at s i x
  pub is_file : IsFile s' i
  pub inodes_same : s'.inodes ≡ s.inodes

pub contents-cong :
    (s s' : FsState) (i off n : ℕ)
    → ((x : ℕ) → off ≤ x → x < off + n → byte_at s' i x ≡ byte_at s i x)
    → contents s' i off n ≡ contents s i off n
unfolding contents
contents-cong s s' i off zero f = refl
contents-cong s s' i off (suc n) f =
    ap (λ b. b ∷ contents s' i (suc off) n) (f off (omega arith) (omega arith))
    ∙ ap (λ t. byte_at s i off ∷ t)
        (contents-cong s s' i (suc off) n (λ x a l. f x (omega arith) (omega arith)))

-- One round of the loop of `writei`, for bytes that lie in one block.
chunk_state : FsState → ℕ → ℕ → List ℕ → FsState
chunk_state s i off cs =
    written s i (off / 512) (splice (s.blocks (block_of s i (off / 512))) (off % 512) cs)

chunk-Written :
    (s : FsState) (i off : ℕ) (cs : List ℕ)
    → IsFile s i
    → off / 512 * 512 < (s.inodes i).size
    → off % 512 + length cs ≤ 512
    → Written i off cs s (chunk_state s i off cs)
unfolding chunk_state
chunk-Written s i off cs h l fits =
    let bn = off / 512 in
    let d = splice (s.blocks (block_of s i bn)) (off % 512) cs in
    let s1 = written s i bn d in
    let at : s1.blocks (block_of s1 i bn) ≡ d =
      ap s1.blocks (written_tree s i bn d h l bn) ∙ rw (==-refl (block_of s i bn)) in
    record {
      got =
          sym (slice-contents s1 i bn (off % 512) off (length cs) (omega arith) fits)
          ∙ ap (λ e. slice e (off % 512) (length cs)) at
          ∙ slice-splice (s.blocks (block_of s i bn)) (off % 512) cs;
      outside = λ x m o. written_bytes s i bn d h l x m ∙ elim (Bool-cases (bn == x / 512)) [
        | inl e ↦
            let same : bn ≡ x / 512 = (==_iff bn (x / 512)).0 e in
            let away : (x % 512 < off % 512) ⊎ (off % 512 + length cs ≤ x % 512) = elim o [
              | inl a ↦ inl (omega arith)
              | inr a ↦ inr (omega arith)
            ] in
            rw e (
              splice_outside (s.blocks (block_of s i bn)) (off % 512) cs (x % 512) away
              ∙ ap (λ b. s.blocks (block_of s i b) (x % 512)) same)
        | inr e ↦ rw e
      ];
      is_file = written-IsFile s i bn d h l;
      inodes_same = refl;
    }

Written-then :
    (i off m : ℕ) (bs : List ℕ) (s s1 s2 : FsState)
    → m ≤ length bs
    → off + length bs ≤ (s.inodes i).size
    → Written i off (take m bs) s s1
    → Written i (off + m) (drop m bs) s1 s2
    → Written i off bs s s2
Written-then i off m bs s s1 s2 l fits a b =
    let lt = length-take m bs l in
    let whole : m + (length bs - m) ≡ length bs = omega arith in
    let ld : length (drop m bs) ≡ length bs - m = omega (arith, length-drop m bs l) in
    let size : (s1.inodes i).size ≡ (s.inodes i).size =
      ap (λ (t : ℕ → Inode). (t i).size) a.inodes_same in
    let before : contents s2 i off m ≡ contents s1 i off m =
      contents-cong s1 s2 i off m (λ x p q. b.outside x (omega (arith, size, q)) (inl q)) in
    record {
      got =
          ap (contents s2 i off) (sym whole)
          ∙ contents-append s2 i off m (length bs - m)
          ∙ ap (λ t. t ++ contents s2 i (off + m) (length bs - m))
              (before ∙ ap (contents s1 i off) (sym lt) ∙ a.got)
          ∙ ap (λ t. take m bs ++ t) (ap (contents s2 i (off + m)) (sym ld) ∙ b.got)
          ∙ take-append-drop m bs;
      outside = λ x p o. elim o [
        | inl q ↦ b.outside x (omega (arith, size)) (inl (omega arith)) ∙ a.outside x p (inl q)
        | inr q ↦
            b.outside x (omega (arith, size)) (inr (omega (arith, ld)))
            ∙ a.outside x p (inr (omega (arith, lt)))
      ];
      is_file = b.is_file;
      inodes_same = b.inodes_same ∙ a.inodes_same;
    }

write_loop-Written :
    (rounds : ℕ) (s : FsState) (i off : ℕ) (bs : List ℕ)
    → IsFile s i
    → off + length bs ≤ (s.inodes i).size
    → length bs < rounds
    → (s' : FsState) × (write_loop rounds s i off bs ≡ ok (s', off + length bs))
      × Written i off bs s s'
unfolding write_loop contents chunk_state
write_loop-Written zero s i off bs h l f = absurd (omega arith)
write_loop-Written (suc rounds) s i off [] h l f =
    let z : off + 0 ≡ off = omega arith in
    (
      s,
      ap (λ x. ok (s, x)) (sym z),
      record { got = refl; outside = λ x m o. refl; is_file = h; inodes_same = refl },
    )
write_loop-Written (suc rounds) s i off (c ∷ cs) h l f =
    let bs = c ∷ cs in
    let more : (length bs == 0) ≡ false = ground arith in
    let (p, q, r) = chunk_bounds off (length bs) (omega arith) in
    let m = chunk off (length bs) in
    let there : off / 512 * 512 < (s.inodes i).size = omega (arith, l) in
    let ld = length-drop m bs q in
    let s1 = chunk_state s i off (take m bs) in
    let w = chunk-Written s i off (take m bs) h there (omega (arith, length-take m bs q, r)) in
    let (s2, e, w2) =
      write_loop-Written rounds s1 i (off + m) (drop m bs) w.is_file (omega (arith, ld, l))
        (omega (arith, ld, p, f)) in
    let end : off + m + length (drop m bs) ≡ off + length bs = omega (arith, ld) in
    (
      s2,
      rw more (
          ap
            (λ (x : Result (FsState × ℕ)). x >>= λ (s', a).
              write_loop rounds (put_block s' a (splice (s'.blocks a) (off % 512) (take m bs))) i
                (off + m) (drop m bs))
            (bmap-block_of s i (off / 512) (h.mapped (off / 512) there))
          ∙ e
          ∙ ap (λ x. ok (s2, x)) end),
      Written-then i off m bs s s1 s2 q l w w2,
    )

-- The size is kept where the file has not grown.
write_end :
    (s grown : FsState) (some_bytes : Bool) {past : Bool}
    → past ≡ false
    → (if some_bytes && past then grown else s) ≡ s
write_end s grown true h = rw h
write_end s grown false h = refl

write_file-Written :
    (s : FsState) (i off : ℕ) (bs : List ℕ)
    → IsFile s i
    → off + length bs ≤ (s.inodes i).size
    → (s.inodes i).size ≤ maxfile * bsize
    → (s' : FsState) × (write_file s i off bs ≡ ok (s', some (length bs))) × Written i off bs s s'
unfolding write_file
write_file-Written s i off bs h l big =
    let g1 : ltb (s.inodes i).size off ≡ false = ltb-false _ _ (omega arith) in
    let g2 : leb 4294967296 (off + length bs) ≡ false = ground (arith, l, big) in
    let g3 : ltb (maxfile * bsize) (off + length bs) ≡ false = ltb-false _ _ (omega arith) in
    let (s', e, w) = write_loop-Written (length bs + 1) s i off bs h l (omega arith) in
    let size : (s'.inodes i).size ≡ (s.inodes i).size =
      ap (λ (u : ℕ → Inode). (u i).size) w.inodes_same in
    let kept : ltb (s'.inodes i).size (off + length bs) ≡ false =
      ltb-false _ _ (omega (arith, size, l)) in
    (
      s',
      rw (g1, g2, g3, e)
          (ap (λ x. ok (x, some (length bs))) (write_end s' _ (ltb 0 (length bs)) kept)),
      w,
    )

-- `writei` of bytes that lie inside a file, whose blocks are all there and apart, succeeds: the file has
-- these bytes at the offset, all its other bytes and the inode are as before, and it is still such a
-- file.
pub writei-Written :
    (devs : Devices) (s : FsState) (i off : ℕ) (bs : List ℕ)
    → (s.inodes i).type ≢ 3
    → IsFile s i
    → off + length bs ≤ (s.inodes i).size
    → (s.inodes i).size ≤ maxfile * bsize
    → (s' : FsState) × (writei devs s i off bs ≡ ok (s', some (length bs))) × Written i off bs s s'
unfolding writei
writei-Written devs s i off bs t h l big =
    let file : ((s.inodes i).type == 3) ≡ false = ==-of_ne _ 3 t in
    let (s', e, w) = write_file-Written s i off bs h l big in (s', rw file e, w)

-- Where the range stands inside the size of a file that is not a device, the size is at most MAXFILE
-- blocks, and the blocks of the file are all there and apart, `writei` writes all bytes, and a `readi` of
-- as many bytes at the same offset gets them back. A file that grows is not covered.
pub readi-writei :
    (devs : Devices) (s : FsState) (i off : ℕ) (bs : List ℕ)
    → (s.inodes i).type ≢ 3
    → IsFile s i
    → off + length bs ≤ (s.inodes i).size
    → (s.inodes i).size ≤ maxfile * bsize
    → (s' : FsState) × (writei devs s i off bs ≡ ok (s', some (length bs)))
      × (readi devs s' i off (length bs) ≡ ok (s', some bs))
readi-writei devs s i off bs t h l big =
    let (s', e, w) = writei-Written devs s i off bs t h l big in
    let size : (s'.inodes i).size ≡ (s.inodes i).size =
      ap (λ (u : ℕ → Inode). (u i).size) w.inodes_same in
    let t' : (s'.inodes i).type ≢ 3 =
      λ z. t (sym (ap (λ (u : ℕ → Inode). (u i).type) w.inodes_same) ∙ z) in
    let inside : ltb (s'.inodes i).size off ≡ false = ground (arith, size) in
    let all : min (length bs) ((s'.inodes i).size - off) ≡ length bs = ground (arith, size) in
    (
      s',
      e,
      readi-contents devs s' i off (length bs) t' w.is_file.mapped (omega (arith, l, big))
          ∙ rw (inside, all) (ap (λ x. ok (s', some x)) w.got),
    )
