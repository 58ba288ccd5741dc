-- ===== src/Fs/Bitmap/Alloc.antt =====
-- What `balloc` and `bfree` of fs.c change.
use hyu_3rd_1se.Prelude.{
  ℕ, ◌+◌, ◌*◌, ◌/◌, ◌%◌, ◌<◌, ◌≡◌, ◌≢◌, refl, sym, ap, ◌∙◌, Bool, true, false, ◌∷◌, ◌==◌,
  if◌then◌else◌, update, Result, ok, fault, panic, arith, Bool-cases, inl, inr, ◌⊎◌, ==-refl,
  ==-of_ne, ==_iff, subst,
}
use hyu_3rd_1se.Disk.{Block, zeros, test_bit, set_bit, clear_bit}
use hyu_3rd_1se.Disk.Layout.{
  test_bit-set_bit, test_bit-set_bit_ne, test_bit-clear_bit, test_bit-clear_bit_ne,
}
use hyu_3rd_1se.Fs.{FsState, bblock, put_block, bzero, readsb, mark_block, balloc, bfree}
use hyu_3rd_1se.Fs.Bitmap.{in_use, taken, Allocated, full, got, balloc-Allocated}

-- The super block is the one on the disk, and the blocks of the bitmap are themselves in use, as is
-- the super block.
pub record IsFs (s : FsState) : Type 0 where
  pub super_read : readsb (s.blocks 1) ≡ s.sb
  pub super_used : in_use s 1 ≡ true
  pub super_in : 1 < s.sb.blocks_total
  pub bitmap_used : (j : ℕ) → j < s.sb.blocks_total → in_use s (bblock s.sb j) ≡ true
  pub bitmap_apart : (j : ℕ) → bblock s.sb j ≢ 1
  pub bitmap_in : (j : ℕ) → j < s.sb.blocks_total → bblock s.sb j < s.sb.blocks_total

-- The bitmap with the bit of `n` replaced by `f` of its byte.
flipped : (ℕ → ℕ → ℕ) → Block → ℕ → Block
flipped f d n = update d (n % 4096 / 8) (f (d (n % 4096 / 8)) (n % 4096 % 8))

-- A bit operation changes the bit of its own block of the disk only.
module _ (f : ℕ → ℕ → ℕ) (v : Bool) (at_self : (x k : ℕ) → test_bit (f x k) k ≡ v)
    (at_ne : (x k j : ℕ) → k ≢ j → test_bit (f x k) j ≡ test_bit x j) where
  flipped_bit :
      (d : Block) (n j : ℕ)
      → n / 4096 ≡ j / 4096
      → test_bit (flipped f d n (j % 4096 / 8)) (j % 4096 % 8)
        ≡ (if n == j then v else test_bit (d (j % 4096 / 8)) (j % 4096 % 8))
  unfolding flipped
  flipped_bit d n j e = elim (Bool-cases (n == j)) [
    | inl same ↦
        let eq : n ≡ j = (==_iff n j).0 same in rw (same, eq, ==-refl (j % 4096 / 8)) (at_self _ _)
    | inr other ↦ elim (Bool-cases (n % 4096 / 8 == j % 4096 / 8)) [
      | inl byte ↦
          let eq : n % 4096 / 8 ≡ j % 4096 / 8 = (==_iff _ _).0 byte in
          let ne : n % 4096 % 8 ≢ j % 4096 % 8 = λ h. ground arith in
          rw (other, byte, at_ne (d (n % 4096 / 8)) (n % 4096 % 8) (j % 4096 % 8) ne, eq)
      | inr byte ↦ rw (other, byte)
    ]
  ]

  -- The same on the whole disk, where the changed block is not one of the bitmap.
  flipped_use :
      (s : FsState) (n j : ℕ)
      → test_bit
          (update s.blocks
            (bblock s.sb n)
            (flipped f (s.blocks (bblock s.sb n)) n)
            (bblock s.sb j)
            (j % 4096 / 8))
          (j % 4096 % 8)
        ≡ (if n == j then v else in_use s j)
  flipped_use s n j = elim (Bool-cases (bblock s.sb n == bblock s.sb j)) [
    | inl same ↦
        let eq : n / 4096 ≡ j / 4096 = ground arith in
        rw (same) (
          flipped_bit (s.blocks (bblock s.sb n)) n j eq
          ∙ ap
              (λ q.
                if n == j
                then v
                else test_bit (s.blocks (q + s.sb.bmapstart) (j % 4096 / 8)) (j % 4096 % 8))
              eq)
    | inr other ↦ let ne : (n == j) ≡ false = ground arith in rw (other, ne)
  ]

-- A free block is no block of the bitmap.
free-ne-bitmap :
    (s : FsState) (n j : ℕ)
    → IsFs s
    → in_use s n ≡ false
    → j < s.sb.blocks_total
    → n ≢ bblock s.sb j
free-ne-bitmap s n j h f l e =
    let used : in_use s n ≡ true = subst (λ x. in_use s x ≡ true) (sym e) (h.bitmap_used j l) in
    ground (arith, used)

-- What `balloc` changes: the bit of the block, the block, and the list of logged blocks.
pub record Takes (n : ℕ) (s s' : FsState) : Type 0 where
  pub zeroed : s'.blocks n ≡ zeros
  pub bits : (j : ℕ) → j < s.sb.blocks_total → in_use s' j ≡ (if n == j then true else in_use s j)
  pub else_same : (b : ℕ) → b ≢ n → b ≢ bblock s.sb n → s'.blocks b ≡ s.blocks b
  pub logged : s'.logged ≡ n ∷ bblock s.sb n ∷ s.logged
  pub sb_same : s'.sb ≡ s.sb
  pub inodes_same : s'.inodes ≡ s.inodes

block_back : (n : ℕ) → n / 4096 * 4096 / 4096 ≡ n / 4096
block_back n = omega arith

-- The state without the arithmetic of the loop.
taken_state : FsState → ℕ → FsState
unfolding flipped
taken_state s n =
    bzero (put_block s (bblock s.sb n) (flipped set_bit (s.blocks (bblock s.sb n)) n)) n

taken_state-eq : (s : FsState) (n : ℕ) → taken s n ≡ taken_state s n
unfolding taken_state mark_block flipped
taken_state-eq s n =
    let whole : n / 4096 * 4096 + n % 4096 ≡ n = omega arith in rw (block_back n, whole)

taken_state-Takes :
    (s : FsState) (n : ℕ)
    → IsFs s
    → n < s.sb.blocks_total
    → in_use s n ≡ false
    → Takes n s (taken_state s n)
unfolding taken_state
taken_state-Takes s n h l f = record {
  zeroed = rw (==-refl n);
  bits = λ j k.
      let apart : (n == bblock s.sb j) ≡ false = ==-of_ne n _ (free-ne-bitmap s n j h f k) in
      rw apart (flipped_use set_bit true test_bit-set_bit test_bit-set_bit_ne s n j);
  else_same =
      λ b x y. rw (==-of_ne n b (λ e. x (sym e)), ==-of_ne (bblock s.sb n) b (λ e. y (sym e)));
  logged = refl;
  sb_same = refl;
  inodes_same = refl;
}

balloc_cases :
    (s : FsState) {r : Result (FsState × ℕ)}
    → IsFs s
    → Allocated s 0 r
    → (((j : ℕ) → j < s.sb.blocks_total → in_use s j ≡ true) × (r ≡ fault panic))
      ⊎ ((n : ℕ) × (s' : FsState) × (n < s.sb.blocks_total)
          × (in_use s n ≡ false)
          × ((j : ℕ) → j < n → in_use s j ≡ true)
          × (r ≡ ok (s', n))
          × Takes n s s')
balloc_cases s h (full f) = inl (λ j l. f j (omega arith) l, refl)
balloc_cases s h (got n a l c f) = inr (
  n,
  taken_state s n,
  l,
  c,
  λ j k. f j (omega arith) k,
  ap (λ x. ok (x, n)) (taken_state-eq s n),
  taken_state-Takes s n h l c,
)

-- `balloc` takes the first free block of the disk: it was free and is in use then, it is filled with
-- zeros, the bits of all other blocks and the contents of all blocks but the bitmap are as before, and
-- two blocks are logged. Where every block is in use, it panics.
pub balloc-Takes :
    (s : FsState)
    → IsFs s
    → (((j : ℕ) → j < s.sb.blocks_total → in_use s j ≡ true) × (balloc s ≡ fault panic))
      ⊎ ((n : ℕ) × (s' : FsState) × (n < s.sb.blocks_total)
          × (in_use s n ≡ false)
          × ((j : ℕ) → j < n → in_use s j ≡ true)
          × (balloc s ≡ ok (s', n))
          × Takes n s s')
balloc-Takes s h = balloc_cases s h (balloc-Allocated s)

-- What `bfree` changes.
pub record Frees (n : ℕ) (s s' : FsState) : Type 0 where
  pub bits : (j : ℕ) → in_use s' j ≡ (if n == j then false else in_use s j)
  pub else_same : (b : ℕ) → b ≢ bblock s.sb n → s'.blocks b ≡ s.blocks b
  pub sb_same : s'.sb ≡ s.sb
  pub inodes_same : s'.inodes ≡ s.inodes

-- `bfree` of a block in use clears its bit and changes no other, and of a free block it panics.
pub bfree-Frees :
    (s : FsState) (n : ℕ)
    → readsb (s.blocks 1) ≡ s.sb
    → ((in_use s n ≡ false) × (bfree s n ≡ fault panic))
      ⊎ ((in_use s n ≡ true) × ((s' : FsState) × (bfree s n ≡ ok s') × Frees n s s'))
unfolding bfree flipped
bfree-Frees s n e = elim (Bool-cases (in_use s n)) [
  | inr off ↦ inl (off, simp (e, off))
  | inl on ↦ inr (
    on,
    (
      put_block s (bblock s.sb n) (flipped clear_bit (s.blocks (bblock s.sb n)) n),
      simp (e, on),
      record {
        bits = λ j. flipped_use clear_bit false test_bit-clear_bit test_bit-clear_bit_ne s n j;
        else_same = λ b y. rw (==-of_ne (bblock s.sb n) b (λ z. y (sym z)));
        sb_same = refl;
        inodes_same = refl;
      },
    ),
  )
]

still_super :
    (s s' : FsState) (n : ℕ)
    → IsFs s
    → in_use s n ≡ false
    → Takes n s s'
    → readsb (s'.blocks 1) ≡ s'.sb
still_super s s' n h f t =
    let one : 1 ≢ n = λ e.
      let used : in_use s n ≡ true = subst (λ x. in_use s x ≡ true) e h.super_used in
      ground (arith, used) in
    ap readsb (t.else_same 1 one (λ e. h.bitmap_apart n (sym e))) ∙ h.super_read ∙ sym t.sb_same

-- Where a block is free, `balloc` succeeds, and `bfree` of what it gave succeeds and leaves every block
-- of the disk in use that was in use before, and no other.
pub bfree-balloc :
    (s : FsState) (j : ℕ)
    → IsFs s
    → j < s.sb.blocks_total
    → in_use s j ≡ false
    → (n : ℕ) × (s' : FsState) × (s'' : FsState) × (balloc s ≡ ok (s', n))
      × (bfree s' n ≡ ok s'')
      × ((k : ℕ) → k < s.sb.blocks_total → in_use s'' k ≡ in_use s k)
bfree-balloc s j h l f = elim (balloc-Takes s h) [
  | inl (all, e) ↦ let used = all j l in absurd (ground (arith, used))
  | inr (n, s', m, free, first, e, t) ↦ elim (bfree-Frees s' n (still_super s s' n h free t)) [
    | inl (off, e') ↦
        let on : in_use s' n ≡ true =
          t.bits n m ∙ ap (λ b. if b then true else in_use s n) (==-refl n) in
        absurd (ground (arith, on, off))
    | inr (on, (s'', e', g)) ↦ (
      n,
      s',
      s'',
      e,
      e',
      λ k a. elim (Bool-cases (n == k)) [
        | inl same ↦
            let eq : n ≡ k = (==_iff n k).0 same in
            let off : in_use s k ≡ false = subst (λ x. in_use s x ≡ false) eq free in
            g.bits k ∙ ap (λ b. if b then false else in_use s' k) same ∙ sym off
        | inr other ↦
            g.bits k
            ∙ ap (λ b. if b then false else in_use s' k) other
            ∙ t.bits k a
            ∙ ap (λ b. if b then true else in_use s k) other
      ],
    )
  ]
]
