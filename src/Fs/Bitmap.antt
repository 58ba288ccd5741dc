-- ===== src/Fs/Bitmap.antt =====
-- The allocation of disk blocks: `balloc` and `bfree` of fs.c on the bitmap.
pub mod Alloc
use hyu_3rd_1se.Prelude.{
  ℕ, zero, suc, ◌+◌, ◌*◌, ◌/◌, ◌%◌, ◌<◌, ◌≤◌, ◌≡◌, ◌≢◌, refl, sym, ap, ◌∙◌, Bool, true, false,
  Option, none, some, List, [], ◌∷◌, ltb, ◌==◌, if◌then◌else◌, update, Result, ok, fault, panic,
  arith, Bool-cases, inl, inr, ◌⊎◌, ==-refl, ==-of_ne, ==_iff, subst, ◌-◌,
}
use hyu_3rd_1se.Disk.{Block, zeros, test_bit, set_bit, clear_bit}
use hyu_3rd_1se.Disk.Layout.{
  test_bit-set_bit, test_bit-set_bit_ne, test_bit-clear_bit, test_bit-clear_bit_ne,
}
use hyu_3rd_1se.Fs.{
  SuperBlock, FsState, bblock, bpb, put_block, bzero, readsb, scan_bits, mark_block, balloc_loop,
  balloc, bfree,
}

-- The bit of a block of the disk.
abbrev pub in_use : FsState → ℕ → Bool
in_use s n = test_bit (s.blocks (bblock s.sb n) (n % 4096 / 8)) (n % 4096 % 8)

-- The first clear bit, or none.
pub data Scanned (d : Block) (total b from to : ℕ) : Option ℕ → Type 0 where
  all_set :
      ((j : ℕ) → from ≤ j → j < to → b + j < total → test_bit (d (j / 8)) (j % 8) ≡ true)
      → Scanned d total b from to none
  clear_at :
      (k : ℕ)
      → from ≤ k
      → k < to
      → b + k < total
      → test_bit (d (k / 8)) (k % 8) ≡ false
      → ((j : ℕ) → from ≤ j → j < k → test_bit (d (j / 8)) (j % 8) ≡ true)
      → Scanned d total b from to (some k)

Scanned-suc :
    (d : Block) (total b from to : ℕ) (r : Option ℕ)
    → test_bit (d (from / 8)) (from % 8) ≡ true
    → Scanned d total b (suc from) to r
    → Scanned d total b from to r
Scanned-suc d total b from to none h (all_set f) = all_set (λ j a l t.
    elim (Bool-cases (from == j)) [
      | inl e ↦ let same : from ≡ j = (==_iff from j).0 e in rw (← same) h
      | inr e ↦ f j (ground arith) l t
    ])
Scanned-suc d total b from to (some k) h (clear_at _ a l t c f) =
    clear_at k (omega arith) l t c (λ j x y. elim (Bool-cases (from == j)) [
      | inl e ↦ let same : from ≡ j = (==_iff from j).0 e in rw (← same) h
      | inr e ↦ f j (ground arith) y
    ])

scan_bits-Scanned :
    (rounds : ℕ) (d : Block) (total b from to : ℕ)
    → from + rounds ≡ to
    → Scanned d total b from to (scan_bits rounds d total b from)
unfolding scan_bits
scan_bits-Scanned zero d total b from to e = all_set (λ j a l t. absurd (omega arith))
scan_bits-Scanned (suc rounds) d total b from to e = elim (Bool-cases (ltb (b + from) total)) [
  | inr out ↦ rw out (all_set (λ j a l t. absurd (ground arith)))
  | inl within ↦ elim (Bool-cases (test_bit (d (from / 8)) (from % 8))) [
    | inl h ↦
        rw (within, h)
          (Scanned-suc d total b from to _ h
            (scan_bits-Scanned rounds d total b (suc from) to (omega arith)))
    | inr h ↦
        rw (within, h)
          (clear_at from (omega arith) (omega arith) (ground arith) h
            (λ j a l. absurd (omega arith)))
  ]
]

-- The block `n` with its bit set, and filled with zeros.
abbrev pub taken : FsState → ℕ → FsState
taken s n = mark_block s (n / 4096 * 4096) (n % 4096)

-- The loop from the block `b` on, which starts a bitmap block, finds the first free block, or panics.
pub data Allocated (s : FsState) (from : ℕ) : Result (FsState × ℕ) → Type 0 where
  full :
      ((j : ℕ) → from ≤ j → j < s.sb.blocks_total → in_use s j ≡ true)
      → Allocated s from (fault panic)
  got :
      (n : ℕ)
      → from ≤ n
      → n < s.sb.blocks_total
      → in_use s n ≡ false
      → ((j : ℕ) → from ≤ j → j < n → in_use s j ≡ true)
      → Allocated s from (ok (taken s n, n))

-- The bit of block `b + k` where `b` starts a bitmap block.
bit_at :
    (s : FsState) (b k : ℕ)
    → b % 4096 ≡ 0
    → k < 4096
    → in_use s (b + k) ≡ test_bit (s.blocks (bblock s.sb b) (k / 8)) (k % 8)
bit_at s b k e l =
    let q : (b + k) / 4096 ≡ b / 4096 = omega arith in
    let r : (b + k) % 4096 ≡ k = omega arith in rw (q, r)

here_or_later :
    (s : FsState) (b j : ℕ)
    → b % 4096 ≡ 0
    → b ≤ j
    → ((k : ℕ)
        → 0 ≤ k
        → k < 4096
        → b + k < s.sb.blocks_total
        → test_bit (s.blocks (bblock s.sb b) (k / 8)) (k % 8) ≡ true)
    → j < s.sb.blocks_total
    → (b + 4096 ≤ j → in_use s j ≡ true)
    → in_use s j ≡ true
here_or_later s b j e a all l later = elim (Bool-cases (ltb j (b + 4096))) [
  | inl near ↦
      let back : b + (j - b) ≡ j = omega arith in
      let same : in_use s (b + (j - b)) ≡ true =
        bit_at s b (j - b) e (ground arith)
        ∙ all (j - b) (omega arith) (ground arith) (omega arith) in
      subst (λ x. in_use s x ≡ true) back same
  | inr far ↦ later (ground arith)
]

-- No free block in the bitmap block at `b`: the search goes on behind it.
Allocated-next :
    (s : FsState) (b : ℕ) {r : Result (FsState × ℕ)}
    → b % 4096 ≡ 0
    → ((j : ℕ)
        → 0 ≤ j
        → j < 4096
        → b + j < s.sb.blocks_total
        → test_bit (s.blocks (bblock s.sb b) (j / 8)) (j % 8) ≡ true)
    → Allocated s (b + 4096) r
    → Allocated s b r
Allocated-next s b e all (full f) = full (λ j a l. here_or_later s b j e a all l (λ m. f j m l))
Allocated-next s b e all (got n a l c f) =
    got n (omega arith) l c (λ j m k. here_or_later s b j e m all (omega arith) (λ m'. f j m' k))

-- What the search in one bitmap block gives.
balloc_here :
    (s : FsState) (b : ℕ) (next : Result (FsState × ℕ)) {r : Option ℕ}
    → b % 4096 ≡ 0
    → Scanned (s.blocks (bblock s.sb b)) s.sb.blocks_total b 0 4096 r
    → (b < s.sb.blocks_total → Allocated s (b + 4096) next)
    → b < s.sb.blocks_total
    → Allocated s b (elim r [ none ↦ next | some bi ↦ ok (mark_block s b bi, b + bi) ])
balloc_here s b next e (all_set f) later l = Allocated-next s b e f (later l)
balloc_here s b next e (clear_at k a m t c f) later l =
    let q : (b + k) / 4096 * 4096 ≡ b = omega arith in
    let r : (b + k) % 4096 ≡ k = omega arith in
    let got_it : Allocated s b (ok (taken s (b + k), b + k)) =
      got (b + k) (omega arith) t (bit_at s b k e m ∙ c) (λ j x y.
        let back : b + (j - b) ≡ j = omega arith in
        subst (λ z. in_use s z ≡ true) back
          (bit_at s b (j - b) e (omega arith) ∙ f (j - b) (omega arith) (omega arith))) in
    rw (q, r) at got_it

balloc_loop-Allocated :
    (rounds : ℕ) (s : FsState) (b : ℕ)
    → b % 4096 ≡ 0
    → b < s.sb.blocks_total + 4096
    → s.sb.blocks_total + 4096 ≤ b + rounds * 4096
    → Allocated s b (balloc_loop rounds s b)
unfolding balloc_loop
balloc_loop-Allocated zero s b e g f = absurd (omega arith)
balloc_loop-Allocated (suc rounds) s b e g f =
    let total = s.sb.blocks_total in
    elim (Bool-cases (ltb b total)) [
      | inr out ↦ rw out (full (λ j a l. absurd (ground arith)))
      | inl within ↦ rw within (
          balloc_here s b (balloc_loop rounds s (b + 4096)) e
            (scan_bits-Scanned 4096 (s.blocks (bblock s.sb b)) total b 0 4096 (omega arith))
            (λ (l : b < total).
              balloc_loop-Allocated rounds s (b + 4096) (omega arith) (omega arith) (omega arith))
            (ground arith))
    ]

pub balloc-Allocated : (s : FsState) → Allocated s 0 (balloc s)
unfolding balloc
balloc-Allocated s =
    balloc_loop-Allocated (s.sb.blocks_total / 4096 + 2) s 0 (omega arith) (omega arith)
      (omega arith)
