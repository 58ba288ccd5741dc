-- ===== src/Disk/Layout.antt =====
-- Reading back what was stored into a block.
use hyu_3rd_1se.Prelude.{
  ℕ, zero, suc, ◌+◌, ◌*◌, ◌/◌, ◌%◌, ◌<◌, ◌≡◌, ◌≢◌, refl, sym, ap, true, false, arith, ==-refl,
  ==-of_ne, ◌∙◌,
}
use hyu_3rd_1se.Disk.{Block, byte_of, word, set_word, test_bit, set_bit, clear_bit}

set_word_byte : (b : Block) (j v k : ℕ) → k < 4 → set_word b j v (4 * j + k) ≡ byte_of v k
unfolding set_word
set_word_byte b j v k l =
    let q : (4 * j + k) / 4 ≡ j = omega arith in
    let r : (4 * j + k) % 4 ≡ k = omega arith in rw (q, r, ==-refl j)

set_word_far :
    (b : Block) (j v i k : ℕ) → k < 4 → j ≢ i → set_word b j v (4 * i + k) ≡ b (4 * i + k)
unfolding set_word
set_word_far b j v i k l n =
    let q : (4 * i + k) / 4 ≡ i = omega arith in rw (q, ==-of_ne i j (λ e. n (sym e)))

bytes_of_word :
    (v : ℕ)
    → v < 4294967296
    → byte_of v 0 + 256 * byte_of v 1 + 65536 * byte_of v 2 + 16777216 * byte_of v 3 ≡ v
unfolding byte_of
bytes_of_word v l = omega arith

plus_zero : (n : ℕ) → n + 0 ≡ n
plus_zero n = omega arith

pub word-set_word : (b : Block) (j v : ℕ) → v < 4294967296 → word (set_word b j v) j ≡ v
unfolding word
word-set_word b j v l =
    let first : set_word b j v (4 * j) ≡ byte_of v 0 =
      ap (set_word b j v) (sym (plus_zero (4 * j))) ∙ set_word_byte b j v 0 (omega arith) in
    rw
      (
        first,
        set_word_byte b j v 1 (omega arith),
        set_word_byte b j v 2 (omega arith),
        set_word_byte b j v 3 (omega arith),
      )
      (bytes_of_word v l)

pub word-set_word_ne : (b : Block) (j v i : ℕ) → j ≢ i → word (set_word b j v) i ≡ word b i
unfolding word
word-set_word_ne b j v i n =
    let first : set_word b j v (4 * i) ≡ b (4 * i) =
      ap (set_word b j v) (sym (plus_zero (4 * i)))
      ∙ set_word_far b j v i 0 (omega arith) n
      ∙ ap b (plus_zero (4 * i)) in
    rw (
      first,
      set_word_far b j v i 1 (omega arith) n,
      set_word_far b j v i 2 (omega arith) n,
      set_word_far b j v i 3 (omega arith) n,
    )

pub test_bit-set_bit : (x k : ℕ) → test_bit (set_bit x k) k ≡ true
unfolding test_bit set_bit
test_bit-set_bit x zero = ground arith
test_bit-set_bit x (suc k) =
    let q : (set_bit (x / 2) k * 2 + x % 2) / 2 ≡ set_bit (x / 2) k = omega arith in
    rw q (test_bit-set_bit (x / 2) k)

pub test_bit-set_bit_ne : (x k j : ℕ) → k ≢ j → test_bit (set_bit x k) j ≡ test_bit x j
unfolding test_bit set_bit
test_bit-set_bit_ne x zero zero n = absurd (n refl)
test_bit-set_bit_ne x zero (suc j) n = let q : (x / 2 * 2 + 1) / 2 ≡ x / 2 = omega arith in rw q
test_bit-set_bit_ne x (suc k) zero n =
    let q : (set_bit (x / 2) k * 2 + x % 2) % 2 ≡ x % 2 = omega arith in rw q
test_bit-set_bit_ne x (suc k) (suc j) n =
    let q : (set_bit (x / 2) k * 2 + x % 2) / 2 ≡ set_bit (x / 2) k = omega arith in
    rw q (test_bit-set_bit_ne (x / 2) k j (λ e. n (ap suc e)))

pub test_bit-clear_bit : (x k : ℕ) → test_bit (clear_bit x k) k ≡ false
unfolding test_bit clear_bit
test_bit-clear_bit x zero = ground arith
test_bit-clear_bit x (suc k) =
    let q : (clear_bit (x / 2) k * 2 + x % 2) / 2 ≡ clear_bit (x / 2) k = omega arith in
    rw q (test_bit-clear_bit (x / 2) k)

pub test_bit-clear_bit_ne : (x k j : ℕ) → k ≢ j → test_bit (clear_bit x k) j ≡ test_bit x j
unfolding test_bit clear_bit
test_bit-clear_bit_ne x zero zero n = absurd (n refl)
test_bit-clear_bit_ne x zero (suc j) n = let q : x / 2 * 2 / 2 ≡ x / 2 = omega arith in rw q
test_bit-clear_bit_ne x (suc k) zero n =
    let q : (clear_bit (x / 2) k * 2 + x % 2) % 2 ≡ x % 2 = omega arith in rw q
test_bit-clear_bit_ne x (suc k) (suc j) n =
    let q : (clear_bit (x / 2) k * 2 + x % 2) / 2 ≡ clear_bit (x / 2) k = omega arith in
    rw q (test_bit-clear_bit_ne (x / 2) k j (λ e. n (ap suc e)))
