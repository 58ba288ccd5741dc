-- ===== src/Prelude/Bits.antt =====
-- The operation `|` of C on the digits of two numbers.
use hyu_3rd_1se.Prelude.{
  ℕ, zero, suc, ◌+◌, ◌*◌, ◌/◌, ◌%◌, ◌^◌, ◌<◌, ◌≡◌, ◌∙◌, ◌||◌, ◌==◌, if◌then◌else◌, arith,
}

-- On so many bits.
unfoldable pub bit_or : ℕ → ℕ → ℕ → ℕ
bit_or zero a b = 0
bit_or (suc bits) a b =
    (if a % 2 == 1 || b % 2 == 1 then 1 else 0) + 2 * bit_or bits (a / 2) (b / 2)

pub bit_or-zero : (bits b : ℕ) → b < 2 ^ bits → bit_or bits 0 b ≡ b
unfolding bit_or
bit_or-zero zero b l = omega (arith, l)
bit_or-zero (suc bits) b l =
    let rest : bit_or bits 0 (b / 2) ≡ b / 2 = bit_or-zero bits (b / 2) (omega (arith, l)) in
    rw rest (ground arith)

bit_or-zero_right : (bits a : ℕ) → a < 2 ^ bits → bit_or bits a 0 ≡ a
unfolding bit_or
bit_or-zero_right zero a l = omega (arith, l)
bit_or-zero_right (suc bits) a l =
    let rest : bit_or bits (a / 2) 0 ≡ a / 2 = bit_or-zero_right bits (a / 2) (omega (arith, l)) in
    rw rest (ground arith)

-- The number moved by so many digits.
abbrev pub shift : ℕ → ℕ → ℕ
shift zero a = a
shift (suc low) a = 2 * shift low a

-- Numbers without common digits are added.
pub bit_or-shift :
    (low bits a b : ℕ)
    → b < shift low 1
    → shift low a + b < 2 ^ bits
    → bit_or bits (shift low a) b ≡ shift low a + b
unfolding bit_or
bit_or-shift zero bits a b l m =
    let none : b ≡ 0 = omega (arith, l) in
    rw none (bit_or-zero_right bits a (omega (arith, m)) ∙ omega arith)
bit_or-shift (suc low) zero a b l m = omega (arith, m)
bit_or-shift (suc low) (suc bits) a b l m =
    let half : 2 * shift low a / 2 ≡ shift low a = omega arith in
    let even : 2 * shift low a % 2 ≡ 0 = omega arith in
    let rest : bit_or bits (shift low a) (b / 2) ≡ shift low a + b / 2 =
      bit_or-shift low bits a (b / 2) (omega (arith, l)) (omega (arith, m)) in
    rw (half, even, rest) (ground arith)

pub bit_or-one : (bits a : ℕ) → a % 2 ≡ 0 → a < 2 ^ suc bits → bit_or (suc bits) a 1 ≡ a + 1
unfolding bit_or
bit_or-one bits a e l =
    let rest : bit_or bits (a / 2) 0 ≡ a / 2 = bit_or-zero_right bits (a / 2) (omega (arith, l)) in
    let half : 1 / 2 ≡ 0 = omega arith in rw (e, rest) (omega (arith, e))
