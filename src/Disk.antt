-- ===== src/Disk.antt =====
-- Disk blocks of OS/HW4/xv6-proj as bytes, with the integers that fs.c, log.c and the structures of
-- fs.h keep in them in little-endian order.
pub mod Layout
use hyu_3rd_1se.Prelude.{ℕ, zero, suc, ◌+◌, ◌*◌, ◌/◌, ◌%◌, Bool, true, false, ◌==◌, if◌then◌else◌}

-- `bp->data`: the byte at each offset.
abbrev pub Block : Type 0
Block = ℕ → ℕ

-- `BSIZE`
abbrev pub bsize : ℕ
bsize = 512

-- A block of zeros, as `memset` leaves it.
abbrev pub zeros : Block
zeros = λ _. 0

-- The bytes of an integer, the lowest first.
unfoldable pub byte_of : ℕ → ℕ → ℕ
byte_of v zero = v % 256
byte_of v (suc k) = byte_of (v / 256) k

-- `((uint *)data)[j]` and an assignment to it.
unfoldable pub word : Block → ℕ → ℕ
word b j = b (4 * j) + 256 * b (4 * j + 1) + 65536 * b (4 * j + 2) + 16777216 * b (4 * j + 3)

unfoldable pub set_word : Block → ℕ → ℕ → Block
set_word b j v i = if i / 4 == j then byte_of v (i % 4) else b i

-- `((ushort *)data)[j]` and an assignment to it.
unfoldable pub half : Block → ℕ → ℕ
half b j = b (2 * j) + 256 * b (2 * j + 1)

unfoldable pub set_half : Block → ℕ → ℕ → Block
set_half b j v i = if i / 2 == j then byte_of v (i % 2) else b i

-- The bit of weight 2 ^ k: `(x & (1 << k)) != 0`, `x | (1 << k)` and `x & ~(1 << k)`.
unfoldable pub test_bit : ℕ → ℕ → Bool
test_bit x zero = x % 2 == 1
test_bit x (suc k) = test_bit (x / 2) k

unfoldable pub set_bit : ℕ → ℕ → ℕ
set_bit x zero = x / 2 * 2 + 1
set_bit x (suc k) = set_bit (x / 2) k * 2 + x % 2

unfoldable pub clear_bit : ℕ → ℕ → ℕ
clear_bit x zero = x / 2 * 2
clear_bit x (suc k) = clear_bit (x / 2) k * 2 + x % 2
