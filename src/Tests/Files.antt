-- ===== src/Tests/Files.antt =====
-- fs.c at a small disk.
use hyu_3rd_1se.Prelude.{
  ℕ, zero, suc, ◌*◌, ◌/◌, ◌<◌, ◌≡◌, ◌≢◌, refl, true, false, none, some, List, [], ◌∷◌, ◌==◌,
  if◌then◌else◌, ◌⊎◌, ok, fault, panic, arith,
}
use hyu_3rd_1se.Disk.{Block, zeros, word, test_bit}
use hyu_3rd_1se.Fs.{SuperBlock, Inode, FsState, readsb, balloc}
use hyu_3rd_1se.Fs.Inodes.{iget}
use hyu_3rd_1se.Fs.Inodes.Cache.{IsCache, IgetResult, iget-Got}
use hyu_3rd_1se.Fs.Bitmap.{in_use}
use hyu_3rd_1se.Fs.Bitmap.Alloc.{IsFs, Takes, balloc-Takes}
use hyu_3rd_1se.Fs.Content.{Devices, readi, writei}
use hyu_3rd_1se.Fs.Content.Lookup.{block_of}
use hyu_3rd_1se.Fs.Content.Write.{IsFile}
use hyu_3rd_1se.Fs.Content.Overwrite.{Written, writei-Written, readi-writei}
use hyu_3rd_1se.Fs.Path.{skipelem, skip_first, skip_slashes, split_element}
use hyu_3rd_1se.Fs.Path.Elements.{Skipped, skipelem-Skipped}

abbrev pub super : SuperBlock
super = record {
  blocks_total = 8;
  nblocks = 3;
  ninodes = 8;
  nlog = 0;
  logstart = 2;
  inodestart = 2;
  bmapstart = 3;
}

-- The bytes of `super` on the disk.
abbrev super_bytes : Block
super_bytes i =
    if i == 0
    then 8
    else if i == 4
    then 3
    else if i == 8
    then 8
    else if i == 16
    then 2
    else if i == 20
    then 2
    else if i == 24
    then 3
    else 0

-- The blocks 0 to 4 are in use.
abbrev pub blocks_8 : ℕ → Block
blocks_8 b =
    if b == 1 then super_bytes else if b == 3 then (λ i. if i == 0 then 31 else 0) else zeros

-- A file of 600 bytes in the blocks 5 and 6.
abbrev pub file : Inode
file = record {
  dev = 1;
  inum = 1;
  ref = 1;
  valid = true;
  locked = false;
  type = 2;
  major = 0;
  minor = 0;
  nlink = 1;
  size = 600;
  addrs = λ j. if j == 0 then 5 else if j == 1 then 6 else 0;
}

abbrev pub empty_inode : Inode
empty_inode = record {
  dev = 0;
  inum = 0;
  ref = 0;
  valid = false;
  locked = false;
  type = 0;
  major = 0;
  minor = 0;
  nlink = 0;
  size = 0;
  addrs = λ j. 0;
}

abbrev pub small_fs : FsState
small_fs = record {
  blocks = blocks_8;
  logged = [];
  sb = super;
  inodes = λ i. if i == 0 then file else empty_inode;
}

small_fs-IsFs : IsFs small_fs
unfolding readsb word test_bit
small_fs-IsFs = record {
  super_read = refl;
  super_used = refl;
  super_in = omega arith;
  bitmap_used = λ j l. let z : j / 4096 ≡ 0 = omega arith in rw z;
  bitmap_apart = λ j e. omega arith;
  bitmap_in = λ j l. omega arith;
}

five_free : in_use small_fs 5 ≡ false
unfolding test_bit
five_free = refl

pub file_mapped : (bn : ℕ) → bn * 512 < 600 → block_of small_fs 0 bn ≢ 0
file_mapped zero l = omega arith
file_mapped (suc zero) l = omega arith
file_mapped (suc (suc bn)) l = absurd (omega arith)

file_distinct :
    (x y : ℕ)
    → x * 512 < 600
    → y * 512 < 600
    → block_of small_fs 0 x ≡ block_of small_fs 0 y
    → x ≡ y
file_distinct zero zero a b e = refl
file_distinct zero (suc zero) a b e = absurd (omega (arith, e))
file_distinct (suc zero) zero a b e = absurd (omega (arith, e))
file_distinct (suc zero) (suc zero) a b e = refl
file_distinct (suc (suc x)) y a b e = absurd (omega arith)
file_distinct zero (suc (suc y)) a b e = absurd (omega arith)
file_distinct (suc zero) (suc (suc y)) a b e = absurd (omega arith)

small_fs-IsFile : IsFile small_fs 0
small_fs-IsFile = record {
  mapped = file_mapped;
  distinct = file_distinct;
  apart_indirect = λ x a. file_mapped x a;
  apart_double = λ x a. file_mapped x a;
  apart_inner = λ x k a l. file_mapped x a;
}

abbrev pub no_devices : Devices
no_devices = record { read_dev = λ _. none; write_dev = λ _. none }

balloc-Takes_example :
    (((j : ℕ) → j < 8 → in_use small_fs j ≡ true) × (balloc small_fs ≡ fault panic))
    ⊎ ((n : ℕ) × (s' : FsState) × (n < 8)
        × (in_use small_fs n ≡ false)
        × ((j : ℕ) → j < n → in_use small_fs j ≡ true)
        × (balloc small_fs ≡ ok (s', n))
        × Takes n small_fs s')
balloc-Takes_example = balloc-Takes small_fs small_fs-IsFs

small_fs-IsCache : IsCache small_fs.inodes
small_fs-IsCache zero zero a b c d e f = refl
small_fs-IsCache zero (suc j) a b c d e f = absurd (ground (arith, d))
small_fs-IsCache (suc i) zero a b c d e f = absurd (ground (arith, c))
small_fs-IsCache (suc i) (suc j) a b c d e f = absurd (ground (arith, c))

iget-Got_example : IgetResult 1 1 small_fs (iget small_fs 1 1)
iget-Got_example = iget-Got small_fs 1 1 small_fs-IsCache

writei-Written_example :
    (s' : FsState) × (writei no_devices small_fs 0 511 (7 ∷ 8 ∷ []) ≡ ok (s', some 2))
    × Written 0 511 (7 ∷ 8 ∷ []) small_fs s'
writei-Written_example =
    writei-Written no_devices small_fs 0 511 (7 ∷ 8 ∷ []) (omega arith) small_fs-IsFile
      (omega arith) (omega arith)

readi-writei_example :
    (s' : FsState) × (writei no_devices small_fs 0 511 (7 ∷ 8 ∷ []) ≡ ok (s', some 2))
    × (readi no_devices s' 0 511 2 ≡ ok (s', some (7 ∷ 8 ∷ [])))
readi-writei_example =
    readi-writei no_devices small_fs 0 511 (7 ∷ 8 ∷ []) (omega arith) small_fs-IsFile (omega arith)
      (omega arith)

-- //a//b
abbrev a_path : List ℕ
a_path = b'/' ∷ b'/' ∷ b'a' ∷ b'/' ∷ b'/' ∷ b'b' ∷ []

skipelem-Skipped_example : Skipped a_path (skipelem a_path)
skipelem-Skipped_example = skipelem-Skipped a_path

skipelem_runs : skipelem a_path ≡ some (b'a' ∷ [], b'b' ∷ [])
unfolding skipelem skip_first skip_slashes split_element
skipelem_runs = refl
