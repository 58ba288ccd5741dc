-- ===== src/Fs.antt =====
-- OS/HW4/xv6-proj/fs.c: the state of the file system, and the allocation of disk blocks.
--
-- `blocks` is what `bread` gives for each block of the device. `logged` lists the blocks for which
-- `log_write` was called, the latest first; what a call does to the log is Log.log_write.
pub mod Inodes
pub mod Content
pub mod Dir
pub mod Path
pub mod Bitmap
use hyu_3rd_1se.Prelude.{
  ℕ, zero, suc, ◌+◌, ◌*◌, ◌/◌, ◌%◌, Bool, true, false, Option, none, some, List, [], ◌∷◌, ltb, ◌==◌,
  if◌then◌else◌, update, Result, ok, fault, panic, diverges, ◌>>=◌,
}
use hyu_3rd_1se.Disk.{Block, zeros, word, test_bit, set_bit, clear_bit}

-- `struct superblock`; its size is `blocks_total`.
pub record SuperBlock : Type 0 where
  pub blocks_total : ℕ
  pub nblocks : ℕ
  pub ninodes : ℕ
  pub nlog : ℕ
  pub logstart : ℕ
  pub inodestart : ℕ
  pub bmapstart : ℕ

-- `struct inode`; `valid` is the flag I_VALID and `locked` the sleep lock.
pub record Inode : Type 0 where
  pub dev : ℕ
  pub inum : ℕ
  pub ref : ℕ
  pub valid : Bool
  pub locked : Bool
  pub type : ℕ
  pub major : ℕ
  pub minor : ℕ
  pub nlink : ℕ
  pub size : ℕ
  pub addrs : ℕ → ℕ

-- `inodes` is `icache.inode`, and a pointer to an inode is its index there.
pub record FsState : Type 0 where
  pub blocks : ℕ → Block
  pub logged : List ℕ
  pub sb : SuperBlock
  pub inodes : ℕ → Inode

abbrev pub ninode : ℕ
ninode = 50

-- `BPB`, the bits of a block.
abbrev pub bpb : ℕ
bpb = 4096

-- `BBLOCK(b, sb)`
abbrev pub bblock : SuperBlock → ℕ → ℕ
bblock sb b = b / bpb + sb.bmapstart

abbrev pub set_inode : FsState → ℕ → Inode → FsState
set_inode s i v = record s { inodes = update s.inodes i v }

-- A change of the buffer of a block, and `log_write`.
abbrev pub put_block : FsState → ℕ → Block → FsState
put_block s b d = record s { blocks = update s.blocks b d; logged = b ∷ s.logged }

unfoldable pub readsb : Block → SuperBlock
readsb d = record {
  blocks_total = word d 0;
  nblocks = word d 1;
  ninodes = word d 2;
  nlog = word d 3;
  logstart = word d 4;
  inodestart = word d 5;
  bmapstart = word d 6;
}

abbrev pub bzero : FsState → ℕ → FsState
bzero s b = put_block s b zeros

-- The inner loop of `balloc`: from index `bi` on the first clear bit for a block of the disk.
unfoldable pub scan_bits : ℕ → Block → ℕ → ℕ → ℕ → Option ℕ
scan_bits zero d total b bi = none
scan_bits (suc rounds) d total b bi =
    let next = scan_bits rounds d total b (suc bi) in
    let here = if test_bit (d (bi / 8)) (bi % 8) then next else some bi in
    if ltb (b + bi) total then here else none

-- The block is marked, logged and filled with zeros.
unfoldable pub mark_block : FsState → ℕ → ℕ → FsState
mark_block s b bi =
    let d = s.blocks (bblock s.sb b) in
    bzero (put_block s (bblock s.sb b) (update d (bi / 8) (set_bit (d (bi / 8)) (bi % 8)))) (b + bi)

-- The outer loop of `balloc`, over the blocks of the bitmap.
unfoldable pub balloc_loop : ℕ → FsState → ℕ → Result (FsState × ℕ)
balloc_loop zero s b = fault diverges
balloc_loop (suc rounds) s b =
    let next = balloc_loop rounds s (b + bpb) in
    let found : Result (FsState × ℕ) =
      elim (scan_bits bpb (s.blocks (bblock s.sb b)) s.sb.blocks_total b 0) [
        | none ↦ next
        | some bi ↦ ok (mark_block s b bi, b + bi)
      ] in
    if ltb b s.sb.blocks_total then found else fault panic

unfoldable pub balloc : FsState → Result (FsState × ℕ)
balloc s = balloc_loop (s.sb.blocks_total / bpb + 2) s 0

unfoldable pub bfree : FsState → ℕ → Result FsState
bfree s b =
    let s1 = record s { sb = readsb (s.blocks 1) } in
    let d = s.blocks (bblock s1.sb b) in
    let bi = b % bpb in
    if test_bit (d (bi / 8)) (bi % 8)
    then ok (put_block s1 (bblock s1.sb b) (update d (bi / 8) (clear_bit (d (bi / 8)) (bi % 8))))
    else fault panic
