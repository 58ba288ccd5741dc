-- ===== src/Fs/Inodes.antt =====
-- OS/HW4/xv6-proj/fs.c: inodes on the disk and in the cache `icache`.
pub mod Cache
use hyu_3rd_1se.Prelude.{
  ℕ, zero, suc, ◌+◌, ◌-◌, ◌*◌, ◌/◌, ◌%◌, Bool, true, false, not, ◌&&◌, ◌||◌, Option, none, some,
  ltb, ◌==◌, if◌then◌else◌, update, for_range, Result, ok, fault, panic, diverges, null_deref,
  ◌>>=◌,
}
use hyu_3rd_1se.Disk.{Block, zeros, word, set_word, half, set_half}
use hyu_3rd_1se.Fs.{SuperBlock, Inode, FsState, ninode, set_inode, put_block}

-- `IPB`, and the block of an inode.
abbrev pub ipb : ℕ
ipb = 8

abbrev pub iblock : SuperBlock → ℕ → ℕ
iblock sb i = i / ipb + sb.inodestart

abbrev pub ndirect : ℕ
ndirect = 11

-- A `struct dinode` has 64 bytes, which are 32 half words or 16 words: this is the index of its field.
abbrev pub dinode_half : ℕ → ℕ → ℕ
dinode_half inum field = 32 * (inum % ipb) + field

abbrev pub dinode_word : ℕ → ℕ → ℕ
dinode_word inum field = 16 * (inum % ipb) + field

-- `memset` of the inode.
abbrev pub clear_dinode : Block → ℕ → Block
clear_dinode d inum i = if i / 64 == inum % ipb then 0 else d i

abbrev pub store_addrs : Block → ℕ → (ℕ → ℕ) → Block
store_addrs d inum addrs =
    for_range (ndirect + 2) 0 (λ i d'. set_word d' (dinode_word inum (3 + i)) (addrs i)) d

unfoldable pub iupdate : FsState → ℕ → FsState
iupdate s i =
    let ip = s.inodes i in
    let b = iblock s.sb ip.inum in
    let d1 = set_half (s.blocks b) (dinode_half ip.inum 0) ip.type in
    let d2 = set_half d1 (dinode_half ip.inum 1) ip.major in
    let d3 = set_half d2 (dinode_half ip.inum 2) ip.minor in
    let d4 = set_half d3 (dinode_half ip.inum 3) ip.nlink in
    let d5 = set_word d4 (dinode_word ip.inum 2) ip.size in
    put_block s b (store_addrs d5 ip.inum ip.addrs)

-- The loop of `iget` over the cache: the entry that holds the inode, or else the first empty one.
abbrev pub is_cached : ℕ → ℕ → Inode → Bool
is_cached dev inum ip = ltb 0 ip.ref && ip.dev == dev && ip.inum == inum

unfoldable pub find_inode : (Inode → Bool) → ℕ → ℕ → (ℕ → Inode) → Option ℕ
find_inode test zero i t = none
find_inode test (suc rounds) i t =
    let next = find_inode test rounds (suc i) t in if test (t i) then some i else next

abbrev pub is_empty_slot : Inode → Bool
is_empty_slot ip = ip.ref == 0

-- `iget` with what its loop has found. The result is the index of the entry.
unfoldable pub take_inode : FsState → ℕ → ℕ → Option ℕ → Option ℕ → Result (FsState × ℕ)
take_inode s dev inum (some i) empty =
    ok (set_inode s i (record (s.inodes i) { ref = (s.inodes i).ref + 1 }), i)
take_inode s dev inum none (some e) =
    ok (set_inode s e (record (s.inodes e) { dev = dev; inum = inum; ref = 1; valid = false }), e)
take_inode s dev inum none none = fault panic

unfoldable pub iget : FsState → ℕ → ℕ → Result (FsState × ℕ)
iget s dev inum =
    take_inode s dev inum (find_inode (is_cached dev inum) ninode 0 s.inodes)
      (find_inode is_empty_slot ninode 0 s.inodes)

unfoldable pub idup : FsState → ℕ → FsState
idup s i = set_inode s i (record (s.inodes i) { ref = (s.inodes i).ref + 1 })

-- The loop of `ialloc` from inode `inum` on.
unfoldable pub ialloc_loop : ℕ → FsState → ℕ → ℕ → ℕ → Result (FsState × ℕ)
ialloc_loop zero s dev type inum = fault diverges
ialloc_loop (suc rounds) s dev type inum =
    let b = iblock s.sb inum in
    let d = set_half (clear_dinode (s.blocks b) inum) (dinode_half inum 0) type in
    let next = ialloc_loop rounds s dev type (suc inum) in
    let here =
      if half (s.blocks b) (dinode_half inum 0) == 0
      then iget (put_block s b d) dev inum
      else next in
    if ltb inum s.sb.ninodes then here else fault panic

unfoldable pub ialloc : FsState → ℕ → ℕ → Result (FsState × ℕ)
ialloc s dev type = ialloc_loop (s.sb.ninodes + 1) s dev type 1

-- What `ilock` reads from the disk.
unfoldable pub load_inode : FsState → ℕ → Inode
load_inode s i =
    let ip = s.inodes i in
    let d = s.blocks (iblock s.sb ip.inum) in
    record ip {
      type = half d (dinode_half ip.inum 0);
      major = half d (dinode_half ip.inum 1);
      minor = half d (dinode_half ip.inum 2);
      nlink = half d (dinode_half ip.inum 3);
      size = word d (dinode_word ip.inum 2);
      addrs = λ j. word d (dinode_word ip.inum (3 + j));
      valid = true;
    }

-- `ilock` of an inode that no other process has locked. With the lock taken it would wait for ever,
-- since no other process runs in this model.
unfoldable pub ilock : FsState → ℕ → Result FsState
ilock s i =
    let s1 = set_inode s i (record (s.inodes i) { locked = true }) in
    let v = load_inode s1 i in
    if ltb (s.inodes i).ref 1
    then fault panic
    else if (s.inodes i).locked
    then fault diverges
    else if (s.inodes i).valid
    then ok s1
    else if v.type == 0
    then fault panic
    else ok (set_inode s1 i v)

unfoldable pub iunlock : FsState → ℕ → Result FsState
iunlock s i =
    if not (s.inodes i).locked || ltb (s.inodes i).ref 1
    then fault panic
    else ok (set_inode s i (record (s.inodes i) { locked = false }))
