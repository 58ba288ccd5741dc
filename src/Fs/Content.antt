-- ===== src/Fs/Content.antt =====
-- OS/HW4/xv6-proj/fs.c: the blocks of an inode, and reading and writing its bytes.
pub mod Lookup
pub mod Read
pub mod Write
pub mod Overwrite
use hyu_3rd_1se.Prelude.{
  ℕ, zero, suc, ◌+◌, ◌-◌, ◌*◌, ◌/◌, ◌%◌, Bool, true, false, not, ◌&&◌, ◌||◌, Option, none, some,
  List, [], ◌∷◌, ◌++◌, length, take, drop, ltb, leb, ◌==◌, if◌then◌else◌, update, for_result,
  Result, ok, fault, panic, diverges, ◌>>=◌,
}
use hyu_3rd_1se.Disk.{Block, bsize, word, set_word}
use hyu_3rd_1se.Fs.{Inode, FsState, set_inode, put_block, balloc, bfree}
use hyu_3rd_1se.Fs.Inodes.{ndirect, iupdate}

abbrev pub nindirect : ℕ
nindirect = 128

abbrev pub ndoindirect : ℕ
ndoindirect = 16384

abbrev pub maxfile : ℕ
maxfile = ndirect + nindirect + ndoindirect

abbrev pub set_addr : FsState → ℕ → ℕ → ℕ → FsState
set_addr s i slot a =
    set_inode s i (record (s.inodes i) { addrs = update (s.inodes i).addrs slot a })

-- `if((addr = ip->addrs[slot]) == 0) ip->addrs[slot] = addr = balloc(ip->dev)`
unfoldable pub need_addr : FsState → ℕ → ℕ → Result (FsState × ℕ)
need_addr s i slot =
    let addr = (s.inodes i).addrs slot in
    let fresh = balloc s >>= λ (s1, a). ok (set_addr s1 i slot a, a) in
    if addr == 0 then fresh else ok (s, addr)

-- `if((addr = a[j]) == 0){ a[j] = addr = balloc(ip->dev); log_write(bp); }` for the block `b`.
unfoldable pub need_entry : FsState → ℕ → ℕ → Result (FsState × ℕ)
need_entry s b j =
    let addr = word (s.blocks b) j in
    let fresh = balloc s >>= λ (s1, a). ok (put_block s1 b (set_word (s1.blocks b) j a), a) in
    if addr == 0 then fresh else ok (s, addr)

unfoldable pub bmap_indirect : FsState → ℕ → ℕ → Result (FsState × ℕ)
bmap_indirect s i bn = need_addr s i ndirect >>= λ (s1, b). need_entry s1 b bn

unfoldable pub bmap_double : FsState → ℕ → ℕ → Result (FsState × ℕ)
bmap_double s i bn = need_addr s i (ndirect + 1) >>= λ (s1, b).
    need_entry s1 b (bn / nindirect) >>= λ (s2, c). need_entry s2 c (bn % nindirect)

unfoldable pub bmap : FsState → ℕ → ℕ → Result (FsState × ℕ)
bmap s i bn =
    if ltb bn ndirect
    then need_addr s i bn
    else if ltb (bn - ndirect) nindirect
    then bmap_indirect s i (bn - ndirect)
    else if ltb (bn - ndirect - nindirect) ndoindirect
    then bmap_double s i (bn - ndirect - nindirect)
    else fault panic

-- `itrunc`: the direct blocks, the entries of an indirect block, and of a doubly indirect one.
unfoldable pub free_direct : ℕ → ℕ → FsState → Result FsState
free_direct i j s =
    let addr = (s.inodes i).addrs j in
    let freed = bfree s addr >>= λ s1. ok (set_addr s1 i j 0) in if addr == 0 then ok s else freed

unfoldable pub free_entry : ℕ → ℕ → FsState → Result FsState
free_entry b j s = let addr = word (s.blocks b) j in if addr == 0 then ok s else bfree s addr

unfoldable pub free_indirect : ℕ → FsState → Result FsState
free_indirect b s = for_result nindirect 0 (free_entry b) s >>= λ s1. bfree s1 b

unfoldable pub free_double_entry : ℕ → ℕ → FsState → Result FsState
free_double_entry b j s =
    let addr = word (s.blocks b) j in
    let freed =
      for_result nindirect 0 (free_entry addr) s >>= λ s1. bfree s1 (word (s1.blocks b) j) in
    if addr == 0 then ok s else freed

unfoldable pub free_double : ℕ → FsState → Result FsState
free_double b s = for_result nindirect 0 (free_double_entry b) s >>= λ s1. bfree s1 b

unfoldable pub free_slot : (ℕ → FsState → Result FsState) → ℕ → ℕ → FsState → Result FsState
free_slot free i slot s =
    let freed = free ((s.inodes i).addrs slot) s >>= λ s1. ok (set_addr s1 i slot 0) in
    if (s.inodes i).addrs slot == 0 then ok s else freed

unfoldable pub itrunc : FsState → ℕ → Result FsState
itrunc s i = for_result ndirect 0 (free_direct i) s >>= λ s1.
    free_slot free_indirect i ndirect s1 >>= λ s2.
    free_slot free_double i (ndirect + 1) s2 >>= λ s3.
    ok (iupdate (set_inode s3 i (record (s3.inodes i) { size = 0 })) i)

-- `iput`
abbrev pub drop_ref : FsState → ℕ → FsState
drop_ref s i = set_inode s i (record (s.inodes i) { ref = (s.inodes i).ref - 1 })

unfoldable pub iput : FsState → ℕ → Result FsState
iput s i =
    let ip = s.inodes i in
    let freed = itrunc s i >>= λ s1.
    let s2 = iupdate (set_inode s1 i (record (s1.inodes i) { type = 0 })) i in
    ok (drop_ref (set_inode s2 i (record (s2.inodes i) { valid = false })) i) in
    if ip.ref == 1 && ip.valid && ip.nlink == 0 then freed else ok (drop_ref s i)

-- The `m` bytes of a block from an offset on, and the block with bytes stored there.
unfoldable pub slice : Block → ℕ → ℕ → List ℕ
slice d from zero = []
slice d from (suc m) = d from ∷ slice d (suc from) m

unfoldable pub splice : Block → ℕ → List ℕ → Block
splice d from [] = d
splice d from (b ∷ bs) = splice (update d from b) (suc from) bs

abbrev pub min : ℕ → ℕ → ℕ
min a b = if ltb a b then a else b

-- How many bytes a round of the loops of `readi` and `writei` moves.
abbrev pub chunk : ℕ → ℕ → ℕ
chunk off left = min left (bsize - off % bsize)

-- The loop of `readi` for the `left` bytes from `off` on.
unfoldable pub read_loop : ℕ → FsState → ℕ → ℕ → ℕ → Result (FsState × List ℕ)
read_loop zero s i off left = fault diverges
read_loop (suc rounds) s i off left =
    let m = chunk off left in
    let more = bmap s i (off / bsize) >>= λ (s1, a).
    read_loop rounds s1 i (off + m) (left - m) >>= λ (s2, bs).
    ok (s2, slice (s1.blocks a) (off % bsize) m ++ bs) in
    if left == 0 then ok (s, []) else more

-- The device functions of `devsw`: none where there is no function; a result of none is -1.
pub record Devices : Type 0 where
  pub read_dev : ℕ → Option (ℕ → Option (List ℕ))
  pub write_dev : ℕ → Option (List ℕ → Option ℕ)

-- `T_DEV` and `NDEV`. A negative major number is large as a half word.
abbrev pub t_dev : ℕ
t_dev = 3

abbrev pub ndev : ℕ
ndev = 10

abbrev pub read_device : Devices → ℕ → ℕ → Option (List ℕ)
read_device devs major n =
    if leb ndev major then none else elim (devs.read_dev major) [ none ↦ none | some f ↦ f n ]

abbrev pub write_device : Devices → ℕ → List ℕ → Option ℕ
write_device devs major bs =
    if leb ndev major then none else elim (devs.write_dev major) [ none ↦ none | some f ↦ f bs ]

-- `readi` of a file, with enough rounds for one byte each; none stands for -1.
unfoldable pub read_file : FsState → ℕ → ℕ → ℕ → Result (FsState × Option (List ℕ))
read_file s i off n =
    let size = (s.inodes i).size in
    let n' = if ltb size (off + n) then size - off else n in
    let bytes = read_loop (n' + 1) s i off n' >>= λ (s1, bs). ok (s1, some bs) in
    if ltb size off || leb 4294967296 (off + n) then ok (s, none) else bytes

unfoldable pub readi : Devices → FsState → ℕ → ℕ → ℕ → Result (FsState × Option (List ℕ))
readi devs s i off n =
    let file = read_file s i off n in
    if (s.inodes i).type == t_dev then ok (s, read_device devs (s.inodes i).major n) else file

-- The loop of `writei` for the bytes that are left, from `off` on; it returns the last `off`.
unfoldable pub write_loop : ℕ → FsState → ℕ → ℕ → List ℕ → Result (FsState × ℕ)
write_loop zero s i off bs = fault diverges
write_loop (suc rounds) s i off bs =
    let m = chunk off (length bs) in
    let more = bmap s i (off / bsize) >>= λ (s1, a).
    write_loop rounds (put_block s1 a (splice (s1.blocks a) (off % bsize) (take m bs))) i (off + m)
      (drop m bs) in
    if length bs == 0 then ok (s, off) else more

unfoldable pub write_file : FsState → ℕ → ℕ → List ℕ → Result (FsState × Option ℕ)
write_file s i off bs =
    let n = length bs in
    let written = write_loop (n + 1) s i off bs >>= λ (s1, off').
    let s2 = iupdate (set_inode s1 i (record (s1.inodes i) { size = off' })) i in
    ok (if ltb 0 n && ltb (s1.inodes i).size off' then s2 else s1, some n) in
    if ltb (s.inodes i).size off || leb 4294967296 (off + n) || ltb (maxfile * bsize) (off + n)
    then ok (s, none)
    else written

unfoldable pub writei : Devices → FsState → ℕ → ℕ → List ℕ → Result (FsState × Option ℕ)
writei devs s i off bs =
    let file = write_file s i off bs in
    if (s.inodes i).type == t_dev then ok (s, write_device devs (s.inodes i).major bs) else file

-- `struct stat` as `stati` fills it.
pub record Stat : Type 0 where
  pub dev : ℕ
  pub ino : ℕ
  pub type : ℕ
  pub nlink : ℕ
  pub size : ℕ

unfoldable pub stati : Inode → Stat
stati ip = record { dev = ip.dev; ino = ip.inum; type = ip.type; nlink = ip.nlink; size = ip.size }
