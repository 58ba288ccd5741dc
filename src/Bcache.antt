-- ===== src/Bcache.antt =====
-- OS/HW4/xv6-proj/bio.c: the buffer cache.
--
-- `order` is the list of the buffers through `next`, from `head.next` on, the most recently used first;
-- `prev` runs through it backwards. In `iderw` of ide.c the queue of requests is taken to be empty, so that
-- `idestart` runs at once, and the disk to carry out the request: its interrupt is left out. `disk` has the
-- blocks of the two disks.
pub mod Find
pub mod Read
pub mod Release
pub mod View
pub mod Write
use hyu_3rd_1se.Prelude.{
  ℕ, zero, suc, ◌+◌, ◌%◌, ltb, Bool, true, false, not, ◌&&◌, ◌||◌, Option, none, some, List, [],
  ◌∷◌, ◌++◌, ◌==◌, if◌then◌else◌, update, for_range, Result, ok, fault, panic, diverges, ◌>>=◌,
}
use hyu_3rd_1se.Proc.{u32}
use hyu_3rd_1se.Disk.{Block}

abbrev pub nbuf : ℕ
nbuf = 30

-- `struct buf`; `valid` and `dirty` are its flags, `locked` its lock.
pub record Buf : Type 0 where
  pub dev : ℕ
  pub blockno : ℕ
  pub valid : Bool
  pub dirty : Bool
  pub locked : Bool
  pub refcnt : ℕ
  pub content : Block

-- `bcache` and the disks.
pub record Bcache : Type 0 where
  pub bufs : ℕ → Buf
  pub order : List ℕ
  pub disk : ℕ → ℕ → Block
  pub havedisk1 : Bool

-- `FSSIZE`
abbrev pub fssize : ℕ
fssize = 2000

-- The disk that `idestart` selects.
abbrev pub drive : ℕ → ℕ
drive dev = dev % 2

abbrev pub set_buf : Bcache → ℕ → Buf → Bcache
set_buf s i v = record s { bufs = update s.bufs i v }

-- `binit` puts each buffer in front.
unfoldable pub binit : Bcache → Bcache
binit s = record s { order = for_range nbuf 0 (λ i bs. i ∷ bs) [] }

unfoldable pub find_buf : (Buf → Bool) → (ℕ → Buf) → List ℕ → Option ℕ
find_buf test t [] = none
find_buf test t (i ∷ is) = let next = find_buf test t is in if test (t i) then some i else next

abbrev pub backwards : List ℕ → List ℕ
backwards [] = []
backwards (i ∷ is) = backwards is ++ (i ∷ [])

abbrev pub is_block : ℕ → ℕ → Buf → Bool
is_block dev b x = x.dev == dev && x.blockno == b

abbrev pub is_free : Buf → Bool
is_free x = x.refcnt == 0 && not x.dirty

-- `acquiresleep` of a buffer. A buffer that is locked would be waited for, and no other process runs in
-- this model.
unfoldable pub lock_buf : Bcache → ℕ → Result (Bcache × ℕ)
lock_buf s i =
    if (s.bufs i).locked
    then fault diverges
    else ok (set_buf s i (record (s.bufs i) { locked = true }), i)

-- `bget` with what its two loops find.
unfoldable pub take_buf : Bcache → ℕ → ℕ → Option ℕ → Option ℕ → Result (Bcache × ℕ)
take_buf s dev b (some i) free =
    lock_buf (set_buf s i (record (s.bufs i) { refcnt = u32 ((s.bufs i).refcnt + 1) })) i
take_buf s dev b none (some i) =
    lock_buf
      (set_buf s i
        (record (s.bufs i) { dev = dev; blockno = b; valid = false; dirty = false; refcnt = 1 }))
      i
take_buf s dev b none none = fault panic

unfoldable pub bget : Bcache → ℕ → ℕ → Result (Bcache × ℕ)
bget s dev b =
    take_buf s dev b (find_buf (is_block dev b) s.bufs s.order)
      (find_buf is_free s.bufs (backwards s.order))

-- A dirty buffer is written, any other is read.
unfoldable pub transfer : Bcache → ℕ → Bcache
transfer s i =
    let x = s.bufs i in
    let d = drive x.dev in
    if x.dirty
    then set_buf (record s { disk = update s.disk d (update (s.disk d) x.blockno x.content) }) i
        (record x { dirty = false; valid = true })
    else set_buf s i (record x { content = s.disk d x.blockno; valid = true })

-- `idestart`, with what the disk then does.
unfoldable pub idestart : Bcache → ℕ → Result Bcache
idestart s i = if ltb (s.bufs i).blockno fssize then ok (transfer s i) else fault panic

-- There is a disk with the number.
abbrev pub has_disk : Bcache → ℕ → Bool
has_disk s dev = dev == 0 || s.havedisk1

unfoldable pub iderw : Bcache → ℕ → Result Bcache
iderw s i =
    let x = s.bufs i in
    if not x.locked
    then fault panic
    else if not x.dirty && x.valid
    then fault panic
    else if has_disk s x.dev
    then idestart s i
    else fault panic

-- `bread` after `bget`.
unfoldable pub fill_buf : Bcache → ℕ → Result (Bcache × ℕ)
fill_buf s i = if (s.bufs i).valid then ok (s, i) else iderw s i >>= λ s1. ok (s1, i)

unfoldable pub bread : Bcache → ℕ → ℕ → Result (Bcache × ℕ)
bread s dev b = bget s dev b >>= λ (s1, i). fill_buf s1 i

unfoldable pub bwrite : Bcache → ℕ → Result Bcache
bwrite s i =
    if (s.bufs i).locked
    then iderw (set_buf s i (record (s.bufs i) { dirty = true })) i
    else fault panic

-- The list without the buffer.
unfoldable pub unlink : ℕ → List ℕ → List ℕ
unlink i [] = []
unlink i (j ∷ js) = if i == j then js else j ∷ unlink i js

unfoldable pub brelse : Bcache → ℕ → Result Bcache
brelse s i =
    let x = record (s.bufs i) { locked = false; refcnt = u32 ((s.bufs i).refcnt + 4294967295) } in
    let s1 = set_buf s i x in
    if (s.bufs i).locked
    then ok (if x.refcnt == 0 then record s1 { order = i ∷ unlink i s.order } else s1)
    else fault panic
