-- ===== src/Log.antt =====
-- OS/HW4/xv6-proj/log.c: the write-ahead log of the file system.
--
-- `disk` is what the disk holds and `cache` what `bread` gives, the contents of each block in the
-- buffer cache. `power` is the number of block writes that the disk still carries out before the
-- power fails; a run without a failure has enough of them.
pub mod Write
pub mod Header
pub mod Recovery
pub mod Commit
pub mod Absorb
use hyu_3rd_1se.Prelude.{
  ℕ, zero, suc, ◌+◌, ◌-◌, ◌*◌, ◌%◌, Bool, true, false, not, ◌&&◌, ◌||◌, Option, none, some, ltb,
  leb, ◌==◌, if◌then◌else◌, update, for_range, Result, ok, fault, panic, diverges, out_of_bounds,
  ◌>>=◌,
}
use hyu_3rd_1se.Kernel.{Kernel, deref, set_proc}
use hyu_3rd_1se.Ptable.{wakeup, fall_asleep}
use hyu_3rd_1se.Disk.{Block, word, set_word}

abbrev pub maxopblocks : ℕ
maxopblocks = 10

abbrev pub logsize : ℕ
logsize = 30

-- `struct log` with its header `lh`, and the system around it. `log_chan` is the address of `log`.
pub record LogState : Type 0 where
  pub disk : ℕ → Block
  pub cache : ℕ → Block
  pub dirty : ℕ → Bool
  pub power : ℕ
  pub start : ℕ
  pub size : ℕ
  pub outstanding : ℕ
  pub committing : Bool
  pub lh_n : ℕ
  pub lh_block : ℕ → ℕ
  pub kernel : Kernel
  pub log_chan : ℕ

-- `bwrite` and `iderw`: the block goes to the disk, and its buffer is not dirty any more.
unfoldable pub bwrite : LogState → ℕ → LogState
bwrite s b = record s {
  disk = if s.power == 0 then s.disk else update s.disk b (s.cache b);
  dirty = update s.dirty b false;
  power = s.power - 1;
}

-- `memmove` of the data of block `from` to the buffer of block `to`, and `bwrite` of that.
unfoldable pub copy_block : ℕ → ℕ → LogState → LogState
copy_block to from s = bwrite (record s { cache = update s.cache to (s.cache from) }) to

unfoldable pub install_block : ℕ → LogState → LogState
install_block tail s = copy_block (s.lh_block tail) (s.start + tail + 1) s

unfoldable pub install_trans : LogState → LogState
install_trans s = for_range s.lh_n 0 install_block s

-- The loops that read and write the header, whose fields are the words of a block.
abbrev pub read_heads : Block → ℕ → (ℕ → ℕ) → ℕ → ℕ
read_heads b n heads = for_range n 0 (λ i h. update h i (word b (suc i))) heads

abbrev pub write_heads : (ℕ → ℕ) → ℕ → Block → Block
write_heads heads n b = for_range n 0 (λ i h. set_word h (suc i) (heads i)) b

unfoldable pub read_head : LogState → LogState
read_head s =
    let b = s.cache s.start in
    record s { lh_n = word b 0; lh_block = read_heads b (word b 0) s.lh_block }

unfoldable pub write_head : LogState → LogState
write_head s =
    let b = write_heads s.lh_block s.lh_n (set_word (s.cache s.start) 0 s.lh_n) in
    bwrite (record s { cache = update s.cache s.start b }) s.start

unfoldable pub recover_from_log : LogState → LogState
recover_from_log s = write_head (record (install_trans (read_head s)) { lh_n = 0 })

unfoldable pub write_log_block : ℕ → LogState → LogState
write_log_block tail s = copy_block (s.start + tail + 1) (s.lh_block tail) s

unfoldable pub write_log : LogState → LogState
write_log s = for_range s.lh_n 0 write_log_block s

unfoldable pub commit : LogState → LogState
commit s =
    if ltb 0 s.lh_n
    then write_head (record (install_trans (write_head (write_log s))) { lh_n = 0 })
    else s

-- `initlog` with the fields of the super block.
unfoldable pub initlog : LogState → ℕ → ℕ → LogState
initlog s logstart nlog = recover_from_log (record s { start = logstart; size = nlog })

-- `sleep(&log, &log.lock)`: `others` is what other processes do meanwhile.
unfoldable pub sleep_on_log : (LogState → LogState) → LogState → Result LogState
sleep_on_log others s = deref s.kernel.proc >>= λ p.
    let s1 = others (record s { kernel = fall_asleep s.kernel p s.log_chan }) in
    deref s1.kernel.proc >>= λ q.
    ok (record s1 { kernel = set_proc s1.kernel q (record (s1.kernel.table q) { chan = 0 }) })

-- The test by which `begin_op` waits for a commit.
abbrev pub log_busy : LogState → Bool
log_busy s = s.committing || ltb logsize (s.lh_n + (s.outstanding + 1) * maxopblocks)

-- `begin_op`, with at most `rounds` tests.
unfoldable pub begin_op : (LogState → LogState) → ℕ → LogState → Result LogState
begin_op others zero s = fault diverges
begin_op others (suc rounds) s =
    let wait = sleep_on_log others s >>= λ s1. begin_op others rounds s1 in
    if log_busy s then wait else ok (record s { outstanding = s.outstanding + 1 })

abbrev pub wake_log : LogState → LogState
wake_log s = record s { kernel = wakeup s.kernel s.log_chan }

-- `end_op` without a failure of the power. Where no operation is under way the count would become
-- negative; that call is a fault.
unfoldable pub end_op : LogState → Result LogState
end_op s =
    let s1 = record s { outstanding = s.outstanding - 1 } in
    if s.committing
    then fault panic
    else if s.outstanding == 0
    then fault out_of_bounds
    else if s1.outstanding == 0
    then ok (wake_log (record (commit (record s1 { committing = true })) { committing = false }))
    else ok (wake_log s1)

-- The index at which `log_write` finds the block, or the end.
unfoldable pub log_index : ℕ → ℕ → (ℕ → ℕ) → ℕ → ℕ
log_index zero i heads b = i
log_index (suc rounds) i heads b =
    let next = log_index rounds (suc i) heads b in if heads i == b then i else next

-- `log_write` of a buffer, `b` being its block number.
unfoldable pub log_write : LogState → ℕ → Result LogState
log_write s b =
    let i = log_index s.lh_n 0 s.lh_block b in
    if leb logsize s.lh_n || leb (s.size - 1) s.lh_n
    then fault panic
    else if ltb s.outstanding 1
    then fault panic
    else ok (record s {
      lh_block = update s.lh_block i b;
      lh_n = if i == s.lh_n then s.lh_n + 1 else s.lh_n;
      dirty = update s.dirty b true;
    })

-- What the kernel finds when it starts again: the disk, and nothing of the memory.
abbrev pub reboot : ℕ → LogState → LogState
reboot power s = record s {
  cache = s.disk;
  dirty = λ _. false;
  power = power;
  outstanding = 0;
  committing = false;
  lh_n = 0;
  lh_block = λ _. 0;
}
