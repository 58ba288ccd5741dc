-- ===== src/Pipe.antt =====
-- OS/HW4/xv6-proj/pipe.c: pipes. The bytes of a system call are a list, and the file structures of
-- the two ends are left out.
pub mod Stream
use hyu_3rd_1se.Prelude.{
  ℕ, zero, suc, ◌+◌, ◌%◌, Bool, true, false, not, ◌&&◌, ◌||◌, Option, none, some, List, [], ◌∷◌,
  ◌==◌, if◌then◌else◌, update, Result, ok, fault, diverges, ◌>>=◌,
}
use hyu_3rd_1se.Proc.{u32}
use hyu_3rd_1se.Kernel.{Kernel, deref, set_proc}
use hyu_3rd_1se.Ptable.{wakeup, fall_asleep}

abbrev pub pipesize : ℕ
pipesize = 512

-- `nread_chan` and `nwrite_chan` are the addresses of the two counters.
pub record Pipe : Type 0 where
  pub data_at : ℕ → ℕ
  pub nread : ℕ
  pub nwrite : ℕ
  pub readopen : Bool
  pub writeopen : Bool
  pub nread_chan : ℕ
  pub nwrite_chan : ℕ

-- The kernel with one of its pipes.
pub record PipeState : Type 0 where
  pub kernel : Kernel
  pub pipe : Pipe

-- `pipealloc` sets up the page that it gets for the pipe.
unfoldable pub pipealloc : Pipe → Pipe
pipealloc p = record p { readopen = true; writeopen = true; nwrite = 0; nread = 0 }

abbrev pub wake_on : ℕ → PipeState → PipeState
wake_on chan s = record s { kernel = wakeup s.kernel chan }

-- The second result tells whether the pipe is freed.
unfoldable pub pipeclose : PipeState → Bool → PipeState × Bool
pipeclose s writable =
    let s1 =
      if writable
      then wake_on s.pipe.nread_chan (record s { pipe = record s.pipe { writeopen = false } })
      else wake_on s.pipe.nwrite_chan (record s { pipe = record s.pipe { readopen = false } }) in
    (s1, not s1.pipe.readopen && not s1.pipe.writeopen)

-- `sleep` with the pipe: `others` is what other processes do with both meanwhile.
unfoldable pub sleep_on : (PipeState → PipeState) → PipeState → ℕ → Result PipeState
sleep_on others s chan = deref s.kernel.proc >>= λ p.
    let s1 = others (record s { kernel = fall_asleep s.kernel p chan }) in
    deref s1.kernel.proc >>= λ q.
    ok (record s1 { kernel = set_proc s1.kernel q (record (s1.kernel.table q) { chan = 0 }) })

abbrev pub pipe_full : Pipe → Bool
pipe_full p = p.nwrite == u32 (p.nread + pipesize)

unfoldable pub put_byte : Pipe → ℕ → Pipe
put_byte p b = record p {
  data_at = update p.data_at (p.nwrite % pipesize) b;
  nwrite = u32 (p.nwrite + 1);
}

-- The inner loop of `pipewrite`; false stands for the return of -1.
unfoldable pub wait_room : (PipeState → PipeState) → ℕ → PipeState → Result (PipeState × Bool)
wait_room others zero s = fault diverges
wait_room others (suc rounds) s =
    let again = sleep_on others (wake_on s.pipe.nread_chan s) s.pipe.nwrite_chan >>= λ s1.
    wait_room others rounds s1 in
    let alive =
      deref s.kernel.proc >>= λ p. if (s.kernel.table p).killed then ok (s, false) else again in
    let blocked = if s.pipe.readopen then alive else ok (s, false) in
    if pipe_full s.pipe then blocked else ok (s, true)

-- `pipewrite` of the bytes at `addr`, with at most `rounds` waits for each byte.
unfoldable pub pipewrite :
    (PipeState → PipeState) → ℕ → PipeState → List ℕ → Result (PipeState × Bool)
pipewrite others rounds s [] = ok (wake_on s.pipe.nread_chan s, true)
pipewrite others rounds s (b ∷ bs) = wait_room others rounds s >>= λ (s1, room).
    let rest = pipewrite others rounds (record s1 { pipe = put_byte s1.pipe b }) bs in
    if room then rest else ok (s1, false)

-- The first loop of `piperead`; false stands for the return of -1.
unfoldable pub wait_data : (PipeState → PipeState) → ℕ → PipeState → Result (PipeState × Bool)
wait_data others zero s = fault diverges
wait_data others (suc rounds) s =
    let again = sleep_on others s s.pipe.nread_chan >>= λ s1. wait_data others rounds s1 in
    let blocked =
      deref s.kernel.proc >>= λ p. if (s.kernel.table p).killed then ok (s, false) else again in
    if s.pipe.nread == s.pipe.nwrite && s.pipe.writeopen then blocked else ok (s, true)

-- The second loop: the bytes that go to `addr`.
unfoldable pub copy_bytes : ℕ → Pipe → Pipe × List ℕ
copy_bytes zero p = (p, [])
copy_bytes (suc n) p =
    let (p1, bs) = copy_bytes n (record p { nread = u32 (p.nread + 1) }) in
    if p.nread == p.nwrite then (p, []) else (p1, p.data_at (p.nread % pipesize) ∷ bs)

-- `piperead` of at most `n` bytes; the result is `none` for -1.
unfoldable pub piperead :
    (PipeState → PipeState) → ℕ → PipeState → ℕ → Result (PipeState × Option (List ℕ))
piperead others rounds s n = wait_data others rounds s >>= λ (s1, ready).
    let (p, bs) = copy_bytes n s1.pipe in
    ok (if ready then (wake_on p.nwrite_chan (record s1 { pipe = p }), some bs) else (s1, none))
