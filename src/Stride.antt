-- ===== src/Stride.antt =====
-- OS/HW4/xv6-proj/stride.c and stride.h, and `findMinPassStride` and `share_stride_in_proc` of
-- proc.c: the shares of the processor and the passes of stride scheduling.
pub mod MinPass
pub mod Share
use hyu_3rd_1se.Prelude.{
  ℕ, zero, suc, ◌+◌, ◌-◌, ◌*◌, ◌/◌, ◌%◌, ◌^◌, Bool, true, false, not, ◌&&◌, ◌||◌, Option, none,
  some, ltb, leb, ◌==◌, if◌then◌else◌, update, for_range, Result, ok, fault, div_by_zero, ◌>>=◌,
}
use hyu_3rd_1se.Prelude.Int.{ℤ, pos, negsuc, ◌+ℤ◌, ◌-ℤ◌, ltb_ℤ}
use hyu_3rd_1se.Proc.{Proc, Table, nproc, u16, u32, is_runnable, points_to}
use hyu_3rd_1se.Kernel.{Kernel, Others, deref, set_proc, dequeue_at, yield}

abbrev pub stride_maximum_portion : ℕ
stride_maximum_portion = 100

abbrev pub stride_large_number : ℕ
stride_large_number = 10000

-- `2147483647 - 20000`
abbrev pub pass_limit : ℕ
pass_limit = 2147463647

-- a - b on 32 bits
abbrev pub sub32 : ℕ → ℕ → ℕ
sub32 a b = (a + 2 ^ 32 - b) % 2 ^ 32

unfoldable pub init_stride : Kernel → Kernel
init_stride k = record k { cur_stride_por = pos 0 +ℤ pos k.mlfq_cpu_share; min_pass = 999999999 }

-- One round of the first loop of `findMinPassStride`, on `minPass` and `overflowFlag`.
unfoldable pub scan_pass : Table → ℕ → ℕ × Bool → ℕ × Bool
scan_pass t i (m, overflow) =
    let p = t i in
    if not (is_runnable p.state)
    then (m, overflow)
    else (if ltb 0 p.stride && leb p.pass m then p.pass else m, overflow || leb pass_limit p.pass)

-- One round of its second loop.
unfoldable pub rebase : ℕ → ℕ → Table → Table
rebase m i t =
    let p = t i in
    if is_runnable p.state && ltb 0 p.pass
    then update t i (record p { pass = u32 (sub32 p.pass m + 10) })
    else t

unfoldable pub find_min_pass_stride : Kernel → Kernel
find_min_pass_stride k =
    let (m, overflow) =
      for_range nproc 0 (scan_pass k.table) (k.mlfq_pass, leb pass_limit k.mlfq_pass) in
    if overflow
    then record k {
      min_pass = m;
      table = for_range nproc 0 (rebase m) k.table;
      mlfq_pass = u32 (sub32 k.mlfq_pass m + 10);
    }
    else record k { min_pass = m }

-- One round of the loop of `share_stride_in_proc`.
unfoldable pub share_stride_with : ℕ → ℕ → ℕ → ℕ → Table → Table
share_stride_with parent each_stride min_pass i t =
    let p = t i in
    if points_to p.parent parent && p.isthread
    then update t i (record p { stride = each_stride; pass = min_pass })
    else t

unfoldable pub share_stride_in_proc : Kernel → ℕ → Kernel
share_stride_in_proc k parent =
    let p = k.table parent in
    if p.stride == 0
    then k
    else let each_stride = u16 (p.pstride * (p.num_of_thread + 1)) in
      let k1 = find_min_pass_stride k in
      let shared = for_range nproc 0 (share_stride_with parent each_stride k1.min_pass) k1.table in
      record k1 { table = update shared parent (record (shared parent) { stride = each_stride }) }

-- `STRIDE_LARGE_NUMBER / share`, stored into a `ushort`. The quotient of a negative number is
-- truncated towards 0.
abbrev pub stride_of : ℤ → Result ℕ
stride_of (pos zero) = fault div_by_zero
stride_of (pos (suc n)) = ok (u16 (stride_large_number / suc n))
stride_of (negsuc n) = ok (u16 (2 ^ 16 - stride_large_number / suc n))

-- The `int` sum `curStridePor + share` is taken not to overflow.
abbrev pub over_portion : Kernel → ℤ → Bool
over_portion k share = ltb_ℤ (pos stride_maximum_portion) (k.cur_stride_por +ℤ share)

-- -1 as `unsigned long int`
abbrev pub minus_one : ℕ
minus_one = 4294967295

-- What `set_cpu_share` does with `proc->pid > 2`.
unfoldable pub join_stride : Kernel → ℕ → ℕ → Result Kernel
join_stride k p stride =
    let k1 = find_min_pass_stride k in
    let k2 = set_proc k1 p (record (k1.table p) { pass = sub32 k1.min_pass 10; stride = stride }) in
    if (k2.table p).isthread
    then (deref (k2.table p).parent >>= λ r.
        ok (share_stride_in_proc (set_proc k2 r (record (k2.table r) { pstride = stride })) r))
    else ok (share_stride_in_proc (set_proc k2 p (record (k2.table p) { pstride = stride })) p)

unfoldable pub set_cpu_share : Others → Kernel → ℤ → Result (Kernel × ℕ)
set_cpu_share others k share = deref k.proc >>= λ p.
    if over_portion k share
    then ok (set_proc k p (record (k.table p) { stride = 0 }), minus_one)
    else stride_of share >>= λ stride.
        let k1 = record k { cur_stride_por = k.cur_stride_por +ℤ share } in
        (if ltb 2 (k.table p).pid then join_stride k1 p stride else ok k1) >>= λ k2.
        dequeue_at k2 (k2.table p).q_posi p >>= λ k3. yield others k3 >>= λ k4. ok (k4, stride)

unfoldable pub set_mlfq_cpu_share : Kernel → ℤ → Result (Kernel × ℕ)
set_mlfq_cpu_share k share =
    if over_portion k share
    then ok (k, minus_one)
    else stride_of share >>= λ stride. deref k.mlfq_proc >>= λ p.
        let k1 = record k { cur_stride_por = k.cur_stride_por +ℤ share } in
        ok (set_proc k1 p (record (k1.table p) { stride = stride }), stride)

unfoldable pub cut_cpu_share : Kernel → ℕ → Kernel
cut_cpu_share k stride =
    let share = if not (stride == 0) then stride_large_number / stride else 0 in
    record k { cur_stride_por = k.cur_stride_por -ℤ pos share }
