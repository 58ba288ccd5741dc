-- ===== src/Stride/Share.antt =====
-- The shares of stride.c, and the sharing of a stride among the threads of a process.
use hyu_3rd_1se.Prelude.{
  ℕ, zero, suc, ◌+◌, ◌*◌, ◌/◌, ◌%◌, ◌^◌, ◌<◌, ◌≤◌, ◌≡◌, ◌≢◌, refl, sym, ap, true, ◌&&◌, ◌||◌, not,
  ltb, ◌==◌, if◌then◌else◌, for_range, for_range-pointwise, arith, check_below, check_below-holds,
  ok, Bool-cases, inl, inr, ==-refl, ==-of_ne, lt→ltb,
}
use hyu_3rd_1se.Prelude.Int.{ℤ, pos, ◌+ℤ◌, ◌-ℤ◌, int_laws}
use hyu_3rd_1se.Proc.{Proc, Table, nproc, u16, points_to}
use hyu_3rd_1se.Kernel.{Kernel}
use hyu_3rd_1se.Stride.{
  stride_of, cut_cpu_share, find_min_pass_stride, share_stride_with, share_stride_in_proc,
}

-- `10000 / (10000 / share)` is the share, for each share of at most 100 percent.
share_table :
    check_below
      (λ s. s == 0 || (10000 / ((10000 / s) % 2 ^ 16) == s && not ((10000 / s) % 2 ^ 16 == 0)))
      101
    ≡ true
unfolding check_below
share_table = refl

share_back : (s : ℕ) → 0 < s → s < 101 → (10000 / u16 (10000 / s) ≡ s) × (u16 (10000 / s) ≢ 0)
share_back s h l = let e = check_below-holds _ 101 share_table s l in (ground arith, ground arith)

+ℤ-cancel : (a b : ℤ) → a +ℤ b -ℤ b ≡ a
+ℤ-cancel a b = omega int_laws

-- The stride that `set_cpu_share` computes for a share of 1 to 100 percent gives the whole share back
-- when `cut_cpu_share` is called with it: the division rounds, and still nothing is lost.
pub cut_cpu_share-restores :
    (k : Kernel) (s : ℕ)
    → 0 < s
    → s ≤ 100
    → (stride : ℕ) × (stride_of (pos s) ≡ ok stride)
      × (cut_cpu_share (record k { cur_stride_por = k.cur_stride_por +ℤ pos s }) stride ≡ k)
unfolding cut_cpu_share
cut_cpu_share-restores k zero h l = absurd (omega arith)
cut_cpu_share-restores k (suc s) h l =
    let (e, n) = share_back (suc s) h (omega arith) in
    (
      u16 (10000 / suc s),
      refl,
      rw (==-of_ne _ 0 n, e)
          (ap (λ z. record k { cur_stride_por = z }) (+ℤ-cancel k.cur_stride_por (pos (suc s)))),
    )

-- What a process is like after the loop of `share_stride_in_proc`.
abbrev pub shared : ℕ → ℕ → ℕ → Proc → Proc
shared parent each_stride min_pass p =
    if points_to p.parent parent && p.isthread
    then record p { stride = each_stride; pass = min_pass }
    else p

here :
    (parent e m : ℕ) (u : Table) (i : ℕ)
    → share_stride_with parent e m i u i ≡ shared parent e m (u i)
unfolding share_stride_with
here parent e m u i = elim (Bool-cases (points_to (u i).parent parent && (u i).isthread)) [
  | inl c ↦ rw (c, ==-refl i)
  | inr c ↦ rw c
]

elsewhere :
    (parent e m : ℕ) (u : Table) (i j : ℕ) → i ≢ j → share_stride_with parent e m i u j ≡ u j
unfolding share_stride_with
elsewhere parent e m u i j n = elim (Bool-cases (points_to (u i).parent parent && (u i).isthread)) [
  | inl c ↦ rw (c, ==-of_ne i j n)
  | inr c ↦ rw c
]

share_stride_with-all :
    (t : Table) (parent e m j : ℕ)
    → for_range nproc 0 (share_stride_with parent e m) t j
      ≡ (if ltb j nproc then shared parent e m (t j) else t j)
share_stride_with-all t parent e m j =
    for_range-pointwise (shared parent e m) (share_stride_with parent e m) (here parent e m)
      (elsewhere parent e m) nproc t j

-- The stride that a process with its threads divides up.
abbrev pub each_stride_of : Proc → ℕ
each_stride_of p = u16 (p.pstride * (p.num_of_thread + 1))

-- `share_stride_in_proc` gives the process and each of its threads the process's own stride times the
-- number of its threads and itself (modulo 2^16), and each thread the least pass; every other process
-- is as `findMinPassStride` leaves it. A process that is not under stride scheduling changes nothing.
pub share_stride_in_proc-lem :
    (k : Kernel) (parent : ℕ)
    → let p = k.table parent in
      let k1 = find_min_pass_stride k in
      let k' = share_stride_in_proc k parent in
      (p.stride ≡ 0 → k' ≡ k)
      × (p.stride ≢ 0 → (k'.table parent).stride ≡ each_stride_of p)
      × (p.stride ≢ 0
          → (j : ℕ) → j < nproc
          → j ≢ parent
          → k'.table j ≡ shared parent (each_stride_of p) k1.min_pass (k1.table j))
unfolding share_stride_in_proc
share_stride_in_proc-lem k parent = (
  λ e. rw e,
  λ n. rw (==-of_ne _ 0 n, ==-refl parent),
  λ n j l d. rw (
    ==-of_ne _ 0 n,
    ==-of_ne parent j (λ z. d (sym z)),
    share_stride_with-all (find_min_pass_stride k).table parent (each_stride_of (k.table parent))
        (find_min_pass_stride k).min_pass j,
    lt→ltb j nproc l,
  ),
)
