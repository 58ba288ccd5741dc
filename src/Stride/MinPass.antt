-- ===== src/Stride/MinPass.antt =====
-- `findMinPassStride` of proc.c: the least pass, and the rebasing of the passes before they overflow.
use hyu_3rd_1se.Prelude.{
  ==-refl, ==-of_ne, ℕ, suc, ◌+◌, ◌<◌, ◌≤◌, ◌≡◌, ◌≢◌, ◌⊎◌, inl, inr, refl, Bool, true, false, ◌&&◌,
  ltb, leb, if◌then◌else◌, for_range, for_range-carries, arith, Bool-cases, for_range-pointwise,
}
use hyu_3rd_1se.Proc.{Proc, Table, nproc, is_runnable, u32}
use hyu_3rd_1se.Kernel.{Kernel}
use hyu_3rd_1se.Stride.{scan_pass, rebase, find_min_pass_stride, pass_limit, sub32}

-- A process that stride scheduling may choose.
abbrev pub competes : Proc → Bool
competes p = is_runnable p.state && ltb 0 p.stride

-- What the first loop knows after the processes below `i`.
record Scanned (t : Table) (mlfq i : ℕ) (s : ℕ × Bool) : Type 0 where
  le_mlfq : s.0 ≤ mlfq
  le_pass : (j : ℕ) → j < i → competes (t j) ≡ true → s.0 ≤ (t j).pass
  attained : (s.0 ≡ mlfq) ⊎ ((j : ℕ) × (j < i) × (competes (t j) ≡ true) × (s.0 ≡ (t j).pass))
  no_overflow :
      s.1 ≡ false
      → (mlfq < pass_limit)
        × ((j : ℕ) → j < i → is_runnable (t j).state ≡ true → (t j).pass < pass_limit)

scan_pass-Scanned :
    (t : Table) (mlfq i : ℕ) (s : ℕ × Bool)
    → Scanned t mlfq i s
    → Scanned t mlfq (suc i) (scan_pass t i s)
unfolding scan_pass
scan_pass-Scanned t mlfq i (m, o) h = record {
  le_mlfq = ground (arith, h.le_mlfq);
  le_pass = λ j l c. ground (arith, h.le_pass j, h.le_mlfq);
  attained = elim (Bool-cases (competes (t i) && leb (t i).pass m)) [
    | inl e ↦ inr (i, omega arith, ground arith, ground arith)
    | inr e ↦ elim h.attained [
      | inl d ↦ inl (ground arith)
      | inr (j, l, c, d) ↦ inr (j, omega arith, c, ground arith)
    ]
  ];
  no_overflow = λ e. (
    ground (arith, h.no_overflow),
    λ j l c. let o_off : o ≡ false = ground arith in ground (arith, (h.no_overflow o_off).1 j),
  );
}

scanned :
    (t : Table) (mlfq : ℕ)
    → Scanned t mlfq nproc (for_range nproc 0 (scan_pass t) (mlfq, leb pass_limit mlfq))
scanned t mlfq =
    for_range-carries (Scanned t mlfq) (scan_pass t) (scan_pass-Scanned t mlfq) nproc 0 _ record {
      le_mlfq = omega arith;
      le_pass = λ j l c. absurd (omega arith);
      attained = inl refl;
      no_overflow = λ e. (ground arith, λ j l c. absurd (omega arith));
    }

-- `findMinPassStride` sets `minPass` to the least of the MLFQ's pass and the passes of the
-- RUNNABLE processes under stride scheduling: it is below all of them, and one of them.
pub find_min_pass_stride-least :
    (k : Kernel)
    → let m = (find_min_pass_stride k).min_pass in
      (m ≤ k.mlfq_pass)
      × ((j : ℕ) → j < nproc → competes (k.table j) ≡ true → m ≤ (k.table j).pass)
      × ((m ≡ k.mlfq_pass)
          ⊎ ((j : ℕ) × (j < nproc) × (competes (k.table j) ≡ true) × (m ≡ (k.table j).pass)))
unfolding find_min_pass_stride
find_min_pass_stride-least k =
    let s = scanned k.table k.mlfq_pass in
    elim (Bool-cases
      (for_range nproc 0 (scan_pass k.table) (k.mlfq_pass, leb pass_limit k.mlfq_pass)).1) [
        | inl e ↦ rw e (s.le_mlfq, s.le_pass, s.attained)
        | inr e ↦ rw e (s.le_mlfq, s.le_pass, s.attained)
      ]

-- What a process is like after the second loop.
abbrev rebased : ℕ → Proc → Proc
rebased m p =
    if is_runnable p.state && ltb 0 p.pass then record p { pass = u32 (sub32 p.pass m + 10) } else p

rebase_self : (u : Table) (m i : ℕ) → rebase m i u i ≡ rebased m (u i)
unfolding rebase
rebase_self u m i = elim (Bool-cases (is_runnable (u i).state && ltb 0 (u i).pass)) [
  | inl e ↦ rw (e, ==-refl i)
  | inr e ↦ rw e
]

rebase_ne : (u : Table) (m i j : ℕ) → i ≢ j → rebase m i u j ≡ u j
unfolding rebase
rebase_ne u m i j n = elim (Bool-cases (is_runnable (u i).state && ltb 0 (u i).pass)) [
  | inl e ↦ rw (e, ==-of_ne i j n)
  | inr e ↦ rw e
]

rebase-all :
    (t : Table) (m j : ℕ)
    → for_range nproc 0 (rebase m) t j ≡ (if ltb j nproc then rebased m (t j) else t j)
rebase-all t m j =
    for_range-pointwise (rebased m) (rebase m) (λ u i. rebase_self u m i)
      (λ u i l n. rebase_ne u m i l n) nproc t j

-- The passes that are not 0 keep their differences, and the pass of the MLFQ with them, whether or
-- not they are rebased: for two of them `findMinPassStride` changes both by the same amount. (All are
-- below 2^32 - 10, the sums that the code computes.)
pub find_min_pass_stride-differences :
    (k : Kernel) (i j : ℕ)
    → i < nproc
    → j < nproc
    → competes (k.table i) ≡ true
    → competes (k.table j) ≡ true
    → 0 < (k.table i).pass
    → 0 < (k.table j).pass
    → (k.table i).pass < 4294967286
    → (k.table j).pass < 4294967286
    → k.mlfq_pass < 4294967286
    → let k' = find_min_pass_stride k in
      ((k'.table i).pass + (k.table j).pass ≡ (k'.table j).pass + (k.table i).pass)
      × ((k'.table i).pass + k.mlfq_pass ≡ k'.mlfq_pass + (k.table i).pass)
unfolding find_min_pass_stride
find_min_pass_stride-differences k i j a b c d e f g h l =
    let s = scanned k.table k.mlfq_pass in
    let m = (for_range nproc 0 (scan_pass k.table) (k.mlfq_pass, leb pass_limit k.mlfq_pass)).0 in
    elim (Bool-cases
      (for_range nproc 0 (scan_pass k.table) (k.mlfq_pass, leb pass_limit k.mlfq_pass)).1) [
        | inl o ↦
            rw (o, rebase-all k.table m i, rebase-all k.table m j)
              (ground (arith, s.le_mlfq, s.le_pass i a c, s.le_pass j b d))
        | inr o ↦ rw o (omega arith, omega arith)
      ]

-- The pass of a process that is not RUNNABLE stays as it is.
pub find_min_pass_stride-not_runnable :
    (k : Kernel) (i : ℕ)
    → is_runnable (k.table i).state ≡ false
    → (find_min_pass_stride k).table i ≡ k.table i
unfolding find_min_pass_stride
find_min_pass_stride-not_runnable k i c =
    let m = (for_range nproc 0 (scan_pass k.table) (k.mlfq_pass, leb pass_limit k.mlfq_pass)).0 in
    elim (Bool-cases
      (for_range nproc 0 (scan_pass k.table) (k.mlfq_pass, leb pass_limit k.mlfq_pass)).1) [
        | inl o ↦ rw (o, rebase-all k.table m i) (ground arith)
        | inr o ↦ rw o
      ]
