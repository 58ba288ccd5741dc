-- ===== src/Scheduler/Choice.antt =====
-- Which process of a queue `scheduler` of proc.c gives the processor to.
use hyu_3rd_1se.Prelude.{
  ℕ, suc, ◌+◌, ◌<◌, ◌≤◌, ◌≡◌, refl, sym, ◌∙◌, ap, true, false, none, some, List, [], ◌∷◌, ◌++◌,
  arith, length, get_elem?, update, ok, ==-refl, if◌then◌else◌, ltb, All, get_elem?-of_ge,
}
use hyu_3rd_1se.Proc.{Table, is_runnable}
use hyu_3rd_1se.Mlfq.{Mlfq, idx_peek_mlfq, peek_mlfq}
use hyu_3rd_1se.Mlfq.Ring.{Holds, idx_peek_mlfq-Holds, peek_mlfq-Holds}
use hyu_3rd_1se.Mlfq.Rcount.{runners, check_rcount-lem}
use hyu_3rd_1se.Kernel.{Kernel}
use hyu_3rd_1se.Scheduler.{check_rcounts, level_of, run_process, mlfq_loop}

-- No process of the list is RUNNABLE.
abbrev pub Asleep : Table → List ℕ → Type 0
Asleep t = All (λ r. is_runnable (t r).state ≡ false)

abbrev Behind : Mlfq → ℕ → List ℕ → Type 0
Behind q i ys = (j : ℕ) → j < length ys → idx_peek_mlfq q (i + j) ≡ get_elem? ys j

mlfq_loop_skip :
    (swtch : Kernel → Kernel) (fuel level : ℕ) (k : Kernel) (p i : ℕ)
    → level_of k.qs ≡ level
    → k.cur_q ≡ level
    → is_runnable (k.table p).state ≡ false
    → mlfq_loop swtch (suc fuel) level (some p) k i
      ≡ mlfq_loop swtch fuel level (idx_peek_mlfq (k.qs level) (i + 1)) k (i + 1)
unfolding mlfq_loop
mlfq_loop_skip swtch fuel level k p i e c a =
    simp (e, ==-refl level, a)
      (ap
        (λ z.
          mlfq_loop swtch fuel level (idx_peek_mlfq (k.qs level) (i + 1)) (record k { cur_q = z })
            (i + 1))
        (sym c))

mlfq_loop_run :
    (swtch : Kernel → Kernel) (fuel level : ℕ) (k : Kernel) (p i : ℕ)
    → level_of k.qs ≡ level
    → k.cur_q ≡ level
    → is_runnable (k.table p).state ≡ true
    → let k' = run_process swtch k p in
      mlfq_loop swtch (suc fuel) level (some p) k i
      ≡ mlfq_loop swtch fuel level (idx_peek_mlfq (k'.qs level) 0) k' 0
unfolding mlfq_loop
mlfq_loop_run swtch fuel level k p i e c a =
    simp (e, ==-refl level, a)
      (ap
        (λ z.
          let k' = run_process swtch (record k { cur_q = z }) p in
          mlfq_loop swtch fuel level (idx_peek_mlfq (k'.qs level) 0) k' 0)
        (sym c))

Behind-suc :
    (q : Mlfq) (i y z : ℕ) (ys : List ℕ) → Behind q i (y ∷ z ∷ ys) → Behind q (i + 1) (z ∷ ys)
Behind-suc q i y z ys h j b =
    let e : i + 1 + j ≡ i + suc j = omega arith in rw e (h (suc j) (omega arith))

-- The loop over a queue passes over the processes that are not RUNNABLE and switches to the first
-- that is.
mlfq_loop_skips :
    (swtch : Kernel → Kernel) (fuel level : ℕ) (k : Kernel) (p : ℕ) (pre post : List ℕ) (i n : ℕ)
    → n ≡ length pre + suc fuel
    → level_of k.qs ≡ level
    → k.cur_q ≡ level
    → Asleep k.table pre
    → is_runnable (k.table p).state ≡ true
    → Behind (k.qs level) i (pre ++ (p ∷ post))
    → let k' = run_process swtch k p in
      mlfq_loop swtch n level (get_elem? (pre ++ (p ∷ post)) 0) k i
      ≡ mlfq_loop swtch fuel level (idx_peek_mlfq (k'.qs level) 0) k' 0
mlfq_loop_skips swtch fuel level k p [] post i n m e c a r b =
    let m' : n ≡ suc fuel = omega arith in rw m' (mlfq_loop_run swtch fuel level k p i e c r)
mlfq_loop_skips swtch fuel level k p (x ∷ []) post i n m e c a r b =
    let m' : n ≡ suc (suc fuel) = omega arith in
    rw m' (
      mlfq_loop_skip swtch (suc fuel) level k x i e c a.0
      ∙ rw (b 1 (omega arith)) (mlfq_loop_run swtch fuel level k p (i + 1) e c r))
mlfq_loop_skips swtch fuel level k p (x ∷ y ∷ pre) post i n m e c a r b =
    let m' : n ≡ suc (length (y ∷ pre) + suc fuel) = omega arith in
    rw m' (
      mlfq_loop_skip swtch (length (y ∷ pre) + suc fuel) level k x i e c a.0
      ∙ rw (b 1 (omega arith)) (
          mlfq_loop_skips swtch fuel level k p (y ∷ pre) post (i + 1) (length (y ∷ pre) + suc fuel)
            refl e c a.1 r (Behind-suc (k.qs level) i x y (pre ++ (p ∷ post)) b)))

mlfq_loop_end :
    (swtch : Kernel → Kernel) (fuel level : ℕ) (k : Kernel) (i : ℕ)
    → mlfq_loop swtch (suc fuel) level none k i ≡ ok (k, i)
unfolding mlfq_loop
mlfq_loop_end swtch fuel level k i = refl

-- Started at index 0 on the queue that is to be served, the loop of `scheduler` over that queue
-- switches to its first RUNNABLE process, and goes on from index 0 with the kernel that comes back.
pub mlfq_loop_first :
    (swtch : Kernel → Kernel) (fuel level : ℕ) (k : Kernel) (p : ℕ) (pre post : List ℕ)
    → level_of k.qs ≡ level
    → k.cur_q ≡ level
    → Holds (k.qs level) (pre ++ (p ∷ post))
    → Asleep k.table pre
    → is_runnable (k.table p).state ≡ true
    → let k' = run_process swtch k p in
      mlfq_loop swtch (length pre + suc fuel) level (peek_mlfq (k.qs level)) k 0
      ≡ mlfq_loop swtch fuel level (idx_peek_mlfq (k'.qs level) 0) k' 0
mlfq_loop_first swtch fuel level k p pre post e c h a r = rw (peek_mlfq-Holds h) (
    mlfq_loop_skips swtch fuel level k p pre post 0 (length pre + suc fuel) refl e c a r (λ j b.
      let z : 0 + j ≡ j = omega arith in rw z (idx_peek_mlfq-Holds j h (omega (arith, h.fits)))))

-- The loop's index is not reset between two rounds of the scheduler: where it stands at the end of
-- the queue or behind it (but below 62), and the first process of the queue is not RUNNABLE, the loop
-- ends without switching to any process, also where a RUNNABLE one waits second or later.
pub mlfq_loop_stale_index :
    (swtch : Kernel → Kernel) (fuel level : ℕ) (k : Kernel) (x : ℕ) (xs : List ℕ) (i : ℕ)
    → level_of k.qs ≡ level
    → k.cur_q ≡ level
    → Holds (k.qs level) (x ∷ xs)
    → is_runnable (k.table x).state ≡ false
    → length xs ≤ i
    → i < 62
    → mlfq_loop swtch (suc (suc fuel)) level (peek_mlfq (k.qs level)) k i ≡ ok (k, i + 1)
mlfq_loop_stale_index swtch fuel level k x xs i e c h a l b = rw (peek_mlfq-Holds h) (
    mlfq_loop_skip swtch (suc fuel) level k x i e c a
    ∙ rw
        (
          idx_peek_mlfq-Holds (i + 1) h (omega arith),
          get_elem?-of_ge (x ∷ xs) (i + 1) (omega arith),
        )
        (mlfq_loop_end swtch fuel level k (i + 1)))

-- `checkRcount` on the three queues and the tests after it find the highest queue in which a process
-- could run. (The queues hold at most 63 processes each.)
pub check_rcounts-level_of :
    (k : Kernel) (xs ys zs : List ℕ)
    → Holds (k.qs 0) xs
    → Holds (k.qs 1) ys
    → Holds (k.qs 2) zs
    → length xs < 64
    → length ys < 64
    → length zs < 64
    → (k' : Kernel) × (check_rcounts k ≡ ok k')
      × (level_of k'.qs ≡ (
          if ltb 0 (runners k.table xs)
          then 0
          else if ltb 0 (runners k.table ys)
          then 1
          else if ltb 0 (runners k.table zs)
          then 2
          else 0))
unfolding check_rcounts level_of
check_rcounts-level_of k xs ys zs h0 h1 h2 l0 l1 l2 =
    let q0 : Mlfq = record (k.qs 0) { r_count = runners k.table xs } in
    let q1 : Mlfq = record (k.qs 1) { r_count = runners k.table ys } in
    let q2 : Mlfq = record (k.qs 2) { r_count = runners k.table zs } in
    (
      record k { qs = update (update (update k.qs 0 q0) 1 q1) 2 q2 },
      rw (
        check_rcount-lem k.table (k.qs 0) xs h0 l0,
        check_rcount-lem k.table (k.qs 1) ys h1 l1,
        check_rcount-lem k.table (k.qs 2) zs h2 l2,
      ),
      ground arith,
    )
