-- ===== src/Scenario.antt =====
-- A small system for the tests: four processes, and queues that hold some of them.
use hyu_3rd_1se.Prelude.{
  ℕ, ◌≡◌, refl, true, false, none, some, List, [], ◌∷◌, update, arith, zero, suc, ◌++◌, length,
  length-append, ◌≤◌,
}
use hyu_3rd_1se.Prelude.Int.{pos}
use hyu_3rd_1se.Proc.{Proc, Table, unused, sleeping, runnable, running}
use hyu_3rd_1se.Mlfq.{Mlfq, Queues, init_mlfq, enqueue}
use hyu_3rd_1se.Mlfq.Ring.{Holds, init_mlfq-Holds, enqueue-Holds}
use hyu_3rd_1se.Kernel.{Kernel}

abbrev pub blank : Proc
blank = record {
  sz = 0;
  kstack = 0;
  state = unused;
  pid = 0;
  parent = none;
  chan = 0;
  killed = false;
  q_posi = 0;
  stride = 0;
  pstride = 0;
  pass = 0;
  consumed_time = 0;
  isthread = false;
  num_of_thread = 0;
  retval = 0;
  tid = 0;
}

-- 3 runs, 4 and 6 could run, 5 sleeps, and 7 is under stride scheduling.
abbrev pub procs : Table
procs =
    update
      (update
        (update
          (update
            (update (λ _. blank) 3 (record blank { state = running; pid = 3; parent = some 0 })) 4
            (record blank { state = runnable; pid = 4; parent = some 3 }))
          5 (record blank { state = sleeping; pid = 5; chan = 9; parent = some 3 }))
        6 (record blank { state = runnable; pid = 6; q_posi = 1 }))
      7 (record blank { state = runnable; pid = 7; stride = 500; pass = 40 })

abbrev pub empty_queue : ℕ → Mlfq
empty_queue l = init_mlfq (record {
  queue = λ _. none;
  level = l;
  front = 0;
  rear = 0;
  count = 0;
  r_count = 0;
  time_quan = 1;
  time_allot = 5;
})

-- One process behind another.
abbrev pub one : ℕ → ℕ → Mlfq
one l a = (enqueue procs (empty_queue l) a).1

abbrev pub two : ℕ → ℕ → ℕ → Mlfq
two l a b = (enqueue procs (one l a) b).1

abbrev pub three : ℕ → ℕ → ℕ → ℕ → Mlfq
three l a b c = (enqueue procs (two l a b) c).1

pub one-Holds : (l a : ℕ) → (procs a).stride ≡ 0 → Holds (one l a) (a ∷ [])
one-Holds l a s = (enqueue-Holds procs [] a (init_mlfq-Holds _) (omega arith) s).1

pub two-Holds :
    (l a b : ℕ) → (procs a).stride ≡ 0 → (procs b).stride ≡ 0 → Holds (two l a b) (a ∷ b ∷ [])
two-Holds l a b s t = (enqueue-Holds procs (a ∷ []) b (one-Holds l a s) (omega arith) t).1

pub three-Holds :
    (l a b c : ℕ)
    → (procs a).stride ≡ 0
    → (procs b).stride ≡ 0
    → (procs c).stride ≡ 0
    → Holds (three l a b c) (a ∷ b ∷ c ∷ [])
three-Holds l a b c s t u =
    (enqueue-Holds procs (a ∷ b ∷ []) c (two-Holds l a b s t) (omega arith) u).1

abbrev pub queues : Queues
queues = update (update (update empty_queue 0 (three 0 5 4 3)) 1 (one 1 6)) 2 (empty_queue 2)

abbrev pub kernel : Kernel
kernel = record {
  table = procs;
  qs = queues;
  proc = some 3;
  initproc = some 1;
  nextpid = 8;
  nexttid = 1000;
  cur_q = 0;
  scheduler_mode = 1;
  mlfq_pass = 0;
  mlfq_stride = 500;
  mlfq_cpu_share = 20;
  mlfq_proc = none;
  yieldbytimer = false;
  cur_stride_por = pos 20;
  min_pass = 0;
  ticks = 7;
}

-- A queue of the processes 0 to n - 1, of which none is under stride scheduling.
unfoldable pub filled : ℕ → Mlfq
filled zero = empty_queue 0
filled (suc n) = (enqueue (λ _. blank) (filled n) n).1

unfoldable pub upto : ℕ → List ℕ
upto zero = []
upto (suc n) = upto n ++ (n ∷ [])

pub length-upto : (n : ℕ) → length (upto n) ≡ n
unfolding upto
length-upto zero = refl
length-upto (suc n) = omega (arith, length-append (upto n) (n ∷ []), length-upto n)

pub filled-Holds : (n : ℕ) → n ≤ 64 → Holds (filled n) (upto n)
unfolding filled upto
filled-Holds zero h = init_mlfq-Holds _
filled-Holds (suc n) h =
    (enqueue-Holds (λ _. blank) (upto n) n (filled-Holds n (omega arith))
      (omega (arith, length-upto n)) refl).1

pub three-level : (three 0 5 4 3).level ≡ 0
unfolding enqueue init_mlfq
three-level = refl

pub one-level : (one 1 6).level ≡ 1
unfolding enqueue init_mlfq
one-level = refl

-- 3 has used its time in the first queue.
abbrev pub tired : Kernel
tired = record kernel {
  table = update procs 3 (record (procs 3) { consumed_time = 10 });
  qs =
      update (update queues 0 (record (three 0 5 4 3) { time_allot = 5; time_quan = 1 })) 1
        (one 1 6);
}

pub tired-Holds : Holds (record (three 0 5 4 3) { time_allot = 5; time_quan = 1 }) (5 ∷ 4 ∷ 3 ∷ [])
tired-Holds =
    let h = three-Holds 0 5 4 3 refl refl refl in
    record {
      front_in = h.front_in;
      rear_at = h.rear_at;
      counted = h.counted;
      fits = h.fits;
      slots = h.slots;
    }

-- Both 7 and 8 are under stride scheduling; 9 is a thread of 8.
abbrev pub sharing : Kernel
sharing = record kernel {
  table =
      update
        (update procs 8 (record blank {
          state = runnable;
          pid = 8;
          stride = 500;
          pstride = 500;
          pass = 2147463700;
          num_of_thread = 1;
        }))
        9
        (record blank { state = runnable; pid = 8; tid = 1000; isthread = true; parent = some 8 });
  mlfq_pass = 60;
}
