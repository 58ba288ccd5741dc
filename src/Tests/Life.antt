-- ===== src/Tests/Life.antt =====
-- The life of processes and threads in proc.c at a concrete system.
use hyu_3rd_1se.Prelude.{ℕ, ◌≡◌, ◌≢◌, refl, true, some, [], ◌∷◌, ok, arith, update}
use hyu_3rd_1se.Proc.{zombie, runnable}
use hyu_3rd_1se.Mlfq.Ring.{Holds}
use hyu_3rd_1se.Kernel.{Kernel}
use hyu_3rd_1se.Ptable.{fork}
use hyu_3rd_1se.Ptable.Setting.{Env}
use hyu_3rd_1se.Ptable.Fork.{fork-lem}
use hyu_3rd_1se.Scenario.{procs, kernel, three-Holds}

-- Every request for memory is granted.
abbrev plenty : Env
plenty = record {
  others = λ k. k;
  closed = λ k. k;
  page = λ _. 4096;
  copied = λ _. true;
  room = λ _. true;
  shrunk = λ k p. 0;
}

-- 4 is a thread of 3 and runs.
abbrev threaded : Kernel
threaded = record kernel {
  table = update procs 4 (record (procs 4) { isthread = true; parent = some 3; sz = 8192 });
  proc = some 4;
}

fork-lem_example :
    (k' : Kernel) × (fork plenty kernel ≡ ok (k', some 8))
    × Holds (k'.qs 0) (5 ∷ 4 ∷ 3 ∷ 0 ∷ [])
    × ((k'.table 0).state ≡ runnable)
    × ((k'.table 0).parent ≡ some 3)
    × ((k'.table 0).pid ≡ 8)
    × ((k'.table 0).sz ≡ 0)
    × ((j : ℕ) → j ≢ 0 → k'.table j ≡ kernel.table j)
fork-lem_example =
    fork-lem plenty kernel 3 0 (5 ∷ 4 ∷ 3 ∷ []) refl refl (omega arith) refl
      (λ j a b. absurd (omega arith)) (λ _. omega arith) (λ _. refl) refl
      (three-Holds 0 5 4 3 refl refl refl) (omega arith) (omega arith)

-- 5 is a child of 3 that has exited.
abbrev bereft : Kernel
bereft = record kernel { table = update procs 5 (record (procs 5) { state = zombie }) }
