-- ===== src/Tests/Queues.antt =====
-- mlfq.c at concrete queues.
use hyu_3rd_1se.Prelude.{ℕ, ◌≡◌, refl, Option, none, [], ◌∷◌, ok, arith}
use hyu_3rd_1se.Proc.{Table}
use hyu_3rd_1se.Mlfq.{Mlfq, Queues, dequeue, boost_mlfq}
use hyu_3rd_1se.Mlfq.Ring.{Holds, init_mlfq-Holds}
use hyu_3rd_1se.Mlfq.Rcount.{runners}
use hyu_3rd_1se.Mlfq.Rotate.{SameButPosi, kept, dequeue-rotates, dequeue_no_runner}
use hyu_3rd_1se.Mlfq.Boost.{boost_mlfq-lem}
use hyu_3rd_1se.Scenario.{procs, one, three, one-Holds, three-Holds, queues}

two_runners : runners procs (5 ∷ 4 ∷ 3 ∷ []) ≡ 2
unfolding runners
two_runners = refl

dequeue-rotates_example :
    (t' : Table) × (q' : Mlfq) × (r : Option ℕ) × (dequeue 65 1 procs (three 0 5 4 3) 3
      ≡ ok (t', q', r))
    × Holds q' (kept procs (5 ∷ 4 ∷ []))
    × SameButPosi (three 0 5 4 3).level t' procs
    × (q'.level ≡ (three 0 5 4 3).level)
dequeue-rotates_example =
    dequeue-rotates 65 procs (three 0 5 4 3) 3 (5 ∷ 4 ∷ []) [] (three-Holds 0 5 4 3 refl refl refl)
      (omega arith) (refl, (refl, tt)) refl (omega arith)

both_kept : kept procs (5 ∷ 4 ∷ 7 ∷ []) ≡ 5 ∷ 4 ∷ []
unfolding kept
both_kept = refl

dequeue_no_runner_example :
    (q' : Mlfq) × (dequeue 65 0 procs (one 0 5) 5 ≡ ok (procs, q', none)) × Holds q' (5 ∷ [])
unfolding runners
dequeue_no_runner_example =
    dequeue_no_runner 65 0 procs (one 0 5) 5 (5 ∷ []) (one-Holds 0 5 refl) (omega arith) refl
      (omega arith)

boost_mlfq-lem_example :
    (t' : Table) × (qs' : Queues) × (boost_mlfq procs queues ≡ ok (t', qs'))
    × Holds (qs' 0) (5 ∷ 4 ∷ 3 ∷ 6 ∷ [])
    × Holds (qs' 1) []
    × Holds (qs' 2) []
    × SameButPosi (queues 0).level t' procs
boost_mlfq-lem_example =
    boost_mlfq-lem procs queues (5 ∷ 4 ∷ 3 ∷ []) (6 ∷ []) [] (three-Holds 0 5 4 3 refl refl refl)
      (one-Holds 1 6 refl) (init_mlfq-Holds _) (omega arith) ((refl, refl), tt) tt
