-- ===== src/Mlfq/Boost.antt =====
-- `boostMlfq` of mlfq.c: every process goes back to the first queue.
use hyu_3rd_1se.Prelude.{
  sym, ==-of_ne, ==-refl, ==-zero_of_pos, ℕ, zero, suc, ◌+◌, ◌<◌, ◌≤◌, ◌≡◌, ◌≢◌, refl, ◌∙◌, false,
  none, some, List, [], ◌∷◌, ◌++◌, append-nil, append_assoc, arith, length, length-append, All,
  update, inl, ok, Result, subst,
}
use hyu_3rd_1se.Proc.{Table, is_unused}
use hyu_3rd_1se.Mlfq.{
  idx_peek_mlfq, Queues, enqueue, normal_dequeue, place, boost_queue, boost_mlfq, dec32,
}
use hyu_3rd_1se.Mlfq.Ring.{Holds, enqueue-Holds, normal_dequeue-Holds, idx_peek_mlfq-Holds}
use hyu_3rd_1se.Mlfq.Rotate.{SameButPosi, SameButPosi-trans}

-- In use, and not under stride scheduling.
abbrev pub Boostable : Table → List ℕ → Type 0
Boostable t = All (λ r. ((t r).stride ≡ 0) × (is_unused (t r).state ≡ false))

Boostable-SameButPosi :
    (l : ℕ) (t u : Table) (xs : List ℕ) → SameButPosi l u t → Boostable t xs → Boostable u xs
Boostable-SameButPosi l t u [] s b = tt
Boostable-SameButPosi l t u (x ∷ xs) s b =
    ((ground (arith, s x), ground (arith, s x)), Boostable-SameButPosi l t u xs s b.1)

place-Holds :
    (left : ℕ) (t : Table) (qs : Queues) (xs : List ℕ) (p : ℕ)
    → Holds (qs 0) xs
    → length xs < 64
    → (t p).stride ≡ 0
    → let e = enqueue t (qs 0) p in
      (place (suc left) 0 t qs p ≡ ok (e.0, update qs 0 e.1))
      × Holds e.1 (xs ++ (p ∷ []))
      × SameButPosi (qs 0).level e.0 t
      × (e.1.level ≡ (qs 0).level)
unfolding place
place-Holds left t qs xs p h l s =
    let c = enqueue-Holds t xs p h l s in (rw (c.0), c.1, λ r. ground (arith, c.2), c.3)

boost_queue_end :
    (fuel j : ℕ) (t : Table) (qs : Queues) (left : ℕ)
    → idx_peek_mlfq (qs j) 0 ≡ none
    → boost_queue (suc fuel) j t qs left ≡ ok (t, qs)
unfolding boost_queue
boost_queue_end fuel j t qs left e = rw (e, boost_queue)

boost_queue_round :
    (fuel j : ℕ) (t u : Table) (qs vs : Queues) (left p : ℕ)
    → idx_peek_mlfq (qs j) 0 ≡ some p
    → 0 < left
    → is_unused (t p).state ≡ false
    → place 3 0 t (update qs j (normal_dequeue (qs j)).0) p ≡ ok (u, vs)
    → boost_queue (suc fuel) j t qs left ≡ boost_queue fuel j u vs (dec32 left)
unfolding boost_queue
boost_queue_round fuel j t u qs vs left p e l s m =
    rw (e, boost_queue) (rw (==-zero_of_pos left l, s, m))

-- The queues hold the lists, and those but 0 and `j` are the ones given.
record Moved (j : ℕ) (t : Table) (qs : Queues) (xs : List ℕ) (res : Result (Table × Queues))
    : Type 0 where
  table : Table
  queues : Queues
  returns : res ≡ ok (table, queues)
  first : Holds (queues 0) xs
  emptied : Holds (queues j) []
  same_table : SameButPosi (qs 0).level table t
  same_level : (queues 0).level ≡ (qs 0).level
  others : (k : ℕ) → k ≢ 0 → k ≢ j → queues k ≡ qs k

boost_queue-Moved :
    (fuel j : ℕ) (t : Table) (qs : Queues) (xs ys : List ℕ) (left : ℕ)
    → j ≢ 0
    → Holds (qs 0) xs
    → Holds (qs j) ys
    → length xs + length ys ≤ 64
    → left ≡ length ys
    → length ys < fuel
    → Boostable t ys
    → Moved j t qs (xs ++ ys) (boost_queue fuel j t qs left)
boost_queue-Moved zero j t qs xs ys left n h k l e f b = absurd (omega arith)
boost_queue-Moved (suc fuel) j t qs xs [] left n h k l e f b = record {
  table = t;
  queues = qs;
  returns = boost_queue_end fuel j t qs left (idx_peek_mlfq-Holds 0 k (omega arith));
  first = rw append-nil h;
  emptied = k;
  same_table = λ r. (refl, inl refl);
  same_level = refl;
  others = λ i a c. refl;
}
boost_queue-Moved (suc fuel) j t qs xs (y ∷ ys) left n h k l e f b =
    let (_, k1, _) = normal_dequeue-Holds y ys k in
    let qs1 : Queues = update qs j (normal_dequeue (qs j)).0 in
    let (p, h2, s1, v1) = place-Holds 2 t qs1 xs y (rw (==-of_ne j 0 n) h) (omega arith) b.0.0 in
    let t2 = (enqueue t (qs1 0) y).0 in
    let v0 : (qs1 0).level ≡ (qs 0).level = rw (==-of_ne j 0 n) in
    let s2 : SameButPosi (qs 0).level t2 t = subst (λ l. SameButPosi l t2 t) v0 s1 in
    let qs2 : Queues = update qs1 0 (enqueue t (qs1 0) y).1 in
    let ih =
      boost_queue-Moved fuel j t2 qs2 (xs ++ (y ∷ [])) ys (dec32 left) n h2
        (rw (==-of_ne 0 j (λ z. n (sym z)), ==-refl j) k1)
        (omega (arith, length-append xs (y ∷ []))) (omega arith) (omega arith)
        (Boostable-SameButPosi (qs 0).level t t2 ys s2 b.1) in
    record {
      table = ih.table;
      queues = ih.queues;
      returns =
          boost_queue_round fuel j t t2 qs qs2 left y (idx_peek_mlfq-Holds 0 k (omega arith))
            (omega arith) b.0.1 p
          ∙ ih.returns;
      first = rw (← append_assoc xs (y ∷ []) ys) ih.first;
      emptied = ih.emptied;
      same_table =
          SameButPosi-trans (qs 0).level ih.table t2 t
            (subst (λ l. SameButPosi l ih.table t2) (v1 ∙ v0) ih.same_table) s2;
      same_level = ih.same_level ∙ v1 ∙ v0;
      others = λ i a c.
          ih.others i a c ∙ rw (==-of_ne 0 i (λ z. a (sym z)), ==-of_ne j i (λ z. c (sym z)));
    }

-- When no process of the lower two queues is unused or under stride scheduling, and all of them fit
-- into one queue, `boostMlfq` ends with the first queue holding every process: its own first, then
-- those of the second queue, then those of the third, each in their order. The lower queues are
-- empty. Of the process table no more than `qPosi` changes, to the level of the first queue.
pub boost_mlfq-lem :
    (t : Table) (qs : Queues) (xs ys zs : List ℕ)
    → Holds (qs 0) xs
    → Holds (qs 1) ys
    → Holds (qs 2) zs
    → length xs + length ys + length zs ≤ 64
    → Boostable t ys
    → Boostable t zs
    → (t' : Table) × (qs' : Queues) × (boost_mlfq t qs ≡ ok (t', qs'))
      × Holds (qs' 0) (xs ++ (ys ++ zs))
      × Holds (qs' 1) []
      × Holds (qs' 2) []
      × SameButPosi (qs 0).level t' t
unfolding boost_mlfq
boost_mlfq-lem t qs xs ys zs h k m l b c =
    let one =
      boost_queue-Moved 65 1 t qs xs ys (qs 1).count (omega arith) h k (omega arith) k.counted
        (omega arith) b in
    let kept2 : one.queues 2 ≡ qs 2 = one.others 2 (omega arith) (omega arith) in
    let m2 : Holds (one.queues 2) zs = rw kept2 m in
    let two =
      boost_queue-Moved 65 2 one.table one.queues (xs ++ ys) zs (one.queues 2).count (omega arith)
        one.first m2 (omega (arith, length-append xs ys)) m2.counted (omega arith)
        (Boostable-SameButPosi (qs 0).level t one.table zs one.same_table c) in
    let kept1 : two.queues 1 ≡ one.queues 1 = two.others 1 (omega arith) (omega arith) in
    (
      two.table,
      two.queues,
      rw (one.returns) two.returns,
      rw (← append_assoc xs ys zs) two.first,
      rw kept1 one.emptied,
      two.emptied,
      SameButPosi-trans (qs 0).level two.table one.table t
          (subst (λ l. SameButPosi l two.table one.table) one.same_level two.same_table)
          one.same_table,
    )
