-- ===== src/Mlfq.antt =====
-- OS/HW4/xv6-proj/mlfq.c and mlfq.h: the ring buffers of the multi-level feedback queue.
--
-- A queue is an array of 64 process pointers. An operation that stores into the process it moves
-- takes the process table and returns it beside the queue.
pub mod Ring
pub mod Rcount
pub mod Rotate
pub mod Boost
use hyu_3rd_1se.Prelude.{
  ℕ, zero, suc, ◌+◌, ◌%◌, ◌^◌, Bool, true, false, not, ◌&&◌, ◌||◌, Option, none, some, ltb, ◌==◌,
  if◌then◌else◌, update, Result, ok, fault, diverges, null_deref, out_of_bounds, ◌>>=◌,
}
use hyu_3rd_1se.Proc.{Proc, Table, u16, is_runnable, is_running, is_unused}

-- `struct Mlfq`. `r_count` holds the bits of a `short`.
pub record Mlfq : Type 0 where
  pub queue : ℕ → Option ℕ
  pub level : ℕ
  pub front : ℕ
  pub rear : ℕ
  pub count : ℕ
  pub r_count : ℕ
  pub time_quan : ℕ
  pub time_allot : ℕ

abbrev pub max_queue_size : ℕ
max_queue_size = 64

abbrev pub max_queue_num : ℕ
max_queue_num = 3

-- `n--` on 32 bits
abbrev pub dec32 : ℕ → ℕ
dec32 n = (n + 4294967295) % 2 ^ 32

-- `n--` on 16 bits
abbrev pub dec16 : ℕ → ℕ
dec16 n = (n + 65535) % 2 ^ 16

unfoldable pub init_mlfq : Mlfq → Mlfq
init_mlfq q = record q { front = 0; rear = 0; count = 0; r_count = 0; queue = λ _. none }

unfoldable pub is_empty : Mlfq → Bool
is_empty q = q.front == q.rear && q.count == 0

unfoldable pub is_full : Mlfq → Bool
is_full q = q.rear % max_queue_size == q.front && q.count == max_queue_size

-- The last component is true where the code returns 0, and false where it returns -1.
unfoldable pub enqueue : Table → Mlfq → ℕ → Table × Mlfq × Bool
unfolding is_full
enqueue t q item =
    if is_full q
    then (t, q, false)
    else if ltb 0 (t item).stride
    then (t, q, false)
    else let rear' = (q.rear + 1) % max_queue_size in
      (
        update t item (record (t item) { q_posi = q.level }),
        record q {
          rear = rear';
          queue = update q.queue rear' (some item);
          count = u16 (q.count + 1);
        },
        true,
      )

unfoldable pub peek_mlfq : Mlfq → Option ℕ
peek_mlfq q = q.queue ((q.front + 1) % max_queue_size)

unfoldable pub idx_peek_mlfq : Mlfq → ℕ → Option ℕ
idx_peek_mlfq q index = q.queue ((q.front + 1 + index) % max_queue_size)

abbrev pub runs : Proc → Bool
runs p = is_running p.state || is_runnable p.state

-- The loop of `checkRcount` at index `i`, with `r_count` so far. It ends at the first null pointer.
unfoldable pub count_runners : ℕ → Table → Mlfq → Option ℕ → ℕ → ℕ → Result ℕ
count_runners zero t q p i r = fault diverges
count_runners (suc fuel) t q none i r = ok r
count_runners (suc fuel) t q (some p) i r =
    count_runners fuel t q (idx_peek_mlfq q (i + 1)) (i + 1) (if runs (t p) then r else dec16 r)

-- `checkRcount` with so many rounds of its loop, and with as many as queues of up to 63 processes need.
unfoldable pub check_rcount_rounds : ℕ → Table → Mlfq → Result Mlfq
check_rcount_rounds scan t q =
    count_runners scan t q (peek_mlfq q) 0 q.count >>= λ r. ok (record q { r_count = r })

abbrev pub check_rcount : Table → Mlfq → Result Mlfq
check_rcount = check_rcount_rounds 65

-- The four lines that advance `front`, read the pointer there and erase it.
unfoldable pub take_front : Mlfq → Mlfq × Option ℕ
take_front q =
    let front' = (q.front + 1) % max_queue_size in
    (
      record q { front = front'; count = dec16 q.count; queue = update q.queue front' none },
      q.queue front',
    )

unfoldable pub normal_dequeue : Mlfq → Mlfq × Option ℕ
unfolding is_empty take_front
normal_dequeue q = if is_empty q then (q, none) else take_front q

abbrev pub same_proc : Proc → Proc → Bool
same_proc a b = a.pid == b.pid && a.tid == b.tid

-- The end of `dequeue`: in mode 1 a process that is not the wanted one goes to the rear, and
-- `again` is the recursive call.
unfoldable pub settle :
    (Table → Mlfq → Result (Table × Mlfq × Option ℕ))
    → ℕ
    → Table
    → ℕ
    → Mlfq
    → Option ℕ
    → Result (Table × Mlfq × Option ℕ)
settle again mode t p q none = if mode == 1 then fault null_deref else ok (t, q, none)
settle again mode t p q (some r) =
    if mode == 1 && not (same_proc (t r) (t p))
    then (let (t', q', _) = enqueue t q r in again t' q' >>= λ res. ok (res.0, res.1, some r))
    else ok (t, q, some r)

-- `dequeue` with `scan` rounds for each call of `checkRcount`, and `fuel` rounds of its own.
unfoldable pub dequeue_rounds : ℕ → ℕ → ℕ → Table → Mlfq → ℕ → Result (Table × Mlfq × Option ℕ)
dequeue_rounds scan zero mode t q p = fault diverges
dequeue_rounds scan (suc fuel) mode t q p =
    let again : Table → Mlfq → Result (Table × Mlfq × Option ℕ) =
      λ t' q'. dequeue_rounds scan fuel mode t' q' p in
    if is_empty q
    then ok (t, q, none)
    else check_rcount_rounds scan t q >>= λ q1.
        if q1.r_count == 0
        then ok (t, q1, none)
        else let (q2, r) = take_front q1 in settle again mode t p q2 r

abbrev pub dequeue : ℕ → ℕ → Table → Mlfq → ℕ → Result (Table × Mlfq × Option ℕ)
dequeue = dequeue_rounds 65

-- `qOfM`
abbrev pub Queues : Type 0
Queues = ℕ → Mlfq

-- `while(enqueue(&qOfM[h],p) == -1 && h < MAX_QUEUE_NUM) h++;` with `left` rounds until `h` is 3,
-- where the array ends.
unfoldable pub place : ℕ → ℕ → Table → Queues → ℕ → Result (Table × Queues)
place zero h t qs p = fault out_of_bounds
place (suc left) h t qs p =
    let (t', q', done) = enqueue t (qs h) p in
    let next = place left (h + 1) t qs p in if done then ok (t', update qs h q') else next

-- The inner loop of `boostMlfq` over queue `j`, with `left` for `qCount`. Its index stays 0.
unfoldable pub boost_queue : ℕ → ℕ → Table → Queues → ℕ → Result (Table × Queues)
boost_queue zero j t qs left = fault diverges
boost_queue (suc fuel) j t qs left = elim (idx_peek_mlfq (qs j) 0) [
  | none ↦ ok (t, qs)
  | some p ↦
      let skip = boost_queue fuel j t qs left in
      let moved : Result (Table × Queues) =
        place max_queue_num 0 t (update qs j (normal_dequeue (qs j)).0) p >>= λ r.
        boost_queue fuel j r.0 r.1 (dec32 left) in
      if left == 0 then ok (t, qs) else if is_unused (t p).state then skip else moved
]

unfoldable pub boost_mlfq : Table → Queues → Result (Table × Queues)
boost_mlfq t qs = boost_queue 65 1 t qs (qs 1).count >>= λ r. boost_queue 65 2 r.0 r.1 (r.1 2).count
