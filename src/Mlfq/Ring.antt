-- ===== src/Mlfq/Ring.antt =====
-- The ring buffer of mlfq.c as the list of the processes that wait in it, oldest first.
use hyu_3rd_1se.Prelude.{
  ℕ, suc, ◌+◌, ◌%◌, ◌<◌, ◌≤◌, ◌≡◌, refl, true, false, none, some, List, [], ◌∷◌, ◌++◌, arith,
  length, get_elem?, length-append, get_elem?-of_ge, get_elem?-append_last, get_elem?-append_ne,
  ◌==◌, update, Bool-cases, inl, inr,
}
use hyu_3rd_1se.Proc.{Table}
use hyu_3rd_1se.Mlfq.{
  Mlfq, init_mlfq, is_empty, is_full, enqueue, take_front, normal_dequeue, peek_mlfq, idx_peek_mlfq,
}

-- The queue holds the processes of the list: the slots behind `front` have them in order, and all
-- others are null.
pub record Holds (q : Mlfq) (xs : List ℕ) : Type 0 where
  pub front_in : q.front < 64
  pub rear_at : q.rear ≡ (q.front + length xs) % 64
  pub counted : q.count ≡ length xs
  pub fits : length xs ≤ 64
  pub slots : (i : ℕ) → i < 64 → q.queue ((q.front + 1 + i) % 64) ≡ get_elem? xs i

pub init_mlfq-Holds : (q : Mlfq) → Holds (init_mlfq q) []
unfolding init_mlfq
init_mlfq-Holds q = record {
  front_in = omega arith;
  rear_at = refl;
  counted = refl;
  fits = omega arith;
  slots = λ i h. refl;
}

pub Holds-is_empty : {q : Mlfq} (x : ℕ) (xs : List ℕ) → Holds q (x ∷ xs) → is_empty q ≡ false
unfolding is_empty
Holds-is_empty x xs h = ground (arith, h.counted)

pub Holds-is_empty_nil : {q : Mlfq} → Holds q [] → is_empty q ≡ true
unfolding is_empty
Holds-is_empty_nil h = ground (arith, h.counted, h.rear_at)

pub Holds-is_full_lt : {q : Mlfq} {xs : List ℕ} → Holds q xs → length xs < 64 → is_full q ≡ false
unfolding is_full
Holds-is_full_lt h l = ground (arith, h.counted)

pub Holds-is_full : {q : Mlfq} {xs : List ℕ} → Holds q xs → length xs ≡ 64 → is_full q ≡ true
unfolding is_full
Holds-is_full h l = ground (arith, h.counted, h.rear_at, h.front_in)

slots-enqueue :
    {q : Mlfq} (xs : List ℕ) (x i : ℕ)
    → Holds q xs
    → length xs < 64
    → i < 64
    → update q.queue ((q.rear + 1) % 64) (some x) ((q.front + 1 + i) % 64)
      ≡ get_elem? (xs ++ (x ∷ [])) i
slots-enqueue {q} xs x i h l b = elim (Bool-cases (length xs == i)) [
  | inl e ↦ ground (arith, get_elem?-append_last xs x, h.rear_at)
  | inr e ↦ ground (arith, get_elem?-append_ne xs x i, h.rear_at, h.slots i b)
]

pub slots-take :
    {q : Mlfq} (x : ℕ) (xs : List ℕ) (i : ℕ)
    → Holds q (x ∷ xs)
    → i < 64
    → update q.queue ((q.front + 1) % 64) none (((q.front + 1) % 64 + 1 + i) % 64) ≡ get_elem? xs i
slots-take {q} x xs i h b = elim (Bool-cases (i == 63)) [
  | inl e ↦ ground (arith, get_elem?-of_ge xs i, h.fits)
  | inr e ↦ ground (arith, h.slots (suc i))
]

-- A process that takes part in no stride scheduling goes to the rear of a queue with room, and
-- learns its level.
pub enqueue-Holds :
    (t : Table) {q : Mlfq} (xs : List ℕ) (x : ℕ)
    → Holds q xs
    → length xs < 64
    → (t x).stride ≡ 0
    → let (t', q', done) = enqueue t q x in
      (done ≡ true)
      × Holds q' (xs ++ (x ∷ []))
      × (t' ≡ update t x (record (t x) { q_posi = q.level }))
      × (q'.level ≡ q.level)
unfolding enqueue
enqueue-Holds t {q} xs x h l s =
    rw (Holds-is_full_lt h l, s)
      (
        refl,
        record {
          front_in = h.front_in;
          rear_at = omega (arith, h.rear_at, length-append xs (x ∷ []));
          counted = omega (arith, h.counted, length-append xs (x ∷ []));
          fits = omega (arith, length-append xs (x ∷ []));
          slots = λ i b. slots-enqueue xs x i h l b;
        },
        refl,
        refl,
      )

-- A full queue, and a process under stride scheduling, are refused with nothing changed.
pub enqueue_full :
    (t : Table) {q : Mlfq} (xs : List ℕ) (x : ℕ)
    → Holds q xs
    → length xs ≡ 64
    → enqueue t q x ≡ (t, q, false)
unfolding enqueue
enqueue_full t xs x h l = rw (Holds-is_full h l)

pub enqueue_stride :
    (t : Table) (q : Mlfq) (x : ℕ) → 0 < (t x).stride → enqueue t q x ≡ (t, q, false)
unfolding enqueue
enqueue_stride t q x s = ground arith

pub take_front-Holds :
    {q : Mlfq} (x : ℕ) (xs : List ℕ)
    → Holds q (x ∷ xs)
    → let (q', r) = take_front q in (r ≡ some x) × Holds q' xs × (q'.level ≡ q.level)
unfolding take_front
take_front-Holds {q} x xs h = (
  ground (arith, h.slots 0),
  record {
    front_in = omega arith;
    rear_at = omega (arith, h.rear_at);
    counted = omega (arith, h.counted, h.fits);
    fits = omega (arith, h.fits);
    slots = λ i b. slots-take x xs i h b;
  },
  refl,
)

-- `normalDequeue` takes the oldest process out.
pub normal_dequeue-Holds :
    {q : Mlfq} (x : ℕ) (xs : List ℕ)
    → Holds q (x ∷ xs)
    → let (q', r) = normal_dequeue q in (r ≡ some x) × Holds q' xs × (q'.level ≡ q.level)
unfolding normal_dequeue
normal_dequeue-Holds x xs h = rw (Holds-is_empty x xs h) (take_front-Holds x xs h)

pub peek_mlfq-Holds : {q : Mlfq} {xs : List ℕ} → Holds q xs → peek_mlfq q ≡ get_elem? xs 0
unfolding peek_mlfq
peek_mlfq-Holds h = ground (arith, h.slots 0)

pub idx_peek_mlfq-Holds :
    {q : Mlfq} {xs : List ℕ} (i : ℕ) → Holds q xs → i < 64 → idx_peek_mlfq q i ≡ get_elem? xs i
unfolding idx_peek_mlfq
idx_peek_mlfq-Holds i h b = h.slots i b
