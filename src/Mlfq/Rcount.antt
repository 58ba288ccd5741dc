-- ===== src/Mlfq/Rcount.antt =====
-- `checkRcount` of mlfq.c: how many of the waiting processes could run.
use hyu_3rd_1se.Prelude.{
  ap, ◌∙◌, ℕ, zero, suc, ◌+◌, ◌-◌, ◌%◌, ◌<◌, ◌≤◌, ◌≡◌, refl, some, List, [], ◌∷◌, arith, length,
  get_elem?, if◌then◌else◌, Bool-cases, inl, inr, fault, ok, diverges, get_elem?-of_lt,
}
use hyu_3rd_1se.Proc.{Table}
use hyu_3rd_1se.Mlfq.{
  Mlfq, runs, dec16, peek_mlfq, idx_peek_mlfq, count_runners, check_rcount, check_rcount_rounds,
}
use hyu_3rd_1se.Mlfq.Ring.{Holds, peek_mlfq-Holds, idx_peek_mlfq-Holds}

-- The processes of the list that are RUNNING or RUNNABLE.
unfoldable pub runners : Table → List ℕ → ℕ
runners t [] = 0
runners t (x ∷ xs) = (if runs (t x) then 1 else 0) + runners t xs

pub runners-le : (t : Table) (xs : List ℕ) → runners t xs ≤ length xs
unfolding runners
runners-le t [] = omega arith
runners-le t (x ∷ xs) = ground (arith, runners-le t xs)

-- The rest `ys` of the list stands from index `i` on, and a null pointer behind it.
abbrev Rest : Mlfq → ℕ → List ℕ → Type 0
Rest q i ys = (j : ℕ) → j ≤ length ys → idx_peek_mlfq q (i + j) ≡ get_elem? ys j

Rest-suc : (q : Mlfq) (i y : ℕ) (ys : List ℕ) → Rest q i (y ∷ ys) → Rest q (i + 1) ys
Rest-suc q i y ys h j b =
    let e : i + 1 + j ≡ i + suc j = omega arith in rw e (h (suc j) (omega arith))

count_runners-lem :
    (fuel : ℕ) (t : Table) (q : Mlfq) (ys : List ℕ) (i r : ℕ)
    → length ys < fuel
    → length ys ≤ r
    → r < 65536
    → Rest q i ys
    → count_runners fuel t q (get_elem? ys 0) i r ≡ ok (r + runners t ys - length ys)
unfolding count_runners runners
count_runners-lem zero t q ys i r f l w h = absurd (omega arith)
count_runners-lem (suc fuel) t q [] i r f l w h = ground arith
count_runners-lem (suc fuel) t q (y ∷ ys) i r f l w h = elim (Bool-cases (runs (t y))) [
  | inl e ↦
      rw (e, next)
        (ground (arith, count_runners-lem fuel t q ys (i + 1) r (omega arith) (omega arith) w rest))
  | inr e ↦
      rw (e, next)
        (ground (
          arith,
          count_runners-lem fuel t q ys (i + 1) (dec16 r) (omega arith) (omega arith) (omega arith)
              rest,
        ))
]
  where
    rest : Rest q (i + 1) ys
    rest = Rest-suc q i y ys h

    next : idx_peek_mlfq q (i + 1) ≡ get_elem? ys 0
    next = h 1 (omega arith)

-- With at most 63 waiting processes `checkRcount` ends, stores the number of those that could run,
-- and changes nothing else.
pub check_rcount-lem :
    (t : Table) (q : Mlfq) (xs : List ℕ)
    → Holds q xs
    → length xs < 64
    → check_rcount t q ≡ ok (record q { r_count = runners t xs })
unfolding check_rcount_rounds
check_rcount-lem t q xs h l = rw (peek_mlfq-Holds h, all) (ground (arith, h.counted))
  where
    rest : Rest q 0 xs
    rest j b = let e : 0 + j ≡ j = omega arith in rw e (idx_peek_mlfq-Holds j h (omega arith))

    all : count_runners 65 t q (get_elem? xs 0) 0 q.count ≡ ok (q.count + runners t xs - length xs)
    all =
        count_runners-lem 65 t q xs 0 q.count (omega arith) (omega (arith, h.counted))
          (omega (arith, h.counted)) rest

-- In a full queue every pointer that the loop reads is set.
idx_peek_full :
    {q : Mlfq} (xs : List ℕ) (i : ℕ)
    → Holds q xs
    → length xs ≡ 64
    → (x : ℕ) × (idx_peek_mlfq q i ≡ some x)
unfolding idx_peek_mlfq
idx_peek_full {q} xs i h l =
    let (x, e) = get_elem?-of_lt xs (i % 64) (omega arith) in
    let same : (q.front + 1 + i) % 64 ≡ (q.front + 1 + i % 64) % 64 = omega arith in
    (x, ap q.queue same ∙ h.slots (i % 64) (omega arith) ∙ e)

-- The loop of `checkRcount` never ends on a full queue, however many rounds it is given.
pub count_runners_full :
    (fuel : ℕ) (t : Table) (q : Mlfq) (xs : List ℕ) (p i r : ℕ)
    → Holds q xs
    → length xs ≡ 64
    → count_runners fuel t q (some p) i r ≡ fault diverges
unfolding count_runners
count_runners_full zero t q xs p i r h l = refl
count_runners_full (suc fuel) t q xs p i r h l =
    let (x, e) = idx_peek_full xs (i + 1) h l in
    rw e (count_runners_full fuel t q xs x (i + 1) (if runs (t p) then r else dec16 r) h l)

pub count_runners_peek :
    (scan : ℕ) (t : Table) (q : Mlfq) (xs : List ℕ)
    → Holds q xs
    → length xs ≡ 64
    → count_runners scan t q (peek_mlfq q) 0 q.count ≡ fault diverges
count_runners_peek scan t q xs h l =
    let (x, e) = get_elem?-of_lt xs 0 (omega arith) in
    rw (peek_mlfq-Holds h, e) (count_runners_full scan t q xs x 0 q.count h l)

pub check_rcount_full :
    (scan : ℕ) (t : Table) (q : Mlfq) (xs : List ℕ)
    → Holds q xs
    → length xs ≡ 64
    → check_rcount_rounds scan t q ≡ fault diverges
unfolding check_rcount_rounds
check_rcount_full scan t q xs h l = rw (count_runners_peek scan t q xs h l)
