-- ===== src/Log/Absorb.antt =====
-- `log_write` and `begin_op`: a block stands in the log once, and the log has room for it.
use hyu_3rd_1se.Prelude.{
  ℕ, zero, suc, ◌+◌, ◌-◌, ◌<◌, ◌≤◌, ◌≡◌, ◌≢◌, sym, ap, ◌∙◌, true, false, ◌||◌, ◌==◌, if◌then◌else◌,
  update, arith, Bool-cases, below_suc, inl, inr, ◌⊎◌, ltb, leb, ok, ==-refl, ==_iff,
}
use hyu_3rd_1se.Log.{LogState, log_index, log_write}

-- The search ends at the block, or behind the last one.
pub record Search (heads : ℕ → ℕ) (b from to r : ℕ) : Type 0 where
  pub low : from ≤ r
  pub high : r ≤ to
  pub hit : r < to → heads r ≡ b
  pub missed : (j : ℕ) → from ≤ j → j < r → heads j ≢ b

log_index-Search :
    (rounds i : ℕ) (heads : ℕ → ℕ) (b : ℕ)
    → Search heads b i (i + rounds) (log_index rounds i heads b)
unfolding log_index
log_index-Search zero i heads b = record {
  low = omega arith;
  high = omega arith;
  hit = λ l. absurd (omega arith);
  missed = λ j a l. absurd (omega arith);
}
log_index-Search (suc rounds) i heads b = elim (Bool-cases (heads i == b)) [
  | inl e ↦ rw e (record {
    low = omega arith;
    high = omega arith;
    hit = λ l. (==_iff (heads i) b).0 e;
    missed = λ j a l. absurd (omega arith);
  })
  | inr e ↦
      let r = log_index-Search rounds (suc i) heads b in
      rw e (record {
        low = omega (arith, r.low);
        high = omega (arith, r.high);
        hit = λ l. r.hit (omega arith);
        missed = λ j a l. elim (Bool-cases (i == j)) [
          | inl s ↦ ground arith
          | inr s ↦ r.missed j (ground arith) l
        ];
      })
]

-- The log holds at most LOGSIZE blocks, fits on the disk, and has no block twice.
pub record IsLog (s : LogState) : Type 0 where
  pub fits : s.lh_n ≤ 30
  pub on_disk : s.lh_n ≤ s.size - 1
  pub distinct : (i j : ℕ) → i < s.lh_n → j < s.lh_n → s.lh_block i ≡ s.lh_block j → i ≡ j

-- What a call of `log_write` for the block `b` makes of the log.
pub record Recorded (b : ℕ) (s s' : LogState) : Type 0 where
  pub is_log : IsLog s'
  pub at : (i : ℕ) × (i < s'.lh_n) × (s'.lh_block i ≡ b)
  pub kept : (i : ℕ) → i < s.lh_n → s'.lh_block i ≡ s.lh_block i
  pub grows : s'.lh_n ≤ s.lh_n + 1
  pub only : (i : ℕ) → i < s'.lh_n → (s'.lh_block i ≡ b) ⊎ (i < s.lh_n)

written : LogState → ℕ → LogState
written s b =
    let i = log_index s.lh_n 0 s.lh_block b in
    record s {
      lh_block = update s.lh_block i b;
      lh_n = if i == s.lh_n then s.lh_n + 1 else s.lh_n;
      dirty = update s.dirty b true;
    }

-- The block is new, and goes to the end.
appended :
    (s : LogState) (b i : ℕ)
    → IsLog s
    → s.lh_n < 30
    → s.lh_n < s.size - 1
    → i ≡ s.lh_n
    → ((j : ℕ) → j < s.lh_n → update s.lh_block i b j ≡ s.lh_block j)
    → update s.lh_block i b s.lh_n ≡ b
    → ((j : ℕ) → j < s.lh_n → s.lh_block j ≢ b)
    → Recorded b s (record s {
      lh_block = update s.lh_block i b;
      lh_n = s.lh_n + 1;
      dirty = update s.dirty b true;
    })
appended s b i v l m new old last missed = record {
  is_log = record {
    fits = omega arith;
    on_disk = omega arith;
    distinct = λ j k a c f. elim (below_suc j s.lh_n (omega (arith, a))) [
      | inl x ↦ elim (below_suc k s.lh_n (omega (arith, c))) [
        | inl y ↦ x ∙ sym y
        | inr c' ↦
            absurd (missed k c' (sym (old k c') ∙ sym f ∙ ap (update s.lh_block i b) x ∙ last))
      ]
      | inr a' ↦ elim (below_suc k s.lh_n (omega (arith, c))) [
        | inl y ↦ absurd (missed j a' (sym (old j a') ∙ f ∙ ap (update s.lh_block i b) y ∙ last))
        | inr c' ↦ v.distinct j k a' c' (sym (old j a') ∙ f ∙ old k c')
      ]
    ];
  };
  at = (s.lh_n, omega arith, last);
  kept = old;
  grows = omega arith;
  only = λ j a. elim (below_suc j s.lh_n (omega (arith, a))) [
    | inl x ↦ inl (ap (update s.lh_block i b) x ∙ last)
    | inr a' ↦ inr a'
  ];
}

written-Recorded :
    (s : LogState) (b : ℕ)
    → IsLog s
    → s.lh_n < 30
    → s.lh_n < s.size - 1
    → Recorded b s (written s b)
unfolding written
written-Recorded s b v l m =
    let i = log_index s.lh_n 0 s.lh_block b in
    let r = log_index-Search s.lh_n 0 s.lh_block b in
    let top : i ≤ s.lh_n = omega (arith, r.high) in
    let old : (j : ℕ) → j < s.lh_n → update s.lh_block i b j ≡ s.lh_block j = λ j a.
      elim (Bool-cases (i == j)) [
        | inl e ↦
            let same : i ≡ j = (==_iff i j).0 e in
            rw e (sym (ap s.lh_block (sym same) ∙ r.hit (omega (arith, a))))
        | inr e ↦ rw e
      ] in
    elim (Bool-cases (i == s.lh_n)) [
      | inl e ↦
          let new : i ≡ s.lh_n = (==_iff i s.lh_n).0 e in
          let last : update s.lh_block i b s.lh_n ≡ b = rw e in
          rw e (
            appended s b i v l m new old last
              (λ j a. r.missed j (omega arith) (omega (arith, a, new))))
      | inr e ↦ rw e (record {
        is_log = record {
          fits = v.fits;
          on_disk = v.on_disk;
          distinct = λ j k a c f. v.distinct j k a c (sym (old j a) ∙ f ∙ old k c);
        };
        at = (i, ground arith, rw (==-refl i));
        kept = old;
        grows = omega arith;
        only = λ j a. inr a;
      })
    ]

-- `log_write` inside a transaction for which the log has room succeeds: the block is in the log, once,
-- the others stay where they were, and a log that had the block stays as long as it was.
pub log_write-Recorded :
    (s : LogState) (b : ℕ)
    → IsLog s
    → s.lh_n < 30
    → s.lh_n < s.size - 1
    → 0 < s.outstanding
    → (s' : LogState) × (log_write s b ≡ ok s')
      × Recorded b s s'
      × ((i : ℕ) → i < s.lh_n → s.lh_block i ≡ b → s'.lh_n ≡ s.lh_n)
unfolding log_write written
log_write-Recorded s b v l m o =
    let a : (leb 30 s.lh_n || leb (s.size - 1) s.lh_n) ≡ false = ground arith in
    let c : ltb s.outstanding 1 ≡ false = ground arith in
    let r = log_index-Search s.lh_n 0 s.lh_block b in
    (
      written s b,
      rw (a, c),
      written-Recorded s b v l m,
      λ i k e. elim (Bool-cases (log_index s.lh_n 0 s.lh_block b == s.lh_n)) [
        | inl f ↦ absurd (r.missed i (omega arith) (ground arith) e)
        | inr f ↦ rw f
      ],
    )
