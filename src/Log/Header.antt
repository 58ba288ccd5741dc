-- ===== src/Log/Header.antt =====
-- The header of the log on the disk.
use hyu_3rd_1se.Prelude.{
  ℕ, suc, ◌-◌, ◌<◌, ◌≡◌, ◌≢◌, refl, sym, ◌∙◌, true, false, ◌==◌, update, arith, for_range-upto,
  Bool-cases, below_suc, inl, inr, ==-refl, ==-of_ne,
}
use hyu_3rd_1se.Disk.{Block, word, set_word}
use hyu_3rd_1se.Disk.Layout.{word-set_word, word-set_word_ne}
use hyu_3rd_1se.Log.{LogState, bwrite, read_heads, write_heads, write_head}
use hyu_3rd_1se.Log.Write.{SameLog}

-- The header as `write_head` leaves it.
pub record Header (n : ℕ) (heads : ℕ → ℕ) (b : Block) : Type 0 where
  pub count_at : word b 0 ≡ n
  pub heads_at : (i : ℕ) → i < n → word b (suc i) ≡ heads i

pub write_heads-Header :
    (heads : ℕ → ℕ) (n : ℕ) (b : Block)
    → n < 4294967296
    → ((i : ℕ) → i < n → heads i < 4294967296)
    → Header n heads (write_heads heads n (set_word b 0 n))
write_heads-Header heads n b l small =
    let (p, q) =
      for_range-upto
        (λ k (h : Block). (word h 0 ≡ n) × ((i : ℕ) → i < k → word h (suc i) ≡ heads i))
        (λ i h. set_word h (suc i) (heads i)) n
        (λ k h lt (c, hs). (
          word-set_word_ne h (suc k) (heads k) 0 (omega arith) ∙ c,
          λ i bd. elim (below_suc i k bd) [
            | inl e ↦ rw e (word-set_word h (suc k) (heads k) (small k lt))
            | inr b' ↦ word-set_word_ne h (suc k) (heads k) (suc i) (omega arith) ∙ hs i b'
          ],
        ))
        (set_word b 0 n) (word-set_word b 0 n l, λ i bd. absurd (omega arith)) in
    record { count_at = p; heads_at = q }

pub read_heads-Header :
    (heads : ℕ → ℕ) (n : ℕ) (b : Block) (old : ℕ → ℕ)
    → Header n heads b
    → (i : ℕ) → i < n
    → read_heads b n old i ≡ heads i
read_heads-Header heads n b old h i l =
    for_range-upto (λ k (g : ℕ → ℕ). (j : ℕ) → j < k → g j ≡ word b (suc j))
      (λ j g. update g j (word b (suc j))) n
      (λ k g lt hs j bd. elim (below_suc j k bd) [
        | inl e ↦ rw (e, ==-refl k)
        | inr b' ↦ rw (==-of_ne k j (omega arith)) (hs j b')
      ])
      old (λ j bd. absurd (omega arith)) i l
    ∙ h.heads_at i l

-- `write_head` replaces the header on the disk, or nothing.
pub record HeadWritten (s s' : LogState) : Type 0 where
  pub disk_start : 0 < s.power → Header s.lh_n s.lh_block (s'.disk s.start)
  pub disk_else : (b : ℕ) → b ≢ s.start → s'.disk b ≡ s.disk b
  pub failed : s.power ≡ 0 → (s'.disk ≡ s.disk) × (s'.power ≡ 0)
  pub power_falls : s'.power ≡ s.power - 1
  pub cache_else : (b : ℕ) → b ≢ s.start → s'.cache b ≡ s.cache b
  pub same : SameLog s s'

pub write_head-HeadWritten :
    (s : LogState)
    → s.lh_n < 4294967296
    → ((i : ℕ) → i < s.lh_n → s.lh_block i < 4294967296)
    → HeadWritten s (write_head s)
unfolding write_head bwrite
write_head-HeadWritten s l small = record {
  disk_start = λ p.
      let on : (s.power == 0) ≡ false = ground arith in
      rw (on, ==-refl s.start) (write_heads-Header s.lh_block s.lh_n (s.cache s.start) l small);
  disk_else = λ b n. elim (Bool-cases (s.power == 0)) [
    | inl z ↦ simp z
    | inr z ↦ rw (z, ==-of_ne s.start b (λ e. n (sym e)))
  ];
  failed = λ p. let off : (s.power == 0) ≡ true = ground arith in (simp off, omega arith);
  power_falls = refl;
  cache_else = λ b n. rw (==-of_ne s.start b (λ e. n (sym e)));
  same = record { start_same = refl; n_same = refl; heads_same = refl };
}
