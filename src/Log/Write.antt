-- ===== src/Log/Write.antt =====
-- What the loops of log.c do to the disk, wherever the power fails.
use hyu_3rd_1se.Prelude.{
  ℕ, suc, ◌+◌, ◌-◌, ◌<◌, ◌≤◌, ◌≡◌, ◌≢◌, refl, sym, ap, ◌∙◌, true, false, ◌==◌, arith,
  for_range-upto, Bool-cases, below_suc, inl, inr, ◌⊎◌, ==-refl, ==-of_ne,
}
use hyu_3rd_1se.Disk.{Block}
use hyu_3rd_1se.Log.{
  LogState, bwrite, copy_block, install_block, install_trans, write_log_block, write_log,
}

-- What no write changes.
pub record SameLog (s s' : LogState) : Type 0 where
  pub start_same : s'.start ≡ s.start
  pub n_same : s'.lh_n ≡ s.lh_n
  pub heads_same : s'.lh_block ≡ s.lh_block

-- One copy with a write: the block `to` on the disk is the block `from` of the cache, or still the old
-- one if the power has failed.
pub record Copied (to from : ℕ) (s s' : LogState) : Type 0 where
  pub same : SameLog s s'
  pub power_falls : s'.power ≡ s.power - 1
  pub cache_to : s'.cache to ≡ s.cache from
  pub cache_else : (b : ℕ) → b ≢ to → s'.cache b ≡ s.cache b
  pub disk_to : 0 < s.power → s'.disk to ≡ s.cache from
  pub disk_failed : s.power ≡ 0 → s'.disk ≡ s.disk
  pub disk_else : (b : ℕ) → b ≢ to → s'.disk b ≡ s.disk b

pub copy_block-Copied : (to from : ℕ) (s : LogState) → Copied to from s (copy_block to from s)
unfolding copy_block bwrite
copy_block-Copied to from s = record {
  same = record { start_same = refl; n_same = refl; heads_same = refl };
  power_falls = refl;
  cache_to = rw (==-refl to);
  cache_else = λ b n. rw (==-of_ne to b (λ e. n (sym e)));
  disk_to = λ p. let on : (s.power == 0) ≡ false = ground arith in rw (on, ==-refl to);
  disk_failed = λ p. let off : (s.power == 0) ≡ true = ground arith in simp off;
  disk_else = λ b n. elim (Bool-cases (s.power == 0)) [
    | inl z ↦ simp z
    | inr z ↦ rw (z, ==-of_ne to b (λ e. n (sym e)))
  ];
}

-- The first `k` of the blocks of `heads` are copied to the log.
pub record Logged (n k : ℕ) (s s' : LogState) : Type 0 where
  pub same : SameLog s s'
  pub power_falls : s.power ≤ s'.power + k
  pub cached : (i : ℕ) → i < k → s'.cache (s.start + i + 1) ≡ s.cache (s.lh_block i)
  pub written : 0 < s'.power → (i : ℕ) → i < k → s'.disk (s.start + i + 1) ≡ s.cache (s.lh_block i)
  pub cache_else : (b : ℕ) → ((i : ℕ) → i < n → b ≢ s.start + i + 1) → s'.cache b ≡ s.cache b
  pub disk_else : (b : ℕ) → ((i : ℕ) → i < n → b ≢ s.start + i + 1) → s'.disk b ≡ s.disk b

-- A block that stands outside the header and the `n` blocks of the log.
abbrev pub Home : ℕ → ℕ → ℕ → Type 0
Home n start b = (i : ℕ) → i ≤ n → b ≢ start + i

pub Home-log : (n start b i : ℕ) → Home n start b → i < n → b ≢ start + i + 1
Home-log n start b i h l e = h (suc i) (omega arith) (omega (arith, e))

write_log_block-Copied :
    (k to from : ℕ) (s : LogState)
    → to ≡ s.start + k + 1
    → from ≡ s.lh_block k
    → Copied to from s (write_log_block k s)
unfolding write_log_block
write_log_block-Copied k to from s e f = rw (e, f) (copy_block-Copied _ _ s)

pub SameLog-trans : {s s1 s2 : LogState} → SameLog s s1 → SameLog s1 s2 → SameLog s s2
SameLog-trans a b = record {
  start_same = b.start_same ∙ a.start_same;
  n_same = b.n_same ∙ a.n_same;
  heads_same = b.heads_same ∙ a.heads_same;
}

Logged-step :
    (n k : ℕ) (s s1 : LogState)
    → k < n
    → ((i : ℕ) → i < n → Home n s.start (s.lh_block i))
    → Logged n k s s1
    → Logged n (suc k) s (write_log_block k s1)
Logged-step n k s s1 l home g =
    let c =
      write_log_block-Copied k (s.start + k + 1) (s.lh_block k) s1
        (omega (arith, g.same.start_same)) (ap (λ (h : ℕ → ℕ). h k) (sym g.same.heads_same)) in
    let from = g.cache_else (s.lh_block k) (λ i. Home-log n s.start (s.lh_block k) i (home k l)) in
    record {
      same = SameLog-trans g.same c.same;
      power_falls = omega (arith, c.power_falls, g.power_falls);
      cached = λ i b. elim (below_suc i k b) [
        | inl e ↦ rw e (c.cache_to ∙ from)
        | inr b' ↦ c.cache_else (s.start + i + 1) (omega arith) ∙ g.cached i b'
      ];
      written = λ p i b.
          let p' : 0 < s1.power = omega (arith, c.power_falls) in
          elim (below_suc i k b) [
            | inl e ↦ rw e (c.disk_to p' ∙ from)
            | inr b' ↦ c.disk_else (s.start + i + 1) (omega arith) ∙ g.written p' i b'
          ];
      cache_else = λ b f. c.cache_else b (f k l) ∙ g.cache_else b f;
      disk_else = λ b f. c.disk_else b (f k l) ∙ g.disk_else b f;
    }

SameLog-refl : (s : LogState) → SameLog s s
SameLog-refl s = record { start_same = refl; n_same = refl; heads_same = refl }

pub write_log-Logged :
    (s : LogState)
    → ((i : ℕ) → i < s.lh_n → Home s.lh_n s.start (s.lh_block i))
    → Logged s.lh_n s.lh_n s (write_log s)
unfolding write_log
write_log-Logged s home =
    for_range-upto (λ k s1. Logged s.lh_n k s s1) write_log_block s.lh_n
      (λ k s1 l g. Logged-step s.lh_n k s s1 l home g) s
      (record {
        same = SameLog-refl s;
        power_falls = omega arith;
        cached = λ i b. absurd (omega arith);
        written = λ p i b. absurd (omega arith);
        cache_else = λ b f. refl;
        disk_else = λ b f. refl;
      })

-- The first `k` home blocks have the contents `v` that the log has for them; others keep theirs.
pub record Installed (k : ℕ) (v : ℕ → Block) (s s' : LogState) : Type 0 where
  pub same : SameLog s s'
  pub power_falls : s.power ≤ s'.power + k
  pub written : 0 < s'.power → (i : ℕ) → i < k → s'.disk (s.lh_block i) ≡ v (s.lh_block i)
  pub between : (b : ℕ) → (s'.disk b ≡ s.disk b) ⊎ (s'.disk b ≡ v b)
  pub cache_else : (b : ℕ) → ((i : ℕ) → i < s.lh_n → s.lh_block i ≢ b) → s'.cache b ≡ s.cache b
  pub disk_else : (b : ℕ) → ((i : ℕ) → i < s.lh_n → s.lh_block i ≢ b) → s'.disk b ≡ s.disk b
  pub failed : s.power ≡ 0 → (s'.disk ≡ s.disk) × (s'.power ≡ 0)

install_block-Copied :
    (k to from : ℕ) (s : LogState)
    → to ≡ s.lh_block k
    → from ≡ s.start + k + 1
    → Copied to from s (install_block k s)
unfolding install_block
install_block-Copied k to from s e f = rw (e, f) (copy_block-Copied _ _ s)

Installed-step :
    (k : ℕ) (v : ℕ → Block) (s s1 : LogState)
    → k < s.lh_n
    → ((i : ℕ) → i < s.lh_n → Home s.lh_n s.start (s.lh_block i))
    → ((i : ℕ) → i < s.lh_n → s.cache (s.start + i + 1) ≡ v (s.lh_block i))
    → Installed k v s s1
    → Installed (suc k) v s (install_block k s1)
Installed-step k v s s1 l home logged g =
    let c =
      install_block-Copied k (s.lh_block k) (s.start + k + 1) s1
        (ap (λ (h : ℕ → ℕ). h k) (sym g.same.heads_same)) (omega (arith, g.same.start_same)) in
    let from : s1.cache (s.start + k + 1) ≡ v (s.lh_block k) =
      g.cache_else (s.start + k + 1)
        (λ i b e. Home-log s.lh_n s.start (s.lh_block i) k (home i b) l e)
      ∙ logged k l in
    record {
      same = SameLog-trans g.same c.same;
      power_falls = omega (arith, c.power_falls, g.power_falls);
      written = λ p i b.
          let p' : 0 < s1.power = omega (arith, c.power_falls) in
          elim (Bool-cases (s.lh_block i == s.lh_block k)) [
            | inl e ↦
                let same : s.lh_block i ≡ s.lh_block k = ground arith in
                rw same (c.disk_to p' ∙ from)
            | inr e ↦ elim (below_suc i k b) [
              | inl e' ↦ absurd (ground arith)
              | inr b' ↦ c.disk_else (s.lh_block i) (ground arith) ∙ g.written p' i b'
            ]
          ];
      between = λ b. elim (Bool-cases (s1.power == 0)) [
        | inl z ↦ rw (c.disk_failed (ground arith)) (g.between b)
        | inr z ↦ elim (Bool-cases (b == s.lh_block k)) [
          | inl e ↦
              let same : b ≡ s.lh_block k = ground arith in
              inr (rw same (c.disk_to (ground arith) ∙ from))
          | inr e ↦ rw (c.disk_else b (ground arith)) (g.between b)
        ]
      ];
      cache_else = λ b f. c.cache_else b (λ e. f k l (sym e)) ∙ g.cache_else b f;
      disk_else = λ b f. c.disk_else b (λ e. f k l (sym e)) ∙ g.disk_else b f;
      failed = λ p. (
        c.disk_failed ((g.failed p).1) ∙ (g.failed p).0,
        omega (arith, c.power_falls, (g.failed p).1),
      );
    }

pub install_trans-Installed :
    (v : ℕ → Block) (s : LogState)
    → ((i : ℕ) → i < s.lh_n → Home s.lh_n s.start (s.lh_block i))
    → ((i : ℕ) → i < s.lh_n → s.cache (s.start + i + 1) ≡ v (s.lh_block i))
    → Installed s.lh_n v s (install_trans s)
unfolding install_trans
install_trans-Installed v s home logged =
    for_range-upto (λ k s1. Installed k v s s1) install_block s.lh_n
      (λ k s1 l g. Installed-step k v s s1 l home logged g) s
      (record {
        same = SameLog-refl s;
        power_falls = omega arith;
        written = λ p i b. absurd (omega arith);
        between = λ b. inl refl;
        cache_else = λ b f. refl;
        disk_else = λ b f. refl;
        failed = λ p. (refl, p);
      })
