-- ===== src/Log/Commit.antt =====
-- `commit` of log.c when the power fails on the way: a transaction happens whole or not at all.
use hyu_3rd_1se.Prelude.{
  ℕ, ◌+◌, ◌*◌, ◌<◌, ◌≤◌, ◌≡◌, refl, sym, ap, ◌∙◌, List, ◌==◌, arith, Bool-cases, inl, inr, ◌⊎◌, ltb,
  ==_iff,
}
use hyu_3rd_1se.Disk.{Block, word}
use hyu_3rd_1se.Log.{LogState, install_trans, write_log, write_head, commit}
use hyu_3rd_1se.Log.Write.{
  SameLog, SameLog-trans, Logged, Home-log, write_log-Logged, install_trans-Installed,
}
use hyu_3rd_1se.Log.Header.{Header, HeadWritten, write_head-HeadWritten}
use hyu_3rd_1se.Log.Recovery.{
  Before, Pending, Done, Fits, Home-start, cleared, Pending-Installed, boot, boots, boots-Outcome,
  last_boot,
}

-- A log that `write_head` has cleared and to which the blocks have room.
abbrev pub Ready : LogState → Type 0
Ready s = (word (s.disk s.start) 0 ≡ 0) × Fits s.start s.lh_n s.lh_block

Fits-SameLog :
    {s s' : LogState}
    → SameLog s s'
    → Fits s.start s.lh_n s.lh_block
    → Fits s'.start s'.lh_n s'.lh_block
Fits-SameLog m f = rw (m.start_same, m.n_same, m.heads_same) f

-- The blocks that are in the log after `write_log` and `write_head`.
head-Pending :
    (s s1 s2 : LogState)
    → Fits s.start s.lh_n s.lh_block
    → Logged s.lh_n s.lh_n s s1
    → HeadWritten s1 s2
    → 0 < s1.power
    → Pending s.start s.lh_n s.lh_block s.cache s.disk s2.disk
head-Pending s s1 s2 fits g u p =
    let a = g.same.start_same in
    let written : Header s1.lh_n s1.lh_block (s2.disk s1.start) = u.disk_start p in
    record {
      header = rw (a, g.same.n_same, g.same.heads_same) at written;
      logged = λ i l. u.disk_else (s.start + i + 1) (omega (arith, a)) ∙ g.written p i l;
      kept = λ b h f.
          u.disk_else b (λ e. Home-start s.lh_n s.start b h (e ∙ a))
          ∙ g.disk_else b (λ i l. Home-log s.lh_n s.start b i h l);
    }

-- The end of a commit for a log with its header: what is installed, and the cleared header.
install-Outcome :
    (s s1 s2 : LogState)
    → Fits s.start s.lh_n s.lh_block
    → Logged s.lh_n s.lh_n s s1
    → HeadWritten s1 s2
    → 0 < s1.power
    → let d = (write_head (record (install_trans s2) { lh_n = 0 })).disk in
      ((s2.power ≤ s.lh_n) × Pending s.start s.lh_n s.lh_block s.cache s.disk d)
      ⊎ Done s.start s.lh_n s.lh_block s.cache s.disk d
install-Outcome s s1 s2 fits g u p =
    let same = SameLog-trans g.same u.same in
    let fits2 = Fits-SameLog same fits in
    let within : (i : ℕ) → i < s2.lh_n → i < s.lh_n = λ i l. omega (arith, l, same.n_same) in
    let logged : (i : ℕ) → i < s2.lh_n → s2.cache (s2.start + i + 1) ≡ s.cache (s2.lh_block i) =
      λ i l.
        ap (λ x. s2.cache (x + i + 1)) same.start_same
        ∙ u.cache_else (s.start + i + 1) (omega (arith, g.same.start_same))
        ∙ g.cached i (within i l)
        ∙ ap (λ (h : ℕ → ℕ). s.cache (h i)) (sym same.heads_same) in
    let w = install_trans-Installed s.cache s2 fits2.homes logged in
    let s3 : LogState = record (install_trans s2) { lh_n = 0 } in
    let v = write_head-HeadWritten s3 (omega arith) (λ i l. absurd (omega arith)) in
    let hs : (i : ℕ) → i < s.lh_n → s2.lh_block i ≡ s.lh_block i =
      λ i l. ap (λ (h : ℕ → ℕ). h i) same.heads_same in
    let pend =
      Pending-Installed fits s2 (install_trans s2) same.start_same same.n_same hs w
        (head-Pending s s1 s2 fits g u p) in
    elim (cleared fits s3 (write_head s3) (w.same.start_same ∙ same.start_same) refl v
      (λ q i l.
        ap (install_trans s2).disk (sym (hs i l))
        ∙ w.written q i (omega (arith, l, same.n_same))
        ∙ ap s.cache (hs i l))
      pend) [ inl (q, d) ↦ inr d | inr (z, q) ↦ inl (omega (arith, w.power_falls, same.n_same), q) ]

-- Where the power fails before the header is written, the home blocks are as they were.
failed-Before :
    (s s1 s2 : LogState)
    → Ready s
    → Logged s.lh_n s.lh_n s s1
    → HeadWritten s1 s2
    → s1.power ≡ 0
    → Before s.start s.lh_n s.lh_block s.cache s.disk
        (write_head (record (install_trans s2) { lh_n = 0 })).disk
failed-Before s s1 s2 (clear, fits) g u z =
    let same = SameLog-trans g.same u.same in
    let fits2 = Fits-SameLog same fits in
    let f = u.failed z in
    let logged : (i : ℕ) → i < s2.lh_n → s2.cache (s2.start + i + 1) ≡ s.cache (s2.lh_block i) =
      λ i l.
        ap (λ x. s2.cache (x + i + 1)) same.start_same
        ∙ u.cache_else (s.start + i + 1) (omega (arith, g.same.start_same))
        ∙ g.cached i (omega (arith, l, same.n_same))
        ∙ ap (λ (h : ℕ → ℕ). s.cache (h i)) (sym same.heads_same) in
    let w = install_trans-Installed s.cache s2 fits2.homes logged in
    let s3 : LogState = record (install_trans s2) { lh_n = 0 } in
    let v = write_head-HeadWritten s3 (omega arith) (λ i l. absurd (omega arith)) in
    let off = w.failed (f.1) in
    let disk : (write_head s3).disk ≡ s1.disk = (v.failed (off.1)).0 ∙ off.0 ∙ f.0 in
    record {
      clear =
          rw disk (ap (λ (b : Block). word b 0) (g.disk_else s.start (λ i l. omega arith)) ∙ clear);
      kept = λ b h. rw disk (g.disk_else b (λ i l. Home-log s.lh_n s.start b i h l));
    }

-- `commit` is all or nothing: either the disk has every block of the transaction as the cache has it,
-- or the power has failed on the way, and then the log is empty or holds the whole transaction.
pub commit-Outcome :
    (s : LogState)
    → Ready s
    → let P = Pending s.start s.lh_n s.lh_block s.cache s.disk in
      ((s.power < 2 * s.lh_n + 2)
        × (Before s.start s.lh_n s.lh_block s.cache s.disk (commit s).disk ⊎ P (commit s).disk))
      ⊎ Done s.start s.lh_n s.lh_block s.cache s.disk (commit s).disk
unfolding commit
commit-Outcome s (clear, fits) = elim (Bool-cases (ltb 0 s.lh_n)) [
  | inr empty ↦
      let none_in : s.lh_n ≡ 0 = ground arith in
      inr (
        rw empty (record {
          clear = clear;
          installed = λ i l. absurd (omega (arith, l, none_in));
          kept = λ b h f. refl;
        }))
  | inl some_in ↦
      let s1 = write_log s in
      let g = write_log-Logged s fits.homes in
      let fits1 = Fits-SameLog g.same fits in
      let u = write_head-HeadWritten s1 fits1.small fits1.heads_small in
      rw some_in (elim (Bool-cases (s1.power == 0)) [
        | inl off ↦ inl (
          omega (arith, g.power_falls, (==_iff s1.power 0).0 off),
          inl (failed-Before s s1 (write_head s1) (clear, fits) g u ((==_iff s1.power 0).0 off)),
        )
        | inr on ↦ elim (install-Outcome s s1 (write_head s1) fits g u (ground arith)) [
          | inl (l, q) ↦ inl (omega (arith, l, g.power_falls, u.power_falls), inr q)
          | inr d ↦ inr d
        ]
      ])
]

-- A transaction survives every failure of the power. Where the power fails during `commit`, and
-- again and again during the recoveries, then after a last start with power enough the log is clear,
-- and either no home block has changed or every block of the transaction stands on the disk as the
-- cache had it, and no other home block has changed.
pub commit-boots :
    (s : LogState) (ps : List ℕ) (nlog p : ℕ)
    → Ready s
    → s.lh_n < p
    → let d = (boot s.start nlog p (boots s.start nlog ps (commit s))).disk in
      Before s.start s.lh_n s.lh_block s.cache s.disk d
      ⊎ Done s.start s.lh_n s.lh_block s.cache s.disk d
commit-boots s ps nlog p (clear, fits) l =
    last_boot s.cache s.disk fits nlog p (boots s.start nlog ps (commit s)) l (
      boots-Outcome s.cache s.disk fits nlog ps (commit s) (elim (commit-Outcome s (clear, fits)) [
        | inl (m, inl b) ↦ inl b
        | inl (m, inr q) ↦ inr (inl q)
        | inr d ↦ inr (inr d)
      ]))
