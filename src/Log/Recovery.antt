-- ===== src/Log/Recovery.antt =====
-- The recovery of log.c, wherever the power fails.
use hyu_3rd_1se.Prelude.{
  ℕ, ◌+◌, ◌<◌, ◌≤◌, ◌≡◌, ◌≢◌, refl, sym, ap, ◌∙◌, List, [], ◌∷◌, ◌==◌, arith, Bool-cases, inl, inr,
  ◌⊎◌, subst,
}
use hyu_3rd_1se.Disk.{Block, word}
use hyu_3rd_1se.Log.{
  LogState, install_trans, read_head, write_head, recover_from_log, initlog, reboot,
}
use hyu_3rd_1se.Log.Write.{Home, Home-log, Installed, install_trans-Installed}
use hyu_3rd_1se.Log.Header.{Header, HeadWritten, read_heads-Header, write_head-HeadWritten}

-- The machine starts again with this much power, and reads the fields of the super block.
abbrev pub boot : ℕ → ℕ → ℕ → LogState → LogState
boot start nlog power s = initlog (reboot power s) start nlog

abbrev fresh : ℕ → ℕ → ℕ → LogState → LogState
fresh start nlog p s = record (reboot p s) { start = start; size = nlog }

-- It starts again and again, and the power fails each time.
unfoldable pub boots : ℕ → ℕ → List ℕ → LogState → LogState
boots start nlog [] s = s
boots start nlog (p ∷ ps) s = boots start nlog ps (boot start nlog p s)

-- A log at `start` with `n` blocks for the blocks `heads`, which get the contents `new`; `old` is the
-- disk before.
module _ (start n : ℕ) (heads : ℕ → ℕ) (new old : ℕ → Block) where
  -- The transaction has not happened.
  pub record Before (d : ℕ → Block) : Type 0 where
    pub clear : word (d start) 0 ≡ 0
    pub kept : (b : ℕ) → Home n start b → d b ≡ old b

  -- The log has it, and any part of the home blocks.
  pub record Pending (d : ℕ → Block) : Type 0 where
    pub header : Header n heads (d start)
    pub logged : (i : ℕ) → i < n → d (start + i + 1) ≡ new (heads i)
    pub kept : (b : ℕ) → Home n start b → ((i : ℕ) → i < n → heads i ≢ b) → d b ≡ old b

  -- It has happened.
  pub record Done (d : ℕ → Block) : Type 0 where
    pub clear : word (d start) 0 ≡ 0
    pub installed : (i : ℕ) → i < n → d (heads i) ≡ new (heads i)
    pub kept : (b : ℕ) → Home n start b → ((i : ℕ) → i < n → heads i ≢ b) → d b ≡ old b

  -- What the disk can hold after a commit and failures of the power.
  abbrev pub Outcome : (ℕ → Block) → Type 0
  Outcome d = Before d ⊎ Pending d ⊎ Done d

-- The blocks of the transaction are home blocks, and the numbers fit into words.
pub record Fits (start n : ℕ) (heads : ℕ → ℕ) : Type 0 where
  pub small : n < 4294967296
  pub heads_small : (i : ℕ) → i < n → heads i < 4294967296
  pub homes : (i : ℕ) → i < n → Home n start (heads i)

pub Home-start : (n start b : ℕ) → Home n start b → b ≢ start
Home-start n start b h e = h 0 (omega arith) (omega (arith, e))

module _ {start n : ℕ} {heads : ℕ → ℕ} {new old : ℕ → Block} (fits : Fits start n heads) where
  -- The end of an installation: the header is cleared, or the power has failed.
  pub cleared :
      (s s' : LogState)
      → s.start ≡ start
      → s.lh_n ≡ 0
      → HeadWritten s s'
      → ((0 < s.power) → (i : ℕ) → i < n → s.disk (heads i) ≡ new (heads i))
      → Pending start n heads new old s.disk
      → ((0 < s.power) × Done start n heads new old s'.disk)
        ⊎ ((s.power ≡ 0) × Pending start n heads new old s'.disk)
  cleared s s' a z w inst pend = elim (Bool-cases (s.power == 0)) [
    | inl off ↦ let f = w.failed (ground arith) in inr (ground arith, rw (f.0) pend)
    | inr on ↦
        let p : 0 < s.power = ground arith in
        let away =
          λ (b : ℕ) (h : Home n start b). w.disk_else b (λ e. Home-start n start b h (e ∙ a)) in
        inl (
          p,
          record {
            clear = subst (λ x. word (s'.disk x) 0 ≡ 0) a ((w.disk_start p).count_at ∙ z);
            installed = λ i l. away (heads i) (fits.homes i l) ∙ inst p i l;
            kept = λ b h f. away b h ∙ pend.kept b h f;
          },
        )
  ]

  -- What an installation keeps, wherever it stops.
  pub Pending-Installed :
      (s s' : LogState)
      → s.start ≡ start
      → s.lh_n ≡ n
      → ((i : ℕ) → i < n → s.lh_block i ≡ heads i)
      → Installed s.lh_n new s s'
      → Pending start n heads new old s.disk
      → Pending start n heads new old s'.disk
  Pending-Installed s s' a m hs w pend =
      let untouched : (b : ℕ) → ((i : ℕ) → i < n → heads i ≢ b) → s'.disk b ≡ s.disk b =
        λ b f. w.disk_else b (λ i l e. f i (omega arith) (sym (hs i (omega arith)) ∙ e)) in
      record {
        header =
            rw (untouched start (λ i l e. Home-start n start (heads i) (fits.homes i l) e))
              pend.header;
        logged = λ i l.
            untouched (start + i + 1) (λ j k. Home-log n start (heads j) i (fits.homes j k) l)
            ∙ pend.logged i l;
        kept = λ b h f. untouched b f ∙ pend.kept b h f;
      }

  pub recover-Before :
      (s : LogState)
      → s.start ≡ start
      → s.cache ≡ s.disk
      → Before start n heads new old s.disk
      → Before start n heads new old (recover_from_log s).disk
  unfolding recover_from_log read_head
  recover-Before s a c before =
      let r1 = read_head s in
      let none_in : r1.lh_n ≡ 0 =
        ap (λ (x : ℕ → Block). word (x s.start) 0) c
        ∙ ap (λ x. word (s.disk x) 0) a
        ∙ before.clear in
      let w =
        install_trans-Installed new r1 (λ i l. absurd (omega (arith, none_in)))
          (λ i l. absurd (omega (arith, none_in))) in
      let r3 : LogState = record (install_trans r1) { lh_n = 0 } in
      let u = write_head-HeadWritten r3 (omega arith) (λ i l. absurd (omega arith)) in
      let at : r3.start ≡ start = w.same.start_same ∙ a in
      let still : (b : ℕ) → r3.disk b ≡ s.disk b =
        λ b. w.disk_else b (λ i l. absurd (omega (arith, none_in))) in
      record {
        clear = elim (Bool-cases (r3.power == 0)) [
          | inl off ↦
              rw (u.failed (ground arith)).0
                (ap (λ (x : Block). word x 0) (still start) ∙ before.clear)
          | inr on ↦
              subst (λ x. word ((write_head r3).disk x) 0 ≡ 0) at
                (u.disk_start (ground arith)).count_at
        ];
        kept =
            λ b h. u.disk_else b (λ e. Home-start n start b h (e ∙ at)) ∙ still b ∙ before.kept b h;
      }

  -- Recovery carries a transaction out that is in the log, unless the power fails again.
  pub recover-Pending :
      (s : LogState)
      → s.start ≡ start
      → s.cache ≡ s.disk
      → Pending start n heads new old s.disk
      → ((s.power ≤ n) × Pending start n heads new old (recover_from_log s).disk)
        ⊎ Done start n heads new old (recover_from_log s).disk
  unfolding recover_from_log read_head
  recover-Pending s a c pend =
      let r1 = read_head s in
      let header : Header n heads (s.cache s.start) = rw (c, a) pend.header in
      let m : r1.lh_n ≡ n = header.count_at in
      let hs : (i : ℕ) → i < n → r1.lh_block i ≡ heads i =
        λ i l. rw m (read_heads-Header heads n (s.cache s.start) s.lh_block header i l) in
      let within : (i : ℕ) → i < r1.lh_n → i < n = λ i l. omega (arith, l, m) in
      let homes : (i : ℕ) → i < r1.lh_n → Home r1.lh_n r1.start (r1.lh_block i) = λ i l j k e.
        fits.homes i (within i l) j (omega (arith, k, m))
          (sym (hs i (within i l)) ∙ e ∙ ap (λ x. x + j) a) in
      let logged : (i : ℕ) → i < r1.lh_n → r1.cache (r1.start + i + 1) ≡ new (r1.lh_block i) =
        λ i l.
          ap (λ (x : ℕ → Block). x (s.start + i + 1)) c
          ∙ ap (λ x. s.disk (x + i + 1)) a
          ∙ pend.logged i (within i l)
          ∙ ap new (sym (hs i (within i l))) in
      let w = install_trans-Installed new r1 homes logged in
      let r2 = install_trans r1 in
      let r3 : LogState = record r2 { lh_n = 0 } in
      let u = write_head-HeadWritten r3 (omega arith) (λ i l. absurd (omega arith)) in
      let pend2 = Pending-Installed r1 r2 a m hs w pend in
      elim (cleared r3 (write_head r3) (w.same.start_same ∙ a) refl u
        (λ p i l. ap r2.disk (sym (hs i l)) ∙ w.written p i (omega (arith, l, m)) ∙ ap new (hs i l))
        pend2) [ inl (p, d) ↦ inr d | inr (z, q) ↦ inl (omega (arith, w.power_falls, m), q) ]

module _ {start n : ℕ} {heads : ℕ → ℕ} {new old : ℕ → Block} (fits : Fits start n heads) where
  pub recover-Done :
      (s : LogState)
      → s.start ≡ start
      → s.cache ≡ s.disk
      → Done start n heads new old s.disk
      → Done start n heads new old (recover_from_log s).disk
  recover-Done s a c done =
      let same =
        recover-Before {new = new} {old = s.disk} fits s a c
          (record { clear = done.clear; kept = λ b h. refl }) in
      record {
        clear = same.clear;
        installed = λ i l. same.kept (heads i) (fits.homes i l) ∙ done.installed i l;
        kept = λ b h f. same.kept b h ∙ done.kept b h f;
      }

module _ {start n : ℕ} {heads : ℕ → ℕ} (new old : ℕ → Block) (fits : Fits start n heads) where
  boot-Outcome :
      (nlog p : ℕ) (s : LogState)
      → Outcome start n heads new old s.disk
      → Outcome start n heads new old (boot start nlog p s).disk
  unfolding initlog
  boot-Outcome nlog p s o = elim o [
    | inl before ↦ inl (recover-Before fits (fresh start nlog p s) refl refl before)
    | inr (inl pend) ↦ elim (recover-Pending fits (fresh start nlog p s) refl refl pend) [
      | inl (l, q) ↦ inr (inl q)
      | inr d ↦ inr (inr d)
    ]
    | inr (inr done) ↦ inr (inr (recover-Done fits (fresh start nlog p s) refl refl done))
  ]

  pub boots-Outcome :
      (nlog : ℕ) (ps : List ℕ) (s : LogState)
      → Outcome start n heads new old s.disk
      → Outcome start n heads new old (boots start nlog ps s).disk
  unfolding boots
  boots-Outcome nlog [] s o = o
  boots-Outcome nlog (p ∷ ps) s o =
      boots-Outcome nlog ps (boot start nlog p s) (boot-Outcome nlog p s o)

  pub last_boot :
      (nlog p : ℕ) (s : LogState)
      → n < p
      → Outcome start n heads new old s.disk
      → Before start n heads new old (boot start nlog p s).disk
        ⊎ Done start n heads new old (boot start nlog p s).disk
  unfolding initlog
  last_boot nlog p s l o = elim o [
    | inl before ↦ inl (recover-Before fits (fresh start nlog p s) refl refl before)
    | inr (inl pend) ↦ elim (recover-Pending fits (fresh start nlog p s) refl refl pend) [
      | inl (m, q) ↦ absurd (omega arith)
      | inr d ↦ inr d
    ]
    | inr (inr done) ↦ inr (recover-Done fits (fresh start nlog p s) refl refl done)
  ]
