-- ===== src/Tests/Logging.antt =====
-- log.c at a small log.
use hyu_3rd_1se.Prelude.{ℕ, ◌<◌, ◌≡◌, refl, false, ◌⊎◌, [], ◌∷◌, ◌==◌, if◌then◌else◌, ok, arith}
use hyu_3rd_1se.Disk.{zeros, word}
use hyu_3rd_1se.Log.{LogState, commit, log_write}
use hyu_3rd_1se.Log.Recovery.{Before, Done, boot, boots}
use hyu_3rd_1se.Log.Commit.{Ready, commit-boots}
use hyu_3rd_1se.Log.Absorb.{IsLog, Recorded, log_write-Recorded}
use hyu_3rd_1se.Scenario.{kernel}

-- Block 40 is in the transaction, and the power lasts for three writes.
abbrev small_log : LogState
small_log = record {
  disk = λ _. zeros;
  cache = λ b. if b == 40 then (λ _. 7) else zeros;
  dirty = λ b. b == 40;
  power = 3;
  start = 2;
  size = 31;
  outstanding = 1;
  committing = false;
  lh_n = 1;
  lh_block = λ _. 40;
  kernel = kernel;
  log_chan = 600;
}

small_log-Ready : Ready small_log
unfolding word
small_log-Ready = (
  refl,
  record {
    small = omega arith;
    heads_small = λ i l. omega arith;
    homes = λ i l j k e. omega arith;
  },
)

commit-boots_example :
    let d = (boot 2 31 5 (boots 2 31 (0 ∷ 1 ∷ []) (commit small_log))).disk in
    Before 2 1 (λ _. 40) small_log.cache small_log.disk d
    ⊎ Done 2 1 (λ _. 40) small_log.cache small_log.disk d
commit-boots_example = commit-boots small_log (0 ∷ 1 ∷ []) 31 5 small_log-Ready (omega arith)

small_log-IsLog : IsLog small_log
small_log-IsLog = record {
  fits = omega arith;
  on_disk = omega arith;
  distinct = λ i j a b e. omega arith;
}

log_write-Recorded_example :
    (s' : LogState) × (log_write small_log 41 ≡ ok s')
    × Recorded 41 small_log s'
    × ((i : ℕ) → i < 1 → small_log.lh_block i ≡ 41 → s'.lh_n ≡ 1)
log_write-Recorded_example =
    log_write-Recorded small_log 41 small_log-IsLog (omega arith) (omega arith) (omega arith)
