-- ===== src/Tests/Buffers.antt =====
-- bio.c at a cache of two buffers: one holds block 5 of disk 1 and is in use, the other is free.
use hyu_3rd_1se.Prelude.{
  ℕ, zero, suc, ◌+◌, ◌<◌, ◌≡◌, ◌≢◌, refl, true, false, [], ◌∷◌, ◌==◌, if◌then◌else◌, ok, arith, inl,
  ◌⊎◌, ==_iff, subst, ==-of_ne,
}
use hyu_3rd_1se.Disk.{Block, zeros}
use hyu_3rd_1se.Bcache.{Buf, Bcache, is_block, bread, bwrite, unlink, brelse}
use hyu_3rd_1se.Bcache.Find.{In}
use hyu_3rd_1se.Bcache.View.{IsBcache, Shows}
use hyu_3rd_1se.Bcache.Read.{BreadResult, bread-BreadResult}
use hyu_3rd_1se.Bcache.Write.{bwrite-Shows}
use hyu_3rd_1se.Bcache.Release.{brelse-Shows}

abbrev nines : Block
nines x = 9

abbrev block_5 : Buf
block_5 = record {
  dev = 1;
  blockno = 5;
  valid = true;
  dirty = false;
  locked = true;
  refcnt = 1;
  content = nines;
}

abbrev free_buf : Buf
free_buf = record {
  dev = 0;
  blockno = 0;
  valid = false;
  dirty = false;
  locked = false;
  refcnt = 0;
  content = zeros;
}

abbrev two_bufs : Bcache
two_bufs = record {
  bufs = λ i. if i == 0 then block_5 else free_buf;
  order = 0 ∷ 1 ∷ [];
  havedisk1 = true;
  disk = λ d b. if b == 5 then nines else zeros;
}

only_first : (i b : ℕ) → is_block 1 b (two_bufs.bufs i) ≡ true → i ≡ 0
only_first zero b p = refl
only_first (suc i) b p = absurd (ground (arith, p))

first_clean :
    (i b : ℕ)
    → is_block 1 b (two_bufs.bufs i) ≡ true
    → (two_bufs.bufs i).content ≡ two_bufs.disk 1 b
first_clean zero b p =
    let same : 5 ≡ b = (==_iff 5 b).0 (ground (arith, p)) in
    subst (λ u. nines ≡ two_bufs.disk 1 u) same refl
first_clean (suc i) b p = absurd (ground (arith, p))

none_dirty : (i : ℕ) → (two_bufs.bufs i).dirty ≡ false
none_dirty zero = refl
none_dirty (suc i) = rw (==-of_ne (suc i) 0 (λ e. absurd (omega (arith, e))))

two_bufs-IsBcache : IsBcache two_bufs 1
two_bufs-IsBcache = record {
  unique = λ i j b m n p q. omega (arith, only_first i b p, only_first j b q);
  clean = λ i b m p v o. first_clean i b p;
  dirty_valid = λ i m o. absurd (ground (arith, none_dirty i, o));
}

bread-BreadResult_example : BreadResult 1 7 two_bufs (bread two_bufs 1 7)
bread-BreadResult_example =
    bread-BreadResult two_bufs 1 7 two_bufs-IsBcache refl (omega arith) (omega arith)

bwrite-Shows_example :
    (s' : Bcache) × (bwrite two_bufs 0 ≡ ok s')
    × IsBcache s' 1
    × (s'.disk 1 5 ≡ nines)
    × Shows s' 1 5 nines
    × ((c : ℕ) (w : Block) → c ≢ 5 → Shows two_bufs 1 c w → Shows s' 1 c w)
bwrite-Shows_example =
    bwrite-Shows two_bufs 1 5 0 two_bufs-IsBcache (inl refl) refl refl refl (omega arith)
      (omega arith)

brelse-Shows_example :
    (s' : Bcache) × (brelse two_bufs 0 ≡ ok s')
    × IsBcache s' 1
    × ((s'.bufs 0).locked ≡ false)
    × ((s'.bufs 0).refcnt + 1 ≡ 1)
    × ((s'.order ≡ 0 ∷ unlink 0 two_bufs.order)
        ⊎ ((s'.order ≡ two_bufs.order) × 0 < (s'.bufs 0).refcnt))
    × ((j : ℕ) → (In j two_bufs.order → In j s'.order) × (In j s'.order → In j two_bufs.order))
    × ((c : ℕ) (w : Block)
        → (Shows two_bufs 1 c w → Shows s' 1 c w) × (Shows s' 1 c w → Shows two_bufs 1 c w))
brelse-Shows_example =
    brelse-Shows two_bufs 1 0 two_bufs-IsBcache (inl refl) refl (omega arith) (omega arith)
