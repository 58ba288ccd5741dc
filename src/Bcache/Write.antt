-- ===== src/Bcache/Write.antt =====
-- `bwrite` and `brelse` of bio.c: what they leave in the cache.
use hyu_3rd_1se.Prelude.{
  equal_cases, ℕ, ◌%◌, ◌<◌, ltb, ◌≡◌, ◌≢◌, sym, ap, ◌∙◌, true, false, ok, arith, inl, inr, ==-refl,
  ==-of_ne, ==_iff, subst,
}
use hyu_3rd_1se.Disk.{Block}
use hyu_3rd_1se.Bcache.{Buf, Bcache, set_buf, has_disk, transfer, is_block, idestart, iderw, bwrite}
use hyu_3rd_1se.Bcache.Find.{In}
use hyu_3rd_1se.Bcache.View.{IsBcache, Shows, is_block-other}

-- The buffer `i` of the block `b` is written: the disk has its content, and it is valid.
pub record Written (s s' : Bcache) (d b i : ℕ) : Type 0 where
  pub order_same : s'.order ≡ s.order
  pub written : s'.bufs i ≡ record (s.bufs i) { dirty = false; valid = true }
  pub bufs_same : (k : ℕ) → k ≢ i → s'.bufs k ≡ s.bufs k
  pub on_disk : s'.disk d b ≡ (s.bufs i).content
  pub disk_same : (c : ℕ) → c ≢ b → s'.disk d c ≡ s.disk d c

bwrite_here :
    (s : Bcache) (d b i : ℕ)
    → is_block d b (s.bufs i) ≡ true
    → (s.bufs i).locked ≡ true
    → has_disk s d ≡ true
    → d < 2
    → b < 2000
    → (s' : Bcache) × (bwrite s i ≡ ok s') × Written s s' d b i
unfolding bwrite iderw idestart transfer
bwrite_here s d b i k l o dl bl =
    let dev : (s.bufs i).dev ≡ d = (==_iff (s.bufs i).dev d).0 (ground (arith, k)) in
    let block : (s.bufs i).blockno ≡ b = (==_iff (s.bufs i).blockno b).0 (ground (arith, k)) in
    let inside : ltb (s.bufs i).blockno 2000 ≡ true = ground (arith, block, bl) in
    let drive_of : (s.bufs i).dev % 2 ≡ d = omega (arith, dev, dl) in
    (
      transfer (set_buf s i (record (s.bufs i) { dirty = true })) i,
      simp (l, ==-refl i, inside, subst (λ u. has_disk s u ≡ true) (sym dev) o),
      record {
        order_same = simp (==-refl i);
        written = simp (==-refl i);
        bufs_same = λ k n. simp (==-refl i, ==-of_ne i k (λ e. n (sym e)));
        on_disk = simp (==-refl i, drive_of, block, ==-refl d, ==-refl b);
        disk_same =
            λ c n. simp (==-refl i, drive_of, block, ==-refl d, ==-of_ne b c (λ e. n (sym e)));
      },
    )

module _ (s s' : Bcache) (d b i : ℕ) (h : IsBcache s d) (m : In i s.order)
    (k : is_block d b (s.bufs i) ≡ true) (t : Written s s' d b i) where
  was : (j : ℕ) → In j s'.order → In j s.order
  was j a = subst (In j) t.order_same a

  now : (j : ℕ) → In j s.order → In j s'.order
  now j a = subst (In j) (sym t.order_same) a

  -- No buffer changes its block.
  same_block : (c j : ℕ) → is_block d c (s'.bufs j) ≡ is_block d c (s.bufs j)
  same_block c j = elim (equal_cases j i) [
    | inl e ↦
        subst (λ u. is_block d c (s'.bufs u) ≡ is_block d c (s.bufs u)) (sym e)
          (ap (is_block d c) t.written)
    | inr n ↦ ap (is_block d c) (t.bufs_same j n)
  ]

  still_block : (c j : ℕ) → is_block d c (s'.bufs j) ≡ true → is_block d c (s.bufs j) ≡ true
  still_block c j p = sym (same_block c j) ∙ p

  other : (c j : ℕ) → In j s.order → is_block d c (s.bufs j) ≡ true → c ≢ b → j ≢ i
  other c j a p n e =
      is_block-other d b c (s.bufs i) n k (subst (λ u. is_block d c (s.bufs u) ≡ true) e p)

  others_Shows : (c : ℕ) (w : Block) → c ≢ b → Shows s d c w → Shows s' d c w
  others_Shows c w n (inl (j, a, p, v, z)) =
      let kept = t.bufs_same j (other c j a p n) in
      inl (
        j,
        now j a,
        same_block c j ∙ p,
        ap (λ (u : Buf). u.valid) kept ∙ v,
        ap (λ (u : Buf). u.content) kept ∙ z,
      )
  others_Shows c w n (inr (f, z)) = inr (
    λ j a p.
        let q = still_block c j p in
        ap (λ (u : Buf). u.valid) (t.bufs_same j (other c j (was j a) q n)) ∙ f j (was j a) q,
    t.disk_same c n ∙ z,
  )

  Written-IsBcache : IsBcache s' d
  Written-IsBcache = record {
    unique =
        λ x y c a e p q. h.unique x y c (was x a) (was y e) (still_block c x p) (still_block c y q);
    clean = λ j c a p v o. elim (equal_cases c b) [
      | inl e ↦
          let same : j ≡ i =
            h.unique j i b (was j a) m
              (subst (λ u. is_block d u (s.bufs j) ≡ true) e (still_block c j p)) k in
          ap (λ u. (s'.bufs u).content) same
          ∙ ap (λ (u : Buf). u.content) t.written
          ∙ sym t.on_disk
          ∙ ap (s'.disk d) (sym e)
      | inr n ↦
          let q = still_block c j p in
          let kept = t.bufs_same j (other c j (was j a) q n) in
          ap (λ (u : Buf). u.content) kept
          ∙ h.clean j c (was j a) q (sym (ap (λ (u : Buf). u.valid) kept) ∙ v)
              (sym (ap (λ (u : Buf). u.dirty) kept) ∙ o)
          ∙ sym (t.disk_same c n)
    ];
    dirty_valid = λ j a o. elim (equal_cases j i) [
      | inl e ↦ subst (λ u. (s'.bufs u).valid ≡ true) (sym e) (ap (λ (u : Buf). u.valid) t.written)
      | inr n ↦
          let kept = t.bufs_same j n in
          ap (λ (u : Buf). u.valid) kept
          ∙ h.dirty_valid j (was j a) (sym (ap (λ (u : Buf). u.dirty) kept) ∙ o)
    ];
  }

-- `bwrite` of a locked buffer of one of the two disks, where the disk is there and the block is before the
-- end of the disk, puts its content on the disk, and the cache then shows it for the block of the buffer.
-- What it shows for every other block of this disk stays.
pub bwrite-Shows :
    (s : Bcache) (d b i : ℕ)
    → IsBcache s d
    → In i s.order
    → is_block d b (s.bufs i) ≡ true
    → (s.bufs i).locked ≡ true
    → has_disk s d ≡ true
    → d < 2
    → b < 2000
    → (s' : Bcache) × (bwrite s i ≡ ok s')
      × IsBcache s' d
      × (s'.disk d b ≡ (s.bufs i).content)
      × Shows s' d b (s.bufs i).content
      × ((c : ℕ) (w : Block) → c ≢ b → Shows s d c w → Shows s' d c w)
bwrite-Shows s d b i h m k l o dl bl =
    let (s', e, t) = bwrite_here s d b i k l o dl bl in
    (
      s',
      e,
      Written-IsBcache s s' d b i h m k t,
      t.on_disk,
      inl (
        i,
        now s s' d b i h m k t i m,
        same_block s s' d b i h m k t b i ∙ k,
        ap (λ (u : Buf). u.valid) t.written,
        ap (λ (u : Buf). u.content) t.written,
      ),
      others_Shows s s' d b i h m k t,
    )
