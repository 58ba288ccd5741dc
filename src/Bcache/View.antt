-- ===== src/Bcache/View.antt =====
-- The buffer cache of bio.c as the contents of the blocks that it shows.
use hyu_3rd_1se.Prelude.{
  equal_cases, ℕ, ◌≡◌, ◌≢◌, sym, ap, ◌∙◌, true, false, arith, inl, inr, ◌⊎◌, ==_iff, subst,
}
use hyu_3rd_1se.Disk.{Block}
use hyu_3rd_1se.Bcache.{Buf, Bcache, is_block}
use hyu_3rd_1se.Bcache.Find.{In}

-- The buffers of a device: a block has at most one, a valid buffer that is not dirty has what the disk
-- has, and a dirty buffer is valid.
pub record IsBcache (s : Bcache) (d : ℕ) : Type 0 where
  pub unique :
      (i j b : ℕ)
      → In i s.order
      → In j s.order
      → is_block d b (s.bufs i) ≡ true
      → is_block d b (s.bufs j) ≡ true
      → i ≡ j
  pub clean :
      (i b : ℕ)
      → In i s.order
      → is_block d b (s.bufs i) ≡ true
      → (s.bufs i).valid ≡ true
      → (s.bufs i).dirty ≡ false
      → (s.bufs i).content ≡ s.disk d b
  pub dirty_valid : (i : ℕ) → In i s.order → (s.bufs i).dirty ≡ true → (s.bufs i).valid ≡ true

-- The cache shows the contents `w` for the block: a valid buffer has it, or there is no valid buffer
-- and the disk has it.
abbrev pub Shows : Bcache → ℕ → ℕ → Block → Type 0
Shows s d b w =
    ((i : ℕ) × In i s.order
      × (is_block d b (s.bufs i) ≡ true)
      × ((s.bufs i).valid ≡ true)
      × ((s.bufs i).content ≡ w))
    ⊎ (((i : ℕ) → In i s.order → is_block d b (s.bufs i) ≡ true → (s.bufs i).valid ≡ false)
        × (s.disk d b ≡ w))

-- Only the buffer `i` differs.
pub record OneBuf (s s' : Bcache) (i : ℕ) : Type 0 where
  pub order_same : s'.order ≡ s.order
  pub disk_same : s'.disk ≡ s.disk
  pub bufs_same : (k : ℕ) → k ≢ i → s'.bufs k ≡ s.bufs k

-- The buffer `i` is now the valid buffer of the block `b`, with what the cache showed for it.
pub record Loaded (s s' : Bcache) (d b i : ℕ) : Type 0 where
  pub one : OneBuf s s' i
  pub member : In i s.order
  pub of_block : is_block d b (s'.bufs i) ≡ true
  pub loaded_valid : (s'.bufs i).valid ≡ true
  pub shown : (w : Block) → Shows s d b w → (s'.bufs i).content ≡ w
  pub loaded_clean : (s'.bufs i).dirty ≡ false → (s'.bufs i).content ≡ s.disk d b
  pub sole : (j : ℕ) → In j s.order → is_block d b (s.bufs j) ≡ true → j ≡ i
  pub evicted :
      (c : ℕ)
      → c ≢ b
      → is_block d c (s.bufs i) ≡ true
      → (s.bufs i).valid ≡ true
      → (s.bufs i).content ≡ s.disk d c

pub is_block-other :
    (d b c : ℕ) (x : Buf) → c ≢ b → is_block d b x ≡ true → is_block d c x ≡ true → ⊥
is_block-other d b c x n p q =
    n (
      sym ((==_iff x.blockno c).0 (ground (arith, q))) ∙ (==_iff x.blockno b).0 (ground (arith, p)))

module _ (s s' : Bcache) (d b i : ℕ) (h : IsBcache s d) (t : Loaded s s' d b i) where
  was_member : (j : ℕ) → In j s'.order → In j s.order
  was_member j m = subst (In j) t.one.order_same m

  pub now_member : (j : ℕ) → In j s.order → In j s'.order
  now_member j m = subst (In j) (sym t.one.order_same) m

  -- The other buffers are as before, and they are not of the block.
  was_block : (c j : ℕ) → j ≢ i → is_block d c (s'.bufs j) ≡ true → is_block d c (s.bufs j) ≡ true
  was_block c j n p = subst (λ x. is_block d c x ≡ true) (t.one.bufs_same j n) p

  other_block : (c j : ℕ) → j ≢ i → In j s'.order → is_block d c (s'.bufs j) ≡ true → c ≢ b
  other_block c j n m p e = n (
      t.sole j (was_member j m) (subst (λ x. is_block d x (s.bufs j) ≡ true) e (was_block c j n p)))

  same_block : (c : ℕ) → is_block d c (s'.bufs i) ≡ true → c ≡ b
  same_block c p = elim (equal_cases c b) [
    | inl e ↦ e
    | inr n ↦ absurd (is_block-other d b c (s'.bufs i) n t.of_block p)
  ]

  disk_kept : (c : ℕ) → s'.disk d c ≡ s.disk d c
  disk_kept c = ap (λ (u : ℕ → ℕ → Block). u d c) t.one.disk_same

  other_Shows : (c : ℕ) (w : Block) → c ≢ b → Shows s d c w → Shows s' d c w
  other_Shows c w n (inl (j, m, x, y, z)) = elim (equal_cases j i) [
    | inl e ↦ inr (
      λ k p q. elim (equal_cases k i) [
        | inl f ↦ absurd (n (same_block c (subst (λ u. is_block d c (s'.bufs u) ≡ true) f q)))
        | inr f ↦ absurd (f (h.unique k j c (was_member k p) m (was_block c k f q) x ∙ e))
      ],
      disk_kept c
          ∙ sym (
              t.evicted c n (subst (λ u. is_block d c (s.bufs u) ≡ true) e x)
                (subst (λ u. (s.bufs u).valid ≡ true) e y))
          ∙ ap (λ u. (s.bufs u).content) (sym e)
          ∙ z,
    )
    | inr f ↦
        let kept = sym (t.one.bufs_same j f) in
        inl (
          j,
          now_member j m,
          subst (λ u. is_block d c u ≡ true) kept x,
          subst (λ (u : Buf). u.valid ≡ true) kept y,
          subst (λ (u : Buf). u.content ≡ w) kept z,
        )
  ]
  other_Shows c w n (inr (f, z)) = inr (
    λ k p q. elim (equal_cases k i) [
      | inl e ↦ absurd (n (same_block c (subst (λ u. is_block d c (s'.bufs u) ≡ true) e q)))
      | inr e ↦
          ap (λ (u : Buf). u.valid) (t.one.bufs_same k e) ∙ f k (was_member k p) (was_block c k e q)
    ],
    disk_kept c ∙ z,
  )

  pub Shows-Loaded : (c : ℕ) (w : Block) → Shows s d c w → Shows s' d c w
  Shows-Loaded c w v = elim (equal_cases c b) [
    | inl e ↦
        subst (λ x. Shows s' d x w) (sym e)
          (inl (
            i,
            now_member i t.member,
            t.of_block,
            t.loaded_valid,
            t.shown w (subst (λ x. Shows s d x w) e v),
          ))
    | inr n ↦ other_Shows c w n v
  ]

  loaded_unique :
      (j k c : ℕ)
      → In j s'.order
      → In k s'.order
      → is_block d c (s'.bufs j) ≡ true
      → is_block d c (s'.bufs k) ≡ true
      → j ≡ k
  loaded_unique j k c m n p q = elim (equal_cases j i) [
    | inl e ↦ elim (equal_cases k i) [
      | inl f ↦ e ∙ sym f
      | inr f ↦
          absurd (
            other_block c k f n q (same_block c (subst (λ u. is_block d c (s'.bufs u) ≡ true) e p)))
    ]
    | inr e ↦ elim (equal_cases k i) [
      | inl f ↦
          absurd (
            other_block c j e m p (same_block c (subst (λ u. is_block d c (s'.bufs u) ≡ true) f q)))
      | inr f ↦
          h.unique j k c (was_member j m) (was_member k n) (was_block c j e p) (was_block c k f q)
    ]
  ]

  pub Loaded-IsBcache : IsBcache s' d
  Loaded-IsBcache = record {
    unique = loaded_unique;
    clean = λ j c m p v o. elim (equal_cases j i) [
      | inl e ↦
          ap (λ u. (s'.bufs u).content) e
          ∙ t.loaded_clean (subst (λ u. (s'.bufs u).dirty ≡ false) e o)
          ∙ ap (s.disk d) (sym (same_block c (subst (λ u. is_block d c (s'.bufs u) ≡ true) e p)))
          ∙ sym (disk_kept c)
      | inr e ↦
          let kept = t.one.bufs_same j e in
          ap (λ (u : Buf). u.content) kept
          ∙ h.clean j c (was_member j m) (was_block c j e p)
              (subst (λ (u : Buf). u.valid ≡ true) kept v)
              (subst (λ (u : Buf). u.dirty ≡ false) kept o)
          ∙ sym (disk_kept c)
    ];
    dirty_valid = λ j m o. elim (equal_cases j i) [
      | inl e ↦ subst (λ u. (s'.bufs u).valid ≡ true) (sym e) t.loaded_valid
      | inr e ↦
          let kept = t.one.bufs_same j e in
          subst (λ (u : Buf). u.valid ≡ true) (sym kept)
            (h.dirty_valid j (was_member j m) (subst (λ (u : Buf). u.dirty ≡ true) kept o))
    ];
  }
