-- ===== src/Bcache/Release.antt =====
-- `brelse` of bio.c: the list of buffers, and what the cache shows.
use hyu_3rd_1se.Prelude.{
  ℕ, ◌+◌, ◌<◌, ◌≡◌, refl, sym, ap, ◌∙◌, true, false, ◌&&◌, List, [], ◌∷◌, ◌==◌, ok, arith,
  Bool-cases, inl, inr, ◌⊎◌, ==-refl, ==_iff, subst,
}
use hyu_3rd_1se.Proc.{u32}
use hyu_3rd_1se.Disk.{Block}
use hyu_3rd_1se.Bcache.{Buf, Bcache, set_buf, is_block, unlink, brelse}
use hyu_3rd_1se.Bcache.Find.{In}
use hyu_3rd_1se.Bcache.View.{IsBcache, Shows}

unlink-In : (i j : ℕ) (js : List ℕ) → In j (unlink i js) → In j js
unfolding unlink
unlink-In i j [] h = h
unlink-In i j (x ∷ xs) h = elim (Bool-cases (i == x)) [
  | inl e ↦ inr (rw e at h)
  | inr e ↦
      let rest : (j ≡ x) ⊎ In j (unlink i xs) = rw e at h in
      elim rest [ inl a ↦ inl a | inr a ↦ inr (unlink-In i j xs a) ]
]

unlink_other : (i j : ℕ) (js : List ℕ) → In j js → (j ≡ i) ⊎ In j (unlink i js)
unfolding unlink
unlink_other i j [] h = elim h [ ]
unlink_other i j (x ∷ xs) (inl a) = elim (Bool-cases (i == x)) [
  | inl e ↦ inl (a ∙ sym ((==_iff i x).0 e))
  | inr e ↦ rw e (inr (inl a))
]
unlink_other i j (x ∷ xs) (inr a) = elim (Bool-cases (i == x)) [
  | inl e ↦ rw e (inr a)
  | inr e ↦ rw e (elim (unlink_other i j xs a) [ inl c ↦ inl c | inr c ↦ inr (inr c) ])
]

-- What a buffer holds for the cache.
abbrev UseOnly : Buf → Buf → Type 0
UseOnly x y =
    (x.dev ≡ y.dev)
    × (x.blockno ≡ y.blockno)
    × (x.valid ≡ y.valid)
    × (x.dirty ≡ y.dirty)
    × (x.content ≡ y.content)

-- Only the order, and who uses the buffers, differ.
record Released (s s' : Bcache) : Type 0 where
  pub to_old : (j : ℕ) → In j s'.order → In j s.order
  pub to_new : (j : ℕ) → In j s.order → In j s'.order
  pub as_before : (j : ℕ) → UseOnly (s'.bufs j) (s.bufs j)
  pub disk_kept : s'.disk ≡ s.disk

Released-sym : (s s' : Bcache) → Released s s' → Released s' s
Released-sym s s' t = record {
  to_old = t.to_new;
  to_new = t.to_old;
  as_before = λ j. let (a, b, c, d, e) = t.as_before j in (sym a, sym b, sym c, sym d, sym e);
  disk_kept = sym t.disk_kept;
}

is_block-Released :
    (s s' : Bcache) (d c j : ℕ) → Released s s' → is_block d c (s'.bufs j) ≡ is_block d c (s.bufs j)
is_block-Released s s' d c j t =
    let (a, b, v, o, e) = t.as_before j in
    ap (λ x. x == d && (s'.bufs j).blockno == c) a ∙ ap (λ x. (s.bufs j).dev == d && x == c) b

Released-Shows :
    (s s' : Bcache) (d c : ℕ) (w : Block) → Released s s' → Shows s d c w → Shows s' d c w
Released-Shows s s' d c w t (inl (j, m, p, v, z)) =
    let (a, b, valid, o, content) = t.as_before j in
    inl (j, t.to_new j m, is_block-Released s s' d c j t ∙ p, valid ∙ v, content ∙ z)
Released-Shows s s' d c w t (inr (f, z)) = inr (
  λ j m p.
      let (a, b, valid, o, content) = t.as_before j in
      valid ∙ f j (t.to_old j m) (sym (is_block-Released s s' d c j t) ∙ p),
  ap (λ (u : ℕ → ℕ → Block). u d c) t.disk_kept ∙ z,
)

Released-IsBcache : (s s' : Bcache) (d : ℕ) → Released s s' → IsBcache s d → IsBcache s' d
Released-IsBcache s s' d t h = record {
  unique = λ x y c a e p q.
      h.unique x y c (t.to_old x a) (t.to_old y e) (sym (is_block-Released s s' d c x t) ∙ p)
        (sym (is_block-Released s s' d c y t) ∙ q);
  clean = λ j c m p v o.
      let (a, b, valid, dirty, content) = t.as_before j in
      content
      ∙ h.clean j c (t.to_old j m) (sym (is_block-Released s s' d c j t) ∙ p) (sym valid ∙ v)
          (sym dirty ∙ o)
      ∙ sym (ap (λ (u : ℕ → ℕ → Block). u d c) t.disk_kept);
  dirty_valid = λ j m o.
      let (a, b, valid, dirty, content) = t.as_before j in
      valid ∙ h.dirty_valid j (t.to_old j m) (sym dirty ∙ o);
}

module _ (s : Bcache) (i n : ℕ) where
  abbrev loosened : Bcache
  loosened = set_buf s i (record (s.bufs i) { locked = false; refcnt = n })

  loosened_before : (j : ℕ) → UseOnly (loosened.bufs j) (s.bufs j)
  loosened_before j = elim (Bool-cases (i == j)) [
    | inl e ↦
        let same : i ≡ j = (==_iff i j).0 e in
        subst (λ u. UseOnly (loosened.bufs u) (s.bufs u)) same
          (simp (==-refl i), simp (==-refl i), simp (==-refl i), simp (==-refl i), simp (==-refl i))
    | inr e ↦ (simp e, simp e, simp e, simp e, simp e)
  ]

  loosened-Released : Released s loosened
  loosened-Released = record {
    to_old = λ j m. m;
    to_new = λ j m. m;
    as_before = loosened_before;
    disk_kept = refl;
  }

  moved-Released : In i s.order → Released s (record loosened { order = i ∷ unlink i s.order })
  moved-Released m = record {
    to_old = λ j a. elim a [
      | inl e ↦ subst (λ u. In u s.order) (sym e) m
      | inr a' ↦ unlink-In i j s.order a'
    ];
    to_new = λ j a. unlink_other i j s.order a;
    as_before = loosened_before;
    disk_kept = refl;
  }

-- `brelse` of a locked buffer unlocks it and takes one from its references; where none is left the buffer
-- is the most recently used. The cache keeps its buffers, and for every block it shows after `brelse`
-- what it showed before, and nothing else.
pub brelse-Shows :
    (s : Bcache) (d i : ℕ)
    → IsBcache s d
    → In i s.order
    → (s.bufs i).locked ≡ true
    → 0 < (s.bufs i).refcnt
    → (s.bufs i).refcnt < 4294967296
    → (s' : Bcache) × (brelse s i ≡ ok s')
      × IsBcache s' d
      × ((s'.bufs i).locked ≡ false)
      × ((s'.bufs i).refcnt + 1 ≡ (s.bufs i).refcnt)
      × ((s'.order ≡ i ∷ unlink i s.order) ⊎ ((s'.order ≡ s.order) × 0 < (s'.bufs i).refcnt))
      × ((j : ℕ) → (In j s.order → In j s'.order) × (In j s'.order → In j s.order))
      × ((c : ℕ) (w : Block) → (Shows s d c w → Shows s' d c w) × (Shows s' d c w → Shows s d c w))
unfolding brelse
brelse-Shows s d i h m l f g =
    let n = u32 ((s.bufs i).refcnt + 4294967295) in
    let less : n + 1 ≡ (s.bufs i).refcnt = omega arith in
    elim (Bool-cases (n == 0)) [
      | inl z ↦
          let t = moved-Released s i n m in
          (
            record (loosened s i n) { order = i ∷ unlink i s.order },
            rw (l, z),
            Released-IsBcache s _ d t h,
            simp (==-refl i),
            simp (==-refl i) less,
            inl refl,
            λ j. (t.to_new j, t.to_old j),
            λ c w. (Released-Shows s _ d c w t, Released-Shows _ s d c w (Released-sym s _ t)),
          )
      | inr z ↦
          let t = loosened-Released s i n in
          let some_left : 0 < n = ground (arith, z) in
          (
            loosened s i n,
            rw (l, z),
            Released-IsBcache s _ d t h,
            simp (==-refl i),
            simp (==-refl i) less,
            inr (refl, simp (==-refl i) some_left),
            λ j. (t.to_new j, t.to_old j),
            λ c w. (Released-Shows s _ d c w t, Released-Shows _ s d c w (Released-sym s _ t)),
          )
    ]
