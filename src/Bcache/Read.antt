-- ===== src/Bcache/Read.antt =====
-- `bread` of bio.c: what it gives, and what it leaves in the cache.
use hyu_3rd_1se.Prelude.{
  ℕ, ◌+◌, ◌%◌, ◌<◌, ltb, ◌≡◌, refl, sym, ap, ◌∙◌, true, false, if◌then◌else◌, Result, ok, fault,
  panic, diverges, ◌>>=◌, arith, Bool-cases, inl, inr, ◌⊎◌, ==-refl, ==-of_ne, ==_iff, subst,
  lt→ltb,
}
use hyu_3rd_1se.Proc.{u32}
use hyu_3rd_1se.Disk.{Block}
use hyu_3rd_1se.Bcache.{
  Buf, Bcache, set_buf, has_disk, transfer, fill_buf, backwards, is_block, is_free, lock_buf,
  take_buf, bget, idestart, iderw, bread,
}
use hyu_3rd_1se.Bcache.Find.{In, In-backwards, backwards-In, find_buf-FoundBuf}
use hyu_3rd_1se.Bcache.View.{
  IsBcache, Shows, OneBuf, Loaded, Shows-Loaded, Loaded-IsBcache, now_member, is_block-other,
}

set_buf-OneBuf : (s : Bcache) (i : ℕ) (v : Buf) → OneBuf s (set_buf s i v) i
set_buf-OneBuf s i v = record {
  order_same = refl;
  disk_same = refl;
  bufs_same = λ k n. rw (==-of_ne i k (λ e. n (sym e)));
}

set_buf_here : (s : Bcache) (i : ℕ) (v : Buf) → (set_buf s i v).bufs i ≡ v
set_buf_here s i v = rw (==-refl i)

OneBuf_trans : (s s1 s2 : Bcache) (i : ℕ) → OneBuf s s1 i → OneBuf s1 s2 i → OneBuf s s2 i
OneBuf_trans s s1 s2 i a c = record {
  order_same = c.order_same ∙ a.order_same;
  disk_same = c.disk_same ∙ a.disk_same;
  bufs_same = λ k n. c.bufs_same k n ∙ a.bufs_same k n;
}

-- `bget` with the buffer `i`, which was set to `x` before it is locked, and the read of `bread`.
abbrev fresh : Bcache → Buf → Buf
fresh s x =
    if x.valid
    then record x { locked = true }
    else record x { locked = true; valid = true; content = s.disk (x.dev % 2) x.blockno }

abbrev fill : Bcache × ℕ → Result (Bcache × ℕ)
fill (s1, j) = fill_buf s1 j

lock_and_read :
    (s : Bcache) (i : ℕ) (x : Buf)
    → (x.valid ≡ false → x.dirty ≡ false)
    → x.locked ≡ false
    → has_disk s x.dev ≡ true
    → ltb x.blockno 2000 ≡ true
    → (s' : Bcache) × ((lock_buf (set_buf s i x) i >>= fill) ≡ ok (s', i))
      × OneBuf s s' i
      × (s'.bufs i ≡ fresh s x)
unfolding lock_buf transfer idestart iderw fill_buf
lock_and_read s i x c l o inside = elim (Bool-cases x.valid) [
  | inl v ↦ (
    set_buf (set_buf s i x) i (record x { locked = true }),
    simp (==-refl i, l, v),
    OneBuf_trans s (set_buf s i x) _ i (set_buf-OneBuf s i x) (set_buf-OneBuf _ i _),
    simp (==-refl i, v),
  )
  | inr v ↦
      let clean = c v in
      (
        set_buf (set_buf (set_buf s i x) i (record x { locked = true })) i
            (record x { locked = true; valid = true; content = s.disk (x.dev % 2) x.blockno }),
        simp (==-refl i, l, v, clean, o, inside),
        OneBuf_trans s (set_buf (set_buf s i x) i (record x { locked = true })) _ i
            (OneBuf_trans s (set_buf s i x) _ i (set_buf-OneBuf s i x) (set_buf-OneBuf _ i _))
            (set_buf-OneBuf _ i _),
        simp (==-refl i, v),
      )
]

lock_and_wait :
    (s : Bcache) (i : ℕ) (x : Buf)
    → x.locked ≡ true
    → (lock_buf (set_buf s i x) i >>= fill) ≡ fault diverges
unfolding lock_buf
lock_and_wait s i x l = simp (==-refl i, l)

-- What `bread` gives: the locked buffer of the block, with what the cache showed for it; or it waits for
-- a locked buffer, or it panics as no buffer is to be had.
abbrev pub BreadResult : ℕ → ℕ → Bcache → Result (Bcache × ℕ) → Type 0
BreadResult d b s r =
    ((s' : Bcache) × (i : ℕ) × (r ≡ ok (s', i))
      × IsBcache s' d
      × In i s'.order
      × (is_block d b (s'.bufs i) ≡ true)
      × ((s'.bufs i).valid ≡ true)
      × ((s'.bufs i).locked ≡ true)
      × ((w : Block) → Shows s d b w → (s'.bufs i).content ≡ w)
      × ((c : ℕ) (w : Block) → Shows s d c w → Shows s' d c w))
    ⊎ ((i : ℕ) × In i s.order × ((s.bufs i).locked ≡ true) × (r ≡ fault diverges))
    ⊎ (((i : ℕ) → In i s.order → (is_block d b (s.bufs i) ≡ false) × (is_free (s.bufs i) ≡ false))
        × (r ≡ fault panic))

Loaded-BreadResult :
    (s s' : Bcache) (d b i : ℕ) {r : Result (Bcache × ℕ)}
    → IsBcache s d
    → Loaded s s' d b i
    → (s'.bufs i).locked ≡ true
    → r ≡ ok (s', i)
    → BreadResult d b s r
Loaded-BreadResult s s' d b i h t l e = inl (
  s',
  i,
  e,
  Loaded-IsBcache s s' d b i h t,
  now_member s s' d b i h t i t.member,
  t.of_block,
  t.loaded_valid,
  l,
  t.shown,
  Shows-Loaded s s' d b i h t,
)

fresh_locked : (s : Bcache) (x : Buf) → (fresh s x).locked ≡ true
fresh_locked s x = elim (Bool-cases x.valid) [ inl v ↦ rw v | inr v ↦ rw v ]

fresh_valid : (s : Bcache) (x : Buf) → (fresh s x).valid ≡ true
fresh_valid s x = elim (Bool-cases x.valid) [ inl v ↦ simp v | inr v ↦ rw v ]

fresh_dirty : (s : Bcache) (x : Buf) → (fresh s x).dirty ≡ x.dirty
fresh_dirty s x = elim (Bool-cases x.valid) [ inl v ↦ rw v | inr v ↦ rw v ]

is_block-fresh : (s : Bcache) (d b : ℕ) (x : Buf) → is_block d b (fresh s x) ≡ is_block d b x
is_block-fresh s d b x = elim (Bool-cases x.valid) [ inl v ↦ rw v | inr v ↦ rw v ]

-- A buffer of the block that is clean has what the disk has once it is filled.
fresh_content :
    (s : Bcache) (d b : ℕ) (x : Buf)
    → d < 2
    → is_block d b x ≡ true
    → (x.valid ≡ true → x.content ≡ s.disk d b)
    → (fresh s x).content ≡ s.disk d b
fresh_content s d b x dl k c = elim (Bool-cases x.valid) [
  | inl v ↦ rw v (c v)
  | inr v ↦
      let dev : x.dev ≡ d = (==_iff x.dev d).0 (ground (arith, k)) in
      let block : x.blockno ≡ b = (==_iff x.blockno b).0 (ground (arith, k)) in
      let drive_of : x.dev % 2 ≡ d = omega (arith, dev, dl) in
      rw v (ap (λ y. s.disk y x.blockno) drive_of ∙ ap (s.disk d) block)
]

module _ (s s' : Bcache) (d b i : ℕ) (dl : d < 2) (h : IsBcache s d) (m : In i s.order)
    (k : is_block d b (s.bufs i) ≡ true) (n : ℕ) (one : OneBuf s s' i)
    (got : s'.bufs i ≡ fresh s (record (s.bufs i) { refcnt = n })) where
  only : (j : ℕ) → In j s.order → is_block d b (s.bufs j) ≡ true → j ≡ i
  only j a p = h.unique j i b a m p k

  hit_shown : (w : Block) → Shows s d b w → (s'.bufs i).content ≡ w
  hit_shown w (inl (j, a, p, v, z)) =
      let same : j ≡ i = only j a p in
      let v' : (s.bufs i).valid ≡ true = subst (λ u. (s.bufs u).valid ≡ true) same v in
      ap (λ (u : Buf). u.content) got ∙ rw v' (ap (λ u. (s.bufs u).content) (sym same) ∙ z)
  hit_shown w (inr (f, z)) =
      ap (λ (u : Buf). u.content) got
      ∙ fresh_content s d b (record (s.bufs i) { refcnt = n }) dl k
          (λ v. absurd (ground (arith, v, f i m k)))
      ∙ z

  hit_Loaded : Loaded s s' d b i
  hit_Loaded = record {
    one = one;
    member = m;
    of_block = ap (is_block d b) got ∙ is_block-fresh s d b (record (s.bufs i) { refcnt = n }) ∙ k;
    loaded_valid = ap (λ (u : Buf). u.valid) got ∙ fresh_valid s (record (s.bufs i) { refcnt = n });
    shown = hit_shown;
    loaded_clean = λ o.
        ap (λ (u : Buf). u.content) got
        ∙ fresh_content s d b (record (s.bufs i) { refcnt = n }) dl k
            (λ v. h.clean i b m k v (
              sym (fresh_dirty s (record (s.bufs i) { refcnt = n }))
              ∙ sym (ap (λ (u : Buf). u.dirty) got)
              ∙ o));
    sole = only;
    evicted = λ c a p v. absurd (is_block-other d b c (s.bufs i) a k p);
  }

bread_hit :
    (s : Bcache) (d b i : ℕ)
    → IsBcache s d
    → has_disk s d ≡ true
    → d < 2
    → b < 2000
    → In i s.order
    → is_block d b (s.bufs i) ≡ true
    → BreadResult d b s (
        lock_buf (set_buf s i (record (s.bufs i) { refcnt = u32 ((s.bufs i).refcnt + 1) })) i
        >>= fill)
bread_hit s d b i h o dl bl m k = elim (Bool-cases (s.bufs i).locked) [
  | inl l ↦ inr (inl (i, m, l, lock_and_wait s i _ l))
  | inr l ↦
      let x = record (s.bufs i) { refcnt = u32 ((s.bufs i).refcnt + 1) } in
      let sole : (j : ℕ) → In j s.order → is_block d b (s.bufs j) ≡ true → j ≡ i =
        λ j n p. h.unique j i b n m p k in
      let (s', e, one, got) =
        lock_and_read s i x
          (λ v. elim (Bool-cases (s.bufs i).dirty) [
            | inl y ↦ absurd (ground (arith, v, h.dirty_valid i m y))
            | inr y ↦ y
          ])
          l
          (subst (λ u. has_disk s u ≡ true) (sym ((==_iff (s.bufs i).dev d).0 (ground (arith, k))))
            o)
          (ground (arith, bl, (==_iff (s.bufs i).blockno b).0 (ground (arith, k)))) in
      Loaded-BreadResult s s' d b i h
        (hit_Loaded s s' d b i dl h m k (u32 ((s.bufs i).refcnt + 1)) one got)
        (ap (λ (u : Buf). u.locked) got ∙ fresh_locked s x) e
]

bread_miss :
    (s : Bcache) (d b i : ℕ)
    → IsBcache s d
    → has_disk s d ≡ true
    → d < 2
    → b < 2000
    → In i s.order
    → is_free (s.bufs i) ≡ true
    → ((j : ℕ) → In j s.order → is_block d b (s.bufs j) ≡ false)
    → BreadResult d b s (
        lock_buf
          (set_buf s i
            (record (s.bufs i) { dev = d; blockno = b; valid = false; dirty = false; refcnt = 1 }))
          i
        >>= fill)
bread_miss s d b i h o dl bl m k f = elim (Bool-cases (s.bufs i).locked) [
  | inl l ↦ inr (inl (i, m, l, lock_and_wait s i _ l))
  | inr l ↦
      let x = record (s.bufs i) {
        dev = d;
        blockno = b;
        valid = false;
        dirty = false;
        refcnt = 1;
      } in
      let (s', e, one, got) = lock_and_read s i x (λ v. refl) l o (lt→ltb b 2000 bl) in
      let drive_of : d % 2 ≡ d = omega (arith, dl) in
      let t : Loaded s s' d b i = record {
        one = one;
        member = m;
        of_block = ap (is_block d b) got ∙ rw (==-refl d, ==-refl b);
        loaded_valid = ap (λ (u : Buf). u.valid) got;
        shown = λ w v.
            ap (λ (u : Buf). u.content) got
            ∙ ap (λ u. s.disk u b) drive_of
            ∙ elim v [ inl (j, n, y, v1, z) ↦ absurd (ground (arith, f j n, y)) | inr (n, z) ↦ z ];
        loaded_clean = λ o. ap (λ (u : Buf). u.content) got ∙ ap (λ u. s.disk u b) drive_of;
        sole = λ j n p. absurd (ground (arith, f j n, p));
        evicted = λ c n p v. h.clean i c m p v (ground (arith, k));
      } in
      Loaded-BreadResult s s' d b i h t (ap (λ (u : Buf). u.locked) got) e
]

-- `bread` of a block of one of the two disks, where the disk is there and the block is before its end,
-- returns its locked and valid buffer, with what the cache showed for the block, and what the cache shows
-- for every block of this disk stays. It waits only where a buffer is locked, and panics only where no
-- buffer has the block and every buffer is in use or dirty.
pub bread-BreadResult :
    (s : Bcache) (d b : ℕ)
    → IsBcache s d
    → has_disk s d ≡ true
    → d < 2
    → b < 2000
    → BreadResult d b s (bread s d b)
unfolding bread bget take_buf
bread-BreadResult s d b h o dl bl = elim (find_buf-FoundBuf (is_block d b) s.bufs s.order) [
  | inr (i, e, m, k) ↦ rw e (bread_hit s d b i h o dl bl m k)
  | inl (e, f) ↦ elim (find_buf-FoundBuf is_free s.bufs (backwards s.order)) [
    | inr (i, e1, m, k) ↦ rw (e, e1) (bread_miss s d b i h o dl bl (backwards-In i s.order m) k f)
    | inl (e1, g) ↦ rw (e, e1) (inr (inr (λ i m. (f i m, g i (In-backwards i s.order m)), refl)))
  ]
]
