-- ===== src/Fs/Inodes/Cache.antt =====
-- The inode cache of fs.c: an inode on the disk has at most one entry that is in use.
use hyu_3rd_1se.Prelude.{
  ℕ, zero, suc, ◌+◌, ◌<◌, ◌≤◌, ◌≡◌, ◌≢◌, refl, sym, ◌∙◌, Bool, true, false, Option, none, some,
  ◌==◌, update, Result, ok, fault, panic, arith, Bool-cases, inl, inr, ◌⊎◌, ==-refl, ==-of_ne,
  ==_iff,
}
use hyu_3rd_1se.Fs.{Inode, FsState, ninode, set_inode}
use hyu_3rd_1se.Fs.Inodes.{is_cached, find_inode, is_empty_slot, take_inode, iget}

-- The first entry that passes the test, or none.
pub data FirstInode (test : Inode → Bool) (t : ℕ → Inode) (from to : ℕ) : Option ℕ → Type 0 where
  absent : ((j : ℕ) → from ≤ j → j < to → test (t j) ≡ false) → FirstInode test t from to none
  present :
      (k : ℕ)
      → from ≤ k
      → k < to
      → test (t k) ≡ true
      → ((j : ℕ) → from ≤ j → j < k → test (t j) ≡ false)
      → FirstInode test t from to (some k)

FirstInode-suc :
    (test : Inode → Bool) (t : ℕ → Inode) (from to : ℕ) (r : Option ℕ)
    → test (t from) ≡ false
    → FirstInode test t (suc from) to r
    → FirstInode test t from to r
FirstInode-suc test t from to none h (absent f) = absent (λ j a l. elim (Bool-cases (from == j)) [
  | inl e ↦ let same : from ≡ j = (==_iff from j).0 e in rw (← same) h
  | inr e ↦ f j (ground arith) l
])
FirstInode-suc test t from to (some k) h (present _ a l c f) = present k (omega arith) l c (λ j x y.
    elim (Bool-cases (from == j)) [
      | inl e ↦ let same : from ≡ j = (==_iff from j).0 e in rw (← same) h
      | inr e ↦ f j (ground arith) y
    ])

find_inode-FirstInode :
    (test : Inode → Bool) (rounds from to : ℕ) (t : ℕ → Inode)
    → from + rounds ≡ to
    → FirstInode test t from to (find_inode test rounds from t)
unfolding find_inode
find_inode-FirstInode test zero from to t e = absent (λ j a l. absurd (omega arith))
find_inode-FirstInode test (suc rounds) from to t e = elim (Bool-cases (test (t from))) [
  | inl h ↦ rw h (present from (omega arith) (omega arith) h (λ j a l. absurd (omega arith)))
  | inr h ↦ rw h (
      FirstInode-suc test t from to _ h
        (find_inode-FirstInode test rounds (suc from) to t (omega arith)))
]

-- No two entries in use hold the same inode.
abbrev pub IsCache : (ℕ → Inode) → Type 0
IsCache t =
    (i j : ℕ)
    → i < ninode
    → j < ninode
    → 0 < (t i).ref
    → 0 < (t j).ref
    → (t i).dev ≡ (t j).dev
    → (t i).inum ≡ (t j).inum
    → i ≡ j

-- What `iget` returns: an entry in use for the inode, with one reference more than before, where no
-- other entry has changed.
pub record Got (dev inum i : ℕ) (s s' : FsState) : Type 0 where
  pub within : i < ninode
  pub dev_at : (s'.inodes i).dev ≡ dev
  pub inum_at : (s'.inodes i).inum ≡ inum
  pub counted : (s'.inodes i).ref ≡ (s.inodes i).ref + 1
  pub others : (j : ℕ) → j ≢ i → s'.inodes j ≡ s.inodes j
  pub blocks_same : s'.blocks ≡ s.blocks
  pub is_cache : IsCache s'.inodes

cached_iff :
    (dev inum : ℕ) (ip : Inode)
    → is_cached dev inum ip ≡ true
    → (0 < ip.ref) × (ip.dev ≡ dev) × (ip.inum ≡ inum)
cached_iff dev inum ip h = ground arith

not_cached :
    (dev inum : ℕ) (ip : Inode)
    → is_cached dev inum ip ≡ false
    → 0 < ip.ref
    → ip.dev ≡ dev
    → ip.inum ≡ inum
    → ⊥
not_cached dev inum ip h a b c = ground arith

-- The entry `i` of a cache may hold an inode that no other entry in use holds.
IsCache-update :
    (t : ℕ → Inode) (i : ℕ) (v : Inode)
    → IsCache t
    → ((j : ℕ) → j < ninode → j ≢ i → 0 < (t j).ref → (t j).dev ≡ v.dev → (t j).inum ≡ v.inum → ⊥)
    → IsCache (update t i v)
IsCache-update t i v h alone j k a b = elim (Bool-cases (i == j)) [
  | inl x ↦ elim (Bool-cases (i == k)) [
    | inl y ↦ λ c d e f. sym ((==_iff i j).0 x) ∙ (==_iff i k).0 y
    | inr y ↦ rw (x, y) (λ c d e f. absurd (alone k b (ground arith) d (sym e) (sym f)))
  ]
  | inr x ↦ elim (Bool-cases (i == k)) [
    | inl y ↦ rw (x, y) (λ c d e f. absurd (alone j a (ground arith) c e f))
    | inr y ↦ rw (x, y) (h j k a b)
  ]
]

-- The result of `iget`.
abbrev pub IgetResult : ℕ → ℕ → FsState → Result (FsState × ℕ) → Type 0
IgetResult dev inum s r =
    ((r ≡ fault panic)
      × ((j : ℕ) → j < ninode → (0 < (s.inodes j).ref) × (is_cached dev inum (s.inodes j) ≡ false)))
    ⊎ ((i : ℕ) × (s' : FsState) × (r ≡ ok (s', i)) × Got dev inum i s s')

take_inode-Got :
    (s : FsState) (dev inum : ℕ) {hit empty : Option ℕ}
    → IsCache s.inodes
    → FirstInode (is_cached dev inum) s.inodes 0 ninode hit
    → FirstInode is_empty_slot s.inodes 0 ninode empty
    → IgetResult dev inum s (take_inode s dev inum hit empty)
unfolding take_inode
take_inode-Got s dev inum h (present i a l c f) g =
    let (used, d, n) = cached_iff dev inum (s.inodes i) c in
    let v : Inode = record (s.inodes i) { ref = (s.inodes i).ref + 1 } in
    inr (
      i,
      set_inode s i v,
      refl,
      record {
        within = l;
        dev_at = rw (==-refl i) d;
        inum_at = rw (==-refl i) n;
        counted = rw (==-refl i);
        others = λ j m. rw (==-of_ne i j (λ e. m (sym e)));
        blocks_same = refl;
        is_cache = IsCache-update s.inodes i v h (λ j b m x y z. m (h j i b l x used y z));
      },
    )
take_inode-Got s dev inum h (absent f) (present i a l c g) =
    let zero_ref : (s.inodes i).ref ≡ 0 = ground arith in
    let v : Inode = record (s.inodes i) { dev = dev; inum = inum; ref = 1; valid = false } in
    inr (
      i,
      set_inode s i v,
      refl,
      record {
        within = l;
        dev_at = rw (==-refl i);
        inum_at = rw (==-refl i);
        counted = rw (==-refl i) (omega (arith, zero_ref));
        others = λ j m. rw (==-of_ne i j (λ e. m (sym e)));
        blocks_same = refl;
        is_cache =
            IsCache-update s.inodes i v h
              (λ j b m x y z. not_cached dev inum (s.inodes j) (f j (omega arith) b) x y z);
      },
    )
take_inode-Got s dev inum h (absent f) (absent g) =
    inl (refl, λ j l. let used = g j (omega arith) l in (ground (arith, used), f j (omega arith) l))

-- `iget` gives an entry of the cache for the inode with a reference more, and an inode still has at most
-- one entry in use. It panics only where all entries are in use for other inodes.
pub iget-Got :
    (s : FsState) (dev inum : ℕ) → IsCache s.inodes → IgetResult dev inum s (iget s dev inum)
unfolding iget
iget-Got s dev inum h =
    take_inode-Got s dev inum h
      (find_inode-FirstInode (is_cached dev inum) ninode 0 ninode s.inodes (omega arith))
      (find_inode-FirstInode is_empty_slot ninode 0 ninode s.inodes (omega arith))
