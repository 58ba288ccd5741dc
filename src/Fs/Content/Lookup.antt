-- ===== src/Fs/Content/Lookup.antt =====
-- `bmap` of fs.c where the block of the file is there.
use hyu_3rd_1se.Prelude.{
  ℕ, ◌-◌, ◌/◌, ◌%◌, ◌≡◌, ◌≢◌, sym, ap, ◌∙◌, ltb, ◌==◌, if◌then◌else◌, Result, ok, ◌>>=◌, arith,
  Bool-cases, inl, inr, ==-of_ne,
}
use hyu_3rd_1se.Disk.{Block, word}
use hyu_3rd_1se.Fs.{FsState}
use hyu_3rd_1se.Fs.Content.{need_addr, need_entry, bmap_indirect, bmap_double, bmap}

-- An entry of an indirect block, 0 where there is no block.
abbrev pub entry : (ℕ → Block) → ℕ → ℕ → ℕ
entry blocks b j = if b == 0 then 0 else word (blocks b) j

-- The block number that the tree of blocks of an inode has for the block `bn` of the file.
abbrev pub tree_block : (ℕ → Block) → (ℕ → ℕ) → ℕ → ℕ
tree_block blocks addrs bn =
    if ltb bn 11
    then addrs bn
    else if ltb (bn - 11) 128
    then entry blocks (addrs 11) (bn - 11)
    else if ltb (bn - 11 - 128) 16384
    then entry blocks (entry blocks (addrs 12) ((bn - 11 - 128) / 128)) ((bn - 11 - 128) % 128)
    else 0

abbrev pub block_of : FsState → ℕ → ℕ → ℕ
block_of s i bn = tree_block s.blocks (s.inodes i).addrs bn

need_addr_there :
    (s : FsState) (i slot : ℕ)
    → (s.inodes i).addrs slot ≢ 0
    → need_addr s i slot ≡ ok (s, (s.inodes i).addrs slot)
unfolding need_addr
need_addr_there s i slot h = rw (==-of_ne _ 0 h)

need_entry_there :
    (s : FsState) (b j : ℕ)
    → word (s.blocks b) j ≢ 0
    → need_entry s b j ≡ ok (s, word (s.blocks b) j)
unfolding need_entry
need_entry_there s b j h = rw (==-of_ne _ 0 h)

entry_there :
    (blocks : ℕ → Block) (b j : ℕ)
    → entry blocks b j ≢ 0
    → (b ≢ 0) × (entry blocks b j ≡ word (blocks b) j)
entry_there blocks b j h = elim (Bool-cases (b == 0)) [
  | inl z ↦ absurd (h (rw z))
  | inr z ↦ (ground arith, rw z)
]

bmap_indirect_there :
    (s : FsState) (i j : ℕ)
    → entry s.blocks ((s.inodes i).addrs 11) j ≢ 0
    → bmap_indirect s i j ≡ ok (s, entry s.blocks ((s.inodes i).addrs 11) j)
unfolding bmap_indirect
bmap_indirect_there s i j h =
    let (a, e) = entry_there s.blocks ((s.inodes i).addrs 11) j h in
    rw (need_addr_there s i 11 a)
      (need_entry_there s ((s.inodes i).addrs 11) j (λ z. h (e ∙ z)) ∙ ap (λ x. ok (s, x)) (sym e))

bmap_double_there :
    (s : FsState) (i j : ℕ)
    → let c = entry s.blocks ((s.inodes i).addrs 12) (j / 128) in
      entry s.blocks c (j % 128) ≢ 0 → bmap_double s i j ≡ ok (s, entry s.blocks c (j % 128))
unfolding bmap_double
bmap_double_there s i j h =
    let top = (s.inodes i).addrs 12 in
    let c = entry s.blocks top (j / 128) in
    let (b, e) = entry_there s.blocks c (j % 128) h in
    let (a, f) = entry_there s.blocks top (j / 128) b in
    ap
      (λ (r : Result (FsState × ℕ)).
        r >>= λ (s1, x). need_entry s1 x (j / 128) >>= λ (s2, y). need_entry s2 y (j % 128))
      (need_addr_there s i 12 a)
    ∙ ap (λ (r : Result (FsState × ℕ)). r >>= λ (s2, y). need_entry s2 y (j % 128))
        (need_entry_there s top (j / 128) (λ z. b (f ∙ z)) ∙ ap (λ x. ok (s, x)) (sym f))
    ∙ need_entry_there s c (j % 128) (λ z. h (e ∙ z))
    ∙ ap (λ x. ok (s, x)) (sym e)

-- Where the tree of an inode has a block for `bn`, `bmap` returns it and changes nothing, whether the
-- block is direct, in the indirect block or in the doubly indirect one.
pub bmap-block_of :
    (s : FsState) (i bn : ℕ) → block_of s i bn ≢ 0 → bmap s i bn ≡ ok (s, block_of s i bn)
unfolding bmap
bmap-block_of s i bn h = elim (Bool-cases (ltb bn 11)) [
  | inl a ↦
      let eq : block_of s i bn ≡ (s.inodes i).addrs bn = rw a in
      rw a (need_addr_there s i bn (λ z. h (eq ∙ z)))
  | inr a ↦ elim (Bool-cases (ltb (bn - 11) 128)) [
    | inl b ↦
        let eq : block_of s i bn ≡ entry s.blocks ((s.inodes i).addrs 11) (bn - 11) = rw (a, b) in
        rw (a, b) (bmap_indirect_there s i (bn - 11) (λ z. h (eq ∙ z)))
    | inr b ↦ elim (Bool-cases (ltb (bn - 11 - 128) 16384)) [
      | inl c ↦
          let j = bn - 11 - 128 in
          let e = entry s.blocks (entry s.blocks ((s.inodes i).addrs 12) (j / 128)) (j % 128) in
          let eq : block_of s i bn ≡ e = rw (a, b, c) in
          rw (a, b, c) (bmap_double_there s i j (λ z. h (eq ∙ z)))
      | inr c ↦ absurd (h (rw (a, b, c)))
    ]
  ]
]
