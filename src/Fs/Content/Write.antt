-- ===== src/Fs/Content/Write.antt =====
-- One block of a file written: the tree of its blocks stays, and so do the other bytes.
use hyu_3rd_1se.Prelude.{
  ℕ, suc, ◌+◌, ◌-◌, ◌*◌, ◌/◌, ◌%◌, ◌<◌, ◌≤◌, ◌≡◌, ◌≢◌, refl, sym, ap, ◌∙◌, List, [], ◌∷◌, length,
  ltb, ◌==◌, if◌then◌else◌, update, arith, Bool-cases, inl, inr, ◌⊎◌, ==-of_ne, ==-refl, ==_iff,
}
use hyu_3rd_1se.Disk.{Block}
use hyu_3rd_1se.Fs.{FsState, put_block}
use hyu_3rd_1se.Fs.Content.{slice, splice}
use hyu_3rd_1se.Fs.Content.Lookup.{entry, block_of, tree_block}
use hyu_3rd_1se.Fs.Content.Read.{byte_at, Mapped}

-- What a splice leaves outside, and what it puts inside.
pub splice_outside :
    (d : Block) (from : ℕ) (bs : List ℕ) (j : ℕ)
    → (j < from) ⊎ (from + length bs ≤ j)
    → splice d from bs j ≡ d j
unfolding splice
splice_outside d from [] j o = refl
splice_outside d from (b ∷ bs) j o =
    let out : (j < suc from) ⊎ (suc from + length bs ≤ j) = elim o [
      | inl l ↦ inl (omega arith)
      | inr l ↦ inr (omega arith)
    ] in
    let ne : from ≢ j = elim o [ inl l ↦ omega arith | inr l ↦ omega arith ] in
    splice_outside (update d from b) (suc from) bs j out ∙ rw (==-of_ne from j ne)

pub slice-splice :
    (d : Block) (from : ℕ) (bs : List ℕ) → slice (splice d from bs) from (length bs) ≡ bs
unfolding splice slice
slice-splice d from [] = refl
slice-splice d from (b ∷ bs) =
    let first : splice (update d from b) (suc from) bs from ≡ b =
      splice_outside (update d from b) (suc from) bs from (inl (omega arith)) ∙ rw (==-refl from) in
    rw first (ap (λ t. b ∷ t) (slice-splice (update d from b) (suc from) bs))

-- The blocks of a file are there, one for each block of the bytes, and are none of the blocks that hold
-- block numbers.
pub record IsFile (s : FsState) (i : ℕ) : Type 0 where
  pub mapped : Mapped s i
  pub distinct :
      (x y : ℕ)
      → x * 512 < (s.inodes i).size
      → y * 512 < (s.inodes i).size
      → block_of s i x ≡ block_of s i y
      → x ≡ y
  pub apart_indirect :
      (x : ℕ) → x * 512 < (s.inodes i).size → block_of s i x ≢ (s.inodes i).addrs 11
  pub apart_double : (x : ℕ) → x * 512 < (s.inodes i).size → block_of s i x ≢ (s.inodes i).addrs 12
  pub apart_inner :
      (x k : ℕ)
      → x * 512 < (s.inodes i).size
      → k < 128
      → block_of s i x ≢ entry s.blocks ((s.inodes i).addrs 12) k

-- A write to a block that holds no block numbers leaves the tree as it was.
entry-update :
    (blocks : ℕ → Block) (a b j : ℕ) (d : Block)
    → a ≢ b
    → entry (update blocks a d) b j ≡ entry blocks b j
entry-update blocks a b j d n = rw (==-of_ne a b n)

tree_block-update :
    (blocks : ℕ → Block) (addrs : ℕ → ℕ) (a bn : ℕ) (d : Block)
    → a ≢ addrs 11
    → a ≢ addrs 12
    → ((k : ℕ) → k < 128 → a ≢ entry blocks (addrs 12) k)
    → tree_block (update blocks a d) addrs bn ≡ tree_block blocks addrs bn
tree_block-update blocks addrs a bn d n11 n12 nk = elim (Bool-cases (ltb bn 11)) [
  | inl x ↦ rw x
  | inr x ↦ elim (Bool-cases (ltb (bn - 11) 128)) [
    | inl y ↦ rw (x, y) (entry-update blocks a (addrs 11) (bn - 11) d n11)
    | inr y ↦ elim (Bool-cases (ltb (bn - 11 - 128) 16384)) [
      | inl z ↦
          let j = bn - 11 - 128 in
          rw (x, y, z)
            (ap (λ c. entry (update blocks a d) c (j % 128))
                (entry-update blocks a (addrs 12) (j / 128) d n12)
              ∙ entry-update blocks a (entry blocks (addrs 12) (j / 128)) (j % 128) d
                  (nk (j / 128) (ground arith)))
      | inr z ↦ rw (x, y, z)
    ]
  ]
]

-- The state after the block `bn` of the file has got the contents `d`.
abbrev pub written : FsState → ℕ → ℕ → Block → FsState
written s i bn d = put_block s (block_of s i bn) d

module _ (s : FsState) (i bn : ℕ) (d : Block) (h : IsFile s i)
    (l : bn * 512 < (s.inodes i).size) where
  pub written_tree : (x : ℕ) → block_of (written s i bn d) i x ≡ block_of s i x
  written_tree x =
      tree_block-update s.blocks (s.inodes i).addrs (block_of s i bn) x d (h.apart_indirect bn l)
        (h.apart_double bn l) (λ k m. h.apart_inner bn k l m)

  pub written-IsFile : IsFile (written s i bn d) i
  written-IsFile = record {
    mapped = λ x m e. h.mapped x m (sym (written_tree x) ∙ e);
    distinct = λ x y a b e. h.distinct x y a b (sym (written_tree x) ∙ e ∙ written_tree y);
    apart_indirect = λ x a e. h.apart_indirect x a (sym (written_tree x) ∙ e);
    apart_double = λ x a e. h.apart_double x a (sym (written_tree x) ∙ e);
    apart_inner = λ x k a m e. h.apart_inner x k a m (
        sym (written_tree x)
        ∙ e
        ∙ entry-update s.blocks (block_of s i bn) ((s.inodes i).addrs 12) k d
            (h.apart_double bn l));
  }

  pub written_bytes :
      (x : ℕ)
      → x < (s.inodes i).size
      → byte_at (written s i bn d) i x ≡ (if bn == x / 512 then d (x % 512) else byte_at s i x)
  written_bytes x m = elim (Bool-cases (bn == x / 512)) [
    | inl e ↦
        let same : bn ≡ x / 512 = (==_iff bn (x / 512)).0 e in
        let at : block_of (written s i bn d) i (x / 512) ≡ block_of s i bn =
          written_tree (x / 512) ∙ ap (block_of s i) (sym same) in
        rw e (ap (λ b. (written s i bn d).blocks b (x % 512)) at ∙ rw (==-refl (block_of s i bn)))
    | inr e ↦
        let ne : block_of s i bn ≢ block_of s i (x / 512) =
          λ z. let same = h.distinct bn (x / 512) l (omega arith) z in ground (arith, same) in
        rw e (
          ap (λ b. (written s i bn d).blocks b (x % 512)) (written_tree (x / 512))
          ∙ rw (==-of_ne (block_of s i bn) (block_of s i (x / 512)) ne))
  ]
