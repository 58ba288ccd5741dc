-- ===== src/Fs/Content/Read.antt =====
-- `readi` and `writei` of fs.c on the bytes of a file whose blocks are all there.
use hyu_3rd_1se.Prelude.{
  ℕ, zero, suc, ◌+◌, ◌-◌, ◌*◌, ◌/◌, ◌%◌, ◌<◌, ◌≤◌, ◌≡◌, ◌≢◌, refl, sym, ap, ◌∙◌, false, List, [],
  ◌∷◌, ◌++◌, ltb, leb, ◌==◌, if◌then◌else◌, none, some, Result, ok, ◌>>=◌, arith, Bool-cases, inl,
  inr, ==-of_ne, ==_iff,
}
use hyu_3rd_1se.Fs.{FsState}
use hyu_3rd_1se.Fs.Content.{Devices, slice, min, chunk, read_loop, read_file, readi}
use hyu_3rd_1se.Fs.Content.Lookup.{block_of, bmap-block_of}

-- The byte at an offset of the file, and the bytes from an offset on.
abbrev pub byte_at : FsState → ℕ → ℕ → ℕ
byte_at s i off = s.blocks (block_of s i (off / 512)) (off % 512)

unfoldable pub contents : FsState → ℕ → ℕ → ℕ → List ℕ
contents s i off zero = []
contents s i off (suc n) = byte_at s i off ∷ contents s i (suc off) n

-- Every block below the size is there.
abbrev pub Mapped : FsState → ℕ → Type 0
Mapped s i = (bn : ℕ) → bn * 512 < (s.inodes i).size → block_of s i bn ≢ 0

pub contents-append :
    (s : FsState) (i off m n : ℕ)
    → contents s i off (m + n) ≡ contents s i off m ++ contents s i (off + m) n
unfolding contents
contents-append s i off zero n =
    let z : 0 + n ≡ n = omega arith in let y : off + 0 ≡ off = omega arith in rw (z, y)
contents-append s i off (suc m) n =
    let z : suc m + n ≡ suc (m + n) = omega arith in
    let y : off + suc m ≡ suc off + m = omega arith in
    rw (z, y) (ap (λ r. byte_at s i off ∷ r) (contents-append s i (suc off) m n))

-- Within a block the bytes of the block are those of the file.
pub slice-contents :
    (s : FsState) (i bn from off m : ℕ)
    → off ≡ bn * 512 + from
    → from + m ≤ 512
    → slice (s.blocks (block_of s i bn)) from m ≡ contents s i off m
unfolding slice contents
slice-contents s i bn from off zero e l = refl
slice-contents s i bn from off (suc m) e l =
    let q : off / 512 ≡ bn = omega arith in
    let r : off % 512 ≡ from = omega arith in
    ap (λ x. s.blocks (block_of s i x) from ∷ slice (s.blocks (block_of s i bn)) (suc from) m)
      (sym q)
    ∙ ap
        (λ x.
          s.blocks (block_of s i (off / 512)) x ∷ slice (s.blocks (block_of s i bn)) (suc from) m)
        (sym r)
    ∙ ap (λ t. byte_at s i off ∷ t)
        (slice-contents s i bn (suc from) (suc off) m (omega arith) (omega arith))

-- The bounds of a chunk.
pub chunk_bounds :
    (off left : ℕ)
    → 0 < left
    → (0 < chunk off left) × (chunk off left ≤ left) × (off % 512 + chunk off left ≤ 512)
chunk_bounds off left h = ground arith

read_loop-contents :
    (rounds : ℕ) (s : FsState) (i off left : ℕ)
    → Mapped s i
    → off + left ≤ (s.inodes i).size
    → left < rounds
    → read_loop rounds s i off left ≡ ok (s, contents s i off left)
unfolding read_loop contents
read_loop-contents zero s i off left h l f = absurd (omega arith)
read_loop-contents (suc rounds) s i off left h l f = elim (Bool-cases (left == 0)) [
  | inl z ↦ let none_left : left ≡ 0 = (==_iff left 0).0 z in rw (z, none_left)
  | inr z ↦
      let (p, q, r) = chunk_bounds off left (ground arith) in
      let m = chunk off left in
      let there : block_of s i (off / 512) ≢ 0 = h (off / 512) (omega (arith, p, q)) in
      let rest =
        read_loop-contents rounds s i (off + m) (left - m) h (omega (arith, l, q))
          (omega (arith, f, p, q)) in
      let all : m + (left - m) ≡ left = omega (arith, q) in
      rw z (
        ap
          (λ (x : Result (FsState × ℕ)). x >>= λ (s1, a).
            read_loop rounds s1 i (off + m) (left - m) >>= λ (s2, bs).
            ok (s2, slice (s1.blocks a) (off % 512) m ++ bs))
          (bmap-block_of s i (off / 512) there)
        ∙ ap
            (λ (x : Result (FsState × List ℕ)). x >>= λ (s2, bs).
              ok (s2, slice (s.blocks (block_of s i (off / 512))) (off % 512) m ++ bs))
            rest
        ∙ ap (λ t. ok (s, t ++ contents s i (off + m) (left - m)))
            (slice-contents s i (off / 512) (off % 512) off m (omega arith) r)
        ∙ ap (λ t. ok (s, t)) (sym (contents-append s i off m (left - m)))
        ∙ ap (λ t. ok (s, contents s i off t)) all)
]

-- `readi` of a file whose blocks are all there changes nothing and returns the bytes of the file from
-- the offset on, as many as are wanted and no more than there are. Behind the end it returns -1.
pub readi-contents :
    (devs : Devices) (s : FsState) (i off n : ℕ)
    → (s.inodes i).type ≢ 3
    → Mapped s i
    → off + n < 4294967296
    → readi devs s i off n
      ≡ ok (
        s,
        (if ltb (s.inodes i).size off
            then none
            else some (contents s i off (min n ((s.inodes i).size - off)))),
      )
unfolding readi read_file
readi-contents devs s i off n t h l =
    let size = (s.inodes i).size in
    let file : ((s.inodes i).type == 3) ≡ false = ==-of_ne _ 3 t in
    let fits : leb 4294967296 (off + n) ≡ false = ground arith in
    elim (Bool-cases (ltb size off)) [
      | inl past ↦ rw (file, past)
      | inr ok_off ↦
          let inside : off ≤ size = ground arith in
          elim (Bool-cases (ltb size (off + n))) [
            | inl cut ↦
                let m : min n (size - off) ≡ size - off = ground arith in
                rw (file, ok_off, fits, cut, m)
                  (ap (λ (x : Result (FsState × List ℕ)). x >>= λ (s1, bs). ok (s1, some bs))
                    (read_loop-contents (size - off + 1) s i off (size - off) h (omega arith)
                      (omega arith)))
            | inr whole ↦
                let m : min n (size - off) ≡ n = ground arith in
                rw (file, ok_off, fits, whole, m)
                  (ap (λ (x : Result (FsState × List ℕ)). x >>= λ (s1, bs). ok (s1, some bs))
                    (read_loop-contents (n + 1) s i off n h (ground arith) (omega arith)))
          ]
    ]
