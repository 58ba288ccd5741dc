-- ===== src/Tests/Directory.antt =====
-- dirlookup and dirlink at a directory with one entry and room for another.
use hyu_3rd_1se.Prelude.{
  ℕ, zero, suc, ◌*◌, ◌<◌, ◌≡◌, ◌≢◌, refl, true, false, some, [], ◌∷◌, ◌==◌, if◌then◌else◌, ok,
  ◌>>=◌, arith,
}
use hyu_3rd_1se.Disk.{Block}
use hyu_3rd_1se.Fs.{Inode, FsState}
use hyu_3rd_1se.Fs.Inodes.{iget}
use hyu_3rd_1se.Fs.Content.Lookup.{block_of}
use hyu_3rd_1se.Fs.Content.Read.{contents}
use hyu_3rd_1se.Fs.Content.Write.{IsFile}
use hyu_3rd_1se.Fs.Dir.{namecmp, strncmp, dirlink, dirlookup, dirent_inum}
use hyu_3rd_1se.Fs.Dir.Entries.{IsDir, dirent, has_name, Looked, dirlookup-Looked}
use hyu_3rd_1se.Fs.Dir.Link.{dirlookup-dirlink}
use hyu_3rd_1se.Tests.Files.{super, blocks_8, file, empty_inode, no_devices}

-- Inode 1 under the name `.`, then an empty entry.
abbrev entries : Block
entries x = if x == 0 then 1 else if x == 2 then b'.' else 0

abbrev directory : Inode
directory = record file { type = 1; size = 32; addrs = λ j. if j == 0 then 5 else 0 }

abbrev dir_fs : FsState
dir_fs = record {
  blocks = λ b. if b == 5 then entries else blocks_8 b;
  logged = [];
  sb = super;
  inodes = λ i. if i == 0 then directory else empty_inode;
}

directory_mapped : (bn : ℕ) → bn * 512 < 32 → block_of dir_fs 0 bn ≢ 0
directory_mapped zero l = omega arith
directory_mapped (suc bn) l = absurd (omega arith)

directory_distinct :
    (x y : ℕ) → x * 512 < 32 → y * 512 < 32 → block_of dir_fs 0 x ≡ block_of dir_fs 0 y → x ≡ y
directory_distinct zero zero a b e = refl
directory_distinct (suc x) y a b e = absurd (omega arith)
directory_distinct zero (suc y) a b e = absurd (omega arith)

dir_fs-IsFile : IsFile dir_fs 0
dir_fs-IsFile = record {
  mapped = directory_mapped;
  distinct = directory_distinct;
  apart_indirect = λ x a. directory_mapped x a;
  apart_double = λ x a. directory_mapped x a;
  apart_inner = λ x k a l. directory_mapped x a;
}

dir_fs-IsDir : IsDir dir_fs 0
dir_fs-IsDir = record {
  is_dir = refl;
  mapped = directory_mapped;
  whole = refl;
  small = omega arith;
}

new_name : (j : ℕ) → 16 * j < 32 → has_name dir_fs 0 (b'a' ∷ []) j ≡ false
unfolding contents namecmp strncmp
new_name zero l = refl
new_name (suc zero) l = refl
new_name (suc (suc j)) l = absurd (omega arith)

second_empty : dirent_inum (dirent dir_fs 0 1) ≡ 0
unfolding contents
second_empty = refl

dirlookup-Looked_example : Looked dir_fs 0 (b'.' ∷ []) 0 (dirlookup no_devices dir_fs 0 (b'.' ∷ []))
dirlookup-Looked_example = dirlookup-Looked no_devices dir_fs 0 (b'.' ∷ []) dir_fs-IsDir

dirlookup-dirlink_example :
    (k : ℕ) × (s' : FsState) × (16 * k < 32)
    × (dirent_inum (dirent dir_fs 0 k) ≡ 0)
    × (dirlink no_devices dir_fs 0 (b'a' ∷ []) 7 ≡ ok (s', true))
    × ((j : ℕ) → j ≢ k → 16 * j < 32 → dirent s' 0 j ≡ dirent dir_fs 0 j)
    × (s'.inodes ≡ dir_fs.inodes)
    × (dirlookup no_devices s' 0 (b'a' ∷ [])
        ≡ (iget s' (s'.inodes 0).dev 7 >>= λ (s2, i). ok (s2, some (i, 16 * k))))
dirlookup-dirlink_example =
    dirlookup-dirlink no_devices dir_fs 0 7 1 (b'a' ∷ []) dir_fs-IsDir dir_fs-IsFile (omega arith)
      (omega arith) (omega arith) new_name (omega arith) second_empty
