-- ===== src/Tests/Opened.antt =====
-- file.c at an open file of the small disk.
use hyu_3rd_1se.Prelude.{ℕ, ◌≡◌, ◌≢◌, refl, true, false, some, ok, arith}
use hyu_3rd_1se.Scenario.{kernel}
use hyu_3rd_1se.Fs.Content.Read.{contents}
use hyu_3rd_1se.File.{File, Files, fd_inode, fileread}
use hyu_3rd_1se.File.Read.{IsOpen, fileread-contents}
use hyu_3rd_1se.Tests.Pipes.{page}
use hyu_3rd_1se.Tests.Files.{small_fs, no_devices, file_mapped}

-- The file of 600 bytes, read up to byte 500.
abbrev opened : File
opened = record { type = fd_inode 0; ref = 1; readable = true; writable = false; off = 500 }

abbrev open_files : Files
open_files = record { file = λ f. opened; pipes = λ p. page; kernel = kernel; fs = small_fs }

small_fs-IsOpen : IsOpen small_fs 0
small_fs-IsOpen = record {
  cached = refl;
  unlocked = refl;
  held = omega arith;
  regular = λ e. absurd (omega (arith, e));
  mapped = file_mapped;
}

fileread-contents_example :
    (s' : Files) × (fileread no_devices (λ s. s) 1 open_files 3 200
      ≡ ok (s', some (contents small_fs 0 500 100)))
    × (s'.file 3 ≡ record opened { off = 600 })
    × ((g : ℕ) → g ≢ 3 → s'.file g ≡ opened)
    × (s'.fs.blocks ≡ small_fs.blocks)
    × (s'.fs.logged ≡ small_fs.logged)
    × ((j : ℕ) → s'.fs.inodes j ≡ small_fs.inodes j)
    × (s'.pipes ≡ open_files.pipes)
    × (s'.kernel ≡ kernel)
fileread-contents_example =
    fileread-contents no_devices (λ s. s) 1 open_files 3 0 200 refl refl small_fs-IsOpen
      (omega arith) (omega arith)
