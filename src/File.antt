-- ===== src/File.antt =====
-- OS/HW4/xv6-proj/file.c: the table of open files. `fileclose` and `filewrite`, which are transactions of
-- the log, are left out.
pub mod Read
use hyu_3rd_1se.Prelude.{
  ℕ, zero, suc, ◌+◌, Bool, true, false, not, Option, none, some, List, length, ltb, ◌==◌,
  if◌then◌else◌, update, Result, ok, fault, panic, ◌>>=◌,
}
use hyu_3rd_1se.Proc.{u32}
use hyu_3rd_1se.Kernel.{Kernel}
use hyu_3rd_1se.Pipe.{Pipe, PipeState, piperead}
use hyu_3rd_1se.Fs.{FsState}
use hyu_3rd_1se.Fs.Inodes.{ilock, iunlock}
use hyu_3rd_1se.Fs.Content.{Devices, readi, Stat, stati}

abbrev pub nfile : ℕ
nfile = 100

-- `type` with the pointer that goes with it.
pub data FileType : Type 0 where
  fd_none : FileType
  fd_pipe : ℕ → FileType
  fd_inode : ℕ → FileType

pub record File : Type 0 where
  pub type : FileType
  pub ref : ℕ
  pub readable : Bool
  pub writable : Bool
  pub off : ℕ

-- `ftable`, with the pipes and the file system.
pub record Files : Type 0 where
  pub file : ℕ → File
  pub pipes : ℕ → Pipe
  pub kernel : Kernel
  pub fs : FsState

abbrev pub set_file : Files → ℕ → File → Files
set_file s f v = record s { file = update s.file f v }

-- The loop of `filealloc` from entry `f` on.
unfoldable pub free_file : ℕ → ℕ → Files → Option ℕ
free_file zero f s = none
free_file (suc rounds) f s =
    let next = free_file rounds (suc f) s in if (s.file f).ref == 0 then some f else next

unfoldable pub filealloc : Files → Files × Option ℕ
filealloc s = elim (free_file nfile 0 s) [
  | none ↦ (s, none)
  | some f ↦ (set_file s f (record (s.file f) { ref = 1 }), some f)
]

unfoldable pub filedup : Files → ℕ → Result Files
filedup s f =
    if ltb (s.file f).ref 1
    then fault panic
    else ok (set_file s f (record (s.file f) { ref = (s.file f).ref + 1 }))

-- `filestat`; none stands for -1.
unfoldable pub filestat_of : Files → FileType → Result (Files × Option Stat)
filestat_of s (fd_inode i) = ilock s.fs i >>= λ s1.
    iunlock s1 i >>= λ s2. ok (record s { fs = s2 }, some (stati (s1.inodes i)))
filestat_of s fd_none = ok (s, none)
filestat_of s (fd_pipe p) = ok (s, none)

unfoldable pub filestat : Files → ℕ → Result (Files × Option Stat)
filestat s f = filestat_of s (s.file f).type

-- `f->off += r` for the bytes that were read.
abbrev pub advance : Files → ℕ → Option (List ℕ) → Files
advance s f none = s
advance s f (some bs) =
    if ltb 0 (length bs)
    then set_file s f (record (s.file f) { off = u32 ((s.file f).off + length bs) })
    else s

-- `fileread` of a readable file, by its type.
unfoldable pub fileread_of :
    Devices
    → (PipeState → PipeState)
    → ℕ
    → Files
    → ℕ
    → ℕ
    → FileType
    → Result (Files × Option (List ℕ))
fileread_of devs others rounds s f n (fd_pipe p) =
    piperead others rounds (record { kernel = s.kernel; pipe = s.pipes p }) n >>= λ (s1, r).
    ok (record s { kernel = s1.kernel; pipes = update s.pipes p s1.pipe }, r)
fileread_of devs others rounds s f n (fd_inode i) = ilock s.fs i >>= λ s1.
    readi devs s1 i (s.file f).off n >>= λ (s2, r).
    iunlock s2 i >>= λ s3. ok (advance (record s { fs = s3 }) f r, r)
fileread_of devs others rounds s f n fd_none = fault panic

-- `fileread` of at most `n` bytes; none stands for -1. `others` and `rounds` are for `piperead`.
unfoldable pub fileread :
    Devices → (PipeState → PipeState) → ℕ → Files → ℕ → ℕ → Result (Files × Option (List ℕ))
fileread devs others rounds s f n =
    let bytes = fileread_of devs others rounds s f n (s.file f).type in
    if (s.file f).readable then bytes else ok (s, none)
