-- ===== src/Filejob.antt =====
-- filejob.h: how a file is cut into blocks, and the job records of the copy scheduler.
--
-- A `size_t` is a number below 2 ^ 64. A reference into the arena (`AllocRef`) is an `Option ℕ`,
-- `none` for the null reference, and so is a descriptor, `none` for a negative one.
pub mod Blocks
pub mod Align
pub mod Sizes
pub mod Ranges
mod Tests
use copy.Prelude.{
  ℕ, zero, suc, ◌+◌, ◌-◌, ◌*◌, ◌/◌, ◌%◌, ◌^◌, ◌<◌, min, max, bit_and, Bool, true, false, Option,
  none, ltb, leb, ◌==◌, if◌then◌else◌, word, add64, sub64, ◌≡◌, refl,
}

-- `std::bit_ceil`: the least power of two that is not below `x`, found by doubling. `fuel` bounds
-- the doublings; 64 are enough for every value whose result fits a `size_t`.
bit_ceil_from : ℕ → ℕ → ℕ → ℕ
bit_ceil_from zero p x = p
bit_ceil_from (suc fuel) p x =
    let rest = bit_ceil_from fuel (2 * p) x in if leb x p then p else rest

unfoldable pub bit_ceil : ℕ → ℕ
unfolding bit_ceil_from
bit_ceil x = bit_ceil_from 64 1 x

-- The parameter `fs_block_size` is not used, as in the source.
unfoldable pub block_size : ℕ → ℕ → ℕ → ℕ → ℕ
unfolding bit_ceil
block_size fsize fs_block_size min_block_size max_block_size =
    max min_block_size (min max_block_size (bit_ceil (fsize / 2)))

-- `(size_t)b`.
abbrev pub size_of_bool : Bool → ℕ
size_of_bool true = 1
size_of_bool false = 0

unfoldable pub block_count : ℕ → ℕ → ℕ
block_count fsize bsize =
    if bsize == 0 then 0 else fsize / bsize + size_of_bool (ltb 0 (fsize % bsize))

-- `(n + align - 1) & ~(align - 1)` over 64 bits; `~m` is 2 ^ 64 - 1 - m.
unfoldable pub align_up : ℕ → ℕ → ℕ
align_up n align = bit_and (sub64 (add64 n align) 1) (word - 1 - sub64 align 1)

abbrev pub direct_io_align : ℕ
direct_io_align = 4096

-- The fields of `struct statx` that the program reads.
pub record Statx : Type 0 where
  pub stx_mode : ℕ
  pub stx_size : ℕ
  pub stx_nlink : ℕ
  pub stx_ino : ℕ
  pub stx_uid : ℕ
  pub stx_gid : ℕ
  pub stx_atime : ℕ
  pub stx_atime_nsec : ℕ
  pub stx_mtime : ℕ
  pub stx_mtime_nsec : ℕ
  pub stx_dev : ℕ

abbrev pub no_statx : Statx
no_statx = record {
  stx_mode = 0;
  stx_size = 0;
  stx_nlink = 0;
  stx_ino = 0;
  stx_uid = 0;
  stx_gid = 0;
  stx_atime = 0;
  stx_atime_nsec = 0;
  stx_mtime = 0;
  stx_mtime_nsec = 0;
  stx_dev = 0;
}

-- `S_ISREG` and `S_ISLNK`: the file type is the four bits from 2 ^ 12 on.
abbrev pub s_isreg : ℕ → Bool
s_isreg mode = mode / 2 ^ 12 % 16 == 8

abbrev pub s_islnk : ℕ → Bool
s_islnk mode = mode / 2 ^ 12 % 16 == 10

pub record FileCopyJob : Type 0 where
  pub active : Bool
  pub first_look : Bool
  pub actually_transferred : Bool
  pub remote : Option ℕ
  pub partial : Option ℕ
  pub stx : Statx
  pub src_fd : Option ℕ
  pub dst_fd : Option ℕ
  pub file_block_size : ℕ
  pub n_block_jobs_scheduled : ℕ
  pub n_block_jobs_finished : ℕ
  pub n_errors : ℕ
  pub is_dot : Bool
  pub dst_dir_fd : Option ℕ

-- `FileCopyJob{}`: all bytes zero. The descriptors of a cleared job are 0 and not -1; nothing reads
-- the fields of a job that is not active, and `none` stands for them.
abbrev pub no_file_job : FileCopyJob
no_file_job = record {
  active = false;
  first_look = false;
  actually_transferred = false;
  remote = none;
  partial = none;
  stx = no_statx;
  src_fd = none;
  dst_fd = none;
  file_block_size = 0;
  n_block_jobs_scheduled = 0;
  n_block_jobs_finished = 0;
  n_errors = 0;
  is_dot = false;
  dst_dir_fd = none;
}

-- `enum RW`.
pub data Rw : Type 0 where
  read write readdst finish : Rw

-- An `iocb` as `io_prep_pread` and `io_prep_pwrite` fill it, with its callback. `io_set_callback`
-- names `rd_done` exactly on reads and `wr_done` exactly on writes.
pub data Iocb : Type 0 where
  no_request : Iocb
  pread pwrite : (fd buf : Option ℕ) (nbytes offset : ℕ) → Iocb

-- `parent` is the index of the file job; `jobno` is the value of the `int` read back as a `size_t`.
pub record BlockCopyJob : Type 0 where
  pub jobno : ℕ
  pub parent : ℕ
  pub cb : Iocb
  pub type : Rw
  pub status : ℕ
  pub offset : ℕ
  pub nbytes : ℕ
  pub buffer : Option ℕ
  pub in_use : Bool
  pub src_hash : ℕ

-- `BlockCopyJob{.data = buffer}`.
abbrev pub blank_block_job : Option ℕ → BlockCopyJob
blank_block_job buffer = record {
  jobno = 0;
  parent = 0;
  cb = no_request;
  type = read;
  status = 0;
  offset = 0;
  nbytes = 0;
  buffer = buffer;
  in_use = false;
  src_hash = 0;
}

block_count_partial : block_count 10000 4096 ≡ 3
unfolding block_count
block_count_partial = refl

block_size_small : block_size 10000 0 4096 134217728 ≡ 8192
unfolding block_size
block_size_small = refl
