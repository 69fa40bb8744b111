-- ===== src/Crawl/Tests.antt =====
-- The parts that call the file system, on a kernel that does nothing but count its open descriptors.
use copy.Prelude.{
  ℕ, ◌+◌, ◌-◌, true, false, some, [], ◌∷◌, ◌≡◌, refl, arith, Ensures, ltb, if◌then◌else◌,
}
use copy.Filejob.{FileCopyJob, Statx, no_statx, no_file_job}
use copy.Shared.{Opts}
use copy.HLink.Lmdb.{Lmdb, not_found}
use copy.HLink.Links.{LinkRequest, register_link_root, apply_links}
use copy.HLink.Links.Pending.{IsConsistent, apply_links-Returns, register_link_root-IsConsistent}
use copy.World.Steps.{Returns}
use copy.World.{Fdrc, World, ◌>>=◌, ◌>>◌, pure, modify, count_finished}
use copy.Syscalls.{
  Kernel, ok, errno, openat_wrapper, close_wrapper, fdopendir_wrapper, statx_wrapper,
  unlinkat_wrapper, o_directory, ftruncate_wrapper, readdir_wrapper, closedir_wrapper,
}
use copy.Syscalls.Descriptors.{
  CountsOpen, Balanced, slots, openat_wrapper-Balanced, fdopendir_wrapper_leak,
}
use copy.PathOk.{path_ok}
use copy.Fdrc.{dot_job, release_fdrc, fd_of}
use copy.Fdrc.Release.{release_fdrc_twice}
use copy.Remove.{
  recursive_remove, after_unlink, remove_dir, stream_dir, empty_dir, collect, for_nodes,
}
use copy.Remove.Slots.{recursive_remove-fd_sem}
use copy.Finish.{base_name, close_source, trim_dest, finish_processor_one}
use copy.Finish.Discard.{finish_processor_one_discards}
use copy.Crawl.{Seen, process_seen, transfer_regular}
use copy.Crawl.Queueing.{StaysFit, transfer_regular-IsFit}
use copy.Crawl.Unchanged.{process_seen_unchanged}

-- Every file has this state.
abbrev stx : Statx
stx = record no_statx { stx_mode = 0x8000; stx_size = 10; stx_nlink = 1; stx_mtime = 5 }

-- The file system is its number of open descriptors; a directory never opens as a stream, and every
-- removal finds a directory.
abbrev counting : Kernel ℕ
counting = record {
  fchownat = λ d p o g f s. (0, s);
  fchmodat = λ d p m f s. (0, s);
  ftruncate = λ d n s. (0, s);
  utimensat = λ d p t f s. (0, s);
  symlinkat = λ t d p s. (0, s);
  readlinkat = λ d p n s. (ok [], s);
  renameat = λ d p e q s. (0, s);
  closedir = λ d s. (0, s - 1);
  close = λ d s. (0, s - 1);
  openat = λ d p f m s. (ok (s + 3), s + 1);
  fdopendir = λ d s. (errno 12, s);
  statx = λ d p f s. (ok stx, s);
  linkat = λ d p e q f s. (0, s);
  unlinkat = λ d p f s. (21, s);
  mkdirat = λ d p m s. (0, s);
  readdir = λ d s. ([], s);
}

counting-CountsOpen : CountsOpen counting (λ s. s)
counting-CountsOpen = record { openat = λ d p f m s. refl; fdopendir = λ d s. refl }

-- A store with nothing in it.
abbrev empty : Lmdb ℕ
empty = record {
  mdb_get = λ x d k s. not_found;
  mdb_put = λ d k v s. some s;
  mdb_del = λ d k s. not_found;
  commit_and_begin = λ s. some s;
  reset_and_renew = λ s. s;
}

abbrev opts : Opts
opts = record {
  min_block_size = 4096;
  max_block_size = 134217728;
  preserve_atime = false;
  readback = false;
  sparse = false;
  sync = false;
}

-- The file "a" in an open directory of the destination, and its partial file "ap".
abbrev directory : Fdrc
directory = record { rc = 1; fd = 7; path = some 0; dst = true; src_stx = no_statx }

abbrev world : World ℕ
world = record {
  fs = 2;
  fd_sem = 4;
  strings = (0x61 ∷ []) ∷ (0x61 ∷ 0x70 ∷ []) ∷ [];
  fdrcs = directory ∷ [];
  job_queue = [];
  finish_queue = [];
  n_finished = 0;
  files_seen = 0;
  files_removed = 0;
  total_bytes_transferred = 0;
  total_bytes_actually_transferred = 0;
  total_bytes_seen = 0;
  total_bytes_seen_and_will_transfer = 0;
  dest_root_fd = 7;
  forward_table_cache = [];
  rev_table_cache = [];
  max_table_cache_size = 10;
  infos = [];
  rev_infos = [];
}

openat_wrapper-Balanced_example :
    Balanced (λ s. s) 6 (openat_wrapper counting 7 (0x61 ∷ []) o_directory 0 world)
openat_wrapper-Balanced_example =
    openat_wrapper-Balanced (λ s. s) counting counting-CountsOpen 7 (0x61 ∷ []) o_directory 0 world

-- It fails, and the two descriptors stay open.
fdopendir_wrapper_leak_example :
    (w' : World ℕ) × (fdopendir_wrapper counting 7 world ≡ some (errno 12, w'))
    × (w'.fs ≡ 2)
    × (slots (λ s. s) w' + 0 ≡ 6 + 1)
fdopendir_wrapper_leak_example =
    fdopendir_wrapper_leak (λ s. s) counting counting-CountsOpen 7 world

-- A kernel whose directories open, once each, and hold themselves a directory "b".
abbrev streaming : Kernel ℕ
streaming = record counting {
  fdopendir = λ d s. (ok d, s);
  readdir = λ d s. (if ltb s 5 then (0x62 ∷ [], true) ∷ [] else [], s + 2);
}

recursive_remove-fd_sem_example :
    Ensures (λ (r : ℕ × World ℕ). r.1.fd_sem ≡ 4) (recursive_remove streaming 7 3 0 (some 0) world)
recursive_remove-fd_sem_example = recursive_remove-fd_sem streaming 7 3 0 (some 0) world

remove_run : (w : World ℕ) × (recursive_remove streaming 7 3 0 (some 0) world ≡ some (0, w))
unfolding recursive_remove after_unlink remove_dir stream_dir empty_dir collect for_nodes ◌>>=◌
    unlinkat_wrapper openat_wrapper fdopendir_wrapper readdir_wrapper closedir_wrapper path_ok
remove_run = (_, refl)

apply_links-Returns_example :
    Returns (λ n. n ≡ 1) (apply_links counting empty (0x62 ∷ []) ((some 0, some 0) ∷ []) world)
apply_links-Returns_example =
    apply_links-Returns counting empty (0x62 ∷ []) ((some 0, some 0) ∷ []) world

-- The first of two links of inode 8, which is new on either side.
abbrev request : LinkRequest
request = record {
  remote_ref = some 0;
  src_inode = 8;
  dest_inode = 0;
  dest_exists = false;
  src_nlinks_expected = 2;
  dest_nlinks_expected = 0;
  dst_fd_ref = some 0;
}

register_link_root-IsConsistent_example :
    Returns IsConsistent (register_link_root counting empty 1 request true world)
register_link_root-IsConsistent_example =
    register_link_root-IsConsistent counting empty 1 request true world

release_fdrc_twice_example :
    (do release_fdrc counting (some 0); release_fdrc counting (some 0)) world
    ≡ (do close_wrapper counting 7; pure tt)
        (record world {
          fdrcs = record directory { dst = false; rc = 0 } ∷ [];
          finish_queue = dot_job (some 0) directory ∷ [];
        })
release_fdrc_twice_example = release_fdrc_twice counting world 0 directory refl refl refl

-- The copy of "a", with an error.
abbrev bad_job : FileCopyJob
bad_job = record no_file_job {
  remote = some 0;
  partial = some 1;
  stx = stx;
  src_fd = some 3;
  dst_fd = some 4;
  n_errors = 1;
  dst_dir_fd = some 0;
}

abbrev closed : World ℕ
closed = record world { fs = 0; fd_sem = 6 }

finish_processor_one_discards_example :
    finish_processor_one counting empty opts 9 bad_job world
    ≡ (do
      unlinkat_wrapper counting 7 (base_name (0x61 ∷ 0x70 ∷ [])) 0
      modify (count_finished 1)
      release_fdrc counting (some 0))
        closed
unfolding close_source trim_dest fd_of ◌>>=◌ close_wrapper statx_wrapper base_name ftruncate_wrapper
    path_ok
finish_processor_one_discards_example =
    finish_processor_one_discards counting empty opts 9 bad_job 1 1 7 (0x61 ∷ []) (0x61 ∷ 0x70 ∷ [])
      (ok stx) world (record world { fs = 1; fd_sem = 5 }) closed closed refl refl refl refl
      (omega arith) refl refl refl refl

abbrev seen : Seen
seen = record {
  path = some 0;
  partial = some 1;
  name = 0x61 ∷ [];
  partial_name = 0x61 ∷ 0x70 ∷ [];
  src_dir = 6;
  dst_dir = 7;
  dst_fd_ref = some 0;
  stx = stx;
}

process_seen_unchanged_example :
    process_seen counting empty opts (λ s. s) 9 seen world
    ≡ some (
      0,
      record world {
        files_seen = 1;
        total_bytes_seen = 10;
        fdrcs = record directory { rc = 2 } ∷ [];
        finish_queue =
            record no_file_job {
              first_look = true;
              remote = some 0;
              stx = stx;
              dst_dir_fd = some 0;
            }
            ∷ [];
      },
    )
unfolding statx_wrapper path_ok
process_seen_unchanged_example =
    process_seen_unchanged counting empty opts (λ s. s) 9 seen 0 directory refl stx refl refl
      (omega arith) (omega arith) world world refl refl

transfer_regular-IsFit_example :
    StaysFit (transfer_regular counting empty opts (λ s. s) 9 seen true world)
transfer_regular-IsFit_example =
    transfer_regular-IsFit counting empty opts (λ s. s) 9 seen (omega arith) (omega arith)
      (omega arith) true world tt
