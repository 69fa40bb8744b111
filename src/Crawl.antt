-- ===== src/Crawl.antt =====
-- copy2.cpp: the crawl. It decides for each entry of the source whether it is transferred.
--
-- The results are 0, 1, and 1 again for -1. The hash that names a partial file is a parameter.
pub mod Unchanged
pub mod Queueing
pub mod Directory
mod Tests
use copy.Prelude.{
  ℕ, zero, suc, Bool, true, false, not, ◌&&◌, ◌||◌, Option, none, some, List, [], ◌∷◌, ◌++◌, ◌==◌,
  ltb, leb, if◌then◌else◌, add64, ◌*◌, ◌+◌, length,
}
use copy.Filejob.{
  FileCopyJob, Statx, no_statx, no_file_job, s_isreg, s_islnk, block_size, align_up,
  direct_io_align,
}
use copy.Shared.{Opts}
use copy.HLink.Lmdb.{Lmdb}
use copy.HLink.Links.{LinkRequest, Verdict, verdict, register_link_root}
use copy.PathOk.{slash, dot}
use copy.World.{
  Bytes, World, Action, ◌>>=◌, ◌>>◌, pure, modify, gets, string_at, new_string, enqueue_job,
  enqueue_finish, count_finished,
}
use copy.Syscalls.{
  Kernel, Reply, ok, errno, enoent, at_symlink_nofollow, o_direct, o_noatime, o_rdwr, o_creat,
  close_wrapper, ftruncate_wrapper, statx_wrapper, openat_wrapper, unlinkat_wrapper,
  readlinkat_wrapper, symlinkat_wrapper,
}
use copy.Fdrc.{fd_of, incref, release_fdrc}
use copy.Finish.{base_name}

-- ".partial".
abbrev partial_suffix : Bytes
partial_suffix = dot ∷ 0x70 ∷ 0x61 ∷ 0x72 ∷ 0x74 ∷ 0x69 ∷ 0x61 ∷ 0x6c ∷ []

-- What the crawl knows of one file.
pub record Seen : Type 0 where
  pub path : Option ℕ
  pub partial : Option ℕ
  pub name : Bytes
  pub partial_name : Bytes
  pub src_dir : ℕ
  pub dst_dir : ℕ
  pub dst_fd_ref : Option ℕ
  pub stx : Statx

module _ {Fs : Type 0} (os : Kernel Fs) (db : Lmdb Fs) (opts : Opts) (hash_name : Bytes → Bytes)
    (fuel : ℕ) where
  -- `readSymlink`: the buffer grows by 512 bytes until the result is shorter than it. The source keeps
  -- the size it has grown to for the next call, which has no influence on the result.
  unfoldable pub read_symlink : ℕ → ℕ → ℕ → Bytes → Action Fs (Option Bytes)
  read_symlink zero size fd path w = none
  read_symlink (suc n) size fd path w =
      let again = read_symlink n (add64 size 512) fd path in
      (do
        r ← readlinkat_wrapper os fd path size
        elim r [
          | errno e ↦ pure none
          | ok target ↦ if leb size (length target) then again else pure (some target)
        ])
        w

  abbrev pub finish_job : Seen → Bool → Option ℕ → FileCopyJob
  finish_job x first_look partial = record no_file_job {
    first_look = first_look;
    remote = x.path;
    partial = partial;
    stx = x.stx;
    dst_dir_fd = x.dst_fd_ref;
  }

  -- A file that goes to the finish queue without a copy of its bytes holds its directory.
  unfoldable pub hand_over : Seen → Bool → Option ℕ → Action Fs (Unit {0})
  hand_over x first_look partial = do
    incref x.dst_fd_ref
    modify (enqueue_finish (finish_job x first_look partial))

  abbrev pub copy_job : Seen → Bool → ℕ → ℕ → FileCopyJob
  copy_job x first_look src dst = record no_file_job {
    first_look = first_look;
    remote = x.path;
    partial = x.partial;
    stx = x.stx;
    src_fd = some src;
    dst_fd = some dst;
    file_block_size =
        block_size x.stx.stx_size (64 * 1048576) opts.min_block_size opts.max_block_size;
    dst_dir_fd = x.dst_fd_ref;
  }

  -- With both files open and the result of the truncation.
  unfoldable pub queue_copy : Seen → Bool → ℕ → ℕ → ℕ → Action Fs ℕ
  queue_copy x first_look src_fd dst_fd e =
      if not (e == 0) then (do close_wrapper os src_fd; close_wrapper os dst_fd; pure 1) else (do
        modify (λ w. record w {
          total_bytes_seen_and_will_transfer =
              add64 w.total_bytes_seen_and_will_transfer x.stx.stx_size;
        })
        incref x.dst_fd_ref
        modify (enqueue_job (copy_job x first_look src_fd dst_fd))
        pure 0)

  -- With the source open, and the outcome of opening the destination.
  unfoldable pub open_dest : Seen → Bool → ℕ → Reply ℕ → Action Fs ℕ
  unfolding queue_copy
  open_dest x first_look src_fd (errno e) = do close_wrapper os src_fd; pure 1
  open_dest x first_look src_fd (ok dst_fd) = do
    e ← ftruncate_wrapper os dst_fd (align_up x.stx.stx_size direct_io_align)
    queue_copy x first_look src_fd dst_fd e

  unfoldable pub open_source : Seen → Bool → Reply ℕ → Action Fs ℕ
  unfolding open_dest
  open_source x first_look (errno e) = pure 1
  open_source x first_look (ok src_fd) = do
    dst ←
        openat_wrapper os x.dst_dir x.partial_name (o_rdwr + o_creat + o_direct + o_noatime)
          x.stx.stx_mode
    open_dest x first_look src_fd dst

  -- A regular file: both files are opened, the destination gets its rounded length, and a job is
  -- queued. An error closes what was opened.
  unfoldable pub transfer_regular : Seen → Bool → Action Fs ℕ
  unfolding open_source
  transfer_regular x first_look = do
    src ← openat_wrapper os x.src_dir x.name (o_direct + o_noatime) 0
    open_source x first_look src

  unfoldable pub transfer_symlink : Seen → Verdict → Action Fs ℕ
  unfolding read_symlink hand_over
  transfer_symlink x v = do
    contents ← read_symlink fuel 512 x.src_dir x.name
    elim contents [
      | none ↦ pure 1
      | some target ↦ do
        e ← symlinkat_wrapper os target x.dst_dir x.partial_name
        if not (e == 0) then pure 1 else (do
          (if not v.is_pending_hardlink && v.is_first_look
              then hand_over x v.is_first_look x.partial
              else pure tt)
          pure 0)
    ]

  -- What follows the decision.
  unfoldable pub carry_out : Seen → Verdict → Action Fs ℕ
  unfolding transfer_regular transfer_symlink hand_over
  carry_out x v =
      if v.should_transfer
      then (do
        unlinkat_wrapper os x.dst_dir x.partial_name 0
        if s_isreg x.stx.stx_mode
            then transfer_regular x v.is_first_look
            else if s_islnk x.stx.stx_mode
            then transfer_symlink x v
            else pure 0)
      else (do
        (if not v.is_pending_hardlink && v.is_first_look
            then hand_over x v.is_first_look none
            else if not v.is_pending_hardlink && not v.is_first_look
            then modify (count_finished 1)
            else pure tt)
        pure 0)

  -- Whether to transfer: the destination is missing, or differs in its time or size.
  abbrev pub differs : Statx → Option Statx → Bool
  differs stx none = true
  differs stx (some dst) =
      not (stx.stx_mtime == dst.stx_mtime) || not (stx.stx_size == dst.stx_size)

  -- `destStx` is all zeros where the destination does not exist.
  abbrev pub stx_or_zero : Option Statx → Statx
  stx_or_zero none = no_statx
  stx_or_zero (some s) = s

  -- The decision: files with several links, on either side, go through the link tables.
  unfoldable pub decide : Seen → Option Statx → Action Fs Verdict
  decide x dst =
      let d = stx_or_zero dst in
      if ltb 1 x.stx.stx_nlink || ltb 1 d.stx_nlink
      then (do
        v ←
            register_link_root os db fuel
              (record {
                remote_ref = x.path;
                src_inode = x.stx.stx_ino;
                dest_inode = d.stx_ino;
                dest_exists = elim dst [ none ↦ false | some s ↦ true ];
                src_nlinks_expected = x.stx.stx_nlink;
                dest_nlinks_expected = d.stx_nlink;
                dst_fd_ref = x.dst_fd_ref;
              })
              (differs x.stx dst)
        pure (if v.is_pending_hardlink then record v { should_transfer = false } else v))
      else pure (verdict (differs x.stx dst) true false)

  abbrev pub count_seen : Statx → World Fs → World Fs
  count_seen stx w = record w {
    total_bytes_seen =
        if s_isreg stx.stx_mode then add64 w.total_bytes_seen stx.stx_size else w.total_bytes_seen;
  }

  -- The look at the destination: `none` for an error other than `ENOENT`.
  abbrev pub looked : Reply Statx → Option (Option Statx)
  looked (ok s) = some (some s)
  looked (errno e) = if e == enoent then some none else none

  abbrev pub count_file : World Fs → World Fs
  count_file w = record w { files_seen = add64 w.files_seen 1 }

  unfoldable pub after_look : Seen → Option Statx → Action Fs ℕ
  unfolding decide carry_out
  after_look x d = do modify count_file; v ← decide x d; modify (count_seen x.stx); carry_out x v

  -- From the look at the destination on.
  unfoldable pub process_seen : Seen → Action Fs ℕ
  unfolding after_look
  process_seen x = do
    dst ← statx_wrapper os x.dst_dir x.name at_symlink_nofollow
    elim (looked dst) [ none ↦ pure 1 | some d ↦ after_look x d ]

  unfoldable pub process_non_dir : Option ℕ → Option ℕ → Option ℕ → Action Fs ℕ
  unfolding process_seen
  process_non_dir path src_ref dst_ref = do
    src_dir ← fd_of src_ref
    dst_dir ← fd_of dst_ref
    remote ← string_at path
    partial ← new_string (remote ++ hash_name remote ++ partial_suffix)
    partial_path ← string_at partial
    src ← statx_wrapper os src_dir (base_name remote) at_symlink_nofollow
    rc ← elim src [
      | errno e ↦ pure 1
      | ok stx ↦ process_seen (record {
        path = path;
        partial = partial;
        name = base_name remote;
        partial_name = base_name partial_path;
        src_dir = src_dir;
        dst_dir = dst_dir;
        dst_fd_ref = dst_ref;
        stx = stx;
      })
    ]
    release_fdrc os dst_ref
    release_fdrc os src_ref
    pure rc
