-- ===== src/Crawl/Directory.antt =====
-- copy2.cpp, `processDir`: the crawl of a directory.
--
-- `dup` and `faccessat` are called without a wrapper; `Extra` has them. The tasks of a task group run
-- one after another, in the order in which they are created. The counter `ndirs`, which only the
-- logger reads, is left out. The results are 0 and, for -1, 1. `depth` bounds the depth.
use copy.Prelude.{
  ℕ, zero, suc, ◌+◌, Bool, true, false, not, ◌&&◌, Option, none, some, List, [], ◌∷◌, ◌++◌, ◌==◌,
  if◌then◌else◌, add64, length,
}
use copy.Filejob.{Statx}
use copy.Shared.{Opts}
use copy.HLink.Lmdb.{Lmdb}
use copy.PathOk.{slash}
use copy.World.{Bytes, Fdrc, Action, ◌>>=◌, ◌>>◌, pure, modify, gets, call, string_at, new_string}
use copy.Syscalls.{
  Kernel, Reply, ok, errno, Entry, eexist, at_symlink_nofollow, o_directory, o_noatime, sem_wait,
  openat_wrapper, fdopendir_wrapper, closedir_wrapper, readdir_wrapper, statx_wrapper,
  mkdirat_wrapper,
}
use copy.Fdrc.{fd_of, incref, release_fdrc}
use copy.Remove.{is_dot_name, recursive_remove}
use copy.Finish.{base_name}
use copy.Crawl.{process_non_dir}

pub record Extra (Fs : Type 0) : Type 0 where
  pub dup : ℕ → Fs → Reply ℕ × Fs
  -- Whether the name is there.
  pub faccessat : ℕ → Bytes → Fs → Bool × Fs

-- A directory that is crawled: its path and its string, the parent at the destination, and its own
-- descriptor and state at the source.
pub record Place : Type 0 where
  pub path : Option ℕ
  pub remote : Bytes
  pub dst_dir : ℕ
  pub fd : ℕ
  pub stx : Statx

module _ {Fs : Type 0} where
  abbrev new_fdrc : Fdrc → Action Fs (Option ℕ)
  new_fdrc x w = some (some (length w.fdrcs), record w { fdrcs = w.fdrcs ++ x ∷ [] })

module _ {Fs : Type 0} (os : Kernel Fs) (ex : Extra Fs) (db : Lmdb Fs) (opts : Opts)
    (hash_name : Bytes → Bytes) (fuel : ℕ) where
  -- The entries of the destination that the source does not have, the last one read first.
  unfoldable pub missing_entries :
      ℕ → Bytes → List Entry → List (Option ℕ) → Action Fs (List (Option ℕ))
  missing_entries src_fd remote [] found = pure found
  missing_entries src_fd remote ((name, is_dir) ∷ es) found = do
    there ← call (ex.faccessat src_fd name)
    if there then missing_entries src_fd remote es found else (do
      r ← new_string (remote ++ slash ∷ name)
      missing_entries src_fd remote es (r ∷ found))

  unfoldable pub remove_all : ℕ → List (Option ℕ) → Action Fs (Unit {0})
  remove_all dest_root [] = pure tt
  remove_all dest_root (r ∷ rs) = do recursive_remove os dest_root fuel 0 r; remove_all dest_root rs

  -- With the stream over the destination: it is closed before anything is removed.
  unfoldable pub prune_stream : ℕ → Bytes → Reply ℕ → Action Fs Bool
  unfolding missing_entries remove_all
  prune_stream src_fd remote (errno e) = pure false
  prune_stream src_fd remote (ok dir) = do
    entries ← readdir_wrapper os dir
    extra ← missing_entries src_fd remote entries []
    closedir_wrapper os dir
    dest_root ← gets (λ w. w.dest_root_fd)
    remove_all dest_root extra
    pure true

  unfoldable pub prune_opened : ℕ → Bytes → Reply ℕ → Action Fs Bool
  unfolding prune_stream
  prune_opened src_fd remote (errno e) = pure false
  prune_opened src_fd remote (ok fd) = do
    dir ← fdopendir_wrapper os fd
    prune_stream src_fd remote dir

  -- The pass of `--sync`: what the source does not have is removed. False where it fails.
  unfoldable pub prune : ℕ → Place → Action Fs Bool
  unfolding prune_opened
  prune src_fd p =
      if opts.sync
      then (do
        fd ← openat_wrapper os p.dst_dir (base_name p.remote) (o_directory + o_noatime) 0
        prune_opened src_fd p.remote fd)
      else pure true

  -- The tasks for the entries, each of which holds both directories.
  unfoldable pub crawl_entries :
      (Option ℕ → Action Fs ℕ)
      → (Option ℕ → Action Fs ℕ)
      → Bytes
      → Option ℕ
      → Option ℕ
      → List Entry
      → Action Fs (Unit {0})
  crawl_entries dir non_dir remote src dst [] = pure tt
  crawl_entries dir non_dir remote src dst ((name, is_dir) ∷ es) =
      let rest = crawl_entries dir non_dir remote src dst es in
      if is_dot_name name then rest else (do
        incref dst
        incref src
        r ← new_string (remote ++ slash ∷ name)
        (if is_dir then dir r else non_dir r)
        rest)

  unfoldable pub crawl_stream :
      (Option ℕ → Option ℕ → Option ℕ → Action Fs ℕ)
      → Place
      → Option ℕ
      → Option ℕ
      → Reply ℕ
      → Action Fs ℕ
  unfolding crawl_entries
  crawl_stream below p src dst (errno e) = pure 1
  crawl_stream below p src dst (ok dir) = do
    entries ← readdir_wrapper os dir
    crawl_entries (λ r. below r src dst) (λ r. process_non_dir os db opts hash_name fuel r src dst)
        p.remote src dst entries
    closedir_wrapper os dir
    pure 0

  -- With the new descriptors of both sides: they are counted, and released at the end.
  unfoldable pub crawl_counted :
      (Option ℕ → Option ℕ → Option ℕ → Action Fs ℕ) → Place → ℕ → Reply ℕ → Action Fs ℕ
  unfolding crawl_stream
  crawl_counted below p src_fd (errno e) = pure 1
  crawl_counted below p src_fd (ok dst_fd) = do
    src ← new_fdrc (record { rc = 1; fd = src_fd; path = p.path; dst = false; src_stx = p.stx })
    dst ← new_fdrc (record { rc = 1; fd = dst_fd; path = p.path; dst = true; src_stx = p.stx })
    modify (λ w. record w { files_seen = add64 w.files_seen 1 })
    dir ← fdopendir_wrapper os p.fd
    rc ← crawl_stream below p src dst dir
    release_fdrc os dst
    release_fdrc os src
    pure rc

  -- From the copy of the source's descriptor on; its slot is taken before, and not given back where
  -- the copy fails.
  unfoldable pub crawl_copied :
      (Option ℕ → Option ℕ → Option ℕ → Action Fs ℕ) → Place → Reply ℕ → Action Fs ℕ
  unfolding prune crawl_counted
  crawl_copied below p (errno e) = pure 1
  crawl_copied below p (ok src_fd) = do
    pruned ← prune src_fd p
    if pruned
        then (do
          dst ← openat_wrapper os p.dst_dir (base_name p.remote) (o_directory + o_noatime) 0
          crawl_counted below p src_fd dst)
        else pure 1

  -- With the directory's state: another device is not entered, and the directory is made at the
  -- destination, unless it is the root.
  unfoldable pub crawl_known :
      (Option ℕ → Option ℕ → Option ℕ → Option ℕ → Action Fs ℕ) → Option ℕ → Place → Action Fs ℕ
  unfolding crawl_copied
  crawl_known below dev p =
      if elim dev [ none ↦ true | some d ↦ p.stx.stx_dev == d ]
      then (do
        e ← elim p.remote [
          | [] ↦ pure {Fs = Fs} {A = ℕ} 0
          | c ∷ q ↦ mkdirat_wrapper os p.dst_dir (base_name p.remote) p.stx.stx_mode
        ]
        if not (e == 0) && not (e == eexist) then pure 1 else (do
          sem_wait
          copy ← call (ex.dup p.fd)
          crawl_copied (below (some p.stx.stx_dev)) p copy))
      else pure 0

  unfoldable pub crawl_opened :
      (Option ℕ → Option ℕ → Option ℕ → Option ℕ → Action Fs ℕ)
      → Option ℕ
      → Option ℕ
      → Bytes
      → ℕ
      → ℕ
      → Reply ℕ
      → Action Fs ℕ
  unfolding crawl_known
  crawl_opened below dev path remote src_dir dst_dir (errno e) = pure 1
  crawl_opened below dev path remote src_dir dst_dir (ok fd) = do
    st ← statx_wrapper os src_dir (base_name remote) at_symlink_nofollow
    elim st [
      | errno e ↦ pure 1
      | ok stx ↦
          crawl_known below dev
            (record { path = path; remote = remote; dst_dir = dst_dir; fd = fd; stx = stx })
    ]

  -- `processDir`: both parents are released at every return.
  unfoldable pub process_dir : ℕ → Option ℕ → Option ℕ → Option ℕ → Option ℕ → Action Fs ℕ
  unfolding crawl_opened
  process_dir zero dev path src dst w = none
  process_dir (suc depth) dev path src dst w =
      (do
        src_dir ← fd_of src
        dst_dir ← fd_of dst
        remote ← string_at path
        fd ← openat_wrapper os src_dir (base_name remote) (o_directory + o_noatime) 0
        rc ← crawl_opened (process_dir depth) dev path remote src_dir dst_dir fd
        release_fdrc os dst
        release_fdrc os src
        pure rc)
        w
