-- ===== src/Finish.antt =====
-- copy2.cpp, `finishProcessorOne` and `finishProcessor`: a copied file gets its final size, name and
-- attributes.
pub mod Discard
use copy.Prelude.{
  ℕ, zero, suc, Bool, true, false, not, ◌&&◌, ◌||◌, Option, none, some, List, [], ◌∷◌, ◌==◌, leb,
  if◌then◌else◌, add64,
}
use copy.Filejob.{FileCopyJob, Statx, s_isreg, s_islnk}
use copy.Shared.{Opts}
use copy.HLink.Lmdb.{Lmdb}
use copy.HLink.Links.{handle_transfer}
use copy.PathOk.{slash, dot}
use copy.World.{
  Bytes, World, Action, ◌>>=◌, ◌>>◌, pure, assert, modify, gets, string_at, count_finished,
}
use copy.Syscalls.{
  Kernel, Times, Reply, ok, errno, at_symlink_nofollow, close_wrapper, ftruncate_wrapper,
  statx_wrapper, renameat_wrapper, utimensat_wrapper, fchownat_wrapper, fchmodat_wrapper,
  unlinkat_wrapper,
}
use copy.Fdrc.{fd_of, release_fdrc}
use copy.Remove.{recursive_remove}

-- What follows the last slash: `strrchr(s, '/') + 1`, or `s` if there is none.
abbrev after_last : Bytes → Bytes → Bytes
after_last found [] = found
after_last found (c ∷ q) = if c == slash then after_last q q else after_last found q

unfoldable pub base_name : Bytes → Bytes
base_name q = after_last q q

-- What is left of a job after its attributes were applied.
pub record Outcome : Type 0 where
  pub success : Bool
  pub partial_deleted : Bool

abbrev outcome : Bool → Bool → Outcome
outcome s d = record { success = s; partial_deleted = d }

module _ {Fs : Type 0} (os : Kernel Fs) (db : Lmdb Fs) (opts : Opts) (fuel : ℕ) where
  unfoldable pub close_source : FileCopyJob → Action Fs (Unit {0})
  close_source job = elim job.src_fd [ none ↦ pure tt | some fd ↦ do close_wrapper os fd; pure tt ]

  -- The destination gets its size and is closed; the result is the job's number of errors.
  unfoldable pub trim_dest : FileCopyJob → Action Fs ℕ
  trim_dest job = elim job.dst_fd [
    | none ↦ pure job.n_errors
    | some fd ↦ do
      e ← (if s_isreg job.stx.stx_mode then ftruncate_wrapper os fd job.stx.stx_size else pure 0)
      close_wrapper os fd
      pure (if e == 0 then job.n_errors else add64 job.n_errors 1)
  ]

  abbrev no_call : Action Fs ℕ
  no_call = pure 0

  -- A step that is only taken on a condition; true unless it fails.
  abbrev attempt : Bool → Action Fs ℕ → Action Fs Bool
  attempt c m = if c then (do e ← m; pure (e == 0)) else pure true

  abbrev count_bytes : FileCopyJob → World Fs → World Fs
  count_bytes job w = record w {
    total_bytes_transferred = add64 w.total_bytes_transferred job.stx.stx_size;
    total_bytes_actually_transferred =
        if job.actually_transferred
        then add64 w.total_bytes_actually_transferred job.stx.stx_size
        else w.total_bytes_actually_transferred;
  }

  -- The chain of attribute changes, from the times on: each is tried only where the one before
  -- it did not fail, and the pending hard links come last.
  unfoldable pub apply_attributes : FileCopyJob → ℕ → Bytes → Bytes → Statx → Action Fs Bool
  apply_attributes job dirfd remote name st = do
    let times : Times = (
      (if opts.preserve_atime then some (job.stx.stx_atime, job.stx.stx_atime_nsec) else none),
      (job.stx.stx_mtime, job.stx.stx_mtime_nsec),
    )
    timed ←
        attempt
          (not (st.stx_mtime == job.stx.stx_mtime)
            || (opts.preserve_atime && not (st.stx_atime == job.stx.stx_atime)))
          (utimensat_wrapper os dirfd name times at_symlink_nofollow)
    if not timed then pure false else (do
      owned ←
          attempt (not (st.stx_uid == job.stx.stx_uid) || not (st.stx_gid == job.stx.stx_gid))
            (fchownat_wrapper os dirfd name job.stx.stx_uid job.stx.stx_gid at_symlink_nofollow)
      if not owned then pure false else (do
        moded ←
            attempt (not (s_islnk job.stx.stx_mode) && not (st.stx_mode == job.stx.stx_mode))
              (fchmodat_wrapper os dirfd name job.stx.stx_mode 0)
        if not moded
            then pure false
            else (if leb 2 job.stx.stx_nlink
                then (do
                  n ← handle_transfer os db remote job.stx.stx_ino st.stx_ino
                  modify (count_finished n)
                  pure true)
                else pure true)))

  -- What is done to a file that arrived without errors: what stands at its name is removed, the
  -- partial file is renamed to it, and its attributes are set.
  unfoldable pub put_in_place : FileCopyJob → ℕ → Bytes → Bytes → Bytes → Statx → Action Fs Outcome
  unfolding apply_attributes
  put_in_place job dirfd remote src_name name st = do
    dest_root ← gets (λ w. w.dest_root_fd)
    elim job.partial [ none ↦ no_call | some p ↦ recursive_remove os dest_root fuel 0 job.remote ]
    renamed ← elim job.partial [
      | none ↦ pure true
      | some p ↦ do e ← renameat_wrapper os dirfd src_name dirfd name; pure (e == 0)
    ]
    success ← (if renamed then apply_attributes job dirfd remote name st else pure false)
    (if s_isreg job.stx.stx_mode && (success && job.first_look)
        then modify (count_bytes job)
        else pure tt)
    pure (outcome success renamed)

  -- The four cases after the look at the destination.
  unfoldable pub judge :
      FileCopyJob → ℕ → ℕ → Bytes → Bytes → Bytes → Reply Statx → Action Fs Outcome
  unfolding put_in_place
  judge job errors dirfd remote src_name name (errno e) = pure (outcome false false)
  judge job errors dirfd remote src_name name (ok st) =
      if s_isreg job.stx.stx_mode && not (st.stx_size == job.stx.stx_size)
      then pure (outcome false false)
      else if not (errors == 0)
      then pure (outcome false false)
      else put_in_place job dirfd remote src_name name st

  -- The names in the directory of the destination: of what is there now, and of the file.
  unfoldable pub names_of : FileCopyJob → Bytes → Action Fs (Bytes × Bytes)
  names_of job remote =
      if job.is_dot
      then elim job.partial [ some p ↦ λ w. none | none ↦ pure (dot ∷ [], dot ∷ []) ]
      else elim job.partial [
        | none ↦ pure (base_name remote, base_name remote)
        | some p ↦ do partial ← string_at job.partial; pure (base_name partial, base_name remote)
      ]

  unfoldable pub finish_processor_one : FileCopyJob → Action Fs (Unit {0})
  unfolding close_source trim_dest judge names_of
  finish_processor_one job = do
    close_source job
    errors ← trim_dest job
    remote ← string_at job.remote
    dirfd ← fd_of job.dst_dir_fd
    (src_name, name) ← names_of job remote
    st ← statx_wrapper os dirfd src_name at_symlink_nofollow
    out ← judge job errors dirfd remote src_name name st
    (elim job.partial [
      | none ↦ no_call
      | some p ↦ if out.partial_deleted then no_call else unlinkat_wrapper os dirfd src_name 0
    ])
    modify (count_finished 1)
    release_fdrc os job.dst_dir_fd

  -- The loop over the finish queue, oldest job first, with fuel for the jobs: a job may put another
  -- one into the queue. It ends when the queue is empty.
  unfoldable pub finish_processor : ℕ → Action Fs (Unit {0})
  finish_processor zero w = none
  finish_processor (suc n) w =
      let rest = finish_processor n in
      elim w.finish_queue [
        | [] ↦ some (tt, w)
        | job ∷ jobs ↦ (do finish_processor_one job; rest) (record w { finish_queue = jobs })
      ]
