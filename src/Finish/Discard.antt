-- ===== src/Finish/Discard.antt =====
-- copy2.cpp, `finishProcessorOne`: what becomes of a file whose copy has errors.
use copy.Prelude.{ℕ, false, some, ◌≡◌, ◌≢◌, refl, ◌∙◌, ◌==◌, arith}
use copy.Filejob.{FileCopyJob, Statx}
use copy.Shared.{Opts}
use copy.HLink.Lmdb.{Lmdb}
use copy.World.{Bytes, World, ◌>>◌, modify, string_at, count_finished}
use copy.World.Steps.{bind_done}
use copy.Syscalls.{Kernel, Reply, ok, errno, at_symlink_nofollow, statx_wrapper, unlinkat_wrapper}
use copy.Fdrc.{fd_of, release_fdrc}
use copy.Finish.{base_name, close_source, trim_dest, names_of, judge, finish_processor_one}

module _ {Fs : Type 0} (os : Kernel Fs) (db : Lmdb Fs) (opts : Opts) (fuel : ℕ) where
  judge_errors :
      (job : FileCopyJob) (errors dirfd : ℕ) (remote src name : Bytes) (r : Reply Statx)
      (w : World Fs)
      → errors ≢ 0
      → judge os db opts fuel job errors dirfd remote src name r w
        ≡ some (record { success = false; partial_deleted = false }, w)
  unfolding judge
  judge_errors job errors dirfd remote src name (errno e) w bad = refl
  judge_errors job errors dirfd remote src name (ok st) w bad =
      let b : (errors == 0) ≡ false = ground arith in ground arith

  -- A file with a partial copy that had errors, the cut to its final size included: whatever the look
  -- at the destination says, what follows that look is only the removal of the partial file, the
  -- count of the finished file and the release of the directory. What stands under the file's own name
  -- is not touched, and no bytes are counted.
  pub finish_processor_one_discards :
      (job : FileCopyJob) (p errors dirfd : ℕ) (remote partial : Bytes) (r : Reply Statx)
      (w w₀ w₁ w₂ : World Fs)
      → job.partial ≡ some p
      → job.is_dot ≡ false
      → close_source os db opts fuel job w ≡ some (tt, w₀)
      → trim_dest os db opts fuel job w₀ ≡ some (errors, w₁)
      → errors ≢ 0
      → string_at job.remote w₁ ≡ some (remote, w₁)
      → fd_of job.dst_dir_fd w₁ ≡ some (dirfd, w₁)
      → string_at job.partial w₁ ≡ some (partial, w₁)
      → statx_wrapper os dirfd (base_name partial) at_symlink_nofollow w₁ ≡ some (r, w₂)
      → finish_processor_one os db opts fuel job w
        ≡ (do
          unlinkat_wrapper os dirfd (base_name partial) 0
          modify (count_finished 1)
          release_fdrc os job.dst_dir_fd)
            w₂
  unfolding finish_processor_one
  finish_processor_one_discards job p errors dirfd remote partial r w w₀ w₁ w₂ hp dot close trim bad
        at_remote at_dir at_partial look =
      bind_done (close_source os db opts fuel job) _ w tt w₀ close
      ∙ bind_done (trim_dest os db opts fuel job) _ w₀ errors w₁ trim
      ∙ bind_done (string_at job.remote) _ w₁ remote w₁ at_remote
      ∙ bind_done (fd_of job.dst_dir_fd) _ w₁ dirfd w₁ at_dir
      ∙ bind_done (names_of os db opts fuel job remote) _ w₁ (base_name partial, base_name remote)
          w₁ named
      ∙ bind_done (statx_wrapper os dirfd (base_name partial) at_symlink_nofollow) _ w₁ r w₂ look
      ∙ bind_done
          (judge os db opts fuel job errors dirfd remote (base_name partial) (base_name remote) r) _
          w₂ (record { success = false; partial_deleted = false }) w₂
          (judge_errors job errors dirfd remote (base_name partial) (base_name remote) r w₂ bad)
      ∙ simp hp refl
    where
      named :
          names_of os db opts fuel job remote w₁ ≡ some ((base_name partial, base_name remote), w₁)
      named =
          let found : string_at (some p) w₁ ≡ some (partial, w₁) = simp hp at at_partial in
          unfold names_of in simp (dot, hp) (bind_done (string_at (some p)) _ w₁ partial w₁ found)
