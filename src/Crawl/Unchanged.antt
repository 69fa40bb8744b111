-- ===== src/Crawl/Unchanged.antt =====
-- copy2.cpp, `processNonDir`: a file that is at the destination already.
use copy.Prelude.{ℕ, ◌≤◌, true, false, none, some, ◌≡◌, refl, ◌∙◌, arith, add64, get_elem?, set}
use copy.Filejob.{Statx}
use copy.Shared.{Opts}
use copy.HLink.Lmdb.{Lmdb}
use copy.HLink.Links.{verdict}
use copy.World.{Bytes, Fdrc, World, ◌>>=◌, pure, modify, fdrc_at, enqueue_finish}
use copy.World.Steps.{bind_done, fdrc_found}
use copy.Syscalls.{Kernel, ok, at_symlink_nofollow, statx_wrapper}
use copy.Fdrc.{incref}
use copy.Crawl.{
  Seen, finish_job, count_file, after_look, count_seen, decide, hand_over, carry_out, process_seen,
}

module _ {Fs : Type 0} (os : Kernel Fs) (db : Lmdb Fs) (opts : Opts) (hash_name : Bytes → Bytes)
    (fuel : ℕ) (x : Seen) (i : ℕ) (d : Fdrc) (dir : x.dst_fd_ref ≡ some i) where
  -- The job is queued and counts as a holder of the directory.
  abbrev handed : World Fs → World Fs
  handed w =
      enqueue_finish (finish_job os db opts hash_name fuel x true none)
        (record w { fdrcs = set w.fdrcs i (record d { rc = add64 d.rc 1 }) })

  incref_lem :
      (w : World Fs)
      → get_elem? w.fdrcs i ≡ some d
      → incref x.dst_fd_ref w
        ≡ some (some i, record w { fdrcs = set w.fdrcs i (record d { rc = add64 d.rc 1 }) })
  unfolding incref ◌>>=◌
  incref_lem w found =
      simp dir (bind_done (fdrc_at (some i)) _ w d w (fdrc_found w i d found) ∙ refl)

  hand_over_lem :
      (w : World Fs)
      → get_elem? w.fdrcs i ≡ some d
      → hand_over os db opts hash_name fuel x true none w ≡ some (tt, handed w)
  unfolding hand_over
  hand_over_lem w found =
      bind_done (incref x.dst_fd_ref)
        (λ _. modify (enqueue_finish (finish_job os db opts hash_name fuel x true none))) w (some i)
        _ (incref_lem w found)
      ∙ refl

  carry_out_lem :
      (w : World Fs)
      → get_elem? w.fdrcs i ≡ some d
      → carry_out os db opts hash_name fuel x (verdict false true false) w ≡ some (0, handed w)
  unfolding carry_out
  carry_out_lem w found =
      bind_done (hand_over os db opts hash_name fuel x true none) (λ _. pure 0) w tt (handed w)
        (hand_over_lem w found)
      ∙ refl

  module _ (dst : Statx) (time : x.stx.stx_mtime ≡ dst.stx_mtime)
      (size : x.stx.stx_size ≡ dst.stx_size) (one : x.stx.stx_nlink ≤ 1)
      (one' : dst.stx_nlink ≤ 1) where
    decide_lem :
        (w : World Fs)
        → decide os db opts hash_name fuel x (some dst) w ≡ some (verdict false true false, w)
    unfolding decide
    decide_lem w = ground arith

    -- A file with one link on either side whose time and size are the same at the destination: nothing
    -- is opened, removed or written. The only call of the file system is the look, and one job
    -- without a partial file is queued, which brings the attributes up to date and holds the
    -- directory of the destination.
    pub process_seen_unchanged :
        (w w₁ : World Fs)
        → statx_wrapper os x.dst_dir x.name at_symlink_nofollow w ≡ some (ok dst, w₁)
        → get_elem? w₁.fdrcs i ≡ some d
        → process_seen os db opts hash_name fuel x w
          ≡ some (
            0,
            handed (
                count_seen os db opts hash_name fuel x.stx
                  (count_file os db opts hash_name fuel w₁)),
          )
    unfolding process_seen after_look
    process_seen_unchanged w w₁ look found =
        let w₂ : World Fs = count_file os db opts hash_name fuel w₁ in
        let w₃ : World Fs = count_seen os db opts hash_name fuel x.stx w₂ in
        bind_done (statx_wrapper os x.dst_dir x.name at_symlink_nofollow) _ w (ok dst) w₁ look
        ∙ bind_done (modify (count_file os db opts hash_name fuel)) _ w₁ tt w₂ refl
        ∙ bind_done (decide os db opts hash_name fuel x (some dst)) _ w₂ (verdict false true false)
            w₂ (decide_lem w₂)
        ∙ bind_done (modify (count_seen os db opts hash_name fuel x.stx)) _ w₂ tt w₃ refl
        ∙ carry_out_lem w₃ found
