-- ===== src/Fdrc.antt =====
-- fdrcguard.h: counted descriptors of directories.
pub mod Release
use copy.Prelude.{ℕ, Bool, true, false, Option, none, some, ◌==◌, if◌then◌else◌, add64, sub64}
use copy.Filejob.{FileCopyJob, no_file_job}
use copy.World.{
  Fdrc, World, Action, ◌>>=◌, ◌>>◌, pure, modify, fdrc_at, string_at, set_fdrc, enqueue_finish,
}
use copy.Syscalls.{Kernel, close_wrapper}

-- The job that gives a directory of the destination its attributes.
abbrev pub dot_job : Option ℕ → Fdrc → FileCopyJob
dot_job ref x = record no_file_job {
  first_look = true;
  remote = x.path;
  stx = x.src_stx;
  is_dot = true;
  dst_dir_fd = ref;
}

module _ {Fs : Type 0} where
  -- `FDRCGuard::incref`.
  unfoldable pub incref : Option ℕ → Action Fs (Option ℕ)
  incref ref = do x ← fdrc_at ref; modify (set_fdrc ref (record x { rc = add64 x.rc 1 })); pure ref

  -- `FDRCGuard::fd`.
  unfoldable pub fd_of : Option ℕ → Action Fs ℕ
  fd_of ref = do x ← fdrc_at ref; pure x.fd

module _ {Fs : Type 0} (os : Kernel Fs) where
  -- What the last release does: for a directory of the destination it puts off the closing.
  unfoldable pub last_release : Option ℕ → Fdrc → Action Fs (Unit {0})
  last_release ref x =
      if x.dst
      then modify (λ w. enqueue_finish (dot_job ref x) (set_fdrc ref (record x { dst = false }) w))
      else do modify (set_fdrc ref (record x { rc = sub64 x.rc 1 })); close_wrapper os x.fd; pure tt

  -- `FDRCGuard::~FDRCGuard`.
  unfoldable pub release_fdrc : Option ℕ → Action Fs (Unit {0})
  unfolding last_release
  release_fdrc ref = do
    x ← fdrc_at ref
    if x.rc == 1 then last_release ref x else modify (set_fdrc ref (record x { rc = sub64 x.rc 1 }))
