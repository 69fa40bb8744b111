-- ===== src/Fdrc/Release.antt =====
-- fdrcguard.h: the end of a counted descriptor of a directory.
use copy.Prelude.{ℕ, true, false, some, ◌≡◌, refl, ◌∙◌, get_elem?, set, ◌++◌, [], ◌∷◌}
use copy.World.{Fdrc, World, ◌>>=◌, ◌>>◌, pure, fdrc_at}
use copy.World.Steps.{bind_done, get_elem-set, set-set, fdrc_found}
use copy.Syscalls.{Kernel, close_wrapper}
use copy.Fdrc.{dot_job, last_release, release_fdrc}

module _ {Fs : Type 0} (os : Kernel Fs) (w : World Fs) (i : ℕ) (x : Fdrc) where
  release_fdrc_last :
      get_elem? w.fdrcs i ≡ some x
      → x.rc ≡ 1
      → x.dst ≡ true
      → release_fdrc os (some i) w
        ≡ some (
          tt,
          record w {
            fdrcs = set w.fdrcs i (record x { dst = false });
            finish_queue = w.finish_queue ++ dot_job (some i) x ∷ [];
          },
        )
  unfolding release_fdrc last_release ◌>>=◌
  release_fdrc_last found one dst =
      bind_done (fdrc_at (some i)) _ w x w (fdrc_found w i x found) ∙ simp (one, dst) refl

  release_fdrc_closes :
      get_elem? w.fdrcs i ≡ some x
      → x.rc ≡ 1
      → x.dst ≡ false
      → release_fdrc os (some i) w
        ≡ (do close_wrapper os x.fd; pure tt)
            (record w { fdrcs = set w.fdrcs i (record x { rc = 0 }) })
  unfolding release_fdrc last_release ◌>>=◌
  release_fdrc_closes found one dst =
      bind_done (fdrc_at (some i)) _ w x w (fdrc_found w i x found) ∙ simp (one, dst) refl

module _ {Fs : Type 0} (os : Kernel Fs) (w : World Fs) (i : ℕ) (x : Fdrc) where
  -- The last two releases of a directory of the destination. The first puts the directory's own job
  -- into the finish queue and keeps the descriptor open for it, with a reference count of 1; the
  -- one that follows that job closes the descriptor and queues nothing. So the job is queued once.
  pub release_fdrc_twice :
      get_elem? w.fdrcs i ≡ some x
      → x.rc ≡ 1
      → x.dst ≡ true
      → (do release_fdrc os (some i); release_fdrc os (some i)) w
        ≡ (do close_wrapper os x.fd; pure tt)
            (record w {
              fdrcs = set w.fdrcs i (record x { dst = false; rc = 0 });
              finish_queue = w.finish_queue ++ dot_job (some i) x ∷ [];
            })
  release_fdrc_twice found one dst =
      let w' : World Fs = record w {
        fdrcs = set w.fdrcs i (record x { dst = false });
        finish_queue = w.finish_queue ++ dot_job (some i) x ∷ [];
      } in
      bind_done (release_fdrc os (some i)) (λ _. release_fdrc os (some i)) w tt w'
        (release_fdrc_last os w i x found one dst)
      ∙ release_fdrc_closes os w' i (record x { dst = false })
          (get_elem-set w.fdrcs i x (record x { dst = false }) found) one refl
      ∙ rw (set-set w.fdrcs i (record x { dst = false }) (record x { dst = false; rc = 0 })) refl
