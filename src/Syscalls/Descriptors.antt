-- ===== src/Syscalls/Descriptors.antt =====
-- The descriptor semaphore and the open descriptors: how the wrappers change them together.
use copy.Prelude.{
  ℕ, zero, suc, ◌+◌, Bool, true, false, Option, none, some, ◌≡◌, refl, ap, ◌∙◌, arith,
}
use copy.World.{Bytes, World, Action, ◌>>=◌, ◌>>◌, pure, assert, call}
use copy.Syscalls.{
  Kernel, Reply, ok, errno, sem_wait, post_on_error, openat_wrapper, fdopendir_wrapper,
}

abbrev pub opened : Reply ℕ → ℕ
opened (ok fd) = 1
opened (errno e) = 0

-- What is relied on: `n_open` counts the open descriptors of the process; a call of openat that succeeds
-- adds one, and fdopendir does not change the number, whether it succeeds or not.
pub record CountsOpen {Fs : Type 0} (os : Kernel Fs) (n_open : Fs → ℕ) : Type 0 where
  pub openat :
      (d : ℕ) (p : Bytes) (f m : ℕ) (s : Fs)
      → n_open (os.openat d p f m s).1 ≡ n_open s + opened (os.openat d p f m s).0
  pub fdopendir : (d : ℕ) (s : Fs) → n_open (os.fdopendir d s).1 ≡ n_open s

module _ {Fs : Type 0} (n_open : Fs → ℕ) where
  -- The free slots and the open descriptors together.
  abbrev pub slots : World Fs → ℕ
  slots w = w.fd_sem + n_open w.fs

  -- An outcome in which there are exactly `n` of them, if there is one.
  abbrev pub Balanced : {A : Type 0} → ℕ → Option (A × World Fs) → Type 0
  Balanced n none = Unit {0}
  Balanced n (some (a, w)) = slots w ≡ n

  module _ (os : Kernel Fs) (law : CountsOpen os n_open) where
    post_lem :
        (n : ℕ) (r : Reply ℕ) (v : World Fs)
        → slots v + 1 ≡ n + opened r
        → Balanced n ((do post_on_error r; pure r) v)
    unfolding ◌>>=◌
    post_lem n (ok fd) v h = omega arith
    post_lem n (errno e) v h = omega arith

    abbrev waiting_open : ℕ → Bytes → ℕ → ℕ → Action Fs (Reply ℕ)
    waiting_open d p f m = do sem_wait; rc ← call (os.openat d p f m); post_on_error rc; pure rc

    waited :
        (d : ℕ) (p : Bytes) (f m : ℕ) (w : World Fs) (k : ℕ)
        → Balanced (k + n_open w.fs) (waiting_open d p f m (record w { fd_sem = k }))
    unfolding ◌>>=◌
    waited d p f m w zero = tt
    waited d p f m w (suc k) =
        let o = law.openat d p f m w.fs in
        post_lem (suc k + n_open w.fs) (os.openat d p f m w.fs).0
          (record w { fd_sem = k; fs = (os.openat d p f m w.fs).1 }) (omega arith)

    assert-Balanced :
        {A : Type 0} (n : ℕ) (c : Bool) (m : Action Fs A) (w : World Fs)
        → Balanced n (m w)
        → Balanced n (assert c m w)
    assert-Balanced n true m w h = h
    assert-Balanced n false m w h = tt

    -- Whether or not the call of openat succeeds, the free slots and the open descriptors together
    -- stay exactly as many as they were, if the wrapper returns.
    pub openat_wrapper-Balanced :
        (d : ℕ) (p : Bytes) (f m : ℕ) (w : World Fs)
        → Balanced (slots w) (openat_wrapper os d p f m w)
    unfolding openat_wrapper
    openat_wrapper-Balanced d p f m w =
        assert-Balanced (slots w) _ (waiting_open d p f m) w (waited d p f m w w.fd_sem)

    streamed :
        (r : Reply ℕ) (v : World Fs)
        → (w' : World Fs) × ((do post_on_error r; pure r) v ≡ some (r, w'))
          × (w'.fs ≡ v.fs)
          × (w'.fd_sem + opened r ≡ v.fd_sem + 1)
    unfolding ◌>>=◌
    streamed (ok dir) v = (v, refl, refl, refl)
    streamed (errno e) v = (record v { fd_sem = v.fd_sem + 1 }, refl, refl, omega arith)

    -- The wrapper of fdopendir always returns, with the result of the call, and the number of open
    -- descriptors is as before. Where the call succeeds, the free slots and the open descriptors
    -- together stay as many as they were; where it fails, there is one more of the two together: the
    -- descriptor is still open, and its slot is free.
    pub fdopendir_wrapper_leak :
        (d : ℕ) (w : World Fs)
        → (w' : World Fs) × (fdopendir_wrapper os d w ≡ some ((os.fdopendir d w.fs).0, w'))
          × (n_open w'.fs ≡ n_open w.fs)
          × (slots w' + opened (os.fdopendir d w.fs).0 ≡ slots w + 1)
    unfolding fdopendir_wrapper ◌>>=◌
    fdopendir_wrapper_leak d w =
        let (w', e, same, sem) =
          streamed (os.fdopendir d w.fs).0 (record w { fs = (os.fdopendir d w.fs).1 }) in
        let n : n_open w'.fs ≡ n_open w.fs = ap n_open same ∙ law.fdopendir d w.fs in
        (w', e, n, omega (arith, n, sem))
