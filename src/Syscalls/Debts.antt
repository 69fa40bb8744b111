-- ===== src/Syscalls/Debts.antt =====
-- The slots of the descriptor semaphore that a task owes, from its call of openat to its call of
-- closedir.
use copy.Prelude.{
  ℕ, zero, suc, ◌+◌, Bool, true, false, Option, none, some, ◌≡◌, refl, subst, arith, if◌then◌else◌,
}
use copy.World.{Bytes, World, Action, ◌>>=◌, ◌>>◌, pure, assert, call, or_stop, at_ref, string_at}
use copy.Syscalls.{
  Kernel, Reply, ok, errno, sem_wait, post_on_error, closedir_wrapper, openat_wrapper,
  fdopendir_wrapper, unlinkat_wrapper, readdir_wrapper,
}

-- What is owed for a descriptor or a stream that opened.
abbrev pub owed : Reply ℕ → ℕ
owed (ok fd) = 1
owed (errno e) = 0

abbrev pub none_owed : {A : Type 0} → A → ℕ
none_owed a = 0

module _ {Fs : Type 0} where
  -- An outcome, if there is one, in which the free slots and those that are owed for the result are `n`.
  abbrev pub Owes : {A : Type 0} → (A → ℕ) → ℕ → Option (A × World Fs) → Type 0
  Owes l n none = Unit {0}
  Owes l n (some (a, w)) = w.fd_sem + l a ≡ n

  -- An action before which `k` slots are owed, and `l` of its result after it.
  abbrev pub Pays : {A : Type 0} → ℕ → Action Fs A → (A → ℕ) → Type 0
  Pays k m l = (w : World Fs) → Owes l (w.fd_sem + k) (m w)

  Owes-then :
      {A B : Type 0} (l : A → ℕ) (l' : B → ℕ) (n : ℕ) (o : Option (A × World Fs))
      (f : A → Action Fs B)
      → Owes l n o
      → ((a : A) → Pays (l a) (f a) l')
      → Owes l' n (elim o [ none ↦ none | some (a, w') ↦ f a w' ])
  Owes-then l l' n none f h k = tt
  Owes-then l l' n (some (a, w)) f h k = subst (λ (x : ℕ). Owes l' x (f a w)) h (k a w)

  pub bind-Pays :
      {A B : Type 0} (k : ℕ) (l : A → ℕ) (l' : B → ℕ) (m : Action Fs A) (f : A → Action Fs B)
      → Pays k m l
      → ((a : A) → Pays (l a) (f a) l')
      → Pays k (m >>= f) l'
  unfolding ◌>>=◌
  bind-Pays k l l' m f hm hf w = Owes-then l l' (w.fd_sem + k) (m w) f (hm w) hf

  pub assert-Pays :
      {A : Type 0} (k : ℕ) (l : A → ℕ) (c : Bool) (m : Action Fs A)
      → Pays k m l
      → Pays k (assert c m) l
  assert-Pays k l true m h w = h w
  assert-Pays k l false m h w = tt

  pub if-Pays :
      {A : Type 0} (k : ℕ) (l : A → ℕ) (c : Bool) (m n : Action Fs A)
      → Pays k m l
      → Pays k n l
      → Pays k (if c then m else n) l
  if-Pays k l true m n h h' = h
  if-Pays k l false m n h h' = h'

  pub string_at-Pays : (r : Option ℕ) → Pays 0 (string_at r) none_owed
  string_at-Pays r w = stop_lem (at_ref w.strings r)
    where
      stop_lem : (o : Option Bytes) → Owes none_owed (w.fd_sem + 0) (or_stop o w)
      stop_lem none = tt
      stop_lem (some s) = refl

  module _ (os : Kernel Fs) where
    pub unlinkat_wrapper-Pays :
        (d : ℕ) (p : Bytes) (f : ℕ) → Pays 0 (unlinkat_wrapper os d p f) none_owed
    unfolding unlinkat_wrapper
    unlinkat_wrapper-Pays d p f = assert-Pays 0 none_owed _ (call (os.unlinkat d p f)) λ w. refl

    pub readdir_wrapper-Pays : (k d : ℕ) → Pays k (readdir_wrapper os d) (λ es. k)
    unfolding readdir_wrapper
    readdir_wrapper-Pays k d w = refl

    pub closedir_wrapper-Pays : (d : ℕ) → Pays 1 (closedir_wrapper os d) none_owed
    unfolding closedir_wrapper ◌>>=◌
    closedir_wrapper-Pays d w = omega arith

    post_lem :
        (n : ℕ) (r : Reply ℕ) (v : World Fs)
        → v.fd_sem + 1 ≡ n
        → Owes owed n ((do post_on_error r; pure r) v)
    unfolding ◌>>=◌
    post_lem n (ok fd) v h = h
    post_lem n (errno e) v h = omega arith

    pub fdopendir_wrapper-Pays : (fd : ℕ) → Pays 1 (fdopendir_wrapper os fd) owed
    unfolding fdopendir_wrapper ◌>>=◌
    fdopendir_wrapper-Pays fd w =
        post_lem (w.fd_sem + 1) (os.fdopendir fd w.fs).0
          (record w { fs = (os.fdopendir fd w.fs).1 }) refl

    abbrev waiting_open : ℕ → Bytes → ℕ → ℕ → Action Fs (Reply ℕ)
    waiting_open d p f m = do sem_wait; rc ← call (os.openat d p f m); post_on_error rc; pure rc

    waited :
        (d : ℕ) (p : Bytes) (f m : ℕ) (w : World Fs) (n : ℕ)
        → Owes owed (n + 0) (waiting_open d p f m (record w { fd_sem = n }))
    unfolding ◌>>=◌
    waited d p f m w zero = tt
    waited d p f m w (suc n) =
        post_lem (suc n + 0) (os.openat d p f m w.fs).0
          (record w { fd_sem = n; fs = (os.openat d p f m w.fs).1 }) (omega arith)

    pub openat_wrapper-Pays :
        (d : ℕ) (p : Bytes) (f m : ℕ) → Pays 0 (openat_wrapper os d p f m) owed
    unfolding openat_wrapper
    openat_wrapper-Pays d p f m =
        assert-Pays 0 owed _ (waiting_open d p f m) λ w. waited d p f m w w.fd_sem
