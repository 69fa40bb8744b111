-- ===== src/RemoveExtra/Slots.antt =====
-- The semaphore of pace-removeextra.cpp.
use copy.Prelude.{
  ℕ, zero, suc, ◌+◌, ◌≡◌, refl, Bool, true, false, Option, none, some, List, [], ◌∷◌, ◌++◌, ◌==◌,
  arith, if◌then◌else◌, Ensures, Ensures-map,
}
use copy.PathOk.{slash}
use copy.World.{Bytes}
use copy.Syscalls.{Reply, ok, errno}
use copy.Remove.{is_dot_name}
use copy.RemoveExtra.Sets.{Entry, dt_dir, extra, dirs_set, to_process}
use copy.RemoveExtra.{
  Os, State, Task, ◌>>=◌, ◌>>◌, pure, call, do_call, sem_wait, sem_post, count_dst, count_src,
  count_entries, for_all, paths_of, unlink_counted, empty_dir, opened_dir, recursive_remove,
  remove_extra, compare_dirs, close_opened, not_opened, opened_dirs, process_dir,
}

module _ {Fs : Type 0} where
  -- With `d` of `k` slots taken before, a task that returns has `e` of them taken.
  abbrev pub Leaves : {A : Type 0} → ℕ → ℕ → Task Fs A → Type 0
  Leaves {A} d e m =
      (k : ℕ) (w : State Fs) → w.sem + d ≡ k → Ensures (λ (r : A × State Fs). r.1.sem + e ≡ k) (m w)

  after_lem :
      {A B : Type 0} (e c k : ℕ) (o : Option (A × State Fs)) (f : A → Task Fs B)
      → Ensures (λ (r : A × State Fs). r.1.sem + e ≡ k) o
      → ((a : A) → Leaves e c (f a))
      → Ensures
          (λ (r : B × State Fs). r.1.sem + c ≡ k)
          (elim o [ none ↦ none | some (a, w') ↦ f a w' ])
  after_lem e c k none f h q = tt
  after_lem e c k (some (a, v)) f h q = q a k v h

  bind-Leaves :
      {A B : Type 0} (d e c : ℕ) (m : Task Fs A) (f : A → Task Fs B)
      → Leaves d e m
      → ((a : A) → Leaves e c (f a))
      → Leaves d c (m >>= f)
  unfolding ◌>>=◌
  bind-Leaves d e c m f h q k w s = after_lem e c k (m w) f (h k w s) q

  pure-Leaves : {A : Type 0} (d : ℕ) (a : A) → Leaves d d (pure a)
  pure-Leaves d a k w s = s

  call-Leaves : {A : Type 0} (d : ℕ) (f : Fs → A × Fs) → Leaves d d (call f)
  call-Leaves d f k w s = s

  do_call-Leaves : (d : ℕ) (f : Fs → Fs) → Leaves d d (do_call f)
  do_call-Leaves d f k w s = s

  sem_wait-Leaves : (d : ℕ) → Leaves d (suc d) sem_wait
  sem_wait-Leaves d k w s = wait_lem d k w w.sem s
    where
      wait_lem :
          (d k : ℕ) (w : State Fs) (n : ℕ)
          → n + d ≡ k
          → Ensures
              (λ (r : Unit {0} × State Fs). r.1.sem + suc d ≡ k)
              (elim n [ zero ↦ none | suc m ↦ some (tt, record w { sem = m }) ])
      wait_lem d k w zero s = tt
      wait_lem d k w (suc n) s = omega arith

  sem_post-Leaves : (d : ℕ) → Leaves (suc d) d sem_post
  sem_post-Leaves d k w s = omega arith

  if-Leaves :
      {A : Type 0} (d e : ℕ) (c : Bool) (m n : Task Fs A)
      → Leaves d e m
      → Leaves d e n
      → Leaves d e (if c then m else n)
  if-Leaves d e true m n h q = h
  if-Leaves d e false m n h q = q

  count_entries-Leaves :
      (d : ℕ) (count : Task Fs (Unit {0})) (es : List Entry)
      → Leaves d d count
      → Leaves d d (count_entries count es)
  unfolding count_entries
  count_entries-Leaves d count [] h = pure-Leaves d tt
  count_entries-Leaves d count ((name, type) ∷ es) h =
      if-Leaves d d (is_dot_name name) _ _ (count_entries-Leaves d count es h) (
        bind-Leaves d d d count (λ u. count_entries count es) h
          λ u. count_entries-Leaves d count es h)

  for_all-Leaves :
      {A : Type 0} (d : ℕ) (f : A → Task Fs (Unit {0})) (xs : List A)
      → ((a : A) → Leaves d d (f a))
      → Leaves d d (for_all f xs)
  unfolding for_all
  for_all-Leaves d f [] h = pure-Leaves d tt
  for_all-Leaves d f (x ∷ xs) h =
      bind-Leaves d d d (f x) (λ u. for_all f xs) (h x) λ u. for_all-Leaves d f xs h

module _ {Fs : Type 0} (os : Os Fs) where
  unlink_counted-Leaves : (d dstfd : ℕ) (path : Bytes) → Leaves d d (unlink_counted os dstfd path)
  unlink_counted-Leaves d dstfd path =
      bind-Leaves d d d _ _ (call-Leaves d (os.unlinkat dstfd path false)) λ b k w s. s

  -- A call for its effect only.
  then_pure-Leaves : (d : ℕ) (m : Task Fs ℕ) → Leaves d d m → Leaves d d (m >> pure tt)
  then_pure-Leaves d m h = bind-Leaves d d d m _ h λ a. pure-Leaves d tt

  empty_dir-Leaves :
      (below : Bytes → Task Fs ℕ) (dstfd : ℕ) (path : Bytes) (dir : Option ℕ)
      → ((p : Bytes) → Leaves 0 0 (below p))
      → Leaves 1 0 (empty_dir os below dstfd path dir)
  unfolding empty_dir
  empty_dir-Leaves below dstfd path none h = λ k w s. tt
  empty_dir-Leaves below dstfd path (some dir) h =
      bind-Leaves 1 1 0 _ _ (call-Leaves 1 (os.readdir dir)) λ entries.
        bind-Leaves 1 1 0 _ _ (count_entries-Leaves 1 count_dst entries λ k w s. s) λ u.
          bind-Leaves 1 1 0 _ _ (do_call-Leaves 1 (os.closedir dir)) λ u.
            bind-Leaves 1 0 0 _ _ (sem_post-Leaves 0) λ u.
              bind-Leaves 0 0 0 _ _
                (for_all-Leaves 0 _ (paths_of path true entries [])
                  λ p. then_pure-Leaves 0 (below p) (h p))
                λ u.
                  bind-Leaves 0 0 0 _ _
                    (for_all-Leaves 0 _ (paths_of path false entries [])
                      (unlink_counted-Leaves 0 dstfd))
                    λ u.
                      bind-Leaves 0 0 0 _ _ (call-Leaves 0 (os.unlinkat dstfd path true))
                        λ b. bind-Leaves 0 0 0 _ _ (λ k w s. s) λ u k w s. s

  opened_dir-Leaves :
      (below : Bytes → Task Fs ℕ) (dstfd : ℕ) (path : Bytes) (fd : Reply ℕ)
      → ((p : Bytes) → Leaves 0 0 (below p))
      → Leaves 1 0 (opened_dir os below dstfd path fd)
  unfolding opened_dir
  opened_dir-Leaves below dstfd path (errno e) h =
      bind-Leaves 1 0 0 _ _ (sem_post-Leaves 0) λ u k w s. s
  opened_dir-Leaves below dstfd path (ok fd) h =
      bind-Leaves 1 1 0 _ _ (call-Leaves 1 (os.fdopendir fd))
        λ dir. empty_dir-Leaves below dstfd path dir h

  recursive_remove-Leaves :
      (fuel dstfd : ℕ) (path : Bytes) → Leaves 0 0 (recursive_remove os fuel dstfd path)
  unfolding recursive_remove
  recursive_remove-Leaves zero dstfd path = λ k w s. tt
  recursive_remove-Leaves (suc fuel) dstfd path = bind-Leaves 0 1 0 _ _ (sem_wait-Leaves 0) λ u.
      bind-Leaves 1 1 0 _ _ (call-Leaves 1 (os.openat dstfd path)) λ fd.
        opened_dir-Leaves (recursive_remove os fuel dstfd) dstfd path fd
          λ p. recursive_remove-Leaves fuel dstfd p

  remove_extra-Leaves :
      (remove : Bytes → Task Fs ℕ) (dstfd : ℕ) (path : Bytes) (e : Entry)
      → ((p : Bytes) → Leaves 0 0 (remove p))
      → Leaves 0 0 (remove_extra os remove dstfd path e)
  remove_extra-Leaves remove dstfd path (name, type) h =
      if-Leaves 0 0 (type == dt_dir) _ _
        (then_pure-Leaves 0 (remove (path ++ slash ∷ name)) (h (path ++ slash ∷ name)))
        (unlink_counted-Leaves 0 dstfd (path ++ slash ∷ name))

  compare_dirs-Leaves :
      (below remove : Bytes → Task Fs ℕ) (dstfd : ℕ) (path : Bytes) (s d : Option ℕ)
      → ((p : Bytes) → Leaves 0 0 (below p))
      → ((p : Bytes) → Leaves 0 0 (remove p))
      → Leaves 2 0 (compare_dirs os below remove dstfd path s d)
  unfolding compare_dirs
  compare_dirs-Leaves below remove dstfd path none d h q = λ k w s. tt
  compare_dirs-Leaves below remove dstfd path (some src_dir) none h q = λ k w s. tt
  compare_dirs-Leaves below remove dstfd path (some src_dir) (some dst_dir) h q =
      bind-Leaves 2 2 0 _ _ (call-Leaves 2 (os.readdir src_dir)) λ src.
        bind-Leaves 2 2 0 _ _ (count_entries-Leaves 2 count_src src λ k w s. s) λ u.
          bind-Leaves 2 2 0 _ _ (call-Leaves 2 (os.readdir dst_dir)) λ dst.
            bind-Leaves 2 2 0 _ _ (count_entries-Leaves 2 count_dst dst λ k w s. s) λ u.
              bind-Leaves 2 2 0 _ _ (do_call-Leaves 2 (os.closedir src_dir)) λ u.
                bind-Leaves 2 2 0 _ _ (do_call-Leaves 2 (os.closedir dst_dir)) λ u.
                  bind-Leaves 2 1 0 _ _ (sem_post-Leaves 1) λ u.
                    bind-Leaves 1 0 0 _ _ (sem_post-Leaves 0) λ u.
                      bind-Leaves 0 0 0 _ _
                        (for_all-Leaves 0 _ (to_process (dirs_set src []) dst []) λ n.
                          then_pure-Leaves 0 (below (path ++ slash ∷ n)) (h (path ++ slash ∷ n)))
                        λ u.
                          bind-Leaves 0 0 0 _ _
                            (for_all-Leaves 0 _ (extra dst src)
                              λ e. remove_extra-Leaves remove dstfd path e q)
                            λ u k w s. s

  close_opened-Leaves : (d : ℕ) (r : Reply ℕ) → Leaves d d (close_opened os r)
  close_opened-Leaves d (errno e) = pure-Leaves d tt
  close_opened-Leaves d (ok fd) = do_call-Leaves d (os.close fd)

  not_opened-Leaves : (s d : Reply ℕ) → Leaves 2 0 (not_opened os s d)
  not_opened-Leaves s d = bind-Leaves 2 2 0 _ _ (close_opened-Leaves 2 s) λ u.
      bind-Leaves 2 2 0 _ _ (close_opened-Leaves 2 d) λ u.
        bind-Leaves 2 1 0 _ _ (sem_post-Leaves 1)
          λ u. bind-Leaves 1 0 0 _ _ (sem_post-Leaves 0) λ u k w s. s

  opened_dirs-Leaves :
      (below remove : Bytes → Task Fs ℕ) (dstfd : ℕ) (path : Bytes) (s d : Reply ℕ)
      → ((p : Bytes) → Leaves 0 0 (below p))
      → ((p : Bytes) → Leaves 0 0 (remove p))
      → Leaves 2 0 (opened_dirs os below remove dstfd path s d)
  unfolding opened_dirs
  opened_dirs-Leaves below remove dstfd path (errno e) d h q = not_opened-Leaves (errno e) d
  opened_dirs-Leaves below remove dstfd path (ok s) (errno e) h q =
      not_opened-Leaves (ok s) (errno e)
  opened_dirs-Leaves below remove dstfd path (ok s) (ok d) h q =
      bind-Leaves 2 2 0 _ _ (call-Leaves 2 (os.fdopendir s)) λ src_dir.
        bind-Leaves 2 2 0 _ _ (call-Leaves 2 (os.fdopendir d))
          λ dst_dir. compare_dirs-Leaves below remove dstfd path src_dir dst_dir h q

  process_dir-Leaves :
      (fuel srcfd dstfd : ℕ) (path : Bytes) → Leaves 0 0 (process_dir os fuel srcfd dstfd path)
  unfolding process_dir
  process_dir-Leaves zero srcfd dstfd path = λ k w s. tt
  process_dir-Leaves (suc fuel) srcfd dstfd path = bind-Leaves 0 1 0 _ _ (sem_wait-Leaves 0) λ u.
      bind-Leaves 1 1 0 _ _ (call-Leaves 1 (os.openat srcfd path)) λ src.
        bind-Leaves 1 2 0 _ _ (sem_wait-Leaves 1) λ u.
          bind-Leaves 2 2 0 _ _ (call-Leaves 2 (os.openat dstfd path)) λ dst.
            opened_dirs-Leaves (process_dir os fuel srcfd dstfd) (recursive_remove os fuel dstfd)
              dstfd path src dst (λ p. process_dir-Leaves fuel srcfd dstfd p)
              (λ p. recursive_remove-Leaves fuel dstfd p)

  -- Whatever the calls of the system return, a run over a directory that returns leaves the semaphore
  -- as it was: it and all the runs below it have given back each slot that they took, also where
  -- a directory does not open.
  pub process_dir-sem :
      (fuel srcfd dstfd : ℕ) (path : Bytes) (w : State Fs)
      → Ensures (λ (r : ℕ × State Fs). r.1.sem ≡ w.sem) (process_dir os fuel srcfd dstfd path w)
  process_dir-sem fuel srcfd dstfd path w =
      Ensures-map (process_dir os fuel srcfd dstfd path w) (λ r h. omega arith)
        (process_dir-Leaves fuel srcfd dstfd path (w.sem + 0) w refl)
