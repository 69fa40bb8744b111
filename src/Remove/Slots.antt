-- ===== src/Remove/Slots.antt =====
-- The removal of a tree gives back every slot of the descriptor semaphore that it takes.
use copy.Prelude.{
  ℕ, zero, suc, Bool, Option, List, [], ◌∷◌, ◌++◌, ◌==◌, if◌then◌else◌, ◌≡◌, ◌+◌, refl, some, none,
  arith, Ensures,
}
use copy.PathOk.{slash}
use copy.World.{Bytes, World, Action, ◌>>=◌, ◌>>◌, pure, modify, string_at, new_string}
use copy.Syscalls.{
  Kernel, Reply, ok, errno, Entry, eisdir, enoent, at_removedir, o_directory, openat_wrapper,
  fdopendir_wrapper, closedir_wrapper, readdir_wrapper, unlinkat_wrapper,
}
use copy.Syscalls.Debts.{
  owed, none_owed, Owes, Pays, bind-Pays, if-Pays, string_at-Pays, unlinkat_wrapper-Pays,
  openat_wrapper-Pays, fdopendir_wrapper-Pays, closedir_wrapper-Pays, readdir_wrapper-Pays,
}
use copy.Remove.{
  is_dot_name, count_removed, collect, for_nodes, recursive_remove_non_dir, empty_dir, stream_dir,
  remove_dir, after_unlink, recursive_remove, counted_removal,
}

module _ {Fs : Type 0} where
  returned : (n : ℕ) → Pays 0 (pure {Fs = Fs} n) none_owed
  returned n w = refl

  collect-Pays :
      (k : ℕ) (path : Bytes) (es : List Entry) (nodes : List (Option ℕ × Bool))
      → Pays k (collect {Fs = Fs} path es nodes) (λ ns. k)
  unfolding collect
  collect-Pays k path [] nodes = λ w. refl
  collect-Pays k path ((name, is_dir) ∷ es) nodes =
      if-Pays k (λ ns. k) (is_dot_name name) (collect path es nodes)
        (do r ← new_string (path ++ slash ∷ name); collect path es ((r, is_dir) ∷ nodes))
        (collect-Pays k path es nodes)
        (bind-Pays k (λ r. k) (λ ns. k) (new_string (path ++ slash ∷ name))
          (λ r. collect path es ((r, is_dir) ∷ nodes)) (λ w. refl)
          λ r. collect-Pays k path es ((r, is_dir) ∷ nodes))

  for_nodes-Pays :
      (dir non_dir : Option ℕ → Action Fs ℕ)
      → ((r : Option ℕ) → Pays 0 (dir r) none_owed)
      → ((r : Option ℕ) → Pays 0 (non_dir r) none_owed)
      → (nodes : List (Option ℕ × Bool)) → Pays 0 (for_nodes dir non_dir nodes) none_owed
  unfolding for_nodes
  for_nodes-Pays dir non_dir h k [] = λ w. refl
  for_nodes-Pays dir non_dir h k ((r, is_dir) ∷ rest) =
      bind-Pays 0 none_owed none_owed (if is_dir then dir r else non_dir r)
        (λ _. for_nodes dir non_dir rest)
        (if-Pays 0 none_owed is_dir (dir r) (non_dir r) (h r) (k r))
        λ _. for_nodes-Pays dir non_dir h k rest

  counted : (e n : ℕ) → Pays 0 (counted_removal {Fs = Fs} e n) none_owed
  counted e n =
      if-Pays 0 none_owed (e == 0) (do modify count_removed; pure 0) (pure n)
        (bind-Pays 0 none_owed none_owed (modify count_removed) (λ _. pure 0) (λ w. refl)
          λ _. returned 0)
        (returned n)

  module _ (os : Kernel Fs) (dstfd : ℕ) where
    unlink-counted :
        (remote : Bytes) (flags n : ℕ)
        → Pays 0 (do e ← unlinkat_wrapper os dstfd remote flags; counted_removal e n) none_owed
    unlink-counted remote flags n =
        bind-Pays 0 none_owed none_owed (unlinkat_wrapper os dstfd remote flags)
          (λ e. counted_removal e n) (unlinkat_wrapper-Pays os dstfd remote flags) λ e. counted e n

    non_dir-Pays : (path : Option ℕ) → Pays 0 (recursive_remove_non_dir os dstfd path) none_owed
    unfolding recursive_remove_non_dir
    non_dir-Pays path =
        bind-Pays 0 none_owed none_owed (string_at path)
          (λ remote. do e ← unlinkat_wrapper os dstfd remote 0; counted_removal e 1)
          (string_at-Pays path) λ remote. unlink-counted remote 0 1

    module _ (below : Option ℕ → Action Fs ℕ) (h : (r : Option ℕ) → Pays 0 (below r) none_owed)
        (remote : Bytes) where
      abbrev remove_nodes : List (Option ℕ × Bool) → Action Fs ℕ
      remove_nodes nodes = do
        for_nodes below (recursive_remove_non_dir os dstfd) nodes
        e ← unlinkat_wrapper os dstfd remote at_removedir
        counted_removal e 0

      remove_nodes-Pays : (nodes : List (Option ℕ × Bool)) → Pays 0 (remove_nodes nodes) none_owed
      remove_nodes-Pays nodes =
          bind-Pays 0 none_owed none_owed
            (for_nodes below (recursive_remove_non_dir os dstfd) nodes)
            (λ _. do e ← unlinkat_wrapper os dstfd remote at_removedir; counted_removal e 0)
            (for_nodes-Pays below (recursive_remove_non_dir os dstfd) h non_dir-Pays nodes)
            λ _. unlink-counted remote at_removedir 0

      -- The stream owes a slot until it is closed.
      empty_dir-Pays :
          (dir : Reply ℕ) → Pays (owed dir) (empty_dir os dstfd below remote dir) none_owed
      unfolding empty_dir
      empty_dir-Pays (errno e) = returned 1
      empty_dir-Pays (ok d) =
          bind-Pays 1 (λ es. 1) none_owed (readdir_wrapper os d)
            (λ entries. do
              nodes ← collect remote entries []
              closedir_wrapper os d
              remove_nodes nodes)
            (readdir_wrapper-Pays os 1 d)
            λ entries.
              bind-Pays 1 (λ ns. 1) none_owed (collect remote entries [])
                (λ nodes. do closedir_wrapper os d; remove_nodes nodes)
                (collect-Pays 1 remote entries [])
                λ nodes.
                  bind-Pays 1 none_owed none_owed (closedir_wrapper os d) (λ _. remove_nodes nodes)
                    (closedir_wrapper-Pays os d) λ _. remove_nodes-Pays nodes

      stream_dir-Pays :
          (fd : Reply ℕ) → Pays (owed fd) (stream_dir os dstfd below remote fd) none_owed
      unfolding stream_dir
      stream_dir-Pays (errno e) = returned 1
      stream_dir-Pays (ok fd) =
          bind-Pays 1 owed none_owed (fdopendir_wrapper os fd) (empty_dir os dstfd below remote)
            (fdopendir_wrapper-Pays os fd) empty_dir-Pays

      remove_dir-Pays : Pays 0 (remove_dir os dstfd below remote) none_owed
      unfolding remove_dir
      remove_dir-Pays =
          bind-Pays 0 owed none_owed (openat_wrapper os dstfd remote o_directory 0)
            (stream_dir os dstfd below remote) (openat_wrapper-Pays os dstfd remote o_directory 0)
            stream_dir-Pays

      after_unlink-Pays : (e : ℕ) → Pays 0 (after_unlink os dstfd below remote e) none_owed
      unfolding after_unlink
      after_unlink-Pays e = if-Pays 0 none_owed (e == 0) (counted_removal 0 0) _ (counted 0 0) (
          if-Pays 0 none_owed (e == enoent) (pure 0) _ (returned 0) (
            if-Pays 0 none_owed (e == eisdir) (remove_dir os dstfd below remote) (pure 1)
              remove_dir-Pays (returned 1)))

    remove-Pays :
        (fuel depth : ℕ) (path : Option ℕ)
        → Pays 0 (recursive_remove os dstfd fuel depth path) none_owed
    unfolding recursive_remove
    remove-Pays zero depth path w = tt
    remove-Pays (suc fuel) zero path w =
        bind-Pays 0 none_owed none_owed (string_at path)
          (λ remote. do
            e ← unlinkat_wrapper os dstfd remote 0
            after_unlink os dstfd (recursive_remove os dstfd fuel 1) remote e)
          (string_at-Pays path)
          (λ remote.
            bind-Pays 0 none_owed none_owed (unlinkat_wrapper os dstfd remote 0)
              (after_unlink os dstfd (recursive_remove os dstfd fuel 1) remote)
              (unlinkat_wrapper-Pays os dstfd remote 0)
              (after_unlink-Pays (recursive_remove os dstfd fuel 1) (remove-Pays fuel 1) remote))
          w
    remove-Pays (suc fuel) (suc depth) path w =
        bind-Pays 0 none_owed none_owed (string_at path)
          (remove_dir os dstfd (recursive_remove os dstfd fuel (suc (suc depth))))
          (string_at-Pays path)
          (remove_dir-Pays (recursive_remove os dstfd fuel (suc (suc depth)))
            (remove-Pays fuel (suc (suc depth))))
          w

    -- The removal of a tree of any shape gives back exactly the slots of the descriptor semaphore
    -- that it takes: on every path that returns, whatever the calls of the system return, the
    -- semaphore has the value that it had before.
    pub recursive_remove-fd_sem :
        (fuel depth : ℕ) (path : Option ℕ) (w : World Fs)
        → Ensures
            (λ (r : ℕ × World Fs). r.1.fd_sem ≡ w.fd_sem)
            (recursive_remove os dstfd fuel depth path w)
    recursive_remove-fd_sem fuel depth path w =
        same_lem (recursive_remove os dstfd fuel depth path w) (remove-Pays fuel depth path w)
      where
        same_lem :
            (o : Option (ℕ × World Fs))
            → Owes none_owed (w.fd_sem + 0) o
            → Ensures (λ (r : ℕ × World Fs). r.1.fd_sem ≡ w.fd_sem) o
        same_lem none h = tt
        same_lem (some (r, v)) h = omega (arith, h)
