-- ===== src/RemoveExtra.antt =====
-- pace-removeextra.cpp: the removal of what stands in the destination and not in the source.
--
-- `Os` stands for the operating system. The tasks of a task group run one after another, in the order
-- in which they are created; `fuel` bounds the depth of the directories. `none` is the result where the
-- semaphore would block for ever, where a stream that could not be made is read, or where the fuel
-- runs out. The results are 0 and, for -1, 1. The messages are left out.
pub mod Common
pub mod Extra
pub mod Returns
pub mod Safety
pub mod Sets
pub mod Slots
mod Tests
use copy.Prelude.{
  ℕ, zero, suc, ◌+◌, Bool, true, false, not, ◌&&◌, ◌||◌, Option, none, some, List, [], ◌∷◌, ◌++◌,
  ◌==◌, if◌then◌else◌, add64,
}
use copy.PathOk.{slash, dot}
use copy.World.{Bytes}
use copy.Syscalls.{Reply, ok, errno}
use copy.Remove.{is_dot_name}
use copy.RemoveExtra.Sets.{Entry, dt_dir, compare_path, insert_by, dirs_set, to_process, extra}

pub record Os (Fs : Type 0) : Type 0 where
  pub open_dir : Bytes → Fs → Reply ℕ × Fs
  -- With `O_DIRECTORY | O_RDONLY`.
  pub openat : ℕ → Bytes → Fs → Reply ℕ × Fs
  pub close : ℕ → Fs → Fs
  pub fdopendir : ℕ → Fs → Option ℕ × Fs
  -- The entries that the calls of `readdir` on a stream yield until one yields none.
  pub readdir : ℕ → Fs → List Entry × Fs
  pub closedir : ℕ → Fs → Fs
  -- Of a directory or not; whether it succeeds.
  pub unlinkat : ℕ → Bytes → Bool → Fs → Bool × Fs

-- The counters and the semaphore of the program, and the outside.
pub record State (Fs : Type 0) : Type 0 where
  pub fs : Fs
  pub sem : ℕ
  pub total_count_dst : ℕ
  pub total_count_src : ℕ
  pub total_removed : ℕ

abbrev pub Task : Type 0 → Type 0 → Type 0
Task Fs A = State Fs → Option (A × State Fs)

module _ {Fs : Type 0} where
  infixl 10 ◌>>=◌ ◌>>◌
  unfoldable pub ◌>>=◌ : {A B : Type 0} → Task Fs A → (A → Task Fs B) → Task Fs B
  ◌>>=◌ m f w = elim (m w) [ none ↦ none | some (a, w') ↦ f a w' ]

  abbrev pub ◌>>◌ : {A B : Type 0} → Task Fs A → Task Fs B → Task Fs B
  m >> n = m >>= λ _. n

  abbrev pub pure : {A : Type 0} → A → Task Fs A
  pure a w = some (a, w)

  abbrev pub stop : {A : Type 0} → Task Fs A
  stop w = none

  abbrev pub call : {A : Type 0} → (Fs → A × Fs) → Task Fs A
  call f w = let (a, fs) = f w.fs in some (a, record w { fs = fs })

  abbrev pub do_call : (Fs → Fs) → Task Fs (Unit {0})
  do_call f w = some (tt, record w { fs = f w.fs })

  abbrev pub sem_wait : Task Fs (Unit {0})
  sem_wait w = elim w.sem [ zero ↦ none | suc n ↦ some (tt, record w { sem = n }) ]

  abbrev pub sem_post : Task Fs (Unit {0})
  sem_post w = some (tt, record w { sem = w.sem + 1 })

  abbrev pub count_dst : Task Fs (Unit {0})
  count_dst w = some (tt, record w { total_count_dst = add64 w.total_count_dst 1 })

  abbrev pub count_src : Task Fs (Unit {0})
  count_src w = some (tt, record w { total_count_src = add64 w.total_count_src 1 })

  abbrev pub count_removed : Task Fs (Unit {0})
  count_removed w = some (tt, record w { total_removed = add64 w.total_removed 1 })

  -- The count of each entry that is not a dot.
  unfoldable pub count_entries : Task Fs (Unit {0}) → List Entry → Task Fs (Unit {0})
  count_entries count [] = pure tt
  count_entries count ((name, type) ∷ es) =
      if is_dot_name name then count_entries count es else (do count; count_entries count es)

  -- The tasks of a set, one for each member.
  unfoldable pub for_all : {A : Type 0} → (A → Task Fs (Unit {0})) → List A → Task Fs (Unit {0})
  for_all f [] = pure tt
  for_all f (x ∷ xs) = do f x; for_all f xs

-- The paths that a stream's entries give, by whether they are those of directories.
abbrev pub paths_of : Bytes → Bool → List Entry → List Bytes → List Bytes
paths_of path dirs [] set = set
paths_of path dirs ((name, type) ∷ es) set =
    if is_dot_name name
    then paths_of path dirs es set
    else if type == dt_dir
    then paths_of path dirs es
        (if dirs then insert_by compare_path (path ++ slash ∷ name) set else set)
    else paths_of path dirs es
        (if dirs then set else insert_by compare_path (path ++ slash ∷ name) set)

module _ {Fs : Type 0} (os : Os Fs) where
  -- The removal of one path that is no directory; it is counted whether it succeeds or not.
  abbrev pub unlink_counted : ℕ → Bytes → Task Fs (Unit {0})
  unlink_counted dstfd path = do call (os.unlinkat dstfd path false); count_removed

  -- With the open directory: all is listed and the stream closed before anything is removed.
  unfoldable pub empty_dir : (Bytes → Task Fs ℕ) → ℕ → Bytes → Option ℕ → Task Fs ℕ
  unfolding count_entries for_all
  empty_dir below dstfd path none = stop
  empty_dir below dstfd path (some dir) = do
    entries ← call (os.readdir dir)
    count_entries count_dst entries
    do_call (os.closedir dir)
    sem_post
    for_all (λ p. do below p; pure tt) (paths_of path true entries [])
    for_all (unlink_counted dstfd) (paths_of path false entries [])
    call (os.unlinkat dstfd path true)
    count_removed
    pure 0

  unfoldable pub opened_dir : (Bytes → Task Fs ℕ) → ℕ → Bytes → Reply ℕ → Task Fs ℕ
  unfolding empty_dir
  opened_dir below dstfd path (errno e) = do sem_post; pure 1
  opened_dir below dstfd path (ok fd) = do
    dir ← call (os.fdopendir fd)
    empty_dir below dstfd path dir

  -- `recursiveRemove`.
  unfoldable pub recursive_remove : ℕ → ℕ → Bytes → Task Fs ℕ
  unfolding opened_dir
  recursive_remove zero dstfd path = stop
  recursive_remove (suc fuel) dstfd path = do
    sem_wait
    fd ← call (os.openat dstfd path)
    opened_dir (recursive_remove fuel dstfd) dstfd path fd

  -- The entry of the destination that the source has not.
  abbrev pub remove_extra : (Bytes → Task Fs ℕ) → ℕ → Bytes → Entry → Task Fs (Unit {0})
  remove_extra remove dstfd path (name, type) =
      if type == dt_dir
      then (do remove (path ++ slash ∷ name); pure tt)
      else unlink_counted dstfd (path ++ slash ∷ name)

  -- Both listings are read, and both streams closed, before anything is removed.
  unfoldable pub compare_dirs :
      (Bytes → Task Fs ℕ) → (Bytes → Task Fs ℕ) → ℕ → Bytes → Option ℕ → Option ℕ → Task Fs ℕ
  unfolding count_entries for_all
  compare_dirs below remove dstfd path none dst_dir = stop
  compare_dirs below remove dstfd path (some src_dir) none = stop
  compare_dirs below remove dstfd path (some src_dir) (some dst_dir) = do
    src ← call (os.readdir src_dir)
    count_entries count_src src
    dst ← call (os.readdir dst_dir)
    count_entries count_dst dst
    do_call (os.closedir src_dir)
    do_call (os.closedir dst_dir)
    sem_post
    sem_post
    for_all (λ dir. do below (path ++ slash ∷ dir); pure tt) (to_process (dirs_set src []) dst [])
    for_all (remove_extra remove dstfd path) (extra dst src)
    pure 0

  abbrev pub close_opened : Reply ℕ → Task Fs (Unit {0})
  close_opened (errno e) = pure tt
  close_opened (ok fd) = do_call (os.close fd)

  abbrev pub not_opened : Reply ℕ → Reply ℕ → Task Fs ℕ
  not_opened src dst = do close_opened src; close_opened dst; sem_post; sem_post; pure 1

  -- A directory that is missing on one side is left.
  unfoldable pub opened_dirs :
      (Bytes → Task Fs ℕ) → (Bytes → Task Fs ℕ) → ℕ → Bytes → Reply ℕ → Reply ℕ → Task Fs ℕ
  unfolding compare_dirs
  opened_dirs below remove dstfd path (errno e) dst = not_opened (errno e) dst
  opened_dirs below remove dstfd path (ok s) (errno e) = not_opened (ok s) (errno e)
  opened_dirs below remove dstfd path (ok s) (ok d) = do
    src_dir ← call (os.fdopendir s)
    dst_dir ← call (os.fdopendir d)
    compare_dirs below remove dstfd path src_dir dst_dir

  -- `processDir`; nothing reads its `dev`.
  unfoldable pub process_dir : ℕ → ℕ → ℕ → Bytes → Task Fs ℕ
  unfolding recursive_remove opened_dirs
  process_dir zero srcfd dstfd path = stop
  process_dir (suc fuel) srcfd dstfd path = do
    sem_wait
    src ← call (os.openat srcfd path)
    sem_wait
    dst ← call (os.openat dstfd path)
    opened_dirs (process_dir fuel srcfd dstfd) (recursive_remove fuel dstfd) dstfd path src dst

  abbrev pub with_roots : ℕ → ℕ → Reply ℕ → Task Fs ℕ
  with_roots fuel s (errno e) = pure 1
  with_roots fuel s (ok d) = process_dir fuel s d (dot ∷ [])

  -- The program exits where a root does not open.
  abbrev pub with_source : ℕ → Bytes → Reply ℕ → Task Fs ℕ
  with_source fuel dst_root (errno e) = pure 1
  with_source fuel dst_root (ok s) = do dst ← call (os.open_dir dst_root); with_roots fuel s dst

  -- `main`, less the thread that prints the counters.
  unfoldable pub main : ℕ → Bytes → Bytes → Fs → Option (ℕ × State Fs)
  unfolding process_dir
  main fuel src_root dst_root fs =
      (do src ← call (os.open_dir src_root); with_source fuel dst_root src)
        (record {
          fs = fs;
          sem = 60000;
          total_count_dst = 0;
          total_count_src = 0;
          total_removed = 0;
        })
