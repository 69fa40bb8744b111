-- ===== src/Remove.antt =====
-- copy2.cpp: the removal of what stands at a name of the destination, with everything below it.
--
-- The tasks of a task group run one after another, in the order in which they are created. `fuel`
-- bounds the depth of the directories. The results are 0 and, for -1, 1.
pub mod Slots
use copy.Prelude.{
  ℕ, zero, suc, ◌+◌, Bool, true, false, ◌&&◌, ◌||◌, Option, none, some, List, [], ◌∷◌, ◌++◌, ◌==◌,
  if◌then◌else◌, add64, length,
}
use copy.PathOk.{slash, dot}
use copy.World.{Bytes, World, Action, ◌>>=◌, ◌>>◌, pure, modify, string_at, new_string}
use copy.Syscalls.{
  Kernel, Reply, ok, errno, Entry, eisdir, enoent, at_removedir, o_directory, openat_wrapper,
  fdopendir_wrapper, closedir_wrapper, readdir_wrapper, unlinkat_wrapper,
}

-- `ISDOT`.
abbrev pub is_dot_name : Bytes → Bool
is_dot_name [] = false
is_dot_name (a ∷ []) = a == dot
is_dot_name (a ∷ b ∷ []) = (a == dot) && (b == dot)
is_dot_name (a ∷ b ∷ c ∷ q) = false

module _ {Fs : Type 0} where
  abbrev pub count_removed : World Fs → World Fs
  count_removed w = record w { files_removed = add64 w.files_removed 1 }

  -- The result, and the count where the removal succeeded.
  abbrev pub counted_removal : ℕ → ℕ → Action Fs ℕ
  counted_removal e rc = if e == 0 then (do modify count_removed; pure 0) else pure rc

  -- The list of entries that is built from the stream: the last one read is its first.
  unfoldable pub collect :
      Bytes → List Entry → List (Option ℕ × Bool) → Action Fs (List (Option ℕ × Bool))
  collect path [] nodes = pure nodes
  collect path ((name, is_dir) ∷ es) nodes =
      if is_dot_name name
      then collect path es nodes
      else (do r ← new_string (path ++ slash ∷ name); collect path es ((r, is_dir) ∷ nodes))

  -- The tasks, one for each entry.
  unfoldable pub for_nodes :
      (Option ℕ → Action Fs ℕ)
      → (Option ℕ → Action Fs ℕ)
      → List (Option ℕ × Bool)
      → Action Fs (Unit {0})
  for_nodes dir non_dir [] = pure tt
  for_nodes dir non_dir ((r, is_dir) ∷ rest) = do
    (if is_dir then dir r else non_dir r)
    for_nodes dir non_dir rest

module _ {Fs : Type 0} (os : Kernel Fs) (dstfd : ℕ) where
  unfoldable pub recursive_remove_non_dir : Option ℕ → Action Fs ℕ
  recursive_remove_non_dir path = do
    remote ← string_at path
    e ← unlinkat_wrapper os dstfd remote 0
    counted_removal e 1

  -- With the open directory, and what removes a directory below it: all entries are listed before
  -- the first one is removed, and then the directory itself.
  unfoldable pub empty_dir : (Option ℕ → Action Fs ℕ) → Bytes → Reply ℕ → Action Fs ℕ
  unfolding collect for_nodes recursive_remove_non_dir
  empty_dir below remote (errno e) = pure 1
  empty_dir below remote (ok d) = do
    entries ← readdir_wrapper os d
    nodes ← collect remote entries []
    closedir_wrapper os d
    for_nodes below recursive_remove_non_dir nodes
    e ← unlinkat_wrapper os dstfd remote at_removedir
    counted_removal e 0

  unfoldable pub stream_dir : (Option ℕ → Action Fs ℕ) → Bytes → Reply ℕ → Action Fs ℕ
  unfolding empty_dir
  stream_dir below remote (errno e) = pure 1
  stream_dir below remote (ok fd) = do dir ← fdopendir_wrapper os fd; empty_dir below remote dir

  -- From the opening of the directory on.
  unfoldable pub remove_dir : (Option ℕ → Action Fs ℕ) → Bytes → Action Fs ℕ
  unfolding stream_dir
  remove_dir below remote = do
    fd ← openat_wrapper os dstfd remote o_directory 0
    stream_dir below remote fd

  -- After the first attempt at the top, by its error.
  unfoldable pub after_unlink : (Option ℕ → Action Fs ℕ) → Bytes → ℕ → Action Fs ℕ
  unfolding remove_dir
  after_unlink below remote e =
      if e == 0
      then counted_removal 0 0
      else if e == enoent
      then pure 0
      else if e == eisdir
      then remove_dir below remote
      else pure 1

  -- The first attempt, made only at the top.
  unfoldable pub recursive_remove : ℕ → ℕ → Option ℕ → Action Fs ℕ
  unfolding remove_dir after_unlink
  recursive_remove zero depth path w = none
  recursive_remove (suc fuel) zero path w =
      (do
        remote ← string_at path
        e ← unlinkat_wrapper os dstfd remote 0
        after_unlink (recursive_remove fuel 1) remote e)
        w
  recursive_remove (suc fuel) (suc depth) path w =
      (do remote ← string_at path; remove_dir (recursive_remove fuel (suc (suc depth))) remote) w
