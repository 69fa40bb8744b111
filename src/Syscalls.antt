-- ===== src/Syscalls.antt =====
-- syscalls.h: the wrappers of the system calls.
--
-- `Kernel` stands for the operating system. A call returns its `errno`, 0 where it succeeds, or a
-- value beside it. A descriptor that is passed on is not negative. The wrapper of statx also adds
-- the time it took to `statms`, which nothing but the logger reads.
pub mod Debts
pub mod Descriptors
use copy.Prelude.{
  ℕ, zero, suc, ◌+◌, ◌^◌, Bool, true, false, not, ◌&&◌, ◌||◌, Option, none, some, ◌==◌, ltb,
  bit_and, if◌then◌else◌, List,
}
use copy.Filejob.{Statx}
use copy.PathOk.{path_ok}
use copy.World.{Bytes, World, Action, ◌>>=◌, ◌>>◌, pure, assert, modify, call}

pub data Reply (A : Type 0) : Type 0 where
  ok : A → Reply A
  errno : ℕ → Reply A

abbrev pub eperm : ℕ
eperm = 1

abbrev pub enoent : ℕ
enoent = 2

abbrev pub eexist : ℕ
eexist = 17

abbrev pub eisdir : ℕ
eisdir = 21

abbrev pub at_symlink_nofollow : ℕ
at_symlink_nofollow = 0x100

abbrev pub at_removedir : ℕ
at_removedir = 0x200

abbrev pub o_rdwr : ℕ
o_rdwr = 0x2

abbrev pub o_creat : ℕ
o_creat = 0x40

abbrev pub o_direct : ℕ
o_direct = 0x4000

abbrev pub o_directory : ℕ
o_directory = 0x10000

abbrev pub o_noatime : ℕ
o_noatime = 0x40000

-- An access time and a modification time, seconds and nanoseconds; `none` for `UTIME_OMIT`.
abbrev pub Times : Type 0
Times = Option (ℕ × ℕ) × (ℕ × ℕ)

-- An entry of a directory: its name, and whether `d_type` is `DT_DIR`.
abbrev pub Entry : Type 0
Entry = Bytes × Bool

pub record Kernel (Fs : Type 0) : Type 0 where
  pub fchownat : ℕ → Bytes → ℕ → ℕ → ℕ → Fs → ℕ × Fs
  pub fchmodat : ℕ → Bytes → ℕ → ℕ → Fs → ℕ × Fs
  pub ftruncate : ℕ → ℕ → Fs → ℕ × Fs
  pub utimensat : ℕ → Bytes → Times → ℕ → Fs → ℕ × Fs
  pub symlinkat : Bytes → ℕ → Bytes → Fs → ℕ × Fs
  -- At most the given number of bytes.
  pub readlinkat : ℕ → Bytes → ℕ → Fs → Reply Bytes × Fs
  pub renameat : ℕ → Bytes → ℕ → Bytes → Fs → ℕ × Fs
  pub closedir : ℕ → Fs → ℕ × Fs
  pub close : ℕ → Fs → ℕ × Fs
  pub openat : ℕ → Bytes → ℕ → ℕ → Fs → Reply ℕ × Fs
  pub fdopendir : ℕ → Fs → Reply ℕ × Fs
  pub statx : ℕ → Bytes → ℕ → Fs → Reply Statx × Fs
  pub linkat : ℕ → Bytes → ℕ → Bytes → ℕ → Fs → ℕ × Fs
  pub unlinkat : ℕ → Bytes → ℕ → Fs → ℕ × Fs
  pub mkdirat : ℕ → Bytes → ℕ → Fs → ℕ × Fs
  -- The entries that the calls of `readdir` on a stream yield until one yields none.
  pub readdir : ℕ → Fs → List Entry × Fs

abbrev has_flag : ℕ → ℕ → Bool
has_flag flags flag = not (bit_and flags flag == 0)

module _ {Fs : Type 0} where
  abbrev pub sem_post : Action Fs (Unit {0})
  sem_post = modify λ w. record w { fd_sem = w.fd_sem + 1 }

  abbrev pub sem_wait : Action Fs (Unit {0})
  sem_wait w = elim w.fd_sem [ zero ↦ none | suc n ↦ some (tt, record w { fd_sem = n }) ]

  -- A failed call gives back what was taken from the semaphore for it.
  abbrev pub post_on_error : Reply ℕ → Action Fs (Unit {0})
  post_on_error (ok fd) = pure tt
  post_on_error (errno e) = sem_post

module _ {Fs : Type 0} (os : Kernel Fs) where
  unfoldable pub fchownat_wrapper : ℕ → Bytes → ℕ → ℕ → ℕ → Action Fs ℕ
  fchownat_wrapper dirfd path owner group flags =
      assert (path_ok (some path) && (flags == at_symlink_nofollow))
        (call (os.fchownat dirfd path owner group flags))

  unfoldable pub fchmodat_wrapper : ℕ → Bytes → ℕ → ℕ → Action Fs ℕ
  fchmodat_wrapper dirfd path mode flags =
      assert (path_ok (some path) && (flags == 0)) (call (os.fchmodat dirfd path mode flags))

  -- As an `off_t`, a length from 2 ^ 63 on is negative.
  unfoldable pub ftruncate_wrapper : ℕ → ℕ → Action Fs ℕ
  ftruncate_wrapper fd length = assert (ltb length (2 ^ 63)) (call (os.ftruncate fd length))

  unfoldable pub utimensat_wrapper : ℕ → Bytes → Times → ℕ → Action Fs ℕ
  utimensat_wrapper dirfd path times flags =
      assert (path_ok (some path) && (flags == at_symlink_nofollow))
        (call (os.utimensat dirfd path times flags))

  unfoldable pub symlinkat_wrapper : Bytes → ℕ → Bytes → Action Fs ℕ
  symlinkat_wrapper target newdirfd linkpath =
      assert (path_ok (some linkpath)) (call (os.symlinkat target newdirfd linkpath))

  unfoldable pub readlinkat_wrapper : ℕ → Bytes → ℕ → Action Fs (Reply Bytes)
  readlinkat_wrapper dirfd path bufsize =
      assert (path_ok (some path)) (call (os.readlinkat dirfd path bufsize))

  unfoldable pub renameat_wrapper : ℕ → Bytes → ℕ → Bytes → Action Fs ℕ
  renameat_wrapper olddirfd oldpath newdirfd newpath =
      assert (path_ok (some oldpath) && path_ok (some newpath))
        (call (os.renameat olddirfd oldpath newdirfd newpath))

  unfoldable pub closedir_wrapper : ℕ → Action Fs ℕ
  closedir_wrapper dirp = do rc ← call (os.closedir dirp); sem_post; pure rc

  unfoldable pub close_wrapper : ℕ → Action Fs ℕ
  close_wrapper fd = assert (ltb 0 fd) (do rc ← call (os.close fd); sem_post; pure rc)

  unfoldable pub openat_wrapper : ℕ → Bytes → ℕ → ℕ → Action Fs (Reply ℕ)
  openat_wrapper dirfd path flags mode =
      assert
        (path_ok (some path)
          && (ltb 0 dirfd && (has_flag flags o_directory || has_flag flags o_direct)))
        (do sem_wait; rc ← call (os.openat dirfd path flags mode); post_on_error rc; pure rc)

  unfoldable pub fdopendir_wrapper : ℕ → Action Fs (Reply ℕ)
  fdopendir_wrapper fd = do dir ← call (os.fdopendir fd); post_on_error dir; pure dir

  unfoldable pub statx_wrapper : ℕ → Bytes → ℕ → Action Fs (Reply Statx)
  statx_wrapper dirfd path flags =
      assert (path_ok (some path) && (flags == at_symlink_nofollow))
        (call (os.statx dirfd path flags))

  unfoldable pub linkat_wrapper : ℕ → Bytes → ℕ → Bytes → ℕ → Action Fs ℕ
  linkat_wrapper olddirfd oldpath newdirfd newpath flags =
      assert
        (path_ok (some oldpath)
          && (path_ok (some newpath)
              && ((flags == 0) && (ltb 0 olddirfd && (olddirfd == newdirfd)))))
        (call (os.linkat olddirfd oldpath newdirfd newpath flags))

  unfoldable pub unlinkat_wrapper : ℕ → Bytes → ℕ → Action Fs ℕ
  unlinkat_wrapper dirfd path flags =
      assert (path_ok (some path) && ((flags == 0) || (flags == at_removedir)))
        (call (os.unlinkat dirfd path flags))

  unfoldable pub mkdirat_wrapper : ℕ → Bytes → ℕ → Action Fs ℕ
  mkdirat_wrapper dirfd path mode = assert (path_ok (some path)) (call (os.mkdirat dirfd path mode))

  unfoldable pub readdir_wrapper : ℕ → Action Fs (List Entry)
  readdir_wrapper dir = call (os.readdir dir)
