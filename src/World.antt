-- ===== src/World.antt =====
-- sharedstate.h and fdrcguard.h: the state that the crawl and the finish processors change, and the
-- actions on it.
--
-- A `World` has the counters and the queues of `SharedState`, the value of its descriptor semaphore,
-- what lives in the arena, by kind, the caches of the inode tables, and the outside: the file system and
-- the store of the tables. A reference into the arena is an index. String parts do not change once
-- made; their reference counts only say when their memory is reused, and are left out. The
-- actions of a task run without an action of another task in between, and the locks are left out.
pub mod Steps
use copy.Prelude.{
  ℕ, ◌+◌, Bool, Option, none, some, List, ◌++◌, [], ◌∷◌, if◌then◌else◌, get_elem?, set, length,
  add64,
}
use copy.Filejob.{FileCopyJob, Statx}
use copy.HLink.Tables.{Cache}

-- The bytes of a string, its terminator left out.
abbrev pub Bytes : Type 0
Bytes = List ℕ

-- `struct FDRC`.
pub record Fdrc : Type 0 where
  pub rc : ℕ
  pub fd : ℕ
  pub path : Option ℕ
  pub dst : Bool
  pub src_stx : Statx

-- A `LinkEntry`: the path to link, and the counted descriptor of its directory.
abbrev pub LinkEntry : Type 0
LinkEntry = Option ℕ × Option ℕ

-- `struct HLinkInfo`; the chain of `links` is a list, its tip first.
pub record HlinkInfo : Type 0 where
  pub transferred : Bool
  pub dest_inode : ℕ
  pub remote : Option ℕ
  pub links : List LinkEntry
  pub nlink_rc : ℕ

-- `struct HLinkInfoRev`.
pub record HlinkInfoRev : Type 0 where
  pub src_inode : ℕ
  pub nlink_rc : ℕ

pub record World (Fs : Type 0) : Type 0 where
  pub fs : Fs
  pub fd_sem : ℕ
  pub strings : List Bytes
  pub fdrcs : List Fdrc
  pub job_queue : List FileCopyJob
  pub finish_queue : List FileCopyJob
  pub n_finished : ℕ
  pub files_seen : ℕ
  pub files_removed : ℕ
  pub total_bytes_transferred : ℕ
  pub total_bytes_actually_transferred : ℕ
  pub total_bytes_seen : ℕ
  pub total_bytes_seen_and_will_transfer : ℕ
  pub dest_root_fd : ℕ
  pub forward_table_cache : Cache
  pub rev_table_cache : Cache
  pub max_table_cache_size : ℕ
  pub infos : List HlinkInfo
  pub rev_infos : List HlinkInfoRev

-- What runs on the world; `none` where an assertion fails, or the semaphore would block.
abbrev pub Action : Type 0 → Type 0 → Type 0
Action Fs A = World Fs → Option (A × World Fs)

abbrev pub at_ref : {A : Type 0} → List A → Option ℕ → Option A
at_ref xs none = none
at_ref xs (some i) = get_elem? xs i

module _ {Fs : Type 0} where
  infixl 10 ◌>>=◌ ◌>>◌
  unfoldable pub ◌>>=◌ : {A B : Type 0} → Action Fs A → (A → Action Fs B) → Action Fs B
  ◌>>=◌ m f w = elim (m w) [ none ↦ none | some (a, w') ↦ f a w' ]

  abbrev pub ◌>>◌ : {A B : Type 0} → Action Fs A → Action Fs B → Action Fs B
  m >> n = m >>= λ _. n

  abbrev pub pure : {A : Type 0} → A → Action Fs A
  pure a w = some (a, w)

  -- `assert`.
  abbrev pub assert : {A : Type 0} → Bool → Action Fs A → Action Fs A
  assert c m w = if c then m w else none

  abbrev pub modify : (World Fs → World Fs) → Action Fs (Unit {0})
  modify f w = some (tt, f w)

  abbrev pub gets : {A : Type 0} → (World Fs → A) → Action Fs A
  gets f w = some (f w, w)

  -- A call of the file system.
  abbrev pub call : {A : Type 0} → (Fs → A × Fs) → Action Fs A
  call f w = let (a, fs) = f w.fs in some (a, record w { fs = fs })

  -- `allocDeref`, for a reference that is not null and in use.
  abbrev pub or_stop : {A : Type 0} → Option A → Action Fs A
  or_stop none w = none
  or_stop (some a) w = some (a, w)

  abbrev pub string_at : Option ℕ → Action Fs Bytes
  string_at r w = or_stop (at_ref w.strings r) w

  abbrev pub fdrc_at : Option ℕ → Action Fs Fdrc
  fdrc_at r w = or_stop (at_ref w.fdrcs r) w

  -- A new string part.
  abbrev pub new_string : Bytes → Action Fs (Option ℕ)
  new_string s w = some (some (length w.strings), record w { strings = w.strings ++ s ∷ [] })

  abbrev pub set_fdrc : Option ℕ → Fdrc → World Fs → World Fs
  set_fdrc none x w = w
  set_fdrc (some i) x w = record w { fdrcs = set w.fdrcs i x }

  abbrev pub enqueue_job : FileCopyJob → World Fs → World Fs
  enqueue_job f w = record w { job_queue = w.job_queue ++ f ∷ [] }

  abbrev pub enqueue_finish : FileCopyJob → World Fs → World Fs
  enqueue_finish f w = record w { finish_queue = w.finish_queue ++ f ∷ [] }

  abbrev pub count_finished : ℕ → World Fs → World Fs
  count_finished n w = record w { n_finished = add64 w.n_finished n }
