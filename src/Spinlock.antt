-- ===== src/Spinlock.antt =====
-- spinlock.h: the lock that busy threads spin on.
--
-- A thread is a number, and where it stands in the code says which accesses it makes next. The accesses
-- of the threads to `lock_` interleave in any order, each of them whole and seen by all at once. Any
-- thread that stands outside may call `unlock`, with the lock or without; one that has the lock does
-- not ask for it again.
pub mod Exclusion
mod Tests
use copy.Prelude.{
  ℕ, ◌+◌, ◌≡◌, ◌⊎◌, inl, inr, Bool, true, false, ◌==◌, if◌then◌else◌, Option, none, some,
}

-- Where a thread stands.
pub data Place : Type 0 where
  -- Outside.
  idle : Place
  -- Before the exchange of `lock`.
  trying : Place
  -- In the inner loop of `lock`.
  waiting : Place
  -- After the load of `try_lock`, before its exchange.
  loaded : Place
  -- After the exchange, before `me` is written.
  won : Place
  -- With the lock.
  holding : Place
  -- In `unlock`, with `me` cleared.
  leaving : Place

-- `me` is `none` for -1.
pub record State : Type 0 where
  pub lock_ : Bool
  pub me : Option ℕ
  pub place : ℕ → Place

-- The thread `t` moves on.
abbrev pub moved : (ℕ → Place) → ℕ → Place → ℕ → Place
moved place t p u = if u == t then p else place u

abbrev pub created : State
created = record { lock_ = false; me = none; place = λ t. idle }

pub data Step (s : State) : State → Type 0 where
  lock : (t : ℕ) → s.place t ≡ idle → Step s (record s { place = moved s.place t trying })
  -- The exchange finds the lock free.
  exchange :
      (t : ℕ)
      → s.place t ≡ trying
      → s.lock_ ≡ false
      → Step s (record s { lock_ = true; place = moved s.place t won })
  -- Or taken.
  exchange_taken :
      (t : ℕ)
      → s.place t ≡ trying
      → s.lock_ ≡ true
      → Step s (record s { lock_ = true; place = moved s.place t waiting })
  -- The inner loop goes on while the lock is taken.
  load_taken : (t : ℕ) → s.place t ≡ waiting → s.lock_ ≡ true → Step s s
  load_free :
      (t : ℕ)
      → s.place t ≡ waiting
      → s.lock_ ≡ false
      → Step s (record s { place = moved s.place t trying })
  write_me :
      (t : ℕ) → s.place t ≡ won → Step s (record s { me = some t; place = moved s.place t holding })
  -- `try_lock` finds the lock taken, and fails.
  try_lock_taken : (t : ℕ) → s.place t ≡ idle → s.lock_ ≡ true → Step s s
  try_lock :
      (t : ℕ)
      → s.place t ≡ idle
      → s.lock_ ≡ false
      → Step s (record s { place = moved s.place t loaded })
  -- Its exchange finds the lock taken since, and fails.
  try_exchange_taken :
      (t : ℕ)
      → s.place t ≡ loaded
      → s.lock_ ≡ true
      → Step s (record s { lock_ = true; place = moved s.place t idle })
  -- Or takes it; `me` is left alone.
  try_exchange :
      (t : ℕ)
      → s.place t ≡ loaded
      → s.lock_ ≡ false
      → Step s (record s { lock_ = true; place = moved s.place t holding })
  -- `unlock`, of a thread that has the lock, or of one that has not.
  clear_me :
      (t : ℕ)
      → (s.place t ≡ holding) ⊎ (s.place t ≡ idle)
      → Step s (record s { me = none; place = moved s.place t leaving })
  unlock :
      (t : ℕ)
      → s.place t ≡ leaving
      → Step s (record s { lock_ = false; place = moved s.place t idle })

pub data Reachable : State → Type 0 where
  start : Reachable created
  next : {x y : State} → Reachable x → Step x y → Reachable y

-- The step does not begin an `unlock` of a thread that has not the lock.
abbrev pub ByHolder : {x y : State} → Step x y → Type 0
ByHolder (lock t e) = Unit {0}
ByHolder (exchange t e f) = Unit {0}
ByHolder (exchange_taken t e f) = Unit {0}
ByHolder (load_taken t e f) = Unit {0}
ByHolder (load_free t e f) = Unit {0}
ByHolder (write_me t e) = Unit {0}
ByHolder (try_lock_taken t e f) = Unit {0}
ByHolder (try_lock t e f) = Unit {0}
ByHolder (try_exchange_taken t e f) = Unit {0}
ByHolder (try_exchange t e f) = Unit {0}
ByHolder (clear_me t (inl has)) = Unit {0}
ByHolder (clear_me t (inr has_not)) = ⊥
ByHolder (unlock t e) = Unit {0}

-- In the whole run, only threads that have the lock call `unlock`.
abbrev pub Disciplined : {s : State} → Reachable s → Type 0
Disciplined start = Unit {0}
Disciplined (next r step) = Disciplined r × ByHolder step
