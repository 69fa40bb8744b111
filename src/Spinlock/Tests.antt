-- ===== src/Spinlock/Tests.antt =====
-- A run in which two threads want the lock, and the theorem on it.
use copy.Prelude.{ℕ, ◌≡◌, refl, true, none, some, inr}
use copy.Spinlock.{
  idle, trying, loaded, won, holding, leaving, State, moved, Reachable, start, next, lock, exchange,
  write_me, try_lock, try_exchange, clear_me, unlock,
}
use copy.Spinlock.Exclusion.{owns, Reachable-Owned}

-- Thread 2 has the lock, and thread 5 has seen it free before.
abbrev contended : State
contended = record {
  lock_ = true;
  me = some 2;
  place = moved (moved (moved (moved (λ t. idle) 5 loaded) 2 trying) 2 won) 2 holding;
}

abbrev contended-Reachable : Reachable contended
contended-Reachable =
    next (next (next (next start (try_lock 5 refl refl)) (lock 2 refl)) (exchange 2 refl refl))
      (write_me 2 refl)

Reachable-Owned_example :
    (t : ℕ) × (owns (contended.place t) ≡ true)
    × ((u : ℕ) → owns (contended.place u) ≡ true → u ≡ t)
Reachable-Owned_example = Reachable-Owned contended contended-Reachable ((((tt, tt), tt), tt), tt)

-- Thread 5, which has not the lock, unlocks while thread 2 has it, and thread 7 takes it too.
abbrev shared_by_two : State
shared_by_two = record {
  lock_ = true;
  me = none;
  place =
      moved
        (moved (moved (moved (moved (moved (λ t. idle) 2 loaded) 2 holding) 5 leaving) 5 idle) 7
          loaded)
        7 holding;
}

unheld_unlock :
    Reachable shared_by_two
    × (owns (shared_by_two.place 2) ≡ true)
    × (owns (shared_by_two.place 7) ≡ true)
unheld_unlock = (
  next
      (next
        (next
          (next (next (next start (try_lock 2 refl refl)) (try_exchange 2 refl refl))
            (clear_me 5 (inr refl)))
          (unlock 5 refl))
        (try_lock 7 refl refl))
      (try_exchange 7 refl refl),
  refl,
  refl,
)
