-- ===== src/Spinlock/Exclusion.antt =====
-- The exclusion of the threads that hold a lock.
use copy.Prelude.{
  ℕ, ◌≡◌, ◌≢◌, refl, sym, ap, subst, ◌∙◌, inl, inr, Bool, true, false, Bool-cases, ◌==◌, if_so,
  if_not, arith,
}
use native.Mathlib.Decide.{ℕ_discrete}
use copy.Spinlock.{
  Place, idle, trying, waiting, loaded, won, holding, leaving, State, moved, Step, Reachable,
  ByHolder, Disciplined, start, next, lock, exchange, exchange_taken, load_taken, load_free,
  write_me, try_lock_taken, try_lock, try_exchange_taken, try_exchange, clear_me, unlock,
}

-- Whether a thread has the lock: from its exchange to the store that releases it.
abbrev pub owns : Place → Bool
owns idle = false
owns trying = false
owns waiting = false
owns loaded = false
owns won = true
owns holding = true
owns leaving = true

-- By what `lock_` says: no thread has the lock, or exactly one.
abbrev pub Owned : Bool → (ℕ → Place) → Type 0
Owned false place = (u : ℕ) → owns (place u) ≡ false
Owned true place = (t : ℕ) × (owns (place t) ≡ true) × ((u : ℕ) → owns (place u) ≡ true → u ≡ t)

moved_same : (place : ℕ → Place) (t : ℕ) (p : Place) → moved place t p t ≡ p
moved_same place t p = if_so (t == t) p (place t) (ground arith)

moved_other : (place : ℕ → Place) (t u : ℕ) (p : Place) → u ≢ t → moved place t p u ≡ place u
moved_other place t u p n = if_not (u == t) p (place u) (ground arith)

-- What a move to a place leaves: by whether it is the thread's.
owns-moved :
    (place : ℕ → Place) (t u : ℕ) (p : Place) (Q : Bool → Type 0)
    → (u ≡ t → Q (owns p))
    → (u ≢ t → Q (owns (place u)))
    → Q (owns (moved place t p u))
owns-moved place t u p Q h k = elim (ℕ_discrete u t) [
  | yes same ↦
      subst Q (sym (ap (λ (x : ℕ). owns (moved place t p x)) same ∙ ap owns (moved_same place t p)))
        (h same)
  | no other ↦ subst Q (sym (ap owns (moved_other place t u p other))) (k other)
]

-- A move that neither takes nor releases the lock.
keep :
    (l : Bool) (place : ℕ → Place) (t : ℕ) (p : Place)
    → owns (place t) ≡ owns p
    → Owned l place
    → Owned l (moved place t p)
keep false place t p e h =
    λ u. owns-moved place t u p (λ b. b ≡ false) (λ same. sym e ∙ h t) (λ other. h u)
keep true place t p e (o, mine, only) = (
  o,
  owns-moved place t o p (λ b. b ≡ true)
      (λ same. sym e ∙ ap (λ (x : ℕ). owns (place x)) (sym same) ∙ mine) (λ other. mine),
  λ u h. only u (
      owns-moved place t u p (λ b. b ≡ true → owns (place u) ≡ true)
        (λ same g. ap (λ (x : ℕ). owns (place x)) same ∙ e ∙ g) (λ other g. g) h),
)

acquire :
    (place : ℕ → Place) (t : ℕ) (p : Place)
    → owns p ≡ true
    → Owned false place
    → Owned true (moved place t p)
acquire place t p e h = (
  t,
  ap owns (moved_same place t p) ∙ e,
  λ u g.
      owns-moved place t u p (λ b. b ≡ true → u ≡ t) (λ same g'. same)
        (λ other g'. absurd (cc (h u))) g,
)

release :
    (place : ℕ → Place) (t : ℕ) (p : Place)
    → owns (place t) ≡ true
    → owns p ≡ false
    → Owned true place
    → Owned false (moved place t p)
release place t p mine e (o, owner, only) u =
    owns-moved place t u p (λ b. b ≡ false) (λ same. e)
      λ other. elim (Bool-cases (owns (place u))) [
        | inl his ↦ absurd (other (only u his ∙ sym (only t mine)))
        | inr not_his ↦ not_his
      ]

-- The lock is taken while a thread has it.
taken : (l : Bool) (place : ℕ → Place) (t : ℕ) → owns (place t) ≡ true → Owned l place → l ≡ true
taken true place t e h = refl
taken false place t e h = absurd (cc (h t))

Step-Owned :
    (x y : State) (step : Step x y) → ByHolder step → Owned x.lock_ x.place → Owned y.lock_ y.place
Step-Owned x y (lock t e) only h = keep x.lock_ x.place t trying (ap owns e) h
Step-Owned x y (exchange t e f) only h =
    acquire x.place t won refl (subst (λ (l : Bool). Owned l x.place) f h)
Step-Owned x y (exchange_taken t e f) only h =
    keep true x.place t waiting (ap owns e) (subst (λ (l : Bool). Owned l x.place) f h)
Step-Owned x y (load_taken t e f) only h = h
Step-Owned x y (load_free t e f) only h = keep x.lock_ x.place t trying (ap owns e) h
Step-Owned x y (write_me t e) only h = keep x.lock_ x.place t holding (ap owns e) h
Step-Owned x y (try_lock_taken t e f) only h = h
Step-Owned x y (try_lock t e f) only h = keep x.lock_ x.place t loaded (ap owns e) h
Step-Owned x y (try_exchange_taken t e f) only h =
    keep true x.place t idle (ap owns e) (subst (λ (l : Bool). Owned l x.place) f h)
Step-Owned x y (try_exchange t e f) only h =
    acquire x.place t holding refl (subst (λ (l : Bool). Owned l x.place) f h)
Step-Owned x y (clear_me t (inl e)) only h = keep x.lock_ x.place t leaving (ap owns e) h
Step-Owned x y (clear_me t (inr e)) only h = absurd only
Step-Owned x y (unlock t e) only h =
    release x.place t idle (ap owns e) refl
      (subst (λ (l : Bool). Owned l x.place) (taken x.lock_ x.place t (ap owns e) h) h)

-- However the accesses of any number of threads to a lock interleave, and whether they come by `lock`
-- or by `try_lock`, where only threads that have the lock call `unlock`, and none of these asks for the
-- lock again: exactly one thread has the lock while `lock_` is true, and none while it is false.
pub Reachable-Owned : (s : State) (r : Reachable s) → Disciplined r → Owned s.lock_ s.place
Reachable-Owned s start only = λ u. refl
Reachable-Owned s (next {x} {y} r step) (before, only) =
    Step-Owned x s step only (Reachable-Owned x r before)
