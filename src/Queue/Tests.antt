-- ===== src/Queue/Tests.antt =====
-- A run of a queue of two slots, and the theorem on it.
use copy.Prelude.{ℕ, ◌+◌, ◌≡◌, refl, some, [], ◌∷◌}
use copy.Filejob.{no_file_job}
use copy.Queue.{
  State, create, Reachable, start, next, wait, enqueue, enqueue_failed, dequeue, first,
}
use copy.Queue.Bound.{slots, failures, Reachable-slots}

-- One job went in and is being taken out, and one failed.
abbrev after : State
after = record { enqueue_sem = 0; entering = []; q = []; leaving = no_file_job ∷ [] }

two_slots : create 2 ≡ some (record { enqueue_sem = 2; entering = []; q = []; leaving = [] })
unfolding create
two_slots = refl

abbrev trace : Reachable 2 after
trace =
    next
      (next
        (next (next (next (start two_slots) (wait no_file_job)) (enqueue first)) (wait no_file_job))
        (enqueue_failed first))
      (dequeue first)

Reachable-slots_example :
    (slots after + 1 ≡ 2)
    × (n : ℕ) × (r' : Reachable 2 (record { enqueue_sem = n; entering = []; q = []; leaving = [] }))
    × (failures r' ≡ 1)
    × (n + 1 ≡ 2)
Reachable-slots_example = Reachable-slots 2 after trace
