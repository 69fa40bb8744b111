-- ===== src/RemoveExtra/Returns.antt =====
-- The removal of a directory of bounded depth comes to an end.
use Prim.Native.Nat.{Ordering}
use copy.Prelude.{
  ℕ, zero, suc, ◌≤◌, ◌<◌, ◌≡◌, refl, sym, subst, Bool, true, false, Option, none, some, List, [],
  ◌∷◌, ◌++◌, ◌==◌, arith, if◌then◌else◌, All,
}
use copy.PathOk.{slash}
use copy.World.{Bytes}
use copy.Syscalls.{Reply, ok, errno}
use copy.Remove.{is_dot_name}
use copy.RemoveExtra.Sets.{Entry, dt_dir, compare_path, insert_by, insert_at}
use copy.RemoveExtra.{
  Os, State, Task, ◌>>=◌, ◌>>◌, pure, call, do_call, sem_wait, sem_post, count_dst, count_removed,
  count_entries, for_all, paths_of, unlink_counted, empty_dir, opened_dir, recursive_remove,
}

-- A choice, and what is known on each side of it.
pub choose :
    {A : Type 0} (c : Bool) (P : A → Type 0) (x y : A) (T U : Type 0)
    → (if c then T else U)
    → (T → P x)
    → (U → P y)
    → P (if c then x else y)
choose true P x y T U h f g = f h
choose false P x y T U h f g = g h

both : (c : Bool) → if c then Unit {0} else Unit {0}
both true = tt
both false = tt

module _ {Fs : Type 0} where
  -- There is a result, and it satisfies `Q`.
  abbrev pub Halts : {A : Type 0} → (A → State Fs → Type 0) → Option (A × State Fs) → Type 0
  Halts Q none = ⊥
  Halts Q (some (a, w)) = Q a w

  after_lem :
      {A B : Type 0} (Q : A → State Fs → Type 0) (R : B → State Fs → Type 0)
      (o : Option (A × State Fs)) (f : A → Task Fs B)
      → Halts Q o
      → ((a : A) (v : State Fs) → Q a v → Halts R (f a v))
      → Halts R (elim o [ none ↦ none | some (a, w') ↦ f a w' ])
  after_lem Q R none f h k = absurd h
  after_lem Q R (some (a, v)) f h k = k a v h

  bind-Halts :
      {A B : Type 0} (Q : A → State Fs → Type 0) (R : B → State Fs → Type 0) (m : Task Fs A)
      (f : A → Task Fs B) (w : State Fs)
      → Halts Q (m w)
      → ((a : A) (v : State Fs) → Q a v → Halts R (f a v))
      → Halts R ((m >>= f) w)
  unfolding ◌>>=◌
  bind-Halts Q R m f w h k = after_lem Q R (m w) f h k

  -- Any state, and one with a slot that is free.
  abbrev Any : {A : Type 0} → A → State Fs → Type 0
  Any a w = Unit {0}

  abbrev Free : {A : Type 0} → A → State Fs → Type 0
  Free a w = 0 < w.sem

  sem_wait-Halts : (w : State Fs) → 0 < w.sem → Halts Any (sem_wait w)
  sem_wait-Halts w h = wait_lem w.sem h
    where
      wait_lem :
          (n : ℕ)
          → 0 < n
          → Halts Any (elim n [ zero ↦ none | suc m ↦ some (tt, record w { sem = m }) ])
      wait_lem zero h = absurd (omega arith)
      wait_lem (suc n) h = tt

  count_entries-Halts : (es : List Entry) (w : State Fs) → Halts Any (count_entries count_dst es w)
  unfolding count_entries
  count_entries-Halts [] w = tt
  count_entries-Halts ((name, type) ∷ es) w =
      choose (is_dot_name name) (λ (m : Task Fs (Unit {0})). Halts Any (m w)) _ _ (Unit {0})
        (Unit {0}) (both (is_dot_name name)) (λ u. count_entries-Halts es w)
        λ u.
          bind-Halts Any Any count_dst (λ x. count_entries count_dst es) w tt
            λ x v y. count_entries-Halts es v

  for_all-Halts :
      {A : Type 0} (P : A → Type 0) (f : A → Task Fs (Unit {0})) (xs : List A) (w : State Fs)
      → All P xs
      → ((a : A) (v : State Fs) → P a → 0 < v.sem → Halts Free (f a v))
      → 0 < w.sem
      → Halts Free (for_all f xs w)
  unfolding for_all
  for_all-Halts P f [] w ps h s = s
  for_all-Halts P f (x ∷ xs) w (p, ps) h s =
      bind-Halts Free Free (f x) (λ u. for_all f xs) w (h x w p s)
        λ u v s'. for_all-Halts P f xs v ps h s'

pub trivially : {A : Type 0} (xs : List A) → All (λ (a : A). Unit {0}) xs
trivially [] = tt
trivially (x ∷ xs) = (tt, trivially xs)

halted :
    {Fs : Type 0} (o : Option (ℕ × State Fs))
    → Halts (λ r w. 0 < w.sem) o
    → (r : ℕ) × (w' : State Fs) × (o ≡ some (r, w')) × (0 < w'.sem)
halted none h = absurd h
halted (some (r, w)) h = (r, w, refl, h)

-- A property of all members of a set.
insert_at-All :
    {A : Type 0} (P : A → Type 0) (o : Ordering) (x y : A) (ys rest : List A)
    → P x
    → P y
    → All P ys
    → All P rest
    → All P (insert_at o x y ys rest)
insert_at-All P Ordering.lt x y ys rest p q r s = (p, (q, r))
insert_at-All P Ordering.eq x y ys rest p q r s = (q, r)
insert_at-All P Ordering.gt x y ys rest p q r s = (q, s)

pub insert-All :
    (P : Bytes → Type 0) (x : Bytes) (ys : List Bytes)
    → P x
    → All P ys
    → All P (insert_by compare_path x ys)
insert-All P x [] p ps = (p, tt)
insert-All P x (y ∷ ys) p (q, qs) =
    insert_at-All P (compare_path x y) x y ys (insert_by compare_path x ys) p q qs
      (insert-All P x ys p qs)

-- What is asked of an entry of the directory at `path`: if it is a directory, `P` of its path.
abbrev pub OfDir : (Bytes → Type 0) → Bytes → Entry → Type 0
OfDir P path (name, type) =
    if is_dot_name name
    then Unit {0}
    else if type == dt_dir
    then P (path ++ slash ∷ name)
    else Unit {0}

paths_of-All :
    (P : Bytes → Type 0) (path : Bytes) (es : List Entry) (set : List Bytes)
    → All (OfDir P path) es
    → All P set
    → All P (paths_of path true es set)
paths_of-All P path [] set h s = s
paths_of-All P path ((name, type) ∷ es) set (h, hs) s =
    choose (is_dot_name name) (All P) _ _ _ _ h (λ u. paths_of-All P path es set hs s)
      λ g.
        choose (type == dt_dir) (All P) _ _ _ _ g
          (λ p.
            paths_of-All P path es (insert_by compare_path (path ++ slash ∷ name) set) hs
              (insert-All P (path ++ slash ∷ name) set p s))
          λ u. paths_of-All P path es set hs s

module _ {Fs : Type 0} (os : Os Fs) (dstfd : ℕ) where
  -- What an open directory yields, where it opens at all, is read from a stream.
  abbrev Streamed : (Bytes → Type 0) → Bytes → Option ℕ × Fs → Type 0
  Streamed P path (none, fs) = ⊥
  Streamed P path (some dir, fs) = All (OfDir P path) (os.readdir dir fs).0

  abbrev Opened : (Bytes → Type 0) → Bytes → Reply ℕ → Fs → Type 0
  Opened P path (errno e) fs = Unit {0}
  Opened P path (ok fd) fs = Streamed P path (os.fdopendir fd fs)

  -- The directory at a path, whenever it is opened, has no more than `n` directories one below another,
  -- itself counted, and its stream can be made.
  unfoldable pub Depth : ℕ → Bytes → Type 0
  Depth zero path = ⊥
  Depth (suc n) path =
      (fs : Fs) → Opened (Depth n) path (os.openat dstfd path fs).0 (os.openat dstfd path fs).1

  unlink-Halts :
      (path : Bytes) (v : State Fs) → 0 < v.sem → Halts Free (unlink_counted os dstfd path v)
  unlink-Halts path v s =
      bind-Halts Free Free (call (os.unlinkat dstfd path false)) (λ b. count_removed) v s λ b u t. t

  empty_dir-Halts :
      (n : ℕ) (below : Bytes → Task Fs ℕ) (path : Bytes) (made : Option ℕ × Fs) (w : State Fs)
      → ((p : Bytes) (v : State Fs) → Depth n p → 0 < v.sem → Halts Free (below p v))
      → Streamed (Depth n) path made
      → w.fs ≡ made.1
      → Halts Free (empty_dir os below dstfd path made.0 w)
  unfolding empty_dir
  empty_dir-Halts n below path (none, fs) w h d e = absurd d
  empty_dir-Halts n below path (some dir, fs) w h d e =
      bind-Halts (λ es v. All (OfDir (Depth n) path) es) Free (call (os.readdir dir)) _ w
        (subst (λ (x : Fs). All (OfDir (Depth n) path) (os.readdir dir x).0) (sym e) d)
        λ es w1 listed.
          bind-Halts Any Free (count_entries count_dst es) _ w1 (count_entries-Halts es w1)
            λ u w2 t. bind-Halts Any Free (do_call (os.closedir dir)) _ w2 tt λ u w3 t.
              bind-Halts Free Free sem_post _ w3 (omega arith) λ u w4 s4.
                bind-Halts Free Free (for_all (λ p. do below p; pure tt) (paths_of path true es []))
                  _ w4
                  (for_all-Halts (Depth n) _ (paths_of path true es []) w4
                    (paths_of-All (Depth n) path es [] listed tt)
                    (λ p v deep s. bind-Halts Free Free (below p) _ v (h p v deep s) λ a u t. t) s4)
                  λ u w5 s5.
                    bind-Halts Free Free
                      (for_all (unlink_counted os dstfd) (paths_of path false es [])) _ w5
                      (for_all-Halts (λ (p : Bytes). Unit {0}) _ (paths_of path false es []) w5
                        (trivially (paths_of path false es [])) (λ p v t s. unlink-Halts p v s) s5)
                      λ u w6 s6.
                        bind-Halts Free Free (call (os.unlinkat dstfd path true)) _ w6 s6
                          λ b w7 s7. bind-Halts Free Free count_removed _ w7 s7 λ u w8 s8. s8

  opened_dir-Halts :
      (n : ℕ) (below : Bytes → Task Fs ℕ) (path : Bytes) (fd : Reply ℕ) (w : State Fs)
      → ((p : Bytes) (v : State Fs) → Depth n p → 0 < v.sem → Halts Free (below p v))
      → Opened (Depth n) path fd w.fs
      → Halts Free (opened_dir os below dstfd path fd w)
  unfolding opened_dir
  opened_dir-Halts n below path (errno e) w h d =
      bind-Halts Free Free sem_post _ w (omega arith) λ u v s. s
  opened_dir-Halts n below path (ok fd) w h d =
      bind-Halts (λ dir v. (dir ≡ (os.fdopendir fd w.fs).0) × (v.fs ≡ (os.fdopendir fd w.fs).1))
        Free (call (os.fdopendir fd)) _ w (refl, refl)
        λ dir v (e, f).
          subst (λ (x : Option ℕ). Halts Free (empty_dir os below dstfd path x v)) (sym e)
            (empty_dir-Halts n below path (os.fdopendir fd w.fs) v h d f)

  recursive_remove-Halts :
      (n fuel : ℕ) (path : Bytes) (w : State Fs)
      → Depth n path
      → n ≤ fuel
      → 0 < w.sem
      → Halts Free (recursive_remove os fuel dstfd path w)
  unfolding recursive_remove Depth
  recursive_remove-Halts zero fuel path w d h s = absurd d
  recursive_remove-Halts (suc n) zero path w d h s = absurd (omega arith)
  recursive_remove-Halts (suc n) (suc fuel) path w d h s =
      bind-Halts Any Free sem_wait _ w (sem_wait-Halts w s) λ u w1 t.
        bind-Halts (λ fd v. Opened (Depth n) path fd v.fs) Free (call (os.openat dstfd path)) _ w1
          (d w1.fs)
          λ fd w2 opened.
            opened_dir-Halts n (recursive_remove os fuel dstfd) path fd w2
              (λ p v deep s'. recursive_remove-Halts n fuel p v deep (omega arith) s') opened

  -- The removal of a directory of bounded depth, whose streams can be made, returns, where the fuel is
  -- at least the depth and a slot of the semaphore is free; afterwards one is free again.
  pub recursive_remove_returns :
      (n fuel : ℕ) (path : Bytes) (w : State Fs)
      → Depth n path
      → n ≤ fuel
      → 0 < w.sem
      → (r : ℕ) × (w' : State Fs) × (recursive_remove os fuel dstfd path w ≡ some (r, w'))
        × (0 < w'.sem)
  recursive_remove_returns n fuel path w d h s =
      halted (recursive_remove os fuel dstfd path w) (recursive_remove-Halts n fuel path w d h s)
