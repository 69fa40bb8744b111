-- ===== src/RemoveExtra/Safety.antt =====
-- What both sides have is not removed.
use copy.Prelude.{
  ℕ, zero, suc, ◌≡◌, refl, sym, ap, ◌∙◌, Bool, true, false, not, ◌&&◌, ◌||◌, Option, none, some,
  List, [], ◌∷◌, ◌++◌, ◌==◌, if◌then◌else◌, All, Ensures, and_true,
}
use copy.PathOk.{slash}
use copy.World.{Bytes}
use copy.Syscalls.{Reply, ok, errno}
use copy.Remove.{is_dot_name}
use copy.RemoveExtra.Sets.{
  Entry, dt_dir, compare_path, compare_entry, is_eq, insert_by, has_by, extra, dirs_set, to_process,
}
use copy.RemoveExtra.Extra.{has-extra, entry_same}
use copy.RemoveExtra.Returns.{choose, insert-All, trivially}
use copy.RemoveExtra.{
  Os, State, Task, ◌>>=◌, ◌>>◌, pure, call, do_call, sem_wait, sem_post, count_dst, count_src,
  count_removed, count_entries, for_all, paths_of, unlink_counted, empty_dir, opened_dir,
  recursive_remove, remove_extra, compare_dirs, close_opened, not_opened, opened_dirs, process_dir,
}

either : {P : Type 0} (c : Bool) → P → if c then P else P
either true p = p
either false p = p

either_or : (a b : Bool) → b ≡ true → (a || b) ≡ true
either_or true b h = refl
either_or false b h = h

has_by-All :
    (P : Entry → Type 0) (xs : List Entry)
    → ((e : Entry) → has_by compare_entry e xs ≡ true → P e)
    → All P xs
has_by-All P [] h = tt
has_by-All P (x ∷ xs) h = (
  h x (ap (λ (b : Bool). b || has_by compare_entry x xs) (entry_same x)),
  has_by-All P xs λ e k. h e (either_or (is_eq (compare_entry e x)) (has_by compare_entry e xs) k),
)

module _ {Fs : Type 0} (os : Os Fs) (srcfd dstfd : ℕ) (I : Fs → Type 0)
    (Kept : Bytes → Type 0) where
  -- Of two listings of a directory: what is kept of the second one is in the first, of the same type.
  abbrev Compared : Bytes → List Entry → List Entry × Fs → Type 0
  Compared path src (dst, fs) =
      I fs
      × ((e : Entry)
          → has_by compare_entry e dst ≡ true
          → Kept (path ++ slash ∷ e.0)
          → has_by compare_entry e src ≡ true)

  abbrev SourceRead : Bytes → ℕ → List Entry × Fs → Type 0
  SourceRead path dst_dir (src, fs) = Compared path src (os.readdir dst_dir fs)

  abbrev BothStreams : Bytes → Option ℕ → Option ℕ × Fs → Type 0
  BothStreams path none made = Unit {0}
  BothStreams path (some src_dir) (none, fs) = Unit {0}
  BothStreams path (some src_dir) (some dst_dir, fs) =
      SourceRead path dst_dir (os.readdir src_dir fs)

  abbrev SourceStream : Bytes → ℕ → Option ℕ × Fs → Type 0
  SourceStream path d (src_dir, fs) = BothStreams path src_dir (os.fdopendir d fs)

  abbrev pub BothOpened : Bytes → Reply ℕ → Reply ℕ → Fs → Type 0
  BothOpened path (errno e) d fs = I fs
  BothOpened path (ok s) (errno e) fs = I fs
  BothOpened path (ok s) (ok d) fs = SourceStream path d (os.fdopendir s fs)

  abbrev pub SourceOpened : Bytes → Reply ℕ → Fs → Type 0
  SourceOpened path s fs = BothOpened path s (os.openat dstfd path fs).0 (os.openat dstfd path fs).1

  -- The calls keep the invariant, where no kept path is unlinked; what is above a kept path is kept; and
  -- whenever a directory is opened and read on both sides, what is kept in it is there on both.
  pub record Guarded : Type 0 where
    pub parent : (path name : Bytes) → Kept (path ++ slash ∷ name) → Kept path
    pub opens : (path : Bytes) (fs : Fs) → I fs → I (os.openat dstfd path fs).1
    pub streams : (fd : ℕ) (fs : Fs) → I fs → I (os.fdopendir fd fs).1
    pub reads : (dir : ℕ) (fs : Fs) → I fs → I (os.readdir dir fs).1
    pub closes : (fd : ℕ) (fs : Fs) → I fs → I (os.close fd fs)
    pub closedirs : (dir : ℕ) (fs : Fs) → I fs → I (os.closedir dir fs)
    pub unlinks :
        (path : Bytes) (dir : Bool) (fs : Fs)
        → ¬ Kept path
        → I fs
        → I (os.unlinkat dstfd path dir fs).1
    pub listed :
        (path : Bytes) (fs : Fs)
        → I fs
        → SourceOpened path (os.openat srcfd path fs).0 (os.openat srcfd path fs).1

  abbrev Sat : {A : Type 0} → (A → State Fs → Type 0) → Option (A × State Fs) → Type 0
  Sat {A} Q o = Ensures (λ (r : A × State Fs). Q r.0 r.1) o

  -- The invariant, in any state.
  abbrev Inv : {A : Type 0} → A → State Fs → Type 0
  Inv a w = I w.fs

  after_lem :
      {A B : Type 0} (Q : A → State Fs → Type 0) (R : B → State Fs → Type 0)
      (o : Option (A × State Fs)) (f : A → Task Fs B)
      → Sat Q o
      → ((a : A) (v : State Fs) → Q a v → Sat R (f a v))
      → Sat R (elim o [ none ↦ none | some (a, w') ↦ f a w' ])
  after_lem Q R none f h k = tt
  after_lem Q R (some (a, v)) f h k = k a v h

  bind-Sat :
      {A B : Type 0} (Q : A → State Fs → Type 0) (R : B → State Fs → Type 0) (m : Task Fs A)
      (f : A → Task Fs B) (w : State Fs)
      → Sat Q (m w)
      → ((a : A) (v : State Fs) → Q a v → Sat R (f a v))
      → Sat R ((m >>= f) w)
  unfolding ◌>>=◌
  bind-Sat Q R m f w h k = after_lem Q R (m w) f h k

  -- The semaphore and the counts are no part of the file system.
  sem_wait-Sat : (P : Fs → Type 0) (w : State Fs) → P w.fs → Sat (λ u v. P v.fs) (sem_wait w)
  sem_wait-Sat P w h = wait_lem w.sem
    where
      wait_lem :
          (n : ℕ)
          → Sat (λ u v. P v.fs) (elim n [ zero ↦ none | suc m ↦ some (tt, record w { sem = m }) ])
      wait_lem zero = tt
      wait_lem (suc n) = h

  count_entries-Sat :
      (P : Fs → Type 0) (count : Task Fs (Unit {0})) (es : List Entry) (w : State Fs)
      → ((v : State Fs) → P v.fs → Sat (λ u v'. P v'.fs) (count v))
      → P w.fs
      → Sat (λ u v. P v.fs) (count_entries count es w)
  unfolding count_entries
  count_entries-Sat P count [] w h p = p
  count_entries-Sat P count ((name, type) ∷ es) w h p =
      choose (is_dot_name name) (λ (m : Task Fs (Unit {0})). Sat (λ u v. P v.fs) (m w)) _ _ (P w.fs)
        (P w.fs) (either (is_dot_name name) p) (λ q. count_entries-Sat P count es w h q)
        λ q.
          bind-Sat (λ u v. P v.fs) (λ u v. P v.fs) count _ w (h w q)
            λ u v r. count_entries-Sat P count es v h r

  for_all-Sat :
      {A : Type 0} (P : A → Type 0) (f : A → Task Fs (Unit {0})) (xs : List A) (w : State Fs)
      → All P xs
      → ((a : A) (v : State Fs) → P a → I v.fs → Sat Inv (f a v))
      → I w.fs
      → Sat Inv (for_all f xs w)
  unfolding for_all
  for_all-Sat P f [] w ps h s = s
  for_all-Sat P f (x ∷ xs) w (p, ps) h s =
      bind-Sat Inv Inv (f x) (λ u. for_all f xs) w (h x w p s)
        λ u v s'. for_all-Sat P f xs v ps h s'

  -- All below what is not kept is not kept.
  below_path :
      (path : Bytes) (b : Bool) (es : List Entry) (set : List Bytes)
      → Guarded
      → ¬ Kept path
      → All (λ p. ¬ Kept p) set
      → All (λ p. ¬ Kept p) (paths_of path b es set)
  below_path path b [] set law out ps = ps
  below_path path b ((name, type) ∷ es) set law out ps =
      let P : Bytes → Type 0 = λ p. ¬ Kept p in
      let more : All P (insert_by compare_path (path ++ slash ∷ name) set) =
        insert-All P (path ++ slash ∷ name) set (λ k. out (law.parent path name k)) ps in
      choose (is_dot_name name) (All P) _ _ (Unit {0}) (Unit {0}) (either (is_dot_name name) tt)
        (λ u. below_path path b es set law out ps)
        λ u.
          choose (type == dt_dir) (All P) _ _ (Unit {0}) (Unit {0}) (either (type == dt_dir) tt)
            (λ u.
              below_path path b es _ law out
                (choose b (All P) _ _ (Unit {0}) (Unit {0}) (either b tt) (λ u. more) λ u. ps))
            λ u.
              below_path path b es _ law out
                (choose b (All P) _ _ (Unit {0}) (Unit {0}) (either b tt) (λ u. ps) λ u. more)

  unlink-Inv :
      (path : Bytes) (w : State Fs)
      → Guarded
      → ¬ Kept path
      → I w.fs
      → Sat Inv (unlink_counted os dstfd path w)
  unlink-Inv path w law out h =
      bind-Sat Inv Inv (call (os.unlinkat dstfd path false)) _ w (law.unlinks path false w.fs out h)
        λ b v i. i

  empty_dir-Inv :
      (below : Bytes → Task Fs ℕ) (path : Bytes) (dir : Option ℕ) (w : State Fs)
      → Guarded
      → ((p : Bytes) (v : State Fs) → ¬ Kept p → I v.fs → Sat Inv (below p v))
      → ¬ Kept path
      → I w.fs
      → Sat Inv (empty_dir os below dstfd path dir w)
  unfolding empty_dir
  empty_dir-Inv below path none w law h out i = tt
  empty_dir-Inv below path (some dir) w law h out i =
      bind-Sat Inv Inv (call (os.readdir dir)) _ w (law.reads dir w.fs i) λ es w1 i1.
        bind-Sat Inv Inv (count_entries count_dst es) _ w1
          (count_entries-Sat I count_dst es w1 (λ v j. j) i1)
          λ u w2 i2.
            bind-Sat Inv Inv (do_call (os.closedir dir)) _ w2 (law.closedirs dir w2.fs i2)
              λ u w3 i3. bind-Sat Inv Inv sem_post _ w3 i3 λ u w4 i4.
                bind-Sat Inv Inv (for_all (λ p. do below p; pure tt) (paths_of path true es [])) _
                  w4
                  (for_all-Sat (λ p. ¬ Kept p) _ (paths_of path true es []) w4
                    (below_path path true es [] law out tt)
                    (λ p v o j. bind-Sat Inv Inv (below p) _ v (h p v o j) λ a x k. k) i4)
                  λ u w5 i5.
                    bind-Sat Inv Inv (for_all (unlink_counted os dstfd) (paths_of path false es []))
                      _ w5
                      (for_all-Sat (λ p. ¬ Kept p) _ (paths_of path false es []) w5
                        (below_path path false es [] law out tt) (λ p v o j. unlink-Inv p v law o j)
                        i5)
                      λ u w6 i6.
                        bind-Sat Inv Inv (call (os.unlinkat dstfd path true)) _ w6
                          (law.unlinks path true w6.fs out i6)
                          λ b w7 i7. bind-Sat Inv Inv count_removed _ w7 i7 λ u w8 i8. i8

  opened_dir-Inv :
      (below : Bytes → Task Fs ℕ) (path : Bytes) (fd : Reply ℕ) (w : State Fs)
      → Guarded
      → ((p : Bytes) (v : State Fs) → ¬ Kept p → I v.fs → Sat Inv (below p v))
      → ¬ Kept path
      → I w.fs
      → Sat Inv (opened_dir os below dstfd path fd w)
  unfolding opened_dir
  opened_dir-Inv below path (errno e) w law h out i = bind-Sat Inv Inv sem_post _ w i λ u v j. j
  opened_dir-Inv below path (ok fd) w law h out i =
      bind-Sat Inv Inv (call (os.fdopendir fd)) _ w (law.streams fd w.fs i)
        λ dir v j. empty_dir-Inv below path dir v law h out j

  recursive_remove-Inv :
      (fuel : ℕ) (path : Bytes) (w : State Fs)
      → Guarded
      → ¬ Kept path
      → I w.fs
      → Sat Inv (recursive_remove os fuel dstfd path w)
  unfolding recursive_remove
  recursive_remove-Inv zero path w law out i = tt
  recursive_remove-Inv (suc fuel) path w law out i =
      bind-Sat Inv Inv sem_wait _ w (sem_wait-Sat I w i) λ u w1 i1.
        bind-Sat Inv Inv (call (os.openat dstfd path)) _ w1 (law.opens path w1.fs i1) λ fd w2 i2.
          opened_dir-Inv (recursive_remove os fuel dstfd) path fd w2 law
            (λ p v o j. recursive_remove-Inv fuel p v law o j) out i2

  -- No extra entry of a directory is kept.
  extra-out :
      (path : Bytes) (src dst : List Entry) (fs : Fs)
      → Compared path src (dst, fs)
      → (e : Entry) → has_by compare_entry e (extra dst src) ≡ true
      → ¬ Kept (path ++ slash ∷ e.0)
  extra-out path src dst fs (i, both_have) e h kept =
      let (plain, rest) =
        and_true (not (is_dot_name e.0))
          (has_by compare_entry e dst && not (has_by compare_entry e src))
          (sym (has-extra e dst src) ∙ h) in
      let (there, missing) =
        and_true (has_by compare_entry e dst) (not (has_by compare_entry e src)) rest in
      let found = both_have e there kept in absurd (cc (ap not found))

  remove_extra-Inv :
      (fuel : ℕ) (path : Bytes) (e : Entry) (w : State Fs)
      → Guarded
      → ¬ Kept (path ++ slash ∷ e.0)
      → I w.fs
      → Sat Inv (remove_extra os (recursive_remove os fuel dstfd) dstfd path e w)
  remove_extra-Inv fuel path (name, type) w law out i =
      choose (type == dt_dir) (λ (m : Task Fs (Unit {0})). Sat Inv (m w)) _ _ (Unit {0}) (Unit {0})
        (either (type == dt_dir) tt)
        (λ u.
          bind-Sat Inv Inv (recursive_remove os fuel dstfd (path ++ slash ∷ name)) _ w
            (recursive_remove-Inv fuel (path ++ slash ∷ name) w law out i) λ a x k. k)
        λ u. unlink-Inv (path ++ slash ∷ name) w law out i

  extras-out :
      (path : Bytes) (src dst : List Entry) (fs : Fs)
      → Compared path src (dst, fs)
      → All (λ (e : Entry). ¬ Kept (path ++ slash ∷ e.0)) (extra dst src)
  extras-out path src dst fs c =
      has_by-All (λ (e : Entry). ¬ Kept (path ++ slash ∷ e.0)) (extra dst src)
        (extra-out path src dst fs c)

  compare_dirs-Inv :
      (below : Bytes → Task Fs ℕ) (fuel : ℕ) (path : Bytes) (src_dir dst_dir : Option ℕ)
      (w : State Fs)
      → Guarded
      → ((p : Bytes) (v : State Fs) → I v.fs → Sat Inv (below p v))
      → BothStreams path src_dir (dst_dir, w.fs)
      → Sat Inv
          (compare_dirs os below (recursive_remove os fuel dstfd) dstfd path src_dir dst_dir w)
  unfolding compare_dirs
  compare_dirs-Inv below fuel path none d w law h c = tt
  compare_dirs-Inv below fuel path (some s) none w law h c = tt
  compare_dirs-Inv below fuel path (some s) (some d) w law h c =
      let Read : List Entry → State Fs → Type 0 = λ src v. SourceRead path d (src, v.fs) in
      let Both : List Entry → List Entry → State Fs → Type 0 =
        λ src dst v. Compared path src (dst, v.fs) in
      bind-Sat Read Inv (call (os.readdir s)) _ w c λ src w1 c1.
        bind-Sat (λ u. Read src) Inv (count_entries count_src src) _ w1
          (count_entries-Sat (λ fs. SourceRead path d (src, fs)) count_src src w1 (λ v j. j) c1)
          λ u w2 c2. bind-Sat (Both src) Inv (call (os.readdir d)) _ w2 c2 λ dst w3 c3.
            bind-Sat (λ u. Both src dst) Inv (count_entries count_dst dst) _ w3
              (count_entries-Sat (λ fs. Compared path src (dst, fs)) count_dst dst w3 (λ v j. j) c3)
              λ u w4 c4.
                let outs = extras-out path src dst w4.fs c4 in
                bind-Sat Inv Inv (do_call (os.closedir s)) _ w4 (law.closedirs s w4.fs c4.0)
                  λ u w5 i5.
                    bind-Sat Inv Inv (do_call (os.closedir d)) _ w5 (law.closedirs d w5.fs i5)
                      λ u w6 i6. bind-Sat Inv Inv sem_post _ w6 i6 λ u w7 i7.
                        bind-Sat Inv Inv sem_post _ w7 i7 λ u w8 i8.
                          bind-Sat Inv Inv _ _ w8
                            (for_all-Sat (λ p. Unit {0}) _ (to_process (dirs_set src []) dst []) w8
                              (trivially _)
                              (λ p v o j.
                                bind-Sat Inv Inv (below (path ++ slash ∷ p)) _ v
                                  (h (path ++ slash ∷ p) v j) λ a x k. k)
                              i8)
                            λ u w9 i9.
                              bind-Sat Inv Inv _ _ w9
                                (for_all-Sat (λ (e : Entry). ¬ Kept (path ++ slash ∷ e.0)) _
                                  (extra dst src) w9 outs
                                  (λ e v o j. remove_extra-Inv fuel path e v law o j) i9)
                                λ u v i. i

  close_opened-Inv :
      (fd : Reply ℕ) (w : State Fs) → Guarded → I w.fs → Sat Inv (close_opened os fd w)
  close_opened-Inv (errno e) w law i = i
  close_opened-Inv (ok fd) w law i = law.closes fd w.fs i

  not_opened-Inv : (s d : Reply ℕ) (w : State Fs) → Guarded → I w.fs → Sat Inv (not_opened os s d w)
  not_opened-Inv s d w law i =
      bind-Sat Inv Inv (close_opened os s) _ w (close_opened-Inv s w law i) λ u w1 i1.
        bind-Sat Inv Inv (close_opened os d) _ w1 (close_opened-Inv d w1 law i1) λ u w2 i2.
          bind-Sat Inv Inv sem_post _ w2 i2 λ u w3 i3. bind-Sat Inv Inv sem_post _ w3 i3 λ u v i. i

  opened_dirs-Inv :
      (below : Bytes → Task Fs ℕ) (fuel : ℕ) (path : Bytes) (s d : Reply ℕ) (w : State Fs)
      → Guarded
      → ((p : Bytes) (v : State Fs) → I v.fs → Sat Inv (below p v))
      → BothOpened path s d w.fs
      → Sat Inv (opened_dirs os below (recursive_remove os fuel dstfd) dstfd path s d w)
  unfolding opened_dirs
  opened_dirs-Inv below fuel path (errno e) d w law h c = not_opened-Inv (errno e) d w law c
  opened_dirs-Inv below fuel path (ok s) (errno e) w law h c =
      not_opened-Inv (ok s) (errno e) w law c
  opened_dirs-Inv below fuel path (ok s) (ok d) w law h c =
      bind-Sat (λ src_dir v. SourceStream path d (src_dir, v.fs)) Inv (call (os.fdopendir s)) _ w c
        λ src_dir w1 c1.
          bind-Sat (λ dst_dir v. BothStreams path src_dir (dst_dir, v.fs)) Inv
            (call (os.fdopendir d)) _ w1 c1
            λ dst_dir w2 c2. compare_dirs-Inv below fuel path src_dir dst_dir w2 law h c2

  -- Where every call keeps an invariant, the unlink of a kept path excepted, where what is above a kept path
  -- is kept, and where, whenever a directory is opened and read on both sides, each kept entry of the
  -- destination's listing is in the source's: a run of `processDir` that ends keeps the invariant.
  pub process_dir-Inv :
      (fuel : ℕ) (path : Bytes) (w : State Fs)
      → Guarded
      → I w.fs
      → Ensures (λ (r : ℕ × State Fs). I r.1.fs) (process_dir os fuel srcfd dstfd path w)
  unfolding process_dir
  process_dir-Inv zero path w law i = tt
  process_dir-Inv (suc fuel) path w law i =
      bind-Sat Inv Inv sem_wait _ w (sem_wait-Sat I w i) λ u w1 i1.
        bind-Sat (λ s v. SourceOpened path s v.fs) Inv (call (os.openat srcfd path)) _ w1
          (law.listed path w1.fs i1)
          λ s w2 c2.
            bind-Sat (λ u v. SourceOpened path s v.fs) Inv sem_wait _ w2
              (sem_wait-Sat (SourceOpened path s) w2 c2)
              λ u w3 c3.
                bind-Sat (λ d v. BothOpened path s d v.fs) Inv (call (os.openat dstfd path)) _ w3 c3
                  λ d w4 c4.
                    opened_dirs-Inv (process_dir os fuel srcfd dstfd) fuel path s d w4 law
                      (λ p v j. process_dir-Inv fuel p v law j) c4
