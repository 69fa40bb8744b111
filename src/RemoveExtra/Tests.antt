-- ===== src/RemoveExtra/Tests.antt =====
-- Runs of the removal of extra files, and the theorems on it.
use copy.Prelude.{
  ◌<◌, arith, sym, ◌∙◌, ap, and_true, ◌&&◌, ◌||◌, ◌++◌, ℕ, ◌+◌, ◌≡◌, refl, Bool, true, false, some,
  List, [], ◌∷◌, ◌==◌, if◌then◌else◌, Ensures,
}
use copy.World.{Bytes}
use copy.Syscalls.{ok, errno}
use copy.RemoveExtra.{Os, State, process_dir, recursive_remove, main, ◌>>=◌}
use copy.RemoveExtra.Sets.{
  Entry, compare_entry, compare_path, is_eq, has_by, extra, entries_set, dirs_set, to_process,
}
use copy.RemoveExtra.Common.{has-to_process}
use copy.RemoveExtra.Extra.{has-extra, path_sound}
use copy.RemoveExtra.Returns.{Depth, recursive_remove_returns}
use copy.RemoveExtra.Safety.{Guarded, SourceOpened, process_dir-Inv}
use copy.RemoveExtra.Slots.{process_dir-sem}

-- "." , a directory "d" and a file "f".
abbrev of_source : List Entry
of_source = (46 ∷ [], 4) ∷ (100 ∷ [], 4) ∷ (102 ∷ [], 8) ∷ []

-- And a file "d" there, a file "f" and a directory "x".
abbrev of_destination : List Entry
of_destination = (120 ∷ [], 4) ∷ (46 ∷ [], 4) ∷ (102 ∷ [], 8) ∷ (100 ∷ [], 8) ∷ []

extra_run : extra of_destination of_source ≡ (100 ∷ [], 8) ∷ (120 ∷ [], 4) ∷ []
unfolding entries_set
extra_run = refl

has-extra_example : has_by compare_entry (102 ∷ [], 8) (extra of_destination of_source) ≡ false
has-extra_example = has-extra (102 ∷ [], 8) of_destination of_source

abbrev is_top : Bytes → Bool
is_top (a ∷ []) = true
is_top p = false

abbrev has_root : Bytes → Bool
has_root [] = false
has_root (a ∷ p) = a == 115

-- A file system that only notes the paths that are unlinked: the root 3 is the source, 4 the destination,
-- and what is below "x" does not open.
abbrev noting : Os (List Bytes)
noting = record {
  open_dir = λ p s. (ok (if has_root p then 3 else 4), s);
  openat = λ root p s. (if is_top p then ok (root + 10) else errno 2, s);
  close = λ fd s. s;
  fdopendir = λ fd s. (some fd, s);
  readdir = λ d s. (if d == 13 then of_source else of_destination, s);
  closedir = λ d s. s;
  unlinkat = λ root p dir s. (true, p ∷ s);
}

abbrev before : State (List Bytes)
before = record { fs = []; sem = 7; total_count_dst = 0; total_count_src = 0; total_removed = 0 }

-- "./d" is unlinked, and "./x" does not open.
abbrev after : State (List Bytes)
after = record {
  fs = (46 ∷ 47 ∷ 100 ∷ []) ∷ [];
  sem = 7;
  total_count_dst = 3;
  total_count_src = 2;
  total_removed = 1;
}

process_run : process_dir noting 3 3 4 (46 ∷ []) before ≡ some (0, after)
unfolding process_dir ◌>>=◌ to_process dirs_set entries_set
process_run = refl

process_dir-sem_example :
    Ensures
      (λ (r : ℕ × State (List Bytes)). r.1.sem ≡ 7)
      (process_dir noting 3 3 4 (46 ∷ []) before)
process_dir-sem_example = process_dir-sem noting 3 3 4 (46 ∷ []) before

main_run : (w : State (List Bytes)) × (main noting 3 (115 ∷ []) (116 ∷ []) [] ≡ some (0, w))
unfolding main ◌>>=◌ to_process dirs_set entries_set
main_run = (_, refl)

has-to_process_example :
    has_by compare_path (100 ∷ []) (to_process (dirs_set of_source []) of_destination []) ≡ false
has-to_process_example = has-to_process (100 ∷ []) of_destination of_source

-- "x" holds a directory "x", which does not open.
x-Depth : Depth noting 4 2 (120 ∷ [])
unfolding Depth
x-Depth fs = ((λ fs'. tt), (tt, (tt, (tt, tt))))

recursive_remove_returns_example :
    (r : ℕ) × (w' : State (List Bytes)) × (recursive_remove noting 2 4 (120 ∷ []) before
      ≡ some (r, w'))
    × (0 < w'.sem)
recursive_remove_returns_example =
    recursive_remove_returns noting 4 2 2 (120 ∷ []) before x-Depth (omega arith) (omega arith)

abbrev prefix : Bytes → Bytes → Bool
prefix [] w = true
prefix (a ∷ p) [] = false
prefix (a ∷ p) (b ∷ w) = (a == b) && prefix p w

both : (a b : Bool) → a ≡ true → b ≡ true → (a && b) ≡ true
both true b h k = k
both false b h k = h

prefix-append : (p q w : Bytes) → prefix (p ++ q) w ≡ true → prefix p w ≡ true
prefix-append [] q w h = refl
prefix-append (a ∷ p) q [] h = h
prefix-append (a ∷ p) q (b ∷ w) h =
    let (same, rest) = and_true (a == b) (prefix (p ++ q) w) h in
    both (a == b) (prefix p w) same (prefix-append p q w rest)

prefix_refl : (p : Bytes) → prefix p p ≡ true
prefix_refl [] = refl
prefix_refl (a ∷ p) = both (a == a) (prefix p p) (ground arith) (prefix_refl p)

-- "./f" is not unlinked.
abbrev file_f : Bytes
file_f = 46 ∷ 47 ∷ 102 ∷ []

abbrev Noted : List Bytes → Type 0
Noted s = has_by compare_path file_f s ≡ false

-- It and what is above it.
abbrev Above : Bytes → Type 0
Above p = prefix p file_f ≡ true

no_or : (a b : Bool) → ¬ (a ≡ true) → b ≡ false → (a || b) ≡ false
no_or true b h k = absurd (h refl)
no_or false b h k = k

noted : (p : Bytes) (s : List Bytes) → ¬ Above p → Noted s → Noted (p ∷ s)
noted p s out h =
    no_or (is_eq (compare_path file_f p)) (has_by compare_path file_f s)
      (λ e. out (ap (λ q. prefix q file_f) (sym (path_sound file_f p e)) ∙ prefix_refl file_f)) h

name_f :
    (c type : ℕ)
    → c ≡ 102
    → has_by compare_entry (c ∷ [], type) of_destination ≡ true
    → has_by compare_entry (c ∷ [], type) of_source ≡ true
name_f c type same h =
    ap (λ (n : ℕ). has_by compare_entry (n ∷ [], type) of_source) same
    ∙ sym (ap (λ (n : ℕ). has_by compare_entry (n ∷ [], type) of_destination) same)
    ∙ h

listings_agree :
    (a : ℕ) (e : Entry)
    → has_by compare_entry e of_destination ≡ true
    → Above ((a ∷ []) ++ 47 ∷ e.0)
    → has_by compare_entry e of_source ≡ true
listings_agree a ([], type) h k = absurd (cc h)
listings_agree a (c ∷ [], type) h k =
    let (top, rest) = and_true (a == 46) ((c == 102) && true) k in
    let (f, end) = and_true (c == 102) true rest in name_f c type (ground arith) h
listings_agree a (c ∷ d ∷ n, type) h k =
    let (top, rest) = and_true (a == 46) ((c == 102) && false) k in
    let (f, end) = and_true (c == 102) false rest in absurd (cc end)

noting-Guarded : Guarded noting 3 4 Noted Above
noting-Guarded = record {
  parent = λ path name h. prefix-append path (47 ∷ name) file_f h;
  opens = λ path fs i. i;
  streams = λ fd fs i. i;
  reads = λ dir fs i. i;
  closes = λ fd fs i. i;
  closedirs = λ dir fs i. i;
  unlinks = λ path dir fs out i. noted path fs out i;
  listed = listed_lem;
}
  where
    listed_lem :
        (path : Bytes) (fs : List Bytes)
        → Noted fs
        → SourceOpened noting 3 4 Noted Above path
            (noting.openat 3 path fs).0
            (noting.openat 3 path fs).1
    listed_lem [] fs i = i
    listed_lem (a ∷ []) fs i = (i, listings_agree a)
    listed_lem (a ∷ b ∷ p) fs i = i

process_dir-Inv_example :
    Ensures
      (λ (r : ℕ × State (List Bytes)). has_by compare_path (46 ∷ 47 ∷ 102 ∷ []) r.1.fs ≡ false)
      (process_dir noting 3 3 4 (46 ∷ []) before)
process_dir-Inv_example =
    process_dir-Inv noting 3 4 Noted Above 3 (46 ∷ []) before noting-Guarded refl
