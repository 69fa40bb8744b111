-- ===== src/RemoveExtra/Sets.antt =====
-- The ordered sets of pace-removeextra.cpp, and which entries of a destination are extra.
use Prim.Native.Nat.{compare, Ordering}
use copy.Prelude.{ℕ, Bool, true, false, ◌&&◌, ◌||◌, List, [], ◌∷◌, ◌==◌, if◌then◌else◌}
use copy.World.{Bytes}
use copy.Remove.{is_dot_name}

-- An entry of a directory: its name and its `d_type`.
abbrev pub Entry : Type 0
Entry = Bytes × ℕ

abbrev pub dt_dir : ℕ
dt_dir = 4

-- By the first difference.
abbrev pub then_by : Ordering → Ordering → Ordering
then_by Ordering.lt o = Ordering.lt
then_by Ordering.eq o = o
then_by Ordering.gt o = Ordering.gt

-- The order of `std::string`.
abbrev pub compare_path : Bytes → Bytes → Ordering
compare_path [] [] = Ordering.eq
compare_path [] (b ∷ t) = Ordering.lt
compare_path (a ∷ s) [] = Ordering.gt
compare_path (a ∷ s) (b ∷ t) = then_by (compare a b) (compare_path s t)

-- The order of `std::pair`.
abbrev pub compare_entry : Entry → Entry → Ordering
compare_entry (s, a) (t, b) = then_by (compare_path s t) (compare a b)

abbrev pub is_eq : Ordering → Bool
is_eq Ordering.lt = false
is_eq Ordering.eq = true
is_eq Ordering.gt = false

-- By the order of the new member and the first one.
abbrev pub insert_at : {A : Type 0} → Ordering → A → A → List A → List A → List A
insert_at Ordering.lt x y ys rest = x ∷ y ∷ ys
insert_at Ordering.eq x y ys rest = y ∷ ys
insert_at Ordering.gt x y ys rest = y ∷ rest

module _ {A : Type 0} (order : A → A → Ordering) where
  -- `std::set::insert`.
  abbrev pub insert_by : A → List A → List A
  insert_by x [] = x ∷ []
  insert_by x (y ∷ ys) = insert_at (order x y) x y ys (insert_by x ys)

  -- `std::set::contains`.
  abbrev pub has_by : A → List A → Bool
  has_by x [] = false
  has_by x (y ∷ ys) = is_eq (order x y) || has_by x ys

  -- `std::set_difference`: the members of the first set that are not in the second.
  abbrev pub difference_by : List A → List A → List A
  difference_by [] ys = []
  difference_by (x ∷ xs) ys = if has_by x ys then difference_by xs ys else x ∷ difference_by xs ys

-- The set that the scan of a stream's entries fills.
unfoldable pub entries_set : List Entry → List Entry → List Entry
entries_set [] set = set
entries_set ((name, type) ∷ es) set =
    entries_set es (if is_dot_name name then set else insert_by compare_entry (name, type) set)

-- The names of the directories among a stream's entries.
unfoldable pub dirs_set : List Entry → List Bytes → List Bytes
dirs_set [] set = set
dirs_set ((name, type) ∷ es) set = dirs_set es (
    if is_dot_name name
    then set
    else if type == dt_dir
    then insert_by compare_path name set
    else set)

-- The names of the directories of the destination that are directories of the source too.
unfoldable pub to_process : List Bytes → List Entry → List Bytes → List Bytes
to_process src_dirs [] set = set
to_process src_dirs ((name, type) ∷ es) set = to_process src_dirs es (
    if is_dot_name name
    then set
    else if (type == dt_dir) && has_by compare_path name src_dirs
    then insert_by compare_path name set
    else set)

-- What is removed, by the listings of the destination and of the source.
abbrev pub extra : List Entry → List Entry → List Entry
extra dst src = difference_by compare_entry (entries_set dst []) (entries_set src [])
