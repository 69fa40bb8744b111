-- ===== src/RemoveExtra/Extra.antt =====
-- The laws of the ordered sets, and which entries of a destination are extra.
use Prim.Native.Nat.{compare, Ordering}
use copy.Prelude.{
  ℕ, ◌≡◌, refl, sym, ap, ◌∙◌, Bool, true, false, not, ◌&&◌, ◌||◌, List, [], ◌∷◌, arith, Bool-cases,
  inl, inr, if_so, if_not,
}
use copy.World.{Bytes}
use copy.Remove.{is_dot_name}
use copy.RemoveExtra.Sets.{
  Entry, compare_path, compare_entry, then_by, is_eq, insert_at, insert_by, has_by, difference_by,
  entries_set, extra,
}

-- An order that finds two things equal only where they are.
pub record IsExact {A : Type 0} (order : A → A → Ordering) : Type 0 where
  pub sound : (x y : A) → is_eq (order x y) ≡ true → x ≡ y
  pub same : (x : A) → is_eq (order x x) ≡ true

number_sound : (a b : ℕ) → is_eq (compare a b) ≡ true → a ≡ b
number_sound a b e = ground arith

pub number_same : (a : ℕ) → is_eq (compare a a) ≡ true
number_same a = ground arith

pub then_by_both :
    (o p : Ordering) → is_eq (then_by o p) ≡ true → (is_eq o ≡ true) × (is_eq p ≡ true)
then_by_both Ordering.lt p e = absurd (cc e)
then_by_both Ordering.eq p e = (refl, e)
then_by_both Ordering.gt p e = absurd (cc e)

pub both_then_by : (o p : Ordering) → is_eq o ≡ true → is_eq p ≡ true → is_eq (then_by o p) ≡ true
both_then_by Ordering.lt p e f = e
both_then_by Ordering.eq p e f = f
both_then_by Ordering.gt p e f = e

pub path_sound : (x y : Bytes) → is_eq (compare_path x y) ≡ true → x ≡ y
path_sound [] [] e = refl
path_sound [] (b ∷ t) e = absurd (cc e)
path_sound (a ∷ s) [] e = absurd (cc e)
path_sound (a ∷ s) (b ∷ t) e =
    let (f, g) = then_by_both (compare a b) (compare_path s t) e in
    let h = number_sound a b f in let r = path_sound s t g in λ i. h i ∷ r i

pub path_same : (x : Bytes) → is_eq (compare_path x x) ≡ true
path_same [] = refl
path_same (a ∷ s) = both_then_by (compare a a) (compare_path s s) (number_same a) (path_same s)

pub entry_sound : (x y : Entry) → is_eq (compare_entry x y) ≡ true → x ≡ y
entry_sound (s, a) (t, b) e =
    let (f, g) = then_by_both (compare_path s t) (compare a b) e in
    let h = path_sound s t f in let r = number_sound a b g in λ i. (h i, r i)

pub entry_same : (x : Entry) → is_eq (compare_entry x x) ≡ true
entry_same (s, a) = both_then_by (compare_path s s) (compare a a) (path_same s) (number_same a)

pub compare_path-IsExact : IsExact compare_path
compare_path-IsExact = record { sound = path_sound; same = path_same }

compare_entry-IsExact : IsExact compare_entry
compare_entry-IsExact = record { sound = entry_sound; same = entry_same }

or_twice : (a b : Bool) → (a || b) ≡ (a || (a || b))
or_twice true b = refl
or_twice false b = refl

or_swap : (a b c : Bool) → (a || (b || c)) ≡ (b || (a || c))
or_swap true true c = refl
or_swap true false c = refl
or_swap false true c = refl
or_swap false false c = refl

and_or : (a b c : Bool) → (a ≡ true → c ≡ false) → (b && c) ≡ ((a || b) && c)
and_or true true c h = refl
and_or true false c h = sym (h refl)
and_or false b c h = refl

or_and : (a b c : Bool) → (a ≡ true → c ≡ true) → (a || (b && c)) ≡ ((a || b) && c)
or_and true b c h = sym (h refl)
or_and false b c h = refl

module _ {A : Type 0} (order : A → A → Ordering) where
  has-insert_at :
      (o : Ordering) (e x y : A) (ys rest : List A)
      → (is_eq o ≡ true → x ≡ y)
      → has_by order e rest ≡ (is_eq (order e x) || has_by order e ys)
      → has_by order e (insert_at o x y ys rest)
        ≡ (is_eq (order e x) || (is_eq (order e y) || has_by order e ys))
  has-insert_at Ordering.lt e x y ys rest same ih = refl
  has-insert_at Ordering.eq e x y ys rest same ih =
      or_twice (is_eq (order e y)) (has_by order e ys)
      ∙ ap (λ (z : A). is_eq (order e z) || (is_eq (order e y) || has_by order e ys))
          (sym (same refl))
  has-insert_at Ordering.gt e x y ys rest same ih =
      ap (λ (b : Bool). is_eq (order e y) || b) ih
      ∙ or_swap (is_eq (order e y)) (is_eq (order e x)) (has_by order e ys)

  -- What is in a set after an insertion.
  pub has-insert :
      (e x : A) (ys : List A)
      → IsExact order
      → has_by order e (insert_by order x ys) ≡ (is_eq (order e x) || has_by order e ys)
  has-insert e x [] law = refl
  has-insert e x (y ∷ ys) law =
      has-insert_at (order x y) e x y ys (insert_by order x ys) (law.sound x y)
        (has-insert e x ys law)

  has-difference :
      (e : A) (xs ys : List A)
      → IsExact order
      → has_by order e (difference_by order xs ys) ≡ (has_by order e xs && not (has_by order e ys))
  has-difference e [] ys law = refl
  has-difference e (x ∷ xs) ys law =
      let ih = has-difference e xs ys law in
      let same : is_eq (order e x) ≡ true → not (has_by order e ys) ≡ not (has_by order x ys) =
        λ h. ap (λ (z : A). not (has_by order z ys)) (law.sound e x h) in
      elim (Bool-cases (has_by order x ys)) [
        | inl both ↦
            ap (λ (zs : List A). has_by order e zs) (if_so (has_by order x ys) _ _ both)
            ∙ ih
            ∙ and_or (is_eq (order e x)) (has_by order e xs) (not (has_by order e ys))
                (λ h. same h ∙ ap not both)
        | inr only ↦
            ap (λ (zs : List A). has_by order e zs) (if_not (has_by order x ys) _ _ only)
            ∙ ap (λ (b : Bool). is_eq (order e x) || b) ih
            ∙ or_and (is_eq (order e x)) (has_by order e xs) (not (has_by order e ys))
                (λ h. same h ∙ ap not only)
      ]

pub and_false : (a : Bool) → (a && false) ≡ false
and_false true = refl
and_false false = refl

settle : (a d s : Bool) → (((a && d) || false) && not ((a && s) || false)) ≡ (a && (d && not s))
settle false d s = refl
settle true false s = refl
settle true true false = refl
settle true true true = refl

pub skip_lem : (a i r t : Bool) → (i ≡ true → a ≡ false) → ((a && r) || t) ≡ ((a && (i || r)) || t)
skip_lem false i r t h = refl
skip_lem true true r t h = absurd (cc (h refl))
skip_lem true false r t h = refl

pub add_lem :
    (a i r t : Bool) → (i ≡ true → a ≡ true) → ((a && r) || (i || t)) ≡ ((a && (i || r)) || t)
add_lem false true r t h = absurd (cc (h refl))
add_lem false false r t h = refl
add_lem true true true t h = refl
add_lem true true false t h = refl
add_lem true false r t h = refl

-- An entry is in the set of a scan where it is among the entries and is no dot, or was there before.
has-entries_set :
    (e : Entry) (es set : List Entry)
    → has_by compare_entry e (entries_set es set)
      ≡ ((not (is_dot_name e.0) && has_by compare_entry e es) || has_by compare_entry e set)
unfolding entries_set
has-entries_set e [] set =
    ap (λ (b : Bool). b || has_by compare_entry e set) (sym (and_false (not (is_dot_name e.0))))
has-entries_set e ((name, type) ∷ es) set =
    let x : Entry = (name, type) in
    let i : Bool = is_eq (compare_entry e x) in
    let t : Bool = has_by compare_entry e set in
    let no_dot : Bool = not (is_dot_name e.0) in
    let same : i ≡ true → no_dot ≡ not (is_dot_name name) =
      λ h. ap (λ (z : Entry). not (is_dot_name z.0)) (entry_sound e x h) in
    let scan : List Entry → Bool = λ s. has_by compare_entry e (entries_set es s) in
    elim (Bool-cases (is_dot_name name)) [
      | inl dotted ↦
          ap scan (if_so (is_dot_name name) _ _ dotted)
          ∙ has-entries_set e es set
          ∙ skip_lem no_dot i (has_by compare_entry e es) t (λ h. same h ∙ ap not dotted)
      | inr plain ↦
          ap scan (if_not (is_dot_name name) _ _ plain)
          ∙ has-entries_set e es (insert_by compare_entry x set)
          ∙ ap (λ (b : Bool). (no_dot && has_by compare_entry e es) || b)
              (has-insert compare_entry e x set compare_entry-IsExact)
          ∙ add_lem no_dot i (has_by compare_entry e es) t (λ h. same h ∙ ap not plain)
    ]

-- What is removed from a directory is exactly what its listing in the destination has, that of the
-- source has not, with the same name and the same type, and is neither `.` nor `..`.
pub has-extra :
    (e : Entry) (dst src : List Entry)
    → has_by compare_entry e (extra dst src)
      ≡ (not (is_dot_name e.0) && (has_by compare_entry e dst && not (has_by compare_entry e src)))
has-extra e dst src =
    has-difference compare_entry e (entries_set dst []) (entries_set src []) compare_entry-IsExact
    ∙ ap (λ (b : Bool). b && not (has_by compare_entry e (entries_set src [])))
        (has-entries_set e dst [])
    ∙ ap (λ (b : Bool). ((not (is_dot_name e.0) && has_by compare_entry e dst) || false) && not b)
        (has-entries_set e src [])
    ∙ settle (not (is_dot_name e.0)) (has_by compare_entry e dst) (has_by compare_entry e src)
