-- ===== src/RemoveExtra/Common.antt =====
-- Which directories of a destination are compared with those of the source.
use Prim.Native.Nat.{compare, Ordering}
use copy.Prelude.{
  ℕ, ◌≡◌, refl, sym, ap, ◌∙◌, Bool, true, false, not, ◌&&◌, ◌||◌, List, [], ◌∷◌, ◌==◌, arith,
  Bool-cases, inl, inr, if_so, if_not, and_true,
}
use copy.World.{Bytes}
use copy.Remove.{is_dot_name}
use copy.RemoveExtra.Extra.{
  entry_sound, compare_path-IsExact, has-insert, skip_lem, add_lem, and_false,
}
use copy.RemoveExtra.Sets.{
  Entry, dt_dir, compare_path, compare_entry, is_eq, insert_by, has_by, dirs_set, to_process,
  then_by,
}

then_by_same : (o p : Ordering) → is_eq p ≡ true → is_eq (then_by o p) ≡ is_eq o
then_by_same Ordering.lt p e = refl
then_by_same Ordering.eq p e = e
then_by_same Ordering.gt p e = refl

then_by_none : (o p : Ordering) → is_eq p ≡ false → is_eq (then_by o p) ≡ false
then_by_none Ordering.lt p e = refl
then_by_none Ordering.eq p e = e
then_by_none Ordering.gt p e = refl

-- A directory's name, as an entry, against an entry of either kind.
same_type :
    (n name : Bytes) (type : ℕ)
    → (type == dt_dir) ≡ true
    → is_eq (compare_entry (n, dt_dir) (name, type)) ≡ is_eq (compare_path n name)
same_type n name type e = then_by_same (compare_path n name) (compare dt_dir type) (ground arith)

other_type :
    (n name : Bytes) (type : ℕ)
    → (type == dt_dir) ≡ false
    → is_eq (compare_entry (n, dt_dir) (name, type)) ≡ false
other_type n name type e = then_by_none (compare_path n name) (compare dt_dir type) (ground arith)

of_type :
    (n name : Bytes) (type : ℕ)
    → is_eq (compare_entry (n, dt_dir) (name, type)) ≡ true
    → (type == dt_dir) ≡ true
of_type n name type e = elim (Bool-cases (type == dt_dir)) [
  | inl dir ↦ dir
  | inr other ↦ absurd (cc (other_type n name type other))
]

not_both : (c d : Bool) → (c && d) ≡ false → c ≡ true → d ≡ false
not_both true d e f = e
not_both false d e f = absurd (cc f)

-- What a scan with a condition `q` of the name adds.
skipped :
    (a i r t q : Bool)
    → (i ≡ true → (a && q) ≡ false)
    → ((a && (r && q)) || t) ≡ ((a && ((i || r) && q)) || t)
skipped a false r t q h = refl
skipped false true r t q h = refl
skipped true true true t q h = refl
skipped true true false t q h = ap (λ (b : Bool). b || t) (sym (h refl))

added :
    (a i r t q : Bool)
    → (i ≡ true → (a && q) ≡ true)
    → ((a && (r && q)) || (i || t)) ≡ ((a && ((i || r) && q)) || t)
added a false r t q h = refl
added false true r t q h = absurd (cc (h refl))
added true true r t false h = absurd (cc (h refl))
added true true true t true h = refl
added true true false t true h = refl

-- The names that a scan collects: of directories, no dots, and with a condition.
has-to_process_set :
    (n : Bytes) (src_dirs : List Bytes) (es : List Entry) (set : List Bytes)
    → has_by compare_path n (to_process src_dirs es set) ≡ (
        (not (is_dot_name n)
          && (has_by compare_entry (n, dt_dir) es && has_by compare_path n src_dirs))
        || has_by compare_path n set)
unfolding to_process
has-to_process_set n src_dirs [] set =
    ap (λ (b : Bool). b || has_by compare_path n set) (sym (and_false (not (is_dot_name n))))
has-to_process_set n src_dirs ((name, type) ∷ es) set =
    let a : Bool = not (is_dot_name n) in
    let i : Bool = is_eq (compare_entry (n, dt_dir) (name, type)) in
    let r : Bool = has_by compare_entry (n, dt_dir) es in
    let t : Bool = has_by compare_path n set in
    let q : Bool = has_by compare_path n src_dirs in
    let same : i ≡ true → n ≡ name =
      λ h. ap (λ (z : Entry). z.0) (entry_sound (n, dt_dir) (name, type) h) in
    let scan : List Bytes → Bool = λ s. has_by compare_path n (to_process src_dirs es s) in
    let plain_skip = λ (h : i ≡ true → (a && q) ≡ false).
      has-to_process_set n src_dirs es set ∙ skipped a i r t q h in
    elim (Bool-cases (is_dot_name name)) [
      | inl dotted ↦
          ap scan (if_so (is_dot_name name) _ _ dotted)
          ∙ plain_skip λ h.
            ap (λ (z : Bytes). not (is_dot_name z) && q) (same h)
            ∙ ap (λ (b : Bool). not b && q) dotted
      | inr plain ↦ elim (Bool-cases ((type == dt_dir) && has_by compare_path name src_dirs)) [
        | inl common ↦
            let (dir, there) =
              and_true (type == dt_dir) (has_by compare_path name src_dirs) common in
            ap scan (
              if_not (is_dot_name name) _ _ plain
              ∙ if_so _ (insert_by compare_path name set) set common)
            ∙ has-to_process_set n src_dirs es (insert_by compare_path name set)
            ∙ ap (λ (b : Bool). (a && (r && q)) || b)
                (has-insert compare_path n name set compare_path-IsExact
                  ∙ ap (λ (b : Bool). b || t) (sym (same_type n name type dir)))
            ∙ added a i r t q λ h.
              ap (λ (z : Bytes). not (is_dot_name z) && has_by compare_path z src_dirs) (same h)
              ∙ ap (λ (b : Bool). not b && has_by compare_path name src_dirs) plain
              ∙ there
        | inr not_common ↦
            ap scan (
              if_not (is_dot_name name) _ _ plain
              ∙ if_not _ (insert_by compare_path name set) set not_common)
            ∙ plain_skip λ h.
              let missing : q ≡ false =
                ap (λ (z : Bytes). has_by compare_path z src_dirs) (same h)
                ∙ not_both (type == dt_dir) (has_by compare_path name src_dirs) not_common
                    (of_type n name type h) in
              ap (λ (b : Bool). a && b) missing ∙ and_false a
      ]
    ]

-- The names of directories that a scan collects.
has-dirs_set :
    (n : Bytes) (es : List Entry) (set : List Bytes)
    → has_by compare_path n (dirs_set es set)
      ≡ ((not (is_dot_name n) && has_by compare_entry (n, dt_dir) es) || has_by compare_path n set)
unfolding dirs_set
has-dirs_set n [] set =
    ap (λ (b : Bool). b || has_by compare_path n set) (sym (and_false (not (is_dot_name n))))
has-dirs_set n ((name, type) ∷ es) set =
    let a : Bool = not (is_dot_name n) in
    let i : Bool = is_eq (compare_entry (n, dt_dir) (name, type)) in
    let r : Bool = has_by compare_entry (n, dt_dir) es in
    let t : Bool = has_by compare_path n set in
    let same : i ≡ true → not (is_dot_name n) ≡ not (is_dot_name name) =
      λ h. ap (λ (z : Entry). not (is_dot_name z.0)) (entry_sound (n, dt_dir) (name, type) h) in
    let scan : List Bytes → Bool = λ s. has_by compare_path n (dirs_set es s) in
    elim (Bool-cases (is_dot_name name)) [
      | inl dotted ↦
          ap scan (if_so (is_dot_name name) _ _ dotted)
          ∙ has-dirs_set n es set
          ∙ skip_lem a i r t (λ h. same h ∙ ap not dotted)
      | inr plain ↦ elim (Bool-cases (type == dt_dir)) [
        | inl dir ↦
            ap scan (
              if_not (is_dot_name name) _ _ plain
              ∙ if_so _ (insert_by compare_path name set) set dir)
            ∙ has-dirs_set n es (insert_by compare_path name set)
            ∙ ap (λ (b : Bool). (a && r) || b)
                (has-insert compare_path n name set compare_path-IsExact
                  ∙ ap (λ (b : Bool). b || t) (sym (same_type n name type dir)))
            ∙ add_lem a i r t (λ h. same h ∙ ap not plain)
        | inr other ↦
            ap scan (
              if_not (is_dot_name name) _ _ plain
              ∙ if_not _ (insert_by compare_path name set) set other)
            ∙ has-dirs_set n es set
            ∙ skip_lem a i r t (λ h. absurd (cc (other_type n name type other)))
      ]
    ]

settle_both : (a d s : Bool) → ((a && (d && ((a && s) || false))) || false) ≡ (a && (d && s))
settle_both false d s = refl
settle_both true false s = refl
settle_both true true false = refl
settle_both true true true = refl

-- The directories that are compared further down are exactly those that both listings have as
-- directories, by a name that is neither `.` nor `..`.
pub has-to_process :
    (n : Bytes) (dst src : List Entry)
    → has_by compare_path n (to_process (dirs_set src []) dst []) ≡ (
        not (is_dot_name n)
        && (has_by compare_entry (n, dt_dir) dst && has_by compare_entry (n, dt_dir) src))
has-to_process n dst src =
    has-to_process_set n (dirs_set src []) dst []
    ∙ ap
        (λ (b : Bool).
          (not (is_dot_name n) && (has_by compare_entry (n, dt_dir) dst && b)) || false)
        (has-dirs_set n src [])
    ∙ settle_both (not (is_dot_name n)) (has_by compare_entry (n, dt_dir) dst)
        (has_by compare_entry (n, dt_dir) src)
