-- ===== src/PathOk/Components.antt =====
-- `path_ok` against the components of a path.
use mathlib.Core.Path.{ap₂}
use copy.Prelude.{
  ℕ, suc, ◌-◌, Bool, true, false, not, ◌&&◌, ◌||◌, none, some, List, [], ◌∷◌, ◌==◌, leb, arith,
  if◌then◌else◌, length, drop, ◌≡◌, refl, ◌∙◌, Bool-cases, inl, inr,
}
use copy.PathOk.{slash, dot, starts_with, contains, is_dots, inner_dots, path_ok}

-- The components of a path: its parts between slashes, empty ones included.
abbrev pub push_byte : ℕ → List (List ℕ) → List (List ℕ)
push_byte c [] = (c ∷ []) ∷ []
push_byte c (k ∷ ks) = (c ∷ k) ∷ ks

unfoldable pub components : List ℕ → List (List ℕ)
components [] = [] ∷ []
components (c ∷ q) = if c == slash then [] ∷ components q else push_byte c (components q)

abbrev is_dots_component : List ℕ → Bool
is_dots_component [] = false
is_dots_component (a ∷ []) = false
is_dots_component (a ∷ b ∷ []) = (a == dot) && (b == dot)
is_dots_component (a ∷ b ∷ c ∷ k) = false

any_dots : List (List ℕ) → Bool
any_dots [] = false
any_dots (k ∷ ks) = is_dots_component k || any_dots ks

-- The first component is "..".
dots_first : List ℕ → Bool
dots_first [] = false
dots_first (a ∷ []) = false
dots_first (a ∷ b ∷ []) = (a == dot) && (b == dot)
dots_first (a ∷ b ∷ c ∷ q) = (a == dot) && ((b == dot) && (c == slash))

-- A later component is.
dots_later : List ℕ → Bool
dots_later [] = false
dots_later (c ∷ q) = ((c == slash) && dots_first q) || dots_later q

-- The components after the first.
rest_dots : List (List ℕ) → Bool
unfolding any_dots
rest_dots [] = false
rest_dots (k ∷ ks) = any_dots ks

first_dots : List (List ℕ) → Bool
first_dots [] = false
first_dots (k ∷ ks) = is_dots_component k

any_dots-split : (ks : List (List ℕ)) → any_dots ks ≡ (first_dots ks || rest_dots ks)
unfolding any_dots first_dots rest_dots
any_dots-split [] = refl
any_dots-split (k ∷ ks) = refl

first_dots-components : (q : List ℕ) → first_dots (components q) ≡ dots_first q
unfolding first_dots components dots_first
first_dots-components [] = refl
first_dots-components (a ∷ []) = ground arith
first_dots-components (a ∷ b ∷ []) = ground arith
first_dots-components (a ∷ b ∷ c ∷ q) = ground arith

rest_dots-push : (c : ℕ) (ks : List (List ℕ)) → rest_dots (push_byte c ks) ≡ rest_dots ks
unfolding rest_dots
rest_dots-push c [] = refl
rest_dots-push c (k ∷ ks) = refl

rest_dots-components : (q : List ℕ) → rest_dots (components q) ≡ dots_later q
unfolding components dots_later rest_dots any_dots
rest_dots-components [] = refl
rest_dots-components (c ∷ q) = elim (Bool-cases (c == slash)) [
  | inl sep ↦
      rw sep (
        any_dots-split (components q) ∙ ap₂ ◌||◌ (first_dots-components q) (rest_dots-components q))
  | inr byte ↦ rw byte (rest_dots-push c (components q) ∙ rest_dots-components q)
]

-- The path ends in "/..".
ends_in_dots : List ℕ → Bool
ends_in_dots q = leb 3 (length q) && starts_with (slash ∷ dot ∷ dot ∷ []) (drop (length q - 3) q)

ends_in_dots-cons :
    (a b c d : ℕ) (q : List ℕ) → ends_in_dots (a ∷ b ∷ c ∷ d ∷ q) ≡ ends_in_dots (b ∷ c ∷ d ∷ q)
unfolding ends_in_dots
ends_in_dots-cons a b c d q =
    let e : suc (suc (suc (suc (length q)))) - 3 ≡ suc (length q) = omega arith in
    let e' : suc (suc (suc (length q))) - 3 ≡ length q = omega arith in
    let l : leb 3 (suc (suc (suc (suc (length q))))) ≡ true = ground arith in
    let l' : leb 3 (suc (suc (suc (length q)))) ≡ true = ground arith in rw (e, e', l, l')

dots_later_lem :
    (q : List ℕ) → dots_later q ≡ (contains (slash ∷ dot ∷ dot ∷ slash ∷ []) q || ends_in_dots q)
unfolding dots_later dots_first
dots_later_lem [] = unfold ends_in_dots in refl
dots_later_lem (a ∷ []) = unfold ends_in_dots in ground arith
dots_later_lem (a ∷ b ∷ []) = unfold ends_in_dots in ground arith
dots_later_lem (a ∷ b ∷ c ∷ []) = unfold ends_in_dots in ground arith
dots_later_lem (a ∷ b ∷ c ∷ d ∷ q) =
    rw (ends_in_dots-cons a b c d q) (ground (arith, dots_later_lem (b ∷ c ∷ d ∷ q)))

-- Some component of the path is "..".
pub has_dots : List ℕ → Bool
unfolding any_dots
has_dots q = any_dots (components q)

has_dots-split : (q : List ℕ) → has_dots q ≡ (dots_first q || dots_later q)
unfolding has_dots
has_dots-split q =
    any_dots-split (components q) ∙ ap₂ ◌||◌ (first_dots-components q) (rest_dots-components q)

path_ok_dots : (c : ℕ) (q : List ℕ) → (is_dots (c ∷ q) || inner_dots (c ∷ q)) ≡ has_dots (c ∷ q)
unfolding inner_dots
path_ok_dots c [] =
    rw (has_dots-split (c ∷ []), dots_later_lem (c ∷ []))
      (unfold ends_in_dots dots_first in ground arith)
path_ok_dots c (b ∷ []) =
    rw (has_dots-split (c ∷ b ∷ []), dots_later_lem (c ∷ b ∷ []))
      (unfold ends_in_dots dots_first in ground arith)
path_ok_dots c (b ∷ d ∷ q) =
    rw (has_dots-split (c ∷ b ∷ d ∷ q), dots_later_lem (c ∷ b ∷ d ∷ q))
      (unfold ends_in_dots dots_first in ground arith)

-- `path_ok` accepts exactly the paths that are given, are not empty, do not start with a slash, and
-- have no component "..".
pub path_ok_components :
    (q : List ℕ)
    → (path_ok none ≡ false)
      × (path_ok (some []) ≡ false)
      × ((c : ℕ) → path_ok (some (c ∷ q)) ≡ (not (c == slash) && not (has_dots (c ∷ q))))
unfolding path_ok
path_ok_components q = (refl, refl, λ c. rw (← path_ok_dots c q) (ground arith))
