-- ===== src/World/Steps.antt =====
-- Actions one after another, where the first one returns.
use copy.Prelude.{
  Bool, true, false, if◌then◌else◌, ℕ, zero, suc, List, [], ◌∷◌, set, Option, none, some, ◌≡◌, refl,
  ap, get_elem?,
}
use copy.World.{Fdrc, World, Action, Bytes, ◌>>=◌, or_stop, fdrc_at, string_at}

pub get_elem-set :
    {A : Type 0} (xs : List A) (i : ℕ) (x v : A)
    → get_elem? xs i ≡ some x
    → get_elem? (set xs i v) i ≡ some v
get_elem-set [] i x v e = absurd (cc e)
get_elem-set (y ∷ xs) zero x v e = refl
get_elem-set (y ∷ xs) (suc i) x v e = get_elem-set xs i x v e

pub set-set : {A : Type 0} (xs : List A) (i : ℕ) (u v : A) → set (set xs i u) i v ≡ set xs i v
set-set [] i u v = refl
set-set (y ∷ xs) zero u v = refl
set-set (y ∷ xs) (suc i) u v = ap (λ ys. y ∷ ys) (set-set xs i u v)

module _ {Fs : Type 0} where
  pub bind_done :
      {A B : Type 0} (m : Action Fs A) (f : A → Action Fs B) (w : World Fs) (a : A) (v : World Fs)
      → m w ≡ some (a, v)
      → (m >>= f) w ≡ f a v
  unfolding ◌>>=◌
  bind_done {A} {B} m f w a v e =
      ap (λ (o : Option (A × World Fs)). elim o [ none ↦ none | some (b, w') ↦ f b w' ]) e

  pub fdrc_found :
      (w : World Fs) (i : ℕ) (x : Fdrc)
      → get_elem? w.fdrcs i ≡ some x
      → fdrc_at (some i) w ≡ some (x, w)
  fdrc_found w i x e = ap (λ (o : Option Fdrc). or_stop o w) e

  pub string_found :
      (w : World Fs) (i : ℕ) (s : Bytes)
      → get_elem? w.strings i ≡ some s
      → string_at (some i) w ≡ some (s, w)
  string_found w i s e = ap (λ (o : Option Bytes). or_stop o w) e

  -- The result, if there is one, satisfies `P`.
  abbrev pub Returns : {A : Type 0} → (A → Type 0) → Option (A × World Fs) → Type 0
  Returns P none = Unit {0}
  Returns P (some (a, w)) = P a

  returns_lem :
      {A B : Type 0} (P : B → Type 0) (o : Option (A × World Fs)) (f : A → Action Fs B)
      → ((a : A) (w : World Fs) → Returns P (f a w))
      → Returns P (elim o [ none ↦ none | some (a, w') ↦ f a w' ])
  returns_lem P none f k = tt
  returns_lem P (some (a, w)) f k = k a w

  pub bind-Returns :
      {A B : Type 0} (P : B → Type 0) (m : Action Fs A) (f : A → Action Fs B)
      → ((a : A) (w : World Fs) → Returns P (f a w))
      → (w : World Fs) → Returns P ((m >>= f) w)
  unfolding ◌>>=◌
  bind-Returns P m f k w = returns_lem P (m w) f k

  after_lem :
      {A B : Type 0} (Q : A → Type 0) (P : B → Type 0) (o : Option (A × World Fs))
      (f : A → Action Fs B)
      → Returns Q o
      → ((a : A) (w : World Fs) → Q a → Returns P (f a w))
      → Returns P (elim o [ none ↦ none | some (a, w') ↦ f a w' ])
  after_lem Q P none f q k = tt
  after_lem Q P (some (a, w)) f q k = k a w q

  -- With what is known of the first result.
  pub after-Returns :
      {A B : Type 0} (Q : A → Type 0) (P : B → Type 0) (m : Action Fs A) (f : A → Action Fs B)
      → (w : World Fs) → Returns Q (m w)
      → ((a : A) (v : World Fs) → Q a → Returns P (f a v))
      → Returns P ((m >>= f) w)
  unfolding ◌>>=◌
  after-Returns Q P m f w q k = after_lem Q P (m w) f q k

  pub if-Returns :
      {A : Type 0} (P : A → Type 0) (c : Bool) (m n : Action Fs A) (w : World Fs)
      → Returns P (m w)
      → Returns P (n w)
      → Returns P ((if c then m else n) w)
  if-Returns P true m n w h k = h
  if-Returns P false m n w h k = k
