-- ===== src/Base/Places.antt =====
-- Elements of a list at a place, and how many meet a test.
use Prim.Native.Nat.{ℕ, zero, suc, ◌+◌, ◌<◌}
use mathlib.Core.Path.{◌≡◌, refl}
use mathlib.Core.Bool.{Bool, true, false}
use mathlib.Core.Option.{Option, none, some}
use mathlib.Core.List.{List, [], ◌∷◌, ◌++◌}
use native.Mathlib.Omega.{arith}
use ferusa.Base.Tests.{◌==◌, if◌then◌else◌}
use ferusa.Base.Lists.{length, any}

abbrev pub one : Bool → ℕ
one true = 1
one false = 0

module _ {ℓ} {A : Type ℓ} where
  abbrev pub get_elem? : List A → ℕ → Option A
  get_elem? [] i = none
  get_elem? (x ∷ xs) zero = some x
  get_elem? (x ∷ xs) (suc i) = get_elem? xs i

  abbrev pub set : List A → ℕ → A → List A
  set [] i y = []
  set (x ∷ xs) zero y = y ∷ xs
  set (x ∷ xs) (suc i) y = x ∷ set xs i y

  abbrev pub count : (A → Bool) → List A → ℕ
  count p [] = 0
  count p (x ∷ xs) = one (p x) + count p xs

  pub get_elem?-lt : (xs : List A) (i : ℕ) → i < length xs → (x : A) × (get_elem? xs i ≡ some x)
  get_elem?-lt [] i h = absurd (omega arith)
  get_elem?-lt (x ∷ xs) zero h = (x, refl)
  get_elem?-lt (x ∷ xs) (suc i) h = get_elem?-lt xs i (omega arith)

  pub length-set : (xs : List A) (i : ℕ) (y : A) → length (set xs i y) ≡ length xs
  length-set [] i y = refl
  length-set (x ∷ xs) zero y = refl
  length-set (x ∷ xs) (suc i) y = omega (arith, length-set xs i y)

  pub count-set :
      (p : A → Bool) (xs : List A) (i : ℕ) (x y : A)
      → get_elem? xs i ≡ some x
      → count p (set xs i y) + one (p x) ≡ count p xs + one (p y)
  count-set p [] i x y h = ground arith
  count-set p (z ∷ xs) zero x y h = grind arith
  count-set p (z ∷ xs) (suc i) x y h = omega (arith, count-set p xs i x y h)

  pub count-append : (p : A → Bool) (xs ys : List A) → count p (xs ++ ys) ≡ count p xs + count p ys
  count-append p [] ys = omega arith
  count-append p (x ∷ xs) ys = omega (arith, count-append p xs ys)

  -- Where `set` has put what, as far as reading it back at an old value's place goes.
  pub get_elem?-set :
      (xs : List A) (i j : ℕ) (y : A)
      → i < length xs
      → get_elem? (set xs i y) j ≡ (if j == i then some y else get_elem? xs j)
  get_elem?-set [] i j y h = absurd (omega arith)
  get_elem?-set (x ∷ xs) zero zero y h = refl
  get_elem?-set (x ∷ xs) zero (suc j) y h = ground arith
  get_elem?-set (x ∷ xs) (suc i) zero y h = ground arith
  get_elem?-set (x ∷ xs) (suc i) (suc j) y h = ground (arith, get_elem?-set xs i j y)

-- `contains` of a slice of bytes.
abbrev pub contains : List ℕ → ℕ → Bool
contains xs x = any (λ y. y == x) xs

pub contains-get_elem? : (xs : List ℕ) (i x : ℕ) → get_elem? xs i ≡ some x → contains xs x ≡ true
contains-get_elem? [] i x h = ground arith
contains-get_elem? (z ∷ xs) zero x h = grind arith
contains-get_elem? (z ∷ xs) (suc i) x h = grind (arith, contains-get_elem? xs i x h)
