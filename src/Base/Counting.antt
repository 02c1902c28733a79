-- ===== src/Base/Counting.antt =====
-- Counts of a test over a list, and bytes of a class.
use Prim.Native.Nat.{ℕ, ◌≤◌}
use mathlib.Core.Path.{◌≡◌, refl}
use mathlib.Core.Bool.{Bool, true, ◌||◌}
use mathlib.Core.List.{List, [], ◌∷◌, ◌++◌}
use native.Mathlib.Omega.{arith}
use ferusa.Base.Lists.{length, all}
use ferusa.Base.Places.{count, contains}

module _ {ℓ} {A : Type ℓ} where
  pub count_le : (p : A → Bool) (xs : List A) → count p xs ≤ length xs
  count_le p [] = omega arith
  count_le p (x ∷ xs) = grind (arith, count_le p xs)

  -- A weaker test counts at least as many.
  pub count_mono :
      (p q : A → Bool)
      → ((x : A) → p x ≡ true → q x ≡ true)
      → (xs : List A) → count p xs ≤ count q xs
  count_mono p q f [] = omega arith
  count_mono p q f (x ∷ xs) = grind (arith, count_mono p q f xs, f x)

  pub all-count : (p : A → Bool) (xs : List A) → count p xs ≡ length xs → all p xs ≡ true
  all-count p [] h = refl
  all-count p (x ∷ xs) h = grind (arith, all-count p xs, count_le p xs)

  pub all-append :
      (p : A → Bool) (xs ys : List A) → all p xs ≡ true → all p ys ≡ true → all p (xs ++ ys) ≡ true
  all-append p [] ys h k = k
  all-append p (x ∷ xs) ys h k = grind (arith, all-append p xs ys)

pub contains-append :
    (xs ys : List ℕ) (c : ℕ) → contains (xs ++ ys) c ≡ (contains xs c || contains ys c)
contains-append [] ys c = refl
contains-append (x ∷ xs) ys c = grind (arith, contains-append xs ys c)

pub all-contains :
    (p : ℕ → Bool) (xs : List ℕ) (c : ℕ) → all p xs ≡ true → contains xs c ≡ true → p c ≡ true
all-contains p [] c h k = ground arith
all-contains p (x ∷ xs) c h k = grind (arith, all-contains p xs c)
