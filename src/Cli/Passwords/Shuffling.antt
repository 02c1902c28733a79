-- ===== src/Cli/Passwords/Shuffling.antt =====
-- A shuffle keeps what it is given, in another order.
use ferusa.Base.{
  ℕ, zero, suc, ◌<◌, ◌≡◌, refl, ◌∙◌, Bool, some, Text, length, get_elem?, set, count, get_elem?-lt,
  get_elem?-set, length-set, count-set, ok_or, arith,
}
use ferusa.Base.Action.{lift, ◌>>=◌}
use ferusa.Base.Returning.{Returns, yields, continue-Returns, Returns-mono}
use ferusa.Cli.Passwords.{swap, random_range, shuffle, panicked}

-- The same length, and as many bytes of every kind.
pub record Same (xs ys : Text) : Type 0 where
  pub long : length ys ≡ length xs
  pub tally : (p : ℕ → Bool) → count p ys ≡ count p xs

swapped-tally :
    (p : ℕ → Bool) (pw : Text) (i j x y : ℕ)
    → get_elem? pw i ≡ some x
    → get_elem? pw j ≡ some y
    → get_elem? (set pw i y) j ≡ some y
    → count p (set (set pw i y) j x) ≡ count p pw
swapped-tally p pw i j x y h k l =
    omega (arith, count-set p pw i x y h, count-set p (set pw i y) j y x l)

set-back :
    (pw : Text) (i j y : ℕ)
    → i < length pw
    → get_elem? pw j ≡ some y
    → get_elem? (set pw i y) j ≡ some y
set-back pw i j y h k = grind (arith, get_elem?-set pw i j y h)

pub Same-trans : {xs ys zs : Text} → Same xs ys → Same ys zs → Same xs zs
Same-trans a b = record { long = b.long ∙ a.long; tally = λ p. b.tally p ∙ a.tally p }

pub swap-Same :
    (pw : Text) (i j : ℕ)
    → i < length pw
    → j < length pw
    → (q : Text) × (swap i j pw ≡ some q) × Same pw q
swap-Same pw i j h k =
    let (x, hx) = get_elem?-lt pw i h in
    let (y, hy) = get_elem?-lt pw j k in
    (
      set (set pw i y) j x,
      rw (hx, hy) refl,
      record {
        long = omega (arith, length-set (set pw i y) j x, length-set pw i y);
        tally = λ p. swapped-tally p pw i j x y hx hy (set-back pw i j y h hy);
      },
    )

module _ {S : Type 0} (random_below : ℕ → S → ℕ × S)
    (below : (n : ℕ) (s : S) → 0 < n → (random_below n s).0 < n) where
  pub random_range-Returns :
      (n : ℕ) (s : S) → 0 < n → Returns (λ i _. i < n) (random_range random_below n s)
  unfolding random_range
  random_range-Returns zero s h = absurd (omega arith)
  random_range-Returns (suc n) s h = yields (below (suc n) s h)

  pub shuffle-Returns :
      (i : ℕ) (pw : Text) (s : S)
      → i < length pw
      → Returns (λ q _. Same pw q) (shuffle random_below i pw s)
  unfolding shuffle
  shuffle-Returns zero pw s h = yields (record { long = refl; tally = λ p. refl })
  shuffle-Returns (suc i) pw s h =
      continue-Returns (λ j. lift (ok_or (swap (suc i) j pw) panicked) >>= shuffle random_below i)
        (random_range-Returns (suc (suc i)) s (omega arith))
        (λ j t k.
          let (q, e, same) = swap-Same pw (suc i) j h (omega arith) in
          rw e (
            Returns-mono (shuffle-Returns i q t (omega (arith, same.long)))
              (λ r u z. Same-trans same z)))
