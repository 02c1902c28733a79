-- ===== src/Base/Returning.antt =====
-- Actions that are known to return, for theorems that a call succeeds.
use mathlib.Core.Bool.{true, false≢true}
use mathlib.Core.Path.{◌≡◌, refl}
use ferusa.Base.Outcome.{Result, ok, err, is_ok}
use ferusa.Base.Action.{Action, Ensures, returned, failed, continue}

-- An action that returns a value, with `Q`.
pub data Returns {S E A : Type 0} (Q : A → S → Type 0) : Result E A × S → Type 0 where
  yields : {a : A} {s : S} → Q a s → Returns Q (ok a, s)

module _ {S E A B : Type 0} where
  pub continue-Returns :
      {Q' : A → S → Type 0} {Q : B → S → Type 0} {x : Result E A × S} (f : A → Action S E B)
      → Returns Q' x
      → ((a : A) (s : S) → Q' a s → Returns Q (f a s))
      → Returns Q (continue x.0 f x.1)
  continue-Returns f (yields q) k = k _ _ q

pub Returns-mono :
    {S E A : Type 0} {Q Q' : A → S → Type 0} {x : Result E A × S}
    → Returns Q x
    → ((a : A) (s : S) → Q a s → Q' a s)
    → Returns Q' x
Returns-mono (yields q) f = yields (f _ _ q)

-- What an action ensures, once it is known that it returns.
pub returning :
    {S E A : Type 0} {Q : A → S → Type 0} {R : S → Type 0} {x : Result E A × S}
    → Ensures Q R x
    → is_ok x.0 ≡ true
    → Returns Q x
returning (returned q) h = yields q
returning (failed r) h = absurd (false≢true h)

pub Returns-ok :
    {S E A : Type 0} {Q : A → S → Type 0} {x : Result E A × S} → Returns Q x → is_ok x.0 ≡ true
Returns-ok (yields q) = refl

pub Returns-any :
    {S E A : Type 0} {Q : A → S → Type 0} {x : Result E A × S}
    → Returns Q x
    → Returns (λ _ _. Unit {0}) x
Returns-any (yields q) = yields tt

pub ok-Returns :
    {S E A : Type 0} (x : Result E A × S) → is_ok x.0 ≡ true → Returns (λ _ _. Unit {0}) x
ok-Returns (ok a, s) h = yields tt
ok-Returns (err e, s) h = absurd (false≢true h)
