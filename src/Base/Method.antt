-- ===== src/Base/Method.antt =====
-- The actions of `Action` with their parts shut, for handlers that are long: proofs go by one rule
-- for each way to build an action, and never compute.
pub mod Keeps
use mathlib.Core.Bool.{Bool, true, false}
use ferusa.Base.Outcome.{Result, ok, err}
use ferusa.Base.Action.{Action}

module _ {S E A : Type 0} where
  pub pure : A → Action S E A
  pure a s = (ok a, s)

  pub fail : E → Action S E A
  fail e s = (err e, s)

  pub lift : Result E A → Action S E A
  lift r s = (r, s)

  pub gets : (S → A) → Action S E A
  gets f s = (ok (f s), s)

  -- A step that cannot fail, and tells something.
  pub update : (S → A × S) → Action S E A
  update f s = let (a, t) = f s in (ok a, t)

  abbrev handled : (E → Action S E A) → Result E A → Action S E A
  handled h (ok a) s = (ok a, s)
  handled h (err e) s = h e s

  -- What is done when an action fails.
  pub or_else : Action S E A → (E → Action S E A) → Action S E A
  or_else m h s = let (r, s') = m s in handled h r s'

module _ {S E : Type 0} where
  pub modify : (S → S) → Action S E (Unit {0})
  modify f s = (ok tt, f s)

  forgive : Result E (Unit {0}) × S → Result E (Unit {0}) × S
  forgive (r, s) = (ok tt, s)

  -- `if let Err(e) = m { warn!(…) }`: a failure is logged and dropped.
  pub attempt : Action S E (Unit {0}) → Action S E (Unit {0})
  unfolding forgive
  attempt m s = forgive (m s)

module _ {S E A B : Type 0} where
  abbrev continue : Result E A → (A → Action S E B) → Action S E B
  continue (ok a) f s = f a s
  continue (err e) f s = (err e, s)

  infixl 5 ◌>>=◌ ◌>>◌
  -- Opening this opens the parts above too.
  unfoldable pub ◌>>=◌ : Action S E A → (A → Action S E B) → Action S E B
  unfolding pure fail lift gets update modify attempt or_else
  ◌>>=◌ m f s = let (r, s') = m s in continue r f s'

  abbrev pub ◌>>◌ : Action S E A → Action S E B → Action S E B
  m >> n = m >>= λ _. n
