-- ===== src/Base/Action.antt =====
-- Code that changes a state of type `S` and may fail: what was written before a failure stays
-- written, so the state comes back beside the error too.
use mathlib.Core.Bool.{Bool, true, false}
use ferusa.Base.Outcome.{Result, ok, err}

abbrev pub Action : Type 0 → Type 0 → Type 0 → Type 0
Action S E A = S → Result E A × S

-- `bail!` under a test.
abbrev pub bail_if : {S E : Type 0} → Bool → E → Action S E (Unit {0})
bail_if true e s = (err e, s)
bail_if false e s = (ok tt, s)

module _ {S E A : Type 0} where
  abbrev pub pure : A → Action S E A
  pure a s = (ok a, s)

  abbrev pub fail : E → Action S E A
  fail e s = (err e, s)

  abbrev pub lift : Result E A → Action S E A
  lift r s = (r, s)

module _ {S E A B : Type 0} where
  abbrev pub continue : Result E A → (A → Action S E B) → Action S E B
  continue (ok a) f s = f a s
  continue (err e) f s = (err e, s)

  infixl 5 ◌>>=◌ ◌>>◌
  abbrev pub ◌>>=◌ : Action S E A → (A → Action S E B) → Action S E B
  ◌>>=◌ m f s = continue (m s).0 f (m s).1

  abbrev pub ◌>>◌ : Action S E A → Action S E B → Action S E B
  m >> n = m >>= λ _. n

-- `if let Err(e) = m { warn!(…) }`: a failure is logged and dropped.
abbrev pub forgive : {S E : Type 0} → Result E (Unit {0}) × S → Result E (Unit {0}) × S
forgive (r, s) = (ok tt, s)

abbrev pub attempt : {S E : Type 0} → Action S E (Unit {0}) → Action S E (Unit {0})
attempt m s = forgive (m s)

-- What an action ends in: a value with `Q`, or an error with `R`.
pub data Ensures {S E A : Type 0} (Q : A → S → Type 0) (R : S → Type 0)
    : Result E A × S → Type 0 where
  returned : {a : A} {s : S} → Q a s → Ensures Q R (ok a, s)
  failed : {e : E} {s : S} → R s → Ensures Q R (err e, s)

module _ {S E A : Type 0} where
  pub Ensures-mono :
      {Q Q' : A → S → Type 0} {R R' : S → Type 0} {x : Result E A × S}
      → Ensures Q R x
      → ((a : A) (s : S) → Q a s → Q' a s)
      → ((s : S) → R s → R' s)
      → Ensures Q' R' x
  Ensures-mono (returned q) f g = returned (f _ _ q)
  Ensures-mono (failed r) f g = failed (g _ r)

  -- What holds however the action ends.
  pub Ensures-both : {P : S → Type 0} {x : Result E A × S} → Ensures (λ a. P) P x → P x.1
  Ensures-both (returned p) = p
  Ensures-both (failed p) = p

module _ {S E A B : Type 0} where
  pub continue-Ensures :
      {Q' : A → S → Type 0} {Q : B → S → Type 0} {R' R : S → Type 0} {x : Result E A × S}
      (f : A → Action S E B)
      → Ensures Q' R' x
      → ((a : A) (s : S) → Q' a s → Ensures Q R (f a s))
      → ((s : S) → R' s → R s)
      → Ensures Q R (continue x.0 f x.1)
  continue-Ensures f (returned q) k g = k _ _ q
  continue-Ensures f (failed r) k g = failed (g _ r)

pub forgive-Ensures :
    {S E : Type 0} {Q : Unit {0} → S → Type 0} {R : S → Type 0} {P : S → Type 0}
    {x : Result E (Unit {0}) × S}
    → Ensures Q R x
    → ((s : S) → Q tt s → P s)
    → ((s : S) → R s → P s)
    → Ensures (λ a. P) P (forgive x)
forgive-Ensures (returned q) f g = returned (f _ q)
forgive-Ensures (failed r) f g = returned (g _ r)
