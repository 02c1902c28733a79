-- ===== src/Base/Method/Keeps.antt =====
-- Invariants of such actions.
use mathlib.Core.Bool.{Bool, true, false}
use mathlib.Core.Path.{◌≡◌, refl}
use ferusa.Base.Tests.{if◌then◌else◌}
use ferusa.Base.Outcome.{Result, ok, err}
use ferusa.Base.Action.{Action, Ensures, returned, failed}
use ferusa.Base.Method.{pure, fail, lift, gets, update, modify, attempt, or_else, ◌>>=◌}

-- `m` keeps `P`, however it ends.
pub record Keeps {S E A : Type 0} (P : S → Type 0) (m : Action S E A) : Type 0 where
  pub at : (s : S) → P s → P (m s).1

-- It also tells `Q` of the value that it returns.
pub record Gives {S E A : Type 0} (P : S → Type 0) (Q : A → Type 0) (m : Action S E A)
    : Type 0 where
  pub at : (s : S) → P s → Ensures (λ a t. P t × Q a) P (m s)

module _ {S E A : Type 0} {P : S → Type 0} where
  pub Keeps-if :
      (test : Bool) (m n : Action S E A) → Keeps P m → Keeps P n → Keeps P (if test then m else n)
  Keeps-if true m n first second = first
  Keeps-if false m n first second = second

  pub Keeps-lift : (x : Result E A) → Keeps P (lift x)
  unfolding lift
  Keeps-lift x = record { at = λ t p. p }

  pub Keeps-fail : (error : E) → Keeps {A = A} P (fail error)
  unfolding fail
  Keeps-fail error = record { at = λ t p. p }

  pub Keeps-gets : (read : S → A) → Keeps {E = E} P (gets read)
  unfolding gets
  Keeps-gets read = record { at = λ t p. p }

  pub Keeps-pure : (x : A) → Keeps {E = E} P (pure x)
  unfolding pure
  Keeps-pure x = record { at = λ t p. p }

  recovered :
      (h : E → Action S E A) (r : Result E A)
      → ((e : E) → Keeps P (h e))
      → Keeps P (or_else (lift r) h)
  unfolding or_else lift
  recovered h (ok a) kh = record { at = λ s p. p }
  recovered h (err e) kh = kh e

  pub Keeps-or_else :
      (m : Action S E A) (h : E → Action S E A)
      → Keeps P m
      → ((e : E) → Keeps P (h e))
      → Keeps P (or_else m h)
  unfolding or_else lift
  Keeps-or_else m h km kh = record {
    at = λ s p. let (r, s') = m s in (recovered h r kh).at s' (km.at s p);
  }

  pub Gives-lift :
      {Q : A → Type 0} (r : Result E A) → ((a : A) → r ≡ ok a → Q a) → Gives P Q (lift r)
  unfolding lift
  Gives-lift (ok a) q = record { at = λ s h. returned (h, q a refl) }
  Gives-lift (err e) q = record { at = λ s h. failed h }

module _ {S E : Type 0} {P : S → Type 0} where
  pub Keeps-modify : (f : S → S) → ((s : S) → P s → P (f s)) → Keeps {E = E} P (modify f)
  unfolding modify
  Keeps-modify f k = record { at = k }

  pub Keeps-attempt : (m : Action S E (Unit {0})) → Keeps P m → Keeps P (attempt m)
  unfolding attempt
  Keeps-attempt m km = record { at = λ s h. km.at s h }

module _ {S E A : Type 0} {P : S → Type 0} where
  pub Keeps-update : (f : S → A × S) → ((s : S) → P s → P (f s).1) → Keeps {E = E} P (update f)
  unfolding update
  Keeps-update f k = record { at = k }

module _ {S E A B : Type 0} {P : S → Type 0} where
  after :
      (f : A → Action S E B) (x : Result E A × S)
      → P x.1
      → ((a : A) → Keeps P (f a))
      → P ((lift x.0 >>= f) x.1).1
  unfolding ◌>>=◌
  after f (ok a, t) p next = (next a).at t p
  after f (err e, t) p next = p

  pub Keeps-bind :
      (first : Action S E A) (rest : A → Action S E B)
      → Keeps P first
      → ((x : A) → Keeps P (rest x))
      → Keeps P (first >>= rest)
  unfolding ◌>>=◌
  Keeps-bind first rest k next = record { at = λ t p. after rest (first t) (k.at t p) next }

  given_next :
      {Q : B → Type 0} (r : Result E A) (f : A → Action S E B)
      → ((a : A) → Gives P Q (f a))
      → Gives P Q (lift r >>= f)
  unfolding ◌>>=◌
  given_next (ok a) f kf = kf a
  given_next (err e) f kf = record { at = λ s h. failed h }

  given :
      {Q : A → Type 0} {x : Result E A × S} (f : A → Action S E B)
      → Ensures (λ a t. P t × Q a) P x
      → ((a : A) → Q a → Keeps P (f a))
      → P ((lift x.0 >>= f) x.1).1
  unfolding ◌>>=◌
  given f (returned q) kf = (kf _ q.1).at _ q.0
  given f (failed h) kf = h

  pub Keeps-Gives :
      {Q : A → Type 0} (m : Action S E A) (f : A → Action S E B)
      → Gives P Q m
      → ((a : A) → Q a → Keeps P (f a))
      → Keeps P (m >>= f)
  unfolding ◌>>=◌
  Keeps-Gives m f km kf = record { at = λ s h. given f (km.at s h) kf }

  pub Gives-bind :
      {Q : B → Type 0} (m : Action S E A) (f : A → Action S E B)
      → Keeps P m
      → ((a : A) → Gives P Q (f a))
      → Gives P Q (m >>= f)
  unfolding ◌>>=◌
  Gives-bind m f km kf = record {
    at = λ s h. let (r, s') = m s in (given_next r f kf).at s' (km.at s h);
  }
