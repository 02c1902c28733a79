-- ===== src/Cli/Passwords.antt =====
-- The password generator, cli/src/interface/password_gen.rs. rand's generator has a state of its
-- own, and a panic is an error.
pub mod Shuffling
pub mod Policy
pub mod Generating
mod Tests
use ferusa.Base.{
  ℕ, zero, suc, ◌+◌, ◌-◌, Bool, true, false, Option, none, some, [], ◌∷◌, ◌++◌, Text, codes, ltb,
  if◌then◌else◌, length, one, get_elem?, set, from_utf8, Result, ok, err, ok_or,
}
use ferusa.Base.Action.{Action, pure, lift, bail_if, ◌>>=◌, ◌>>◌}

abbrev pub upper : Text
upper = codes "ABCDEFGHIJKLMNOPQRSTUVWXYZ"

abbrev pub lower : Text
lower = codes "abcdefghijklmnopqrstuvwxyz"

abbrev pub digits : Text
digits = codes "0123456789"

abbrev pub symbols : Text
symbols = codes "!@#$%^&*-_=+?"

pub record PasswordGenConfig : Type 0 where
  pub length : ℕ
  pub uppercase : Bool
  pub digits : Bool
  pub symbols : Bool

pub data GenerateError : Type 0 where
  too_short : ℕ → ℕ → GenerateError
  panicked : GenerateError

abbrev pub Draw : Type 0 → Type 0 → Type 0
Draw S A = Action S GenerateError A

-- `usize::from` of the enabled classes, and of the lower case.
abbrev pub required_classes : PasswordGenConfig → ℕ
required_classes cfg = 1 + one cfg.uppercase + one cfg.digits + one cfg.symbols

abbrev pub class_if : Bool → Text → Text
class_if true class = class
class_if false class = []

abbrev pub charset : PasswordGenConfig → Text
charset cfg =
    lower
    ++ class_if cfg.uppercase upper
    ++ class_if cfg.digits digits
    ++ class_if cfg.symbols symbols

abbrev swapped : Option ℕ → Option ℕ → ℕ → ℕ → Text → Option Text
swapped (some x) (some y) i j pw = some (set (set pw i y) j x)
swapped _ _ i j pw = none

-- `slice::swap`, which panics out of bounds.
abbrev pub swap : ℕ → ℕ → Text → Option Text
swap i j pw = swapped (get_elem? pw i) (get_elem? pw j) i j pw

module _ {S : Type 0} (random_below : ℕ → S → ℕ × S) where
  -- `rng.random_range(0..n)`, which panics on an empty range.
  unfoldable pub random_range : ℕ → Draw S ℕ
  random_range zero s = (err panicked, s)
  random_range (suc n) s = (ok (random_below (suc n) s).0, (random_below (suc n) s).1)

  -- `set[rng.random_range(0..set.len())]`.
  unfoldable pub pick : Text → Draw S ℕ
  unfolding random_range
  pick class = do i ← random_range (length class); lift (ok_or (get_elem? class i) panicked)

  unfoldable pub pick_if : Bool → Text → Draw S Text
  unfolding pick
  pick_if true class = do c ← pick class; pure (c ∷ [])
  pick_if false class = pure []

  unfoldable pub guaranteed : PasswordGenConfig → Draw S Text
  unfolding pick pick_if
  guaranteed cfg = do
    l ← pick lower
    u ← pick_if cfg.uppercase upper
    d ← pick_if cfg.digits digits
    s ← pick_if cfg.symbols symbols
    pure (l ∷ u ++ d ++ s)

  unfoldable pub fill : Text → ℕ → Draw S Text
  unfolding pick
  fill class zero = pure []
  fill class (suc n) = do c ← pick class; rest ← fill class n; pure (c ∷ rest)

  -- `for i in (1..n).rev()`, from `i` down.
  unfoldable pub shuffle : ℕ → Text → Draw S Text
  unfolding random_range
  shuffle zero pw = pure pw
  shuffle (suc i) pw = do
    j ← random_range (suc (suc i))
    moved ← lift (ok_or (swap (suc i) j pw) panicked)
    shuffle i moved

  unfoldable pub generate : PasswordGenConfig → Draw S Text
  unfolding guaranteed fill shuffle
  generate cfg = do
    bail_if (ltb cfg.length (required_classes cfg)) (too_short cfg.length (required_classes cfg))
    sure ← guaranteed cfg
    bail_if (ltb cfg.length (length sure)) panicked
    rest ← fill (charset cfg) (cfg.length - length sure)
    pw ← shuffle (length (rest ++ sure) - 1) (rest ++ sure)
    lift (ok_or (from_utf8 pw) panicked)
