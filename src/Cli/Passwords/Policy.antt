-- ===== src/Cli/Passwords/Policy.antt =====
-- A generated password meets the policy that was asked for.
use ferusa.Base.{
  ℕ, ◌+◌, ◌≤◌, ◌≡◌, refl, ap, ◌∙◌, Bool, true, false, ◌∷◌, ◌++◌, Text, length, length-append, one,
  count, contains, count-append, count_le, count_mono, all-count, all-append, contains-append,
  all-contains, all, is_ascii, arith,
}
use ferusa.Cli.Passwords.{
  PasswordGenConfig, upper, lower, digits, symbols, class_if, charset, required_classes,
}
use ferusa.Cli.Passwords.Shuffling.{Same}

-- The length that was asked for, no byte of another class, and a byte of every class.
pub record IsPolicy (cfg : PasswordGenConfig) (n : ℕ) (pw : Text) : Type 0 where
  pub long : length pw ≡ n
  pub only : count (contains (charset cfg)) pw ≡ length pw
  pub lower_one : 1 ≤ count (contains lower) pw
  pub upper_one : cfg.uppercase ≡ true → 1 ≤ count (contains upper) pw
  pub digit_one : cfg.digits ≡ true → 1 ≤ count (contains digits) pw
  pub symbol_one : cfg.symbols ≡ true → 1 ≤ count (contains symbols) pw

pub Policy-Same :
    {cfg : PasswordGenConfig} {n : ℕ} {xs ys : Text}
    → Same xs ys
    → IsPolicy cfg n xs
    → IsPolicy cfg n ys
Policy-Same s p = record {
  long = s.long ∙ p.long;
  only = omega (arith, s.long, s.tally _, p.only);
  lower_one = omega (arith, s.tally _, p.lower_one);
  upper_one = λ h. omega (arith, s.tally _, p.upper_one h);
  digit_one = λ h. omega (arith, s.tally _, p.digit_one h);
  symbol_one = λ h. omega (arith, s.tally _, p.symbol_one h);
}

-- Bytes before a list that meets the policy, all of its classes, leave it met.
pub Policy-before :
    {cfg : PasswordGenConfig} {n : ℕ} (xs ys : Text)
    → count (contains (charset cfg)) xs ≡ length xs
    → IsPolicy cfg n ys
    → IsPolicy cfg (length xs + n) (xs ++ ys)
Policy-before xs ys h p = record {
  long = omega (arith, length-append xs ys, p.long);
  only = omega (arith, length-append xs ys, count-append _ xs ys, p.only, h);
  lower_one = omega (arith, count-append _ xs ys, p.lower_one);
  upper_one = λ k. omega (arith, count-append _ xs ys, p.upper_one k);
  digit_one = λ k. omega (arith, count-append _ xs ys, p.digit_one k);
  symbol_one = λ k. omega (arith, count-append _ xs ys, p.symbol_one k);
}

module _ (a b c d : Text) where
  module _ (x : ℕ) where
    in_first : contains a x ≡ true → contains (a ++ b ++ c ++ d) x ≡ true
    in_first h = ground (
      arith,
      contains-append (a ++ b ++ c) d x,
      contains-append (a ++ b) c x,
      contains-append a b x,
    )

    in_second : contains b x ≡ true → contains (a ++ b ++ c ++ d) x ≡ true
    in_second h = ground (
      arith,
      contains-append (a ++ b ++ c) d x,
      contains-append (a ++ b) c x,
      contains-append a b x,
    )

    in_third : contains c x ≡ true → contains (a ++ b ++ c ++ d) x ≡ true
    in_third h = ground (arith, contains-append (a ++ b ++ c) d x, contains-append (a ++ b) c x)

    in_fourth : contains d x ≡ true → contains (a ++ b ++ c ++ d) x ≡ true
    in_fourth h = ground (arith, contains-append (a ++ b ++ c) d x)

  all_four :
      (p : ℕ → Bool)
      → all p a ≡ true
      → all p b ≡ true
      → all p c ≡ true
      → all p d ≡ true
      → all p (a ++ b ++ c ++ d) ≡ true
  all_four p h k l m =
      all-append p (a ++ b ++ c) d (all-append p (a ++ b) c (all-append p a b h k) l) m

all-class_if :
    (p : ℕ → Bool) (b : Bool) (class : Text) → all p class ≡ true → all p (class_if b class) ≡ true
all-class_if p true class h = h
all-class_if p false class h = refl

charset_ascii : (cfg : PasswordGenConfig) → all is_ascii (charset cfg) ≡ true
charset_ascii cfg =
    all_four lower (class_if cfg.uppercase upper) (class_if cfg.digits digits)
      (class_if cfg.symbols symbols) is_ascii refl (all-class_if is_ascii cfg.uppercase upper refl)
      (all-class_if is_ascii cfg.digits digits refl)
      (all-class_if is_ascii cfg.symbols symbols refl)

pub IsPolicy-ascii :
    {cfg : PasswordGenConfig} {n : ℕ} {pw : Text} → IsPolicy cfg n pw → all is_ascii pw ≡ true
IsPolicy-ascii {cfg} {n} {pw} p = all-count is_ascii pw (
    omega (
      arith,
      p.only,
      count_le is_ascii pw,
      count_mono (contains (charset cfg)) is_ascii
          (λ c. all-contains is_ascii (charset cfg) c (charset_ascii cfg)) pw,
    ))

-- One byte of a class, if the class is enabled.
pub record IsSure (b : Bool) (class xs : Text) : Type 0 where
  pub long : length xs ≡ one b
  pub only : count (contains (class_if b class)) xs ≡ length xs
  pub sure : b ≡ true → 1 ≤ count (contains class) xs

widened :
    (p q : ℕ → Bool)
    → ((x : ℕ) → p x ≡ true → q x ≡ true)
    → (xs : Text) → count p xs ≡ length xs
    → count q xs ≡ length xs
widened p q f xs h = omega (arith, count_mono p q f xs, count_le q xs)

length_four : (l : ℕ) (u d s : Text) → length (l ∷ u ++ d ++ s) ≡ 1 + length u + length d + length s
length_four l u d s = omega (arith, length-append (l ∷ u ++ d) s, length-append (l ∷ u) d)

module _ (p : ℕ → Bool) (l : ℕ) (u d s : Text) where
  tally_four : count p (l ∷ u ++ d ++ s) ≡ one (p l) + count p u + count p d + count p s
  tally_four = omega (arith, count-append p (l ∷ u ++ d) s, count-append p (l ∷ u) d)

  only_four :
      p l ≡ true
      → count p u ≡ length u
      → count p d ≡ length d
      → count p s ≡ length s
      → count p (l ∷ u ++ d ++ s) ≡ length (l ∷ u ++ d ++ s)
  only_four h hu hd hs = omega (arith, tally_four, length_four l u d s, ap one h)

  first_counts : p l ≡ true → 1 ≤ count p (l ∷ u ++ d ++ s)
  first_counts h = omega (arith, tally_four, ap one h)

  second_counts : 1 ≤ count p u → 1 ≤ count p (l ∷ u ++ d ++ s)
  second_counts h = omega (arith, tally_four)

  third_counts : 1 ≤ count p d → 1 ≤ count p (l ∷ u ++ d ++ s)
  third_counts h = omega (arith, tally_four)

  fourth_counts : 1 ≤ count p s → 1 ≤ count p (l ∷ u ++ d ++ s)
  fourth_counts h = omega (arith, tally_four)

pub sure-IsPolicy :
    (cfg : PasswordGenConfig) (l : ℕ) (u d s : Text)
    → contains lower l ≡ true
    → IsSure cfg.uppercase upper u
    → IsSure cfg.digits digits d
    → IsSure cfg.symbols symbols s
    → IsPolicy cfg (required_classes cfg) (l ∷ u ++ d ++ s)
sure-IsPolicy cfg l u d s h iu id is =
    let up = class_if cfg.uppercase upper in
    let di = class_if cfg.digits digits in
    let sy = class_if cfg.symbols symbols in
    record {
      long = omega (arith, length_four l u d s, iu.long, id.long, is.long);
      only =
          only_four (contains (charset cfg)) l u d s (in_first lower up di sy l h)
            (widened (contains up) (contains (charset cfg)) (in_second lower up di sy) u iu.only)
            (widened (contains di) (contains (charset cfg)) (in_third lower up di sy) d id.only)
            (widened (contains sy) (contains (charset cfg)) (in_fourth lower up di sy) s is.only);
      lower_one = first_counts (contains lower) l u d s h;
      upper_one = λ k. second_counts (contains upper) l u d s (iu.sure k);
      digit_one = λ k. third_counts (contains digits) l u d s (id.sure k);
      symbol_one = λ k. fourth_counts (contains symbols) l u d s (is.sure k);
    }
