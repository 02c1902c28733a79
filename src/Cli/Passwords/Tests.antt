-- ===== src/Cli/Passwords/Tests.antt =====
-- Passwords that are generated.
use ferusa.Base.{ℕ, suc, ◌-◌, ◌<◌, ◌≤◌, ◌≡◌, refl, true, false, codes, ok, err, arith, is_utf8}
use ferusa.Base.Returning.{Returns}
use ferusa.Cli.Passwords.{
  PasswordGenConfig, too_short, required_classes, generate, random_range, pick, pick_if, guaranteed,
  fill, shuffle,
}
use ferusa.Cli.Passwords.Policy.{IsPolicy}
use ferusa.Cli.Passwords.Generating.{generate-total}

-- The highest number of the range, always, and a count of the draws.
abbrev highest : ℕ → ℕ → ℕ × ℕ
highest n s = (n - 1, suc s)

highest_below : (n : ℕ) (s : ℕ) → 0 < n → (highest n s).0 < n
highest_below n s h = omega arith

abbrev six : PasswordGenConfig
six = record { length = 6; uppercase = true; digits = true; symbols = false }

generate-total_example :
    (required_classes six ≤ six.length
      → Returns (λ pw _. IsPolicy six six.length pw) (generate highest six 0))
    × (six.length < required_classes six
        → generate highest six 0 ≡ (err (too_short six.length (required_classes six)), 0))
generate-total_example = generate-total highest highest_below six 0

six_generated : (generate highest six 0).0 ≡ ok (codes "999zZ9")
unfolding generate random_range pick pick_if guaranteed fill shuffle is_utf8
six_generated = refl

-- Three classes do not fit into two bytes.
refuses_two :
    generate highest (record { length = 2; uppercase = true; digits = false; symbols = true }) 0
    ≡ (err (too_short 2 3), 0)
unfolding generate
refuses_two = refl
