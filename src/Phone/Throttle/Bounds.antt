-- ===== src/Phone/Throttle/Bounds.antt =====
-- How long a cooldown is, whatever the level.
use native.Mathlib.Nat.{pow-suc}
use ferusa.Base.{ℕ, zero, suc, ◌-◌, ◌*◌, ◌^◌, ◌≤◌, min, ◌≡◌, arith}
use ferusa.Phone.Throttle.Cooldown.{
  multiplier, cooldown_ms, pin_cooldown_base_ms, pin_cooldown_max_ms,
}

pow_pos : (n : ℕ) → 1 ≤ 2 ^ n
pow_pos zero = omega arith
pow_pos (suc n) = rw pow-suc (omega (arith, pow_pos n))

pow_mono : (m n : ℕ) → m ≤ n → 2 ^ m ≤ 2 ^ n
pow_mono zero n h = pow_pos n
pow_mono (suc m) zero h = absurd (omega arith)
pow_mono (suc m) (suc n) h = rw (pow-suc, pow-suc) (omega (arith, pow_mono m n (omega arith)))

multiplier_pos : (k : ℕ) → 1 ≤ multiplier k
unfolding multiplier
multiplier_pos k = ground (arith, pow_pos k)

-- From the first level on a cooldown lasts at least 30 seconds and at most 30 minutes.
pub cooldown_ms_bounds :
    (level : ℕ)
    → 1 ≤ level
    → (pin_cooldown_base_ms ≤ cooldown_ms level) × (cooldown_ms level ≤ pin_cooldown_max_ms)
unfolding cooldown_ms
cooldown_ms_bounds level h = ground (arith, multiplier_pos (level - 1))

-- The saturation of the shift shows nowhere: a cooldown is 30 seconds doubled for each level above
-- the first, cut off at 30 minutes.
cooldown_ms-eq :
    (level : ℕ)
    → cooldown_ms (suc level) ≡ min (pin_cooldown_base_ms * 2 ^ level) pin_cooldown_max_ms
unfolding cooldown_ms multiplier
cooldown_ms-eq level = ground (arith, pow_mono 32 level)

-- A higher level never shortens the cooldown.
cooldown_ms_mono : (l m : ℕ) → l ≤ m → cooldown_ms l ≤ cooldown_ms m
cooldown_ms_mono zero m h = unfold cooldown_ms in omega arith
cooldown_ms_mono (suc l) zero h = absurd (omega arith)
cooldown_ms_mono (suc l) (suc m) h =
    omega (arith, cooldown_ms-eq l, cooldown_ms-eq m, pow_mono l m (omega arith))
