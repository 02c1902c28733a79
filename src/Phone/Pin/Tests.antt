-- ===== src/Phone/Pin/Tests.antt =====
-- PINs that are accepted and refused.
use ferusa.Base.{◌≡◌, refl, ◌↔◌, true, codes, all, length, ok, err}
use ferusa.Phone.Pin.{
  wrong_length, not_digits, trivial, validate_pin, is_ascii_digit, is_trivial_pin, windows_all,
}
use ferusa.Phone.Pin.Rules.{IsTrivial, validate_pin_iff}

validate_pin_iff_example : (validate_pin (codes "4831") 4 ≡ ok tt) ↔ (
    (length (codes "4831") ≡ 4)
    × (all is_ascii_digit (codes "4831") ≡ true)
    × (IsTrivial (codes "4831") → ⊥))
validate_pin_iff_example = validate_pin_iff (codes "4831") 4

answers :
    (validate_pin (codes "4831") 4 ≡ ok tt)
    × (validate_pin (codes "9876") 4 ≡ err trivial)
    × (validate_pin (codes "258025") 6 ≡ err trivial)
    × (validate_pin (codes "48a1") 4 ≡ err not_digits)
    × (validate_pin (codes "483") 4 ≡ err wrong_length)
unfolding validate_pin is_ascii_digit is_trivial_pin windows_all
answers = (refl, refl, refl, refl, refl)
