-- ===== src/Phone/Pin.antt =====
-- Which PINs can be chosen, app/src-tauri/src/pin.rs. A PIN is the list of its bytes: a character
-- outside ASCII has bytes that are no digits either.
pub mod Rules
mod Tests
use ferusa.Base.{
  ℕ, ◌+◌, min, Bool, true, false, not, ◌&&◌, ◌||◌, List, [], ◌∷◌, Text, codes, text_eq, leb, ◌==◌,
  if◌then◌else◌, all, any, length, Result, ok, err,
}

pub data PinError : Type 0 where
  wrong_length not_digits trivial : PinError

unfoldable pub is_ascii_digit : ℕ → Bool
is_ascii_digit c = leb b'0' c && leb c b'9'

-- `windows(2).all(…)`.
unfoldable pub windows_all : (ℕ → ℕ → Bool) → Text → Bool
windows_all p [] = true
windows_all p (a ∷ []) = true
windows_all p (a ∷ b ∷ rest) = p a b && windows_all p (b ∷ rest)

-- `u8::saturating_add(1)`.
abbrev pub byte_succ : ℕ → ℕ
byte_succ b = min (b + 1) 255

abbrev pub known_common : List Text
known_common =
    codes "1212"
    ∷ codes "1122"
    ∷ codes "2580"
    ∷ codes "121212"
    ∷ codes "112233"
    ∷ codes "258025"
    ∷ []

unfoldable pub is_trivial_pin : Text → Bool
is_trivial_pin pin =
    windows_all (λ a b. a == b) pin
    || windows_all (λ a b. b == byte_succ a) pin
    || windows_all (λ a b. byte_succ b == a) pin
    || any (text_eq pin) known_common

unfoldable pub validate_pin : Text → ℕ → Result PinError (Unit {0})
validate_pin pin expected_len =
    if not (length pin == expected_len)
    then err wrong_length
    else if not (all is_ascii_digit pin)
    then err not_digits
    else if is_trivial_pin pin
    then err trivial
    else ok tt
