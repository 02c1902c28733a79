-- ===== src/Core/Wire.antt =====
-- `FerusaMessage::encode` and `decode` of transport.rs: a length of four bytes, little endian, and
-- the JSON text. serde_json is a parameter, and so is `usize::MAX`.
pub mod Framing
use ferusa.Base.{
  ℕ, ◌+◌, ◌*◌, ◌/◌, ◌%◌, ◌-◌, Bool, true, false, Option, none, some, List, [], ◌∷◌, ◌++◌, Text, leb,
  ltb, if◌then◌else◌, length, take, drop, Result, ok, err, and_then,
}
use ferusa.Core.Message.{FerusaMessage}

pub record Json : Type 0 where
  pub to_vec : FerusaMessage → Option Text
  pub from_slice : Text → Option FerusaMessage

pub data WireError : Type 0 where
  bad_json message_too_large message_too_short : WireError
  message_truncated message_trailing_bytes : ℕ → ℕ → WireError

abbrev pub u32_max : ℕ
u32_max = 4294967295

unfoldable pub checked_payload_len : ℕ → Result WireError ℕ
checked_payload_len len = if leb len u32_max then ok len else err message_too_large

unfoldable pub to_le_bytes : ℕ → Text
to_le_bytes n = n % 256 ∷ n / 256 % 256 ∷ n / 65536 % 256 ∷ n / 16777216 % 256 ∷ []

unfoldable pub from_le_bytes : ℕ → ℕ → ℕ → ℕ → ℕ
from_le_bytes a b c d = a + 256 * b + 65536 * c + 16777216 * d

unfoldable pub encode : Json → FerusaMessage → Result WireError Text
unfolding checked_payload_len to_le_bytes
encode json m = elim (json.to_vec m) [
  | none ↦ err bad_json
  | some text ↦ and_then (checked_payload_len (length text)) (λ len. ok (to_le_bytes len ++ text))
]

-- The JSON text of a message, if it parses.
abbrev pub parsed : Option FerusaMessage → Result WireError FerusaMessage
parsed none = err bad_json
parsed (some m) = ok m

-- The tests of the length, on a message whose header is read.
unfoldable pub decode_body : Json → ℕ → ℕ → Text → Result WireError FerusaMessage
decode_body json usize_max len body =
    if ltb usize_max (len + 4)
    then err (message_truncated len (length body))
    else if ltb (length body + 4) (len + 4)
    then err (message_truncated len (length body))
    else if ltb (len + 4) (length body + 4)
    then err (message_trailing_bytes (len + 4) (length body + 4))
    else parsed (json.from_slice (take len body))

unfoldable pub decode : Json → ℕ → Text → Result WireError FerusaMessage
unfolding decode_body from_le_bytes
decode json usize_max (a ∷ b ∷ c ∷ d ∷ body) =
    decode_body json usize_max (from_le_bytes a b c d) body
decode json usize_max _ = err message_too_short
