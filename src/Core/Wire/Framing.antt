-- ===== src/Core/Wire/Framing.antt =====
-- What is encoded is decoded again, and no other cut of the stream is taken for it.
use ferusa.Base.{
  ℕ, suc, zero, ◌+◌, ◌/◌, ◌%◌, ◌≤◌, ◌<◌, ◌≡◌, refl, ap, ◌∙◌, false, some, [], ◌∷◌, ◌++◌, Text, leb,
  ltb, if◌then◌else◌, length, take, ok, err, arith, length-append, length-take, Bool-cases,
  Option-cases, inl, inr, is_ok,
}
use ferusa.Core.Message.{FerusaMessage}
use ferusa.Core.Wire.{
  Json, message_truncated, message_trailing_bytes, u32_max, checked_payload_len, to_le_bytes,
  from_le_bytes, encode, decode_body, decode, parsed,
}

pub le_bytes :
    (n : ℕ)
    → n ≤ u32_max
    → from_le_bytes (n % 256) (n / 256 % 256) (n / 65536 % 256) (n / 16777216 % 256) ≡ n
unfolding from_le_bytes
le_bytes n h = omega arith

-- What an encoded message is made of.
record Encoded (json : Json) (m : FerusaMessage) (bytes : Text) : Type 0 where
  text : Text
  printed : json.to_vec m ≡ some text
  short : length text ≤ u32_max
  framed : bytes ≡ to_le_bytes (length text) ++ text

no_error : {E A : Type 0} (e : E) (a : A) → err e ≡ ok a → ⊥
no_error e a h = ground arith

encoded :
    (json : Json) (m : FerusaMessage) (bytes : Text)
    → encode json m ≡ ok bytes
    → Encoded json m bytes
unfolding encode checked_payload_len
encoded json m bytes h = elim (Option-cases (json.to_vec m)) [
  | inl e ↦ absurd (ground arith)
  | inr (t, e) ↦ elim (Bool-cases (leb (length t) u32_max)) [
    | inl l ↦ record { text = t; printed = e; short = ground arith; framed = ground arith }
    | inr l ↦ absurd (ground arith)
  ]
]

-- What `decode` says of a header that counts `n` and a body.
framed_decode :
    (json : Json) (usize_max n : ℕ) (body : Text)
    → n ≤ u32_max
    → n + 4 ≤ usize_max
    → decode json usize_max (to_le_bytes n ++ body) ≡ (
        if ltb (length body) n
        then err (message_truncated n (length body))
        else if ltb n (length body)
        then err (message_trailing_bytes (n + 4) (length body + 4))
        else parsed (json.from_slice (take n body)))
unfolding decode to_le_bytes decode_body
framed_decode json usize_max n body h k = rw (le_bytes n h) (ground arith)

take_all : (t : Text) → take (length t) t ≡ t
take_all [] = refl
take_all (b ∷ t) = ap (λ x. b ∷ x) (take_all t)

module _ (json : Json) (usize_max : ℕ) (text : Text) (short : length text ≤ u32_max)
    (fits : u32_max + 4 ≤ usize_max) where
  whole :
      (m : FerusaMessage)
      → json.from_slice text ≡ some m
      → decode json usize_max (to_le_bytes (length text) ++ text) ≡ ok m
  whole m h =
      rw
        (
          framed_decode json usize_max (length text) text short (omega (arith, fits)),
          take_all text,
          h,
        )
        (ground arith)

  behind :
      (b : ℕ) (rest : Text)
      → is_ok (decode json usize_max ((to_le_bytes (length text) ++ text) ++ b ∷ rest)) ≡ false
  unfolding to_le_bytes
  behind b rest =
      ap is_ok
        (framed_decode json usize_max (length text) (text ++ b ∷ rest) short (omega (arith, fits)))
      ∙ ground (arith, length-append text (b ∷ rest))

  cut :
      (n : ℕ)
      → n < length (to_le_bytes (length text) ++ text)
      → is_ok (decode json usize_max (take n (to_le_bytes (length text) ++ text))) ≡ false
  unfolding to_le_bytes decode
  cut zero h = refl
  cut (suc zero) h = refl
  cut (suc (suc zero)) h = refl
  cut (suc (suc (suc zero))) h = refl
  cut (suc (suc (suc (suc n)))) h =
      ap is_ok
        (framed_decode json usize_max (length text) (take n text) short (omega (arith, fits)))
      ∙ ground (arith, length-take n text)

-- An encoded message is decoded to itself where serde_json reads back what it prints; any other
-- length of the same stream, cut short or with bytes behind it, is an error. A `usize` holds the
-- length of a buffer.
pub decode-encode :
    (json : Json) (usize_max : ℕ) (m : FerusaMessage) (bytes : Text)
    → ((t : Text) → json.to_vec m ≡ some t → json.from_slice t ≡ some m)
    → u32_max + 4 ≤ usize_max
    → encode json m ≡ ok bytes
    → (decode json usize_max bytes ≡ ok m)
      × ((b : ℕ) (rest : Text) → is_ok (decode json usize_max (bytes ++ b ∷ rest)) ≡ false)
      × ((n : ℕ) → n < length bytes → is_ok (decode json usize_max (take n bytes)) ≡ false)
decode-encode json usize_max m bytes back fits h =
    let x = encoded json m bytes h in
    rw x.framed (
      whole json usize_max x.text x.short fits m (back x.text x.printed),
      behind json usize_max x.text x.short fits,
      cut json usize_max x.text x.short fits,
    )
