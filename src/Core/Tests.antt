-- ===== src/Core/Tests.antt =====
-- Messages, blobs and vaults.
use ferusa.Base.{
  ℕ, ◌≤◌, ◌<◌, ◌≡◌, refl, true, false, Option, none, some, [], ◌∷◌, ◌++◌, ◌↔◌, length, take, Text,
  codes, ok, is_ok, arith,
}
use ferusa.Core.Message.{unlock, AuthRequest, AuthResponse, FerusaMessage, pairing_commit}
use ferusa.Core.Wire.{checked_payload_len, to_le_bytes, Json, encode, decode}
use ferusa.Core.Wire.Framing.{decode-encode}
use ferusa.Core.Approval.{validate_auth_exchange_timestamps}
use ferusa.Core.Approval.Window.{IsFresh, exchange_iff}
use ferusa.Core.Blob.{EncryptedBlob, to_bytes, from_bytes}
use ferusa.Core.Blob.Layout.{IsBlob, from_bytes-to_bytes, to_bytes-from_bytes}
use ferusa.Core.Vault.{
  validate_entries, validate_entry, validate_tags, validate_field, Vault, validate,
  max_vault_entries, vault_version,
}
use ferusa.Core.Vault.Limits.{AllEntries, validate_iff}

-- One message of the format.
abbrev print : FerusaMessage → Option Text
print (pairing_commit id) = some (b'c' ∷ id ∷ [])
print _ = none

abbrev parse : Text → Option FerusaMessage
parse (_ ∷ id ∷ []) = some (pairing_commit id)
parse _ = none

abbrev json : Json
json = record { to_vec = print; from_slice = parse }

abbrev message : FerusaMessage
message = pairing_commit 42

parse-print : (t : Text) → print message ≡ some t → parse t ≡ some message
parse-print t h = ground arith

abbrev frame : Text
frame = 2 ∷ 0 ∷ 0 ∷ 0 ∷ b'c' ∷ 42 ∷ []

framed : encode json message ≡ ok frame
unfolding encode checked_payload_len to_le_bytes
framed = refl

decode-encode_example :
    (decode json 18446744073709551615 frame ≡ ok message)
    × ((b : ℕ) (rest : Text) → is_ok (decode json 18446744073709551615 (frame ++ b ∷ rest)) ≡ false)
    × ((n : ℕ) → n < length frame → is_ok (decode json 18446744073709551615 (take n frame)) ≡ false)
decode-encode_example =
    decode-encode json 18446744073709551615 message frame parse-print (omega arith) framed

abbrev ask : AuthRequest
ask = record {
  pairing_id = 7;
  request_id = 9;
  correlation_code = 1234;
  action = unlock;
  entry_title = none;
  unlock_share_requested = true;
  timestamp = 1000000;
}

abbrev answer : AuthResponse
answer = record {
  pairing_id = 7;
  request_id = 9;
  correlation_code = 1234;
  action = unlock;
  approved = true;
  unlock_share = some (3 ∷ []);
  timestamp = 1300000;
  signature = [];
}

exchange_iff_example :
    (validate_auth_exchange_timestamps ask answer 1100000 ≡ ok tt)
    ↔ (IsFresh 1000000 1100000 × IsFresh 1300000 1100000)
exchange_iff_example = exchange_iff ask answer 1100000

abbrev sixteen : Text
sixteen = codes "0123456789abcdef"

abbrev blob : EncryptedBlob
blob = record {
  salt = sixteen;
  nonce = sixteen ++ codes "01234567";
  ciphertext = sixteen ++ codes "x";
}

blob-IsBlob : IsBlob blob
blob-IsBlob = record { salt_16 = refl; nonce_24 = refl; tagged = omega arith }

from_bytes-to_bytes_example : from_bytes (to_bytes blob) ≡ ok blob
from_bytes-to_bytes_example = from_bytes-to_bytes blob blob-IsBlob

to_bytes-from_bytes_example : (to_bytes blob ≡ to_bytes blob) × IsBlob blob
to_bytes-from_bytes_example = to_bytes-from_bytes (to_bytes blob) blob from_bytes-to_bytes_example

abbrev vault : Vault
vault = record {
  version = 1;
  entries =
      record {
        id = 1;
        title = codes "mail";
        username = none;
        password = codes "secret";
        url = none;
        notes = none;
        tags = codes "work" ∷ [];
        created_at = 0;
        updated_at = 0;
      }
      ∷ [];
}

validate_iff_example :
    (validate vault ≡ ok tt)
    ↔ ((1 ≡ vault_version) × (1 ≤ max_vault_entries) × AllEntries vault.entries)
validate_iff_example = validate_iff vault

accepted_vault : validate vault ≡ ok tt
unfolding validate validate_entries validate_entry validate_tags validate_field
accepted_vault = refl
