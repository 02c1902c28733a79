-- ===== src/Core/Blob.antt =====
-- `EncryptedBlob` of crypto.rs: the layout of vault.enc. A blob's salt has 16 bytes and its nonce
-- 24, as the array types of the source say.
pub mod Layout
use ferusa.Base.{
  ℕ, ◌+◌, Bool, true, false, not, List, [], ◌∷◌, ◌++◌, Text, codes, starts_with, leb, ltb,
  if◌then◌else◌, length, take, drop, Result, ok, err,
}

pub data BlobError : Type 0 where
  unsupported_vault_blob : BlobError
  blob_too_short : ℕ → BlobError

abbrev pub vault_blob_magic_v2 : Text
vault_blob_magic_v2 = codes "FERUSA2" ++ 0 ∷ []

abbrev pub vault_blob_v2_header_len : ℕ
vault_blob_v2_header_len = 48

abbrev pub aead_tag_len : ℕ
aead_tag_len = 16

abbrev pub legacy_v1_min_len : ℕ
legacy_v1_min_len = 56

pub record EncryptedBlob : Type 0 where
  pub salt : Text
  pub nonce : Text
  pub ciphertext : Text

unfoldable pub to_bytes : EncryptedBlob → Text
to_bytes b = vault_blob_magic_v2 ++ (b.salt ++ (b.nonce ++ b.ciphertext))

-- The slices of a buffer that is long enough.
abbrev pub slices : Text → EncryptedBlob
slices bytes = record {
  salt = take 16 (drop 8 bytes);
  nonce = take 24 (drop 24 bytes);
  ciphertext = drop vault_blob_v2_header_len bytes;
}

unfoldable pub from_bytes : Text → Result BlobError EncryptedBlob
from_bytes bytes =
    if not (starts_with bytes vault_blob_magic_v2)
    then (if leb legacy_v1_min_len (length bytes)
        then err unsupported_vault_blob
        else err (blob_too_short (length bytes)))
    else if ltb (length bytes) (vault_blob_v2_header_len + aead_tag_len)
    then err (blob_too_short (length bytes))
    else ok (slices bytes)
