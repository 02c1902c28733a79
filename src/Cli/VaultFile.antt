-- ===== src/Cli/VaultFile.antt =====
-- The session of the desktop and the encrypted vault file: cli/src/session.rs and `rotate_vault` of
-- cli/src/commands/passwd.rs. Of a session the secrets and the vault are here, and not the pairing,
-- the connection and the lock. serde_json, the cipher, the derivation of keys, the phone's answer
-- and the calls of the file system are parameters.
pub mod Opening
pub mod Saving
pub mod Sessions
pub mod Reopening
mod Tests
use ferusa.Base.{
  ℕ, suc, ◌+◌, ◌*◌, Bool, Option, none, some, Text, ltb, is_some, if◌then◌else◌, length, Result, ok,
  err, ok_or, and_then,
}
use ferusa.Base.Action.{Action, pure, lift, bail_if, attempt, ◌>>=◌, ◌>>◌}
use ferusa.Core.Blob.{
  BlobError, EncryptedBlob, to_bytes, from_bytes, vault_blob_v2_header_len, aead_tag_len,
}
use ferusa.Core.Vault.{Vault, VaultError, validate}

pub record SessionState : Type 0 where
  pub vault : Vault
  pub local_secret : Text
  pub vault_key : Text
  pub phone_share : Text
  pub vault_salt : Text

pub data SessionError : Type 0 where
  not_unlocked file_too_large bad_blob : SessionError
  wrong_key vault_too_large bad_vault invalid_vault : SessionError
  not_serialized bad_keys call_failed : SessionError

pub data UnlockStatus : Type 0 where
  already_unlocked newly_unlocked : UnlockStatus

abbrev pub max_vault_plaintext_bytes : ℕ
max_vault_plaintext_bytes = 8 * 1024 * 1024

abbrev pub vault_blob_overhead_bytes : ℕ
vault_blob_overhead_bytes = vault_blob_v2_header_len + aead_tag_len

abbrev pub max_vault_encrypted_bytes : ℕ
max_vault_encrypted_bytes = max_vault_plaintext_bytes + vault_blob_overhead_bytes

pub record Libraries : Type 0 where
  pub to_vec : Vault → Option Text
  pub from_slice : Text → Option Vault
  pub decrypt_vault : Text → EncryptedBlob → Option Text
  pub derive_keys : Text → Text → Option Text
  pub combine_vault_key : Text → Text → Option Text

abbrev pub Outer : Type 0 → Type 0 → Type 0
Outer X A = Action X SessionError A

-- `encrypt_vault` draws a nonce, `read_vault` reads at most so many bytes of vault.enc,
-- `write_vault` is `write_private_file`, `cleanup` removes the salt file of old versions.
pub record Calls (X : Type 0) : Type 0 where
  pub encrypt_vault : Text → Text → Text → Outer X EncryptedBlob
  pub read_vault : ℕ → Outer X Text
  pub write_vault : Text → Outer X (Unit {0})
  pub request_unlock_share : Outer X Text
  pub cleanup : Outer X (Unit {0})

pub record Desktop (X : Type 0) : Type 0 where
  pub session : Option SessionState
  pub outside : X

abbrev pub On : Type 0 → Type 0 → Type 0
On X A = Action (Desktop X) SessionError A

abbrev as_blob : Result BlobError EncryptedBlob → Result SessionError EncryptedBlob
as_blob (ok b) = ok b
as_blob (err e) = err bad_blob

abbrev pub as_valid : Result VaultError (Unit {0}) → Result SessionError (Unit {0})
as_valid (ok u) = ok tt
as_valid (err e) = err invalid_vault

unfoldable pub decrypt_vault_blob : Libraries → EncryptedBlob → Text → Result SessionError Vault
decrypt_vault_blob lib blob vault_key =
    and_then (ok_or (lib.decrypt_vault vault_key blob) wrong_key) (λ plaintext.
      if ltb max_vault_plaintext_bytes (length plaintext)
      then err vault_too_large
      else and_then (ok_or (lib.from_slice plaintext) bad_vault)
          (λ vault. and_then (as_valid (validate vault)) (λ _. ok vault)))

module _ {X : Type 0} where
  unfoldable pub on : {A : Type 0} → Outer X A → On X A
  on m s = ((m s.outside).0, record s { outside = (m s.outside).1 })

  unfoldable pub session_of : On X SessionState
  session_of s = (ok_or s.session not_unlocked, s)

  unfoldable pub put_session : Option SessionState → On X (Unit {0})
  put_session session s = (ok tt, record s { session = session })

  abbrev pub locked_on_error :
      Result SessionError (Unit {0}) × Desktop X → Result SessionError (Unit {0}) × Desktop X
  locked_on_error (ok u, s) = (ok u, s)
  locked_on_error (err e, s) = (err e, record s { session = none })

  unfoldable pub lock_session : On X (Unit {0})
  unfolding put_session
  lock_session = put_session none

module _ {X : Type 0} (lib : Libraries) (calls : Calls X) where
  unfoldable pub load_vault_blob : On X EncryptedBlob
  unfolding on
  load_vault_blob = do
    bytes ← on (calls.read_vault (suc max_vault_encrypted_bytes))
    bail_if (ltb max_vault_encrypted_bytes (length bytes)) file_too_large
    lift (as_blob (from_bytes bytes))

  -- From the phone's share on.
  unfoldable pub unlock_with : EncryptedBlob → Text → Text → On X UnlockStatus
  unfolding put_session
  unlock_with blob local_secret phone_share = do
    vault_key ← lift (ok_or (lib.combine_vault_key local_secret phone_share) bad_keys)
    vault ← lift (decrypt_vault_blob lib blob vault_key)
    put_session (
        some (record {
          vault = vault;
          local_secret = local_secret;
          vault_key = vault_key;
          phone_share = phone_share;
          vault_salt = blob.salt;
        }))
    pure newly_unlocked

  -- From the master password on; where the share comes from is the parameter.
  unfoldable pub open_session : Text → On X UnlockStatus
  unfolding load_vault_blob unlock_with
  open_session password = do
    blob ← load_vault_blob
    local_secret ← lift (ok_or (lib.derive_keys password blob.salt) bad_keys)
    phone_share ← on calls.request_unlock_share
    unlock_with blob local_secret phone_share

  unfoldable pub save_vault_snapshot : Vault → Text → Text → On X ℕ
  unfolding on
  save_vault_snapshot vault vault_key vault_salt = do
    lift (as_valid (validate vault))
    plaintext ← lift (ok_or (lib.to_vec vault) not_serialized)
    bail_if (ltb max_vault_plaintext_bytes (length plaintext)) vault_too_large
    blob ← on (calls.encrypt_vault vault_key vault_salt plaintext)
    on (calls.write_vault (to_bytes blob))
    pure (length (to_bytes blob))

  unfoldable pub save_vault : On X (Unit {0})
  unfolding session_of save_vault_snapshot
  save_vault = do s ← session_of; save_vault_snapshot s.vault s.vault_key s.vault_salt; pure tt

  unfoldable pub save_vault_candidate : Vault → On X (Unit {0})
  unfolding session_of save_vault_snapshot put_session
  save_vault_candidate vault = do
    s ← session_of
    save_vault_snapshot vault s.vault_key s.vault_salt
    t ← session_of
    put_session (some (record t { vault = vault }))

  -- A failed write may have gone through: the session is locked.
  unfoldable pub write_or_lock : EncryptedBlob → On X (Unit {0})
  unfolding on put_session
  write_or_lock blob s = locked_on_error (on (calls.write_vault (to_bytes blob)) s)

  unfoldable pub rotate_vault : Text → Text → On X (Unit {0})
  unfolding session_of write_or_lock put_session on
  rotate_vault new_local_secret new_salt = do
    s ← session_of
    new_vault_key ← lift (ok_or (lib.combine_vault_key new_local_secret s.phone_share) bad_keys)
    plaintext ← lift (ok_or (lib.to_vec s.vault) not_serialized)
    blob ← on (calls.encrypt_vault new_vault_key new_salt plaintext)
    write_or_lock blob
    put_session (
        some (record s {
          local_secret = new_local_secret;
          vault_key = new_vault_key;
          vault_salt = new_salt;
        }))
    attempt (on calls.cleanup)
