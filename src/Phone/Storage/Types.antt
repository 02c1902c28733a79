-- ===== src/Phone/Storage/Types.antt =====
-- Keys, records and the `PairingStore` trait of app/src-tauri/src/storage.rs, and what the file
-- takes from crates: the text of ids, JSON, PHC strings and signature checks.
use ferusa.Base.{ℕ, Option, Bool, ◌++◌, Text, codes}
use ferusa.Base.Action.{Action}

abbrev pub active_pairing_generation : Text
active_pairing_generation = codes "active_pairing_generation"

abbrev pub staging_pairing_generation : Text
staging_pairing_generation = codes "staging_pairing_generation"

abbrev pub pending_pairing_generation : Text
pending_pairing_generation = codes "pending_pairing_generation"

abbrev pub committed_pairing_generation : Text
committed_pairing_generation = codes "committed_pairing_generation"

abbrev pub retiring_pairing_generation : Text
retiring_pairing_generation = codes "retiring_pairing_generation"

abbrev pub pairing_generation_version : ℕ
pairing_generation_version = 1

abbrev pub pairing_generation_prefix : Text
pairing_generation_prefix = codes "pairing_generation:"

-- `version` is a u8, `pairing_id` a uuid as its 128-bit number, the rest are bytes.
pub record PairingGeneration : Type 0 where
  pub version : ℕ
  pub pairing_id : ℕ
  pub approval_public_key_der : Text
  pub phone_share : Text
  pub pin4_hash : Text
  pub pin6_hash : Text
  pub cli_node_id : Text

pub record StoredSecrets : Type 0 where
  pub pairing_id : ℕ
  pub approval_key_alias : Text
  pub approval_public_key_der : Text
  pub phone_share : Text
  pub pin4_hash : Text
  pub pin6_hash : Text
  pub cli_node_id : Text

-- What the file reads of a parsed PHC string.
pub record PinHash : Type 0 where
  pub algorithm : Text
  pub has_salt : Bool
  pub has_hash : Bool

-- Functions of the crates uuid, serde_json, argon2 and ring.
pub record Crates : Type 0 where
  pub show_id : ℕ → Text
  pub parse_id : Text → Option ℕ
  pub to_json : PairingGeneration → Option Text
  pub from_json : Text → Option PairingGeneration
  pub parse_hash : Text → Option PinHash
  pub verify : Text → Text → Text → Bool

-- The reasons of a failure: `backend` is the keystore's own, each other one a `bail!` or a missing
-- or unreadable value.
pub data Failure : Type 0 where
  backend bad_id bad_hash not_argon2id no_salt_or_hash bad_version empty_key : Failure
  key_mismatch not_serializable not_in_store bad_json id_mismatch : Failure
  active_is_retiring committed_is_pending pairing_is_pending staging_mismatch : Failure
  alias_mismatch pending_mismatch different_generation commit_mismatch : Failure

abbrev pub Storage : Type 0 → Type 0 → Type 0
Storage S A = Action S Failure A

-- The trait; `S` is what lies behind the shared reference.
pub record PairingStore (S : Type 0) : Type 0 where
  pub save : Text → Text → Storage S (Unit {0})
  pub get : Text → Storage S (Option Text)
  pub delete : Text → Storage S (Unit {0})
  pub sign : Text → Text → Storage S Text
  pub delete_approval_key : Text → Storage S (Unit {0})

unfoldable pub approval_key_alias : Crates → ℕ → Text
approval_key_alias c pairing_id = codes "ferusa_approval_" ++ c.show_id pairing_id

unfoldable pub pairing_generation_key : Crates → ℕ → Text
pairing_generation_key c pairing_id = pairing_generation_prefix ++ c.show_id pairing_id

-- `canonical_pairing_ready_payload` of ferusa-core/src/crypto.rs.
unfoldable pub canonical_pairing_ready_payload : Crates → ℕ → Text
canonical_pairing_ready_payload c pairing_id =
    codes "ferusa-pairing-ready/v4/" ++ c.show_id pairing_id

unfoldable pub verify_pairing_ready_signature : Crates → Text → ℕ → Text → Bool
unfolding canonical_pairing_ready_payload
verify_pairing_ready_signature c public_key_der pairing_id signature =
    c.verify public_key_der (canonical_pairing_ready_payload c pairing_id) signature

unfoldable pub into_stored_secrets : Crates → PairingGeneration → StoredSecrets
unfolding approval_key_alias
into_stored_secrets c g = record {
  pairing_id = g.pairing_id;
  approval_key_alias = approval_key_alias c g.pairing_id;
  approval_public_key_der = g.approval_public_key_der;
  phone_share = g.phone_share;
  pin4_hash = g.pin4_hash;
  pin6_hash = g.pin6_hash;
  cli_node_id = g.cli_node_id;
}
