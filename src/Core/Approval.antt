-- ===== src/Core/Approval.antt =====
-- Freshness and signatures of an approval: `validate_auth_timestamp` and
-- `validate_auth_exchange_timestamps` of auth.rs, `canonical_approval_payload` and
-- `verify_approval_signature` of crypto.rs. serde_json and ring are parameters.
pub mod Window
pub mod Binding
use ferusa.Base.{
  ℕ, ◌-◌, Bool, true, false, Option, none, some, Text, codes, ltb, if◌then◌else◌, Result, ok, err,
  and_then,
}
use ferusa.Core.Message.{VaultAction, AuthRequest, AuthResponse}

abbrev pub auth_timestamp_max_skew_ms : ℕ
auth_timestamp_max_skew_ms = 300000

-- Each with the timestamp, the clock and the largest skew.
pub data AuthTimestampError : Type 0 where
  too_old too_far_in_future : ℕ → ℕ → ℕ → AuthTimestampError

unfoldable pub validate_auth_timestamp : ℕ → ℕ → Result AuthTimestampError (Unit {0})
validate_auth_timestamp timestamp_ms now_ms =
    if ltb auth_timestamp_max_skew_ms (now_ms - timestamp_ms)
    then err (too_old timestamp_ms now_ms auth_timestamp_max_skew_ms)
    else if ltb auth_timestamp_max_skew_ms (timestamp_ms - now_ms)
    then err (too_far_in_future timestamp_ms now_ms auth_timestamp_max_skew_ms)
    else ok tt

unfoldable pub validate_auth_exchange_timestamps :
    AuthRequest → AuthResponse → ℕ → Result AuthTimestampError (Unit {0})
unfolding validate_auth_timestamp
validate_auth_exchange_timestamps req resp now_ms =
    and_then (validate_auth_timestamp req.timestamp now_ms)
      (λ _. validate_auth_timestamp resp.timestamp now_ms)

-- `AuthResponseForSigning`: the response without its signature.
pub record AuthResponseForSigning : Type 0 where
  pub pairing_id : ℕ
  pub request_id : ℕ
  pub correlation_code : ℕ
  pub action : VaultAction
  pub approved : Bool
  pub unlock_share : Option Text
  pub timestamp : ℕ

pub record ApprovalPayload : Type 0 where
  pub domain : Text
  pub version : ℕ
  pub request : AuthRequest
  pub response : AuthResponseForSigning

-- serde_json on a payload, and ECDSA P-256 on a key, a message and a signature.
pub record Signing : Type 0 where
  pub payload_to_vec : ApprovalPayload → Option Text
  pub verify : Text → Text → Text → Bool

abbrev pub approval_payload : AuthRequest → AuthResponse → ApprovalPayload
approval_payload req resp = record {
  domain = codes "ferusa-approval";
  version = 3;
  request = req;
  response = record {
    pairing_id = resp.pairing_id;
    request_id = resp.request_id;
    correlation_code = resp.correlation_code;
    action = resp.action;
    approved = resp.approved;
    unlock_share = resp.unlock_share;
    timestamp = resp.timestamp;
  };
}

unfoldable pub canonical_approval_payload : Signing → AuthRequest → AuthResponse → Option Text
canonical_approval_payload lib req resp = lib.payload_to_vec (approval_payload req resp)

unfoldable pub verify_approval_signature : Signing → Text → AuthRequest → AuthResponse → Bool
unfolding canonical_approval_payload
verify_approval_signature lib public_key_der req resp =
    elim (canonical_approval_payload lib req resp) [
      | none ↦ false
      | some payload ↦ lib.verify public_key_der payload resp.signature
    ]
