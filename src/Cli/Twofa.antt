-- ===== src/Cli/Twofa.antt =====
-- The checks of cli/src/twofa/mod.rs on a response of the phone.
pub mod Accepted
use ferusa.Base.{
  ℕ, Bool, true, false, not, ◌||◌, Option, none, some, Text, if◌then◌else◌, ◌==◌, Result, ok, err,
  and_then,
}
use ferusa.Core.Message.{VaultAction, AuthRequest, AuthResponse, action_eq}
use ferusa.Core.Approval.{
  Signing, verify_approval_signature, AuthTimestampError, validate_auth_exchange_timestamps,
}

pub data TwofaError : Type 0 where
  signature_mismatch pairing_generation_mismatch unknown_request action_mismatch : TwofaError
  correlation_code_mismatch denied missing_unlock_share timestamp_skew : TwofaError

-- cli/src/storage/paths.rs.
pub record PairingData : Type 0 where
  pub pairing_id : ℕ
  pub phone_node_id : Text
  pub approval_public_key_der : Text
  pub created_at_ms : ℕ

abbrev pub Check : Type 0
Check = Result TwofaError (Unit {0})

-- `Err(e)?` under a test.
abbrev pub require : Bool → TwofaError → Check
require b e = if b then ok tt else err e

unfoldable pub ensure_pairing_generation : ℕ → ℕ → ℕ → Check
ensure_pairing_generation active_pairing_id request_pairing_id response_pairing_id =
    if not (request_pairing_id == active_pairing_id)
      || not (response_pairing_id == active_pairing_id)
    then err pairing_generation_mismatch
    else ok tt

-- `map_err`: any error of the timestamps is `TimestampSkew`.
abbrev pub skew : Result AuthTimestampError (Unit {0}) → Check
skew (ok a) = ok a
skew (err e) = err timestamp_skew

unfoldable pub validate_auth_exchange : ℕ → AuthRequest → AuthResponse → Check
validate_auth_exchange now_ms req resp = skew (validate_auth_exchange_timestamps req resp now_ms)

unfoldable pub validate_response : Signing → ℕ → AuthRequest → PairingData → AuthResponse → Check
unfolding ensure_pairing_generation validate_auth_exchange
validate_response lib now_ms req pairing resp =
    and_then (ensure_pairing_generation pairing.pairing_id req.pairing_id resp.pairing_id) λ _.
      and_then (require (resp.request_id == req.request_id) unknown_request) λ _.
        and_then
          (require (verify_approval_signature lib pairing.approval_public_key_der req resp)
            signature_mismatch)
          λ _. and_then (validate_auth_exchange now_ms req resp) λ _.
            and_then
              (require (resp.correlation_code == req.correlation_code) correlation_code_mismatch)
              λ _.
                and_then (require (action_eq resp.action req.action) action_mismatch)
                  λ _. require resp.approved denied
