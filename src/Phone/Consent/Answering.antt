-- ===== src/Phone/Consent/Answering.antt =====
-- Answers that are signed: approvals and denials, and what is done when signing fails.
use ferusa.Base.{
  ℕ, Bool, true, [], ◌∷◌, Text, Option, none, some, Result, ok, err, ok_or, and_then, if◌then◌else◌,
}
use ferusa.Base.Method.{or_else, pure, fail, lift, ◌>>=◌, ◌>>◌}
use ferusa.Core.Message.{AuthRequest, AuthResponse, VaultAction, unlock, list, read}
use ferusa.Core.Approval.{canonical_approval_payload}
use ferusa.Phone.Session.State.{
  AppError, approval_key_auth_required, core, Secrets, authentication_generation,
  mark_approval_key_authenticated,
}
use ferusa.Phone.Session.Requests.{
  PendingRequest, PendingIdentity, within, restore_pending_after_sign_error, take_verified_pending,
}
use ferusa.Phone.Consent.Desk.{
  PinKind, four_digit, six_digit, Act, Outside, draw, app, change_app, on_app, with_slot, wait,
}

abbrev pub approval_key_auth_ttl : ℕ
approval_key_auth_ttl = 120000

unfoldable pub pin_kind_for_action : VaultAction → PinKind
pin_kind_for_action unlock = four_digit
pin_kind_for_action list = four_digit
pin_kind_for_action read = four_digit
pin_kind_for_action _ = six_digit

unfoldable pub expected_pin_len : PinKind → ℕ
expected_pin_len four_digit = 4
expected_pin_len six_digit = 6

abbrev pub pin_hash : PinKind → Secrets → Text
pin_hash four_digit secrets = secrets.pin4_hash
pin_hash six_digit secrets = secrets.pin6_hash

abbrev pub response_to : AuthRequest → Bool → Option Text → ℕ → AuthResponse
response_to req approved share timestamp = record {
  pairing_id = req.pairing_id;
  request_id = req.request_id;
  correlation_code = req.correlation_code;
  action = req.action;
  approved = approved;
  unlock_share = share;
  timestamp = timestamp;
  signature = [];
}

-- The share of an approval that was asked for one, and of nothing else.
unfoldable pub share_in_response : Bool → Bool → Option Text → Result AppError (Option Text)
share_in_response true true none = err core
share_in_response true true (some share) = ok (some share)
share_in_response _ _ share = ok none

unfoldable pub build_response_for_signing :
    AuthRequest → Bool → Option Text → ℕ → Result AppError AuthResponse
unfolding share_in_response
build_response_for_signing req approved unlock_share timestamp =
    and_then (share_in_response approved req.unlock_share_requested unlock_share)
      (λ share. ok (response_to req approved share timestamp))

module _ {X : Type 0} (out : Outside X) where
  -- What the approval key is asked to sign is noted before the key is used.
  unfoldable pub ask_key : Text → AuthRequest → AuthResponse → Text → Act X Text
  ask_key alias req resp payload s =
      out.sign_approval alias payload
        (record s { asked = record { alias = alias; request = req; response = resp } ∷ s.asked })

  unfoldable pub send_signed_response : Text → AuthRequest → Bool → Option Text → Act X (Unit {0})
  send_signed_response alias req approved unlock_share = do
    timestamp ← draw out.current_time_ms
    resp ← lift (build_response_for_signing req approved unlock_share timestamp)
    payload ← lift (ok_or (canonical_approval_payload out.lib req resp) core)
    signature ← ask_key alias req resp payload
    out.send_response (record resp { signature = signature })

  unfoldable pub current_approval_alias : Act X (Option Text)
  current_approval_alias = do
    wait out
    s ← app
    pure (elim s.secrets [ none ↦ none | some secrets ↦ some secrets.approval_key_alias ])

  unfoldable pub approval_key_auth_is_current : Act X Bool
  approval_key_auth_is_current = do
    wait out
    s ← app
    now ← draw out.now
    pure (within approval_key_auth_ttl now s.approval_key_authenticated_at)

  unfoldable pub current_authenticated_approval_alias : Act X (Option Text)
  current_authenticated_approval_alias = do
    authenticated ← approval_key_auth_is_current
    if authenticated then current_approval_alias else pure none

  unfoldable pub clear_approval_key_authenticated : Act X (Unit {0})
  clear_approval_key_authenticated = do
    wait out
    change_app (λ s. record s { approval_key_authenticated_at = none })

  unfoldable pub refresh_approval_key_auth : ℕ → Act X (Unit {0})
  refresh_approval_key_auth generation = do
    out.require_biometric
    wait out
    now ← draw out.now
    on_app (mark_approval_key_authenticated now generation)

  unfoldable pub ensure_approval_key_auth : Act X (Unit {0})
  ensure_approval_key_auth = do
    current ← approval_key_auth_is_current
    if current then pure tt else (do
      wait out
      generation ← on_app authentication_generation
      refresh_approval_key_auth generation)

  unfoldable pub restore_pending : PendingRequest AuthRequest → Act X (Unit {0})
  restore_pending p = do
    wait out
    now ← draw out.now
    with_slot (λ s slot. (ok tt, restore_pending_after_sign_error s p now slot))

  -- `handle_signed_response_error`, and the request goes back if the key wants a new
  -- authentication.
  unfoldable pub after_sign_error : PendingRequest AuthRequest → AppError → Act X (Unit {0})
  after_sign_error p approval_key_auth_required = do
    clear_approval_key_authenticated
    restore_pending p
    fail approval_key_auth_required
  after_sign_error p e = fail e

  -- A request that was taken is answered, or put back.
  unfoldable pub answer_taken :
      Text → PendingRequest AuthRequest → Bool → Option Text → Act X (Unit {0})
  answer_taken alias p approved share =
      or_else (send_signed_response alias p.request approved share) (after_sign_error p)

  unfoldable pub take_pending : PendingIdentity → Act X (PendingRequest AuthRequest)
  take_pending identity = do
    wait out
    checked ← draw out.now
    now ← draw out.now
    with_slot (λ s slot. take_verified_pending s identity checked now slot)
