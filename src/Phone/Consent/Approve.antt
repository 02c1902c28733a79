-- ===== src/Phone/Consent/Approve.antt =====
-- `approve_request`: the user has entered a PIN for the pending request.
use ferusa.Base.{
  ℕ, Bool, true, false, not, Option, none, some, Text, text_eq, if◌then◌else◌, Result, ok, err,
}
use ferusa.Base.Method.{pure, fail, lift, attempt, ◌>>=◌, ◌>>◌}
use ferusa.Core.Message.{AuthRequest}
use ferusa.Phone.Session.State.{
  AppError, session_expired, pending_missing, pending_mismatch, pending_locked, pin_validate,
  pin_incorrect, pin_cooldown, Secrets,
}
use ferusa.Phone.Session.Requests.{PendingRequest, PendingIdentity, Slot, is_current}
use ferusa.Phone.Pin.{validate_pin, PinError}
use ferusa.Phone.Throttle.Attempt.{
  PinVerificationOutcome, verified, incorrect, cooldown_started, cooldown_active,
  verify_pin_with_cooldown,
}
use ferusa.Phone.Consent.Desk.{PinKind, Act, Outside, draw, app, with_slot, wait}
use ferusa.Phone.Consent.Answering.{
  pin_kind_for_action, expected_pin_len, pin_hash, ensure_approval_key_auth, answer_taken,
  take_pending,
}
use ferusa.Phone.Consent.Expiry.{ensure_active_session, lock_app}

pub record ApprovePayload : Type 0 where
  pub request_id : Text
  pub pin : Text

-- `map_err`: any error of the PIN's form is `Pin` with the operation `validate`.
abbrev pub as_pin_error : Result PinError (Unit {0}) → Result AppError (Unit {0})
as_pin_error (ok a) = ok a
as_pin_error (err e) = err pin_validate

module _ {X : Type 0} (out : Outside X) where
  -- The pending request's PIN kind and identity, if it is the one that the payload names.
  unfoldable pub pending_to_approve :
      Text → ℕ → Slot AuthRequest → Result AppError (PinKind × PendingIdentity)
  pending_to_approve request_id now none = err pending_missing
  pending_to_approve request_id now (some p) =
      if not (text_eq (out.show_id p.request.request_id) request_id)
      then err pending_mismatch
      else if not (is_current p.identity p.identity now)
      then err pending_mismatch
      else ok (pin_kind_for_action p.request.action, p.identity)

  abbrev pub unlocked_secrets : Option Secrets → Result AppError Secrets
  unlocked_secrets none = err pending_locked
  unlocked_secrets (some secrets) = ok secrets

  unfoldable pub deny_after_cooldown : Text → PendingIdentity → ℕ → Act X (Unit {0})
  deny_after_cooldown alias identity retry_after_ms = do
    ensure_approval_key_auth out
    p ← take_pending out identity
    answer_taken out alias p false none
    lock_app out
    attempt out.emit
    fail (pin_cooldown retry_after_ms)

  unfoldable pub in_background : Act X (Unit {0})
  in_background = do out.close; lock_app out; fail session_expired

  unfoldable pub share_of : Option Secrets → Act X (Option Text)
  share_of none = out.close >> fail pending_locked
  share_of (some secrets) = pure (some secrets.phone_share)

  -- `unlock_share_requested` asks for the share that the app holds now.
  unfoldable pub share_for : Bool → Act X (Option Text)
  share_for false = pure none
  share_for true = do wait out; s ← app; share_of s.secrets

  unfoldable pub approve_taken :
      Text → PendingIdentity → PendingRequest AuthRequest → Act X (Unit {0})
  approve_taken alias identity p = do
    s ← app
    if not s.is_foreground then in_background else (do
      share ← share_for p.request.unlock_share_requested
      now ← draw out.now
      if not (is_current p.identity identity now)
          then (out.close >> fail pending_mismatch)
          else answer_taken out alias p true share)

  unfoldable pub approve_verified : Text → PendingIdentity → Act X (Unit {0})
  approve_verified alias identity = do
    ensure_approval_key_auth out
    p ← take_pending out identity
    approve_taken alias identity p

  unfoldable pub after_pin : Text → PendingIdentity → PinVerificationOutcome → Act X (Unit {0})
  after_pin alias identity (cooldown_active ms) = deny_after_cooldown alias identity ms
  after_pin alias identity incorrect = fail pin_incorrect
  after_pin alias identity (cooldown_started ms) = deny_after_cooldown alias identity ms
  after_pin alias identity verified = approve_verified alias identity

  unfoldable pub approve_request : ApprovePayload → Act X (Unit {0})
  approve_request payload = do
    ensure_active_session out
    wait out
    now ← draw out.now
    found ← with_slot (λ _ slot. (pending_to_approve payload.request_id now slot, slot))
    wait out
    s ← app
    secrets ← lift (unlocked_secrets s.secrets)
    lift (as_pin_error (validate_pin payload.pin (expected_pin_len found.0)))
    outcome ← verify_pin_with_cooldown (out.attempts found.0 payload.pin (pin_hash found.0 secrets))
    after_pin secrets.approval_key_alias found.1 outcome
