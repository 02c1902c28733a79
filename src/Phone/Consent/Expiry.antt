-- ===== src/Phone/Consent/Expiry.antt =====
-- Denials that nobody asked for: a lock, a session that has ended, a request that is too old.
use ferusa.Base.{
  ℕ, Bool, true, false, not, ◌&&◌, Option, none, some, is_some, Text, ◌==◌, if◌then◌else◌, ok,
  Result,
}
use ferusa.Base.Method.{or_else, pure, fail, attempt, ◌>>=◌, ◌>>◌}
use ferusa.Core.Message.{AuthRequest}
use ferusa.Phone.Session.State.{session_expired, AppError, lock, set_foreground}
use ferusa.Phone.Session.Requests.{
  PendingRequest, PendingIdentity, Slot, within, auth_session_ttl, pending_request_is_expired,
}
use ferusa.Phone.Consent.Desk.{Act, Outside, draw, app, change_app, with_slot, wait}
use ferusa.Phone.Consent.Answering.{send_signed_response, current_authenticated_approval_alias}

module _ {X : Type 0} (out : Outside X) where
  -- A denial that cannot be sent closes the connection.
  unfoldable pub deny_pending_request : PendingRequest AuthRequest → Option Text → Act X (Unit {0})
  deny_pending_request p none = out.close
  deny_pending_request p (some alias) =
      or_else (send_signed_response out alias p.request false none) (λ _. out.close)

  unfoldable pub deny_taken : Slot AuthRequest → Option Text → Act X (Unit {0})
  deny_taken none alias = pure tt
  deny_taken (some p) alias = deny_pending_request p alias

  unfoldable pub take_and_deny_pending : Option Text → Act X (Unit {0})
  take_and_deny_pending alias = do
    wait out
    taken ← with_slot (λ _ slot. (ok slot, none))
    deny_taken taken alias

  -- The request, if it is still the expected one and too old, and what is left in the slot.
  unfoldable pub take_expired :
      PendingIdentity → ℕ → Slot AuthRequest → Result AppError (Slot AuthRequest) × Slot AuthRequest
  take_expired expected now none = (ok none, none)
  take_expired expected now (some p) =
      if pending_request_is_expired p.identity expected now
      then (ok (some p), none)
      else (ok none, some p)

  unfoldable pub take_and_deny_expired_pending : Option Text → PendingIdentity → Act X (Unit {0})
  take_and_deny_expired_pending alias expected = do
    wait out
    now ← draw out.now
    taken ← with_slot (λ _ slot. take_expired expected now slot)
    deny_taken taken alias

  -- The task of `schedule_pending_expiry`, after its sleep.
  unfoldable pub pending_expiry : PendingIdentity → Act X (Unit {0})
  pending_expiry identity = do
    alias ← current_authenticated_approval_alias out
    take_and_deny_expired_pending alias identity

  unfoldable pub lock_app : Act X (Unit {0})
  lock_app = do wait out; change_app lock

  unfoldable pub expire_session : Act X (Unit {0})
  expire_session = do
    alias ← current_authenticated_approval_alias out
    take_and_deny_pending alias
    lock_app
    attempt out.emit

  unfoldable pub has_expired : Act X (Unit {0})
  has_expired = do expire_session; fail session_expired

  -- `current && state.secrets.lock().await.is_some()`.
  unfoldable pub is_unlocked : Bool → Act X Bool
  is_unlocked false = pure false
  is_unlocked true = do wait out; s ← app; pure (is_some s.secrets)

  unfoldable pub ensure_active_session : Act X (Unit {0})
  ensure_active_session = do
    s ← app
    if not s.is_foreground then has_expired else (do
      wait out
      t ← app
      now ← draw out.now
      unlocked ← is_unlocked (within auth_session_ttl now t.unlocked_at)
      if unlocked then pure tt else has_expired)

  abbrev pub past_session : ℕ → Option ℕ → Bool
  past_session now none = false
  past_session now (some at) = not (within auth_session_ttl now (some at))

  -- The task of `schedule_session_expiry`, after its sleep.
  unfoldable pub session_expiry : ℕ → Act X (Unit {0})
  session_expiry generation = do
    wait out
    s ← app
    wait out
    t ← app
    now ← draw out.now
    if s.session_generation == generation && past_session now t.unlocked_at
        then expire_session
        else pure tt

  -- The commands `lock` and `set_app_foreground`.
  unfoldable pub lock_command : Act X (Unit {0})
  lock_command = do
    alias ← current_authenticated_approval_alias out
    take_and_deny_pending alias
    lock_app

  unfoldable pub set_app_foreground : Bool → Act X (Unit {0})
  set_app_foreground foreground = do
    wait out
    change_app (set_foreground foreground)
    if not foreground then expire_session else pure tt
