-- ===== src/Phone/Consent/Sound/Expiry.antt =====
-- Denials, locks and expiries keep the desk safe: they say no.
use ferusa.Base.{ℕ, Bool, true, false, Text, Option, none, some, arith}
use ferusa.Base.Method.Keeps.{Keeps-bind, Keeps-pure, Keeps-or_else, Keeps-attempt}
use ferusa.Core.Message.{AuthRequest}
use ferusa.Phone.Session.State.{AppState}
use ferusa.Phone.Session.Requests.{PendingIdentity, Slot}
use ferusa.Phone.Consent.Desk.{Outside}
use ferusa.Phone.Consent.Expiry.{
  deny_pending_request, deny_taken, take_and_deny_pending, take_expired,
  take_and_deny_expired_pending, pending_expiry, lock_app, expire_session, has_expired, is_unlocked,
  ensure_active_session, session_expiry, lock_command, set_app_foreground,
}
use ferusa.Phone.Consent.Sound.{Facts, Filed, SafeAct, OthersKeep}
use ferusa.Phone.Consent.Sound.Steps.{step_rules, with_slot-Keeps, wait-Keeps, draw-Keeps}
use ferusa.Phone.Consent.Sound.Answering.{
  send_signed_response-Keeps, current_authenticated_approval_alias-Keeps,
}

module _ {X : Type 0} (facts : Facts) (out : Outside X) (others : OthersKeep facts out) where
  pub deny_taken-Keeps :
      (slot : Slot AuthRequest) (alias : Option Text) → SafeAct facts (deny_taken out slot alias)
  unfolding deny_taken deny_pending_request
  deny_taken-Keeps none alias = Keeps-pure tt
  deny_taken-Keeps (some p) none = others.close_law
  deny_taken-Keeps (some p) (some alias) =
      Keeps-or_else _ _
        (send_signed_response-Keeps facts out others alias p.request false none (λ e. cc))
        (λ _. others.close_law)

  take_and_deny_pending-Keeps :
      (alias : Option Text) → SafeAct facts (take_and_deny_pending out alias)
  unfolding take_and_deny_pending
  take_and_deny_pending-Keeps alias = Keeps-bind _ _ (wait-Keeps facts out others) (λ _.
      Keeps-bind _ _ (with_slot-Keeps facts _ (λ s slot h. tt))
        (λ slot. deny_taken-Keeps slot alias))

  unexpired :
      (expected : PendingIdentity) (now : ℕ) (s : AppState) (slot : Slot AuthRequest)
      → Filed facts slot
      → Filed facts (take_expired out expected now slot).1
  unfolding take_expired
  unexpired expected now s none h = tt
  unexpired expected now s (some p) h = ground (arith, h)

  pub pending_expiry-Keeps :
      (identity : PendingIdentity) → SafeAct facts (pending_expiry out identity)
  unfolding pending_expiry take_and_deny_expired_pending
  pending_expiry-Keeps identity =
      Keeps-bind _ _ (current_authenticated_approval_alias-Keeps facts out others) (λ alias.
        Keeps-bind _ _ (wait-Keeps facts out others) (λ _.
          Keeps-bind _ _ (draw-Keeps facts out.now) (λ now.
            Keeps-bind _ _ (with_slot-Keeps facts _ (unexpired identity now))
              (λ slot. deny_taken-Keeps slot alias))))

  pub lock_app-Keeps : SafeAct facts (lock_app out)
  unfolding lock_app
  lock_app-Keeps = search (step_rules, others)

  pub expire_session-Keeps : SafeAct facts (expire_session out)
  unfolding expire_session
  expire_session-Keeps =
      Keeps-bind _ _ (current_authenticated_approval_alias-Keeps facts out others) (λ alias.
        Keeps-bind _ _ (take_and_deny_pending-Keeps alias)
          (λ _. Keeps-bind _ _ lock_app-Keeps (λ _. Keeps-attempt _ others.emit_law)))

  has_expired-Keeps : SafeAct facts (has_expired out)
  unfolding has_expired
  has_expired-Keeps = search (step_rules, expire_session-Keeps)

  is_unlocked-Keeps : (b : Bool) → SafeAct facts (is_unlocked out b)
  unfolding is_unlocked
  is_unlocked-Keeps false = Keeps-pure false
  is_unlocked-Keeps true = search (step_rules, others)

  pub ensure_active_session-Keeps : SafeAct facts (ensure_active_session out)
  unfolding ensure_active_session
  ensure_active_session-Keeps =
      search (step_rules, others, has_expired-Keeps, is_unlocked-Keeps) depth 12

  pub session_expiry-Keeps : (generation : ℕ) → SafeAct facts (session_expiry out generation)
  unfolding session_expiry
  session_expiry-Keeps generation = search (step_rules, others, expire_session-Keeps) depth 12

  pub lock_command-Keeps : SafeAct facts (lock_command out)
  unfolding lock_command
  lock_command-Keeps =
      Keeps-bind _ _ (current_authenticated_approval_alias-Keeps facts out others)
        (λ alias. Keeps-bind _ _ (take_and_deny_pending-Keeps alias) (λ _. lock_app-Keeps))

  pub set_app_foreground-Keeps :
      (foreground : Bool) → SafeAct facts (set_app_foreground out foreground)
  unfolding set_app_foreground
  set_app_foreground-Keeps foreground = search (step_rules, others, expire_session-Keeps) depth 8
