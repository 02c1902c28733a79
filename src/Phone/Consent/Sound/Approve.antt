-- ===== src/Phone/Consent/Sound/Approve.antt =====
-- An approval is signed only with consent, however the handler and other tasks come in turn.
use ferusa.Base.{
  ℕ, ◌≡◌, ◌∙◌, refl, sym, ap, subst, Bool, true, false, Text, text_eq, text_eq_sound, Option, none,
  some, Bool-cases, inl, inr,
}
use ferusa.Base.Action.{Ensures, returned, failed}
use ferusa.Base.Method.Keeps.{
  Keeps-bind, Keeps-pure, Keeps-fail, Keeps-lift, Keeps-if, Keeps-Gives, Keeps-attempt,
}
use ferusa.Core.Message.{AuthRequest}
use ferusa.Phone.Session.State.{AppState, Secrets}
use ferusa.Phone.Session.Requests.{PendingRequest, PendingIdentity, Slot, is_current}
use ferusa.Phone.Throttle.Attempt.{
  PinVerificationOutcome, verified, incorrect, cooldown_started, cooldown_active,
}
use ferusa.Phone.Consent.Desk.{PinKind, Outside}
use ferusa.Phone.Consent.Answering.{pin_kind_for_action, pin_hash}
use ferusa.Phone.Consent.Approve.{
  ApprovePayload, pending_to_approve, deny_after_cooldown, in_background, share_of, share_for,
  approve_taken, approve_verified, after_pin, approve_request,
}
use ferusa.Phone.Consent.Sound.{Facts, Filed, HasConsent, SafeAct, OthersKeep}
use ferusa.Phone.Consent.Sound.Steps.{
  step_rules, with_slot-Gives, wait-Keeps, draw-Keeps, app-Keeps,
}
use ferusa.Phone.Consent.Sound.Answering.{ensure_approval_key_auth-Keeps, answer_taken-Keeps}
use ferusa.Phone.Consent.Sound.Taking.{IsTaken, take_pending-Gives}
use ferusa.Phone.Consent.Sound.Checking.{verify-Gives}
use ferusa.Phone.Consent.Sound.Expiry.{lock_app-Keeps, ensure_active_session-Keeps}

module _ {X : Type 0} (facts : Facts) (out : Outside X) (others : OthersKeep facts out) where
  deny_after_cooldown-Keeps :
      (alias : Text) (identity : PendingIdentity) (ms : ℕ)
      → SafeAct facts (deny_after_cooldown out alias identity ms)
  unfolding deny_after_cooldown
  deny_after_cooldown-Keeps alias identity ms =
      Keeps-bind _ _ (ensure_approval_key_auth-Keeps facts out others) (λ _.
        Keeps-Gives _ _ (take_pending-Gives facts out others identity) (λ p t.
          Keeps-bind _ _ (answer_taken-Keeps facts out others alias p false none t.0 (λ e. cc))
            (λ _.
              Keeps-bind _ _ (lock_app-Keeps facts out others)
                (λ _. Keeps-bind _ _ (Keeps-attempt _ others.emit_law) (λ _. Keeps-fail _)))))

  in_background-Keeps : SafeAct facts (in_background out)
  unfolding in_background
  in_background-Keeps = search (step_rules, others.close_law, lock_app-Keeps facts out others)

  some_share : (o : Option Secrets) → SafeAct facts (share_of out o)
  unfolding share_of
  some_share none = search (step_rules, others.close_law)
  some_share (some secrets) = Keeps-pure _

  share_for-Keeps : (requested : Bool) → SafeAct facts (share_for out requested)
  unfolding share_for
  share_for-Keeps false = Keeps-pure none
  share_for-Keeps true = search (step_rules, others, some_share)

  -- The PIN that was checked is the consent to the request that was admitted under the identity.
  module _ (alias : Text) (identity : PendingIdentity) where
    approve_taken-Keeps :
        (p : PendingRequest AuthRequest)
        → IsTaken facts out others identity p
        → HasConsent facts alias (facts.contents identity)
        → SafeAct facts (approve_taken out alias identity p)
    unfolding approve_taken
    approve_taken-Keeps p t consent = Keeps-bind _ _ (app-Keeps facts) (λ s.
        Keeps-if _ _ _ in_background-Keeps (
          Keeps-bind _ _ (share_for-Keeps _) (λ share.
            Keeps-bind _ _ (draw-Keeps facts out.now) (λ now.
              Keeps-if _ _ _ (Keeps-bind _ _ others.close_law (λ _. Keeps-fail _)) (
                answer_taken-Keeps facts out others alias p true share t.0
                  (λ _. subst (HasConsent facts alias) (sym t.1) consent))))))

    after_pin-Keeps :
        (outcome : PinVerificationOutcome)
        → (outcome ≡ verified → HasConsent facts alias (facts.contents identity))
        → SafeAct facts (after_pin out alias identity outcome)
    unfolding after_pin approve_verified
    after_pin-Keeps (cooldown_active ms) consent = deny_after_cooldown-Keeps alias identity ms
    after_pin-Keeps incorrect consent = Keeps-fail _
    after_pin-Keeps (cooldown_started ms) consent = deny_after_cooldown-Keeps alias identity ms
    after_pin-Keeps verified consent =
        Keeps-bind _ _ (ensure_approval_key_auth-Keeps facts out others) (λ _.
          Keeps-Gives _ _ (take_pending-Gives facts out others identity)
            (λ p t. approve_taken-Keeps p t (consent refl)))

  -- What is known of the pending request that the payload names.
  record IsFound (request_id : Text) (found : PinKind × PendingIdentity) : Type 0 where
    same_kind : found.0 ≡ pin_kind_for_action (facts.contents found.1).action
    same_id : facts.show_id (facts.contents found.1).request_id ≡ request_id

  found :
      (request_id : Text) (now : ℕ) (s : AppState) (slot : Slot AuthRequest)
      → Filed facts slot
      → Ensures
          (λ f slot'. Filed facts slot' × IsFound request_id f)
          (Filed facts)
          (pending_to_approve out request_id now slot, slot)
  unfolding pending_to_approve
  found request_id now s none h = failed h
  found request_id now s (some p) h =
      elim (Bool-cases (text_eq (out.show_id p.request.request_id) request_id)) [
        | inr e ↦ rw e (failed h)
        | inl e ↦ elim (Bool-cases (is_current p.identity p.identity now)) [
          | inr f ↦ rw (e, f) (failed h)
          | inl f ↦
              rw (e, f)
                (returned (
                  h,
                  record {
                    same_kind = ap (λ q. pin_kind_for_action q.action) h;
                    same_id =
                        ap (λ q. facts.show_id q.request_id) (sym h)
                        ∙ sym (others.same_ids p.request.request_id)
                        ∙ text_eq_sound _ _ e;
                  },
                ))
        ]
      ]

  -- Where the user has entered the payload's PIN for the request that it names, a run of
  -- `approve_request` leaves in the slot what was admitted, and all that the approval key was asked
  -- for is meant: whatever says yes has the user's consent, and a share goes only with a yes to a
  -- request for it. Other tasks may run at every wait.
  pub approve_request-Keeps :
      (payload : ApprovePayload)
      → facts.Entered payload.request_id payload.pin
      → SafeAct facts (approve_request out payload)
  unfolding approve_request
  approve_request-Keeps payload entered =
      Keeps-bind _ _ (ensure_active_session-Keeps facts out others) (λ _.
        Keeps-bind _ _ (wait-Keeps facts out others) (λ _.
          Keeps-bind _ _ (draw-Keeps facts out.now) (λ now.
            Keeps-Gives _ _ (with_slot-Gives facts _ (found payload.request_id now)) (λ f k.
              Keeps-bind _ _ (wait-Keeps facts out others) (λ _.
                Keeps-bind _ _ (app-Keeps facts) (λ s. Keeps-bind _ _ (Keeps-lift _) (λ secrets.
                  Keeps-bind _ _ (Keeps-lift _) (λ _.
                    Keeps-Gives _ _
                      (verify-Gives facts payload.pin (pin_hash f.0 secrets) _
                        (others.attempts_law f.0 payload.pin _))
                      (λ outcome right. after_pin-Keeps secrets.approval_key_alias f.1 outcome (λ e.
                        record {
                          secrets = secrets;
                          pin = payload.pin;
                          entered =
                              subst (λ id. facts.Entered id payload.pin) (sym k.same_id) entered;
                          right =
                              subst (λ kind. facts.IsRight payload.pin (pin_hash kind secrets))
                                k.same_kind (right e);
                          same_key = refl;
                        }))))))))))
