-- ===== src/Phone/Consent/Sound/Answering.antt =====
-- Signing, denying, putting back and taking keep the desk safe.
use ferusa.Base.{ℕ, ◌≡◌, ◌∙◌, sym, Bool, true, false, Text, Option, none, some, ok, is_some, arith}
use ferusa.Base.Method.{◌>>=◌}
use ferusa.Base.Method.Keeps.{
  Keeps-bind, Keeps-Gives, Keeps-or_else, Gives-lift, Keeps-lift, Keeps-fail,
}
use ferusa.Core.Message.{AuthRequest, AuthResponse}
use ferusa.Phone.Session.State.{AppError, AppState, approval_key_auth_required}
use ferusa.Phone.Session.Requests.{PendingRequest, Slot, restore_pending_after_sign_error}
use ferusa.Phone.Consent.Desk.{Outside}
use ferusa.Phone.Consent.Answering.{
  share_in_response, build_response_for_signing, ask_key, send_signed_response,
  current_authenticated_approval_alias, approval_key_auth_is_current, current_approval_alias,
  ensure_approval_key_auth, refresh_approval_key_auth, answer_taken, after_sign_error,
  clear_approval_key_authenticated, restore_pending,
}
use ferusa.Phone.Consent.Sound.{Facts, Filed, HasConsent, IsMeant, SafeAct, OthersKeep}
use ferusa.Phone.Consent.Sound.Steps.{
  step_rules, with_slot-Keeps, on_app-Keeps, wait-Keeps, draw-Keeps,
}

-- What is known of a response that was built.
record IsBuilt (req : AuthRequest) (approved : Bool) (resp : AuthResponse) : Type 0 where
  same_approved : resp.approved ≡ approved
  share :
      is_some resp.unlock_share ≡ true
      → (resp.approved ≡ true) × (req.unlock_share_requested ≡ true)

built :
    (req : AuthRequest) (approved : Bool) (share : Option Text) (timestamp : ℕ)
    (resp : AuthResponse)
    → build_response_for_signing req approved share timestamp ≡ ok resp
    → IsBuilt req approved resp
unfolding build_response_for_signing share_in_response
built req true none timestamp resp h = record { same_approved = ground arith; share = ground arith }
built req true (some x) timestamp resp h = record {
  same_approved = ground arith;
  share = ground arith;
}
built req false share timestamp resp h = record {
  same_approved = ground arith;
  share = ground arith;
}

module _ {X : Type 0} (facts : Facts) (out : Outside X) (others : OthersKeep facts out) where
  ask_key-Keeps :
      (alias : Text) (req : AuthRequest) (resp : AuthResponse) (payload : Text)
      → IsMeant facts (record { alias = alias; request = req; response = resp })
      → SafeAct facts (ask_key out alias req resp payload)
  unfolding ask_key ◌>>=◌
  ask_key-Keeps alias req resp payload m = record {
    at = λ s h.
        (others.sign_law alias payload).at _ (record { filed = h.filed; meant = (m, h.meant) });
  }

  -- An answer that says yes needs the user's consent; one that says no needs nothing.
  pub send_signed_response-Keeps :
      (alias : Text) (req : AuthRequest) (approved : Bool) (share : Option Text)
      → (approved ≡ true → HasConsent facts alias req)
      → SafeAct facts (send_signed_response out alias req approved share)
  unfolding send_signed_response
  send_signed_response-Keeps alias req approved share consent =
      Keeps-bind _ _ (draw-Keeps facts _) (λ timestamp.
        Keeps-Gives _ _ (Gives-lift _ (built req approved share timestamp)) (λ resp b.
          Keeps-bind _ _ (Keeps-lift _) (λ payload.
            Keeps-bind _ _
              (ask_key-Keeps alias req resp payload (record {
                consent = λ yes'. consent (sym b.same_approved ∙ yes');
                share = b.share;
              }))
              (λ signature. others.send_law _))))

  pub approval_key_auth_is_current-Keeps : SafeAct facts (approval_key_auth_is_current out)
  unfolding approval_key_auth_is_current
  approval_key_auth_is_current-Keeps = search (step_rules, others) depth 9

  current_approval_alias-Keeps : SafeAct facts (current_approval_alias out)
  unfolding current_approval_alias
  current_approval_alias-Keeps = search (step_rules, others) depth 9

  pub current_authenticated_approval_alias-Keeps :
      SafeAct facts (current_authenticated_approval_alias out)
  unfolding current_authenticated_approval_alias
  current_authenticated_approval_alias-Keeps =
      search (step_rules, approval_key_auth_is_current-Keeps, current_approval_alias-Keeps) depth 9

  refresh_approval_key_auth-Keeps : (n : ℕ) → SafeAct facts (refresh_approval_key_auth out n)
  unfolding refresh_approval_key_auth
  refresh_approval_key_auth-Keeps n = Keeps-bind _ _ others.biometric_law (λ _.
      Keeps-bind _ _ (wait-Keeps facts out others)
        (λ _. Keeps-bind _ _ (draw-Keeps facts out.now) (λ now. on_app-Keeps facts _)))

  pub ensure_approval_key_auth-Keeps : SafeAct facts (ensure_approval_key_auth out)
  unfolding ensure_approval_key_auth
  ensure_approval_key_auth-Keeps =
      search
        (step_rules, others, approval_key_auth_is_current-Keeps, refresh_approval_key_auth-Keeps)
        depth 9

  restored :
      (p : PendingRequest AuthRequest) (now : ℕ)
      → p.request ≡ facts.contents p.identity
      → (t : AppState) (slot : Slot AuthRequest) → Filed facts slot
      → Filed facts (restore_pending_after_sign_error t p now slot)
  unfolding restore_pending_after_sign_error
  restored p now e t none h = ground (arith, e)
  restored p now e t (some q) h = ground (arith, h)

  restore_pending-Keeps :
      (p : PendingRequest AuthRequest)
      → p.request ≡ facts.contents p.identity
      → SafeAct facts (restore_pending out p)
  unfolding restore_pending
  restore_pending-Keeps p h = Keeps-bind _ _ (wait-Keeps facts out others) (λ _.
      Keeps-bind _ _ (draw-Keeps facts out.now) (λ now. with_slot-Keeps facts _ (restored p now h)))

  clear_approval_key_authenticated-Keeps : SafeAct facts (clear_approval_key_authenticated out)
  unfolding clear_approval_key_authenticated
  clear_approval_key_authenticated-Keeps = search (step_rules, others)

  after_sign_error-Keeps :
      (p : PendingRequest AuthRequest) (e : AppError)
      → p.request ≡ facts.contents p.identity
      → SafeAct facts (after_sign_error out p e)
  unfolding after_sign_error
  after_sign_error-Keeps p approval_key_auth_required h =
      Keeps-bind _ _ clear_approval_key_authenticated-Keeps
        (λ _. Keeps-bind _ _ (restore_pending-Keeps p h) (λ _. Keeps-fail _))
  after_sign_error-Keeps p e h = search step_rules

  pub answer_taken-Keeps :
      (alias : Text) (p : PendingRequest AuthRequest) (approved : Bool) (share : Option Text)
      → p.request ≡ facts.contents p.identity
      → (approved ≡ true → HasConsent facts alias p.request)
      → SafeAct facts (answer_taken out alias p approved share)
  unfolding answer_taken
  answer_taken-Keeps alias p approved share e consent =
      Keeps-or_else _ _ (send_signed_response-Keeps alias p.request approved share consent)
        (λ x. after_sign_error-Keeps p x e)
