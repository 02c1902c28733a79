-- ===== src/Phone/Consent/Sound/Admit.antt =====
-- A request that arrives is filed under its own identity, and a refusal says no.
use ferusa.Base.{
  ℕ, ◌≡◌, refl, sym, Bool, true, false, Text, Option, none, some, arith, Bool-cases, inl, inr,
}
use ferusa.Base.Action.{returned}
use ferusa.Base.Method.Keeps.{
  Gives, Keeps-bind, Keeps-pure, Keeps-if, Keeps-Gives, Keeps-attempt, Keeps-or_else, Keeps-update,
}
use ferusa.Core.Message.{AuthRequest}
use ferusa.Phone.Session.State.{AppState, Secrets}
use ferusa.Phone.Session.Requests.{PendingIdentity, Slot, remember_request_id}
use ferusa.Phone.Consent.Desk.{Outside, draw}
use ferusa.Phone.Consent.Admit.{
  Admission, stored, identity_of, admit, take_hidden, is_authorized_auth_peer, close_connection,
  hide_request, emit_request, after_admission, admit_on, store_request, check_pairing, active,
  serve_request,
}
use ferusa.Phone.Consent.Sound.{Facts, Filed, Safe, SafeAct, OthersKeep}
use ferusa.Phone.Consent.Sound.Steps.{
  step_rules, with_slot-Keeps, wait-Keeps, draw-Keeps, app-Keeps,
}
use ferusa.Phone.Consent.Sound.Answering.{
  send_signed_response-Keeps, approval_key_auth_is_current-Keeps,
}
use ferusa.Phone.Consent.Sound.Expiry.{deny_taken-Keeps, ensure_active_session-Keeps}

module _ {X : Type 0} (facts : Facts) (out : Outside X) (others : OthersKeep facts out) where
  is_authorized_auth_peer-Keeps :
      (remote : Text) → SafeAct facts (is_authorized_auth_peer out remote)
  unfolding is_authorized_auth_peer
  is_authorized_auth_peer-Keeps remote = search (step_rules, others) depth 9

  close_connection-Keeps : SafeAct facts (close_connection out)
  close_connection-Keeps = Keeps-bind _ _ (Keeps-attempt _ others.close_law) (λ _. Keeps-pure _)

  unhidden :
      (identity : PendingIdentity) (s : AppState) (slot : Slot AuthRequest)
      → Filed facts slot
      → Filed facts (take_hidden identity slot).1
  unfolding take_hidden
  unhidden identity s none h = tt
  unhidden identity s (some p) h = ground (arith, h)

  hide_request-Keeps :
      (identity : PendingIdentity) (alias : Text) → SafeAct facts (hide_request out identity alias)
  unfolding hide_request
  hide_request-Keeps identity alias = Keeps-bind _ _ (wait-Keeps facts out others) (λ _.
      Keeps-bind _ _ (with_slot-Keeps facts _ (unhidden identity)) (λ slot.
        Keeps-bind _ _ (deny_taken-Keeps facts out others slot (some alias)) (λ _. Keeps-pure _)))

  after_admission-Keeps :
      (req : AuthRequest) (identity : PendingIdentity) (alias : Text) (authenticated : Bool)
      (admission : Admission)
      → SafeAct facts (after_admission out req identity alias authenticated admission)
  unfolding after_admission emit_request
  after_admission-Keeps req identity alias authenticated stored =
      Keeps-or_else _ _ (Keeps-bind _ _ others.emit_law (λ _. Keeps-pure _))
        (λ _. hide_request-Keeps identity alias)
  after_admission-Keeps req identity alias true rejected =
      Keeps-bind _ _
        (Keeps-attempt _
          (send_signed_response-Keeps facts out others alias req false none (λ e. cc)))
        (λ _. Keeps-pure _)
  after_admission-Keeps req identity alias false rejected = Keeps-pure _

  admitted :
      (req : AuthRequest) (identity : PendingIdentity) (s : AppState) (slot : Slot AuthRequest)
      → req ≡ facts.contents identity
      → Filed facts slot
      → Filed facts (admit req identity s slot).2
  unfolding admit
  admitted req identity s none e h =
      elim (Bool-cases
        (remember_request_id s.recent_request_ids req.request_id identity.created_at).1) [
          | inl fresh ↦ rw fresh e
          | inr old ↦ rw old tt
        ]
  admitted req identity s (some p) e h = h

  admit_on-Keeps :
      (req : AuthRequest) (identity : PendingIdentity)
      → req ≡ facts.contents identity
      → SafeAct facts (admit_on out req identity)
  unfolding admit_on
  admit_on-Keeps req identity e =
      Keeps-update _
        (λ s h. record { filed = admitted req identity s.app s.slot e h.filed; meant = h.meant })

  module _ (req : AuthRequest)
      (drawn : (x : X) (generation now : ℕ)
        → facts.contents (identity_of req (out.new_v4 x).0 generation now) ≡ req) where
    drawn_id : Gives (Safe facts) (λ n. (x : X) × (n ≡ (out.new_v4 x).0)) (draw out.new_v4)
    unfolding draw
    drawn_id = record { at = λ s h. returned (h, (s.world, refl)) }

    store_request-Keeps :
        (alias : Text) (authenticated : Bool)
        → SafeAct facts (store_request out req alias authenticated)
    unfolding store_request
    store_request-Keeps alias authenticated = Keeps-bind _ _ (wait-Keeps facts out others) (λ _.
        Keeps-bind _ _ (app-Keeps facts) (λ s. Keeps-if _ _ _ close_connection-Keeps (
          Keeps-Gives _ _ drawn_id (λ n d. Keeps-bind _ _ (draw-Keeps facts out.now) (λ now.
            Keeps-bind _ _
              (admit_on-Keeps req _ (rw d.1 (sym (drawn d.0 s.session_generation now))))
              (λ admission. after_admission-Keeps req _ alias authenticated admission))))))

    check_pairing-Keeps : (secrets : Option Secrets) → SafeAct facts (check_pairing out req secrets)
    unfolding check_pairing
    check_pairing-Keeps none = close_connection-Keeps
    check_pairing-Keeps (some secrets) =
        Keeps-bind _ _ (approval_key_auth_is_current-Keeps facts out others) (λ authenticated.
          Keeps-if _ _ _ close_connection-Keeps
            (store_request-Keeps secrets.approval_key_alias authenticated))

    active-Keeps : SafeAct facts (active out)
    unfolding active
    active-Keeps =
        Keeps-or_else _ _
          (Keeps-bind _ _ (ensure_active_session-Keeps facts out others) (λ _. Keeps-pure _))
          (λ _. Keeps-pure _)

    -- Where the instance ids that are drawn for the request are its own, serving it leaves
    -- in the slot what was admitted, and what the approval key was asked for is meant.
    pub serve_request-Keeps : (remote : Text) → SafeAct facts (serve_request out remote req)
    unfolding serve_request
    serve_request-Keeps remote =
        Keeps-bind _ _ (is_authorized_auth_peer-Keeps remote) (λ authorized.
          Keeps-if _ _ _ close_connection-Keeps (
            Keeps-bind _ _ (draw-Keeps facts out.current_time_ms) (λ date.
              Keeps-if _ _ _ close_connection-Keeps (
                Keeps-bind _ _ active-Keeps (λ going. Keeps-if _ _ _ close_connection-Keeps (
                  Keeps-bind _ _ (wait-Keeps facts out others) (λ _.
                    Keeps-bind _ _ (app-Keeps facts) (λ s. check_pairing-Keeps s.secrets))))))))
