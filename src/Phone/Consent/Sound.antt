-- ===== src/Phone/Consent/Sound.antt =====
-- What is kept true while requests come and go: the slot holds what was admitted, and the approval
-- key is asked for an approval only with the user's consent.
use ferusa.Base.{
  ℕ, ◌≡◌, Bool, true, false, List, [], ◌∷◌, Text, Option, none, some, is_some, if◌then◌else◌,
  Result, ok, err,
}
pub mod Steps
pub mod Answering
pub mod Taking
pub mod Expiry
pub mod Checking
pub mod Approve
pub mod Admit
use ferusa.Base.Method.Keeps.{Keeps, Gives}
use ferusa.Core.Message.{AuthRequest, AuthResponse}
use ferusa.Phone.Session.State.{AppError, Secrets}
use ferusa.Phone.Session.Requests.{PendingRequest, PendingIdentity, Slot}
use ferusa.Phone.Throttle.Attempt.{AttemptStore}
use ferusa.Phone.Throttle.Cooldown.{PinAttemptState}
use ferusa.Phone.Consent.Desk.{PinKind, Ask, Desk, Act, Outside}
use ferusa.Phone.Consent.Answering.{pin_kind_for_action, pin_hash}

-- What is said of requests from outside the handlers: the request that was admitted under an
-- identity, the PINs that the user has entered for a request id, and the PINs that are right for a
-- hash.
pub record Facts : Type 1 where
  pub show_id : ℕ → Text
  pub contents : PendingIdentity → AuthRequest
  pub Entered : Text → Text → Type 0
  pub IsRight : Text → Text → Type 0

module _ (facts : Facts) where
  open facts use {show_id, contents, Entered, IsRight}

  -- The user has entered a right PIN for this request, of the kind that its action wants, and the
  -- key belongs to the same pairing as the PIN's hash.
  pub record HasConsent (alias : Text) (request : AuthRequest) : Type 0 where
    pub secrets : Secrets
    pub pin : Text
    pub entered : Entered (show_id request.request_id) pin
    pub right : IsRight pin (pin_hash (pin_kind_for_action request.action) secrets)
    pub same_key : alias ≡ secrets.approval_key_alias

  -- A response says yes only with consent, and carries a share only if it says yes and was asked
  -- for one.
  pub record IsMeant (a : Ask) : Type 0 where
    pub consent : a.response.approved ≡ true → HasConsent a.alias a.request
    pub share :
        is_some a.response.unlock_share ≡ true
        → (a.response.approved ≡ true) × (a.request.unlock_share_requested ≡ true)

  abbrev pub AllMeant : List Ask → Type 0
  AllMeant [] = Unit
  AllMeant (a ∷ rest) = IsMeant a × AllMeant rest

  abbrev pub Filed : Slot AuthRequest → Type 0
  Filed none = Unit
  Filed (some p) = p.request ≡ contents p.identity

  pub record IsSound (slot : Slot AuthRequest) (asked : List Ask) : Type 0 where
    pub filed : Filed slot
    pub meant : AllMeant asked

  module _ {X : Type 0} where
    abbrev pub Safe : Desk X → Type 0
    Safe s = IsSound s.slot s.asked

    abbrev pub SafeAct : {A : Type 0} → Act X A → Type 0
    SafeAct m = Keeps Safe m

    -- What the store of one PIN's failed attempts leaves alone, and when its check may say yes.
    pub record AttemptsKeep (pin hash : Text) (store : AttemptStore (Desk X) AppError)
        : Type 0 where
      pub load_law : SafeAct store.load
      pub save_law : (p : PinAttemptState) → SafeAct (store.save p)
      pub clear_law : SafeAct store.clear
      pub clock_law : SafeAct store.clock_snapshot
      pub verify_law : Gives Safe (λ b. b ≡ true → IsRight pin hash) store.verify_pin

    -- Whatever other tasks do during a call, they keep the desk safe, as the handlers themselves do.
    pub record OthersKeep (out : Outside X) : Type 0 where
      pub same_ids : (id : ℕ) → out.show_id id ≡ show_id id
      pub pause_law : (s : Desk X) → Safe s → Safe (out.pause s)
      pub biometric_law : SafeAct out.require_biometric
      pub sign_law : (alias payload : Text) → SafeAct (out.sign_approval alias payload)
      pub send_law : (resp : AuthResponse) → SafeAct (out.send_response resp)
      pub close_law : SafeAct out.close
      pub emit_law : SafeAct out.emit
      pub attempts_law :
          (kind : PinKind) (pin hash : Text) → AttemptsKeep pin hash (out.attempts kind pin hash)
