-- ===== src/Phone/Consent/History.antt =====
-- Requests, approvals, locks and expiries in any order.
use ferusa.Base.{ℕ, ◌≡◌, ◌∙◌, ap, subst, Bool, true, List, [], ◌∷◌, ◌⊎◌, inl, inr, Text, none}
use ferusa.Core.Message.{AuthRequest, AuthResponse}
use ferusa.Phone.Session.Requests.{PendingIdentity}
use ferusa.Phone.Consent.Desk.{Ask, Desk, Outside}
use ferusa.Phone.Consent.Expiry.{pending_expiry, session_expiry, lock_command, set_app_foreground}
use ferusa.Phone.Consent.Approve.{ApprovePayload, approve_request}
use ferusa.Phone.Consent.Admit.{identity_of, serve_request}
use ferusa.Phone.Consent.Sound.{Facts, HasConsent, AllMeant, Safe, OthersKeep}
use ferusa.Phone.Consent.Sound.Expiry.{
  pending_expiry-Keeps, session_expiry-Keeps, lock_command-Keeps, set_app_foreground-Keeps,
}
use ferusa.Phone.Consent.Sound.Approve.{approve_request-Keeps}
use ferusa.Phone.Consent.Sound.Admit.{serve_request-Keeps}

module _ (facts : Facts) {X : Type 0} where
  -- A whole run of a handler. The user has entered the PIN of an approval, and the instance ids
  -- that are drawn for a request are its own.
  pub data Step (s : Desk X) : Desk X → Type 0 where
    approves :
        (out : Outside X)
        → OthersKeep facts out
        → (payload : ApprovePayload) → facts.Entered payload.request_id payload.pin
        → Step s (approve_request out payload s).1
    serves :
        (out : Outside X)
        → OthersKeep facts out
        → (remote : Text) (req : AuthRequest)
        → ((x : X) (generation now : ℕ)
            → facts.contents (identity_of req (out.new_v4 x).0 generation now) ≡ req)
        → Step s (serve_request out remote req s).1
    request_expires :
        (out : Outside X)
        → OthersKeep facts out
        → (identity : PendingIdentity) → Step s (pending_expiry out identity s).1
    session_expires :
        (out : Outside X)
        → OthersKeep facts out
        → (generation : ℕ) → Step s (session_expiry out generation s).1
    locks : (out : Outside X) → OthersKeep facts out → Step s (lock_command out s).1
    moves :
        (out : Outside X)
        → OthersKeep facts out
        → (foreground : Bool) → Step s (set_app_foreground out foreground s).1

  pub data Reach (s : Desk X) : Desk X → Type 0 where
    start : Reach s s
    next : {t u : Desk X} → Reach s t → Step t u → Reach s u

  Step-Safe : {s t : Desk X} → Step s t → Safe facts s → Safe facts t
  Step-Safe (approves out others payload e) h =
      (approve_request-Keeps facts out others payload e).at _ h
  Step-Safe (serves out others remote req d) h =
      (serve_request-Keeps facts out others req d remote).at _ h
  Step-Safe (request_expires out others identity) h =
      (pending_expiry-Keeps facts out others identity).at _ h
  Step-Safe (session_expires out others generation) h =
      (session_expiry-Keeps facts out others generation).at _ h
  Step-Safe (locks out others) h = (lock_command-Keeps facts out others).at _ h
  Step-Safe (moves out others foreground) h =
      (set_app_foreground-Keeps facts out others foreground).at _ h

  pub Reach-Safe : {s t : Desk X} → s.slot ≡ none → s.asked ≡ [] → Reach s t → Safe facts t
  Reach-Safe {s = s} e f start = rw (e, f) (record { filed = tt; meant = tt })
  Reach-Safe e f (next r st) = Step-Safe st (Reach-Safe e f r)

-- What the approval key was asked for.
abbrev pub WasAsked : List Ask → AuthRequest → AuthResponse → Type 0
WasAsked [] q r = ⊥
WasAsked (a ∷ rest) q r = ((a.request ≡ q) × (a.response ≡ r)) ⊎ WasAsked rest q r

pub WasAsked-HasConsent :
    (facts : Facts) (asked : List Ask) (q : AuthRequest) (r : AuthResponse)
    → AllMeant facts asked
    → WasAsked asked q r
    → r.approved ≡ true
    → (alias : Text) × HasConsent facts alias q
WasAsked-HasConsent facts [] q r m w h = absurd w
WasAsked-HasConsent facts (a ∷ rest) q r m (inl w) h =
    (a.alias, subst (HasConsent facts a.alias) w.0 (m.0.consent (ap (λ x. x.approved) w.1 ∙ h)))
WasAsked-HasConsent facts (a ∷ rest) q r m (inr w) h = WasAsked-HasConsent facts rest q r m.1 w h
