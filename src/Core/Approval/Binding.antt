-- ===== src/Core/Approval/Binding.antt =====
-- What a signature that verifies says of the phone. The approval key signs two kinds of text:
-- approvals, and `ferusa-pairing-ready/v4/` with a pairing id.
use ferusa.Base.{
  subst, ℕ, ◌≡◌, ap, ◌∙◌, sym, true, Option, none, some, [], ◌∷◌, ◌++◌, Text, codes, arith, inl,
  inr, Option-cases,
}
use ferusa.Core.Message.{AuthRequest, AuthResponse}
use ferusa.Core.Approval.{
  Signing, ApprovalPayload, canonical_approval_payload, verify_approval_signature,
}

-- The first byte.
abbrev pub head : Text → Option ℕ
head [] = none
head (b ∷ rest) = some b

-- A text that the phone signs: an approval that it has decided, or a pairing-ready text.
pub data Signed (lib : Signing) (Decided : AuthRequest → AuthResponse → Type 0) (m : Text)
    : Type 0 where
  approval :
      (q : AuthRequest) (r : AuthResponse)
      → Decided q r
      → canonical_approval_payload lib q r ≡ some m
      → Signed lib Decided m
  pairing_ready : (id : Text) → m ≡ codes "ferusa-pairing-ready/v4/" ++ id → Signed lib Decided m

-- serde_json prints a struct as an object, and different payloads differently.
pub record JsonLaws (lib : Signing) : Type 0 where
  pub object : (p : ApprovalPayload) (t : Text) → lib.payload_to_vec p ≡ some t → head t ≡ some b'{'
  pub injective :
      (p q : ApprovalPayload) (t : Text)
      → lib.payload_to_vec p ≡ some t
      → lib.payload_to_vec q ≡ some t
      → p ≡ q

-- A decision of the phone on exactly this request and response, whatever its signature.
pub record DecidedOn (Decided : AuthRequest → AuthResponse → Type 0) (req : AuthRequest)
    (resp : AuthResponse) : Type 0 where
  pub signed_response : AuthResponse
  pub decided : Decided req signed_response
  pub same_approved : signed_response.approved ≡ resp.approved
  pub same_share : signed_response.unlock_share ≡ resp.unlock_share
  pub same_action : signed_response.action ≡ resp.action
  pub same_timestamp : signed_response.timestamp ≡ resp.timestamp

module _ (lib : Signing) (laws : JsonLaws lib) (key : Text)
    (Decided : AuthRequest → AuthResponse → Type 0) where
  -- No signature verifies under the key except on what the phone has signed.
  abbrev pub IsUnforgeable : Type 0
  IsUnforgeable = (m sig : Text) → lib.verify key m sig ≡ true → Signed lib Decided m

  absurd_head : ◌≡◌ {A = Option ℕ} (some b'{') (some b'f') → ⊥
  absurd_head h = ground arith

  not_ready :
      (p : ApprovalPayload) (m id : Text)
      → lib.payload_to_vec p ≡ some m
      → m ≡ codes "ferusa-pairing-ready/v4/" ++ id
      → ⊥
  not_ready p m id h e = absurd_head (sym (laws.object p m h) ∙ ap head e)

  Signed-DecidedOn :
      (req : AuthRequest) (resp : AuthResponse) (m : Text)
      → canonical_approval_payload lib req resp ≡ some m
      → Signed lib Decided m
      → DecidedOn Decided req resp
  unfolding canonical_approval_payload
  Signed-DecidedOn req resp m h (pairing_ready id e) = absurd (not_ready _ m id h e)
  Signed-DecidedOn req resp m h (approval q r d k) =
      let p = laws.injective _ _ m k h in
      record {
        signed_response = r;
        decided = subst (λ x. Decided x r) (ap ApprovalPayload.request p) d;
        same_approved = ap (λ x. x.response.approved) p;
        same_share = ap (λ x. x.response.unlock_share) p;
        same_action = ap (λ x. x.response.action) p;
        same_timestamp = ap (λ x. x.response.timestamp) p;
      }

  unsigned :
      (req : AuthRequest) (resp : AuthResponse)
      → canonical_approval_payload lib req resp ≡ none
      → verify_approval_signature lib key req resp ≡ true
      → ⊥
  unfolding verify_approval_signature
  unsigned req resp e h = ground arith

  signed :
      (req : AuthRequest) (resp : AuthResponse) (m : Text)
      → canonical_approval_payload lib req resp ≡ some m
      → verify_approval_signature lib key req resp ≡ true
      → lib.verify key m resp.signature ≡ true
  unfolding verify_approval_signature
  signed req resp m e h = ground arith

  -- A response whose signature verifies was decided by the phone for this very request; a signature
  -- on a pairing-ready text cannot stand in for one.
  pub verify-DecidedOn :
      IsUnforgeable
      → (req : AuthRequest) (resp : AuthResponse)
      → verify_approval_signature lib key req resp ≡ true
      → DecidedOn Decided req resp
  verify-DecidedOn unforgeable req resp h =
      elim (Option-cases (canonical_approval_payload lib req resp)) [
        | inl e ↦ absurd (unsigned req resp e h)
        | inr (m, e) ↦
            Signed-DecidedOn req resp m e (unforgeable m resp.signature (signed req resp m e h))
      ]
