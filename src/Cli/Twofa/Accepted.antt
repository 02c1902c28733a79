-- ===== src/Cli/Twofa/Accepted.antt =====
-- What a response has to be for the desktop to go on.
use ferusa.Base.{
  zero, suc, ap, ℕ, ◌≡◌, refl, sym, ◌∙◌, Bool, true, false, ◌==◌, Result, ok, err, and_then, arith,
  ◌↔◌,
}
use ferusa.Core.Message.{
  VaultAction, AuthRequest, AuthResponse, action_eq, discriminant, unlock, list, read, create,
  update, delete, passwd, pair,
}
use ferusa.Core.Approval.{Signing, verify_approval_signature, AuthTimestampError}
use ferusa.Core.Approval.Window.{IsFresh, exchange_iff}
use ferusa.Core.Approval.Binding.{JsonLaws, DecidedOn, IsUnforgeable, verify-DecidedOn}
use ferusa.Cli.Twofa.{
  TwofaError, PairingData, Check, require, skew, ensure_pairing_generation, validate_auth_exchange,
  validate_response,
}

pub record IsAccepted (lib : Signing) (now_ms : ℕ) (req : AuthRequest) (pairing : PairingData)
    (resp : AuthResponse) : Type 0 where
  pub request_paired : req.pairing_id ≡ pairing.pairing_id
  pub response_paired : resp.pairing_id ≡ pairing.pairing_id
  pub same_id : resp.request_id ≡ req.request_id
  pub signed : verify_approval_signature lib pairing.approval_public_key_der req resp ≡ true
  pub request_fresh : IsFresh req.timestamp now_ms
  pub response_fresh : IsFresh resp.timestamp now_ms
  pub same_code : resp.correlation_code ≡ req.correlation_code
  pub same_action : resp.action ≡ req.action
  pub approved : resp.approved ≡ true

and_then_ok : (c d : Check) → (and_then c (λ _. d) ≡ ok tt) ↔ ((c ≡ ok tt) × (d ≡ ok tt))
and_then_ok (ok tt) d = (λ h. (refl, h), λ h. h.1)
and_then_ok (err e) d = (λ h. absurd (no e h), λ h. absurd (no e h.0))
  where
    no : (e : TwofaError) → ◌≡◌ {A = Check} (err e) (ok tt) → ⊥
    no e h = ground arith

require_iff : (b : Bool) (e : TwofaError) → (require b e ≡ ok tt) ↔ (b ≡ true)
require_iff true e = (λ h. refl, λ h. refl)
require_iff false e = (λ h. ground arith, λ h. ground arith)

generation_iff : (a b c : ℕ) → (ensure_pairing_generation a b c ≡ ok tt) ↔ ((b ≡ a) × (c ≡ a))
unfolding ensure_pairing_generation
generation_iff a b c = (λ h. (ground arith, ground arith), λ h. ground arith)

skew_iff : (r : Result AuthTimestampError (Unit {0})) → (skew r ≡ ok tt) ↔ (r ≡ ok tt)
skew_iff (ok tt) = (λ h. refl, λ h. refl)
skew_iff (err e) = (λ h. ground arith, λ h. ground arith)

exchange-IsFresh :
    (now : ℕ) (req : AuthRequest) (resp : AuthResponse)
    → (validate_auth_exchange now req resp ≡ ok tt)
      ↔ (IsFresh req.timestamp now × IsFresh resp.timestamp now)
unfolding validate_auth_exchange
exchange-IsFresh now req resp = (
  λ h. (exchange_iff req resp now).0 ((skew_iff _).0 h),
  λ h. (skew_iff _).1 ((exchange_iff req resp now).1 h),
)

eq_iff : (a b : ℕ) → ((a == b) ≡ true) ↔ (a ≡ b)
eq_iff a b = ground arith

pub of_discriminant : ℕ → VaultAction
of_discriminant zero = unlock
of_discriminant (suc zero) = list
of_discriminant (suc (suc zero)) = read
of_discriminant (suc (suc (suc zero))) = create
of_discriminant (suc (suc (suc (suc zero)))) = update
of_discriminant (suc (suc (suc (suc (suc zero))))) = delete
of_discriminant (suc (suc (suc (suc (suc (suc zero)))))) = passwd
of_discriminant n = pair

pub of-discriminant : (a : VaultAction) → of_discriminant (discriminant a) ≡ a
unfolding of_discriminant
of-discriminant unlock = refl
of-discriminant list = refl
of-discriminant read = refl
of-discriminant create = refl
of-discriminant update = refl
of-discriminant delete = refl
of-discriminant passwd = refl
of-discriminant pair = refl

action_iff : (a b : VaultAction) → (action_eq a b ≡ true) ↔ (a ≡ b)
action_iff a b = (
  λ h. sym (of-discriminant a) ∙ ap of_discriminant ((eq_iff _ _).0 h) ∙ of-discriminant b,
  λ e. (eq_iff _ _).1 (ap discriminant e),
)

-- A response is accepted exactly if it and the request are of the pairing in use, it answers this
-- request with its code and its action, its signature is valid under the phone's key, both are at
-- most five minutes from the clock, and it says yes.
pub validate_response_iff :
    (lib : Signing) (now_ms : ℕ) (req : AuthRequest) (pairing : PairingData) (resp : AuthResponse)
    → (validate_response lib now_ms req pairing resp ≡ ok tt)
      ↔ IsAccepted lib now_ms req pairing resp
unfolding validate_response
validate_response_iff lib now_ms req pairing resp = (
  λ h.
      let a = (and_then_ok _ _).0 h in
      let b = (and_then_ok _ _).0 a.1 in
      let c = (and_then_ok _ _).0 b.1 in
      let d = (and_then_ok _ _).0 c.1 in
      let e = (and_then_ok _ _).0 d.1 in
      let f = (and_then_ok _ _).0 e.1 in
      let g = (generation_iff _ _ _).0 a.0 in
      let t = (exchange-IsFresh now_ms req resp).0 d.0 in
      record {
        request_paired = g.0;
        response_paired = g.1;
        same_id = (eq_iff _ _).0 ((require_iff _ _).0 b.0);
        signed = (require_iff _ _).0 c.0;
        request_fresh = t.0;
        response_fresh = t.1;
        same_code = (eq_iff _ _).0 ((require_iff _ _).0 e.0);
        same_action = (action_iff _ _).0 ((require_iff _ _).0 f.0);
        approved = (require_iff _ _).0 f.1;
      },
  λ h. (and_then_ok _ _).1 (
    (generation_iff _ _ _).1 (h.request_paired, h.response_paired),
    (and_then_ok _ _).1 (
      (require_iff _ _).1 ((eq_iff _ _).1 h.same_id),
      (and_then_ok _ _).1 (
        (require_iff _ _).1 h.signed,
        (and_then_ok _ _).1 (
          (exchange-IsFresh now_ms req resp).1 (h.request_fresh, h.response_fresh),
          (and_then_ok _ _).1 (
            (require_iff _ _).1 ((eq_iff _ _).1 h.same_code),
            (and_then_ok _ _).1 (
              (require_iff _ _).1 ((action_iff _ _).1 h.same_action),
              (require_iff _ _).1 h.approved,
            ),
          ),
        ),
      ),
    ),
  ),
)

-- An accepted response was decided by the phone for this very request, and the decision was yes, if
-- nothing verifies under the phone's key that the phone has not signed.
pub accepted-DecidedOn :
    (lib : Signing) (laws : JsonLaws lib) (Decided : AuthRequest → AuthResponse → Type 0)
    (now_ms : ℕ) (req : AuthRequest) (pairing : PairingData) (resp : AuthResponse)
    → IsUnforgeable lib laws pairing.approval_public_key_der Decided
    → validate_response lib now_ms req pairing resp ≡ ok tt
    → (d : DecidedOn Decided req resp) × (d.signed_response.approved ≡ true)
accepted-DecidedOn lib laws Decided now_ms req pairing resp u h =
    let a = (validate_response_iff lib now_ms req pairing resp).0 h in
    let d = verify-DecidedOn lib laws pairing.approval_public_key_der Decided u req resp a.signed in
    (d, d.same_approved ∙ a.approved)
