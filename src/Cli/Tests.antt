-- ===== src/Cli/Tests.antt =====
-- A phone whose signature is the signed text itself, and its answer to one request.
use mathlib.Core.Option.{some-injective}
use ferusa.Base.{
  ◌&&◌, suc, zero, take-append, drop-append, ap₂, ℕ, ◌≡◌, refl, sym, ◌∙◌, ap, Bool, true, false,
  Option, none, some, [], ◌∷◌, ◌++◌, ◌↔◌, length, take, drop, Text, ok, arith, text_eq,
  text_eq_sound,
}
use ferusa.Core.Message.{discriminant, unlock, AuthRequest, AuthResponse}
use ferusa.Core.Approval.{
  Signing, ApprovalPayload, approval_payload, canonical_approval_payload, verify_approval_signature,
  validate_auth_exchange_timestamps, validate_auth_timestamp,
}
use ferusa.Core.Approval.Binding.{head, approval, JsonLaws, DecidedOn, IsUnforgeable}
use ferusa.Cli.Twofa.{
  PairingData, validate_response, ensure_pairing_generation, validate_auth_exchange,
}
use ferusa.Cli.Twofa.Accepted.{
  of_discriminant, of-discriminant, IsAccepted, validate_response_iff, accepted-DecidedOn,
}

abbrev pub pairing : PairingData
pairing = record {
  pairing_id = 7;
  phone_node_id = [];
  approval_public_key_der = 4 ∷ [];
  created_at_ms = 0;
}

abbrev pub ask : AuthRequest
ask = record {
  pairing_id = 7;
  request_id = 9;
  correlation_code = 1234;
  action = unlock;
  entry_title = none;
  unlock_share_requested = false;
  timestamp = 1000;
}

abbrev pub answer : Text → AuthResponse
answer s = record {
  pairing_id = 7;
  request_id = 9;
  correlation_code = 1234;
  action = unlock;
  approved = true;
  unlock_share = none;
  timestamp = 2000;
  signature = s;
}

-- Payloads as lists of numbers that can be read back.
abbrev block : Text → Text → Text
block s rest = length s ∷ s ++ rest

abbrev unblock : Text → Text × Text
unblock [] = ([], [])
unblock (n ∷ rest) = (take n rest, drop n rest)

abbrev maybe : Option Text → Text → Text
maybe none rest = 0 ∷ rest
maybe (some s) rest = 1 ∷ block s rest

abbrev unmaybe : Text → Option Text × Text
unmaybe (zero ∷ rest) = (none, rest)
unmaybe (suc n ∷ rest) = (some (unblock rest).0, (unblock rest).1)
unmaybe [] = (none, [])

abbrev flag : Bool → ℕ
flag false = 0
flag true = 1

abbrev unflag : ℕ → Bool
unflag zero = false
unflag (suc n) = true

unflag-flag : (b : Bool) → unflag (flag b) ≡ b
unflag-flag false = refl
unflag-flag true = refl

unmaybe-maybe : (o : Option Text) (rest : Text) → unmaybe (maybe o rest) ≡ (o, rest)
unmaybe-maybe none rest = refl
unmaybe-maybe (some s) rest =
    ap₂ {C = Option Text × Text} (λ a b. (some a, b)) (take-append s rest) (drop-append s rest)

abbrev pub print : ApprovalPayload → Text
print p =
    let q = p.request in
    let r = p.response in
    b'{'
    ∷ p.version
    ∷ q.pairing_id
    ∷ q.request_id
    ∷ q.correlation_code
    ∷ discriminant q.action
    ∷ flag q.unlock_share_requested
    ∷ q.timestamp
    ∷ r.pairing_id
    ∷ r.request_id
    ∷ r.correlation_code
    ∷ discriminant r.action
    ∷ flag r.approved
    ∷ r.timestamp
    ∷ maybe q.entry_title (maybe r.unlock_share p.domain)

abbrev read : Text → Option ApprovalPayload
read (_ ∷ v ∷ a ∷ b ∷ c ∷ d ∷ e ∷ f ∷ g ∷ h ∷ i ∷ j ∷ k ∷ l ∷ rest) =
    let (title, t) = unmaybe rest in
    let (share, domain) = unmaybe t in
    some (record {
      domain = domain;
      version = v;
      request = record {
        pairing_id = a;
        request_id = b;
        correlation_code = c;
        action = of_discriminant d;
        entry_title = title;
        unlock_share_requested = unflag e;
        timestamp = f;
      };
      response = record {
        pairing_id = g;
        request_id = h;
        correlation_code = i;
        action = of_discriminant j;
        approved = unflag k;
        unlock_share = share;
        timestamp = l;
      };
    })
read _ = none

read-print : (p : ApprovalPayload) → read (print p) ≡ some p
read-print p = simp (unmaybe-maybe, unflag-flag, of-discriminant)

abbrev pub lib : Signing
lib = record {
  payload_to_vec = λ p. some (print p);
  verify = λ key payload sig.
      text_eq payload sig && text_eq payload (print (approval_payload ask (answer [])));
}

pub payload-injective :
    (p q : ApprovalPayload) (t : Text)
    → lib.payload_to_vec p ≡ some t
    → lib.payload_to_vec q ≡ some t
    → p ≡ q
payload-injective p q t h k =
    some-injective _ _
      (sym (read-print p) ∙ ap read (some-injective _ _ (h ∙ sym k)) ∙ read-print q)

abbrev pub lib_laws : JsonLaws lib
lib_laws = record {
  object = λ p t h. ap head (sym (some-injective _ _ h));
  injective = payload-injective;
}

-- The phone has decided one thing.
abbrev Decided : AuthRequest → AuthResponse → Type 0
Decided q r = (q ≡ ask) × (r ≡ answer [])

pub second : (a b : Bool) → (a && b) ≡ true → b ≡ true
second a b h = ground arith

unforgeable : IsUnforgeable lib lib_laws (4 ∷ []) Decided
unfolding canonical_approval_payload
unforgeable m sig h =
    approval ask (answer []) (refl, refl) (ap some (sym (text_eq_sound m _ (second _ _ h))))

abbrev pub signature : Text
signature = print (approval_payload ask (answer []))

pub accepts : validate_response lib 1500 ask pairing (answer signature) ≡ ok tt
unfolding validate_response ensure_pairing_generation validate_auth_exchange
    verify_approval_signature canonical_approval_payload validate_auth_exchange_timestamps
    validate_auth_timestamp
accepts = refl

validate_response_iff_example :
    (validate_response lib 1500 ask pairing (answer signature) ≡ ok tt)
    ↔ IsAccepted lib 1500 ask pairing (answer signature)
validate_response_iff_example = validate_response_iff lib 1500 ask pairing (answer signature)

accepted-DecidedOn_example :
    (d : DecidedOn Decided ask (answer signature)) × (d.signed_response.approved ≡ true)
accepted-DecidedOn_example =
    accepted-DecidedOn lib lib_laws Decided 1500 ask pairing (answer signature) unforgeable accepts
