-- ===== src/Phone/Consent/Tests.antt =====
-- A phone on which one request is served and approved.
use ferusa.Base.{◌≡◌, refl, true, none, some, [], ◌∷◌, Text, codes, text_eq, text_eq_sound, ok}
use ferusa.Base.Action.{returned}
use ferusa.Base.Method.{◌>>=◌}
use ferusa.Core.Approval.{canonical_approval_payload, validate_auth_timestamp}
use ferusa.Cli.Tests.{ask, answer, lib}
use ferusa.Phone.Session.State.{Secrets, AppError, new}
use ferusa.Phone.Session.Requests.{
  within, is_current, remember_request_id, retain, take_verified_pending, take_current,
}
use ferusa.Phone.Pin.{validate_pin, is_trivial_pin, windows_all, is_ascii_digit}
use ferusa.Phone.Throttle.Cooldown.{default, active_cooldown_remaining_ms, duration_in_force}
use ferusa.Phone.Throttle.Attempt.{
  AttemptStore, verify_pin_with_cooldown, update_pin_attempt_state_with, after_cooldown,
  after_check, write_back,
}
use ferusa.Phone.Consent.Desk.{Desk, Outside, draw, app, change_app, on_app, with_slot, wait}
use ferusa.Phone.Consent.Answering.{
  pin_kind_for_action, expected_pin_len, share_in_response, build_response_for_signing, ask_key,
  send_signed_response, approval_key_auth_is_current, ensure_approval_key_auth, answer_taken,
  take_pending,
}
use ferusa.Phone.Consent.Expiry.{is_unlocked, ensure_active_session}
use ferusa.Phone.Consent.Approve.{
  ApprovePayload, pending_to_approve, share_for, approve_taken, approve_verified, after_pin,
  approve_request,
}
use ferusa.Phone.Consent.Admit.{
  is_paired_node, admit, is_authorized_auth_peer, emit_request, after_admission, admit_on,
  store_request, check_pairing, active, serve_request,
}
use ferusa.Phone.Consent.Sound.{Facts, AttemptsKeep, OthersKeep}
use ferusa.Phone.Consent.History.{Reach, start, next, serves, approves}

abbrev pin : Text
pin = codes "1357"

abbrev secrets : Secrets
secrets = record {
  pairing_id = 7;
  approval_key_alias = 1 ∷ [];
  approval_public_key_der = 4 ∷ [];
  phone_share = 3 ∷ [];
  pin4_hash = pin;
  pin6_hash = codes "135799";
  cli_node_id = 6 ∷ [];
}

abbrev pub idle : Desk (Unit {0})
idle = record {
  app = record new {
    secrets = some secrets;
    is_setup = true;
    unlocked_at = some 900;
    approval_key_authenticated_at = some 950;
    session_generation = 1;
    is_foreground = true;
  };
  slot = none;
  asked = [];
  world = tt;
}

-- A hash is the PIN itself.
abbrev store : Text → Text → AttemptStore (Desk (Unit {0})) AppError
store pin hash = record {
  load = λ s. (ok default, s);
  save = λ p s. (ok tt, s);
  clear = λ s. (ok tt, s);
  clock_snapshot = λ s. (ok (record { elapsed_realtime_ms = 0; boot_count = 0 }), s);
  verify_pin = λ s. (ok (text_eq pin hash), s);
}

abbrev out : Outside (Unit {0})
out = record {
  lib = lib;
  show_id = λ n. n ∷ [];
  now = λ x. (1000, x);
  current_time_ms = λ x. (2000, x);
  new_v4 = λ x. (5, x);
  pause = λ s. s;
  require_biometric = λ s. (ok tt, s);
  sign_approval = λ alias payload s. (ok payload, s);
  send_response = λ resp s. (ok tt, s);
  close = λ s. (ok tt, s);
  emit = λ s. (ok tt, s);
  attempts = λ kind pin hash. store pin hash;
}

abbrev pub facts : Facts
facts = record {
  show_id = λ n. n ∷ [];
  contents = λ identity. ask;
  Entered = λ id entered. entered ≡ pin;
  IsRight = λ pin hash. pin ≡ hash;
}

store_keeps : (entered hash : Text) → AttemptsKeep facts entered hash (store entered hash)
store_keeps entered hash = record {
  load_law = record { at = λ s h. h };
  save_law = λ p. record { at = λ s h. h };
  clear_law = record { at = λ s h. h };
  clock_law = record { at = λ s h. h };
  verify_law = record { at = λ s h. returned (h, text_eq_sound entered hash) };
}

others : OthersKeep facts out
others = record {
  same_ids = λ id. refl;
  pause_law = λ s h. h;
  biometric_law = record { at = λ s h. h };
  sign_law = λ alias payload. record { at = λ s h. h };
  send_law = λ resp. record { at = λ s h. h };
  close_law = record { at = λ s h. h };
  emit_law = record { at = λ s h. h };
  attempts_law = λ kind pin hash. store_keeps pin hash;
}

abbrev served : Desk (Unit {0})
served = (serve_request out (6 ∷ []) ask idle).1

abbrev payload : ApprovePayload
payload = record { request_id = 9 ∷ []; pin = pin }

abbrev pub approved : Desk (Unit {0})
approved = (approve_request out payload served).1

pub to_approved : Reach facts idle approved
to_approved =
    next (next start (serves out others (6 ∷ []) ask (λ x g n. refl)))
      (approves out others payload refl)

-- The approval key was asked for this one answer.
pub approved_asked :
    approved.asked ≡ record { alias = 1 ∷ []; request = ask; response = answer [] } ∷ []
unfolding ◌>>=◌ serve_request is_authorized_auth_peer is_paired_node active ensure_active_session
    is_unlocked check_pairing store_request admit_on admit after_admission emit_request
    approve_request pending_to_approve after_pin approve_verified ensure_approval_key_auth
    approval_key_auth_is_current take_pending approve_taken share_for answer_taken
    send_signed_response build_response_for_signing share_in_response ask_key draw app change_app
    on_app with_slot wait pin_kind_for_action expected_pin_len canonical_approval_payload
    validate_auth_timestamp within is_current remember_request_id retain take_verified_pending
    take_current validate_pin is_trivial_pin windows_all is_ascii_digit active_cooldown_remaining_ms
    duration_in_force verify_pin_with_cooldown update_pin_attempt_state_with after_cooldown
    after_check write_back
approved_asked = refl
