-- ===== src/Phone/Session/State.antt =====
-- `AppState`. Each operation holds the lock on `session_generation` from start to end, so it is one
-- step. An `Instant` is a number of milliseconds, and `Instant::now()` an argument. The endpoint,
-- the PIN gates and the semaphore are not part of the model's state.
use ferusa.Base.{
  ℕ, ◌+◌, min, Bool, false, not, ◌||◌, Option, none, some, List, [], Text, ◌==◌, if◌then◌else◌, ok,
}
use ferusa.Base.Action.{Action, pure, bail_if, ◌>>◌}
use ferusa.Phone.Throttle.Cooldown.{u64_max}

pub record Secrets : Type 0 where
  pub pairing_id : ℕ
  pub approval_key_alias : Text
  pub approval_public_key_der : Text
  pub phone_share : Text
  pub pin4_hash : Text
  pub pin6_hash : Text
  pub cli_node_id : Text

pub record AppState : Type 0 where
  pub secrets : Option Secrets
  pub is_setup : Bool
  pub pairing_replacement_authorized_at : Option ℕ
  pub unlocked_at : Option ℕ
  pub approval_key_authenticated_at : Option ℕ
  pub setup_pairing_code : Option ℕ
  pub session_generation : ℕ
  pub recent_request_ids : List (ℕ × ℕ)
  pub is_foreground : Bool
  pub replacement_generation : ℕ

-- `AppError` of error.rs, as far as commands.rs makes one: `PendingRequest` and `Pin` by their kind
-- or operation, and errors of the core, the key store and the network without their details.
pub data AppError : Type 0 where
  session_expired pending_missing pending_mismatch pending_locked : AppError
  approval_key_auth_required keystore biometric network core setup_input : AppError
  pin_validate pin_incorrect pin_verify pairing_replacement_authorization : AppError
  pin_cooldown : ℕ → AppError

abbrev pub Session : Type 0 → Type 0
Session A = Action AppState AppError A

abbrev pub modify : (AppState → AppState) → Session (Unit {0})
modify f s = (ok tt, f s)

abbrev pub new : AppState
new = record {
  secrets = none;
  is_setup = false;
  pairing_replacement_authorized_at = none;
  unlocked_at = none;
  approval_key_authenticated_at = none;
  setup_pairing_code = none;
  session_generation = 0;
  recent_request_ids = [];
  is_foreground = false;
  replacement_generation = 0;
}

-- `u64::saturating_add(1)`, and the wrap of `AtomicU64::fetch_add(1)`.
abbrev pub saturating_succ : ℕ → ℕ
saturating_succ n = min (n + 1) u64_max

abbrev pub wrapping_succ : ℕ → ℕ
wrapping_succ n = if n == u64_max then 0 else n + 1

unfoldable pub clear_session : AppState → AppState
clear_session s = record s {
  session_generation = saturating_succ s.session_generation;
  secrets = none;
  pairing_replacement_authorized_at = none;
  unlocked_at = none;
  approval_key_authenticated_at = none;
  setup_pairing_code = if s.is_setup then none else s.setup_pairing_code;
}

unfoldable pub set_foreground : Bool → AppState → AppState
unfolding clear_session
set_foreground foreground s =
    let s' = record s { is_foreground = foreground } in
    if not foreground then clear_session s' else s'

abbrev pub lock : AppState → AppState
lock = clear_session

unfoldable pub check_authentication_generation : ℕ → ℕ → Session (Unit {0})
check_authentication_generation expected current s =
    bail_if (not (expected == current) || not s.is_foreground) session_expired s

unfoldable pub authentication_generation : Session ℕ
unfolding check_authentication_generation
authentication_generation s =
    (do
      check_authentication_generation s.session_generation s.session_generation
      pure s.session_generation)
      s

unfoldable pub mark_approval_key_authenticated : ℕ → ℕ → Session (Unit {0})
unfolding check_authentication_generation
mark_approval_key_authenticated now expected s =
    (do
      check_authentication_generation expected s.session_generation
      modify (λ s. record s { approval_key_authenticated_at = some now }))
      s

unfoldable pub complete_unlock : ℕ → ℕ → Secrets → Session ℕ
unfolding check_authentication_generation
complete_unlock now expected secrets s =
    (do
      check_authentication_generation expected s.session_generation
      modify (λ s. record s { secrets = some secrets; unlocked_at = some now })
      modify (λ s. record s { session_generation = saturating_succ s.session_generation })
      pure (saturating_succ s.session_generation))
      s

unfoldable pub begin_pairing_replacement : Session (ℕ × ℕ)
unfolding check_authentication_generation
begin_pairing_replacement s =
    (do
      check_authentication_generation s.session_generation s.session_generation
      modify (λ s. record s { pairing_replacement_authorized_at = none })
      modify (λ s. record s { replacement_generation = wrapping_succ s.replacement_generation })
      pure (s.session_generation, wrapping_succ s.replacement_generation))
      s

unfoldable pub complete_pairing_replacement : ℕ → ℕ × ℕ → Session (Unit {0})
unfolding check_authentication_generation
complete_pairing_replacement now expected s =
    (do
      check_authentication_generation expected.0 s.session_generation
      bail_if (not (s.replacement_generation == expected.1)) session_expired
      modify (λ s. record s { pairing_replacement_authorized_at = some now }))
      s

unfoldable pub cancel_pairing_replacement : AppState → AppState
cancel_pairing_replacement s = record s {
  replacement_generation = wrapping_succ s.replacement_generation;
  pairing_replacement_authorized_at = none;
  setup_pairing_code = none;
}
