-- ===== src/Phone/Throttle/Attempt.antt =====
-- `update_pin_attempt_state_with` of storage.rs and `verify_pin_with_cooldown` of commands.rs. The
-- store, the clock and the PIN check are arguments: the code reaches them through the keystore
-- plugin and the argon2 crate.
use ferusa.Base.{ℕ, Bool, true, false, Option, none, some}
use ferusa.Base.Action.{Action, pure, ◌>>=◌, ◌>>◌}
use ferusa.Phone.Throttle.Cooldown.{
  PinAttemptState, ClockSnapshot, active_cooldown_remaining_ms, record_pin_failure_state,
}

pub data PinAttemptStateWrite : Type 0 where
  save_state clear_state : PinAttemptStateWrite

pub data PinVerificationOutcome : Type 0 where
  verified incorrect : PinVerificationOutcome
  cooldown_started cooldown_active : ℕ → PinVerificationOutcome

-- Loading, saving and clearing the state of one PIN, the clock, and argon2's answer to the PIN
-- that was entered.
pub record AttemptStore (S E : Type 0) : Type 0 where
  pub load : Action S E PinAttemptState
  pub save : PinAttemptState → Action S E (Unit {0})
  pub clear : Action S E (Unit {0})
  pub clock_snapshot : Action S E ClockSnapshot
  pub verify_pin : Action S E Bool

module _ {S E : Type 0} (store : AttemptStore S E) where
  unfoldable pub write_back : PinAttemptStateWrite → PinAttemptState → Action S E (Unit {0})
  write_back save_state s = store.save s
  write_back clear_state s = store.clear

  -- The mutex is held over the whole call, so nothing comes between its steps.
  unfoldable pub update_pin_attempt_state_with :
      {T : Type 0} → (PinAttemptState → PinAttemptState × PinAttemptStateWrite × T) → Action S E T
  unfolding write_back
  update_pin_attempt_state_with update = do
    loaded ← store.load
    write_back (update loaded).1 (update loaded).0
    pure (update loaded).2

  abbrev pub check_cooldown :
      ClockSnapshot → PinAttemptState → PinAttemptState × PinAttemptStateWrite × Option ℕ
  check_cooldown clock s =
      let (s', remaining) = active_cooldown_remaining_ms s clock in (s', save_state, remaining)

  abbrev pub forget_failures : PinAttemptState → PinAttemptState × PinAttemptStateWrite × Unit {0}
  forget_failures s = (s, clear_state, tt)

  abbrev pub record_failure :
      ClockSnapshot → PinAttemptState → PinAttemptState × PinAttemptStateWrite × Option ℕ
  record_failure clock s =
      let (s', started) = record_pin_failure_state s clock in (s', save_state, started)

  unfoldable pub after_failure : Option ℕ → PinVerificationOutcome
  after_failure none = incorrect
  after_failure (some retry_after_ms) = cooldown_started retry_after_ms

  unfoldable pub after_check : Bool → Action S E PinVerificationOutcome
  unfolding after_failure
  after_check true = do update_pin_attempt_state_with forget_failures; pure verified
  after_check false = do
    clock ← store.clock_snapshot
    started ← update_pin_attempt_state_with (record_failure clock)
    pure (after_failure started)

  unfoldable pub after_cooldown : Option ℕ → Action S E PinVerificationOutcome
  unfolding after_check
  after_cooldown (some retry_after_ms) = pure (cooldown_active retry_after_ms)
  after_cooldown none = do pin_ok ← store.verify_pin; after_check pin_ok

  unfoldable pub verify_pin_with_cooldown : Action S E PinVerificationOutcome
  unfolding update_pin_attempt_state_with after_cooldown
  verify_pin_with_cooldown = do
    clock ← store.clock_snapshot
    remaining ← update_pin_attempt_state_with (check_cooldown clock)
    after_cooldown remaining
