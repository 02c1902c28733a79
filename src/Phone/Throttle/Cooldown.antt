-- ===== src/Phone/Throttle/Cooldown.antt =====
-- The pure part: `PinAttemptState`, `cooldown_duration_ms`, `active_cooldown_remaining_ms` and
-- `record_pin_failure_state`. Milliseconds and boot counts are u64, the two counters u8.
use ferusa.Base.{
  ℕ, ◌+◌, ◌-◌, ◌*◌, ◌^◌, min, max, Bool, false, not, Option, none, some, ltb, leb, ◌==◌,
  if◌then◌else◌,
}

pub record PinAttemptState : Type 0 where
  pub failed_attempts : ℕ
  pub cooldown_level : ℕ
  pub cooldown_until_ms : Option ℕ
  pub cooldown_started_elapsed_ms : Option ℕ
  pub cooldown_boot_count : Option ℕ
  pub cooldown_duration_ms : Option ℕ

-- `PinAttemptState::default()`.
abbrev pub default : PinAttemptState
default = record {
  failed_attempts = 0;
  cooldown_level = 0;
  cooldown_until_ms = none;
  cooldown_started_elapsed_ms = none;
  cooldown_boot_count = none;
  cooldown_duration_ms = none;
}

-- `tauri_plugin_keystore::ClockSnapshot`.
pub record ClockSnapshot : Type 0 where
  pub elapsed_realtime_ms : ℕ
  pub boot_count : ℕ

abbrev pub u64_max : ℕ
u64_max = 18446744073709551615

abbrev pub u8_add_one : ℕ → ℕ
u8_add_one n = min (n + 1) 255

abbrev pub u64_saturating_add : ℕ → ℕ → ℕ
u64_saturating_add a b = min (a + b) u64_max

abbrev pub pin_failures_before_cooldown : ℕ
pin_failures_before_cooldown = 3

abbrev pub pin_cooldown_base_ms : ℕ
pin_cooldown_base_ms = 30000

abbrev pub pin_cooldown_max_ms : ℕ
pin_cooldown_max_ms = 1800000

unfoldable pub pin_retry_limit_reached : ℕ → Bool
pin_retry_limit_reached failed_attempts = leb pin_failures_before_cooldown failed_attempts

-- `1u32.checked_shl(shift).unwrap_or(u32::MAX)`.
unfoldable pub multiplier : ℕ → ℕ
multiplier shift = if ltb shift 32 then 2 ^ shift else 4294967295

unfoldable pub cooldown_ms : ℕ → ℕ
cooldown_ms level =
    if level == 0
    then 0
    else min (pin_cooldown_base_ms * multiplier (level - 1)) pin_cooldown_max_ms

-- The duration in force: the stored one, or that of a legacy deadline.
unfoldable pub duration_in_force : PinAttemptState → Option ℕ
duration_in_force s = elim s.cooldown_duration_ms [
  | some d ↦ some d
  | none ↦ elim s.cooldown_until_ms [ none ↦ none | some t ↦ some (cooldown_ms s.cooldown_level) ]
]

abbrev pub restarted : PinAttemptState → ClockSnapshot → ℕ → PinAttemptState
restarted s clock duration_ms = record s {
  cooldown_boot_count = some clock.boot_count;
  cooldown_started_elapsed_ms = some clock.elapsed_realtime_ms;
  cooldown_duration_ms = some duration_ms;
  cooldown_until_ms = none;
}

abbrev pub lifted : PinAttemptState → PinAttemptState
lifted s = record s {
  cooldown_started_elapsed_ms = none;
  cooldown_boot_count = none;
  cooldown_duration_ms = none;
  cooldown_until_ms = none;
}

-- `cooldown_boot_count == Some(clock.boot_count)`.
abbrev pub same_boot : Option ℕ → ℕ → Bool
same_boot none boot = false
same_boot (some b) boot = b == boot

-- A cooldown that began at `started` on this boot.
unfoldable pub running : PinAttemptState → ClockSnapshot → ℕ → ℕ → PinAttemptState × Option ℕ
running s clock duration_ms started =
    let remaining = u64_saturating_add started duration_ms - clock.elapsed_realtime_ms in
    if remaining == 0 then (lifted s, none) else (s, some remaining)

-- The rest of `active_cooldown_remaining_ms`, once there is a duration.
unfoldable pub cooldown_in_force :
    PinAttemptState → ClockSnapshot → ℕ → Option ℕ → PinAttemptState × Option ℕ
unfolding running
cooldown_in_force s clock duration_ms none = (restarted s clock duration_ms, some duration_ms)
cooldown_in_force s clock duration_ms (some started) =
    if same_boot s.cooldown_boot_count clock.boot_count
    then running s clock duration_ms started
    else (restarted s clock duration_ms, some duration_ms)

-- The state after the call, and the time to wait.
unfoldable pub active_cooldown_remaining_ms :
    PinAttemptState → ClockSnapshot → PinAttemptState × Option ℕ
unfolding duration_in_force cooldown_in_force
active_cooldown_remaining_ms s clock = elim (duration_in_force s) [
  | none ↦ (s, none)
  | some duration_ms ↦ cooldown_in_force s clock duration_ms s.cooldown_started_elapsed_ms
]

abbrev pub cooled : PinAttemptState → ClockSnapshot → ℕ → PinAttemptState
cooled s clock level = record {
  failed_attempts = 0;
  cooldown_level = level;
  cooldown_until_ms = none;
  cooldown_started_elapsed_ms = some clock.elapsed_realtime_ms;
  cooldown_boot_count = some clock.boot_count;
  cooldown_duration_ms = some (cooldown_ms level);
}

unfoldable pub record_pin_failure_state :
    PinAttemptState → ClockSnapshot → PinAttemptState × Option ℕ
unfolding pin_retry_limit_reached
record_pin_failure_state s clock =
    let failed = u8_add_one s.failed_attempts in
    let level = max (u8_add_one s.cooldown_level) 1 in
    if not (pin_retry_limit_reached failed)
    then (record s { failed_attempts = failed }, none)
    else (cooled s clock level, some (cooldown_ms level))
