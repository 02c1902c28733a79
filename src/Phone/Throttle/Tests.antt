-- ===== src/Phone/Throttle/Tests.antt =====
-- A phone in memory, and cooldowns on it.
use ferusa.Base.Returning.{Returns}
use ferusa.Phone.Throttle.Success.{IsReliable, verify-Returns}
use ferusa.Base.{ℕ, ◌+◌, ◌-◌, ◌*◌, ◌≤◌, ◌≡◌, refl, Bool, true, false, some, ok, arith}
use ferusa.Base.Action.{returned}
use ferusa.Phone.Throttle.Cooldown.{
  pin_retry_limit_reached, multiplier, duration_in_force, cooldown_in_force, running,
  PinAttemptState, ClockSnapshot, default, cooldown_ms, record_pin_failure_state,
  active_cooldown_remaining_ms,
}
use ferusa.Phone.Throttle.Attempt.{
  write_back, update_pin_attempt_state_with, after_failure, after_check, after_cooldown,
  AttemptStore, cooldown_started, verify_pin_with_cooldown,
}
use ferusa.Phone.Throttle.Allowance.{at_ms}
use ferusa.Phone.Throttle.Guesses.{Tries, start, waits, tries, checked_bound}
use ferusa.Phone.Throttle.Laws.{Device, Later, AttemptLaws, Explains}

-- Two wrong PINs so far, and the third one a second after the start of the phone.
abbrev twice : PinAttemptState
twice = record default { failed_attempts = 2 }

twice_cools : (record_pin_failure_state twice (at_ms 4 1000)).1 ≡ some 30000
unfolding record_pin_failure_state cooldown_ms pin_retry_limit_reached multiplier
twice_cools = refl

-- The state that is stored for one PIN, the clock, and how many PINs were compared.
record Phone : Type 0 where
  attempts : PinAttemptState
  clock : ClockSnapshot
  asked : ℕ

data Broken : Type 0 where
  broken : Broken

abbrev readings : Device Phone
readings = record { peek = λ s. s.attempts; clock = λ s. s.clock; asked = λ s. s.asked }

-- Time that passes on a phone.
abbrev after : ℕ → Phone → Phone
after ms s = record s {
  clock = record s.clock { elapsed_realtime_ms = s.clock.elapsed_realtime_ms + ms };
}

-- The phone when the right PIN (`answer` is true) or a wrong one is entered. Each look at the clock
-- takes a millisecond.
abbrev entered : Bool → AttemptStore Phone Broken
entered answer = record {
  load = λ s. (ok s.attempts, s);
  save = λ p s. (ok tt, record s { attempts = p });
  clear = λ s. (ok tt, record s { attempts = default });
  clock_snapshot = λ s. (ok s.clock, after 1 s);
  verify_pin = λ s. (ok answer, record s { asked = s.asked + 1 });
}

same_time : (k : ClockSnapshot) → Later k k
same_time k = record { one_boot = refl; not_before = omega arith }

passes : (ms : ℕ) (s : Phone) → Later s.clock (after ms s).clock
passes ms s = record { one_boot = refl; not_before = omega arith }

abbrev entered_laws : (answer : Bool) → AttemptLaws readings (entered answer) answer
entered_laws answer = record {
  load_law =
      λ s. returned (refl, record { state = refl; count = omega arith; time = same_time s.clock });
  save_law =
      λ p s. returned (record { state = refl; count = omega arith; time = same_time s.clock });
  clear_law =
      λ s. returned (record { state = refl; count = omega arith; time = same_time s.clock });
  clock_law = λ s. returned (
    record { state = refl; count = omega arith; time = passes 1 s },
    same_time s.clock,
    passes 1 s,
  );
  verify_law =
      λ s. returned (refl, record { state = refl; count = refl; time = same_time s.clock });
}

abbrev entered_reliable : (answer : Bool) → IsReliable (entered answer)
entered_reliable answer = record {
  loads = λ s. refl;
  saves = λ p s. refl;
  clears = λ s. refl;
  ticks = λ s. refl;
  checks = λ s. refl;
}

abbrev started_up : Phone
started_up = record { attempts = default; clock = at_ms 4 0; asked = 0 }

abbrev try_wrong : Phone → Phone
try_wrong s = (verify_pin_with_cooldown (entered false) s).1

abbrev four_tries : Phone
four_tries = try_wrong (try_wrong (try_wrong (try_wrong started_up)))

-- Five tries, the last one after the cooldown that the third one starts.
abbrev five_tries : Phone
five_tries = try_wrong (after 40000 four_tries)

tried :
    {t : Phone}
    → Tries Broken readings started_up t
    → Tries Broken readings started_up (try_wrong t)
tried x = tries (entered false) x (entered_laws false) (entered_reliable false)

five_Tries : Tries Broken readings started_up five_tries
five_Tries = tried (
    waits (tried (tried (tried (tried start))))
      (record { state = refl; count = omega arith; time = passes 40000 four_tries }))

elapsed-five_tries : five_tries.clock.elapsed_realtime_ms ≡ 40009
unfolding verify_pin_with_cooldown record_pin_failure_state active_cooldown_remaining_ms cooldown_ms
    pin_retry_limit_reached multiplier duration_in_force cooldown_in_force running after_failure
    after_check after_cooldown update_pin_attempt_state_with write_back
elapsed-five_tries = refl

-- The fourth was refused.
asked-five_tries : five_tries.asked ≡ 4
unfolding verify_pin_with_cooldown record_pin_failure_state active_cooldown_remaining_ms cooldown_ms
    pin_retry_limit_reached multiplier duration_in_force cooldown_in_force running after_failure
    after_check after_cooldown update_pin_attempt_state_with write_back
asked-five_tries = refl

checked_bound_example :
    10000 * five_tries.asked
    ≤ 10000 * started_up.asked
      + (30000 + (five_tries.clock.elapsed_realtime_ms - started_up.clock.elapsed_realtime_ms))
checked_bound_example = checked_bound five_Tries refl (omega (arith, elapsed-five_tries))

abbrev third_try : Phone
third_try = record { attempts = twice; clock = at_ms 4 1000; asked = 2 }

third_try_cools :
    (verify_pin_with_cooldown (entered false) third_try).0 ≡ ok (cooldown_started 30000)
unfolding verify_pin_with_cooldown record_pin_failure_state active_cooldown_remaining_ms cooldown_ms
    pin_retry_limit_reached multiplier duration_in_force cooldown_in_force running after_failure
    after_check after_cooldown update_pin_attempt_state_with write_back
third_try_cools = refl

right_pin_forgets : (verify_pin_with_cooldown (entered true) third_try).1.attempts ≡ default
unfolding verify_pin_with_cooldown active_cooldown_remaining_ms duration_in_force cooldown_in_force
    running after_check after_cooldown update_pin_attempt_state_with write_back
right_pin_forgets = refl

verify-Returns_example :
    Returns
      (λ out t. Explains readings false third_try t out)
      (verify_pin_with_cooldown (entered false) third_try)
verify-Returns_example = verify-Returns (entered_reliable false) (entered_laws false) third_try
