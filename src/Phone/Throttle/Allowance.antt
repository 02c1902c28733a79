-- ===== src/Phone/Throttle/Allowance.antt =====
-- What one wrong PIN costs: an allowance of comparisons that time fills up again.
use ferusa.Base.{
  ◌≢◌, leb, ltb, if◌then◌else◌, ℕ, ◌+◌, ◌-◌, ◌*◌, ◌≤◌, ◌<◌, max, ◌≡◌, refl, Bool, true, false, none,
  some, arith, Bool-cases, inl, inr,
}
use ferusa.Phone.Throttle.Cooldown.{
  PinAttemptState, ClockSnapshot, default, u64_max, cooldown_ms, duration_in_force,
  active_cooldown_remaining_ms, lifted, record_pin_failure_state, u8_add_one,
}
use ferusa.Phone.Throttle.Bounds.{cooldown_ms_bounds}

abbrev pub at_ms : ℕ → ℕ → ClockSnapshot
at_ms boot t = record { elapsed_realtime_ms = t; boot_count = boot }

-- What a started cooldown does to the next try: before its end on the same boot the try is put off
-- to that end and nothing changes; after a restart of the phone it waits for all of it again.
active_cooldown-record_failure :
    (s : PinAttemptState) (clock later : ClockSnapshot) (d : ℕ)
    → (record_pin_failure_state s clock).1 ≡ some d
    → clock.elapsed_realtime_ms + d ≤ u64_max
    → later.elapsed_realtime_ms < clock.elapsed_realtime_ms + d
    → (later.boot_count ≡ clock.boot_count
        → active_cooldown_remaining_ms (record_pin_failure_state s clock).0 later ≡ (
          (record_pin_failure_state s clock).0,
          some (clock.elapsed_realtime_ms + d - later.elapsed_realtime_ms),
        ))
      × (later.boot_count ≢ clock.boot_count
          → (active_cooldown_remaining_ms (record_pin_failure_state s clock).0 later).1 ≡ some d)
unfolding active_cooldown_remaining_ms record_pin_failure_state
active_cooldown-record_failure s clock later d h fits early = ground arith

-- What one try with a wrong PIN does to the stored state when the clock reads `t` and, after the
-- comparison, `t'`: the new state, and whether the PIN was compared. Trying.antt shows it of
-- `verify_pin_with_cooldown`.
unfoldable pub wrong_guess : ℕ → PinAttemptState → ℕ → ℕ → PinAttemptState × Bool
wrong_guess boot s t t' =
    let (s', remaining) = active_cooldown_remaining_ms s (at_ms boot t) in
    elim remaining [
      | some r ↦ (s', false)
      | none ↦ ((record_pin_failure_state s' (at_ms boot t')).0, true)
    ]

abbrev pub count : Bool → ℕ
count true = 1
count false = 0

-- No cooldown, or one that began at `started` on this boot.
pub data Standing (boot now : ℕ) (s : PinAttemptState) : Type 0 where
  free : duration_in_force s ≡ none → s.failed_attempts ≤ 2 → Standing boot now s
  cooling :
      (started d : ℕ)
      → s.cooldown_duration_ms ≡ some d
      → s.cooldown_started_elapsed_ms ≡ some started
      → s.cooldown_boot_count ≡ some boot
      → 30000 ≤ d
      → d ≤ 1800000
      → started ≤ now
      → s.failed_attempts ≡ 0
      → Standing boot now s

-- Ten thousand times the number of checks that are left until `last`.
abbrev pub allowance : {boot now : ℕ} {s : PinAttemptState} → Standing boot now s → ℕ → ℕ
allowance {now = now} {s = s} (free e f) last = 10000 * (3 - s.failed_attempts) + (last - now)
allowance (cooling started d e f g a b c h) last = last - started

pub record Spends (boot last bound t' : ℕ) (r : PinAttemptState × Bool) : Type 0 where
  pub standing : Standing boot t' r.0
  pub spent : 10000 * count r.1 + allowance standing last ≤ bound

pub Standing-later :
    {boot now : ℕ} {s : PinAttemptState} (last : ℕ) (st : Standing boot now s) (t' : ℕ)
    → now ≤ t'
    → (x : Standing boot t' s) × (allowance x last ≤ allowance st last)
Standing-later last (free e f) t' h = (free e f, omega arith)
Standing-later last (cooling started d e f g a b c z) t' h =
    (cooling started d e f g a b (omega arith) z, omega arith)

-- A checked try from a state without cooldown.
fail-Standing :
    (boot last t' : ℕ) (s : PinAttemptState)
    → duration_in_force s ≡ none
    → s.failed_attempts ≤ 2
    → t' ≤ last
    → (x : Standing boot t' (record_pin_failure_state s (at_ms boot t')).0) × (10000
          + allowance x last
        ≤ 10000 * (3 - s.failed_attempts) + (last - t'))
unfolding record_pin_failure_state duration_in_force
fail-Standing boot last t' s e f h = elim (Bool-cases (leb 3 (u8_add_one s.failed_attempts))) [
  | inl full ↦
      (let b = cooldown_ms_bounds (max (u8_add_one s.cooldown_level) 1) (omega arith) in
        rw full (
          cooling t' (cooldown_ms (max (u8_add_one s.cooldown_level) 1)) refl refl refl b.0 b.1
              (omega arith) refl,
          ground arith,
        ))
  | inr more ↦ rw more (free e (ground arith), ground arith)
]

guess_free :
    (boot : ℕ) (s : PinAttemptState) (t t' : ℕ)
    → duration_in_force s ≡ none
    → wrong_guess boot s t t' ≡ ((record_pin_failure_state s (at_ms boot t')).0, true)
unfolding wrong_guess active_cooldown_remaining_ms
guess_free boot s t t' e = ground arith

-- The test of `running`, for clocks far from the end of u64.
guess_cooling :
    (boot : ℕ) (s : PinAttemptState) (started d t t' : ℕ)
    → s.cooldown_duration_ms ≡ some d
    → s.cooldown_started_elapsed_ms ≡ some started
    → s.cooldown_boot_count ≡ some boot
    → started + d ≤ u64_max
    → wrong_guess boot s t t' ≡ (
        if ltb t (started + d)
        then (s, false)
        else ((record_pin_failure_state (lifted s) (at_ms boot t')).0, true))
unfolding wrong_guess active_cooldown_remaining_ms
guess_cooling boot s started d t t' e f g h = ground arith

lifted-free : (s : PinAttemptState) → duration_in_force (lifted s) ≡ none
unfolding duration_in_force
lifted-free s = refl

pub default-free : duration_in_force default ≡ none
unfolding duration_in_force
default-free = refl

-- A try without a cooldown.
Spends-free :
    (boot now last t t' : ℕ) (s : PinAttemptState)
    → duration_in_force s ≡ none
    → s.failed_attempts ≤ 2
    → now ≤ t'
    → t' ≤ last
    → Spends boot last
        (10000 * (3 - s.failed_attempts) + (last - now))
        t'
        ((record_pin_failure_state s (at_ms boot t')).0, true)
Spends-free boot now last t t' s e f h k =
    let (x, y) = fail-Standing boot last t' s e f k in
    record { standing = x; spent = omega (arith, y) }

pub spends :
    (boot now last t t' : ℕ) (s : PinAttemptState) (st : Standing boot now s)
    → now ≤ t
    → t ≤ t'
    → t' ≤ last
    → last + 1800000 ≤ u64_max
    → Spends boot last (allowance st last) t' (wrong_guess boot s t t')
spends boot now last t t' s (free e f) h k l m =
    rw (guess_free boot s t t' e) (Spends-free boot now last t t' s e f (omega arith) l)
spends boot now last t t' s (cooling started d e f g a b i z) h k l m =
    rw (guess_cooling boot s started d t t' e f g (omega arith))
      (elim (Bool-cases (ltb t (started + d))) [
        | inl early ↦
            rw early (record {
              standing = cooling started d e f g a b (omega arith) z;
              spent = omega arith;
            })
        | inr over ↦ rw over (
            let (x, y) = fail-Standing boot last t' (lifted s) (lifted-free s) (omega arith) l in
            record { standing = x; spent = ground (arith, y) })
      ])
