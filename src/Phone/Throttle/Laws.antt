-- ===== src/Phone/Throttle/Laws.antt =====
-- The phone on which a PIN is checked, what is known of its store, clock and argon2, and what each
-- outcome of `verify_pin_with_cooldown` says of it.
use ferusa.Base.{ℕ, ◌+◌, ◌≤◌, ◌≡◌, ◌∙◌, Bool, true, false, none, some, arith}
use ferusa.Base.Action.{Ensures}
use ferusa.Phone.Throttle.Cooldown.{
  PinAttemptState, ClockSnapshot, default, active_cooldown_remaining_ms, record_pin_failure_state,
}
use ferusa.Phone.Throttle.Attempt.{
  PinVerificationOutcome, verified, incorrect, cooldown_started, cooldown_active, AttemptStore,
}

-- What is read off the phone that the store stands for: the state that is stored for one of the two
-- PINs, the clock, and how many PINs argon2 compared with its hash.
pub record Device (S : Type 0) : Type 0 where
  pub peek : S → PinAttemptState
  pub clock : S → ClockSnapshot
  pub asked : S → ℕ

-- On one boot, the clock does not run backwards.
pub record Later (k l : ClockSnapshot) : Type 0 where
  pub one_boot : l.boot_count ≡ k.boot_count
  pub not_before : k.elapsed_realtime_ms ≤ l.elapsed_realtime_ms

pub Later-trans : (k l m : ClockSnapshot) → Later k l → Later l m → Later k m
Later-trans k l m h i = record {
  one_boot = i.one_boot ∙ h.one_boot;
  not_before = omega (arith, h.not_before, i.not_before);
}

-- From `s` to `t`, `p` came to be stored, `n` PINs were compared, and time went on.
pub record Moves {S : Type 0} (d : Device S) (p : PinAttemptState) (n : ℕ) (s t : S) : Type 0 where
  pub state : d.peek t ≡ p
  pub count : d.asked t ≡ d.asked s + n
  pub time : Later (d.clock s) (d.clock t)

-- A successful call of the store does what it says; one that fails may have done it. The clock is
-- read during the call, and only argon2 compares PINs: `answer` says whether the one that is entered
-- is right.
pub record AttemptLaws {S E : Type 0} (d : Device S) (store : AttemptStore S E) (answer : Bool)
    : Type 0 where
  pub load_law :
      (s : S)
      → Ensures (λ p t. (p ≡ d.peek s) × Moves d (d.peek s) 0 s t) (λ t. Unit {0}) (store.load s)
  pub save_law :
      (p : PinAttemptState) (s : S)
      → Ensures (λ _ t. Moves d p 0 s t) (λ t. Unit {0}) (store.save p s)
  pub clear_law : (s : S) → Ensures (λ _ t. Moves d default 0 s t) (λ t. Unit {0}) (store.clear s)
  pub clock_law :
      (s : S)
      → Ensures
          (λ k t. Moves d (d.peek s) 0 s t × Later (d.clock s) k × Later k (d.clock t))
          (λ t. Unit {0})
          (store.clock_snapshot s)
  pub verify_law :
      (s : S)
      → Ensures
          (λ b t. (b ≡ answer) × Moves d (d.peek s) 1 s t)
          (λ t. Unit {0})
          (store.verify_pin s)

-- How the phone `s` before a call and `t` after it go with the PIN that was entered and the
-- outcome. The clock was read at `k` and, after a wrong PIN, at `l`.
pub data Explains {S : Type 0} (d : Device S) (answer : Bool) (s t : S)
    : PinVerificationOutcome → Type 0 where
  refused :
      (k : ClockSnapshot) (ms : ℕ)
      → Later (d.clock s) k
      → Later k (d.clock t)
      → active_cooldown_remaining_ms (d.peek s) k ≡ (d.peek t, some ms)
      → d.asked t ≡ d.asked s
      → Explains d answer s t (cooldown_active ms)
  passed :
      (k : ClockSnapshot)
      → answer ≡ true
      → Later (d.clock s) k
      → Later k (d.clock t)
      → (active_cooldown_remaining_ms (d.peek s) k).1 ≡ none
      → d.peek t ≡ default
      → d.asked t ≡ d.asked s + 1
      → Explains d answer s t verified
  counted :
      (k l : ClockSnapshot)
      → answer ≡ false
      → Later (d.clock s) k
      → Later k l
      → Later l (d.clock t)
      → (active_cooldown_remaining_ms (d.peek s) k).1 ≡ none
      → record_pin_failure_state (active_cooldown_remaining_ms (d.peek s) k).0 l ≡ (d.peek t, none)
      → d.asked t ≡ d.asked s + 1
      → Explains d answer s t incorrect
  started :
      (k l : ClockSnapshot) (ms : ℕ)
      → answer ≡ false
      → Later (d.clock s) k
      → Later k l
      → Later l (d.clock t)
      → (active_cooldown_remaining_ms (d.peek s) k).1 ≡ none
      → record_pin_failure_state (active_cooldown_remaining_ms (d.peek s) k).0 l
        ≡ (d.peek t, some ms)
      → d.asked t ≡ d.asked s + 1
      → Explains d answer s t (cooldown_started ms)
