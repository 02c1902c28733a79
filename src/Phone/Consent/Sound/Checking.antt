-- ===== src/Phone/Consent/Sound/Checking.antt =====
-- A PIN check that says `verified` has seen a right PIN.
use ferusa.Base.{ℕ, ◌≡◌, refl, Bool, true, false, Text, Option, none, some, Result, ok, err}
use ferusa.Base.Action.{Action, Ensures, returned, failed, continue}
use ferusa.Base.Method.Keeps.{Gives}
use ferusa.Phone.Session.State.{AppError}
use ferusa.Phone.Throttle.Cooldown.{PinAttemptState}
use ferusa.Phone.Throttle.Attempt.{
  PinAttemptStateWrite, save_state, clear_state, PinVerificationOutcome, verified, AttemptStore,
  write_back, update_pin_attempt_state_with, after_failure, after_check, after_cooldown,
  verify_pin_with_cooldown, record_failure, forget_failures, check_cooldown,
}
use ferusa.Phone.Consent.Desk.{Desk}
use ferusa.Phone.Consent.Sound.{Facts, Safe, AttemptsKeep}

module _ {S E A B : Type 0} (P : S → Type 0) (Q : B → Type 0) where
  continue-Keeps :
      (x : Result E A × S) (f : A → Action S E B)
      → P x.1
      → ((a : A) (t : S) → P t → Ensures (λ b u. P u × Q b) P (f a t))
      → Ensures (λ b u. P u × Q b) P (continue x.0 f x.1)
  continue-Keeps (ok a, s) f h k = k a s h
  continue-Keeps (err e, s) f h k = failed h

  continue-Gives :
      {R : A → Type 0} {x : Result E A × S} (f : A → Action S E B)
      → Ensures (λ a t. P t × R a) P x
      → ((a : A) (t : S) → P t → R a → Ensures (λ b u. P u × Q b) P (f a t))
      → Ensures (λ b u. P u × Q b) P (continue x.0 f x.1)
  continue-Gives f (returned q) k = k _ _ q.0 q.1
  continue-Gives f (failed h) k = failed h

module _ {X : Type 0} (facts : Facts) (pin hash : Text) (store : AttemptStore (Desk X) AppError)
    (laws : AttemptsKeep facts pin hash store) where
  abbrev pub Right : PinVerificationOutcome → Type 0
  Right outcome = outcome ≡ verified → facts.IsRight pin hash

  abbrev Checked : Result AppError PinVerificationOutcome × Desk X → Type 0
  Checked = Ensures (λ o t. Safe facts t × Right o) (Safe facts)

  written :
      (w : PinAttemptStateWrite) (p : PinAttemptState) (s : Desk X)
      → Safe facts s
      → Safe facts (write_back store w p s).1
  unfolding write_back
  written save_state p s h = (laws.save_law p).at s h
  written clear_state p s h = laws.clear_law.at s h

  updated :
      {T : Type 0} (f : PinAttemptState → PinAttemptState × PinAttemptStateWrite × T) (s : Desk X)
      → Safe facts s
      → Ensures
          (λ b u. Safe facts u × Unit {0})
          (Safe facts)
          (update_pin_attempt_state_with store f s)
  unfolding update_pin_attempt_state_with
  updated f s h =
      continue-Keeps (Safe facts) (λ _. Unit {0}) (store.load s) _ (laws.load_law.at s h)
        (λ p t k.
          continue-Keeps (Safe facts) (λ _. Unit {0}) (write_back store (f p).1 (f p).0 t) _
            (written (f p).1 (f p).0 t k) (λ _ u l. returned (l, tt)))

  wrong : (o : Option ℕ) → Right (after_failure store o)
  unfolding after_failure
  wrong none e = cc
  wrong (some ms) e = cc

  checked :
      (b : Bool) (s : Desk X)
      → Safe facts s
      → (b ≡ true → facts.IsRight pin hash)
      → Checked (after_check store b s)
  unfolding after_check
  checked true s h r =
      continue-Gives (Safe facts) Right _ (updated (forget_failures store) s h)
        (λ _ t k _. returned (k, λ _. r refl))
  checked false s h r =
      continue-Keeps (Safe facts) Right (store.clock_snapshot s) _ (laws.clock_law.at s h)
        (λ clock t k.
          continue-Gives (Safe facts) Right _ (updated (record_failure store clock) t k)
            (λ o u l _. returned (l, wrong o)))

  waited : (o : Option ℕ) (s : Desk X) → Safe facts s → Checked (after_cooldown store o s)
  unfolding after_cooldown
  waited none s h =
      continue-Gives (Safe facts) Right _ (laws.verify_law.at s h) (λ b t k r. checked b t k r)
  waited (some ms) s h = returned (h, λ e. cc)

  pub verify-Gives : Gives (Safe facts) Right (verify_pin_with_cooldown store)
  unfolding verify_pin_with_cooldown
  verify-Gives = record {
    at = λ s h.
        continue-Keeps (Safe facts) Right (store.clock_snapshot s) _ (laws.clock_law.at s h)
          (λ clock t k.
            continue-Gives (Safe facts) Right _ (updated (check_cooldown store clock) t k)
              (λ o u l _. waited o u l));
  }
