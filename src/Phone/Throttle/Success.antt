-- ===== src/Phone/Throttle/Success.antt =====
-- A PIN check returns where nothing under it fails.
use ferusa.Base.{ℕ, ◌≡◌, refl, Bool, true, false, Option, none, some, is_ok}
use ferusa.Base.Returning.{Returns, returning, continue-Returns, ok-Returns, Returns-ok, yields}
use ferusa.Phone.Throttle.Cooldown.{PinAttemptState}
use ferusa.Phone.Throttle.Attempt.{
  PinAttemptStateWrite, save_state, clear_state, AttemptStore, write_back,
  update_pin_attempt_state_with, check_cooldown, forget_failures, record_failure, after_check,
  after_cooldown, verify_pin_with_cooldown,
}
use ferusa.Phone.Throttle.Laws.{Device, AttemptLaws, Explains}
use ferusa.Phone.Throttle.Outcomes.{verify-Explains}

-- No call of the store, the clock or the PIN check fails.
pub record IsReliable {S E : Type 0} (store : AttemptStore S E) : Type 0 where
  pub loads : (s : S) → is_ok (store.load s).0 ≡ true
  pub saves : (p : PinAttemptState) (s : S) → is_ok (store.save p s).0 ≡ true
  pub clears : (s : S) → is_ok (store.clear s).0 ≡ true
  pub ticks : (s : S) → is_ok (store.clock_snapshot s).0 ≡ true
  pub checks : (s : S) → is_ok (store.verify_pin s).0 ≡ true

module _ {S E : Type 0} {store : AttemptStore S E} (reliable : IsReliable store) where
  write_back-ok :
      (w : PinAttemptStateWrite) (p : PinAttemptState) (s : S)
      → is_ok (write_back store w p s).0 ≡ true
  unfolding write_back
  write_back-ok save_state p s = reliable.saves p s
  write_back-ok clear_state p s = reliable.clears s

  update-ok :
      {T : Type 0} (f : PinAttemptState → PinAttemptState × PinAttemptStateWrite × T) (s : S)
      → is_ok (update_pin_attempt_state_with store f s).0 ≡ true
  unfolding update_pin_attempt_state_with
  update-ok f s = Returns-ok (
      continue-Returns {Q = λ _ _. Unit {0}} _ (ok-Returns _ (reliable.loads s)) (λ p t _.
        continue-Returns _ (ok-Returns _ (write_back-ok (f p).1 (f p).0 t)) (λ _ t2 _. yields tt)))

  after_check-ok : (b : Bool) (s : S) → is_ok (after_check store b s).0 ≡ true
  unfolding after_check
  after_check-ok true s = Returns-ok (
      continue-Returns {Q = λ _ _. Unit {0}} _ (ok-Returns _ (update-ok (forget_failures store) s))
        (λ _ t _. yields tt))
  after_check-ok false s = Returns-ok (
      continue-Returns {Q = λ _ _. Unit {0}} _ (ok-Returns _ (reliable.ticks s)) (λ clock t _.
        continue-Returns _ (ok-Returns _ (update-ok (record_failure store clock) t))
          (λ _ t2 _. yields tt)))

  after_cooldown-ok : (o : Option ℕ) (s : S) → is_ok (after_cooldown store o s).0 ≡ true
  unfolding after_cooldown
  after_cooldown-ok none s = Returns-ok (
      continue-Returns {Q = λ _ _. Unit {0}} _ (ok-Returns _ (reliable.checks s))
        (λ b t _. ok-Returns _ (after_check-ok b t)))
  after_cooldown-ok (some ms) s = refl

  verify-ok : (s : S) → is_ok (verify_pin_with_cooldown store s).0 ≡ true
  unfolding verify_pin_with_cooldown
  verify-ok s = Returns-ok (
      continue-Returns {Q = λ _ _. Unit {0}} _ (ok-Returns _ (reliable.ticks s)) (λ clock t _.
        continue-Returns _ (ok-Returns _ (update-ok (check_cooldown store clock) t))
          (λ o t2 _. ok-Returns _ (after_cooldown-ok o t2))))

  -- Where no call under it fails, a PIN check returns, and its outcome, the PIN that was entered,
  -- and the phone before and after it go together. Under a cooldown, by the clock read in the call,
  -- the PIN is not compared, the outcome tells the time that is left and the state is that of the
  -- cooldown check. Otherwise the PIN is compared once: a right PIN is verified and no failures stay
  -- stored, a wrong one is stored as one more failure, with the cooldown that starts if there is
  -- one.
  pub verify-Returns :
      {d : Device S} {answer : Bool} (laws : AttemptLaws d store answer) (s : S)
      → Returns (λ out t. Explains d answer s t out) (verify_pin_with_cooldown store s)
  verify-Returns laws s = returning (verify-Explains laws s) (verify-ok s)
