-- ===== src/Phone/Throttle/Outcomes.antt =====
-- What each outcome of `verify_pin_with_cooldown` says of the stored state.
use ferusa.Base.{ℕ, ◌+◌, ◌≡◌, refl, sym, ap, ap₂, ◌∙◌, Bool, true, false, Option, none, some, arith}
use ferusa.Base.Action.{Ensures, returned, continue-Ensures}
use ferusa.Phone.Throttle.Cooldown.{
  PinAttemptState, ClockSnapshot, default, active_cooldown_remaining_ms, record_pin_failure_state,
}
use ferusa.Phone.Throttle.Attempt.{
  PinAttemptStateWrite, save_state, AttemptStore, update_pin_attempt_state_with, check_cooldown,
  forget_failures, record_failure, after_failure, after_check, after_cooldown,
  verify_pin_with_cooldown,
}
use ferusa.Phone.Throttle.Laws.{
  Device, Later, Later-trans, Moves, AttemptLaws, Explains, refused, passed, counted, started,
}

-- The cooldown of `s` was looked at, by the clock `k`, and `n` PINs were compared since.
record Cooled {S : Type 0} (d : Device S) (k : ClockSnapshot) (n : ℕ) (s t : S) : Type 0 where
  before : Later (d.clock s) k
  after : Later k (d.clock t)
  state : d.peek t ≡ (active_cooldown_remaining_ms (d.peek s) k).0
  count : d.asked t ≡ d.asked s + n

module _ {S E : Type 0} {d : Device S} {store : AttemptStore S E} {answer : Bool}
    (laws : AttemptLaws d store answer) where
  open d use {peek, clock, asked}

  Moves-trans :
      {p q : PinAttemptState} {n : ℕ} (s t u : S)
      → Moves d p 0 s t
      → Moves d q n t u
      → Moves d q n s u
  Moves-trans s t u m m' = record {
    state = m'.state;
    count = omega (arith, m.count, m'.count);
    time = Later-trans (clock s) (clock t) (clock u) m.time m'.time;
  }

  Cooled-Moves :
      {k : ClockSnapshot} {n : ℕ} (s t u : S)
      → Cooled d k 0 s t
      → Moves d (peek t) n t u
      → Cooled d k n s u
  Cooled-Moves {k} s t u c m = record {
    before = c.before;
    after = Later-trans k (clock t) (clock u) c.after m.time;
    state = m.state ∙ c.state;
    count = omega (arith, c.count, m.count);
  }

  saved :
      {T : Type 0} (f : PinAttemptState → PinAttemptState × PinAttemptStateWrite × T) (s : S)
      → (f (peek s)).1 ≡ save_state
      → Ensures
          (λ x t. (x ≡ (f (peek s)).2) × Moves d (f (peek s)).0 0 s t)
          (λ t. Unit {0})
          (update_pin_attempt_state_with store f s)
  unfolding update_pin_attempt_state_with
  saved f s h =
      continue-Ensures _ (laws.load_law s)
        (λ p t e.
          rw (e.0, h)
            (continue-Ensures _ (laws.save_law (f (peek s)).0 t)
              (λ _ t' m. returned (refl, Moves-trans s t t' e.1 m)) (λ t' x. x)))
        (λ t x. x)

  cleared :
      (s : S)
      → Ensures
          (λ _ t. Moves d default 0 s t)
          (λ t. Unit {0})
          (update_pin_attempt_state_with store (forget_failures store) s)
  unfolding update_pin_attempt_state_with
  cleared s =
      continue-Ensures _ (laws.load_law s)
        (λ x t h.
          continue-Ensures _ (laws.clear_law t) (λ _ t' m. returned (Moves-trans s t t' h.1 m))
            (λ t' x. x))
        (λ t x. x)

  failure-Explains :
      (k l : ClockSnapshot) (s t u : S) (o : Option ℕ)
      → answer ≡ false
      → (active_cooldown_remaining_ms (peek s) k).1 ≡ none
      → Cooled d k 1 s t
      → Later k l
      → Later l (clock u)
      → record_pin_failure_state (active_cooldown_remaining_ms (peek s) k).0 l ≡ (peek u, o)
      → asked u ≡ asked t
      → Explains d answer s u (after_failure store o)
  unfolding after_failure
  failure-Explains k l s t u none w a c h i b n = counted k l w c.before h i a b (n ∙ c.count)
  failure-Explains k l s t u (some ms) w a c h i b n =
      started k l ms w c.before h i a b (n ∙ c.count)

  after_check-Explains :
      (b : Bool) (k : ClockSnapshot) (s t : S)
      → b ≡ answer
      → (active_cooldown_remaining_ms (peek s) k).1 ≡ none
      → Cooled d k 1 s t
      → Ensures (λ o u. Explains d answer s u o) (λ u. Unit {0}) (after_check store b t)
  unfolding after_check
  after_check-Explains true k s t e a c =
      continue-Ensures _ (cleared t)
        (λ _ u m. returned (
          passed k (sym e) c.before (Later-trans k (clock t) (clock u) c.after m.time) a m.state
            (omega (arith, c.count, m.count))))
        (λ u x. x)
  after_check-Explains false k s t e a c =
      continue-Ensures _ (laws.clock_law t)
        (λ l u (m, h, i).
          continue-Ensures _ (saved (record_failure store l) u refl)
            (λ o v (x, m'). returned (
              failure-Explains k l s t v o (sym e) a c (Later-trans k (clock t) l c.after h)
                (Later-trans l (clock u) (clock v) i m'.time)
                (ap (λ p. record_pin_failure_state p l) (sym (m.state ∙ c.state))
                  ∙ ap₂ (λ a b. (a, b)) (sym m'.state) (sym x))
                (omega (arith, m.count, m'.count))))
            (λ v x. x))
        (λ u x. x)

  after_cooldown-Explains :
      (o : Option ℕ) (k : ClockSnapshot) (s t : S)
      → o ≡ (active_cooldown_remaining_ms (peek s) k).1
      → Cooled d k 0 s t
      → Ensures (λ out u. Explains d answer s u out) (λ u. Unit {0}) (after_cooldown store o t)
  unfolding after_cooldown
  after_cooldown-Explains none k s t e c =
      continue-Ensures _ (laws.verify_law t)
        (λ b u h. after_check-Explains b k s u h.0 (sym e) (Cooled-Moves s t u c h.1)) (λ u x. x)
  after_cooldown-Explains (some ms) k s t e c = returned (
      refused k ms c.before c.after (ap₂ (λ a b. (a, b)) (sym c.state) (sym e))
        (omega (arith, c.count)))

  -- A call that returns either met a cooldown, compared nothing and tells what is left of it, or
  -- compared the PIN once: a right one leaves no failures behind, and a wrong one is stored as one
  -- more failure.
  pub verify-Explains :
      (s : S)
      → Ensures
          (λ out t. Explains d answer s t out)
          (λ t. Unit {0})
          (verify_pin_with_cooldown store s)
  unfolding verify_pin_with_cooldown
  verify-Explains s =
      continue-Ensures _ (laws.clock_law s)
        (λ k t (m, h, i).
          continue-Ensures _ (saved (check_cooldown store k) t refl)
            (λ o u (x, m').
              after_cooldown-Explains o k s u
                (x ∙ ap (λ p. (active_cooldown_remaining_ms p k).1) m.state)
                (record {
                  before = h;
                  after = Later-trans k (clock t) (clock u) i m'.time;
                  state = m'.state ∙ ap (λ p. (active_cooldown_remaining_ms p k).0) m.state;
                  count = omega (arith, m.count, m'.count);
                }))
            (λ u x. x))
        (λ t x. x)
