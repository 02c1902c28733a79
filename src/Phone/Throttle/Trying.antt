-- ===== src/Phone/Throttle/Trying.antt =====
-- A call of `verify_pin_with_cooldown` with a wrong PIN, as a step on the stored state.
use mathlib.Core.Bool.{false≢true}
use ferusa.Base.{
  ℕ, ◌+◌, ◌≤◌, ◌≡◌, sym, ap, ap₂, ◌∙◌, Bool, true, false, Option, none, some, arith, Result, ok,
  err,
}
use ferusa.Base.Returning.{Returns, yields}
use ferusa.Phone.Throttle.Cooldown.{
  PinAttemptState, ClockSnapshot, active_cooldown_remaining_ms, record_pin_failure_state,
}
use ferusa.Phone.Throttle.Attempt.{PinVerificationOutcome}
use ferusa.Phone.Throttle.Laws.{Device, Later, Explains, refused, passed, counted, started}
use ferusa.Phone.Throttle.Allowance.{at_ms, wrong_guess, count}

-- What a try with a wrong PIN comes to: the clock was read at `t` and `t'`.
pub record Tried {S : Type 0} (d : Device S) (boot : ℕ) (u v : S) : Type 0 where
  pub t : ℕ
  pub t' : ℕ
  pub compared : Bool
  pub step : wrong_guess boot (d.peek u) t t' ≡ (d.peek v, compared)
  pub asked : d.asked v ≡ d.asked u + count compared
  pub from_start : (d.clock u).elapsed_realtime_ms ≤ t
  pub in_order : t ≤ t'
  pub to_end : t' ≤ (d.clock v).elapsed_realtime_ms
  pub on_boot : (d.clock v).boot_count ≡ boot

guess_refused :
    (boot t : ℕ) (p q : PinAttemptState) (ms : ℕ)
    → active_cooldown_remaining_ms p (at_ms boot t) ≡ (q, some ms)
    → wrong_guess boot p t t ≡ (q, false)
unfolding wrong_guess
guess_refused boot t p q ms e =
    ap
      (λ x. elim x.1 [
        | some r ↦ (x.0, false)
        | none ↦ ((record_pin_failure_state x.0 (at_ms boot t)).0, true)
      ])
      e

guess_compared :
    (boot t t' : ℕ) (p q : PinAttemptState) (o : Option ℕ)
    → (active_cooldown_remaining_ms p (at_ms boot t)).1 ≡ none
    → record_pin_failure_state (active_cooldown_remaining_ms p (at_ms boot t)).0 (at_ms boot t')
      ≡ (q, o)
    → wrong_guess boot p t t' ≡ (q, true)
unfolding wrong_guess
guess_compared boot t t' p q o e f =
    let before = (active_cooldown_remaining_ms p (at_ms boot t)).0 in
    ap
      (λ x. elim x [
        | some r ↦ (before, false)
        | none ↦ ((record_pin_failure_state before (at_ms boot t')).0, true)
      ])
      e
    ∙ ap (λ x. (x.0, true)) f

reading :
    (boot : ℕ) (k : ClockSnapshot) → k.boot_count ≡ boot → k ≡ at_ms boot k.elapsed_realtime_ms
reading boot k e = ap (λ b. at_ms b k.elapsed_realtime_ms) e

module _ {S : Type 0} {d : Device S} where
  compared-Tried :
      (u v : S) (k l : ClockSnapshot) (o : Option ℕ)
      → Later (d.clock u) k
      → Later k l
      → Later l (d.clock v)
      → (active_cooldown_remaining_ms (d.peek u) k).1 ≡ none
      → record_pin_failure_state (active_cooldown_remaining_ms (d.peek u) k).0 l ≡ (d.peek v, o)
      → d.asked v ≡ d.asked u + 1
      → Tried d (d.clock u).boot_count u v
  compared-Tried u v k l o h i j e f n =
      let boot = (d.clock u).boot_count in
      let k_at = reading boot k h.one_boot in
      let l_at = reading boot l (i.one_boot ∙ h.one_boot) in
      record {
        t = k.elapsed_realtime_ms;
        t' = l.elapsed_realtime_ms;
        compared = true;
        step =
            guess_compared boot k.elapsed_realtime_ms l.elapsed_realtime_ms (d.peek u) (d.peek v) o
              (ap (λ x. (active_cooldown_remaining_ms (d.peek u) x).1) (sym k_at) ∙ e)
              (ap₂ (λ x y. record_pin_failure_state (active_cooldown_remaining_ms (d.peek u) x).0 y)
                  (sym k_at) (sym l_at)
                ∙ f);
        asked = n;
        from_start = h.not_before;
        in_order = i.not_before;
        to_end = j.not_before;
        on_boot = j.one_boot ∙ i.one_boot ∙ h.one_boot;
      }

  Explains-Tried :
      (u v : S) (out : PinVerificationOutcome)
      → Explains d false u v out
      → Tried d (d.clock u).boot_count u v
  Explains-Tried u v out (refused k ms h i e n) = record {
    t = k.elapsed_realtime_ms;
    t' = k.elapsed_realtime_ms;
    compared = false;
    step =
        guess_refused (d.clock u).boot_count k.elapsed_realtime_ms (d.peek u) (d.peek v) ms
          (ap (active_cooldown_remaining_ms (d.peek u)) (sym (reading _ k h.one_boot)) ∙ e);
    asked = omega (arith, n);
    from_start = h.not_before;
    in_order = omega arith;
    to_end = i.not_before;
    on_boot = i.one_boot ∙ h.one_boot;
  }
  Explains-Tried u v out (passed k w h i e f n) = absurd (false≢true w)
  Explains-Tried u v out (counted k l w h i j e f n) = compared-Tried u v k l none h i j e f n
  Explains-Tried u v out (started k l ms w h i j e f n) =
      compared-Tried u v k l (some ms) h i j e f n

  pub Returns-Tried :
      {E : Type 0} (u : S) (x : Result E PinVerificationOutcome × S)
      → Returns (λ out v. Explains d false u v out) x
      → Tried d (d.clock u).boot_count u x.1
  Returns-Tried u (ok out, v) (yields e) = Explains-Tried u v out e
  Returns-Tried u (err x, v) h = elim h [ ]
