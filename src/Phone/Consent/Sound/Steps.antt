-- ===== src/Phone/Consent/Sound/Steps.antt =====
-- The steps that handlers are made of keep the desk safe.
use ferusa.Base.{ℕ, Result}
use ferusa.Base.Action.{Action, Ensures, returned, failed}
use ferusa.Base.Method.Keeps.{
  Keeps, Gives, Keeps-pure, Keeps-fail, Keeps-lift, Keeps-if, Keeps-attempt, Keeps-bind,
}
use ferusa.Core.Message.{AuthRequest}
use ferusa.Phone.Session.State.{AppState, AppError}
use ferusa.Phone.Session.Requests.{Slot}
use ferusa.Phone.Consent.Desk.{Desk, Outside, draw, app, change_app, on_app, with_slot, wait}
use ferusa.Phone.Consent.Sound.{Facts, Filed, AllMeant, Safe, SafeAct, OthersKeep}

module _ (facts : Facts) {X : Type 0} where
  pub draw-Keeps : (f : X → ℕ × X) → SafeAct facts (draw f)
  unfolding draw
  draw-Keeps f = record { at = λ s h. h }

  pub app-Keeps : SafeAct facts {X = X} app
  unfolding app
  app-Keeps = record { at = λ s h. h }

  pub change_app-Keeps : (f : AppState → AppState) → SafeAct facts {X = X} (change_app f)
  unfolding change_app
  change_app-Keeps f = record { at = λ s h. h }

  pub on_app-Keeps :
      {A : Type 0} (m : Action AppState AppError A) → SafeAct facts {X = X} (on_app m)
  unfolding on_app
  on_app-Keeps m = record { at = λ s h. h }

  put :
      {A : Type 0} {Q : A → Type 0} (s : Desk X) {x : Result AppError A × Slot AuthRequest}
      → Ensures (λ a slot. Filed facts slot × Q a) (Filed facts) x
      → AllMeant facts s.asked
      → Ensures (λ a t. Safe facts t × Q a) (Safe facts) (with_slot (λ _ _. x) s)
  unfolding with_slot
  put s (returned q) m = returned (record { filed = q.0; meant = m }, q.1)
  put s (failed h) m = failed (record { filed = h; meant = m })

  pub with_slot-Keeps :
      {A : Type 0} (f : AppState → Slot AuthRequest → Result AppError A × Slot AuthRequest)
      → ((s : AppState) (slot : Slot AuthRequest) → Filed facts slot → Filed facts (f s slot).1)
      → SafeAct facts {X = X} (with_slot f)
  unfolding with_slot
  with_slot-Keeps f k = record {
    at = λ s h. record { filed = k s.app s.slot h.filed; meant = h.meant };
  }

  pub with_slot-Gives :
      {A : Type 0} {Q : A → Type 0}
      (f : AppState → Slot AuthRequest → Result AppError A × Slot AuthRequest)
      → ((s : AppState) (slot : Slot AuthRequest)
          → Filed facts slot
          → Ensures (λ a slot'. Filed facts slot' × Q a) (Filed facts) (f s slot))
      → Gives (Safe facts {X = X}) Q (with_slot f)
  unfolding with_slot
  with_slot-Gives f k = record { at = λ s h. put s (k s.app s.slot h.filed) h.meant }

  pub wait-Keeps : (out : Outside X) → OthersKeep facts out → SafeAct facts (wait out)
  unfolding wait
  wait-Keeps out others = record { at = λ s h. others.pause_law s h }

pub ruleset step_rules = (
  Keeps-pure, Keeps-fail, Keeps-lift, Keeps-if, Keeps-attempt, Keeps-bind, draw-Keeps, app-Keeps,
  change_app-Keeps, on_app-Keeps, wait-Keeps,
)
