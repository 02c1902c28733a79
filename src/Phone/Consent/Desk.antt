-- ===== src/Phone/Consent/Desk.antt =====
-- What the handlers share: the app's state, the one pending request, and what the approval key was
-- asked to sign. Other tasks run wherever a handler waits, so each call from outside, and each lock
-- that is waited for, may change all of it.
use ferusa.Base.{ℕ, List, Text, Result, ok}
use ferusa.Base.Action.{Action}
use ferusa.Core.Message.{AuthRequest, AuthResponse}
use ferusa.Core.Approval.{Signing}
use ferusa.Phone.Session.State.{AppState, AppError}
use ferusa.Phone.Session.Requests.{Slot}
use ferusa.Phone.Throttle.Attempt.{AttemptStore}

pub data PinKind : Type 0 where
  four_digit six_digit : PinKind

-- A payload that went to the approval key: the key's alias, and what the payload was made from.
pub record Ask : Type 0 where
  pub alias : Text
  pub request : AuthRequest
  pub response : AuthResponse

-- `world` is all that is neither: the clock, the network, the key store, and other tasks.
pub record Desk (X : Type 0) : Type 0 where
  pub app : AppState
  pub slot : Slot AuthRequest
  pub asked : List Ask
  pub world : X

abbrev pub Act : Type 0 → Type 0 → Type 0
Act X A = Action (Desk X) AppError A

-- `now` reads `Instant::now()`, `current_time_ms` the date, `new_v4` a UUID. `pause` is what other
-- tasks do while the handler waits for a lock.
pub record Outside (X : Type 0) : Type 0 where
  pub lib : Signing
  pub show_id : ℕ → Text
  pub now : X → ℕ × X
  pub current_time_ms : X → ℕ × X
  pub new_v4 : X → ℕ × X
  pub pause : Desk X → Desk X
  pub require_biometric : Act X (Unit {0})
  pub sign_approval : Text → Text → Act X Text
  pub send_response : AuthResponse → Act X (Unit {0})
  pub close : Act X (Unit {0})
  pub emit : Act X (Unit {0})
  pub attempts : PinKind → Text → Text → AttemptStore (Desk X) AppError

module _ {X : Type 0} where
  unfoldable pub draw : (X → ℕ × X) → Act X ℕ
  draw f s = let (n, x) = f s.world in (ok n, record s { world = x })

  unfoldable pub app : Act X AppState
  app s = (ok s.app, s)

  unfoldable pub change_app : (AppState → AppState) → Act X (Unit {0})
  change_app f s = (ok tt, record s { app = f s.app })

  put_app : {A : Type 0} → Desk X → Result AppError A × AppState → Result AppError A × Desk X
  put_app s (r, t) = (r, record s { app = t })

  -- An operation of `AppState` on the state that is shared.
  unfoldable pub on_app : {A : Type 0} → Action AppState AppError A → Act X A
  unfolding put_app
  on_app m s = put_app s (m s.app)

  put_slot :
      {A : Type 0} → Desk X → Result AppError A × Slot AuthRequest → Result AppError A × Desk X
  put_slot s (r, slot) = (r, record s { slot = slot })

  -- What is done while the pending request is locked.
  unfoldable pub with_slot :
      {A : Type 0} → (AppState → Slot AuthRequest → Result AppError A × Slot AuthRequest) → Act X A
  unfolding put_slot
  with_slot f s = put_slot s (f s.app s.slot)

  -- `lock().await`.
  unfoldable pub wait : Outside X → Act X (Unit {0})
  wait out s = (ok tt, out.pause s)
