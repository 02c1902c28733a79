-- ===== src/Core/Approval/Window.antt =====
-- What the tests on timestamps amount to.
use ferusa.Base.{ℕ, ◌+◌, ◌≤◌, ◌≡◌, ok, arith, ◌↔◌}
use ferusa.Core.Message.{AuthRequest, AuthResponse}
use ferusa.Core.Approval.{
  auth_timestamp_max_skew_ms, validate_auth_timestamp, validate_auth_exchange_timestamps,
}

-- At most five minutes apart, on either side.
pub IsFresh : ℕ → ℕ → Type 0
IsFresh timestamp now =
    (now ≤ timestamp + auth_timestamp_max_skew_ms) × (timestamp ≤ now + auth_timestamp_max_skew_ms)

-- An exchange is accepted exactly if the request and the response are both at most five minutes
-- older or newer than the clock.
pub exchange_iff :
    (req : AuthRequest) (resp : AuthResponse) (now : ℕ)
    → (validate_auth_exchange_timestamps req resp now ≡ ok tt)
      ↔ (IsFresh req.timestamp now × IsFresh resp.timestamp now)
unfolding validate_auth_exchange_timestamps validate_auth_timestamp IsFresh
exchange_iff req resp now =
    (λ h. ((ground arith, ground arith), (ground arith, ground arith)), λ h. ground arith)
