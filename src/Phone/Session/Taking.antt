-- ===== src/Phone/Session/Taking.antt =====
-- When a pending request is taken, and what can be put back.
use ferusa.Base.{
  not, ℕ, ◌-◌, ◌≤◌, ◌<◌, ◌≡◌, true, false, none, some, arith, ok, is_ok, ◌⊎◌, ◌↔◌, ap,
}
use ferusa.Phone.Throttle.Cooldown.{u64_max}
use ferusa.Phone.Session.State.{AppState, lock}
use ferusa.Phone.Session.Requests.{
  PendingIdentity, PendingRequest, Slot, within, is_current, same_identity,
  pending_request_is_expired, take_current, take_verified_pending, restore_pending_after_sign_error,
  auth_session_ttl, pending_request_ttl,
}
use ferusa.Phone.Session.Tokens.{Reach, Reach-grows, lock_grows, lock_le}

-- What it takes for a request to be handed out.
pub record IsTakable {R : Type 0} (s : AppState) (expected : PendingIdentity) (checked now : ℕ)
    (p : PendingRequest R) : Type 0 where
  pub in_foreground : s.is_foreground ≡ true
  pub same_session : s.session_generation ≡ expected.session_generation
  pub session_fresh : within auth_session_ttl checked s.unlocked_at ≡ true
  pub same_id : p.request_id ≡ expected.request_id
  pub same_request : same_identity p.identity expected ≡ true
  pub request_fresh : now - p.identity.created_at < pending_request_ttl

taken :
    {R : Type 0} (s : AppState) (expected : PendingIdentity) (checked now : ℕ)
    (p : PendingRequest R)
    → IsTakable s expected checked now p
    → take_verified_pending s expected checked now (some p) ≡ (ok p, none)
unfolding take_verified_pending take_current is_current
taken s expected checked now p t =
    let a = t.in_foreground in
    let b = t.same_session in
    let c = t.session_fresh in
    let d = t.same_id in let e = t.same_request in let f = t.request_fresh in ground arith

left :
    {R : Type 0} (s : AppState) (expected : PendingIdentity) (checked now : ℕ)
    (p : PendingRequest R)
    → (take_verified_pending s expected checked now (some p) ≡ (ok p, none))
      ⊎ ((is_ok (take_verified_pending s expected checked now (some p)).0 ≡ false)
          × ((take_verified_pending s expected checked now (some p)).1 ≡ some p))
unfolding take_verified_pending take_current is_current
left s expected checked now p = ground arith

takable :
    {R : Type 0} (s : AppState) (expected : PendingIdentity) (checked now : ℕ)
    (p : PendingRequest R)
    → is_ok (take_verified_pending s expected checked now (some p)).0 ≡ true
    → IsTakable s expected checked now p
unfolding take_verified_pending take_current is_current
takable s expected checked now p h = record {
  in_foreground = ground arith;
  same_session = ground arith;
  session_fresh = ground arith;
  same_id = ground arith;
  same_request = ground arith;
  request_fresh = ground arith;
}

-- The pending request is taken exactly if the app is in the foreground, in the session that
-- admitted the request, unlocked for at most ten minutes, and the request is the expected one and
-- younger than 65 seconds: then none is pending any more. Otherwise there is an error and the slot
-- stays as it was.
pub take_iff :
    {R : Type 0} (s : AppState) (expected : PendingIdentity) (checked now : ℕ)
    (p : PendingRequest R)
    → ((is_ok (take_verified_pending s expected checked now (some p)).0 ≡ true)
        ↔ IsTakable s expected checked now p)
      × ((take_verified_pending s expected checked now (some p) ≡ (ok p, none))
          ⊎ ((is_ok (take_verified_pending s expected checked now (some p)).0 ≡ false)
              × ((take_verified_pending s expected checked now (some p)).1 ≡ some p)))
take_iff s expected checked now p = (
  (takable s expected checked now p, λ t. ap (λ x. is_ok x.0) (taken s expected checked now p t)),
  left s expected checked now p,
)

-- A request that was taken before a lock is not put back after it, whatever happens in between.
pub lock-restore :
    {R : Type 0} (s : AppState) {t : AppState} (p : PendingRequest R) (slot : Slot R) (now : ℕ)
    → p.identity.session_generation ≤ s.session_generation
    → s.session_generation < u64_max
    → Reach (lock s) t
    → restore_pending_after_sign_error t p now slot ≡ slot
unfolding restore_pending_after_sign_error
lock-restore s {t} p slot now h k r = ground (arith, lock_grows s k, Reach-grows r (lock_le s))

-- A request with the expected identity has expired exactly if it is not current.
expired-current :
    (pending expected : PendingIdentity) (now : ℕ)
    → same_identity pending expected ≡ true
    → pending_request_is_expired pending expected now ≡ not (is_current pending expected now)
unfolding pending_request_is_expired is_current
expired-current pending expected now h = ground arith
