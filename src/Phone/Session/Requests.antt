-- ===== src/Phone/Session/Requests.antt =====
-- Requests of commands.rs: how long a session, an authorization and a request live, which ids are
-- remembered, and how a pending request is taken and put back.
use ferusa.Base.{
  ℕ, ◌-◌, Bool, true, false, not, ◌||◌, ◌&&◌, Option, none, some, List, [], ◌∷◌, leb, ltb, ◌==◌,
  if◌then◌else◌, Result, ok, err, length, any, is_some,
}
use ferusa.Phone.Session.State.{
  AppState, AppError, session_expired, pending_missing, pending_mismatch,
}

abbrev pub auth_session_ttl : ℕ
auth_session_ttl = 600000

abbrev pub pending_request_ttl : ℕ
pending_request_ttl = 65000

abbrev pub max_recent_request_ids : ℕ
max_recent_request_ids = 4096

-- `is_some_and(auth_session_is_current)`, at the clock's `now`.
unfoldable pub within : ℕ → ℕ → Option ℕ → Bool
within ttl now none = false
within ttl now (some at) = leb (now - at) ttl

unfoldable pub retain : ℕ → List (ℕ × ℕ) → List (ℕ × ℕ)
retain now [] = []
retain now ((id, seen_at) ∷ rest) =
    let kept = retain now rest in
    if ltb (now - seen_at) auth_session_ttl then (id, seen_at) ∷ kept else kept

abbrev pub has_id : ℕ → ℕ × ℕ → Bool
has_id request_id entry = entry.0 == request_id

-- The map afterwards, and whether the id was new.
unfoldable pub remember_request_id : List (ℕ × ℕ) → ℕ → ℕ → List (ℕ × ℕ) × Bool
unfolding retain
remember_request_id recent request_id now =
    let kept = retain now recent in
    if any (has_id request_id) kept || leb max_recent_request_ids (length kept)
    then (kept, false)
    else ((request_id, now) ∷ kept, true)

pub record PendingIdentity : Type 0 where
  pub request_id : ℕ
  pub instance_id : ℕ
  pub session_generation : ℕ
  pub created_at : ℕ

abbrev pub same_identity : PendingIdentity → PendingIdentity → Bool
same_identity a b =
    a.request_id == b.request_id
    && a.instance_id == b.instance_id
    && a.session_generation == b.session_generation
    && a.created_at == b.created_at

-- `PendingIdentity::is_current`.
unfoldable pub is_current : PendingIdentity → PendingIdentity → ℕ → Bool
is_current identity expected now =
    same_identity identity expected && ltb (now - identity.created_at) pending_request_ttl

-- The request, its stream and its connection are a value of type `R` that has an id.
pub record PendingRequest (R : Type 0) : Type 0 where
  pub request : R
  pub request_id : ℕ
  pub identity : PendingIdentity

abbrev pub Slot : Type 0 → Type 0
Slot R = Option (PendingRequest R)

module _ {R : Type 0} where
  unfoldable pub take_current :
      PendingIdentity → ℕ → Slot R → Result AppError (PendingRequest R) × Slot R
  unfolding is_current
  take_current expected now none = (err pending_missing, none)
  take_current expected now (some p) =
      if not (p.request_id == expected.request_id) || not (is_current p.identity expected now)
      then (err pending_mismatch, some p)
      else (ok p, none)

  -- The clock is read at `checked` for the session and at `now` for the request.
  unfoldable pub take_verified_pending :
      AppState → PendingIdentity → ℕ → ℕ → Slot R → Result AppError (PendingRequest R) × Slot R
  unfolding take_current within
  take_verified_pending s expected checked now slot =
      if not (s.session_generation == expected.session_generation) || not s.is_foreground
      then (err session_expired, slot)
      else if not (within auth_session_ttl checked s.unlocked_at)
      then (err session_expired, slot)
      else take_current expected now slot

  unfoldable pub restore_pending_after_sign_error :
      AppState → PendingRequest R → ℕ → Slot R → Slot R
  unfolding is_current
  restore_pending_after_sign_error s p now slot =
      if s.session_generation == p.identity.session_generation
        && s.is_foreground
        && is_current p.identity p.identity now
      then if is_some slot then slot else some p
      else slot

-- `pending_request_is_expired`: the request is still the expected one, and too old.
unfoldable pub pending_request_is_expired : PendingIdentity → PendingIdentity → ℕ → Bool
pending_request_is_expired pending expected now =
    same_identity pending expected && leb pending_request_ttl (now - pending.created_at)

-- `consume_pairing_replacement_authorization`: the answer, and the state without authorization.
unfoldable pub consume_pairing_replacement_authorization : ℕ → AppState → AppState × Bool
unfolding within
consume_pairing_replacement_authorization now s = (
  record s { pairing_replacement_authorized_at = none },
  within auth_session_ttl now s.pairing_replacement_authorized_at,
)
