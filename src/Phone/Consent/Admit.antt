-- ===== src/Phone/Consent/Admit.antt =====
-- A request that arrives: the `Request` case of `serve_connection`, and `is_authorized_auth_peer`.
use ferusa.Base.{
  ℕ, Bool, true, false, not, Option, none, some, Text, text_eq, ◌==◌, if◌then◌else◌, Result, ok,
  is_ok,
}
use ferusa.Base.Method.{or_else, update, pure, attempt, ◌>>=◌, ◌>>◌}
use ferusa.Core.Message.{AuthRequest}
use ferusa.Core.Approval.{validate_auth_timestamp}
use ferusa.Phone.Session.State.{AppState, AppError, Secrets}
use ferusa.Phone.Session.Requests.{
  PendingRequest, PendingIdentity, Slot, same_identity, remember_request_id,
}
use ferusa.Phone.Consent.Desk.{Act, Outside, draw, app, with_slot, wait}
use ferusa.Phone.Consent.Answering.{send_signed_response, approval_key_auth_is_current}
use ferusa.Phone.Consent.Expiry.{ensure_active_session, deny_taken}

-- The connection goes on, or it is closed and the loop ends.
pub data Served : Type 0 where
  goes_on closes : Served

-- What became of the request in the slot: stored, its id already used, or another one pending.
pub data Admission : Type 0 where
  stored reused occupied : Admission

-- `remote_id.as_bytes() == &secrets.cli_node_id` of an app that is unlocked.
unfoldable pub is_paired_node : Text → Option Secrets → Bool
is_paired_node remote none = false
is_paired_node remote (some secrets) = text_eq remote secrets.cli_node_id

abbrev pub identity_of : AuthRequest → ℕ → ℕ → ℕ → PendingIdentity
identity_of req instance_id generation created_at = record {
  request_id = req.request_id;
  instance_id = instance_id;
  session_generation = generation;
  created_at = created_at;
}

abbrev pub pending_of : AuthRequest → PendingIdentity → PendingRequest AuthRequest
pending_of req identity = record { request = req; request_id = req.request_id; identity = identity }

-- The slot and the ids afterwards. A request that is pending is never replaced.
unfoldable pub admit :
    AuthRequest
    → PendingIdentity
    → AppState
    → Slot AuthRequest
    → Admission × AppState × Slot AuthRequest
unfolding remember_request_id
admit req identity s (some p) = (occupied, s, some p)
admit req identity s none =
    let (recent, fresh) =
      remember_request_id s.recent_request_ids req.request_id identity.created_at in
    let s' = record s { recent_request_ids = recent } in
    if fresh then (stored, s', some (pending_of req identity)) else (reused, s', none)

-- The request if it is still this one, and what is left.
unfoldable pub take_hidden :
    PendingIdentity → Slot AuthRequest → Result AppError (Slot AuthRequest) × Slot AuthRequest
take_hidden identity none = (ok none, none)
take_hidden identity (some p) =
    if same_identity p.identity identity then (ok (some p), none) else (ok none, some p)

module _ {X : Type 0} (out : Outside X) where
  unfoldable pub is_authorized_auth_peer : Text → Act X Bool
  is_authorized_auth_peer remote = do
    wait out
    s ← app
    if not s.is_setup
        then pure false
        else (do wait out; t ← app; pure (is_paired_node remote t.secrets))

  abbrev pub close_connection : Act X Served
  close_connection = do attempt out.close; pure closes

  -- `app_handle.emit(…)` has failed: the user will not see the request.
  unfoldable pub hide_request : PendingIdentity → Text → Act X Served
  hide_request identity alias = do
    wait out
    taken ← with_slot (λ _ slot. take_hidden identity slot)
    deny_taken out taken (some alias)
    pure goes_on

  unfoldable pub emit_request : PendingIdentity → Text → Act X Served
  emit_request identity alias =
      or_else (out.emit >> pure goes_on) (λ _. hide_request identity alias)

  unfoldable pub after_admission :
      AuthRequest → PendingIdentity → Text → Bool → Admission → Act X Served
  after_admission req identity alias authenticated stored = emit_request identity alias
  after_admission req identity alias authenticated rejected =
      if authenticated
      then (do attempt (send_signed_response out alias req false none); pure goes_on)
      else pure goes_on

  unfoldable pub admit_on : AuthRequest → PendingIdentity → Act X Admission
  admit_on req identity = update (λ s.
      let (admission, app', slot') = admit req identity s.app s.slot in
      (admission, record s { app = app'; slot = slot' }))

  -- The lock on the session's generation is held until the request is in the slot or is rejected.
  unfoldable pub store_request : AuthRequest → Text → Bool → Act X Served
  store_request req alias authenticated = do
    wait out
    s ← app
    if not s.is_foreground then close_connection else (do
      instance_id ← draw out.new_v4
      now ← draw out.now
      let identity = identity_of req instance_id s.session_generation now
      admission ← admit_on req identity
      after_admission req identity alias authenticated admission)

  unfoldable pub check_pairing : AuthRequest → Option Secrets → Act X Served
  check_pairing req none = close_connection
  check_pairing req (some secrets) = do
    authenticated ← approval_key_auth_is_current out
    if not (secrets.pairing_id == req.pairing_id)
        then close_connection
        else store_request req secrets.approval_key_alias authenticated

  -- `ensure_active_session(…).await.is_err()`.
  unfoldable pub active : Act X Bool
  active = or_else (ensure_active_session out >> pure true) (λ _. pure false)

  unfoldable pub serve_request : Text → AuthRequest → Act X Served
  serve_request remote req = do
    authorized ← is_authorized_auth_peer remote
    if not authorized then close_connection else (do
      date ← draw out.current_time_ms
      if not (is_ok (validate_auth_timestamp req.timestamp date)) then close_connection else (do
        going ← active
        if not going
            then close_connection
            else (do wait out; s ← app; check_pairing req s.secrets)))
