-- ===== src/Phone/Session/Tests.antt =====
-- An app that is unlocked, and requests to it.
use ferusa.Base.{◌≡◌, refl, true, false, none, some, [], ◌∷◌, ◌⊎◌, ◌↔◌, Text, ok, err, is_ok, arith}
use ferusa.Phone.Session.State.{
  check_authentication_generation, Secrets, AppState, session_expired, new, lock,
  mark_approval_key_authenticated, complete_unlock, begin_pairing_replacement,
  complete_pairing_replacement, set_foreground,
}
use ferusa.Phone.Session.Requests.{
  retain, take_current, within, PendingIdentity, PendingRequest, remember_request_id,
  take_verified_pending, restore_pending_after_sign_error, is_current,
}
use ferusa.Phone.Session.Tokens.{
  Reach, start, next, moves, unlocks, IsGuarded, Reach-IsGuarded, Reach-stale,
}
use ferusa.Phone.Session.Replay.{after_requests, remember-remember}
use ferusa.Phone.Session.Taking.{IsTakable, take_iff, lock-restore}

abbrev some_secrets : Secrets
some_secrets = record {
  pairing_id = 7;
  approval_key_alias = 1 ∷ [];
  approval_public_key_der = 2 ∷ [];
  phone_share = 3 ∷ [];
  pin4_hash = 4 ∷ [];
  pin6_hash = 5 ∷ [];
  cli_node_id = 6 ∷ [];
}

abbrev shown : AppState
shown = record new { is_foreground = true }

abbrev open_app : AppState
open_app = record shown {
  secrets = some some_secrets;
  unlocked_at = some 100;
  session_generation = 1;
}

to_open : Reach new (complete_unlock 100 0 some_secrets (set_foreground true new)).1
to_open = next (next start (moves true)) (unlocks 100 0 some_secrets)

Reach-IsGuarded_example : IsGuarded (complete_unlock 100 0 some_secrets (set_foreground true new)).1
Reach-IsGuarded_example = Reach-IsGuarded to_open

unlocked : (complete_unlock 100 0 some_secrets (set_foreground true new)).1 ≡ open_app
unfolding complete_unlock set_foreground check_authentication_generation
unlocked = refl

-- The biometric prompt of the unlock was answered after the app went away and came back.
Reach-stale_example :
    (mark_approval_key_authenticated 300 0 (set_foreground true (lock shown))
      ≡ (err session_expired, set_foreground true (lock shown)))
    × (complete_unlock 300 0 some_secrets (set_foreground true (lock shown))
        ≡ (err session_expired, set_foreground true (lock shown)))
    × (complete_pairing_replacement 300 (0, 1) (set_foreground true (lock shown))
        ≡ (err session_expired, set_foreground true (lock shown)))
Reach-stale_example =
    Reach-stale shown 0 300 1 some_secrets (omega arith) (omega arith) (next start (moves true))

begun_token : (begin_pairing_replacement shown).0 ≡ ok (0, 1)
unfolding begin_pairing_replacement check_authentication_generation
begun_token = refl

admitted_9 : (remember_request_id [] 9 1000).1 ≡ true
unfolding remember_request_id retain
admitted_9 = refl

remember-remember_example :
    (remember_request_id
      (after_requests (remember_request_id [] 9 1000).0 ((8, 2000) ∷ []))
      9
      600999).1
    ≡ false
remember-remember_example =
    remember-remember [] ((8, 2000) ∷ []) 9 1000 600999 admitted_9 (omega arith, tt) (omega arith)

-- Ten minutes later the id is new again.
forgotten_9 : (remember_request_id (remember_request_id [] 9 1000).0 9 601000).1 ≡ true
unfolding remember_request_id retain
forgotten_9 = refl

abbrev identity : PendingIdentity
identity = record { request_id = 9; instance_id = 1; session_generation = 1; created_at = 1000 }

abbrev waiting : PendingRequest Text
waiting = record { request = []; request_id = 9; identity = identity }

take_iff_example :
    ((is_ok (take_verified_pending open_app identity 2000 2001 (some waiting)).0 ≡ true)
      ↔ IsTakable open_app identity 2000 2001 waiting)
    × ((take_verified_pending open_app identity 2000 2001 (some waiting) ≡ (ok waiting, none))
        ⊎ ((is_ok (take_verified_pending open_app identity 2000 2001 (some waiting)).0 ≡ false)
            × ((take_verified_pending open_app identity 2000 2001 (some waiting)).1
                ≡ some waiting)))
take_iff_example = take_iff open_app identity 2000 2001 waiting

takes : take_verified_pending open_app identity 2000 2001 (some waiting) ≡ (ok waiting, none)
unfolding take_verified_pending take_current is_current within
takes = refl

lock-restore_example :
    restore_pending_after_sign_error (set_foreground true (lock open_app)) waiting 2002 none ≡ none
lock-restore_example =
    lock-restore open_app waiting none 2002 (omega arith) (omega arith) (next start (moves true))
