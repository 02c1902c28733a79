-- ===== src/Phone/Session/Tokens.antt =====
-- Tokens: an operation that was authenticated before a lock or a move to the background finishes
-- with an error after it.
use mathlib.Core.Bool.{true≢false}
use mathlib.Core.Option.{none-ne-some}
use ferusa.Base.{
  Bool-cases, inl, inr, sym, ◌∙◌, ℕ, ◌≤◌, ◌<◌, ◌≡◌, refl, Bool, true, false, not, ◌||◌, Option,
  none, some, arith, ◌==◌, ok, err,
}
use ferusa.Phone.Throttle.Cooldown.{u64_max}
use ferusa.Phone.Session.State.{
  Secrets, AppState, session_expired, new, clear_session, lock, set_foreground,
  check_authentication_generation, mark_approval_key_authenticated, complete_unlock,
  begin_pairing_replacement, complete_pairing_replacement, cancel_pairing_replacement,
}
use ferusa.Phone.Session.Requests.{consume_pairing_replacement_authorization}

-- One step of the app. The writes of `setup_complete` and `check_setup` to `secrets` and
-- `is_setup`, and those of `start_pairing` and `clear_approval_key_authenticated`, are steps of
-- their own, since another task can run between them.
pub data Step (s : AppState) : AppState → Type 0 where
  locks : Step s (lock s)
  moves : (foreground : Bool) → Step s (set_foreground foreground s)
  marks : (now expected : ℕ) → Step s (mark_approval_key_authenticated now expected s).1
  unlocks : (now expected : ℕ) (x : Secrets) → Step s (complete_unlock now expected x s).1
  begins_replacement : Step s (begin_pairing_replacement s).1
  completes_replacement :
      (now : ℕ) (expected : ℕ × ℕ) → Step s (complete_pairing_replacement now expected s).1
  cancels_replacement : Step s (cancel_pairing_replacement s)
  consumes_replacement : (now : ℕ) → Step s (consume_pairing_replacement_authorization now s).0
  publishes_secrets : (x : Secrets) → Step s (record s { secrets = some x })
  publishes_setup : Step s (record s { is_setup = true })
  shows_code : (code : Option ℕ) → Step s (record s { setup_pairing_code = code })
  forgets_approval : Step s (record s { approval_key_authenticated_at = none })

pub data Reach (s : AppState) : AppState → Type 0 where
  start : Reach s s
  next : {t u : AppState} → Reach s t → Step t u → Reach s u

-- What holds of the app at any time.
pub record IsGuarded (s : AppState) : Type 0 where
  pub locked_away : s.is_foreground ≡ false → s.unlocked_at ≡ none
  pub approval_away : s.is_foreground ≡ false → s.approval_key_authenticated_at ≡ none
  pub replacement_away : s.is_foreground ≡ false → s.pairing_replacement_authorized_at ≡ none
  pub unlocked_secrets : s.secrets ≡ none → s.unlocked_at ≡ none

-- A state that has just been cleared, and one in the foreground.
cleared : (s : AppState) → IsGuarded (clear_session s)
unfolding clear_session
cleared s = record {
  locked_away = λ _. refl;
  approval_away = λ _. refl;
  replacement_away = λ _. refl;
  unlocked_secrets = λ _. refl;
}

open_guarded :
    {s : AppState}
    → s.is_foreground ≡ true
    → (s.secrets ≡ none → s.unlocked_at ≡ none)
    → IsGuarded s
open_guarded h k = record {
  locked_away = λ e. absurd (true≢false (sym h ∙ e));
  approval_away = λ e. absurd (true≢false (sym h ∙ e));
  replacement_away = λ e. absurd (true≢false (sym h ∙ e));
  unlocked_secrets = k;
}

Step-IsGuarded : {s t : AppState} → Step s t → IsGuarded s → IsGuarded t
unfolding clear_session set_foreground mark_approval_key_authenticated complete_unlock
    begin_pairing_replacement complete_pairing_replacement cancel_pairing_replacement
    check_authentication_generation consume_pairing_replacement_authorization
Step-IsGuarded {s} locks g = cleared s
Step-IsGuarded {s} (moves true) g = record {
  locked_away = λ e. absurd (true≢false e);
  approval_away = λ e. absurd (true≢false e);
  replacement_away = λ e. absurd (true≢false e);
  unlocked_secrets = g.unlocked_secrets;
}
Step-IsGuarded {s} (moves false) g = cleared (record s { is_foreground = false })
Step-IsGuarded {s} (marks now e) g =
    elim (Bool-cases (not (e == s.session_generation) || not s.is_foreground)) [
      | inl h ↦ rw h g
      | inr h ↦ rw h (open_guarded (ground arith) g.unlocked_secrets)
    ]
Step-IsGuarded {s} (unlocks now e x) g =
    elim (Bool-cases (not (e == s.session_generation) || not s.is_foreground)) [
      | inl h ↦ rw h g
      | inr h ↦ rw h (open_guarded (ground arith) (λ k. absurd (none-ne-some x (sym k))))
    ]
Step-IsGuarded {s} begins_replacement g =
    elim (Bool-cases (not (s.session_generation == s.session_generation) || not s.is_foreground)) [
      | inl h ↦ rw h g
      | inr h ↦ rw h (open_guarded (ground arith) g.unlocked_secrets)
    ]
Step-IsGuarded {s} (completes_replacement now e) g =
    elim (Bool-cases (not (e.0 == s.session_generation) || not s.is_foreground)) [
      | inl h ↦ rw h g
      | inr h ↦ rw h (elim (Bool-cases (not (s.replacement_generation == e.1))) [
        | inl k ↦ rw k g
        | inr k ↦ rw k (open_guarded (ground arith) g.unlocked_secrets)
      ])
    ]
Step-IsGuarded {s} cancels_replacement g = record {
  locked_away = g.locked_away;
  approval_away = g.approval_away;
  replacement_away = λ _. refl;
  unlocked_secrets = g.unlocked_secrets;
}
Step-IsGuarded {s} (consumes_replacement now) g = record {
  locked_away = g.locked_away;
  approval_away = g.approval_away;
  replacement_away = λ _. refl;
  unlocked_secrets = g.unlocked_secrets;
}
Step-IsGuarded {s} (publishes_secrets x) g = record {
  locked_away = g.locked_away;
  approval_away = g.approval_away;
  replacement_away = g.replacement_away;
  unlocked_secrets = λ k. absurd (none-ne-some x (sym k));
}
Step-IsGuarded {s} publishes_setup g = record {
  locked_away = g.locked_away;
  approval_away = g.approval_away;
  replacement_away = g.replacement_away;
  unlocked_secrets = g.unlocked_secrets;
}
Step-IsGuarded {s} (shows_code code) g = record {
  locked_away = g.locked_away;
  approval_away = g.approval_away;
  replacement_away = g.replacement_away;
  unlocked_secrets = g.unlocked_secrets;
}
Step-IsGuarded {s} forgets_approval g = record {
  locked_away = g.locked_away;
  approval_away = λ _. refl;
  replacement_away = g.replacement_away;
  unlocked_secrets = g.unlocked_secrets;
}

new-IsGuarded : IsGuarded new
new-IsGuarded = record {
  locked_away = λ _. refl;
  approval_away = λ _. refl;
  replacement_away = λ _. refl;
  unlocked_secrets = λ _. refl;
}

-- Whatever the app has done since its start: in the background it is not unlocked, and neither the
-- approval key nor a new pairing is authorized; and it is never unlocked without secrets.
pub Reach-IsGuarded : {s : AppState} → Reach new s → IsGuarded s
Reach-IsGuarded start = new-IsGuarded
Reach-IsGuarded (next h st) = Step-IsGuarded st (Reach-IsGuarded h)

Step-grows :
    {s t : AppState}
    → Step s t
    → s.session_generation ≤ u64_max
    → (s.session_generation ≤ t.session_generation) × (t.session_generation ≤ u64_max)
unfolding clear_session set_foreground mark_approval_key_authenticated complete_unlock
    begin_pairing_replacement complete_pairing_replacement cancel_pairing_replacement
    check_authentication_generation consume_pairing_replacement_authorization
Step-grows locks g = omega arith
Step-grows (moves true) g = omega arith
Step-grows (moves false) g = omega arith
Step-grows (marks now e) g = ground arith
Step-grows (unlocks now e x) g = ground arith
Step-grows begins_replacement g = ground arith
Step-grows (completes_replacement now e) g = ground arith
Step-grows cancels_replacement g = omega arith
Step-grows (consumes_replacement now) g = omega arith
Step-grows (publishes_secrets x) g = omega arith
Step-grows publishes_setup g = omega arith
Step-grows (shows_code code) g = omega arith
Step-grows forgets_approval g = omega arith

pub Reach-grows :
    {s t : AppState}
    → Reach s t
    → s.session_generation ≤ u64_max
    → (s.session_generation ≤ t.session_generation) × (t.session_generation ≤ u64_max)
Reach-grows start g = omega arith
Reach-grows (next h st) g =
    let a = Reach-grows h g in let b = Step-grows st a.1 in (omega arith, b.1)

-- Each operation that takes a token, given one of another session.
stale :
    (t : AppState) (token now r : ℕ) (x : Secrets)
    → token < t.session_generation
    → (mark_approval_key_authenticated now token t ≡ (err session_expired, t))
      × (complete_unlock now token x t ≡ (err session_expired, t))
      × (complete_pairing_replacement now (token, r) t ≡ (err session_expired, t))
unfolding mark_approval_key_authenticated complete_unlock complete_pairing_replacement
    check_authentication_generation
stale t token now r x h = (ground arith, ground arith, ground arith)

pub lock_grows :
    (s : AppState)
    → s.session_generation < u64_max
    → s.session_generation < (lock s).session_generation
unfolding clear_session
lock_grows s h = omega arith

pub lock_le : (s : AppState) → (lock s).session_generation ≤ u64_max
unfolding clear_session
lock_le s = omega arith

-- After a lock, whatever happens then, no operation completes that was authenticated before it: the
-- approval key is not marked, the app not unlocked and a replacement of the pairing not authorized,
-- and the state stays as it is. The session counter has not come to the end of u64.
pub Reach-stale :
    (s : AppState) {t : AppState} (token now r : ℕ) (x : Secrets)
    → token ≤ s.session_generation
    → s.session_generation < u64_max
    → Reach (lock s) t
    → (mark_approval_key_authenticated now token t ≡ (err session_expired, t))
      × (complete_unlock now token x t ≡ (err session_expired, t))
      × (complete_pairing_replacement now (token, r) t ≡ (err session_expired, t))
Reach-stale s {t} token now r x h k p =
    stale t token now r x (omega (arith, lock_grows s k, Reach-grows p (lock_le s)))

-- A replacement that was begun is authorized by its token, unless another one has begun or it was
-- cancelled: then the token is refused.
begin_complete :
    (s : AppState) (now : ℕ) (token : ℕ × ℕ)
    → (begin_pairing_replacement s).0 ≡ ok token
    → s.replacement_generation ≤ u64_max
    → ((complete_pairing_replacement now token (begin_pairing_replacement s).1).0 ≡ ok tt)
      × ((complete_pairing_replacement now token
            (cancel_pairing_replacement (begin_pairing_replacement s).1)).0
          ≡ err session_expired)
      × ((complete_pairing_replacement now token
            (begin_pairing_replacement (begin_pairing_replacement s).1).1).0
          ≡ err session_expired)
unfolding begin_pairing_replacement complete_pairing_replacement cancel_pairing_replacement
    check_authentication_generation
begin_complete s now token h w = (ground arith, ground arith, ground arith)
