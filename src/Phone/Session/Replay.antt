-- ===== src/Phone/Session/Replay.antt =====
-- Which request ids are admitted.
use ferusa.Base.{
  ℕ, ◌+◌, ◌-◌, ◌<◌, ◌≡◌, Bool, true, false, ◌&&◌, List, [], ◌∷◌, arith, ltb, ◌==◌, any, Bool-cases,
  inl, inr, length, ◌≤◌,
}
use ferusa.Phone.Session.Requests.{
  auth_session_ttl, retain, has_id, remember_request_id, max_recent_request_ids,
}

-- The map after a series of requests, each with its id and the time of the call.
unfoldable pub after_requests : List (ℕ × ℕ) → List (ℕ × ℕ) → List (ℕ × ℕ)
after_requests recent [] = recent
after_requests recent ((id, now) ∷ rest) = after_requests (remember_request_id recent id now).0 rest

-- All calls come less than the lifetime of a session after `at`.
abbrev pub AllWithin : ℕ → List (ℕ × ℕ) → Type 0
AllWithin at [] = Unit {0}
AllWithin at ((id, now) ∷ rest) = (now < at + auth_session_ttl) × AllWithin at rest

-- The entry that was made at `at`.
abbrev entry_is : ℕ → ℕ → ℕ × ℕ → Bool
entry_is id at e = e.0 == id && e.1 == at

retain_entry :
    (id at now : ℕ) (l : List (ℕ × ℕ))
    → now < at + auth_session_ttl
    → any (entry_is id at) l ≡ true
    → any (entry_is id at) (retain now l) ≡ true
unfolding retain
retain_entry id at now [] h k = k
retain_entry id at now ((i, seen) ∷ rest) h k =
    elim (Bool-cases (ltb (now - seen) auth_session_ttl)) [
      | inl e ↦ rw e (ground (arith, retain_entry id at now rest))
      | inr e ↦ rw e (ground (arith, retain_entry id at now rest))
    ]

entry_id : (id at : ℕ) (l : List (ℕ × ℕ)) → any (entry_is id at) l ≡ true → any (has_id id) l ≡ true
entry_id id at [] k = k
entry_id id at (e ∷ rest) k = ground (arith, entry_id id at rest)

remember_entry :
    (id at other now : ℕ) (l : List (ℕ × ℕ))
    → now < at + auth_session_ttl
    → any (entry_is id at) l ≡ true
    → any (entry_is id at) (remember_request_id l other now).0 ≡ true
unfolding remember_request_id
remember_entry id at other now l h k = ground (arith, retain_entry id at now l h k)

after_entry :
    (id at : ℕ) (calls l : List (ℕ × ℕ))
    → AllWithin at calls
    → any (entry_is id at) l ≡ true
    → any (entry_is id at) (after_requests l calls) ≡ true
unfolding after_requests
after_entry id at [] l h k = k
after_entry id at ((other, now) ∷ rest) l h k =
    after_entry id at rest (remember_request_id l other now).0 h.1
      (remember_entry id at other now l h.0 k)

admitted :
    (id at : ℕ) (l : List (ℕ × ℕ))
    → (remember_request_id l id at).1 ≡ true
    → any (entry_is id at) (remember_request_id l id at).0 ≡ true
unfolding remember_request_id
admitted id at l h = ground arith

refused :
    (id now : ℕ) (l : List (ℕ × ℕ))
    → any (has_id id) (retain now l) ≡ true
    → (remember_request_id l id now).1 ≡ false
unfolding remember_request_id
refused id now l h = ground arith

-- An id that was admitted is refused until ten minutes later, whatever other requests come between.
pub remember-remember :
    (recent calls : List (ℕ × ℕ)) (id at later : ℕ)
    → (remember_request_id recent id at).1 ≡ true
    → AllWithin at calls
    → later < at + auth_session_ttl
    → (remember_request_id (after_requests (remember_request_id recent id at).0 calls) id later).1
      ≡ false
remember-remember recent calls id at later h k l = refused id later _ (
    entry_id id at _
      (retain_entry id at later _ l (after_entry id at calls _ k (admitted id at recent h))))

length-retain : (now : ℕ) (l : List (ℕ × ℕ)) → length (retain now l) ≤ length l
unfolding retain
length-retain now [] = omega arith
length-retain now ((i, seen) ∷ rest) = ground (arith, length-retain now rest)

remember_length :
    (l : List (ℕ × ℕ)) (id now : ℕ)
    → length l ≤ max_recent_request_ids
    → length (remember_request_id l id now).0 ≤ max_recent_request_ids
unfolding remember_request_id
remember_length l id now h = ground (arith, length-retain now l)

-- However many requests come, no more than 4096 ids are kept.
length-after_requests :
    (calls recent : List (ℕ × ℕ))
    → length recent ≤ max_recent_request_ids
    → length (after_requests recent calls) ≤ max_recent_request_ids
unfolding after_requests
length-after_requests [] recent h = h
length-after_requests ((id, now) ∷ rest) recent h =
    length-after_requests rest (remember_request_id recent id now).0
      (remember_length recent id now h)
