-- ===== src/Phone/Consent/Sound/Taking.antt =====
-- A pending request that is taken is the one that was admitted.
use ferusa.Base.{
  ℕ, ◌≡◌, ◌∙◌, sym, true, false, none, some, Result, ok, err, is_ok, arith, subst, ap, inl, inr,
  Bool-cases, not, ◌||◌, ◌==◌,
}
use ferusa.Base.Action.{Ensures, returned, failed}
use ferusa.Base.Method.Keeps.{Gives, Gives-bind}
use ferusa.Core.Message.{AuthRequest}
use ferusa.Phone.Session.State.{AppError, AppState}
use ferusa.Phone.Session.Taking.{take_iff}
use ferusa.Phone.Session.Requests.{
  same_identity, within, auth_session_ttl, PendingRequest, PendingIdentity, Slot,
  take_verified_pending, take_current,
}
use ferusa.Phone.Consent.Desk.{Outside}
use ferusa.Phone.Consent.Answering.{take_pending}
use ferusa.Phone.Consent.Sound.{Facts, Filed, Safe, OthersKeep}
use ferusa.Phone.Consent.Sound.Steps.{with_slot-Gives, wait-Keeps, draw-Keeps}

same_identity→eq : (a b : PendingIdentity) → same_identity a b ≡ true → a ≡ b
same_identity→eq a b h = ground arith

module _ {X : Type 0} (facts : Facts) (out : Outside X) (others : OthersKeep facts out) where
  -- A request that is taken is the one that was admitted under the identity.
  abbrev pub IsTaken : PendingIdentity → PendingRequest AuthRequest → Type 0
  IsTaken identity p =
      (p.request ≡ facts.contents p.identity) × (p.request ≡ facts.contents identity)

  untaken :
      {A : Type 0} {Q : A → Type 0} (p : PendingRequest AuthRequest)
      (x : Result AppError A × Slot AuthRequest)
      → (is_ok x.0 ≡ false) × (x.1 ≡ some p)
      → Filed facts (some p)
      → Ensures (λ a slot. Filed facts slot × Q a) (Filed facts) x
  untaken p (ok a, slot) e h = absurd (ground arith)
  untaken p (err e, slot) e' h = failed (subst (Filed facts) (sym e'.1) h)

  taken :
      (identity : PendingIdentity) (checked now : ℕ) (s : AppState) (slot : Slot AuthRequest)
      → Filed facts slot
      → Ensures
          (λ p slot'. Filed facts slot' × IsTaken identity p)
          (Filed facts)
          (take_verified_pending s identity checked now slot)
  unfolding take_verified_pending take_current
  taken identity checked now s none h =
      elim (Bool-cases
        (not (s.session_generation == identity.session_generation) || not s.is_foreground)) [
          | inl e ↦ rw e (failed tt)
          | inr e ↦ elim (Bool-cases (not (within auth_session_ttl checked s.unlocked_at))) [
            | inl f ↦ rw (e, f) (failed tt)
            | inr f ↦ rw (e, f) (failed tt)
          ]
        ]
  taken identity checked now s (some p) h =
      let t = take_iff s identity checked now p in
      elim t.1 [
        | inl e ↦
            let same = (t.0.0 (ap (λ x. is_ok x.0) e)).same_request in
            rw e (
              returned (tt, (h, h ∙ ap facts.contents (same_identity→eq p.identity identity same))))
        | inr e ↦ untaken p _ e h
      ]

  pub take_pending-Gives :
      (identity : PendingIdentity)
      → Gives (Safe facts) (IsTaken identity) (take_pending out identity)
  unfolding take_pending
  take_pending-Gives identity = Gives-bind _ _ (wait-Keeps facts out others) (λ _.
      Gives-bind _ _ (draw-Keeps facts out.now) (λ checked.
        Gives-bind _ _ (draw-Keeps facts out.now)
          (λ now. with_slot-Gives facts _ (taken identity checked now))))
