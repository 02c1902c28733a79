-- ===== src/Phone/Storage/Refusals.antt =====
-- What the pairing code refuses, and that a refusal leaves the slots and the generations alone.
use mathlib.Core.Bool.{false≢true}
use ferusa.Base.{
  ℕ, ◌≡◌, sym, ap, ◌∙◌, Bool, true, false, not, Option, none, some, arith, is_some, ok_or, ok, ◌⊎◌,
  Result, inl, inr, ◌||◌, ◌==◌,
}
use ferusa.Base.Action.{Ensures, returned, failed, continue-Ensures, bail_if}
use ferusa.Phone.Storage.Types.{Failure, Crates, PairingStore, not_in_store}
use ferusa.Phone.Storage.Generation.{holds}
use ferusa.Phone.Storage.Cleanup.{
  finalize_if_equal, finalize_active_activation, discard_pending, clear_uncommitted_pending,
}
use ferusa.Phone.Storage.Transaction.{
  begin_pending_pairing, commit_pending, commit_inactive, commit_pending_generation,
  abort_unstarted_pairing, is_other, activate_found, activate_pending, activate_generation,
}
use ferusa.Phone.Storage.Laws.{StoreLaws, CrateLaws}
use ferusa.Phone.Storage.View.{active, staging, pending, committed, View}
use ferusa.Phone.Storage.Effects.{Now, load_id-Ensures, bail-Ensures, lifted-Ensures}

module _ {S : Type 0} {c : Crates} {store : PairingStore S} (cl : CrateLaws c)
    (sl : StoreLaws store) where
  -- The action fails, and the store is seen as before.
  abbrev pub Refused : {A : Type 0} → View → Result Failure A × S → Type 0
  Refused v = Ensures (λ _ _. ⊥) (Now c sl v)

  -- The active generation, if any, is not the committed one.
  abbrev pub IsOpen : View → Type 0
  IsOpen v = (u : ℕ) → v.at active ≡ some u → holds (v.at committed) u ≡ false

  open-finalize :
      (a o : Option ℕ) (v : View) (s : S)
      → IsOpen v
      → a ≡ v.at active
      → o ≡ v.at committed
      → Now c sl v s
      → Ensures (λ _. Now c sl v) (Now c sl v) (finalize_if_equal c store a o s)
  unfolding finalize_if_equal
  open-finalize none o v s op e f n = returned n
  open-finalize (some u) o v s op e f n = rw (ap (λ x. holds x u) f ∙ op u (sym e)) (returned n)

  open_finalize-Ensures :
      (v : View) (s : S)
      → IsOpen v
      → Now c sl v s
      → Ensures (λ _. Now c sl v) (Now c sl v) (finalize_active_activation c store s)
  unfolding finalize_active_activation
  open_finalize-Ensures v s op n =
      continue-Ensures _ (load_id-Ensures cl sl active v s n)
        (λ a t h.
          continue-Ensures _ (load_id-Ensures cl sl committed v t h.1)
            (λ o t' h'. open-finalize a o v t' op h.0 h'.0 h'.1) (λ t m. m))
        (λ t m. m)

  bail-Refused :
      (b : Bool) (e : Failure) (v : View) (t : S)
      → b ≡ true
      → Now c sl v t
      → Refused v (bail_if b e t)
  bail-Refused true e v t h n = failed n
  bail-Refused false e v t h n = absurd (false≢true h)

  some-is_some : (o : Option ℕ) (u : ℕ) → o ≡ some u → is_some o ≡ true
  some-is_some o u e = ap is_some e

  -- While a generation is pending, and is not the finished activation's, no new pairing begins.
  pub begin-Refused :
      (u w : ℕ) (v : View) (s : S)
      → v.at pending ≡ some w
      → IsOpen v
      → Now c sl v s
      → Refused v (begin_pending_pairing c store u s)
  unfolding begin_pending_pairing
  begin-Refused u w v s e op n =
      continue-Ensures _ (open_finalize-Ensures v s op n)
        (λ _ t m.
          continue-Ensures _ (load_id-Ensures cl sl pending v t m)
            (λ o t h.
              continue-Ensures _ (bail-Refused (is_some o) _ v t (some-is_some o w (h.0 ∙ e)) h.1)
                (λ _ t x. absurd x) (λ t m. m))
            (λ t m. m))
        (λ t m. m)

  clear-Refused :
      (w : ℕ) (v : View) (s : S)
      → v.at committed ≡ some w
      → IsOpen v
      → Now c sl v s
      → Refused v (clear_uncommitted_pending c store s)
  unfolding clear_uncommitted_pending discard_pending
  clear-Refused w v s e op n =
      continue-Ensures _ (open_finalize-Ensures v s op n)
        (λ _ t m.
          continue-Ensures _ (load_id-Ensures cl sl committed v t m)
            (λ o t h.
              continue-Ensures _ (bail-Refused (is_some o) _ v t (some-is_some o w (h.0 ∙ e)) h.1)
                (λ _ t x. absurd x) (λ t m. m))
            (λ t m. m))
        (λ t m. m)

  -- What is committed and not yet active cannot be aborted.
  abort-Refused :
      (u w : ℕ) (v : View) (s : S)
      → v.at committed ≡ some w
      → IsOpen v
      → Now c sl v s
      → Refused v (abort_unstarted_pairing c store u s)
  unfolding abort_unstarted_pairing
  abort-Refused u w v s e op n =
      continue-Ensures _ (load_id-Ensures cl sl staging v s n)
        (λ o t h.
          continue-Ensures _ (bail-Ensures cl sl (is_other o u) _ v t h.1)
            (λ _ t b.
              continue-Ensures _ (load_id-Ensures cl sl pending v t b.1)
                (λ o t h.
                  continue-Ensures _ (bail-Ensures cl sl (is_other o u) _ v t h.1)
                    (λ _ t b. clear-Refused w v t e op b.1) (λ t m. m))
                (λ t m. m))
            (λ t m. m))
        (λ t m. m)

  -- An id that is neither active, committed nor pending cannot be committed.
  commit-Refused :
      (u : ℕ) (v : View) (s : S)
      → holds (v.at active) u ≡ false
      → holds (v.at committed) u ≡ false
      → holds (v.at pending) u ≡ false
      → Now c sl v s
      → Refused v (commit_pending_generation c store u s)
  unfolding commit_pending_generation commit_inactive commit_pending
  commit-Refused u v s a b p n =
      continue-Ensures _ (load_id-Ensures cl sl active v s n)
        (λ o t h. rw (ap (λ x. holds x u) h.0 ∙ a) (
          continue-Ensures _ (load_id-Ensures cl sl committed v t h.1)
            (λ o t h. rw (ap (λ x. holds x u) h.0 ∙ b) (
              continue-Ensures _ (load_id-Ensures cl sl pending v t h.1)
                (λ o t h.
                  continue-Ensures _
                    (bail-Refused (not (holds o u)) _ v t (ap (λ x. not (holds x u)) h.0 ∙ ap not p)
                      h.1)
                    (λ _ t x. absurd x) (λ t m. m))
                (λ t m. m)))
            (λ t m. m)))
        (λ t m. m)

  named : (o : Option ℕ) (p : ℕ) (u : ℕ) → ok_or o not_in_store ≡ ok p → holds o u ≡ (p == u)
  named o p u h = ground arith

  mismatch :
      (p q u : ℕ) → ((p == u) ≡ false) ⊎ ((q == u) ≡ false) → (not (p == q) || not (q == u)) ≡ true
  mismatch p q u h = ground arith

  -- A generation that is not active is activated only if it is both pending and committed.
  pub activate-Refused :
      (u : ℕ) (v : View) (s : S)
      → holds (v.at active) u ≡ false
      → (holds (v.at pending) u ≡ false) ⊎ (holds (v.at committed) u ≡ false)
      → Now c sl v s
      → Refused v (activate_generation c store u s)
  unfolding activate_generation activate_pending activate_found
  activate-Refused u v s a d n =
      continue-Ensures _ (load_id-Ensures cl sl active v s n)
        (λ o t h. rw (ap (λ x. holds x u) h.0 ∙ a) (
          continue-Ensures _ (load_id-Ensures cl sl pending v t h.1)
            (λ o t h.
              continue-Ensures _ (lifted-Ensures cl sl v t (ok_or o not_in_store) h.1)
                (λ p t l.
                  continue-Ensures _ (load_id-Ensures cl sl committed v t l.1)
                    (λ o' t h'.
                      continue-Ensures _ (lifted-Ensures cl sl v t (ok_or o' not_in_store) h'.1)
                        (λ q t l'.
                          continue-Ensures _
                            (bail-Refused (not (p == q) || not (q == u)) _ v t
                              (mismatch p q u (sides o o' p q h.0 h'.0 l.0 l'.0)) l'.1)
                            (λ _ t x. absurd x) (λ t m. m))
                        (λ t m. m))
                    (λ t m. m))
                (λ t m. m))
            (λ t m. m)))
        (λ t m. m)
    where
      sides :
          (o o' : Option ℕ) (p q : ℕ)
          → o ≡ v.at pending
          → o' ≡ v.at committed
          → ok_or o not_in_store ≡ ok p
          → ok_or o' not_in_store ≡ ok q
          → ((p == u) ≡ false) ⊎ ((q == u) ≡ false)
      sides o o' p q e e' h h' = elim d [
        | inl x ↦ inl (sym (named o p u h) ∙ ap (λ y. holds y u) e ∙ x)
        | inr x ↦ inr (sym (named o' q u h') ∙ ap (λ y. holds y u) e' ∙ x)
      ]
