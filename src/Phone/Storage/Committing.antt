-- ===== src/Phone/Storage/Committing.antt =====
-- Committing and activating a generation: what each does, wherever it stops.
use ferusa.Base.{
  ℕ, ◌≡◌, refl, sym, ap, ◌∙◌, true, false, not, Option, none, some, ==_iff, arith, ◌⊎◌, inl, inr,
  Bool-cases, is_some,
}
use ferusa.Base.Action.{Ensures, returned, continue-Ensures, Ensures-mono}
use ferusa.Phone.Storage.Types.{Crates, PairingStore}
use ferusa.Phone.Storage.Generation.{holds}
use ferusa.Phone.Storage.Transaction.{
  finish_active, recommit, commit_pending, commit_inactive, commit_pending_generation,
}
use ferusa.Phone.Storage.Laws.{StoreLaws, CrateLaws}
use ferusa.Phone.Storage.View.{active, pending, committed, View, held, put}
use ferusa.Phone.Storage.Invariant.{Inv, Inv-commit}
use ferusa.Phone.Storage.Effects.{
  Now, Safe, load_id-Ensures, save_id-Ensures, load_valid-Ensures, bail-Ensures,
}
use ferusa.Phone.Storage.Finalizing.{here, either-Safe, finalize-Ensures}
use ferusa.Phone.Storage.Pairing.{Reached, reached, not-holds}

pub holds-some : (o : Option ℕ) (u : ℕ) → holds o u ≡ true → o ≡ some u
holds-some none u h = ground arith
holds-some (some w) u h = ap some ((==_iff w u).0 h)

module _ {S : Type 0} {c : Crates} {store : PairingStore S} (cl : CrateLaws c)
    (sl : StoreLaws store) where
  pub finish_active-Ensures :
      (u : ℕ) (v : View) (s : S)
      → Inv v
      → v.at active ≡ some u
      → Now c sl v s
      → Ensures
          (λ g.
            Reached cl sl
              (λ w. (g.pairing_id ≡ u) × (w.at active ≡ some u) × (v.generation u ≡ some g)))
          (Safe c sl)
          (finish_active c store u s)
  unfolding finish_active
  finish_active-Ensures u v s i e n =
      continue-Ensures _ (load_valid-Ensures cl sl u v s n)
        (λ g t h.
          continue-Ensures _ (finalize-Ensures cl sl v t i h.2)
            (λ _ t a. returned (reached cl sl a.view t a.inv (h.1, a.active_same ∙ e, h.0) a.now))
            (λ t x. x))
        (λ t. here cl sl v t i)

  -- What a successful commit of `u` tells: `u` is active or committed, and was found stored and
  -- valid.
  abbrev pub Committed : View → ℕ → View → Type 0
  Committed v u w = ((w.at active ≡ some u) ⊎ (w.at committed ≡ some u)) × (held v u ≡ true)

  commit_pending-Ensures :
      (u : ℕ) (v : View) (s : S)
      → Inv v
      → holds (v.at active) u ≡ false
      → Now c sl v s
      → Ensures (λ _. Reached cl sl (Committed v u)) (Safe c sl) (commit_pending c store u s)
  unfolding commit_pending
  commit_pending-Ensures u v s i a n =
      continue-Ensures _ (load_id-Ensures cl sl pending v s n)
        (λ o t h.
          continue-Ensures _ (bail-Ensures cl sl (not (holds o u)) _ v t h.1)
            (λ _ t b.
              continue-Ensures _ (load_valid-Ensures cl sl u v t b.1)
                (λ g t d.
                  let made : Inv (put committed (some u) v) =
                    Inv-commit v u i (sym h.0 ∙ not-holds o u b.0) a (ap is_some d.0) in
                  Ensures-mono (save_id-Ensures cl sl committed u v t d.2)
                    (λ _ t m.
                      reached cl sl (put committed (some u) v) t made (inr refl, ap is_some d.0) m)
                    (λ t. either-Safe cl sl _ _ t i made))
                (λ t. here cl sl v t i))
            (λ t. here cl sl v t i))
        (λ t. here cl sl v t i)

  recommit-Ensures :
      (u : ℕ) (v : View) (s : S)
      → Inv v
      → v.at committed ≡ some u
      → Now c sl v s
      → Ensures (λ _. Reached cl sl (Committed v u)) (Safe c sl) (recommit c store u s)
  unfolding recommit
  recommit-Ensures u v s i e n =
      continue-Ensures _ (load_valid-Ensures cl sl u v s n)
        (λ g t h. returned (reached cl sl v t i (inr e, ap is_some h.0) h.2))
        (λ t. here cl sl v t i)

  commit_inactive-Ensures :
      (u : ℕ) (v : View) (s : S)
      → Inv v
      → holds (v.at active) u ≡ false
      → Now c sl v s
      → Ensures (λ _. Reached cl sl (Committed v u)) (Safe c sl) (commit_inactive c store u s)
  unfolding commit_inactive
  commit_inactive-Ensures u v s i a n =
      continue-Ensures _ (load_id-Ensures cl sl committed v s n)
        (λ o t h. elim (Bool-cases (holds o u)) [
          | inl e ↦ rw e (recommit-Ensures u v t i (sym h.0 ∙ holds-some o u e) h.1)
          | inr e ↦ rw e (commit_pending-Ensures u v t i a h.1)
        ])
        (λ t. here cl sl v t i)

  -- A commit that returns ends with the generation active or committed, and it was stored and valid
  -- before; however it ends, the invariant holds.
  pub commit-Ensures :
      (u : ℕ) (v : View) (s : S)
      → Inv v
      → Now c sl v s
      → Ensures
          (λ _. Reached cl sl (Committed v u))
          (Safe c sl)
          (commit_pending_generation c store u s)
  unfolding commit_pending_generation
  commit-Ensures u v s i n =
      continue-Ensures _ (load_id-Ensures cl sl active v s n)
        (λ o t h. elim (Bool-cases (holds o u)) [
          | inl e ↦ rw e (
              continue-Ensures _ (finish_active-Ensures u v t i (sym h.0 ∙ holds-some o u e) h.1)
                (λ g t r.
                  returned (reached cl sl r.view t r.inv (inl r.fact.1, ap is_some r.fact.2) r.now))
                (λ t x. x))
          | inr e ↦ rw e (commit_inactive-Ensures u v t i (ap (λ o. holds o u) (sym h.0) ∙ e) h.1)
        ])
        (λ t. here cl sl v t i)
