-- ===== src/Phone/Storage/Activating.antt =====
-- Activating a generation, and what is left of the transaction cleaned up. What this does,
-- wherever it stops.
use ferusa.Base.{
  ℕ, ◌≡◌, sym, ap, ◌∙◌, true, false, not, Option, some, ◌==◌, arith, inl, inr, Bool-cases, ok_or,
  codes, ◌++◌, refl, ok, ◌||◌,
}
use ferusa.Base.Action.{Ensures, returned, continue-Ensures, pure, ◌>>◌}
use ferusa.Phone.Storage.Types.{
  StoredSecrets, PairingGeneration, commit_mismatch, approval_key_alias, Crates, PairingStore,
  into_stored_secrets, not_in_store,
}
use ferusa.Phone.Storage.Generation.{holds}
use ferusa.Phone.Storage.Cleanup.{cleanup_activation_metadata}
use ferusa.Phone.Storage.Transaction.{
  activate_found, activate_pending, reactivate, activate_generation,
}
use ferusa.Phone.Storage.Laws.{StoreLaws, CrateLaws}
use ferusa.Phone.Storage.View.{active, pending, committed, View, held}
use ferusa.Phone.Storage.Invariant.{Inv, covered}
use ferusa.Phone.Storage.Effects.{
  Now, Safe, load_id-Ensures, load_valid-Ensures, bail-Ensures, lifted-Ensures,
}
use ferusa.Phone.Storage.Finalizing.{here, cleanup_activation-Ensures}
use ferusa.Phone.Storage.Pairing.{Reached, reached}
use ferusa.Phone.Storage.Committing.{holds-some, finish_active-Ensures}
use ferusa.Phone.Storage.Publishing.{Published, Published-Ensures}

module _ {S : Type 0} {c : Crates} {store : PairingStore S} (cl : CrateLaws c)
    (sl : StoreLaws store) where
  -- The secrets are those of the generation, under the name of its key.
  pub record SecretsOf (g : PairingGeneration) (secrets : StoredSecrets) : Type 0 where
    pub same_id : secrets.pairing_id ≡ g.pairing_id
    pub key_name : secrets.approval_key_alias ≡ codes "ferusa_approval_" ++ c.show_id g.pairing_id
    pub same_key : secrets.approval_public_key_der ≡ g.approval_public_key_der
    pub same_share : secrets.phone_share ≡ g.phone_share
    pub same_pin4 : secrets.pin4_hash ≡ g.pin4_hash
    pub same_pin6 : secrets.pin6_hash ≡ g.pin6_hash
    pub same_peer : secrets.cli_node_id ≡ g.cli_node_id

  -- What a successful activation of `u` tells, `v` being what was seen before it: the generation
  -- stored under `u` is that of `u`, the secrets are its secrets, it is active and still stored.
  pub record Activated (v : View) (u : ℕ) (secrets : StoredSecrets) (w : View) : Type 0 where
    pub generation : PairingGeneration
    pub stored : v.generation u ≡ some generation
    pub named : generation.pairing_id ≡ u
    pub secrets_of : SecretsOf generation secrets
    pub now_active : w.at active ≡ some u
    pub kept : held w u ≡ true

  into_stored_secrets-Of : (g : PairingGeneration) → SecretsOf g (into_stored_secrets c g)
  unfolding into_stored_secrets approval_key_alias
  into_stored_secrets-Of g = record {
    same_id = refl;
    key_name = refl;
    same_key = refl;
    same_share = refl;
    same_pin4 = refl;
    same_pin6 = refl;
    same_peer = refl;
  }

  activated :
      (v : View) (u : ℕ) (g : PairingGeneration) (w : View)
      → Inv w
      → v.generation u ≡ some g
      → g.pairing_id ≡ u
      → w.at active ≡ some u
      → Activated v u (into_stored_secrets c g) w
  activated v u g w i k e a = record {
    generation = g;
    stored = k;
    named = e;
    secrets_of = into_stored_secrets-Of g;
    now_active = a;
    kept = ap (covered w) (sym a) ∙ i.active_held;
  }

  -- What is left once the generation is active.
  wind_up-Ensures :
      (v : View) (g : PairingGeneration) (u : ℕ) (t : S)
      → v.generation u ≡ some g
      → g.pairing_id ≡ u
      → Reached cl sl (Published cl sl u) t
      → Ensures
          (λ a. Reached cl sl (Activated v u a))
          (Safe c sl)
          ((cleanup_activation_metadata c store u >> pure (into_stored_secrets c g)) t)
  wind_up-Ensures v g u t k e r =
      continue-Ensures _ (cleanup_activation-Ensures cl sl u r.view t r.inv r.fact r.now)
        (λ _ t a. returned (
          reached cl sl a.view t a.inv (activated v u g a.view a.inv k e (a.active_same ∙ r.fact))
            a.now))
        (λ t x. x)

  matching : (p q u : ℕ) → (not (p == q) || not (q == u)) ≡ false → q ≡ u
  matching p q u h = ground arith

  activate_found-Ensures :
      (p q u : ℕ) (v : View) (s : S)
      → Inv v
      → v.at committed ≡ some q
      → Now c sl v s
      → Ensures (λ a. Reached cl sl (Activated v u a)) (Safe c sl) (activate_found c store u p q s)
  unfolding activate_found
  activate_found-Ensures p q u v s i e n =
      continue-Ensures _ (bail-Ensures cl sl (not (p == q) || not (q == u)) commit_mismatch v s n)
        (λ _ t b.
          continue-Ensures _ (load_valid-Ensures cl sl q v t b.1)
            (λ g t d.
              continue-Ensures _ (load_id-Ensures cl sl active v t d.2)
                (λ a t h.
                  continue-Ensures _ (Published-Ensures cl sl a q v t i h.0 e h.1)
                    (λ _ t r. rw (sym (matching p q u b.0)) (wind_up-Ensures v g q t d.0 d.1 r))
                    (λ t x. x))
                (λ t. here cl sl v t i))
            (λ t. here cl sl v t i))
        (λ t. here cl sl v t i)

  some_of : (o : Option ℕ) (u : ℕ) → ok_or o not_in_store ≡ ok u → o ≡ some u
  some_of o u h = ground arith

  activate_pending-Ensures :
      (u : ℕ) (v : View) (s : S)
      → Inv v
      → Now c sl v s
      → Ensures (λ a. Reached cl sl (Activated v u a)) (Safe c sl) (activate_pending c store u s)
  unfolding activate_pending
  activate_pending-Ensures u v s i n =
      continue-Ensures _ (load_id-Ensures cl sl pending v s n)
        (λ o t h.
          continue-Ensures _ (lifted-Ensures cl sl v t (ok_or o not_in_store) h.1)
            (λ p t l.
              continue-Ensures _ (load_id-Ensures cl sl committed v t l.1)
                (λ o t h.
                  continue-Ensures _ (lifted-Ensures cl sl v t (ok_or o not_in_store) h.1)
                    (λ q t l. activate_found-Ensures p q u v t i (sym h.0 ∙ some_of o q l.0) l.1)
                    (λ t. here cl sl v t i))
                (λ t. here cl sl v t i))
            (λ t. here cl sl v t i))
        (λ t. here cl sl v t i)

  -- An activation that returns gives the secrets of the generation that was asked for: of the one
  -- that was stored under its id before the call, field by field, with the name of its key. That
  -- generation is then active and stored. However the call ends, the invariant holds.
  pub activate-Ensures :
      (u : ℕ) (v : View) (s : S)
      → Inv v
      → Now c sl v s
      → Ensures (λ a. Reached cl sl (Activated v u a)) (Safe c sl) (activate_generation c store u s)
  unfolding activate_generation into_stored_secrets
  activate-Ensures u v s i n =
      continue-Ensures _ (load_id-Ensures cl sl active v s n)
        (λ o t h. elim (Bool-cases (holds o u)) [
          | inl e ↦ rw e (again u v t i (sym h.0 ∙ holds-some o u e) h.1)
          | inr e ↦ rw e (activate_pending-Ensures u v t i h.1)
        ])
        (λ t. here cl sl v t i)
    where
      again :
          (u : ℕ) (v : View) (t : S)
          → Inv v
          → v.at active ≡ some u
          → Now c sl v t
          → Ensures (λ a. Reached cl sl (Activated v u a)) (Safe c sl) (reactivate c store u t)
      again u v t i e n =
          continue-Ensures (λ g. pure (into_stored_secrets c g))
            (finish_active-Ensures cl sl u v t i e n)
            (λ g t r. returned (
              reached cl sl r.view t r.inv (activated v u g r.view r.inv r.fact.2 r.fact.0 r.fact.1)
                r.now))
            (λ t x. x)
