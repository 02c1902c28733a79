-- ===== src/Phone/Storage/Answers.antt =====
-- What the questions of Queries.antt answer, and that asking keeps the invariant.
use ferusa.Base.{
  ℕ, ◌≡◌, refl, sym, ap, ◌∙◌, false, Option, none, some, arith, inl, inr, is_some, ok_or, not, List,
  [], ◌∷◌, Text, Bool-cases, ◌||◌, ok,
}
use ferusa.Base.Action.{
  Ensures, returned, continue-Ensures, Ensures-mono, forgive, forgive-Ensures, pure, bail_if, ◌>>=◌,
}
use ferusa.Phone.Storage.Types.{
  PairingGeneration, Crates, Storage, PairingStore, into_stored_secrets, not_in_store, key_mismatch,
  approval_key_alias, canonical_pairing_ready_payload, verify_pairing_ready_signature,
}
use ferusa.Phone.Storage.Generation.{
  holds, load_key_bound_generation, validate_generation_key_binding, validate_generation_metadata,
}
use ferusa.Phone.Storage.Cleanup.{cleanup_retiring_generation}
use ferusa.Phone.Storage.Queries.{
  pairing_generation_cli_node_id, node_matches, any_slot_has_node,
  is_referenced_pairing_cli_node_id, check_active, is_setup_in_store, load_secrets,
}
use ferusa.Phone.Storage.Laws.{StoreLaws, CrateLaws}
use ferusa.Phone.Storage.View.{Slot, active, pending, committed, slot_key, View, Sees-Same}
use ferusa.Phone.Storage.Invariant.{Inv}
use ferusa.Phone.Storage.Effects.{
  Now, Safe, load_id-Ensures, load-Ensures, load_valid-Ensures, bail-Ensures, lifted-Ensures,
}
use ferusa.Phone.Storage.Settling.{Quiet, cleanup_retiring-Ensures}
use ferusa.Phone.Storage.Finalizing.{After-Safe, here, finalize-Ensures}
use ferusa.Phone.Storage.Pairing.{Reached, reached}

module _ {S : Type 0} {c : Crates} {store : PairingStore S} (cl : CrateLaws c)
    (sl : StoreLaws store) where
  check_active-Ensures :
      (o : Option ℕ) (v : View) (s : S)
      → Inv v
      → Now c sl v s
      → Ensures
          (λ b. Reached cl sl (λ w. (b ≡ is_some o) × (w.at active ≡ v.at active)))
          (Safe c sl)
          (check_active c store o s)
  unfolding check_active
  check_active-Ensures none v s i n = returned (reached cl sl v s i (refl, refl) n)
  check_active-Ensures (some u) v s i n =
      continue-Ensures _ (load_valid-Ensures cl sl u v s n)
        (λ g t h. returned (reached cl sl v t i (refl, refl) h.2)) (λ t. here cl sl v t i)

  Quiet-cleanup :
      (v : View) (s : S)
      → Inv v
      → Now c sl v s
      → Ensures (λ _. Quiet cl sl v) (Safe c sl) (forgive (cleanup_retiring_generation c store s))
  Quiet-cleanup v s i n =
      Ensures-mono (forgive-Ensures (cleanup_retiring-Ensures cl sl v s i n) (λ t q. q) (λ t q. q))
        (λ _ t q. q) (λ t q. After-Safe cl sl q)

  -- A successful `is_setup` tells whether a generation is active.
  pub is_setup-Ensures :
      (v : View) (s : S)
      → Inv v
      → Now c sl v s
      → Ensures
          (λ b. Reached cl sl (λ w. b ≡ is_some (w.at active)))
          (Safe c sl)
          (is_setup_in_store c store s)
  unfolding is_setup_in_store
  is_setup-Ensures v s i n =
      continue-Ensures _ (finalize-Ensures cl sl v s i n)
        (λ _ t a.
          continue-Ensures _ (Quiet-cleanup a.view t a.inv a.now)
            (λ _ t q.
              continue-Ensures _ (load_id-Ensures cl sl active q.view t q.now)
                (λ o t h.
                  Ensures-mono (check_active-Ensures o q.view t q.inv h.1)
                    (λ b t r.
                      reached cl sl r.view t r.inv (r.fact.0 ∙ ap is_some (h.0 ∙ sym r.fact.1))
                        r.now)
                    (λ t x. x))
                (λ t. here cl sl q.view t q.inv))
            (λ t x. x))
        (λ t x. x)

  binding-Ensures :
      (g : PairingGeneration) (v : View) (s : S)
      → Now c sl v s
      → Ensures (λ _. Now c sl v) (Now c sl v) (validate_generation_key_binding c store g s)
  unfolding validate_generation_key_binding
  binding-Ensures g v s n =
      continue-Ensures (λ _. probe) (lifted-Ensures cl sl v s (validate_generation_metadata c g) n)
        (λ _ t h.
          continue-Ensures check
            (sl.sign_law (approval_key_alias c g.pairing_id)
              (canonical_pairing_ready_payload c g.pairing_id) t)
            (λ sig t' m.
              Ensures-mono
                (bail-Ensures cl sl
                  (not
                    (verify_pairing_ready_signature c g.approval_public_key_der g.pairing_id sig))
                  key_mismatch v t' (Sees-Same m h.1))
                (λ _ t b. b.1) (λ t x. x))
            (λ t m. Sees-Same m h.1))
        (λ t x. x)
    where
      check : Text → Storage S (Unit {0})
      check sig =
          bail_if
            (not (verify_pairing_ready_signature c g.approval_public_key_der g.pairing_id sig))
            key_mismatch

      probe : Storage S (Unit {0})
      probe =
          store.sign (approval_key_alias c g.pairing_id)
            (canonical_pairing_ready_payload c g.pairing_id)
          >>= check

  bound-Ensures :
      (u : ℕ) (v : View) (s : S)
      → Now c sl v s
      → Ensures
          (λ g t. (g.pairing_id ≡ u) × Now c sl v t)
          (Now c sl v)
          (load_key_bound_generation c store u s)
  unfolding load_key_bound_generation
  bound-Ensures u v s n =
      continue-Ensures _ (load_valid-Ensures cl sl u v s n)
        (λ g t h.
          continue-Ensures _ (binding-Ensures g v t h.2) (λ _ t m. returned (h.1, m)) (λ t x. x))
        (λ t x. x)

  -- Secrets that are loaded carry the id of the active generation.
  pub load_secrets-Ensures :
      (v : View) (s : S)
      → Inv v
      → Now c sl v s
      → Ensures
          (λ a.
            Reached cl sl (λ w. (w.at active ≡ some a.pairing_id) × (w.at active ≡ v.at active)))
          (Safe c sl)
          (load_secrets c store s)
  unfolding load_secrets into_stored_secrets
  load_secrets-Ensures v s i n =
      continue-Ensures _ (Quiet-cleanup v s i n)
        (λ _ t q.
          continue-Ensures _ (load_id-Ensures cl sl active q.view t q.now)
            (λ o t h.
              continue-Ensures _ (lifted-Ensures cl sl q.view t (ok_or o not_in_store) h.1)
                (λ u t l.
                  continue-Ensures (λ g. pure (into_stored_secrets c g))
                    (bound-Ensures u q.view t l.1)
                    (λ g t b. returned (
                      reached cl sl q.view t q.inv
                        (sym h.0 ∙ named o u l.0 ∙ ap some (sym b.0), q.active_same) b.1))
                    (λ t. here cl sl q.view t q.inv))
                (λ t. here cl sl q.view t q.inv))
            (λ t. here cl sl q.view t q.inv))
        (λ t x. x)
    where
      named : (o : Option ℕ) (u : ℕ) → ok_or o not_in_store ≡ ok u → o ≡ some u
      named o u h = ground arith

  node_matches-Ensures :
      (o : Option ℕ) (node : Text) (v : View) (s : S)
      → Now c sl v s
      → Ensures (λ _. Now c sl v) (Now c sl v) (node_matches c store o node s)
  unfolding node_matches
  node_matches-Ensures none node v s n = returned n
  node_matches-Ensures (some u) node v s n =
      continue-Ensures _ (load-Ensures cl sl u v s n) (λ g t h. returned h.1) (λ t x. x)

  -- Whether a peer is known is asked without a change to the store.
  pub is_referenced-Ensures :
      (node : Text) (v : View) (s : S)
      → Now c sl v s
      → Ensures (λ _. Now c sl v) (Now c sl v) (is_referenced_pairing_cli_node_id c store node s)
  unfolding is_referenced_pairing_cli_node_id
  is_referenced-Ensures node v s n =
      slot active (slot_key pending ∷ slot_key committed ∷ []) s n λ t n.
        slot pending (slot_key committed ∷ []) t n
          λ t n. slot committed [] t n λ t n. returned {a = false} n
    where
      slot :
          (k : Slot) (ks : List Text) (s : S)
          → Now c sl v s
          → ((t : S)
              → Now c sl v t
              → Ensures (λ _. Now c sl v) (Now c sl v) (any_slot_has_node c store ks node t))
          → Ensures
              (λ _. Now c sl v)
              (Now c sl v)
              (any_slot_has_node c store (slot_key k ∷ ks) node s)
      slot k ks s n rest =
          continue-Ensures _ (load_id-Ensures cl sl k v s n)
            (λ o t h.
              continue-Ensures _ (node_matches-Ensures o node v t h.1)
                (λ b t m. elim (Bool-cases b) [
                  | inl e ↦ rw e (returned m)
                  | inr e ↦ rw e (rest t m)
                ])
                (λ t x. x))
            (λ t x. x)

  -- Asking for the desktop of a pairing keeps the invariant.
  pub cli_node_id-Ensures :
      (u : ℕ) (v : View) (s : S)
      → Inv v
      → Now c sl v s
      → Ensures (λ _. Safe c sl) (Safe c sl) (pairing_generation_cli_node_id c store u s)
  unfolding pairing_generation_cli_node_id
  cli_node_id-Ensures u v s i n =
      continue-Ensures _ (finalize-Ensures cl sl v s i n)
        (λ _ t a.
          continue-Ensures _ (load_id-Ensures cl sl active a.view t a.now)
            (λ x t h.
              continue-Ensures _ (load_id-Ensures cl sl pending a.view t h.1)
                (λ y t h.
                  continue-Ensures _ (load_id-Ensures cl sl committed a.view t h.1)
                    (λ z t h. elim (Bool-cases (holds x u || holds y u || holds z u)) [
                      | inl e ↦ rw e (
                          continue-Ensures _ (load-Ensures cl sl u a.view t h.1)
                            (λ g t h. returned (here cl sl a.view t a.inv h.1))
                            (λ t. here cl sl a.view t a.inv))
                      | inr e ↦ rw e (returned (here cl sl a.view t a.inv h.1))
                    ])
                    (λ t. here cl sl a.view t a.inv))
                (λ t. here cl sl a.view t a.inv))
            (λ t. here cl sl a.view t a.inv))
        (λ t x. x)
