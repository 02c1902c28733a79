-- ===== src/Phone/Storage/Pairing.antt =====
-- Beginning, storing, committing and aborting a pairing: what each does, wherever it stops.
use ferusa.Base.{
  ℕ, ◌≡◌, refl, sym, ap, ◌∙◌, false, not, Option, none, some, ==_iff, arith, inl, inr, is_some,
  Text, text_eq, Result, ok,
}
use ferusa.Base.Action.{Ensures, continue-Ensures, Ensures-mono, lift, ◌>>◌}
use ferusa.Phone.Storage.Types.{
  PairingGeneration, Failure, Crates, Storage, PairingStore, pairing_generation_version,
  staging_mismatch, alias_mismatch, approval_key_alias,
}
use ferusa.Phone.Storage.Generation.{
  holds, validate_generation_metadata, save_generation_id, load_metadata_validated_generation,
  store_generation,
}
use ferusa.Phone.Storage.Transaction.{
  begin_pending_pairing, store_pending_pairing_generation, abort_unstarted_pairing, is_other,
}
use ferusa.Phone.Storage.Laws.{StoreLaws, CrateLaws}
use ferusa.Phone.Storage.View.{
  active, staging, pending, committed, retiring, slot_key, View, put, mark,
}
use ferusa.Phone.Storage.Invariant.{Inv, Inv-stage, Inv-store, Inv-pend}
use ferusa.Phone.Storage.Effects.{
  Now, Safe, After, load_id-Ensures, save_id-Ensures, load_valid-Ensures, store-Ensures,
  bail-Ensures, lifted-Ensures,
}
use ferusa.Phone.Storage.Finalizing.{here, either-Safe, finalize-Ensures}
use ferusa.Phone.Storage.Discarding.{After-trans, Discarded, clear_uncommitted-Ensures}

pub not-holds : (o : Option ℕ) (u : ℕ) → not (holds o u) ≡ false → o ≡ some u
not-holds none u h = ground arith
not-holds (some w) u h = ap some ((==_iff w u).0 (ground arith))

module _ {S : Type 0} {c : Crates} {store : PairingStore S} (cl : CrateLaws c)
    (sl : StoreLaws store) where
  -- The store is seen as a view with the invariant and `P`.
  pub record Reached (P : View → Type 0) (t : S) : Type 0 where
    pub view : View
    pub now : Now c sl view t
    pub inv : Inv view
    pub fact : P view

  pub Reached-Safe : {P : View → Type 0} {t : S} → Reached P t → Safe c sl t
  Reached-Safe r = record { view = r.view; now = r.now; inv = r.inv }

  pub reached : {P : View → Type 0} (v : View) (t : S) → Inv v → P v → Now c sl v t → Reached P t
  reached v t i p n = record { view = v; now = n; inv = i; fact = p }

  -- An id that is neither in use nor about to be deleted.
  abbrev pub IsFresh : View → ℕ → Type 0
  IsFresh v u = (holds (v.at active) u ≡ false) × (holds (v.at retiring) u ≡ false)

  IsFresh-After :
      {P : View → Type 0} (v : View) (u : ℕ) (t : S) (a : After c sl v P t)
      → IsFresh v u
      → IsFresh a.view u
  IsFresh-After v u t a f = (
    ap (λ o. holds o u) a.active_same ∙ f.0,
    elim a.retiring_less [ inl e ↦ ap (λ o. holds o u) e ∙ f.1 | inr e ↦ ap (λ o. holds o u) e ],
  )

  stage-Ensures :
      (u : ℕ) (v : View) (t : S)
      → IsFresh v u
      → Discarded cl sl v t
      → Ensures
          (λ _. Reached (λ w.
            (w.at staging ≡ some u)
            × (w.at pending ≡ none)
            × (w.at committed ≡ none)
            × (w.at active ≡ v.at active)))
          (Safe c sl)
          (save_generation_id c store (slot_key staging) u t)
  stage-Ensures u v t f d =
      let fresh : IsFresh d.view u = IsFresh-After v u t d f in
      let staged : Inv (put staging (some u) d.view) =
        Inv-stage d.view u d.inv d.fact.1 fresh.0 fresh.1 in
      Ensures-mono (save_id-Ensures cl sl staging u d.view t d.now)
        (λ _ x m.
          reached (put staging (some u) d.view) x staged (refl, d.fact.1, d.fact.2, d.active_same)
            m)
        (λ x. either-Safe cl sl _ _ x d.inv staged)

  -- With a fresh id, beginning ends with that id staged, nothing pending or committed and the
  -- active slot as it was, or with an error; either way the invariant holds.
  pub begin-Ensures :
      (u : ℕ) (v : View) (s : S)
      → Inv v
      → IsFresh v u
      → Now c sl v s
      → Ensures
          (λ _. Reached (λ w.
            (w.at staging ≡ some u)
            × (w.at pending ≡ none)
            × (w.at committed ≡ none)
            × (w.at active ≡ v.at active)))
          (Safe c sl)
          (begin_pending_pairing c store u s)
  unfolding begin_pending_pairing
  begin-Ensures u v s i f n =
      continue-Ensures _ (finalize-Ensures cl sl v s i n)
        (λ _ t a.
          continue-Ensures _ (load_id-Ensures cl sl pending a.view t a.now)
            (λ o t h.
              continue-Ensures _ (bail-Ensures cl sl (is_some o) _ a.view t h.1)
                (λ _ t b.
                  continue-Ensures _ (clear_uncommitted-Ensures cl sl a.view t a.inv b.1)
                    (λ _ t d. stage-Ensures u v t f (After-trans cl sl a d)) (λ t x. x))
                (λ t. here cl sl a.view t a.inv))
            (λ t. here cl sl a.view t a.inv))
        (λ t x. x)

  -- Aborting ends with nothing staged, pending or committed, or with an error.
  pub abort-Ensures :
      (u : ℕ) (v : View) (s : S)
      → Inv v
      → Now c sl v s
      → Ensures (λ _. Discarded cl sl v) (Safe c sl) (abort_unstarted_pairing c store u s)
  unfolding abort_unstarted_pairing
  abort-Ensures u v s i n =
      continue-Ensures _ (load_id-Ensures cl sl staging v s n)
        (λ o t h.
          continue-Ensures _ (bail-Ensures cl sl (is_other o u) _ v t h.1)
            (λ _ t b.
              continue-Ensures _ (load_id-Ensures cl sl pending v t b.1)
                (λ o t h.
                  continue-Ensures _ (bail-Ensures cl sl (is_other o u) _ v t h.1)
                    (λ _ t b. clear_uncommitted-Ensures cl sl v t i b.1) (λ t. here cl sl v t i))
                (λ t. here cl sl v t i))
            (λ t. here cl sl v t i))
        (λ t. here cl sl v t i)

  -- The generation that is stored for `g`: the version and the id are those of the call.
  abbrev pub as_stored : ℕ → PairingGeneration → PairingGeneration
  as_stored u g = record g { version = pairing_generation_version; pairing_id = u }

  -- `g` is stored under the id `u` and pending, beside the active generation as it was.
  abbrev pub Pending : View → ℕ → PairingGeneration → View → Type 0
  Pending v u g w =
      (w.at pending ≡ some u) × (w.generation u ≡ some g) × (w.at active ≡ v.at active)

  -- The generation is in the store: check it and publish it as pending.
  pend-Ensures :
      (u : ℕ) (g : PairingGeneration) (v : View) (t : S)
      → Inv v
      → v.generation u ≡ some g
      → v.at staging ≡ some u
      → Now c sl v t
      → Ensures
          (λ _. Reached (Pending v u g))
          (Safe c sl)
          ((load_metadata_validated_generation c store u
              >> save_generation_id c store (slot_key pending) u)
            t)
  pend-Ensures u g v t i k e n =
      let pended : Inv (put pending (some u) v) = Inv-pend v u i e in
      continue-Ensures _ (load_valid-Ensures cl sl u v t n)
        (λ _ t h.
          Ensures-mono (save_id-Ensures cl sl pending u v t h.2)
            (λ _ x m. reached (put pending (some u) v) x pended (refl, k, refl) m)
            (λ x. either-Safe cl sl _ _ x i pended))
        (λ t. here cl sl v t i)

  valid_unit : {r : Result Failure (Unit {0})} (a : Unit {0}) → r ≡ ok a → r ≡ ok tt
  valid_unit tt e = e

  -- Storing ends with the generation that was passed, under the id of the call and the current
  -- version, stored, valid and pending, and with the active slot as it was, or with an error; either
  -- way the invariant holds.
  pub store_pending_pairing_generation-Ensures :
      (u : ℕ) (alias : Text) (g : PairingGeneration) (v : View) (s : S)
      → Inv v
      → Now c sl v s
      → Ensures
          (λ _. Reached (Pending v u (as_stored u g)))
          (Safe c sl)
          (store_pending_pairing_generation c store u alias g s)
  unfolding store_pending_pairing_generation
  store_pending_pairing_generation-Ensures u alias g v s i n =
      continue-Ensures _ (load_id-Ensures cl sl staging v s n)
        (λ o t h.
          continue-Ensures _ (bail-Ensures cl sl (not (holds o u)) staging_mismatch v t h.1)
            (λ _ t b.
              continue-Ensures (λ _. validated)
                (bail-Ensures cl sl (not (text_eq alias (approval_key_alias c u))) alias_mismatch v
                  t b.1)
                (λ _ t b'. validated-Ensures (sym h.0 ∙ not-holds o u b.0) t b'.1)
                (λ t. here cl sl v t i))
            (λ t. here cl sl v t i))
        (λ t. here cl sl v t i)
    where
      generation : PairingGeneration
      generation = as_stored u g

      written : Storage S (Unit {0})
      written =
          store_generation c store generation
          >> (load_metadata_validated_generation c store u
              >> save_generation_id c store (slot_key pending) u)

      validated : Storage S (Unit {0})
      validated = lift (validate_generation_metadata c generation) >> written

      stored : Inv (mark u (some generation) v)
      stored = Inv-store v u generation i

      reads : (mark u (some generation) v).generation u ≡ some generation
      reads = ground arith

      validated-Ensures :
          v.at staging ≡ some u
          → (t : S) → Now c sl v t
          → Ensures (λ _. Reached (Pending v u generation)) (Safe c sl) (validated t)
      validated-Ensures e t m =
          continue-Ensures (λ _. written)
            (lifted-Ensures cl sl v t (validate_generation_metadata c generation) m)
            (λ a t h.
              continue-Ensures _ (store-Ensures cl sl generation v t (valid_unit a h.0) h.1)
                (λ _ t m. pend-Ensures u generation (mark u (some generation) v) t stored reads e m)
                (λ t. either-Safe cl sl _ _ t i stored))
            (λ t. here cl sl v t i)
