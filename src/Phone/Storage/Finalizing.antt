-- ===== src/Phone/Storage/Finalizing.antt =====
-- Finalizing an activation and discarding what is pending keep the invariant, wherever they stop.
use ferusa.Base.{
  ℕ, ◌≡◌, refl, sym, ap, ◌∙◌, Bool, true, false, Option, none, some, if◌then◌else◌, ◌⊎◌, inl, inr,
  Bool-cases, [], ◌∷◌,
}
use ferusa.Base.Action.{Ensures, returned, continue-Ensures, forgive-Ensures, Ensures-mono, pure}
use ferusa.Phone.Storage.Types.{Crates, PairingStore}
use ferusa.Phone.Storage.Generation.{holds}
use ferusa.Phone.Storage.Cleanup.{
  clear_if_holds, clear_activation_keys, finalize_if_equal, cleanup_activation_metadata,
  finalize_active_activation,
}
use ferusa.Phone.Storage.Laws.{StoreLaws, CrateLaws}
use ferusa.Phone.Storage.View.{Slot, active, staging, pending, committed, slot_key, View}
use ferusa.Phone.Storage.Invariant.{Inv}
use ferusa.Phone.Storage.Effects.{Now, Safe, After, load_id-Ensures, delete_id-Ensures}
use ferusa.Phone.Storage.Settling.{
  Quiet, cleanup_retiring-Ensures, cleared, finalized, Inv-cleared_staging, Inv-cleared_pending,
  Inv-cleared-committed, finalized-facts, cleared-facts,
}

module _ {S : Type 0} {c : Crates} {store : PairingStore S} (cl : CrateLaws c)
    (sl : StoreLaws store) where
  pub After-Safe : {v : View} {P : View → Type 0} {t : S} → After c sl v P t → Safe c sl t
  After-Safe a = record { view = a.view; now = a.now; inv = a.inv }

  pub here : (v : View) (t : S) → Inv v → Now c sl v t → Safe c sl t
  here v t i n = record { view = v; now = n; inv = i }

  pub either-Safe : (v w : View) (t : S) → Inv v → Inv w → Now c sl v t ⊎ Now c sl w t → Safe c sl t
  either-Safe v w t i j (inl n) = here v t i n
  either-Safe v w t i j (inr n) = here w t j n

  cleared-Ensures :
      (k : Slot) (u : ℕ) (v : View) (s : S)
      → Now c sl v s
      → Ensures
          (λ _. Now c sl (cleared k u v))
          (λ t. Now c sl v t ⊎ Now c sl (cleared k u v) t)
          (clear_if_holds c store (slot_key k) u s)
  unfolding clear_if_holds
  cleared-Ensures k u v s n =
      continue-Ensures _ (load_id-Ensures cl sl k v s n)
        (λ o t h. rw h.0 (branch (holds (v.at k) u) refl t h.1)) (λ t m. inl m)
    where
      branch :
          (b : Bool)
          → holds (v.at k) u ≡ b
          → (t : S) → Now c sl v t
          → Ensures
              (λ _. Now c sl (cleared k u v))
              (λ t. Now c sl v t ⊎ Now c sl (cleared k u v) t)
              ((if holds (v.at k) u then store.delete (slot_key k) else pure tt) t)
      branch true e t m = rw e (delete_id-Ensures cl sl k v t m)
      branch false e t m = rw e (returned m)

  -- Nothing names `u` any more but the active slot.
  abbrev pub Finalized : ℕ → View → S → Type 0
  Finalized u v = After c sl v (λ w.
      (holds (w.at staging) u ≡ false)
      × (holds (w.at pending) u ≡ false)
      × (holds (w.at committed) u ≡ false))

  settled : (u : ℕ) (v : View) (t : S) → Quiet cl sl (finalized u v) t → Finalized u v t
  settled u v t q = record {
    view = q.view;
    now = q.now;
    inv = q.inv;
    active_same = q.active_same ∙ (finalized-facts u v).0;
    retiring_less = elim q.retiring_less [
      | inl e ↦ inl (e ∙ (finalized-facts u v).1)
      | inr e ↦ inr e
    ];
    fact = (
      ap (λ o. holds o u) q.fact.2 ∙ (finalized-facts u v).2,
      ap (λ o. holds o u) q.fact.1 ∙ (finalized-facts u v).3,
      ap (λ o. holds o u) q.fact.0 ∙ (finalized-facts u v).4,
    );
  }

  pub cleanup_activation-Ensures :
      (u : ℕ) (v : View) (s : S)
      → Inv v
      → v.at active ≡ some u
      → Now c sl v s
      → Ensures (λ _. Finalized u v) (Safe c sl) (cleanup_activation_metadata c store u s)
  unfolding cleanup_activation_metadata
  cleanup_activation-Ensures u v s i e n =
      continue-Ensures _ loop
        (λ _ t m.
          Ensures-mono
            (forgive-Ensures (cleanup_retiring-Ensures cl sl (finalized u v) t i3 m)
              (λ x q. settled u v x q) (λ x q. settled u v x q))
            (λ _ x a. a) (λ x a. After-Safe a))
        (λ t a. a)
    where
      v1 : View
      v1 = cleared staging u v

      v2 : View
      v2 = cleared pending u v1

      i1 : Inv v1
      i1 = Inv-cleared_staging v u i

      i2 : Inv v2
      i2 = Inv-cleared_pending v1 u i1

      i3 : Inv (finalized u v)
      i3 =
          Inv-cleared-committed v2 u i2 (cleared-facts u v).0 (cleared-facts u v).1
            ((cleared-facts u v).2 ∙ e)

      loop :
          Ensures
            (λ _. Now c sl (finalized u v))
            (Safe c sl)
            (clear_activation_keys c store
              (slot_key staging ∷ slot_key pending ∷ slot_key committed ∷ [])
              u
              s)
      loop =
          continue-Ensures _ (cleared-Ensures staging u v s n)
            (λ _ t m.
              continue-Ensures _ (cleared-Ensures pending u v1 t m)
                (λ _ t' m'.
                  continue-Ensures _ (cleared-Ensures committed u v2 t' m')
                    (λ _ t'' m''. returned m'') (λ x. either-Safe v2 (finalized u v) x i2 i3))
                (λ x. either-Safe v1 v2 x i1 i2))
            (λ x. either-Safe v v1 x i i1)

  finalize_if_equal-Ensures :
      (a o : Option ℕ) (v : View) (s : S)
      → Inv v
      → a ≡ v.at active
      → Now c sl v s
      → Ensures (λ _. After c sl v (λ _. Unit {0})) (Safe c sl) (finalize_if_equal c store a o s)
  unfolding finalize_if_equal
  finalize_if_equal-Ensures none o v s i e n = returned (record {
    view = v;
    now = n;
    inv = i;
    active_same = refl;
    retiring_less = inl refl;
    fact = tt;
  })
  finalize_if_equal-Ensures (some u) o v s i e n = elim (Bool-cases (holds o u)) [
    | inl h ↦ rw h (
        Ensures-mono (cleanup_activation-Ensures u v s i (sym e) n)
          (λ _ t a. record {
            view = a.view;
            now = a.now;
            inv = a.inv;
            active_same = a.active_same;
            retiring_less = a.retiring_less;
            fact = tt;
          })
          (λ t a. a))
    | inr h ↦ rw h (
        returned (record {
          view = v;
          now = n;
          inv = i;
          active_same = refl;
          retiring_less = inl refl;
          fact = tt;
        }))
  ]

  pub finalize-Ensures :
      (v : View) (s : S)
      → Inv v
      → Now c sl v s
      → Ensures
          (λ _. After c sl v (λ _. Unit {0}))
          (Safe c sl)
          (finalize_active_activation c store s)
  unfolding finalize_active_activation
  finalize-Ensures v s i n =
      continue-Ensures _ (load_id-Ensures cl sl active v s n)
        (λ a t h.
          continue-Ensures _ (load_id-Ensures cl sl committed v t h.1)
            (λ o t' h'. finalize_if_equal-Ensures a o v t' i h.0 h'.1) (λ t' m. here v t' i m))
        (λ t m. here v t i m)
