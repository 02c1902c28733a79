-- ===== src/Phone/Storage/Discarding.antt =====
-- Discarding what is staged or pending keeps the invariant, wherever it stops.
use ferusa.Base.{
  ℕ, ◌≡◌, refl, sym, ap, ◌∙◌, false, Option, none, some, if◌then◌else◌, arith, inl, inr, Bool-cases,
  List, [], ◌∷◌, is_some,
}
use ferusa.Base.Action.{Ensures, returned, continue-Ensures, Ensures-mono, pure, ◌>>◌}
use ferusa.Phone.Storage.Types.{Crates, PairingStore}
use ferusa.Phone.Storage.Generation.{holds, remove_generation}
use ferusa.Phone.Storage.Cleanup.{remove_candidates, discard_pending, clear_uncommitted_pending}
use ferusa.Phone.Storage.Laws.{StoreLaws, CrateLaws}
use ferusa.Phone.Storage.View.{
  Slot, active, staging, pending, committed, retiring, slot_key, View, put, mark,
}
use ferusa.Phone.Storage.Invariant.{Inv, Inv-drop, Inv-clear_staging, Inv-clear_pending}
use ferusa.Phone.Storage.Effects.{
  Now, Safe, After, load_id-Ensures, delete_id-Ensures, remove-Ensures, bail-Ensures,
}
use ferusa.Phone.Storage.Finalizing.{here, either-Safe, finalize-Ensures}

module _ {S : Type 0} {c : Crates} {store : PairingStore S} (cl : CrateLaws c)
    (sl : StoreLaws store) where
  -- The slots are as in `v`.
  abbrev SameSlots : View → S → Type 0
  SameSlots v = After c sl v (λ w. (k : Slot) → w.at k ≡ v.at k)

  same_slots : (v : View) (t : S) → Inv v → Now c sl v t → SameSlots v t
  same_slots v t i n = record {
    view = v;
    now = n;
    inv = i;
    active_same = refl;
    retiring_less = inl refl;
    fact = λ k. refl;
  }

  remove_unless-Ensures :
      (a : Option ℕ) (u : ℕ) (v : View) (s : S)
      → Inv v
      → a ≡ v.at active
      → v.at committed ≡ none
      → Now c sl v s
      → Ensures
          (λ _. SameSlots v)
          (Safe c sl)
          ((if holds a u then pure tt else remove_generation c store u) s)
  remove_unless-Ensures a u v s i e f n = elim (Bool-cases (holds a u)) [
    | inl h ↦ rw h (returned (same_slots v s i n))
    | inr h ↦ rw h (
        let dropped : Inv (mark u none v) =
          Inv-drop v u i (ap (λ o. holds o u) (sym e) ∙ h) (ap (λ o. holds o u) f) in
        Ensures-mono (remove-Ensures cl sl u v s n)
          (λ _ t m. record {
            view = mark u none v;
            now = m;
            inv = dropped;
            active_same = refl;
            retiring_less = inl refl;
            fact = λ k. refl;
          })
          (λ t. either-Safe cl sl v (mark u none v) t i dropped))
  ]

  again : (v : View) (t : S) (x : SameSlots v t) (t' : S) → SameSlots x.view t' → SameSlots v t'
  again v t x t' y = record {
    view = y.view;
    now = y.now;
    inv = y.inv;
    active_same = y.active_same ∙ x.active_same;
    retiring_less = inl (y.fact retiring ∙ x.fact retiring);
    fact = λ k. y.fact k ∙ x.fact k;
  }

  remove_candidates-Ensures :
      (a : Option ℕ) (us : List ℕ) (v : View) (s : S)
      → Inv v
      → a ≡ v.at active
      → v.at committed ≡ none
      → Now c sl v s
      → Ensures (λ _. SameSlots v) (Safe c sl) (remove_candidates c store a us s)
  unfolding remove_candidates
  remove_candidates-Ensures a [] v s i e f n = returned (same_slots v s i n)
  remove_candidates-Ensures a (u ∷ us) v s i e f n =
      continue-Ensures _ (remove_unless-Ensures a u v s i e f n)
        (λ _ t x.
          Ensures-mono
            (remove_candidates-Ensures a us x.view t x.inv (e ∙ sym x.active_same)
              (x.fact committed ∙ f) x.now)
            (λ _ t' y. again v t x t' y) (λ t' y. y))
        (λ t y. y)

  -- Nothing is staged, pending or committed.
  abbrev pub Discarded : View → S → Type 0
  Discarded v =
      After c sl v (λ w. (w.at staging ≡ none) × (w.at pending ≡ none) × (w.at committed ≡ none))

  emptied :
      (v : View) (t : S) (x : SameSlots v t) (t' : S)
      → v.at committed ≡ none
      → Now c sl (put pending none (put staging none x.view)) t'
      → Discarded v t'
  emptied v t x t' f n = record {
    view = put pending none (put staging none x.view);
    now = n;
    inv = Inv-clear_pending _ (Inv-clear_staging _ x.inv);
    active_same = x.active_same;
    retiring_less = x.retiring_less;
    fact = (refl, refl, x.fact committed ∙ f);
  }

  none_of : (o : Option ℕ) → is_some o ≡ false → o ≡ none
  none_of none h = refl
  none_of (some u) h = ground arith

  delete_both-Ensures :
      (v : View) (t : S) (x : SameSlots v t)
      → v.at committed ≡ none
      → Ensures
          (λ _. Discarded v)
          (Safe c sl)
          ((store.delete (slot_key staging) >> store.delete (slot_key pending)) t)
  delete_both-Ensures v t x f =
      continue-Ensures _ (delete_id-Ensures cl sl staging x.view t x.now)
        (λ _ t' m.
          Ensures-mono (delete_id-Ensures cl sl pending (put staging none x.view) t' m)
            (λ _ t'' m'. emptied v t x t'' f m')
            (λ t''. either-Safe cl sl _ _ t'' i1 (Inv-clear_pending _ i1)))
        (λ t'. either-Safe cl sl _ _ t' x.inv i1)
    where
      i1 : Inv (put staging none x.view)
      i1 = Inv-clear_staging x.view x.inv

  pub discard-Ensures :
      (v : View) (s : S)
      → Inv v
      → Now c sl v s
      → Ensures (λ _. Discarded v) (Safe c sl) (discard_pending c store s)
  unfolding discard_pending
  discard-Ensures v s i n =
      continue-Ensures _ (load_id-Ensures cl sl committed v s n)
        (λ o t h.
          continue-Ensures _ (bail-Ensures cl sl (is_some o) _ v t h.1)
            (λ _ t b.
              let f : v.at committed ≡ none = sym h.0 ∙ none_of o b.0 in
              continue-Ensures _ (load_id-Ensures cl sl active v t b.1)
                (λ a t h.
                  continue-Ensures _ (load_id-Ensures cl sl staging v t h.1)
                    (λ x t h'.
                      continue-Ensures _ (load_id-Ensures cl sl pending v t h'.1)
                        (λ y t h''.
                          continue-Ensures _ (remove_candidates-Ensures a _ v t i h.0 f h''.1)
                            (λ _ t z. delete_both-Ensures v t z f) (λ t z. z))
                        (λ t. here cl sl v t i))
                    (λ t. here cl sl v t i))
                (λ t. here cl sl v t i))
            (λ t. here cl sl v t i))
        (λ t. here cl sl v t i)

  -- What a second part ensures of the view that the first left, the two ensure of the first view.
  pub After-trans :
      {v : View} {P Q : View → Type 0} {t t' : S} (a : After c sl v P t)
      → After c sl a.view Q t'
      → After c sl v Q t'
  After-trans a b = record {
    view = b.view;
    now = b.now;
    inv = b.inv;
    active_same = b.active_same ∙ a.active_same;
    retiring_less = elim b.retiring_less [
      | inl e ↦ elim a.retiring_less [ inl e' ↦ inl (e ∙ e') | inr e' ↦ inr (e ∙ e') ]
      | inr e ↦ inr e
    ];
    fact = b.fact;
  }

  pub clear_uncommitted-Ensures :
      (v : View) (s : S)
      → Inv v
      → Now c sl v s
      → Ensures (λ _. Discarded v) (Safe c sl) (clear_uncommitted_pending c store s)
  unfolding clear_uncommitted_pending
  clear_uncommitted-Ensures v s i n =
      continue-Ensures _ (finalize-Ensures cl sl v s i n)
        (λ _ t a.
          Ensures-mono (discard-Ensures a.view t a.inv a.now) (λ _ t' b. After-trans a b)
            (λ t' b. b))
        (λ t b. b)
