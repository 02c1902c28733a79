-- ===== src/Phone/Storage/Settling.antt =====
-- Cleaning up keeps the invariant, wherever it is stopped.
use ferusa.Base.{
  ℕ, ◌≡◌, refl, sym, ap, ◌∙◌, true, false, Option, none, some, if◌then◌else◌, arith, inl, inr,
  Bool-cases,
}
use ferusa.Base.Action.{Ensures, returned, continue-Ensures, Ensures-mono}
use ferusa.Phone.Storage.Types.{Crates, PairingStore}
use ferusa.Phone.Storage.Generation.{holds}
use ferusa.Phone.Storage.Cleanup.{delete_retiring, cleanup_retiring_generation}
use ferusa.Phone.Storage.Laws.{StoreLaws, CrateLaws}
use ferusa.Phone.Storage.View.{Slot, active, staging, pending, committed, retiring, View, put, mark}
use ferusa.Phone.Storage.Invariant.{
  Inv, apart, Inv-drop, Inv-clear_retiring, Inv-clear_staging, Inv-clear_pending,
  Inv-clear_committed,
}
use ferusa.Phone.Storage.Effects.{
  Now, After, load_id-Ensures, delete_id-Ensures, remove-Ensures, bail-Ensures,
}

pub apart-holds : (o : Option ℕ) (u : ℕ) → apart (some u) o ≡ true → holds o u ≡ false
apart-holds none u h = refl
apart-holds (some w) u h = ground arith

module _ {S : Type 0} {c : Crates} {store : PairingStore S} (cl : CrateLaws c)
    (sl : StoreLaws store) where
  -- Only a generation that waits for its deletion is gone.
  abbrev pub Quiet : View → S → Type 0
  Quiet v = After c sl v (λ w.
      (w.at committed ≡ v.at committed)
      × (w.at pending ≡ v.at pending)
      × (w.at staging ≡ v.at staging))

  quiet : (v : View) (t : S) → Inv v → Now c sl v t → Quiet v t
  quiet v t i n = record {
    view = v;
    now = n;
    inv = i;
    active_same = refl;
    retiring_less = inl refl;
    fact = (refl, refl, refl);
  }

  dropped :
      (v : View) (r : ℕ) (t : S) → Inv (mark r none v) → Now c sl (mark r none v) t → Quiet v t
  dropped v r t i n = record {
    view = mark r none v;
    now = n;
    inv = i;
    active_same = refl;
    retiring_less = inl refl;
    fact = (refl, refl, refl);
  }

  forgotten :
      (v : View) (r : ℕ) (t : S)
      → Inv (mark r none v)
      → Now c sl (put retiring none (mark r none v)) t
      → Quiet v t
  forgotten v r t i n = record {
    view = put retiring none (mark r none v);
    now = n;
    inv = Inv-clear_retiring (mark r none v) i;
    active_same = refl;
    retiring_less = inr refl;
    fact = (refl, refl, refl);
  }

  delete_retiring-Ensures :
      (r : Option ℕ) (v : View) (s : S)
      → Inv v
      → r ≡ v.at retiring
      → Now c sl v s
      → Ensures (λ _. Quiet v) (Quiet v) (delete_retiring c store r s)
  unfolding delete_retiring
  delete_retiring-Ensures none v s i e n = returned (quiet v s i n)
  delete_retiring-Ensures (some r) v s i e n =
      continue-Ensures _ (load_id-Ensures cl sl active v s n)
        (λ a t h.
          continue-Ensures _ (bail-Ensures cl sl (holds a r) _ v t h.1)
            (λ _ t' b.
              let drop_ok : Inv (mark r none v) =
                Inv-drop v r i (ap (λ o. holds o r) (sym h.0) ∙ b.0) (
                  apart-holds (v.at committed) r
                    (ap (λ o. apart o (v.at committed)) e ∙ i.committed_kept)) in
              continue-Ensures _ (remove-Ensures cl sl r v t' b.1)
                (λ _ t'' m.
                  Ensures-mono (delete_id-Ensures cl sl retiring (mark r none v) t'' m)
                    (λ _ x d. forgotten v r x drop_ok d)
                    (λ x d. elim d [
                      | inl old ↦ dropped v r x drop_ok old
                      | inr new ↦ forgotten v r x drop_ok new
                    ]))
                (λ x d. elim d [ inl old ↦ quiet v x i old | inr new ↦ dropped v r x drop_ok new ]))
            (λ x m. quiet v x i m))
        (λ x m. quiet v x i m)

  pub cleanup_retiring-Ensures :
      (v : View) (s : S)
      → Inv v
      → Now c sl v s
      → Ensures (λ _. Quiet v) (Quiet v) (cleanup_retiring_generation c store s)
  unfolding cleanup_retiring_generation
  cleanup_retiring-Ensures v s i n =
      continue-Ensures _ (load_id-Ensures cl sl retiring v s n)
        (λ r t h. delete_retiring-Ensures r v t i h.0 h.1) (λ x m. quiet v x i m)

-- The slot is emptied if it names `u`.
abbrev pub cleared : Slot → ℕ → View → View
cleared k u v = if holds (v.at k) u then put k none v else v

pub Inv-cleared_staging : (v : View) (u : ℕ) → Inv v → Inv (cleared staging u v)
Inv-cleared_staging v u i = elim (Bool-cases (holds (v.at staging) u)) [
  | inl e ↦ rw e (Inv-clear_staging v i)
  | inr e ↦ rw e i
]

pub Inv-cleared_pending : (v : View) (u : ℕ) → Inv v → Inv (cleared pending u v)
Inv-cleared_pending v u i = elim (Bool-cases (holds (v.at pending) u)) [
  | inl e ↦ rw e (Inv-clear_pending v i)
  | inr e ↦ rw e i
]

pub Inv-cleared-committed :
    (v : View) (u : ℕ)
    → Inv v
    → holds (v.at staging) u ≡ false
    → holds (v.at pending) u ≡ false
    → v.at active ≡ some u
    → Inv (cleared committed u v)
Inv-cleared-committed v u i a b e = elim (Bool-cases (holds (v.at committed) u)) [
  | inl h ↦ rw h (Inv-clear_committed v u i a b e)
  | inr h ↦ rw h i
]

-- The view after the whole loop.
abbrev pub finalized : ℕ → View → View
finalized u v = cleared committed u (cleared pending u (cleared staging u v))

pub finalized-facts :
    (u : ℕ) (v : View)
    → ((finalized u v).at active ≡ v.at active)
      × ((finalized u v).at retiring ≡ v.at retiring)
      × (holds ((finalized u v).at staging) u ≡ false)
      × (holds ((finalized u v).at pending) u ≡ false)
      × (holds ((finalized u v).at committed) u ≡ false)
finalized-facts u v = ground arith

pub cleared-facts :
    (u : ℕ) (v : View)
    → (holds ((cleared pending u (cleared staging u v)).at staging) u ≡ false)
      × (holds ((cleared pending u (cleared staging u v)).at pending) u ≡ false)
      × ((cleared pending u (cleared staging u v)).at active ≡ v.at active)
cleared-facts u v = ground arith
