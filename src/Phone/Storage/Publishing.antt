-- ===== src/Phone/Storage/Publishing.antt =====
-- Making a generation the active one: the old one is retired, and the failed PINs are forgotten.
use ferusa.Base.{
  ℕ, ◌≡◌, refl, sym, ap, ◌∙◌, Bool, true, false, Option, none, some, ◌==◌, if◌then◌else◌, inl, inr,
  Bool-cases, codes, text_eq,
}
use ferusa.Base.Action.{Ensures, returned, continue-Ensures, Ensures-mono, pure, ◌>>◌}
use ferusa.Phone.Storage.Types.{Crates, PairingStore, pairing_generation_key}
use ferusa.Phone.Storage.Generation.{holds, delete_entry_if_present}
use ferusa.Phone.Storage.Cleanup.{cleanup_retiring_generation}
use ferusa.Phone.Storage.Transaction.{retire, publish, is_other}
use ferusa.Phone.Storage.Laws.{StoreLaws, CrateLaws}
use ferusa.Phone.Storage.View.{
  Slot, active, staging, pending, committed, retiring, slot_key, View, put,
}
use ferusa.Phone.Storage.Invariant.{Inv, Inv-retire, Inv-activate}
use ferusa.Phone.Storage.Effects.{Now, Safe, load_id-Ensures, save_id-Ensures, delete_pin-Ensures}
use ferusa.Phone.Storage.Settling.{Quiet, cleanup_retiring-Ensures}
use ferusa.Phone.Storage.Finalizing.{After-Safe, here, either-Safe}
use ferusa.Phone.Storage.Pairing.{Reached, reached}
use ferusa.Phone.Storage.Committing.{holds-some}

pin4-slot_key : (k : Slot) → text_eq (codes "pin4_attempt_state") (slot_key k) ≡ false
pin4-slot_key active = refl
pin4-slot_key staging = refl
pin4-slot_key pending = refl
pin4-slot_key committed = refl
pin4-slot_key retiring = refl

pin6-slot_key : (k : Slot) → text_eq (codes "pin6_attempt_state") (slot_key k) ≡ false
pin6-slot_key active = refl
pin6-slot_key staging = refl
pin6-slot_key pending = refl
pin6-slot_key committed = refl
pin6-slot_key retiring = refl

pin4-generation_key :
    (c : Crates) (u : ℕ) → text_eq (codes "pin4_attempt_state") (pairing_generation_key c u) ≡ false
unfolding pairing_generation_key
pin4-generation_key c u = refl

pin6-generation_key :
    (c : Crates) (u : ℕ) → text_eq (codes "pin6_attempt_state") (pairing_generation_key c u) ≡ false
unfolding pairing_generation_key
pin6-generation_key c u = refl

some_apart : (u w : ℕ) (o : Option ℕ) → o ≡ some u → holds o w ≡ false → (u == w) ≡ false
some_apart u w o e h = ap (λ x. holds x w) (sym e) ∙ h

module _ {S : Type 0} {c : Crates} {store : PairingStore S} (cl : CrateLaws c)
    (sl : StoreLaws store) where
  -- `u` is committed, and the active slot is as in `v`.
  abbrev pub Retired : View → ℕ → View → Type 0
  Retired v u w = (w.at committed ≡ some u) × (w.at active ≡ v.at active)

  clean_other-Ensures :
      (b : Bool) (v : View) (s : S)
      → Inv v
      → Now c sl v s
      → Ensures
          (λ _. Quiet cl sl v)
          (Safe c sl)
          ((if b then cleanup_retiring_generation c store else pure tt) s)
  clean_other-Ensures true v s i n =
      Ensures-mono (cleanup_retiring-Ensures cl sl v s i n) (λ _ t q. q) (λ t q. After-Safe cl sl q)
  clean_other-Ensures false v s i n = returned (record {
    view = v;
    now = n;
    inv = i;
    active_same = refl;
    retiring_less = inl refl;
    fact = (refl, refl, refl);
  })

  retire-Ensures :
      (a : Option ℕ) (u : ℕ) (v : View) (s : S)
      → Inv v
      → a ≡ v.at active
      → v.at committed ≡ some u
      → holds a u ≡ false
      → Now c sl v s
      → Ensures (λ _. Reached cl sl (Retired v u)) (Safe c sl) (retire c store a s)
  unfolding retire
  retire-Ensures none u v s i e f h n = returned (reached cl sl v s i (f, refl) n)
  retire-Ensures (some o) u v s i e f h n =
      continue-Ensures _ (load_id-Ensures cl sl retiring v s n)
        (λ r t l.
          continue-Ensures _ (clean_other-Ensures (is_other r o) v t i l.1)
            (λ _ t q.
              let made : Inv (put retiring (some o) q.view) =
                Inv-retire q.view o u q.inv (q.active_same ∙ sym e) (q.fact.0 ∙ f) h in
              Ensures-mono (save_id-Ensures cl sl retiring o q.view t q.now)
                (λ _ t m.
                  reached cl sl (put retiring (some o) q.view) t made (q.fact.0 ∙ f, q.active_same)
                    m)
                (λ t. either-Safe cl sl _ _ t q.inv made))
            (λ t x. x))
        (λ t. here cl sl v t i)

  -- The pin counters are deleted as well, if that works.
  forget_pins-Ensures :
      (w : View) (t : S)
      → Now c sl w t
      → Ensures
          (λ _. Now c sl w)
          (Now c sl w)
          ((delete_entry_if_present c store (codes "pin4_attempt_state")
              >> delete_entry_if_present c store (codes "pin6_attempt_state"))
            t)
  forget_pins-Ensures w t n =
      continue-Ensures _
        (delete_pin-Ensures cl sl (codes "pin4_attempt_state") w t pin4-slot_key
          (pin4-generation_key c) n)
        (λ _ t m.
          delete_pin-Ensures cl sl (codes "pin6_attempt_state") w t pin6-slot_key
            (pin6-generation_key c) m)
        (λ t m. m)

  abbrev pub Published : ℕ → View → Type 0
  Published u w = w.at active ≡ some u

  pub publish-Ensures :
      (a : Option ℕ) (u : ℕ) (v : View) (s : S)
      → Inv v
      → a ≡ v.at active
      → v.at committed ≡ some u
      → holds a u ≡ false
      → Now c sl v s
      → Ensures (λ _. Reached cl sl (Published u)) (Safe c sl) (publish c store a u s)
  unfolding publish
  publish-Ensures a u v s i e f h n =
      continue-Ensures _ (retire-Ensures a u v s i e f h n)
        (λ _ t r.
          let made : Inv (put active (some u) r.view) = Inv-activate r.view u r.inv r.fact.0 in
          continue-Ensures _ (save_id-Ensures cl sl active u r.view t r.now)
            (λ _ t m.
              Ensures-mono (forget_pins-Ensures (put active (some u) r.view) t m)
                (λ _ t m. reached cl sl (put active (some u) r.view) t made refl m)
                (λ t. here cl sl _ t made))
            (λ t. either-Safe cl sl _ _ t r.inv made))
        (λ t x. x)

  pub Published-Ensures :
      (a : Option ℕ) (u : ℕ) (v : View) (s : S)
      → Inv v
      → a ≡ v.at active
      → v.at committed ≡ some u
      → Now c sl v s
      → Ensures
          (λ _. Reached cl sl (Published u))
          (Safe c sl)
          ((if holds a u then pure tt else publish c store a u) s)
  Published-Ensures a u v s i e f n = elim (Bool-cases (holds a u)) [
    | inl h ↦ rw h (returned (reached cl sl v s i (sym e ∙ holds-some a u h) n))
    | inr h ↦ rw h (publish-Ensures a u v s i e f h n)
  ]
