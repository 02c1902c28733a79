-- ===== src/Phone/Storage/Effects.antt =====
-- What each call of Generation.antt does to the view.
use ferusa.Base.{
  ℕ, ◌≡◌, refl, sym, ap, ◌∙◌, Bool, true, false, Option, none, some, arith, Text, text_eq, ◌⊎◌, inl,
  inr, Option-cases, Result, ok, err, ok_or,
}
use ferusa.Base.Action.{
  Ensures, returned, failed, continue-Ensures, forgive-Ensures, Ensures-mono, pure, lift, bail_if,
  ◌>>◌,
}
use ferusa.Phone.Storage.Types.{
  PairingGeneration, Crates, Failure, PairingStore, not_serializable, pairing_generation_key,
}
use ferusa.Phone.Storage.Generation.{
  validate_generation_metadata, parse_generation_id, load_generation_id, save_generation_id,
  store_generation, delete_entry_if_present, load_generation, decode_generation,
  load_metadata_validated_generation, remove_generation,
}
use ferusa.Phone.Storage.Laws.{StoreLaws, CrateLaws}
use ferusa.Phone.Storage.View.{
  Slot, active, retiring, slot_key, View, put, mark, id_of, held_in, Sees, Sees-Same, Sees-put,
  Sees-mark, Sees-pin,
}
use ferusa.Phone.Storage.Invariant.{Inv}

module _ {S : Type 0} (c : Crates) {store : PairingStore S} (sl : StoreLaws store) where
  -- The store is seen as `v`.
  abbrev pub Now : View → S → Type 0
  Now v t = Sees c (sl.peek t) v

  -- The store is seen as something that satisfies the invariant.
  pub record Safe (t : S) : Type 0 where
    pub view : View
    pub now : Now view t
    pub inv : Inv view

  -- So it is, with the active slot as in `v`, no new generation to delete, and `P`.
  pub record After (v : View) (P : View → Type 0) (t : S) : Type 0 where
    pub view : View
    pub now : Now view t
    pub inv : Inv view
    pub active_same : view.at active ≡ v.at active
    pub retiring_less : (view.at retiring ≡ v.at retiring) ⊎ (view.at retiring ≡ none)
    pub fact : P view

module _ {S : Type 0} {c : Crates} {store : PairingStore S} (cl : CrateLaws c)
    (sl : StoreLaws store) where
  parse-Ensures :
      (k : Slot) (v : View) (o : Option Text) (t : S)
      → id_of c o ≡ v.at k
      → Now c sl v t
      → Ensures
          (λ i t'. (i ≡ v.at k) × Now c sl v t')
          (Now c sl v)
          (parse_generation_id c store o t)
  unfolding parse_generation_id
  parse-Ensures k v none t e n = returned (e, n)
  parse-Ensures k v (some raw) t e n = elim (Option-cases (c.parse_id raw)) [
    | inl h ↦ rw (h, parse_generation_id) (failed n)
    | inr (u, h) ↦ rw (h, parse_generation_id) (returned (sym h ∙ e, n))
  ]

  pub load_id-Ensures :
      (k : Slot) (v : View) (s : S)
      → Now c sl v s
      → Ensures
          (λ i t. (i ≡ v.at k) × Now c sl v t)
          (Now c sl v)
          (load_generation_id c store (slot_key k) s)
  unfolding load_generation_id
  load_id-Ensures k v s n =
      continue-Ensures (parse_generation_id c store) (sl.get_law (slot_key k) s)
        (λ o t h. parse-Ensures k v o t (ap (id_of c) h.0 ∙ n.slots k) (Sees-Same h.1 n))
        (λ t h. Sees-Same h n)

  pub save_id-Ensures :
      (k : Slot) (u : ℕ) (v : View) (s : S)
      → Now c sl v s
      → Ensures
          (λ _ t. Now c sl (put k (some u) v) t)
          (λ t. Now c sl v t ⊎ Now c sl (put k (some u) v) t)
          (save_generation_id c store (slot_key k) u s)
  unfolding save_generation_id
  save_id-Ensures k u v s n =
      Ensures-mono (sl.save_law (slot_key k) (c.show_id u) s)
        (λ _ t h. Sees-put cl k (some (c.show_id u)) (cl.parse-show u) h n)
        (λ t h. elim h [
          | inl same ↦ inl (Sees-Same same n)
          | inr written ↦ inr (Sees-put cl k (some (c.show_id u)) (cl.parse-show u) written n)
        ])

  pub delete_id-Ensures :
      (k : Slot) (v : View) (s : S)
      → Now c sl v s
      → Ensures
          (λ _ t. Now c sl (put k none v) t)
          (λ t. Now c sl v t ⊎ Now c sl (put k none v) t)
          (store.delete (slot_key k) s)
  delete_id-Ensures k v s n =
      Ensures-mono (sl.delete_law (slot_key k) s) (λ _ t h. Sees-put cl k none refl h n)
        (λ t h. elim h [
          | inl same ↦ inl (Sees-Same same n)
          | inr written ↦ inr (Sees-put cl k none refl written n)
        ])

  pub delete_pin-Ensures :
      (key : Text) (v : View) (s : S)
      → ((k : Slot) → text_eq key (slot_key k) ≡ false)
      → ((u : ℕ) → text_eq key (pairing_generation_key c u) ≡ false)
      → Now c sl v s
      → Ensures (λ _. Now c sl v) (Now c sl v) (delete_entry_if_present c store key s)
  unfolding delete_entry_if_present
  delete_pin-Ensures key v s f g n =
      forgive-Ensures (sl.delete_law key s) (λ t h. Sees-pin key none f g h n)
        (λ t h. elim h [
          | inl same ↦ Sees-Same same n
          | inr written ↦ Sees-pin key none f g written n
        ])

  pub remove-Ensures :
      (u : ℕ) (v : View) (s : S)
      → Now c sl v s
      → Ensures
          (λ _ t. Now c sl (mark u none v) t)
          (λ t. Now c sl v t ⊎ Now c sl (mark u none v) t)
          (remove_generation c store u s)
  unfolding remove_generation
  remove-Ensures u v s n =
      continue-Ensures _ (sl.delete_approval_key_law _ s)
        (λ _ t h.
          Ensures-mono (sl.delete_law (pairing_generation_key c u) t)
            (λ _ t' w. Sees-mark cl u none refl w (Sees-Same h n))
            (λ t' x. elim x [
              | inl same ↦ inl (Sees-Same same (Sees-Same h n))
              | inr written ↦ inr (Sees-mark cl u none refl written (Sees-Same h n))
            ]))
        (λ t h. inl (Sees-Same h n))

  -- A generation that decodes and passes the check is the one that the view holds.
  decode-held :
      (u : ℕ) (o : Option Text) (g : PairingGeneration)
      → decode_generation c u o ≡ ok g
      → validate_generation_metadata c g ≡ ok tt
      → (held_in c u o ≡ some g) × (g.pairing_id ≡ u)
  unfolding decode_generation
  decode-held u o g e h = ground arith

  validated-Ensures :
      (u : ℕ) (v : View) (g : PairingGeneration) (t : S) (r : Result Failure (Unit {0}))
      → (r ≡ ok tt → (v.generation u ≡ some g) × (g.pairing_id ≡ u))
      → validate_generation_metadata c g ≡ r
      → Now c sl v t
      → Ensures
          (λ g' t'. (v.generation u ≡ some g') × (g'.pairing_id ≡ u) × Now c sl v t')
          (Now c sl v)
          ((lift r >> pure g) t)
  validated-Ensures u v g t (ok tt) h e n = returned ((h refl).0, (h refl).1, n)
  validated-Ensures u v g t (err x) h e n = failed n

  pub lifted-Ensures :
      {A : Type 0} (v : View) (t : S) (r : Result Failure A)
      → Now c sl v t
      → Ensures (λ a t'. (r ≡ ok a) × Now c sl v t') (Now c sl v) (lift r t)
  lifted-Ensures v t (ok a) n = returned (refl, n)
  lifted-Ensures v t (err x) n = failed n

  pub load-Ensures :
      (u : ℕ) (v : View) (s : S)
      → Now c sl v s
      → Ensures
          (λ g t.
            (decode_generation c u (sl.peek s (pairing_generation_key c u)) ≡ ok g) × Now c sl v t)
          (Now c sl v)
          (load_generation c store u s)
  unfolding load_generation
  load-Ensures u v s n =
      continue-Ensures _ (sl.get_law (pairing_generation_key c u) s)
        (λ o t h.
          Ensures-mono (lifted-Ensures v t (decode_generation c u o) (Sees-Same h.1 n))
            (λ g t' d. (ap (decode_generation c u) (sym h.0) ∙ d.0, d.1)) (λ t' m. m))
        (λ t h. Sees-Same h n)

  pub load_valid-Ensures :
      (u : ℕ) (v : View) (s : S)
      → Now c sl v s
      → Ensures
          (λ g t. (v.generation u ≡ some g) × (g.pairing_id ≡ u) × Now c sl v t)
          (Now c sl v)
          (load_metadata_validated_generation c store u s)
  unfolding load_metadata_validated_generation
  load_valid-Ensures u v s n =
      continue-Ensures _ (load-Ensures u v s n)
        (λ g t h.
          validated-Ensures u v g t (validate_generation_metadata c g)
            (λ e. let d = decode-held u _ g h.0 e in (sym (n.stored u) ∙ d.0, d.1)) refl h.1)
        (λ t m. m)

  pub store-Ensures :
      (g : PairingGeneration) (v : View) (s : S)
      → validate_generation_metadata c g ≡ ok tt
      → Now c sl v s
      → Ensures
          (λ _. Now c sl (mark g.pairing_id (some g) v))
          (λ t. Now c sl v t ⊎ Now c sl (mark g.pairing_id (some g) v) t)
          (store_generation c store g s)
  unfolding store_generation
  store-Ensures g v s valid n =
      continue-Ensures _ (lifted-Ensures v s (ok_or (c.to_json g) not_serializable) n)
        (λ json t h.
          let good_json : held_in c g.pairing_id (some json) ≡ some g =
            stored_good json (ok_or-some (c.to_json g) h.0) in
          Ensures-mono (sl.save_law (pairing_generation_key c g.pairing_id) json t)
            (λ _ t' w. Sees-mark cl g.pairing_id (some json) good_json w h.1)
            (λ t' x. elim x [
              | inl same ↦ inl (Sees-Same same h.1)
              | inr w ↦ inr (Sees-mark cl g.pairing_id (some json) good_json w h.1)
            ]))
        (λ t m. inl m)
    where
      ok_or-some : (o : Option Text) {j : Text} → ok_or o not_serializable ≡ ok j → o ≡ some j
      ok_or-some o e = ground arith

      stored_good :
          (json : Text) → c.to_json g ≡ some json → held_in c g.pairing_id (some json) ≡ some g
      stored_good json e = rw (cl.from_json-to_json g json e) (ground arith)

  pub bail-Ensures :
      (b : Bool) (e : Failure) (v : View) (t : S)
      → Now c sl v t
      → Ensures (λ _ t'. (b ≡ false) × Now c sl v t') (Now c sl v) (bail_if b e t)
  bail-Ensures true e v t n = failed n
  bail-Ensures false e v t n = returned (refl, n)
