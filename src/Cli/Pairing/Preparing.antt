-- ===== src/Cli/Pairing/Preparing.antt =====
-- The start of a transaction, and the recoveries that only clear up.
use mathlib.Core.Bool.{true≢false}
use ferusa.Base.{
  ==_refl, ℕ, ◌≡◌, refl, sym, ap, ◌∙◌, false, Option, none, some, [], ◌∷◌, Text, if◌then◌else◌,
  is_some, ◌⊎◌, inl, inr, Bool-cases, Option-cases,
}
use ferusa.Base.Action.{Ensures, returned, failed, continue-Ensures, Ensures-mono, ◌>>◌}
use ferusa.Cli.Pairing.Files.{
  File, temporary, vault_enc, pairing_state, pairing_transaction_state, pending_vault_enc,
  pending_pairing_state, rollback_vault_enc, rollback_pairing_state, already_exists, Disk,
}
use ferusa.Cli.Pairing.Transaction.{
  prepared, PairingTxnFile, TxnJson, write_pairing_transaction, copy_if,
  clear_rollback_pairing_files, write_pairing_transaction_prepared,
}
use ferusa.Cli.Pairing.Sight.{number, file_eq, Contents, put, DiskLaws, At, look-eq}
use ferusa.Cli.Pairing.Writing.{write-At, copy-At}
use ferusa.Cli.Pairing.Clearing.{clear_files-At, listed}
use ferusa.Cli.Pairing.Promotion.{Seen, Seen-as, bail-At}

-- The files that are in use, and those that wait.
abbrev pub SameLive : Contents → Contents → Type 0
SameLive v w = (w vault_enc ≡ v vault_enc) × (w pairing_state ≡ v pairing_state)

abbrev pub SamePending : Contents → Contents → Type 0
SamePending v w =
    (w pending_vault_enc ≡ v pending_vault_enc)
    × (w pending_pairing_state ≡ v pending_pairing_state)

is_none : (o : Option Text) → is_some o ≡ false → o ≡ none
is_none none h = refl
is_none (some x) h = absurd (true≢false h)

module _ {S : Type 0} {disk : Disk S} (laws : DiskLaws disk) (json : TxnJson)
    (back : (f : PairingTxnFile) (t : Text)
      → json.to_json f ≡ some t
      → json.from_json t ≡ some f) where
  abbrev pub Kept : Contents → S → Type 0
  Kept v = Seen laws json back (λ w. SameLive v w × SamePending v w)

  -- One file holds `o`, and the others are as in `v`.
  record Copied (to : File) (o : Option Text) (v : Contents) (t : S) : Type 0 where
    seen : Contents
    seen_at : At laws seen t
    copy : seen to ≡ o
    others : (j : File) → file_eq to j ≡ false → seen j ≡ v j

  Copied-put :
      (to : File) (o : Option Text) (v : Contents) (t : S)
      → At laws (put to o v) t
      → Copied to o v t
  Copied-put to o v t a = record {
    seen = put to o v;
    seen_at = a;
    copy = ap (λ b. if b then o else v to) (==_refl (number to));
    others = λ j h. ap (λ b. if b then o else v j) h;
  }

  recopied :
      (to : File) (o o' : Option Text) (v : Contents) (t : S)
      → o ≡ o'
      → Copied to o v t
      → Copied to o' v t
  recopied to o o' v t e x = record {
    seen = x.seen;
    seen_at = x.seen_at;
    copy = x.copy ∙ e;
    others = x.others;
  }

  copy_if-At :
      (from to : File) (o : Option Text) (v : Contents) (s : S)
      → file_eq temporary from ≡ false
      → v to ≡ none
      → v from ≡ o
      → At laws v s
      → Ensures
          (λ _. Copied to o v)
          (λ t. At laws v t ⊎ Copied to o v t)
          (copy_if json disk (is_some o) from to s)
  unfolding copy_if
  copy_if-At from to o v s h e k a = elim (Bool-cases (is_some o)) [
    | inl n ↦ rw n (
        Ensures-mono (copy-At laws from to v s h a)
          (λ _ t x. recopied to (v from) o v t k (Copied-put to (v from) v t x))
          (λ t x. elim x [
            | inl y ↦ inl y
            | inr y ↦ inr (recopied to (v from) o v t k (Copied-put to (v from) v t y))
          ]))
    | inr n ↦ rw n (
        returned
          (record { seen = v; seen_at = a; copy = e ∙ sym (is_none o n); others = λ j k. refl }))
  ]

  -- A prepared transaction: the old files are kept beside the live ones, which are as they were.
  pub record Prepared (id : ℕ) (v w : Contents) : Type 0 where
    pub live : SameLive v w
    pub waiting : SamePending v w
    pub vault_copy : w rollback_vault_enc ≡ v vault_enc
    pub pairing_copy : w rollback_pairing_state ≡ v pairing_state
    pub raw : Text
    pub stored : w pairing_transaction_state ≡ some raw
    pub reads :
        json.from_json raw
        ≡ some (record {
          version = 2;
          phase = prepared;
          pairing_id = id;
          had_live_vault = is_some (v vault_enc);
          had_live_pairing = is_some (v pairing_state);
        })

  abbrev record_of : ℕ → Contents → PairingTxnFile
  record_of id v = record {
    version = 2;
    phase = prepared;
    pairing_id = id;
    had_live_vault = is_some (v vault_enc);
    had_live_pairing = is_some (v pairing_state);
  }

  abbrev without_rollback : Contents → Contents
  without_rollback v =
      λ j. if listed (rollback_pairing_state ∷ rollback_vault_enc ∷ []) j then none else v j

  -- The last step: both copies are made.
  record-Ensures :
      (id : ℕ) (v : Contents) (w : Contents) (s : S)
      → SameLive v w
      → SamePending v w
      → w rollback_vault_enc ≡ v vault_enc
      → w rollback_pairing_state ≡ v pairing_state
      → At laws w s
      → Ensures
          (λ _. Seen laws json back (Prepared id v))
          (Kept v)
          (write_pairing_transaction json disk (record_of id v) s)
  unfolding write_pairing_transaction
  record-Ensures id v w s l p x y a = elim (Option-cases (json.to_json (record_of id v))) [
    | inl e ↦ rw e (failed (Seen-as laws json back w s (l, p) a))
    | inr (raw, e) ↦ rw e (
        Ensures-mono (write-At laws pairing_transaction_state raw w s a)
          (λ _ t b.
            Seen-as laws json back (put pairing_transaction_state (some raw) w) t
              (record {
                live = l;
                waiting = p;
                vault_copy = x;
                pairing_copy = y;
                raw = raw;
                stored = refl;
                reads = back _ raw e;
              })
              b)
          (λ t b. elim b [
            | inl z ↦ Seen-as laws json back w t (l, p) z
            | inr z ↦ Seen-as laws json back (put pairing_transaction_state (some raw) w) t (l, p) z
          ]))
  ]

  kept_copy :
      (v : Contents) (to : File) (o : Option Text) (w : Contents) (t : S)
      → SameLive v w
      → SamePending v w
      → file_eq to vault_enc ≡ false
      → file_eq to pairing_state ≡ false
      → file_eq to pending_vault_enc ≡ false
      → file_eq to pending_pairing_state ≡ false
      → (x : Copied to o w t) → SameLive v x.seen × SamePending v x.seen
  kept_copy v to o w t l p a b d e x = (
    (x.others vault_enc a ∙ l.0, x.others pairing_state b ∙ l.1),
    (x.others pending_vault_enc d ∙ p.0, x.others pending_pairing_state e ∙ p.1),
  )

  pairing_copy-Ensures :
      (id : ℕ) (v w : Contents) (s : S)
      → SameLive v w
      → SamePending v w
      → w rollback_vault_enc ≡ v vault_enc
      → w rollback_pairing_state ≡ none
      → At laws w s
      → Ensures
          (λ _. Seen laws json back (Prepared id v))
          (Kept v)
          ((copy_if json disk (is_some (v pairing_state)) pairing_state rollback_pairing_state
              >> write_pairing_transaction json disk (record_of id v))
            s)
  pairing_copy-Ensures id v w s l p x y a =
      continue-Ensures _
        (copy_if-At pairing_state rollback_pairing_state (v pairing_state) w s refl y l.1 a)
        (λ _ t z.
          let (l', p') =
            kept_copy v rollback_pairing_state (v pairing_state) w t l p refl refl refl refl z in
          record-Ensures id v z.seen t l' p' (z.others rollback_vault_enc refl ∙ x) z.copy
            z.seen_at)
        (λ t z. elim z [
          | inl b ↦ Seen-as laws json back w t (l, p) b
          | inr b ↦
              Seen-as laws json back b.seen t
                (kept_copy v rollback_pairing_state (v pairing_state) w t l p refl refl refl refl b)
                b.seen_at
        ])

  copies-Ensures :
      (id : ℕ) (v : Contents) (s : S)
      → At laws (without_rollback v) s
      → Ensures
          (λ _. Seen laws json back (Prepared id v))
          (Kept v)
          ((copy_if json disk (is_some (v vault_enc)) vault_enc rollback_vault_enc
              >> (copy_if json disk (is_some (v pairing_state)) pairing_state rollback_pairing_state
                  >> write_pairing_transaction json disk (record_of id v)))
            s)
  copies-Ensures id v s a =
      continue-Ensures _
        (copy_if-At vault_enc rollback_vault_enc (v vault_enc) (without_rollback v) s refl refl refl
          a)
        (λ _ t z.
          let (l, p) =
            kept_copy v rollback_vault_enc (v vault_enc) (without_rollback v) t (refl, refl)
              (refl, refl) refl refl refl refl z in
          pairing_copy-Ensures id v z.seen t l p z.copy (z.others rollback_pairing_state refl)
            z.seen_at)
        (λ t z. elim z [
          | inl b ↦ Seen-as laws json back (without_rollback v) t ((refl, refl), (refl, refl)) b
          | inr b ↦
              Seen-as laws json back b.seen t
                (kept_copy v rollback_vault_enc (v vault_enc) (without_rollback v) t (refl, refl)
                  (refl, refl) refl refl refl refl b)
                b.seen_at
        ])

  -- With no transaction recorded, preparing one leaves the live and the pending files as they are,
  -- whichever way it ends; if it succeeds, the transaction is recorded with copies of the live
  -- files beside them.
  pub write_pairing_transaction_prepared-Ensures :
      (id : ℕ) (v : Contents) (s : S)
      → v pairing_transaction_state ≡ none
      → At laws v s
      → Ensures
          (λ _. Seen laws json back (Prepared id v))
          (Kept v)
          (write_pairing_transaction_prepared json disk id s)
  unfolding write_pairing_transaction_prepared clear_rollback_pairing_files
  write_pairing_transaction_prepared-Ensures id v s e a =
      continue-Ensures _
        (bail-At laws json back (disk.exists pairing_transaction_state s) already_exists v s a)
        (λ _ t b.
          continue-Ensures _
            (clear_files-At laws (rollback_pairing_state ∷ rollback_vault_enc ∷ []) v t b.1)
            (λ _ t d.
              rw
                (
                  look-eq laws vault_enc (without_rollback v) t refl d,
                  look-eq laws pairing_state (without_rollback v) t refl d,
                )
                (copies-Ensures id v t d))
            (λ t x.
              Seen-as laws json back x.seen t
                (
                  (x.spared vault_enc refl, x.spared pairing_state refl),
                  (x.spared pending_vault_enc refl, x.spared pending_pairing_state refl),
                )
                x.seen_at))
        (λ t b. Seen-as laws json back v t ((refl, refl), (refl, refl)) b)
