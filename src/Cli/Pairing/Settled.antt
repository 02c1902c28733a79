-- ===== src/Cli/Pairing/Settled.antt =====
-- The recoveries that only clear up.
use mathlib.Core.Bool.{true≢false}
use ferusa.Base.{
  ◌≡◌, refl, ap, ◌∙◌, false, ◌||◌, none, some, List, [], ◌∷◌, Text, is_some, ◌⊎◌, inl, inr,
  Bool-cases,
}
use ferusa.Base.Action.{Ensures, returned, continue-Ensures, Ensures-mono}
use ferusa.Cli.Pairing.Files.{
  File, vault_enc, pairing_state, pairing_transaction_state, pending_vault_enc,
  pending_pairing_state, rollback_vault_enc, rollback_pairing_state, Disk,
}
use ferusa.Cli.Pairing.Transaction.{
  PairingTxnPhase, prepared, phone_committed, locally_activated, fully_activated, PairingTxnFile,
  TxnJson, is_phone_committed, clear_pending_pairing, recover_phase, recover_untracked,
  recover_pairing_transaction,
}
use ferusa.Cli.Pairing.Sight.{Contents, DiskLaws, At, look-eq}
use ferusa.Cli.Pairing.Clearing.{clear_files-At}
use ferusa.Cli.Pairing.Promotion.{Change, transaction, Recorded, Seen, Seen-as, read_txn}
use ferusa.Cli.Pairing.Preparing.{SameLive}

abbrev pub pending_files : List File
pending_files =
    pending_pairing_state ∷ pending_vault_enc ∷ pairing_transaction_state ∷ rollback_pairing_state
    ∷ rollback_vault_enc ∷ []

module _ {S : Type 0} {disk : Disk S} (laws : DiskLaws disk) (json : TxnJson)
    (back : (f : PairingTxnFile) (t : Text)
      → json.to_json f ≡ some t
      → json.from_json t ≡ some f) where
  -- The live files are as in `v`.
  abbrev pub Untouched : Contents → S → Type 0
  Untouched v = Seen laws json back (SameLive v)

  cleared-Ensures :
      (v : Contents) (s : S)
      → At laws v s
      → Ensures (λ _. Untouched v) (Untouched v) (clear_pending_pairing json disk s)
  unfolding clear_pending_pairing
  cleared-Ensures v s a =
      Ensures-mono (clear_files-At laws pending_files v s a)
        (λ _ t b. Seen-as laws json back _ t (refl, refl) b)
        (λ t x.
          Seen-as laws json back x.seen t (x.spared vault_enc refl, x.spared pairing_state refl)
            x.seen_at)

  untracked-Ensures :
      (v : Contents) (s : S)
      → At laws v s
      → Ensures (λ _. Untouched v) (Untouched v) (recover_untracked json disk s)
  unfolding recover_untracked
  untracked-Ensures v s a =
      elim (Bool-cases (
        disk.exists pending_pairing_state s
        || disk.exists pending_vault_enc s
        || disk.exists rollback_pairing_state s
        || disk.exists rollback_vault_enc s)) [
          | inl e ↦ rw e (cleared-Ensures v s a)
          | inr e ↦ rw e (returned (Seen-as laws json back v s (refl, refl) a))
        ]

  phase-Ensures :
      (c : Change) (phase : PairingTxnPhase) (v : Contents) (s : S)
      → is_phone_committed phase ≡ false
      → At laws v s
      → Ensures (λ _. Untouched v) (Untouched v) (recover_phase json disk (transaction c phase) s)
  unfolding recover_phase
  phase-Ensures c prepared v s h a = returned (Seen-as laws json back v s (refl, refl) a)
  phase-Ensures c locally_activated v s h a = returned (Seen-as laws json back v s (refl, refl) a)
  phase-Ensures c phone_committed v s h a = absurd (true≢false h)
  phase-Ensures c fully_activated v s h a = cleared-Ensures v s a

  -- Unless the phone has committed, a recovery leaves the live vault and the live pairing as they
  -- are, whichever way it ends.
  pub settled-Ensures :
      (c : Change) (phase : PairingTxnPhase) (v : Contents) (s : S)
      → (v pairing_transaction_state ≡ none)
        ⊎ (Recorded json c phase v × (is_phone_committed phase ≡ false))
      → At laws v s
      → Ensures (λ _. Untouched v) (Untouched v) (recover_pairing_transaction json disk s)
  unfolding recover_pairing_transaction
  settled-Ensures c phase v s (inl e) a =
      rw (look-eq laws pairing_transaction_state v s refl a ∙ ap is_some e)
        (untracked-Ensures v s a)
  settled-Ensures c phase v s (inr (r, n)) a =
      rw (look-eq laws pairing_transaction_state v s refl a ∙ ap is_some r.stored) (
        continue-Ensures _ (read_txn laws json back c phase v s r a)
          (λ f t h. rw h.0 (phase-Ensures c phase v t n h.1))
          (λ t b. Seen-as laws json back v t (refl, refl) b))
