-- ===== src/Cli/Pairing/Resume/Stages.antt =====
-- The stages of a change of pairing, and what a recovery does in those where the phone has nothing
-- new to say.
use ferusa.Base.{
  ◌≡◌, refl, ap, ◌∙◌, ◌||◌, none, some, Option, Text, is_some, ◌⊎◌, inl, inr, Bool-cases,
}
use ferusa.Base.Action.{Ensures, returned, continue-Ensures, Ensures-mono}
use ferusa.Cli.Pairing.Files.{
  vault_enc, pairing_state, pairing_transaction_state, pending_vault_enc, pending_pairing_state,
  rollback_vault_enc, rollback_pairing_state, Disk,
}
use ferusa.Cli.Pairing.Transaction.{
  prepared, fully_activated, PairingTxnFile, TxnJson, clear_pending_pairing, recover_phase,
  recover_untracked, recover_pairing_transaction,
}
use ferusa.Cli.Pairing.Sight.{Contents, DiskLaws, At, look-eq}
use ferusa.Cli.Pairing.Clearing.{Spared, clear_files-At}
use ferusa.Cli.Pairing.Settled.{pending_files}
use ferusa.Cli.Pairing.Promotion.{
  Change, Recorded, Recorded-as, Midway, BothNew, Landed, Seen, Seen-as, read_txn,
}

-- The transaction is prepared, and both new files wait.
pub record Before (json : TxnJson) (c : Change) (v : Contents) : Type 0 where
  pub recorded : Recorded json c prepared v
  pub vault : (v pending_vault_enc ≡ some c.new_vault) × (v vault_enc ≡ c.old_vault)
  pub pairing : (v pending_pairing_state ≡ some c.new_pairing) × (v pairing_state ≡ c.old_pairing)

-- The phone has activated the change, and only the traces of the transaction are left.
abbrev pub Leaving : TxnJson → Change → Contents → Type 0
Leaving json c v = Recorded json c fully_activated v × BothNew c v

abbrev pub Over : Change → Contents → Type 0
Over c v = (v pairing_transaction_state ≡ none) × BothNew c v

pub data Stage (json : TxnJson) (c : Change) (v : Contents) : Type 0 where
  before : Before json c v → Stage json c v
  midway : Midway json c v → Stage json c v
  landed : Landed json c v → Stage json c v
  leaving : Leaving json c v → Stage json c v
  over : Over c v → Stage json c v

-- A file that was not there is not there, however far the clearing came.
still_none : {x y : Option Text} → (y ≡ x) ⊎ (y ≡ none) → x ≡ none → y ≡ none
still_none (inl e) h = e ∙ h
still_none (inr e) h = e

module _ {S : Type 0} {disk : Disk S} (laws : DiskLaws disk) (json : TxnJson)
    (back : (f : PairingTxnFile) (t : Text) → json.to_json f ≡ some t → json.from_json t ≡ some f)
    (c : Change) where
  abbrev pub Is : (Contents → Type 0) → S → Type 0
  Is P = Seen laws json back P

  Spared-BothNew :
      (v : Contents) (t : S) (x : Spared laws pending_files v t) → BothNew c v → BothNew c x.seen
  Spared-BothNew v t x b = (
    x.spared vault_enc refl ∙ b.0,
    still_none (x.partly pending_vault_enc) b.1,
    x.spared pairing_state refl ∙ b.2,
    still_none (x.partly pending_pairing_state) b.3,
  )

  clearing :
      (v : Contents) (s : S)
      → BothNew c v
      → At laws v s
      → Ensures
          (λ _. Is (Over c))
          (λ t. (x : Spared laws pending_files v t) × BothNew c x.seen)
          (clear_pending_pairing json disk s)
  unfolding clear_pending_pairing
  clearing v s b a =
      Ensures-mono (clear_files-At laws pending_files v s a)
        (λ _ t m. Seen-as laws json back _ t (refl, (b.0, refl, b.2, refl)) m)
        (λ t x. (x, Spared-BothNew v t x b))

  pub over-Ensures :
      (v : Contents) (s : S)
      → Over c v
      → At laws v s
      → Ensures (λ _. Is (Over c)) (Is (Over c)) (recover_pairing_transaction json disk s)
  unfolding recover_pairing_transaction recover_untracked
  over-Ensures v s o a =
      rw (look-eq laws pairing_transaction_state v s refl a ∙ ap is_some o.0)
        (elim (Bool-cases (
          disk.exists pending_pairing_state s
          || disk.exists pending_vault_enc s
          || disk.exists rollback_pairing_state s
          || disk.exists rollback_vault_enc s)) [
            | inr e ↦ rw e (returned (Seen-as laws json back v s o a))
            | inl e ↦ rw e (
                Ensures-mono (clearing v s o.1 a) (λ _ t x. x)
                  (λ t x.
                    Seen-as laws json back x.0.seen t
                      (still_none (x.0.partly pairing_transaction_state) o.0, x.1) x.0.seen_at))
          ])

  left :
      (v : Contents) (t : S) (x : Spared laws pending_files v t)
      → Recorded json c fully_activated v
      → BothNew c x.seen
      → Is (Stage json c) t
  left v t x r b = elim (x.partly pairing_transaction_state) [
    | inl e ↦
        Seen-as laws json back x.seen t
          (leaving (Recorded-as laws json back c fully_activated v x.seen e r, b)) x.seen_at
    | inr e ↦ Seen-as laws json back x.seen t (over (e, b)) x.seen_at
  ]

  pub Leaving-Ensures :
      (v : Contents) (s : S)
      → Leaving json c v
      → At laws v s
      → Ensures (λ _. Is (Over c)) (Is (Stage json c)) (recover_pairing_transaction json disk s)
  unfolding recover_pairing_transaction recover_phase
  Leaving-Ensures v s l a =
      rw (look-eq laws pairing_transaction_state v s refl a ∙ ap is_some l.0.stored) (
        continue-Ensures _ (read_txn laws json back c fully_activated v s l.0 a)
          (λ f t h.
            rw h.0 (Ensures-mono (clearing v t l.1 h.1) (λ _ t x. x) (λ t x. left v t x.0 l.0 x.1)))
          (λ t b. Seen-as laws json back v t (leaving l) b))

  -- Until the phone has committed, a recovery changes nothing.
  pub Before-Ensures :
      (v : Contents) (s : S)
      → Before json c v
      → At laws v s
      → Ensures (λ _. At laws v) (At laws v) (recover_pairing_transaction json disk s)
  unfolding recover_pairing_transaction recover_phase
  Before-Ensures v s b a =
      rw (look-eq laws pairing_transaction_state v s refl a ∙ ap is_some b.recorded.stored) (
        continue-Ensures _ (read_txn laws json back c prepared v s b.recorded a)
          (λ f t h. rw h.0 (returned h.1)) (λ t m. m))
