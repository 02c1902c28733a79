-- ===== src/Cli/Pairing/Recovery.antt =====
-- `recover_pairing_transaction` after the phone has committed, however often it is cut short.
use ferusa.Base.{
  ◌≡◌, refl, ap, ◌∙◌, not, ◌&&◌, some, Text, ◌==◌, is_some, ◌⊎◌, inl, inr, Option-cases,
}
use ferusa.Base.Action.{
  Ensures, returned, failed, continue-Ensures, Ensures-mono, Ensures-both, ◌>>◌,
}
use ferusa.Cli.Pairing.Files.{
  vault_enc, pairing_state, pairing_transaction_state, pending_vault_enc, pending_pairing_state,
  rollback_vault_enc, rollback_pairing_state, Disk,
}
use ferusa.Cli.Pairing.Transaction.{
  phone_committed, locally_activated, PairingTxnFile, TxnJson, is_phone_committed,
  write_pairing_transaction, advance_pairing_transaction, promote_file, promote_pending_pairing,
  recover_phase, recover_pairing_transaction,
}
use ferusa.Cli.Pairing.Sight.{Contents, put, DiskLaws, At, look-eq}
use ferusa.Cli.Pairing.Writing.{write-At}
use ferusa.Cli.Pairing.Promotion.{
  Change, transaction, Midway, BothNew, Landed, Seen, Seen-as, bail-At, read_txn, Turned,
  IsPromoted, promote_file-Ensures, half, vault-Midway, pairing-Midway,
}

module _ {S : Type 0} {disk : Disk S} (laws : DiskLaws disk) (json : TxnJson)
    (back : (f : PairingTxnFile) (t : Text)
      → json.to_json f ≡ some t
      → json.from_json t ≡ some f) where
  -- The files are in the middle of the change, or it has been made.
  abbrev pub UnderWay : Change → S → Type 0
  UnderWay c t = Seen laws json back (Midway json c) t ⊎ Seen laws json back (Landed json c) t

  abbrev pub Arrived : Change → Contents → Type 0
  Arrived c v = Midway json c v × BothNew c v

  Midway-vault :
      (c : Change) (v : Contents) (t : S)
      → Midway json c v
      → (x : Turned laws json back pending_vault_enc vault_enc
          (IsPromoted laws json back c.new_vault)
          v
          t)
      → Midway json c x.seen
  Midway-vault c v t m x =
      vault-Midway laws json back c v t m
        (half laws json back c.old_vault c.new_vault pending_vault_enc vault_enc v t x)

  arrived :
      (c : Change) (v : Contents) (t t' : S)
      → Midway json c v
      → (x : Turned laws json back pending_vault_enc vault_enc
          (IsPromoted laws json back c.new_vault)
          v
          t)
      → Turned laws json back pending_pairing_state pairing_state
          (IsPromoted laws json back c.new_pairing)
          x.seen
          t'
      → Seen laws json back (Arrived c) t'
  arrived c v t t' m x y =
      Seen-as laws json back y.seen t'
        (
          pairing-Midway laws json back c x.seen t' (Midway-vault c v t m x) (
              half laws json back c.old_pairing c.new_pairing pending_pairing_state pairing_state
                x.seen t' y),
          (
            y.others vault_enc refl refl ∙ x.fact.1,
            y.others pending_vault_enc refl refl ∙ x.fact.0,
            y.fact.1,
            y.fact.0,
          ),
        )
        y.seen_at

  files-Ensures :
      (c : Change) (v : Contents) (s : S)
      → Midway json c v
      → At laws v s
      → Ensures
          (λ _. Seen laws json back (Arrived c))
          (Seen laws json back (Midway json c))
          ((promote_file json disk pending_vault_enc vault_enc
              >> promote_file json disk pending_pairing_state pairing_state)
            s)
  files-Ensures c v s m a =
      continue-Ensures _
        (promote_file-Ensures laws json back pending_vault_enc vault_enc c.old_vault c.new_vault v s
          refl refl refl m.vault a)
        (λ _ t x.
          let m1 = Midway-vault c v t m x in
          Ensures-mono
            (promote_file-Ensures laws json back pending_pairing_state pairing_state c.old_pairing
              c.new_pairing x.seen t refl refl refl m1.pairing x.seen_at)
            (λ _ t2 y. arrived c v t t2 m x y)
            (λ t2 y.
              Seen-as laws json back y.seen t2 (pairing-Midway laws json back c x.seen t2 m1 y)
                y.seen_at))
        (λ t x. Seen-as laws json back x.seen t (vault-Midway laws json back c v t m x) x.seen_at)

  pub promote-Ensures :
      (c : Change) (v : Contents) (s : S)
      → Midway json c v
      → At laws v s
      → Ensures
          (λ _. Seen laws json back (Arrived c))
          (Seen laws json back (Midway json c))
          (promote_pending_pairing json disk s)
  unfolding promote_pending_pairing
  promote-Ensures c v s m a =
      continue-Ensures _ (read_txn laws json back c phone_committed v s m.recorded a)
        (λ f t h.
          continue-Ensures _ (bail-At laws json back (not (is_phone_committed f.phase)) _ v t h.1)
            (λ _ t b.
              continue-Ensures _
                (bail-At laws json back (f.had_live_vault && not (disk.exists rollback_vault_enc t))
                  _ v t b.1)
                (λ _ t b.
                  continue-Ensures _
                    (bail-At laws json back
                      (f.had_live_pairing && not (disk.exists rollback_pairing_state t)) _ v t b.1)
                    (λ _ t b. files-Ensures c v t m b.1) (λ t b. Seen-as laws json back v t m b))
                (λ t b. Seen-as laws json back v t m b))
            (λ t b. Seen-as laws json back v t m b))
        (λ t b. Seen-as laws json back v t m b)

  landed :
      (c : Change) (v : Contents) (t : S) (raw : Text)
      → json.to_json (transaction c locally_activated) ≡ some raw
      → Arrived c v
      → At laws (put pairing_transaction_state (some raw) v) t
      → Seen laws json back (Landed json c) t
  landed c v t raw e m a =
      Seen-as laws json back (put pairing_transaction_state (some raw) v) t
        (record { raw = raw; stored = refl; reads = back _ raw e }, m.1) a

  advance-Ensures :
      (c : Change) (v : Contents) (s : S)
      → Arrived c v
      → At laws v s
      → Ensures
          (λ _. Seen laws json back (Landed json c))
          (UnderWay c)
          (advance_pairing_transaction json disk locally_activated c.id s)
  unfolding advance_pairing_transaction write_pairing_transaction
  advance-Ensures c v s m a =
      continue-Ensures _ (read_txn laws json back c phone_committed v s m.0.recorded a)
        (λ f t h. rw h.0 (
          continue-Ensures _ (bail-At laws json back (not (c.id == c.id)) _ v t h.1)
            (λ _ t b. elim (Option-cases (json.to_json (transaction c locally_activated))) [
              | inl e ↦ rw e (failed (inl (Seen-as laws json back v t m.0 b.1)))
              | inr (raw, e) ↦ rw e (
                  Ensures-mono (write-At laws pairing_transaction_state raw v t b.1)
                    (λ _ t x. landed c v t raw e m x)
                    (λ t x. elim x [
                      | inl y ↦ inl (Seen-as laws json back v t m.0 y)
                      | inr y ↦ inr (landed c v t raw e m y)
                    ]))
            ])
            (λ t b. inl (Seen-as laws json back v t m.0 b))))
        (λ t b. inl (Seen-as laws json back v t m.0 b))

  -- One recovery in the middle of the change.
  pub Midway-Ensures :
      (c : Change) (v : Contents) (s : S)
      → Midway json c v
      → At laws v s
      → Ensures
          (λ _. Seen laws json back (Landed json c))
          (UnderWay c)
          (recover_pairing_transaction json disk s)
  unfolding recover_pairing_transaction recover_phase
  Midway-Ensures c v s m a =
      rw (look-eq laws pairing_transaction_state v s refl a ∙ ap is_some m.recorded.stored) (
        continue-Ensures _ (read_txn laws json back c phone_committed v s m.recorded a)
          (λ f t h. rw h.0 (
            continue-Ensures _ (promote-Ensures c v t m h.1)
              (λ _ t x. advance-Ensures c x.seen t x.fact x.seen_at) (λ t x. inl x)))
          (λ t b. inl (Seen-as laws json back v t m b)))

  pub Landed-Ensures :
      (c : Change) (v : Contents) (s : S)
      → Landed json c v
      → At laws v s
      → Ensures
          (λ _. Seen laws json back (Landed json c))
          (UnderWay c)
          (recover_pairing_transaction json disk s)
  unfolding recover_pairing_transaction recover_phase
  Landed-Ensures c v s m a =
      rw (look-eq laws pairing_transaction_state v s refl a ∙ ap is_some m.0.stored) (
        continue-Ensures _ (read_txn laws json back c locally_activated v s m.0 a)
          (λ f t h. rw h.0 (returned (Seen-as laws json back v t m h.1)))
          (λ t b. inr (Seen-as laws json back v t m b)))

  UnderWay-Ensures :
      (c : Change) (s : S)
      → UnderWay c s
      → Ensures
          (λ _. Seen laws json back (Landed json c))
          (UnderWay c)
          (recover_pairing_transaction json disk s)
  UnderWay-Ensures c s (inl x) = Midway-Ensures c x.seen s x.fact x.seen_at
  UnderWay-Ensures c s (inr x) = Landed-Ensures c x.seen s x.fact x.seen_at

-- Starts of the program that each try to recover, and may be cut short anywhere.
pub data Tries {S : Type 0} (json : TxnJson) (disk : Disk S) (s : S) : S → Type 0 where
  untried : Tries json disk s s
  tried :
      {t : S} → Tries json disk s t → Tries json disk s (recover_pairing_transaction json disk t).1

module _ {S : Type 0} {disk : Disk S} (laws : DiskLaws disk) (json : TxnJson)
    (back : (f : PairingTxnFile) (t : Text)
      → json.to_json f ≡ some t
      → json.from_json t ≡ some f) where
  Tries-UnderWay :
      (c : Change) {s t : S}
      → UnderWay laws json back c s
      → Tries json disk s t
      → UnderWay laws json back c t
  Tries-UnderWay c u untried = u
  Tries-UnderWay c u (tried {t} h) = Ensures-both (
      Ensures-mono (UnderWay-Ensures laws json back c t (Tries-UnderWay c u h)) (λ _ t x. inr x)
        (λ t x. x))

  -- Once the phone has committed, whatever number of recoveries have been cut short, wherever: the
  -- vault and the pairing are each the old file or all of the new one with the new one still
  -- waiting, and the next recovery that returns without an error leaves both new files in place and
  -- the transaction marked as locally activated.
  pub Tries-Landed :
      (c : Change) {s t : S}
      → Seen laws json back (Midway json c) s
      → Tries json disk s t
      → UnderWay laws json back c t
        × Ensures
            (λ _. Seen laws json back (Landed json c))
            (UnderWay laws json back c)
            (recover_pairing_transaction json disk t)
  Tries-Landed c {s} {t} m h =
      let u = Tries-UnderWay c (inl m) h in (u, UnderWay-Ensures laws json back c t u)
