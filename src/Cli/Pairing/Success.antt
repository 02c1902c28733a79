-- ===== src/Cli/Pairing/Success.antt =====
-- On a disk that does not fail, `recover_pairing_transaction` finishes what the phone has committed.
use ferusa.Cli.Pairing.Recovery.{Midway-Ensures, promote-Ensures}
use mathlib.Core.Bool.{false≢true}
use mathlib.Core.Option.{some-injective}
use ferusa.Base.{
  Option-cases, ◌≡◌, refl, sym, ap, ◌∙◌, Bool, true, false, not, ◌&&◌, Option, some, Text, Result,
  ok, err, is_some, is_ok, inl, inr, ==_refl, ◌==◌,
}
use ferusa.Base.Returning.{
  Returns, yields, continue-Returns, returning, Returns-ok, Returns-any, ok-Returns,
}
use ferusa.Base.Action.{bail_if, ◌>>◌}
use ferusa.Cli.Pairing.Files.{
  File, vault_enc, pairing_state, pairing_transaction_state, temporary, pending_vault_enc,
  pending_pairing_state, rollback_vault_enc, rollback_pairing_state, FileError, Disk,
  rollback_missing, fill_and_rename, discard_on_error, write_private_file,
}
use ferusa.Cli.Pairing.Transaction.{
  PairingTxnPhase, phone_committed, locally_activated, PairingTxnFile, TxnJson,
  read_pairing_transaction, write_pairing_transaction, advance_pairing_transaction, promote_file,
  promote_pending_pairing, recover_phase, recover_pairing_transaction,
}
use ferusa.Cli.Pairing.Sight.{file_eq, Contents, DiskLaws, At, look-eq, read-At, rename-At}
use ferusa.Cli.Pairing.Promotion.{
  parse_recorded, promote_file-Ensures, same_half, Change, transaction, Half, waiting, promoted,
  Recorded, Midway, Landed, Seen,
}

-- No call fails on a file that is there.
pub record IsReliable {S : Type 0} {disk : Disk S} (laws : DiskLaws disk) : Type 0 where
  pub reads : (f : File) (s : S) → is_some (laws.peek s f) ≡ true → is_ok (disk.read f s).0 ≡ true
  pub creates : (s : S) → is_ok (disk.create_new s).0 ≡ true
  pub writes : (t : Text) (s : S) → is_ok (disk.write_all t s).0 ≡ true
  pub syncs : (s : S) → is_ok (disk.sync_all s).0 ≡ true
  pub restricts : (s : S) → is_ok (disk.restrict_private_file s).0 ≡ true
  pub renames :
      (a b : File) (s : S) → is_some (laws.peek s a) ≡ true → is_ok (disk.rename a b s).0 ≡ true
  pub fsyncs : (f : File) (s : S) → is_ok (disk.fsync_parent f s).0 ≡ true

module _ {S : Type 0} {disk : Disk S} (laws : DiskLaws disk) (reliable : IsReliable laws) where
  open laws use {peek}

  fill-ok : (f : File) (text : Text) (s : S) → is_ok (fill_and_rename disk f text s).0 ≡ true
  unfolding fill_and_rename
  fill-ok f text s = Returns-ok (
      continue-Returns {Q = λ _ _. Unit {0}} _
        (returning (laws.write_all_law text s) (reliable.writes text s))
        (λ _ t w. continue-Returns _ (returning (laws.sync_all_law t) (reliable.syncs t)) (λ _ t2 e.
          continue-Returns _ (returning (laws.restrict_law t2) (reliable.restricts t2)) (λ _ t3 e'.
            continue-Returns _
              (returning (laws.rename_law temporary f t3)
                (reliable.renames temporary f t3 (ap is_some (e' temporary ∙ e temporary ∙ w.0))))
              (λ _ t4 m. Returns-any (returning (laws.fsync_law f t4) (reliable.fsyncs f t4)))))))

  discard-ok :
      (x : Result FileError (Unit {0}) × S)
      → is_ok x.0 ≡ true
      → is_ok (discard_on_error disk x).0 ≡ true
  unfolding discard_on_error
  discard-ok (ok a, s) h = refl
  discard-ok (err e, s) h = h

  write-ok : (f : File) (text : Text) (s : S) → is_ok (write_private_file disk f text s).0 ≡ true
  unfolding write_private_file
  write-ok f text s = Returns-ok (
      continue-Returns {Q = λ _ _. Unit {0}} _
        (returning (laws.create_new_law s) (reliable.creates s))
        (λ _ t e. ok-Returns _ (discard-ok (fill_and_rename disk f text t) (fill-ok f text t))))

module _ {S : Type 0} {disk : Disk S} (laws : DiskLaws disk) (reliable : IsReliable laws)
    (json : TxnJson)
    (back : (f : PairingTxnFile) (t : Text) → json.to_json f ≡ some t → json.from_json t ≡ some f)
    (prints : (f : PairingTxnFile) → is_some (json.to_json f) ≡ true) where
  bail-Returns :
      (b : Bool) (e : FileError) (v : Contents) (s : S)
      → b ≡ false
      → At laws v s
      → Returns (λ _. At laws v) (bail_if b e s)
  bail-Returns true e v s h a = absurd (false≢true (sym h))
  bail-Returns false e v s h a = yields a

  read-Returns :
      (c : Change) (phase : PairingTxnPhase) (v : Contents) (s : S)
      → Recorded json c phase v
      → At laws v s
      → Returns
          (λ f t. (f ≡ transaction c phase) × At laws v t)
          (read_pairing_transaction json disk s)
  unfolding read_pairing_transaction
  read-Returns c phase v s r a =
      continue-Returns _
        (returning (read-At laws pairing_transaction_state v s refl a) (
          reliable.reads pairing_transaction_state s
            (ap is_some (a pairing_transaction_state refl ∙ r.stored))))
        (λ raw t x.
          let same = some-injective _ _ (sym r.stored ∙ x.0) in
          rw (parse_recorded laws json back c phase raw (ap json.from_json (sym same) ∙ r.reads))
            (yields (refl, x.1)))

  promote_file-ok :
      (pending live : File) (old : Option Text) (new : Text) (v : Contents) (s : S)
      → file_eq temporary pending ≡ false
      → file_eq temporary live ≡ false
      → Half old new (v pending) (v live)
      → At laws v s
      → is_ok (promote_file json disk pending live s).0 ≡ true
  unfolding promote_file
  promote_file-ok pending live old new v s hp hl (waiting e f) a =
      rw (look-eq laws pending v s hp a ∙ ap is_some e) (
        Returns-ok (
          continue-Returns {Q = λ _ _. Unit {0}} _
            (returning (rename-At laws pending live v s hp a)
              (reliable.renames pending live s (ap is_some (a pending hp ∙ e))))
            (λ _ t m. ok-Returns _ (reliable.fsyncs live t))))
  promote_file-ok pending live old new v s hp hl (promoted e f) a =
      rw (look-eq laws pending v s hp a ∙ ap is_some e, look-eq laws live v s hl a ∙ ap is_some f)
        refl

  kept : (a b c : Bool) → (a ≡ true → b ≡ true) → c ≡ b → (a && not c) ≡ false
  kept true b c h e = ap not (e ∙ h refl)
  kept false b c h e = refl

  files-ok :
      (c : Change) (v : Contents) (s : S)
      → Midway json c v
      → At laws v s
      → is_ok
          ((promote_file json disk pending_vault_enc vault_enc
              >> promote_file json disk pending_pairing_state pairing_state)
            s).0
        ≡ true
  files-ok c v s m a = Returns-ok (
      continue-Returns {Q = λ _ _. Unit {0}} _
        (returning
          (promote_file-Ensures laws json back pending_vault_enc vault_enc c.old_vault c.new_vault v
            s refl refl refl m.vault a)
          (promote_file-ok pending_vault_enc vault_enc c.old_vault c.new_vault v s refl refl m.vault
            a))
        (λ _ t x. ok-Returns _ (
          promote_file-ok pending_pairing_state pairing_state c.old_pairing c.new_pairing x.seen t
            refl refl
            (same_half laws json back c.old_pairing c.new_pairing
              (x.others pending_pairing_state refl refl) (x.others pairing_state refl refl)
              m.pairing)
            x.seen_at)))

  promote-ok :
      (c : Change) (v : Contents) (s : S)
      → Midway json c v
      → (is_some c.old_vault ≡ true → is_some (v rollback_vault_enc) ≡ true)
      → (is_some c.old_pairing ≡ true → is_some (v rollback_pairing_state) ≡ true)
      → At laws v s
      → is_ok (promote_pending_pairing json disk s).0 ≡ true
  unfolding promote_pending_pairing
  promote-ok c v s m kv kp a = Returns-ok (
      continue-Returns {Q = λ _ _. Unit {0}} _ (read-Returns c phone_committed v s m.recorded a)
        (λ f t h. rw h.0 (
          continue-Returns _
            (bail-Returns (is_some c.old_vault && not (disk.exists rollback_vault_enc t))
              rollback_missing v t (kept _ _ _ kv (look-eq laws rollback_vault_enc v t refl h.1))
              h.1)
            (λ _ t b.
              continue-Returns _
                (bail-Returns (is_some c.old_pairing && not (disk.exists rollback_pairing_state t))
                  rollback_missing v t
                  (kept _ _ _ kp (look-eq laws rollback_pairing_state v t refl b)) b)
                (λ _ t b. ok-Returns _ (files-ok c v t m b))))))

  advance-ok :
      (c : Change) (v : Contents) (s : S)
      → Recorded json c phone_committed v
      → At laws v s
      → is_ok (advance_pairing_transaction json disk locally_activated c.id s).0 ≡ true
  unfolding advance_pairing_transaction write_pairing_transaction
  advance-ok c v s r a = Returns-ok (
      continue-Returns {Q = λ _ _. Unit {0}} _ (read-Returns c phone_committed v s r a) (λ f t h.
        rw h.0 (
          continue-Returns _ (bail-Returns (not (c.id == c.id)) _ v t (ap not (==_refl c.id)) h.1)
            (λ _ t b. elim (Option-cases (json.to_json (transaction c locally_activated))) [
              | inl e ↦
                  absurd
                    (false≢true (sym (ap is_some e) ∙ prints (transaction c locally_activated)))
              | inr (raw, e) ↦
                  rw e (ok-Returns _ (write-ok laws reliable pairing_transaction_state raw t))
            ]))))

  recover-ok :
      (c : Change) (v : Contents) (s : S)
      → Midway json c v
      → (is_some c.old_vault ≡ true → is_some (v rollback_vault_enc) ≡ true)
      → (is_some c.old_pairing ≡ true → is_some (v rollback_pairing_state) ≡ true)
      → At laws v s
      → is_ok (recover_pairing_transaction json disk s).0 ≡ true
  unfolding recover_pairing_transaction recover_phase
  recover-ok c v s m kv kp a =
      rw (look-eq laws pairing_transaction_state v s refl a ∙ ap is_some m.recorded.stored) (
        Returns-ok (
          continue-Returns {Q = λ _ _. Unit {0}} _ (read-Returns c phone_committed v s m.recorded a)
            (λ f t h. rw h.0 (
              continue-Returns _
                (returning (promote-Ensures laws json back c v t m h.1)
                  (promote-ok c v t m kv kp h.1))
                (λ _ t x. ok-Returns _ (advance-ok c x.seen t x.fact.0.recorded x.seen_at))))))

  -- On a disk that does not fail, and with the copies of the old files still there, a recovery of a
  -- transaction that the phone has committed returns without an error and leaves both new files in
  -- place and the transaction marked as locally activated.
  pub Midway-Returns :
      (c : Change) (v : Contents) (s : S)
      → Midway json c v
      → (is_some c.old_vault ≡ true → is_some (v rollback_vault_enc) ≡ true)
      → (is_some c.old_pairing ≡ true → is_some (v rollback_pairing_state) ≡ true)
      → At laws v s
      → Returns (λ _. Seen laws json back (Landed json c)) (recover_pairing_transaction json disk s)
  Midway-Returns c v s m kv kp a =
      returning (Midway-Ensures laws json back c v s m a) (recover-ok c v s m kv kp a)
