-- ===== src/Cli/Pairing/Resume/Advance.antt =====
-- Writing a new phase into the transaction, and asking the phone, in each stage.
use ferusa.Base.{
  ◌≡◌, refl, Bool, true, false, not, Result, ok, err, some, Text, ◌==◌, ◌⊎◌, inl, inr, Option-cases,
  if◌then◌else◌,
}
use ferusa.Base.Action.{Ensures, returned, failed, continue-Ensures, Ensures-mono}
use ferusa.Core.Message.{FerusaMessage}
use ferusa.Cli.Twofa.{PairingData}
use ferusa.Cli.Pairing.Files.{
  pairing_transaction_state, pending_pairing_state, pairing_state, temporary, FileError, Disk,
}
use ferusa.Cli.Pairing.Transaction.{
  PairingTxnPhase, prepared, phone_committed, locally_activated, fully_activated, PairingTxnFile,
  TxnJson, write_pairing_transaction, advance_pairing_transaction,
}
use ferusa.Cli.Pairing.Status.{PairingCodec, parsed_text}
use ferusa.Cli.Pairing.Sight.{Contents, put, DiskLaws, At, At-Equal, Equal, file_eq, read-At}
use ferusa.Cli.Pairing.Writing.{write-At}
use ferusa.Cli.Pairing.Promotion.{
  Change, transaction, waiting, Recorded, Midway, BothNew, Landed, Seen-as, bail-At, read_txn,
}
use ferusa.Cli.Pairing.Resume.{
  Link, as_file_error, send_pairing_transition, send_recovery_transition, resume_phase,
}
use ferusa.Cli.Pairing.Resume.Stages.{Before, Leaving, Stage, before, midway, landed, leaving, Is}

-- Talking to the phone does not change the files.
pub record LinkLaws {S : Type 0} {disk : Disk S} (laws : DiskLaws disk) (link : Link S)
    : Type 0 where
  pub exchange_law :
      (m : FerusaMessage) (s : S)
      → Ensures
          (λ _ t. Equal (laws.peek s) (laws.peek t))
          (λ t. Equal (laws.peek s) (laws.peek t))
          (link.exchange m s)
  pub redial_law :
      (d : PairingData) (m : FerusaMessage) (s : S)
      → Ensures
          (λ _ t. Equal (laws.peek s) (laws.peek t))
          (λ t. Equal (laws.peek s) (laws.peek t))
          (link.redial d m s)
  pub closed_law :
      (s : S)
      → Ensures
          (λ _ t. Equal (laws.peek s) (laws.peek t))
          (λ t. Equal (laws.peek s) (laws.peek t))
          (link.closed s)

module _ {S : Type 0} {disk : Disk S} (laws : DiskLaws disk) (json : TxnJson)
    (back : (f : PairingTxnFile) (t : Text) → json.to_json f ≡ some t → json.from_json t ≡ some f)
    (c : Change) where
  -- The transaction has the phase `to`, and the other files are as in `v`.
  pub record Marked (to : PairingTxnPhase) (v : Contents) (t : S) : Type 0 where
    pub raw : Text
    pub printed : json.to_json (transaction c to) ≡ some raw
    pub seen_at : At laws (put pairing_transaction_state (some raw) v) t

  pub marked :
      (to : PairingTxnPhase) (v : Contents) (t : S) (m : Marked to v t)
      → Recorded json c to (put pairing_transaction_state (some m.raw) v)
  marked to v t m = record { raw = m.raw; stored = refl; reads = back _ m.raw m.printed }

  pub advance-Marked :
      (from to : PairingTxnPhase) (v : Contents) (s : S)
      → Recorded json c from v
      → At laws v s
      → Ensures
          (λ _. Marked to v)
          (λ t. At laws v t ⊎ Marked to v t)
          (advance_pairing_transaction json disk to c.id s)
  unfolding advance_pairing_transaction write_pairing_transaction
  advance-Marked from to v s r a =
      continue-Ensures _ (read_txn laws json back c from v s r a)
        (λ f t h. rw h.0 (
          continue-Ensures _ (bail-At laws json back (not (c.id == c.id)) _ v t h.1)
            (λ _ t b. elim (Option-cases (json.to_json (transaction c to))) [
              | inl e ↦ rw e (failed (inl b.1))
              | inr (raw, e) ↦ rw e (
                  Ensures-mono (write-At laws pairing_transaction_state raw v t b.1)
                    (λ _ t x. record { raw = raw; printed = e; seen_at = x })
                    (λ t x. elim x [
                      | inl y ↦ inl y
                      | inr y ↦ inr (record { raw = raw; printed = e; seen_at = y })
                    ]))
            ])
            (λ t b. inl b)))
        (λ t b. inl b)

  pub Marked-Midway :
      (v : Contents) (t : S)
      → Before json c v
      → Marked phone_committed v t
      → Is laws json back c (Midway json c) t
  Marked-Midway v t b m =
      Seen-as laws json back _ t
        (record {
          recorded = marked phone_committed v t m;
          vault = waiting b.vault.0 b.vault.1;
          pairing = waiting b.pairing.0 b.pairing.1;
        })
        m.seen_at

  pub Marked-Leaving :
      (v : Contents) (t : S)
      → BothNew c v
      → Marked fully_activated v t
      → Is laws json back c (Leaving json c) t
  Marked-Leaving v t b m = Seen-as laws json back _ t (marked fully_activated v t m, b) m.seen_at

  pub staged :
      {P : Contents → Type 0}
      → ((v : Contents) → P v → Stage json c v)
      → (t : S) → Is laws json back c P t
      → Is laws json back c (Stage json c) t
  staged f t x = Seen-as laws json back x.seen t (f x.seen x.fact) x.seen_at

  lift-At :
      {A : Type 0} (r : Result FileError A) (v : Contents) (t : S)
      → At laws v t
      → Ensures {E = FileError} (λ (_ : A). At laws v) (At laws v) (r, t)
  lift-At (ok x) v t a = returned a
  lift-At (err e) v t a = failed a

  module _ (link : Link S) (links : LinkLaws laws link) (codec : PairingCodec) where
    pub transition-At :
        (m : FerusaMessage) (expected : FerusaMessage → Bool) (v : Contents) (s : S)
        → At laws v s
        → Ensures
            (λ _. At laws v)
            (At laws v)
            (send_pairing_transition json codec disk link m expected s)
    unfolding send_pairing_transition
    transition-At m expected v s a =
        continue-Ensures _ (links.exchange_law m s)
          (λ answer t e.
            Ensures-mono
              (bail-At laws json back (not (expected answer)) _ v t (At-Equal laws v s t a e))
              (λ _ t b. b.1) (λ t b. b))
          (λ t e. At-Equal laws v s t a e)

    lasting :
        (b : Bool) → file_eq temporary (if b then pending_pairing_state else pairing_state) ≡ false
    lasting true = refl
    lasting false = refl

    pub redial-At :
        (m : FerusaMessage) (expected : FerusaMessage → Bool) (v : Contents) (s : S)
        → At laws v s
        → Ensures
            (λ _. At laws v)
            (At laws v)
            (send_recovery_transition json codec disk link m expected s)
    unfolding send_recovery_transition
    redial-At m expected v s a =
        continue-Ensures _ (read-At laws _ v s (lasting (disk.exists pending_pairing_state s)) a)
          (λ raw t x.
            continue-Ensures _ (lift-At (as_file_error (parsed_text codec raw)) v t x.1)
              (λ d u b.
                continue-Ensures _ (links.redial_law d m u)
                  (λ answer w e.
                    Ensures-mono
                      (bail-At laws json back (not (expected answer)) _ v w
                        (At-Equal laws v u w b e))
                      (λ _ t b. b.1) (λ t b. b))
                  (λ w e. At-Equal laws v u w b e))
              (λ u b. b))
          (λ t b. b)

    -- What the loop does before it recovers, in the two stages where the phone is asked.
    pub Before-resumes :
        (v : Contents) (s : S)
        → Before json c v
        → At laws v s
        → Ensures
            (λ _. Is laws json back c (Midway json c))
            (Is laws json back c (Stage json c))
            (resume_phase json codec disk link (transaction c prepared) s)
    unfolding resume_phase
    Before-resumes v s b a =
        continue-Ensures _ (redial-At _ _ v s a)
          (λ _ t x.
            Ensures-mono (advance-Marked prepared phone_committed v t b.recorded x)
              (λ _ u m. Marked-Midway v u b m)
              (λ u y. elim y [
                | inl z ↦ Seen-as laws json back v u (before b) z
                | inr z ↦ staged (λ w. midway) u (Marked-Midway v u b z)
              ]))
          (λ t x. Seen-as laws json back v t (before b) x)

    pub Landed-resumes :
        (v : Contents) (s : S)
        → Landed json c v
        → At laws v s
        → Ensures
            (λ _. Is laws json back c (Leaving json c))
            (Is laws json back c (Stage json c))
            (resume_phase json codec disk link (transaction c locally_activated) s)
    unfolding resume_phase
    Landed-resumes v s l a =
        continue-Ensures _ (redial-At _ _ v s a)
          (λ _ t x.
            Ensures-mono (advance-Marked locally_activated fully_activated v t l.0 x)
              (λ _ u m. Marked-Leaving v u l.1 m)
              (λ u y. elim y [
                | inl z ↦ Seen-as laws json back v u (landed l) z
                | inr z ↦ staged (λ w. leaving) u (Marked-Leaving v u l.1 z)
              ]))
          (λ t x. Seen-as laws json back v t (landed l) x)
