-- ===== src/Cli/Pairing/Resume.antt =====
-- The desktop's steps of a change of pairing with the phone, cli/src/commands/pair.rs: the first
-- try, and the loop that resumes it after a crash. iroh, the encoding on the wire and the timeouts
-- are in the calls of `Link`.
pub mod Stages
pub mod Advance
pub mod Loop
pub mod First
use ferusa.Base.{
  ℕ, zero, suc, Bool, true, false, not, ◌&&◌, Text, codes, text_eq, ◌==◌, if◌then◌else◌, Result, ok,
  err,
}
use ferusa.Base.Action.{pure, fail, lift, bail_if, ◌>>=◌, ◌>>◌}
use ferusa.Core.Message.{
  FerusaMessage, pairing_commit, pairing_commit_ack, pairing_activate, pairing_activate_ack,
}
use ferusa.Cli.Twofa.{PairingData}
use ferusa.Cli.Pairing.Files.{
  File, pairing_state, pending_pairing_state, pairing_transaction_state, FileError, bad_json,
  unexpected_acknowledgement, unexpected_completion, OnDisk, Disk, look,
}
use ferusa.Cli.Pairing.Transaction.{
  PairingTxnPhase, prepared, phone_committed, locally_activated, fully_activated, PairingTxnFile,
  TxnJson, read_pairing_transaction, write_pairing_transaction_prepared,
  advance_pairing_transaction, recover_pairing_transaction,
}
use ferusa.Cli.Pairing.Status.{PairingCodec, parsed_text, PairingReadError}

-- How a connection ended.
pub data ConnectionError : Type 0 where
  application_closed : ℕ → Text → ConnectionError
  lost : ConnectionError

-- `exchange` sends on the open stream and reads the answer, `redial` connects to a paired phone
-- first, and `closed` finishes sending and waits for the end of the connection.
pub record Link (S : Type 0) : Type 0 where
  pub exchange : FerusaMessage → OnDisk S FerusaMessage
  pub redial : PairingData → FerusaMessage → OnDisk S FerusaMessage
  pub closed : OnDisk S ConnectionError

abbrev pub pairing_complete_close_code : ℕ
pairing_complete_close_code = 0

abbrev pub pairing_complete_close_reason : Text
pairing_complete_close_reason = codes "pairing complete"

unfoldable pub is_pairing_complete_close : ConnectionError → Bool
is_pairing_complete_close (application_closed code reason) =
    code == pairing_complete_close_code && text_eq reason pairing_complete_close_reason
is_pairing_complete_close lost = false

-- `matches!(message, …Ack { pairing_id: got } if got == pairing_id)`.
unfoldable pub is_commit_ack : ℕ → FerusaMessage → Bool
is_commit_ack pairing_id (pairing_commit_ack got) = got == pairing_id
is_commit_ack pairing_id _ = false

unfoldable pub is_activate_ack : ℕ → FerusaMessage → Bool
is_activate_ack pairing_id (pairing_activate_ack got) = got == pairing_id
is_activate_ack pairing_id _ = false

-- Any error of the file is an error of the step.
abbrev pub as_file_error : Result PairingReadError PairingData → Result FileError PairingData
as_file_error (ok d) = ok d
as_file_error (err e) = err bad_json

module _ {S : Type 0} (json : TxnJson) (codec : PairingCodec) (disk : Disk S) (link : Link S) where
  unfoldable pub send_pairing_transition :
      FerusaMessage → (FerusaMessage → Bool) → OnDisk S (Unit {0})
  send_pairing_transition message expected = do
    answer ← link.exchange message
    bail_if (not (expected answer)) unexpected_acknowledgement

  unfoldable pub close_and_clean : ℕ → OnDisk S (Unit {0})
  close_and_clean pairing_id = do
    reason ← link.closed
    bail_if (not (is_pairing_complete_close reason)) unexpected_completion
    advance_pairing_transaction json disk fully_activated pairing_id
    recover_pairing_transaction json disk

  unfoldable pub activate_committed : ℕ → OnDisk S (Unit {0})
  unfolding send_pairing_transition close_and_clean
  activate_committed pairing_id = do
    recover_pairing_transaction json disk
    send_pairing_transition (pairing_activate pairing_id) (is_activate_ack pairing_id)
    close_and_clean pairing_id

  unfoldable pub commit_and_activate_pairing : ℕ → OnDisk S (Unit {0})
  unfolding send_pairing_transition activate_committed
  commit_and_activate_pairing pairing_id = do
    write_pairing_transaction_prepared json disk pairing_id
    send_pairing_transition (pairing_commit pairing_id) (is_commit_ack pairing_id)
    advance_pairing_transaction json disk phone_committed pairing_id
    activate_committed pairing_id

  unfoldable pub send_recovery_transition :
      FerusaMessage → (FerusaMessage → Bool) → OnDisk S (Unit {0})
  send_recovery_transition message expected = do
    waiting ← look disk pending_pairing_state
    raw ← disk.read (if waiting then pending_pairing_state else pairing_state)
    pairing ← lift (as_file_error (parsed_text codec raw))
    answer ← link.redial pairing message
    bail_if (not (expected answer)) unexpected_acknowledgement

  unfoldable pub resume_phase : PairingTxnFile → OnDisk S (Unit {0})
  unfolding send_recovery_transition
  resume_phase txn = elim txn.phase [
    | prepared ↦ do
      send_recovery_transition (pairing_commit txn.pairing_id) (is_commit_ack txn.pairing_id)
      advance_pairing_transaction json disk phone_committed txn.pairing_id
    | phone_committed ↦ pure tt
    | locally_activated ↦ do
      send_recovery_transition (pairing_activate txn.pairing_id) (is_activate_ack txn.pairing_id)
      advance_pairing_transaction json disk fully_activated txn.pairing_id
    | fully_activated ↦ pure tt
  ]

  -- The `while` loop, with fuel: `false` says that the fuel ran out.
  unfoldable pub resume_loop : ℕ → OnDisk S Bool
  unfolding resume_phase
  resume_loop zero = pure false
  resume_loop (suc fuel) = do
    there ← look disk pairing_transaction_state
    let rest = resume_loop fuel
    if there
        then (do
          txn ← read_pairing_transaction json disk
          resume_phase txn
          recover_pairing_transaction json disk
          rest)
        else pure true

  unfoldable pub reconcile_pairing_transaction : ℕ → OnDisk S Bool
  unfolding resume_loop
  reconcile_pairing_transaction fuel = do recover_pairing_transaction json disk; resume_loop fuel
