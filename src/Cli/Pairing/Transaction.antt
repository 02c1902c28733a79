-- ===== src/Cli/Pairing/Transaction.antt =====
-- `pairing_txn.json` and what is done in each of its phases. serde_json is a parameter.
use ferusa.Base.{
  ℕ, Bool, true, false, not, ◌&&◌, ◌||◌, Option, [], ◌∷◌, Text, Result, ok, err, if◌then◌else◌,
  ok_or, and_then, ◌==◌,
}
use ferusa.Base.Action.{pure, lift, bail_if, ◌>>=◌, ◌>>◌}
use ferusa.Cli.Pairing.Files.{
  File, vault_enc, pairing_state, pairing_transaction_state, pending_vault_enc,
  pending_pairing_state, rollback_vault_enc, rollback_pairing_state, FileError, bad_json,
  unsupported_version, already_exists, id_mismatch, not_phone_committed, rollback_missing,
  pending_and_live_missing, OnDisk, Disk, write_private_file, copy_private_file, clear_files, look,
}

pub data PairingTxnPhase : Type 0 where
  prepared phone_committed locally_activated fully_activated : PairingTxnPhase

pub record PairingTxnFile : Type 0 where
  pub version : ℕ
  pub phase : PairingTxnPhase
  pub pairing_id : ℕ
  pub had_live_vault : Bool
  pub had_live_pairing : Bool

pub record TxnJson : Type 0 where
  pub to_json : PairingTxnFile → Option Text
  pub from_json : Text → Option PairingTxnFile

abbrev pub is_phone_committed : PairingTxnPhase → Bool
is_phone_committed phone_committed = true
is_phone_committed _ = false

abbrev pub checked_version : PairingTxnFile → Result FileError PairingTxnFile
checked_version file = if file.version == 2 then ok file else err unsupported_version

unfoldable pub parse_transaction : TxnJson → Text → Result FileError PairingTxnFile
parse_transaction json raw = and_then (ok_or (json.from_json raw) bad_json) checked_version

module _ {S : Type 0} (json : TxnJson) (disk : Disk S) where
  unfoldable pub read_pairing_transaction : OnDisk S PairingTxnFile
  unfolding parse_transaction
  read_pairing_transaction = do
    raw ← disk.read pairing_transaction_state
    lift (parse_transaction json raw)

  unfoldable pub write_pairing_transaction : PairingTxnFile → OnDisk S (Unit {0})
  unfolding write_private_file
  write_pairing_transaction file = do
    text ← lift (ok_or (json.to_json file) bad_json)
    write_private_file disk pairing_transaction_state text

  unfoldable pub copy_if : Bool → File → File → OnDisk S (Unit {0})
  unfolding copy_private_file
  copy_if had from to = if had then copy_private_file disk from to else pure tt

  unfoldable pub clear_rollback_pairing_files : OnDisk S (Unit {0})
  unfolding clear_files
  clear_rollback_pairing_files = clear_files disk (rollback_pairing_state ∷ rollback_vault_enc ∷ [])

  unfoldable pub clear_pending_pairing : OnDisk S (Unit {0})
  unfolding clear_files
  clear_pending_pairing = clear_files disk (
      pending_pairing_state ∷ pending_vault_enc ∷ pairing_transaction_state ∷ rollback_pairing_state
      ∷ rollback_vault_enc ∷ [])

  unfoldable pub write_pairing_transaction_prepared : ℕ → OnDisk S (Unit {0})
  unfolding clear_rollback_pairing_files copy_if write_pairing_transaction
  write_pairing_transaction_prepared pairing_id = do
    there ← look disk pairing_transaction_state
    bail_if there already_exists
    clear_rollback_pairing_files
    had_live_vault ← look disk vault_enc
    had_live_pairing ← look disk pairing_state
    copy_if had_live_vault vault_enc rollback_vault_enc
    copy_if had_live_pairing pairing_state rollback_pairing_state
    write_pairing_transaction (record {
      version = 2;
      phase = prepared;
      pairing_id = pairing_id;
      had_live_vault = had_live_vault;
      had_live_pairing = had_live_pairing;
    })

  unfoldable pub advance_pairing_transaction : PairingTxnPhase → ℕ → OnDisk S (Unit {0})
  unfolding read_pairing_transaction write_pairing_transaction
  advance_pairing_transaction phase pairing_id = do
    file ← read_pairing_transaction
    bail_if (not (file.pairing_id == pairing_id)) id_mismatch
    write_pairing_transaction (record file { phase = phase })

  -- A pending file takes the place of the live one, or has done so before.
  unfoldable pub promote_file : File → File → OnDisk S (Unit {0})
  promote_file pending live = do
    waiting ← look disk pending
    there ← look disk live
    if waiting
        then (do disk.rename pending live; disk.fsync_parent live)
        else bail_if (not there) pending_and_live_missing

  unfoldable pub promote_pending_pairing : OnDisk S (Unit {0})
  unfolding read_pairing_transaction promote_file
  promote_pending_pairing = do
    txn ← read_pairing_transaction
    bail_if (not (is_phone_committed txn.phase)) not_phone_committed
    vault_kept ← look disk rollback_vault_enc
    bail_if (txn.had_live_vault && not vault_kept) rollback_missing
    pairing_kept ← look disk rollback_pairing_state
    bail_if (txn.had_live_pairing && not pairing_kept) rollback_missing
    promote_file pending_vault_enc vault_enc
    promote_file pending_pairing_state pairing_state

  unfoldable pub recover_phase : PairingTxnFile → OnDisk S (Unit {0})
  unfolding promote_pending_pairing advance_pairing_transaction clear_pending_pairing
  recover_phase txn = elim txn.phase [
    | prepared ↦ pure tt
    | locally_activated ↦ pure tt
    | phone_committed ↦ do
      promote_pending_pairing
      advance_pairing_transaction locally_activated txn.pairing_id
    | fully_activated ↦ clear_pending_pairing
  ]

  unfoldable pub recover_untracked : OnDisk S (Unit {0})
  unfolding clear_pending_pairing
  recover_untracked = do
    a ← look disk pending_pairing_state
    b ← look disk pending_vault_enc
    c ← look disk rollback_pairing_state
    d ← look disk rollback_vault_enc
    if a || b || c || d then clear_pending_pairing else pure tt

  unfoldable pub recover_pairing_transaction : OnDisk S (Unit {0})
  unfolding read_pairing_transaction recover_phase recover_untracked
  recover_pairing_transaction = do
    there ← look disk pairing_transaction_state
    if there then (do txn ← read_pairing_transaction; recover_phase txn) else recover_untracked
