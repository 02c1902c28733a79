-- ===== src/Cli/Pairing/Files.antt =====
-- The files of the data directory and the calls of the file system, each of which may fail. That
-- the directory exists, and file modes, are outside the model.
use ferusa.Base.{Bool, List, [], ◌∷◌, Text, Result, ok, err, if◌then◌else◌}
use ferusa.Base.Action.{Action, pure, ◌>>=◌, ◌>>◌}

-- `temporary` is the file that `write_private_file` fills before it renames it.
pub data File : Type 0 where
  vault_enc pairing_state pairing_transaction_state temporary : File
  pending_vault_enc pending_pairing_state rollback_vault_enc rollback_pairing_state : File
  phone_id hmac_key : File

-- The last three are errors of cli/src/commands/pair.rs.
pub data FileError : Type 0 where
  io_failed bad_json unsupported_version already_exists id_mismatch : FileError
  not_phone_committed rollback_missing pending_and_live_missing : FileError
  network_failed unexpected_acknowledgement unexpected_completion : FileError

abbrev pub OnDisk : Type 0 → Type 0 → Type 0
OnDisk S A = Action S FileError A

-- `remove_file` tells a file that was removed from one that was not found.
pub record Disk (S : Type 0) : Type 0 where
  pub exists : File → S → Bool
  pub read : File → OnDisk S Text
  pub create_new : OnDisk S (Unit {0})
  pub write_all : Text → OnDisk S (Unit {0})
  pub sync_all : OnDisk S (Unit {0})
  pub restrict_private_file : OnDisk S (Unit {0})
  pub rename : File → File → OnDisk S (Unit {0})
  pub remove_file : File → OnDisk S Bool
  pub fsync_parent : File → OnDisk S (Unit {0})

module _ {S : Type 0} (disk : Disk S) where
  unfoldable pub fill_and_rename : File → Text → OnDisk S (Unit {0})
  fill_and_rename path contents = do
    disk.write_all contents
    disk.sync_all
    disk.restrict_private_file
    disk.rename temporary path
    disk.fsync_parent path

  -- The temporary file does not outlive a failure, if it can be removed.
  unfoldable pub discard_on_error :
      Result FileError (Unit {0}) × S → Result FileError (Unit {0}) × S
  discard_on_error (ok a, s) = (ok a, s)
  discard_on_error (err e, s) = (err e, (disk.remove_file temporary s).1)

  unfoldable pub write_private_file : File → Text → OnDisk S (Unit {0})
  unfolding fill_and_rename discard_on_error
  write_private_file path contents = do
    disk.create_new
    λ s. discard_on_error (fill_and_rename path contents s)

  unfoldable pub copy_private_file : File → File → OnDisk S (Unit {0})
  unfolding write_private_file
  copy_private_file from to = do contents ← disk.read from; write_private_file to contents

  -- One turn of the loops that clear files: a file that is not there counts as cleared.
  unfoldable pub clear_file : File → OnDisk S (Unit {0})
  clear_file path = do
    removed ← disk.remove_file path
    if removed then disk.fsync_parent path else pure tt

  unfoldable pub clear_files : List File → OnDisk S (Unit {0})
  unfolding clear_file
  clear_files [] = pure tt
  clear_files (path ∷ rest) = do clear_file path; clear_files rest

  abbrev pub look : File → OnDisk S Bool
  look path s = (ok (disk.exists path s), s)
