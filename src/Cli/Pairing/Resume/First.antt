-- ===== src/Cli/Pairing/Resume/First.antt =====
-- The first try of a change of pairing.
use ferusa.Base.{◌≡◌, none, some, Text, ◌⊎◌}
use ferusa.Cli.Pairing.Files.{
  vault_enc, pairing_state, pairing_transaction_state, pending_vault_enc, pending_pairing_state,
  Disk,
}
use ferusa.Cli.Pairing.Transaction.{PairingTxnFile, TxnJson}
use ferusa.Cli.Pairing.Status.{PairingCodec}
use ferusa.Cli.Pairing.Sight.{Contents, DiskLaws}
use ferusa.Cli.Pairing.Promotion.{Change}
use ferusa.Cli.Pairing.Preparing.{Kept}
use ferusa.Cli.Pairing.Resume.{Link}
use ferusa.Cli.Pairing.Resume.Stages.{Stage, Is}
use ferusa.Cli.Pairing.Resume.Advance.{LinkLaws}

-- Both new files have been written beside the old ones, and no transaction is recorded.
pub record IsReady (c : Change) (v : Contents) : Type 0 where
  pub unrecorded : v pairing_transaction_state ≡ none
  pub vault : (v pending_vault_enc ≡ some c.new_vault) × (v vault_enc ≡ c.old_vault)
  pub pairing : (v pending_pairing_state ≡ some c.new_pairing) × (v pairing_state ≡ c.old_pairing)

module _ {S : Type 0} {disk : Disk S} (laws : DiskLaws disk) (json : TxnJson)
    (back : (f : PairingTxnFile) (t : Text) → json.to_json f ≡ some t → json.from_json t ≡ some f)
    (c : Change) (link : Link S) (links : LinkLaws laws link) (codec : PairingCodec) where
  -- A try that fails leaves a stage to resume from, or nothing has happened to the four files.
  abbrev pub LeftOver : Contents → S → Type 0
  LeftOver v t = Is laws json back c (Stage json c) t ⊎ Kept laws json back v t
