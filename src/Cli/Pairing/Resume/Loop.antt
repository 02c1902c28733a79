-- ===== src/Cli/Pairing/Resume/Loop.antt =====
-- The loop that resumes a change ends, and ends with the change made.
use ferusa.Base.{◌≡◌, Bool, true, some, Text, inl, inr}
use ferusa.Cli.Pairing.Files.{Disk}
use ferusa.Cli.Pairing.Transaction.{PairingTxnFile, TxnJson}
use ferusa.Cli.Pairing.Status.{PairingCodec}
use ferusa.Cli.Pairing.Sight.{DiskLaws}
use ferusa.Cli.Pairing.Promotion.{Change}
use ferusa.Cli.Pairing.Recovery.{UnderWay}
use ferusa.Cli.Pairing.Resume.{Link}
use ferusa.Cli.Pairing.Resume.Stages.{Over, Stage, midway, landed, Is}
use ferusa.Cli.Pairing.Resume.Advance.{LinkLaws, staged}

module _ {S : Type 0} {disk : Disk S} (laws : DiskLaws disk) (json : TxnJson)
    (back : (f : PairingTxnFile) (t : Text) → json.to_json f ≡ some t → json.from_json t ≡ some f)
    (c : Change) (link : Link S) (links : LinkLaws laws link) (codec : PairingCodec) where
  -- The change is made and nothing of the transaction is left, and the fuel has not run out.
  abbrev pub IsDone : Bool → S → Type 0
  IsDone ended t = (ended ≡ true) × Is laws json back c (Over c) t

  abbrev AtStage : S → Type 0
  AtStage = Is laws json back c (Stage json c)

  pub under_way : (t : S) → UnderWay laws json back c t → AtStage t
  under_way t (inl x) = staged laws json back c (λ w. midway) t x
  under_way t (inr x) = staged laws json back c (λ w. landed) t x
