-- ===== src/Cli/Pairing/Tests/Resuming.antt =====
-- A change of pairing that is resumed with a phone that answers.
use ferusa.Base.{none, some, codes, ok}
use ferusa.Core.Message.{
  FerusaMessage, pairing_commit, pairing_commit_ack, pairing_activate, pairing_activate_ack,
}
use ferusa.Cli.Pairing.Files.{
  OnDisk, vault_enc, pairing_state, pairing_transaction_state, pending_vault_enc,
  pending_pairing_state,
}
use ferusa.Cli.Pairing.Transaction.{prepared}
use ferusa.Cli.Pairing.Status.{PairingCodec, pairing_file}
use ferusa.Cli.Pairing.Sight.{Contents}
use ferusa.Cli.Pairing.Promotion.{transaction}
use ferusa.Cli.Pairing.Resume.{Link, application_closed}
use ferusa.Cli.Pairing.Tests.{change, codec, phone, print}

abbrev answer : FerusaMessage → OnDisk Contents FerusaMessage
answer (pairing_commit id) s = (ok (pairing_commit_ack id), s)
answer (pairing_activate id) s = (ok (pairing_activate_ack id), s)
answer m s = (ok m, s)

abbrev link : Link Contents
link = record {
  exchange = answer;
  redial = λ d. answer;
  closed = λ s. (ok (application_closed 0 (codes "pairing complete")), s);
}

-- Every text is read as the same pairing.
abbrev reading : PairingCodec
reading = record codec { from_json = λ t. some (pairing_file codec phone) }

abbrev ready_files : Contents
ready_files vault_enc = some (codes "old vault")
ready_files pairing_state = some (codes "old pairing")
ready_files pending_vault_enc = some (codes "new vault")
ready_files pending_pairing_state = some (codes "new pairing")
ready_files _ = none

abbrev before_files : Contents
before_files pairing_transaction_state = some (print (transaction change prepared))
before_files f = ready_files f
