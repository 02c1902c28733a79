-- ===== src/Cli/Pairing/Tests.antt =====
-- A change of pairing on files in memory.
mod Steady
mod Resuming
use mathlib.Core.Option.{some-injective}
use ferusa.Base.{
  ◌+◌, ◌-◌, arith, ℕ, ◌≡◌, refl, sym, ap, ◌∙◌, Bool, true, false, not, Option, none, some, [], ◌∷◌,
  Text, codes, Result, ok, err, if◌then◌else◌, is_some, is_ok, inl, ◌⊎◌, ◌↔◌, zero, suc, all,
}
use ferusa.Base.Action.{Ensures, returned, failed}
use ferusa.Cli.Twofa.{PairingData}
use ferusa.Cli.Pairing.Files.{
  File, vault_enc, pairing_state, pairing_transaction_state, temporary, pending_vault_enc,
  pending_pairing_state, rollback_vault_enc, rollback_pairing_state, FileError, io_failed, Disk,
}
use ferusa.Cli.Pairing.Transaction.{
  PairingTxnPhase, prepared, phone_committed, locally_activated, fully_activated, PairingTxnFile,
  TxnJson, write_pairing_transaction_prepared, recover_pairing_transaction,
}
use ferusa.Cli.Pairing.Sight.{file_eq, Contents, put, moved, DiskLaws}
use ferusa.Cli.Pairing.Promotion.{Change, transaction, waiting, Midway, Landed, Seen}
use ferusa.Cli.Pairing.Recovery.{untried, tried, UnderWay, Tries-Landed}
use ferusa.Cli.Pairing.Preparing.{Prepared, Kept, write_pairing_transaction_prepared-Ensures}
use ferusa.Cli.Pairing.Settled.{Untouched, settled-Ensures}
use ferusa.Cli.Pairing.Status.{
  PairingCodec, CodecLaws, parse_pairing_file, pairing_file, parse-pairing_file, is_space,
  pairing_status, pairing_status-ready, ready, read_pairing_data,
}

-- The files, and how many more renames succeed before one fails.
record Memory : Type 0 where
  files : Contents
  renames : ℕ

abbrev rename_in : ℕ → File → File → Memory → Result FileError (Unit {0}) × Memory
rename_in zero a b s = (err io_failed, s)
rename_in (suc n) a b s = (ok tt, record { files = moved a b s.files; renames = n })

abbrev read_in : Option Text → Memory → Result FileError Text × Memory
read_in none s = (err io_failed, s)
read_in (some t) s = (ok t, s)

abbrev memory : Disk Memory
memory = record {
  exists = λ f s. is_some (s.files f);
  read = λ f s. read_in (s.files f) s;
  create_new = λ s. (ok tt, record s { files = put temporary (some []) s.files });
  write_all = λ t s. (ok tt, record s { files = put temporary (some t) s.files });
  sync_all = λ s. (ok tt, s);
  restrict_private_file = λ s. (ok tt, s);
  rename = λ a b s. rename_in s.renames a b s;
  remove_file = λ f s. (ok (is_some (s.files f)), record s { files = put f none s.files });
  fsync_parent = λ f s. (ok tt, s);
}

rename_in_law :
    (n : ℕ) (a b : File) (s : Memory)
    → Ensures
        (λ _ t. (j : File) → t.files j ≡ moved a b s.files j)
        (λ t. ((j : File) → t.files j ≡ s.files j) ⊎ ((j : File) → t.files j ≡ moved a b s.files j))
        (rename_in n a b s)
rename_in_law zero a b s = failed (inl (λ j. refl))
rename_in_law (suc n) a b s = returned (λ j. refl)

read_in_law :
    (o : Option Text) (s : Memory)
    → Ensures
        (λ x t. (o ≡ some x) × ((j : File) → t.files j ≡ s.files j))
        (λ t. (j : File) → t.files j ≡ s.files j)
        (read_in o s)
read_in_law none s = failed (λ j. refl)
read_in_law (some x) s = returned (refl, λ j. refl)

pub temporary_put :
    (o : Option Text) (v : Contents) (j : File)
    → file_eq temporary j ≡ false
    → put temporary o v j ≡ v j
temporary_put o v j h = ap (λ b. if b then o else v j) h

abbrev memory_laws : DiskLaws memory
memory_laws = record {
  peek = λ s. s.files;
  exists_law = λ f s. refl;
  read_law = λ f s. read_in_law (s.files f) s;
  create_new_law = λ s. returned (temporary_put (some []) s.files);
  write_all_law = λ t s. returned (refl, temporary_put (some t) s.files);
  sync_all_law = λ s. returned (λ j. refl);
  restrict_law = λ s. returned (λ j. refl);
  fsync_law = λ f s. returned (λ j. refl);
  rename_law = λ a b s. rename_in_law s.renames a b s;
  remove_law = λ f s. returned (λ j. refl);
}

abbrev phase_number : PairingTxnPhase → ℕ
phase_number prepared = 0
phase_number phone_committed = 1
phase_number locally_activated = 2
phase_number fully_activated = 3

abbrev number_phase : ℕ → PairingTxnPhase
number_phase zero = prepared
number_phase (suc zero) = phone_committed
number_phase (suc (suc zero)) = locally_activated
number_phase n = fully_activated

abbrev flag : Bool → ℕ
flag false = 0
flag true = 1

abbrev unflag : ℕ → Bool
unflag zero = false
unflag (suc n) = true

abbrev print : PairingTxnFile → Text
print f =
    f.version
    ∷ phase_number f.phase
    ∷ f.pairing_id
    ∷ flag f.had_live_vault
    ∷ flag f.had_live_pairing
    ∷ []

abbrev parse : Text → Option PairingTxnFile
parse (v ∷ p ∷ id ∷ a ∷ b ∷ []) = some (record {
  version = v;
  phase = number_phase p;
  pairing_id = id;
  had_live_vault = unflag a;
  had_live_pairing = unflag b;
})
parse _ = none

abbrev json : TxnJson
json = record { to_json = λ f. some (print f); from_json = parse }

unflag-flag : (b : Bool) → unflag (flag b) ≡ b
unflag-flag false = refl
unflag-flag true = refl

number-phase : (p : PairingTxnPhase) → number_phase (phase_number p) ≡ p
number-phase prepared = refl
number-phase phone_committed = refl
number-phase locally_activated = refl
number-phase fully_activated = refl

parse-print : (f : PairingTxnFile) → parse (print f) ≡ some f
parse-print f = simp (unflag-flag, number-phase)

back : (f : PairingTxnFile) (t : Text) → json.to_json f ≡ some t → json.from_json t ≡ some f
back f t h = ap parse (some-injective _ _ (sym h)) ∙ parse-print f

abbrev change : Change
change = record {
  id = 7;
  old_vault = some (codes "old vault");
  new_vault = codes "new vault";
  old_pairing = some (codes "old pairing");
  new_pairing = codes "new pairing";
}

abbrev live_files : Contents
live_files vault_enc = some (codes "old vault")
live_files pairing_state = some (codes "old pairing")
live_files _ = none

abbrev midway_files : Contents
midway_files vault_enc = some (codes "old vault")
midway_files pairing_state = some (codes "old pairing")
midway_files pending_vault_enc = some (codes "new vault")
midway_files pending_pairing_state = some (codes "new pairing")
midway_files rollback_vault_enc = some (codes "old vault")
midway_files rollback_pairing_state = some (codes "old pairing")
midway_files pairing_transaction_state = some (print (transaction change phone_committed))
midway_files _ = none

-- The second rename fails: the new vault is in place, the new pairing is not.
abbrev half_way : Memory
half_way = record { files = midway_files; renames = 1 }

half_way-Midway : Seen memory_laws json back (Midway json change) half_way
half_way-Midway = record {
  seen = midway_files;
  seen_at = λ j h. refl;
  fact = record {
    recorded = record {
      raw = print (transaction change phone_committed);
      stored = refl;
      reads = parse-print (transaction change phone_committed);
    };
    vault = waiting refl refl;
    pairing = waiting refl refl;
  };
}

Tries-Landed_example :
    UnderWay memory_laws json back change (recover_pairing_transaction json memory half_way).1
    × Ensures
        (λ _. Seen memory_laws json back (Landed json change))
        (UnderWay memory_laws json back change)
        (recover_pairing_transaction json memory
          (recover_pairing_transaction json memory half_way).1)
Tries-Landed_example = Tries-Landed memory_laws json back change half_way-Midway (tried untried)

write_pairing_transaction_prepared-Ensures_example :
    Ensures
      (λ _. Seen memory_laws json back (Prepared memory_laws json back 7 live_files))
      (Kept memory_laws json back live_files)
      (write_pairing_transaction_prepared json memory 7
        (record { files = live_files; renames = 9 }))
write_pairing_transaction_prepared-Ensures_example =
    write_pairing_transaction_prepared-Ensures memory_laws json back 7 live_files
      (record { files = live_files; renames = 9 }) refl (λ j h. refl)

settled-Ensures_example :
    Ensures
      (λ _. Untouched memory_laws json back live_files)
      (Untouched memory_laws json back live_files)
      (recover_pairing_transaction json memory (record { files = live_files; renames = 0 }))
settled-Ensures_example =
    settled-Ensures memory_laws json back change prepared live_files
      (record { files = live_files; renames = 0 }) (inl refl) (λ j h. refl)

-- Hex digits stand for themselves here, and every id of 32 digits is one of a node.
abbrev printable : Text → Text
printable [] = []
printable (c ∷ s) = (c + 33) ∷ printable s

abbrev unprintable : Text → Text
unprintable [] = []
unprintable (c ∷ s) = (c - 33) ∷ unprintable s

abbrev codec : PairingCodec
codec = record {
  from_json = λ t. none;
  hex_encode = printable;
  hex_decode = λ t. some (unprintable t);
  is_node_id = λ t. true;
}

printable_lem : (s : Text) → all (λ c. not (is_space c)) (printable s) ≡ true
printable_lem [] = refl
printable_lem (c ∷ s) = ground (arith, printable_lem s)

unprintable-printable : (s : Text) → unprintable (printable s) ≡ s
unprintable-printable [] = refl
unprintable-printable (c ∷ s) = ground (arith, unprintable-printable s)

abbrev codec_laws : CodecLaws codec
codec_laws = record {
  printed = printable_lem;
  decode-encode = λ s. ap some (unprintable-printable s);
}

abbrev phone : PairingData
phone = record {
  pairing_id = 7;
  phone_node_id = codes "0123456789abcdef0123456789abcdef";
  approval_public_key_der = 4 ∷ [];
  created_at_ms = 0;
}

parse-pairing_file_example : parse_pairing_file codec (pairing_file codec phone) ≡ ok phone
parse-pairing_file_example = parse-pairing_file codec codec_laws phone refl refl refl

pairing_status-ready_example : (pairing_status codec memory half_way ≡ ready) ↔ (
    (true ≡ false)
    × (true ≡ false)
    × (true ≡ true)
    × (is_ok (read_pairing_data codec (ok (codes "old pairing"))) ≡ true))
pairing_status-ready_example = pairing_status-ready codec memory half_way
