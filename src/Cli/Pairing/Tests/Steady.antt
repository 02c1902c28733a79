-- ===== src/Cli/Pairing/Tests/Steady.antt =====
-- A disk that does not fail.
use ferusa.Base.{◌≡◌, refl, true, Option, none, some, [], Text, Result, ok, err, is_some, is_ok}
use ferusa.Base.Returning.{Returns}
use ferusa.Base.Action.{Ensures, returned, failed}
use ferusa.Cli.Pairing.Files.{File, temporary, FileError, io_failed, Disk}
use ferusa.Cli.Pairing.Transaction.{recover_pairing_transaction, phone_committed}
use ferusa.Cli.Pairing.Sight.{Contents, put, moved, DiskLaws}
use ferusa.Cli.Pairing.Promotion.{Landed, Seen, Midway, waiting, transaction}
use ferusa.Cli.Pairing.Success.{IsReliable, Midway-Returns}
use ferusa.Cli.Pairing.Tests.{json, back, change, midway_files, temporary_put, print, parse-print}

abbrev pub read_from : Option Text → Contents → Result FileError Text × Contents
read_from none s = (err io_failed, s)
read_from (some t) s = (ok t, s)

abbrev pub steady : Disk Contents
steady = record {
  exists = λ f s. is_some (s f);
  read = λ f s. read_from (s f) s;
  create_new = λ s. (ok tt, put temporary (some []) s);
  write_all = λ t s. (ok tt, put temporary (some t) s);
  sync_all = λ s. (ok tt, s);
  restrict_private_file = λ s. (ok tt, s);
  rename = λ a b s. (ok tt, moved a b s);
  remove_file = λ f s. (ok (is_some (s f)), put f none s);
  fsync_parent = λ f s. (ok tt, s);
}

pub read_from_law :
    (o : Option Text) (s : Contents)
    → Ensures
        (λ x t. (o ≡ some x) × ((j : File) → t j ≡ s j))
        (λ t. (j : File) → t j ≡ s j)
        (read_from o s)
read_from_law none s = failed (λ j. refl)
read_from_law (some x) s = returned (refl, λ j. refl)

abbrev pub steady_laws : DiskLaws steady
steady_laws = record {
  peek = λ s. s;
  exists_law = λ f s. refl;
  read_law = λ f s. read_from_law (s f) s;
  create_new_law = λ s. returned (temporary_put (some []) s);
  write_all_law = λ t s. returned (refl, temporary_put (some t) s);
  sync_all_law = λ s. returned (λ j. refl);
  restrict_law = λ s. returned (λ j. refl);
  fsync_law = λ f s. returned (λ j. refl);
  rename_law = λ a b s. returned (λ j. refl);
  remove_law = λ f s. returned (λ j. refl);
}

read_from_ok : (o : Option Text) (s : Contents) → is_some o ≡ true → is_ok (read_from o s).0 ≡ true
read_from_ok none s h = h
read_from_ok (some x) s h = refl

abbrev steady_reliable : IsReliable steady_laws
steady_reliable = record {
  reads = λ f s h. read_from_ok (s f) s h;
  creates = λ s. refl;
  writes = λ t s. refl;
  syncs = λ s. refl;
  restricts = λ s. refl;
  renames = λ a b s h. refl;
  fsyncs = λ f s. refl;
}

midway : Midway json change midway_files
midway = record {
  recorded = record {
    raw = print (transaction change phone_committed);
    stored = refl;
    reads = parse-print (transaction change phone_committed);
  };
  vault = waiting refl refl;
  pairing = waiting refl refl;
}

Midway-Returns_example :
    Returns
      (λ _. Seen steady_laws json back (Landed json change))
      (recover_pairing_transaction json steady midway_files)
Midway-Returns_example =
    Midway-Returns steady_laws steady_reliable json back (λ f. refl) change midway_files
      midway_files midway (λ h. refl) (λ h. refl) (λ j h. refl)
