-- ===== src/Cli/VaultFile/Tests.antt =====
-- A session with an empty vault, and a file system that does not fail.
use ferusa.Base.{
  some_inj, ℕ, ◌≡◌, refl, Option, none, some, List, [], ◌∷◌, ◌++◌, ◌⊎◌, Text, codes, take, drop,
  length, Result, ok, err, arith, subst,
}
use ferusa.Base.Action.{Ensures, returned, failed}
use ferusa.Core.Blob.{EncryptedBlob, to_bytes}
use ferusa.Core.Blob.Layout.{IsBlob}
use ferusa.Core.Vault.{Vault, Entry, validate}
use ferusa.Cli.VaultFile.{
  SessionState, SessionError, call_failed, Libraries, Calls, Desktop, open_session,
  save_vault_candidate, rotate_vault,
}
use ferusa.Cli.VaultFile.Opening.{IsStorable, Opens, LibraryLaws, CallLaws, stored-Opens}
use ferusa.Cli.VaultFile.Sessions.{
  IsOpen, Holds, Rotated, Locked, save_vault_candidate-Ensures, rotate_vault-Ensures,
}
use ferusa.Cli.VaultFile.Reopening.{open_session-Ensures}

abbrev print : Vault → Option Text
print v = elim v.entries [ [] ↦ some (v.version ∷ []) | e ∷ es ↦ none ]

abbrev parse : Text → Option Vault
parse (n ∷ []) = some (record { version = n; entries = [] })
parse _ = none

abbrev tag : Text
tag = codes "0123456789abcdef"

-- A cipher that hides nothing, with the tag before the text.
abbrev plain : Libraries
plain = record {
  to_vec = print;
  from_slice = parse;
  decrypt_vault = λ key b. some (drop 16 b.ciphertext);
  derive_keys = λ password salt. some password;
  combine_vault_key = λ local_secret share. some (local_secret ++ share);
}

print_back :
    (n : ℕ) (es : List Entry) (t : Text)
    → print (record { version = n; entries = es }) ≡ some t
    → parse t ≡ some (record { version = n; entries = es })
print_back n [] t h =
    subst (λ x. parse x ≡ some (record { version = n; entries = [] })) (some_inj h) refl
print_back n (e ∷ es) t h = absurd (ground arith)

abbrev plain_laws : LibraryLaws plain
plain_laws = record { back = λ v t h. print_back v.version v.entries t h }

abbrev blob_of : Text → Text → EncryptedBlob
blob_of salt plaintext = record {
  salt = salt;
  nonce = tag ++ codes "01234567";
  ciphertext = tag ++ plaintext;
}

abbrev read_of : ℕ → Option Text → Result SessionError Text × Option Text
read_of limit none = (err call_failed, none)
read_of limit (some b) = (ok (take limit b), some b)

abbrev calls : Calls (Option Text)
calls = record {
  encrypt_vault = λ key salt plaintext x. (ok (blob_of salt plaintext), x);
  read_vault = read_of;
  write_vault = λ bytes x. (ok tt, some bytes);
  request_unlock_share = λ x. (ok (codes "share"), x);
  cleanup = λ x. (ok tt, x);
}

lays_out : (salt plaintext : Text) → length salt ≡ 16 → IsBlob (blob_of salt plaintext)
lays_out salt plaintext h = record { salt_16 = h; nonce_24 = refl; tagged = omega arith }

read_of_law :
    (limit : ℕ) (x : Option Text)
    → Ensures
        (λ t y. ((bytes : Text) × (x ≡ some bytes) × (t ≡ take limit bytes)) × (y ≡ x))
        (λ y. y ≡ x)
        (read_of limit x)
read_of_law limit none = failed refl
read_of_law limit (some b) = returned ((b, refl, refl), refl)

abbrev call_laws : CallLaws plain calls
call_laws = record {
  file = λ x. x;
  encrypt_law = λ key salt plaintext x l.
      returned ((lays_out salt plaintext l, refl, omega arith, refl), refl);
  write_law = λ bytes x. returned refl;
  read_law = read_of_law;
  cleanup_law = λ x. returned refl;
}

abbrev empty_vault : Vault
empty_vault = record { version = 1; entries = [] }

abbrev session : SessionState
session = record {
  vault = empty_vault;
  local_secret = codes "pw";
  vault_key = codes "pwshare";
  phone_share = codes "share";
  vault_salt = tag;
}

abbrev unlocked : Desktop (Option Text)
unlocked = record { session = some session; outside = some (to_bytes (blob_of tag (1 ∷ []))) }

storable : IsStorable plain empty_vault (1 ∷ [])
unfolding validate
storable = record { valid = refl; printed = refl; short = omega arith }

key_fits : Opens plain (codes "pwshare") tag empty_vault unlocked.outside
key_fits =
    stored-Opens plain plain_laws (codes "pwshare") tag (1 ∷ []) empty_vault (blob_of tag (1 ∷ []))
      unlocked.outside storable (lays_out tag (1 ∷ []) refl) refl refl refl refl

starts_in_step : IsOpen plain plain_laws calls call_laws unlocked
starts_in_step c h =
    subst
      (λ x.
        (length x.vault_salt ≡ 16)
        × ((v : Vault) × Opens plain x.vault_key x.vault_salt v unlocked.outside))
      (some_inj h) (refl, (empty_vault, key_fits))

save_vault_candidate-Ensures_example :
    Ensures
      (λ _. Holds plain plain_laws calls call_laws empty_vault)
      (λ t. IsOpen plain plain_laws calls call_laws t × (t.session ≡ some session))
      (save_vault_candidate plain calls empty_vault unlocked)
save_vault_candidate-Ensures_example =
    save_vault_candidate-Ensures plain plain_laws calls call_laws empty_vault unlocked
      starts_in_step

rotate_vault-Ensures_example :
    Ensures
      (λ _. Rotated plain plain_laws calls call_laws (codes "new") tag session)
      (λ t.
        Locked plain plain_laws calls call_laws t
        ⊎ ((t.session ≡ some session) × (t.outside ≡ unlocked.outside)))
      (rotate_vault plain calls (codes "new") tag unlocked)
rotate_vault-Ensures_example =
    rotate_vault-Ensures plain plain_laws calls call_laws (codes "new") tag (1 ∷ []) session
      unlocked refl storable refl

abbrev closed : Desktop (Option Text)
closed = record { session = none; outside = unlocked.outside }

open_session-Ensures_example :
    Ensures
      (λ _. Holds plain plain_laws calls call_laws empty_vault)
      (λ t. (t.session ≡ none) × (t.outside ≡ closed.outside))
      (open_session plain calls (codes "pw") closed)
open_session-Ensures_example =
    open_session-Ensures plain plain_laws calls call_laws (codes "pwshare") tag (codes "pw")
      (codes "pw") (codes "share") empty_vault closed key_fits refl (λ x. returned (refl, refl))
      refl
