-- ===== src/Cli/VaultFile/Opening.antt =====
-- What a key opens, and what the calls of the outside world keep to.
use ferusa.Base.{
  not_ltb, ℕ, ◌+◌, ◌≡◌, ◌≤◌, refl, Option, some, Text, length, length-append, ◌++◌, take, Result,
  ok, ◌⊎◌, arith,
}
use ferusa.Base.Action.{Action, Ensures, returned, failed}
use ferusa.Core.Blob.{EncryptedBlob, to_bytes}
use ferusa.Core.Blob.Layout.{IsBlob}
use ferusa.Core.Vault.{Vault, validate}
use ferusa.Cli.VaultFile.{
  SessionError, max_vault_plaintext_bytes, max_vault_encrypted_bytes, Libraries, Calls, Desktop,
  as_valid, decrypt_vault_blob, on,
}

-- A vault that can be saved, as this text.
pub record IsStorable (lib : Libraries) (v : Vault) (plaintext : Text) : Type 0 where
  pub valid : as_valid (validate v) ≡ ok tt
  pub printed : lib.to_vec v ≡ some plaintext
  pub short : length plaintext ≤ max_vault_plaintext_bytes

-- The file holds a blob with the salt, and the key opens it to the vault.
pub record Opens (lib : Libraries) (key salt : Text) (v : Vault) (file : Option Text) : Type 0 where
  pub blob : EncryptedBlob
  pub stored : file ≡ some (to_bytes blob)
  pub laid_out : IsBlob blob
  pub salted : blob.salt ≡ salt
  pub short : length (to_bytes blob) ≤ max_vault_encrypted_bytes
  pub opened : decrypt_vault_blob lib blob key ≡ ok v

-- serde_json reads back what it prints.
pub record LibraryLaws (lib : Libraries) : Type 0 where
  pub back : (v : Vault) (t : Text) → lib.to_vec v ≡ some t → lib.from_slice t ≡ some v

pub record CallLaws {X : Type 0} (lib : Libraries) (calls : Calls X) : Type 0 where
  pub file : X → Option Text
  pub encrypt_law :
      (key salt plaintext : Text) (x : X)
      → length salt ≡ 16
      → Ensures
          (λ b y.
            (IsBlob b
              × (b.salt ≡ salt)
              × (length b.ciphertext ≡ length plaintext + 16)
              × (lib.decrypt_vault key b ≡ some plaintext))
            × (file y ≡ file x))
          (λ y. file y ≡ file x)
          (calls.encrypt_vault key salt plaintext x)
  pub write_law :
      (bytes : Text) (x : X)
      → Ensures
          (λ _ y. file y ≡ some bytes)
          (λ y. (file y ≡ file x) ⊎ (file y ≡ some bytes))
          (calls.write_vault bytes x)
  pub read_law :
      (limit : ℕ) (x : X)
      → Ensures
          (λ t y.
            ((bytes : Text) × (file x ≡ some bytes) × (t ≡ take limit bytes)) × (file y ≡ file x))
          (λ y. file y ≡ file x)
          (calls.read_vault limit x)
  pub cleanup_law :
      (x : X) → Ensures (λ _ y. file y ≡ file x) (λ y. file y ≡ file x) (calls.cleanup x)

around :
    {X A : Type 0} {Q : A → X → Type 0} {R : X → Type 0} {x : Result SessionError A × X}
    (s : Desktop X)
    → Ensures Q R x
    → Ensures
        (λ a t. Q a t.outside × (t.session ≡ s.session))
        (λ t. R t.outside × (t.session ≡ s.session))
        (x.0, record s { outside = x.1 })
around s (returned q) = returned (q, refl)
around s (failed r) = failed (r, refl)

-- A call of the outside world leaves the session alone.
pub on-Ensures :
    {X A : Type 0} {Q : A → X → Type 0} {R : X → Type 0} (m : Action X SessionError A)
    (s : Desktop X)
    → Ensures Q R (m s.outside)
    → Ensures
        (λ a t. Q a t.outside × (t.session ≡ s.session))
        (λ t. R t.outside × (t.session ≡ s.session))
        (on m s)
unfolding on
on-Ensures m s e = around s e

length-to_bytes : (b : EncryptedBlob) → IsBlob b → length (to_bytes b) ≡ 48 + length b.ciphertext
unfolding to_bytes
length-to_bytes b h = omega (
  arith,
  length-append b.salt (b.nonce ++ b.ciphertext),
  length-append b.nonce b.ciphertext,
  h.salt_16,
  h.nonce_24,
)

pub stored-Opens :
    (lib : Libraries) (laws : LibraryLaws lib) (key salt plaintext : Text) (v : Vault)
    (blob : EncryptedBlob) (file : Option Text)
    → IsStorable lib v plaintext
    → IsBlob blob
    → blob.salt ≡ salt
    → length blob.ciphertext ≡ length plaintext + 16
    → lib.decrypt_vault key blob ≡ some plaintext
    → file ≡ some (to_bytes blob)
    → Opens lib key salt v file
unfolding decrypt_vault_blob
stored-Opens lib laws key salt plaintext v blob file st ib sa lc de f = record {
  blob = blob;
  stored = f;
  laid_out = ib;
  salted = sa;
  short = omega (arith, length-to_bytes blob ib, lc, st.short);
  opened =
      rw
        (
          de,
          not_ltb (length plaintext) max_vault_plaintext_bytes st.short,
          laws.back v plaintext st.printed,
          st.valid,
        )
        refl;
}
