-- ===== src/Cli/VaultFile/Reopening.antt =====
-- What was saved is opened again.
use ferusa.Base.{
  some_inj, not_ltb, suc, ◌≡◌, ◌≤◌, refl, sym, ap, ◌∙◌, Option, some, Text, length, take, take_all,
  arith,
}
use ferusa.Base.Action.{Ensures, returned, continue-Ensures}
use ferusa.Core.Blob.{EncryptedBlob, to_bytes}
use ferusa.Core.Blob.Layout.{from_bytes-to_bytes}
use ferusa.Core.Vault.{Vault}
use ferusa.Cli.VaultFile.{
  max_vault_encrypted_bytes, Libraries, Calls, Desktop, put_session, load_vault_blob, open_session,
  unlock_with,
}
use ferusa.Cli.VaultFile.Opening.{Opens, LibraryLaws, CallLaws, on-Ensures}
use ferusa.Cli.VaultFile.Saving.{Same}
use ferusa.Cli.VaultFile.Sessions.{Holds}

module _ {X : Type 0} (lib : Libraries) (laws : LibraryLaws lib) (calls : Calls X)
    (keep : CallLaws lib calls) where
  open keep use {file}

  abbrev Unchanged : Desktop X → Desktop X → Type 0
  Unchanged = Same lib laws calls keep

  read_bytes :
      (blob : EncryptedBlob) (o : Option Text) (b : Text)
      → o ≡ some (to_bytes blob)
      → length (to_bytes blob) ≤ max_vault_encrypted_bytes
      → (bytes : Text) × (o ≡ some bytes) × (b ≡ take (suc max_vault_encrypted_bytes) bytes)
      → b ≡ to_bytes blob
  read_bytes blob o b e l x =
      x.2
      ∙ ap (take (suc max_vault_encrypted_bytes)) (some_inj (sym x.1 ∙ e))
      ∙ take_all (suc max_vault_encrypted_bytes) (to_bytes blob) (omega (arith, l))

  load_vault_blob-Ensures :
      (key salt : Text) (v : Vault) (s : Desktop X) (o : Opens lib key salt v (file s.outside))
      → Ensures (λ b t. (b ≡ o.blob) × Unchanged s t) (Unchanged s) (load_vault_blob lib calls s)
  unfolding load_vault_blob
  load_vault_blob-Ensures key salt v s o =
      continue-Ensures _
        (on-Ensures (calls.read_vault (suc max_vault_encrypted_bytes)) s
          (keep.read_law (suc max_vault_encrypted_bytes) s.outside))
        (λ b t h.
          rw
            (
              read_bytes o.blob (file s.outside) b o.stored o.short h.0.0,
              not_ltb (length (to_bytes o.blob)) max_vault_encrypted_bytes o.short,
              from_bytes-to_bytes o.blob o.laid_out,
            )
            (returned (refl, record { same_file = h.0.1; same_session = h.1 })))
        (λ t h. record { same_file = h.0; same_session = h.1 })

  held :
      (key salt local_secret share : Text) (v : Vault) (s t : Desktop X)
      (o : Opens lib key salt v (file s.outside))
      → file t.outside ≡ file s.outside
      → t.session
        ≡ some (record {
          vault = v;
          local_secret = local_secret;
          vault_key = key;
          phone_share = share;
          vault_salt = o.blob.salt;
        })
      → Holds lib laws calls keep v t
  held key salt local_secret share v s t o e f = record {
    now = record {
      vault = v;
      local_secret = local_secret;
      vault_key = key;
      phone_share = share;
      vault_salt = o.blob.salt;
    };
    open_now = f;
    same_vault = refl;
    salt_16 = o.laid_out.salt_16;
    opens = record {
      blob = o.blob;
      stored = e ∙ o.stored;
      laid_out = o.laid_out;
      salted = refl;
      short = o.short;
      opened = o.opened;
    };
  }

  -- Opening a session for a file that a key opens, with a password and a phone share of which that
  -- key is made: if it returns, the session has the vault of the file, and the key still opens the
  -- file to it; if it fails, the session and the file are as they were.
  pub open_session-Ensures :
      (key salt password local_secret share : Text) (v : Vault) (s : Desktop X)
      → Opens lib key salt v (file s.outside)
      → lib.derive_keys password salt ≡ some local_secret
      → ((x : X)
          → Ensures
              (λ a y. (a ≡ share) × (file y ≡ file x))
              (λ y. file y ≡ file x)
              (calls.request_unlock_share x))
      → lib.combine_vault_key local_secret share ≡ some key
      → Ensures
          (λ _. Holds lib laws calls keep v)
          (λ t. (t.session ≡ s.session) × (file t.outside ≡ file s.outside))
          (open_session lib calls password s)
  unfolding open_session unlock_with put_session
  open_session-Ensures key salt password local_secret share v s o d asks c =
      continue-Ensures _ (load_vault_blob-Ensures key salt v s o)
        (λ b t h.
          rw (h.0, ap (lib.derive_keys password) o.salted ∙ d)
            (continue-Ensures _ (on-Ensures calls.request_unlock_share t (asks t.outside))
              (λ a t1 k.
                rw (k.0.0, c, o.opened)
                  (returned
                    (held key salt local_secret share v s _ o (k.0.1 ∙ h.1.same_file) refl)))
              (λ t1 k. (k.1 ∙ h.1.same_session, k.0 ∙ h.1.same_file))))
        (λ t h. (h.same_session, h.same_file))
