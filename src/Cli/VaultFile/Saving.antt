-- ===== src/Cli/VaultFile/Saving.antt =====
-- Saving keeps the file and the session's key together.
use ferusa.Base.{
  ℕ, ◌+◌, ◌≡◌, ◌≤◌, refl, ◌∙◌, Bool, true, false, Option, none, some, Text, ltb, length, Result, ok,
  err, ok_or, ◌⊎◌, inl, inr, arith,
}
use ferusa.Base.Action.{Ensures, returned, failed, continue-Ensures, Ensures-mono, lift, bail_if}
use ferusa.Core.Blob.{EncryptedBlob, to_bytes}
use ferusa.Core.Blob.Layout.{IsBlob}
use ferusa.Core.Vault.{Vault, validate}
use ferusa.Cli.VaultFile.{
  SessionError, not_serialized, vault_too_large, max_vault_plaintext_bytes, Libraries, Calls,
  Desktop, as_valid, on, save_vault_snapshot,
}
use ferusa.Cli.VaultFile.Opening.{
  IsStorable, Opens, LibraryLaws, CallLaws, on-Ensures, stored-Opens,
}

module _ {X : Type 0} (P : Desktop X → Type 0) where
  pub lift-Ensures :
      {A : Type 0} (r : Result SessionError A) (s : Desktop X)
      → P s
      → Ensures (λ a t. (r ≡ ok a) × P t) P (lift r s)
  lift-Ensures (ok a) s p = returned (refl, p)
  lift-Ensures (err e) s p = failed p

  bail-Ensures :
      (b : Bool) (e : SessionError) (s : Desktop X)
      → P s
      → Ensures (λ _ t. (b ≡ false) × P t) P (bail_if b e s)
  bail-Ensures true e s p = failed p
  bail-Ensures false e s p = returned (refl, p)

pub some_of : {A : Type 0} (e : SessionError) (o : Option A) (a : A) → ok_or o e ≡ ok a → o ≡ some a
some_of e none a h = absurd (ground arith)
some_of e (some b) a h = ground arith

not_less : (a b : ℕ) → ltb a b ≡ false → b ≤ a
not_less a b h = ground arith

module _ {X : Type 0} (lib : Libraries) (laws : LibraryLaws lib) (calls : Calls X)
    (keep : CallLaws lib calls) where
  open keep use {file}

  -- The file and the session are those of `s`.
  pub record Same (s t : Desktop X) : Type 0 where
    pub same_file : file t.outside ≡ file s.outside
    pub same_session : t.session ≡ s.session

  pub record Saved (s : Desktop X) (key salt : Text) (v : Vault) (t : Desktop X) : Type 0 where
    pub opens : Opens lib key salt v (file t.outside)
    pub same_session : t.session ≡ s.session

  pub record Unsaved (s : Desktop X) (key salt : Text) (v : Vault) (t : Desktop X) : Type 0 where
    pub either : (file t.outside ≡ file s.outside) ⊎ Opens lib key salt v (file t.outside)
    pub same_session : t.session ≡ s.session

  unsaved :
      (s : Desktop X) (key salt : Text) (v : Vault) (t : Desktop X)
      → Same s t
      → Unsaved s key salt v t
  unsaved s key salt v t h = record { either = inl h.same_file; same_session = h.same_session }

  pub written-Ensures :
      (key salt plaintext : Text) (v : Vault) (s t : Desktop X) (b : EncryptedBlob)
      → IsStorable lib v plaintext
      → Same s t
      → IsBlob b
        × (b.salt ≡ salt)
        × (length b.ciphertext ≡ length plaintext + 16)
        × (lib.decrypt_vault key b ≡ some plaintext)
      → Ensures
          (λ _. Saved s key salt v)
          (Unsaved s key salt v)
          (on (calls.write_vault (to_bytes b)) t)
  written-Ensures key salt plaintext v s t b st h e =
      let opens : (o : Option Text) → o ≡ some (to_bytes b) → Opens lib key salt v o =
        λ o. stored-Opens lib laws key salt plaintext v b o st e.0 e.1 e.2 e.3 in
      Ensures-mono
        (on-Ensures (calls.write_vault (to_bytes b)) t (keep.write_law (to_bytes b) t.outside))
        (λ _ u w. record {
          opens = opens (file u.outside) w.0;
          same_session = w.1 ∙ h.same_session;
        })
        (λ u w. record {
          either = elim w.0 [
            | inl z ↦ inl (z ∙ h.same_file)
            | inr z ↦ inr (opens (file u.outside) z)
          ];
          same_session = w.1 ∙ h.same_session;
        })

  pub encrypted-Ensures :
      (key salt plaintext : Text) (s t : Desktop X)
      → length salt ≡ 16
      → Same s t
      → Ensures
          (λ b u.
            (IsBlob b
              × (b.salt ≡ salt)
              × (length b.ciphertext ≡ length plaintext + 16)
              × (lib.decrypt_vault key b ≡ some plaintext))
            × Same s u)
          (Same s)
          (on (calls.encrypt_vault key salt plaintext) t)
  encrypted-Ensures key salt plaintext s t l h =
      Ensures-mono
        (on-Ensures (calls.encrypt_vault key salt plaintext) t
          (keep.encrypt_law key salt plaintext t.outside l))
        (λ b u w.
          (w.0.0, record { same_file = w.0.1 ∙ h.same_file; same_session = w.1 ∙ h.same_session }))
        (λ u w. record { same_file = w.0 ∙ h.same_file; same_session = w.1 ∙ h.same_session })

  pub save_vault_snapshot-Ensures :
      (v : Vault) (key salt : Text) (s : Desktop X)
      → length salt ≡ 16
      → Ensures
          (λ _. Saved s key salt v)
          (Unsaved s key salt v)
          (save_vault_snapshot lib calls v key salt s)
  unfolding save_vault_snapshot
  save_vault_snapshot-Ensures v key salt s l =
      let fails = unsaved s key salt v in
      continue-Ensures _
        (lift-Ensures (Same s) (as_valid (validate v)) s
          (record { same_file = refl; same_session = refl }))
        (λ _ t h.
          continue-Ensures _ (lift-Ensures (Same s) (ok_or (lib.to_vec v) not_serialized) t h.1)
            (λ p t1 k.
              continue-Ensures _
                (bail-Ensures (Same s) (ltb max_vault_plaintext_bytes (length p)) vault_too_large t1
                  k.1)
                (λ _ t2 m.
                  let st : IsStorable lib v p = record {
                    valid = h.0;
                    printed = some_of _ (lib.to_vec v) p k.0;
                    short = not_less max_vault_plaintext_bytes (length p) m.0;
                  } in
                  continue-Ensures _ (encrypted-Ensures key salt p s t2 l m.1)
                    (λ b t3 w.
                      continue-Ensures _ (written-Ensures key salt p v s t3 b st w.1 w.0)
                        (λ _ t4 z. returned z) (λ t4 z. z))
                    (λ t3 w. fails t3 w))
                (λ t2 m. fails t2 m))
            (λ t1 k. fails t1 k))
        (λ t h. fails t h)
