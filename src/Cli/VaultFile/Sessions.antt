-- ===== src/Cli/VaultFile/Sessions.antt =====
-- An open session has the key of the file.
use ferusa.Base.{
  some_inj, ◌+◌, ◌≡◌, refl, sym, ◌∙◌, Option, none, some, Text, length, Result, ok_or, ◌⊎◌, inl,
  inr, subst,
}
use ferusa.Base.Action.{Ensures, returned, failed, continue-Ensures, Ensures-mono, forgive}
use ferusa.Core.Blob.{EncryptedBlob}
use ferusa.Core.Blob.Layout.{IsBlob}
use ferusa.Core.Vault.{Vault}
use ferusa.Cli.VaultFile.{
  SessionState, SessionError, not_unlocked, bad_keys, Libraries, Calls, Desktop, session_of,
  put_session, save_vault_candidate, write_or_lock, locked_on_error, rotate_vault,
}
use ferusa.Cli.VaultFile.Opening.{IsStorable, Opens, LibraryLaws, CallLaws, on-Ensures}
use ferusa.Cli.VaultFile.Saving.{
  lift-Ensures, some_of, Same, Saved, Unsaved, encrypted-Ensures, written-Ensures,
  save_vault_snapshot-Ensures,
}

forgiven :
    {X : Type 0} {Q P R R' : Desktop X → Type 0} {x : Result SessionError (Unit {0}) × Desktop X}
    → Ensures (λ _. Q) R x
    → ((s : Desktop X) → Q s → P s)
    → ((s : Desktop X) → R s → P s)
    → Ensures (λ _. P) R' (forgive x)
forgiven (returned q) f g = returned (f _ q)
forgiven (failed r) f g = returned (g _ r)

locking :
    {X : Type 0} {Q R : Desktop X → Type 0} {x : Result SessionError (Unit {0}) × Desktop X}
    → Ensures (λ _. Q) R x
    → Ensures (λ _. Q) (λ t. t.session ≡ none) (locked_on_error x)
locking (returned q) = returned q
locking (failed r) = failed refl

module _ {X : Type 0} (lib : Libraries) (laws : LibraryLaws lib) (calls : Calls X)
    (keep : CallLaws lib calls) where
  open keep use {file}

  abbrev OpensFor : SessionState → Option Text → Type 0
  OpensFor c o = (length c.vault_salt ≡ 16) × ((v : Vault) × Opens lib c.vault_key c.vault_salt v o)

  -- The key of an open session opens the file.
  abbrev pub IsOpen : Desktop X → Type 0
  IsOpen s = (c : SessionState) → s.session ≡ some c → OpensFor c (file s.outside)

  -- The session is open with this vault, and the file holds the same vault under its key.
  pub record Holds (v : Vault) (t : Desktop X) : Type 0 where
    pub now : SessionState
    pub open_now : t.session ≡ some now
    pub same_vault : now.vault ≡ v
    pub salt_16 : length now.vault_salt ≡ 16
    pub opens : Opens lib now.vault_key now.vault_salt v (file t.outside)

  Same-IsOpen : (s t : Desktop X) → Same lib laws calls keep s t → IsOpen s → IsOpen t
  Same-IsOpen s t h o c e = subst (OpensFor c) (sym h.same_file) (o c (sym h.same_session ∙ e))

  now-IsOpen :
      (c : SessionState) (t : Desktop X)
      → t.session ≡ some c
      → OpensFor c (file t.outside)
      → IsOpen t
  now-IsOpen c t e o d f = subst (λ x. OpensFor x (file t.outside)) (some_inj (sym e ∙ f)) o

  abbrev Kept : Desktop X → Desktop X → Type 0
  Kept s t = IsOpen t × (t.session ≡ s.session)

  Unsaved-Kept :
      (s t u : Desktop X) (c : SessionState) (v : Vault)
      → IsOpen s
      → s.session ≡ some c
      → Same lib laws calls keep s t
      → Unsaved lib laws calls keep t c.vault_key c.vault_salt v u
      → Kept s u
  Unsaved-Kept s t u c v o e h w = (
    elim w.either [
      | inl z ↦
          Same-IsOpen s u
            (record { same_file = z ∙ h.same_file; same_session = w.same_session ∙ h.same_session })
            o
      | inr z ↦ now-IsOpen c u (w.same_session ∙ h.same_session ∙ e) ((o c e).0, (v, z))
    ],
    w.same_session ∙ h.same_session,
  )

  -- Saving a candidate vault, in a session whose key opens the file: if it returns, the session has
  -- that vault and the file holds it under the session's key; if it fails, the session is as it was
  -- and its key still opens the file.
  pub save_vault_candidate-Ensures :
      (v : Vault) (s : Desktop X)
      → IsOpen s
      → Ensures
          (λ _. Holds v)
          (λ t. IsOpen t × (t.session ≡ s.session))
          (save_vault_candidate lib calls v s)
  unfolding save_vault_candidate session_of put_session
  save_vault_candidate-Ensures v s o =
      continue-Ensures _
        (lift-Ensures (Same lib laws calls keep s) (ok_or s.session not_unlocked) s
          (record { same_file = refl; same_session = refl }))
        (λ c t h.
          let e = some_of _ s.session c h.0 in
          continue-Ensures _
            (save_vault_snapshot-Ensures lib laws calls keep v c.vault_key c.vault_salt t (o c e).0)
            (λ _ u w. rw (w.same_session ∙ h.1.same_session ∙ e) (
              returned (record {
                now = record c { vault = v };
                open_now = refl;
                same_vault = refl;
                salt_16 = (o c e).0;
                opens = w.opens;
              })))
            (λ u w. Unsaved-Kept s t u c v o e h.1 w))
        (λ t h. (Same-IsOpen s t h o, h.same_session))

  -- The session is locked.
  abbrev pub Locked : Desktop X → Type 0
  Locked t = t.session ≡ none

  write_or_lock-Ensures :
      (key salt plaintext : Text) (v : Vault) (s t : Desktop X) (b : EncryptedBlob)
      → IsStorable lib v plaintext
      → Same lib laws calls keep s t
      → IsBlob b
        × (b.salt ≡ salt)
        × (length b.ciphertext ≡ length plaintext + 16)
        × (lib.decrypt_vault key b ≡ some plaintext)
      → Ensures (λ _. Saved lib laws calls keep s key salt v) Locked (write_or_lock lib calls b t)
  unfolding write_or_lock
  write_or_lock-Ensures key salt plaintext v s t b st h e =
      locking (written-Ensures lib laws calls keep key salt plaintext v s t b st h e)

  found_session :
      (c : SessionState) (s : Desktop X)
      → s.session ≡ some c
      → Ensures
          (λ a t. (a ≡ c) × Same lib laws calls keep s t)
          (Same lib laws calls keep s)
          (session_of s)
  unfolding session_of
  found_session c s e =
      Ensures-mono
        (lift-Ensures (Same lib laws calls keep s) (ok_or s.session not_unlocked) s
          (record { same_file = refl; same_session = refl }))
        (λ a t h. (some_inj (sym (some_of _ s.session a h.0) ∙ e), h.1)) (λ t h. h)

  -- A session that has the new key, and a file that the new key opens.
  pub record Rotated (new_local_secret new_salt : Text) (c : SessionState) (t : Desktop X)
      : Type 0 where
    pub holds : Holds c.vault t
    pub new_local : holds.now.local_secret ≡ new_local_secret
    pub same_share : holds.now.phone_share ≡ c.phone_share
    pub new_salted : holds.now.vault_salt ≡ new_salt
    pub new_key : lib.combine_vault_key new_local_secret c.phone_share ≡ some holds.now.vault_key

  rotated :
      (new_local_secret new_salt key : Text) (c : SessionState) (s t u : Desktop X)
      → length new_salt ≡ 16
      → lib.combine_vault_key new_local_secret c.phone_share ≡ some key
      → Saved lib laws calls keep s key new_salt c.vault t
      → file u.outside ≡ file t.outside
      → u.session
        ≡ some
            (record c { local_secret = new_local_secret; vault_key = key; vault_salt = new_salt })
      → Rotated new_local_secret new_salt c u
  rotated new_local_secret new_salt key c s t u l k z e f = record {
    holds = record {
      now = record c { local_secret = new_local_secret; vault_key = key; vault_salt = new_salt };
      open_now = f;
      same_vault = refl;
      salt_16 = l;
      opens = subst (Opens lib key new_salt c.vault) (sym e) z.opens;
    };
    new_local = refl;
    same_share = refl;
    new_salted = refl;
    new_key = k;
  }

  -- Changing the master password of a session whose vault can be saved: if it returns, the session
  -- has the new secret, the new salt and the key that is made of the new secret and the phone's
  -- share, and the file holds the session's vault under that key; if it fails, the session is
  -- locked, or the session and the file are as they were.
  pub rotate_vault-Ensures :
      (new_local_secret new_salt plaintext : Text) (c : SessionState) (s : Desktop X)
      → s.session ≡ some c
      → IsStorable lib c.vault plaintext
      → length new_salt ≡ 16
      → Ensures
          (λ _. Rotated new_local_secret new_salt c)
          (λ t. Locked t ⊎ ((t.session ≡ s.session) × (file t.outside ≡ file s.outside)))
          (rotate_vault lib calls new_local_secret new_salt s)
  unfolding rotate_vault session_of put_session
  rotate_vault-Ensures new_local_secret new_salt plaintext c s e st l =
      let left : (t : Desktop X)
          → Same lib laws calls keep s t
          → Locked t ⊎ ((t.session ≡ s.session) × (file t.outside ≡ file s.outside)) =
        λ t h. inr (h.same_session, h.same_file) in
      continue-Ensures _ (found_session c s e)
        (λ a t0 g.
          rw (g.0, st.printed)
            (continue-Ensures _
              (lift-Ensures (Same lib laws calls keep s)
                (ok_or (lib.combine_vault_key new_local_secret c.phone_share) bad_keys) t0 g.1)
              (λ key t h.
                continue-Ensures _
                  (encrypted-Ensures lib laws calls keep key new_salt plaintext s t l h.1)
                  (λ b t1 w.
                    continue-Ensures _
                      (write_or_lock-Ensures key new_salt plaintext c.vault s t1 b st w.1 w.0)
                      (λ _ t2 z.
                        forgiven (on-Ensures calls.cleanup _ (keep.cleanup_law t2.outside))
                          (λ u q.
                            rotated new_local_secret new_salt key c s t2 u l (some_of _ _ key h.0) z
                              q.0 q.1)
                          (λ u q.
                            rotated new_local_secret new_salt key c s t2 u l (some_of _ _ key h.0) z
                              q.0 q.1))
                      (λ t2 z. inl z))
                  (λ t1 w. left t1 w))
              (λ t h. left t h)))
        (λ t h. left t h)
