-- ===== src/Cli/Pairing/Sight.antt =====
-- What is seen of the files, apart from the temporary one, and what each call does to it.
use ferusa.Base.{
  ◌==◌, ap₂, Bool-cases, ℕ, ◌≡◌, sym, ap, ◌∙◌, Bool, false, Option, none, some, Text, if◌then◌else◌,
  is_some, ◌⊎◌, inl, inr,
}
use ferusa.Base.Action.{Ensures, returned, continue-Ensures, Ensures-mono}
use ferusa.Cli.Pairing.Files.{
  phone_id, hmac_key, File, vault_enc, pairing_state, pairing_transaction_state, temporary,
  pending_vault_enc, pending_pairing_state, rollback_vault_enc, rollback_pairing_state, Disk,
  clear_file,
}

abbrev pub number : File → ℕ
number vault_enc = 0
number pairing_state = 1
number pairing_transaction_state = 2
number temporary = 3
number pending_vault_enc = 4
number pending_pairing_state = 5
number rollback_vault_enc = 6
number rollback_pairing_state = 7
number phone_id = 8
number hmac_key = 9

abbrev pub file_eq : File → File → Bool
file_eq a b = number a == number b

abbrev pub Contents : Type 0
Contents = File → Option Text

abbrev pub put : File → Option Text → Contents → Contents
put f o v = λ j. if file_eq f j then o else v j

-- `a` is gone and `b` holds what it held.
abbrev pub moved : File → File → Contents → Contents
moved a b v = put b (v a) (put a none v)

-- Two states of the files that agree, all but for the temporary file.
abbrev pub Alike : Contents → Contents → Type 0
Alike p q = (j : File) → file_eq temporary j ≡ false → q j ≡ p j

abbrev pub Equal : Contents → Contents → Type 0
Equal p q = (j : File) → q j ≡ p j

-- A successful call does what its name says; a failed one has done it or nothing, and one on the
-- temporary file alone leaves the other files as they are. Renaming is atomic.
pub record DiskLaws {S : Type 0} (disk : Disk S) : Type 0 where
  pub peek : S → Contents
  pub exists_law : (f : File) (s : S) → disk.exists f s ≡ is_some (peek s f)
  pub read_law :
      (f : File) (s : S)
      → Ensures
          (λ x t. (peek s f ≡ some x) × Equal (peek s) (peek t))
          (λ t. Equal (peek s) (peek t))
          (disk.read f s)
  pub create_new_law :
      (s : S)
      → Ensures (λ _ t. Alike (peek s) (peek t)) (λ t. Alike (peek s) (peek t)) (disk.create_new s)
  pub write_all_law :
      (contents : Text) (s : S)
      → Ensures
          (λ _ t. (peek t temporary ≡ some contents) × Alike (peek s) (peek t))
          (λ t. Alike (peek s) (peek t))
          (disk.write_all contents s)
  pub sync_all_law :
      (s : S)
      → Ensures (λ _ t. Equal (peek s) (peek t)) (λ t. Equal (peek s) (peek t)) (disk.sync_all s)
  pub restrict_law :
      (s : S)
      → Ensures
          (λ _ t. Equal (peek s) (peek t))
          (λ t. Equal (peek s) (peek t))
          (disk.restrict_private_file s)
  pub fsync_law :
      (f : File) (s : S)
      → Ensures
          (λ _ t. Equal (peek s) (peek t))
          (λ t. Equal (peek s) (peek t))
          (disk.fsync_parent f s)
  pub rename_law :
      (a b : File) (s : S)
      → Ensures
          (λ _ t. Equal (moved a b (peek s)) (peek t))
          (λ t. Equal (peek s) (peek t) ⊎ Equal (moved a b (peek s)) (peek t))
          (disk.rename a b s)
  pub remove_law :
      (f : File) (s : S)
      → Ensures
          (λ _ t. Equal (put f none (peek s)) (peek t))
          (λ t. Equal (peek s) (peek t) ⊎ Equal (put f none (peek s)) (peek t))
          (disk.remove_file f s)

module _ {S : Type 0} {disk : Disk S} (laws : DiskLaws disk) where
  open laws use {peek}

  -- The files are seen as `v`.
  abbrev pub At : Contents → S → Type 0
  At v t = Alike v (peek t)

  pub At-Equal : (v : Contents) (s t : S) → At v s → Equal (peek s) (peek t) → At v t
  At-Equal v s t a e = λ j h. e j ∙ a j h

  pub At-Alike : (v : Contents) (s t : S) → At v s → Alike (peek s) (peek t) → At v t
  At-Alike v s t a e = λ j h. e j h ∙ a j h

  pub look-eq :
      (f : File) (v : Contents) (s : S)
      → file_eq temporary f ≡ false
      → At v s
      → disk.exists f s ≡ is_some (v f)
  look-eq f v s h a = laws.exists_law f s ∙ ap is_some (a f h)

  pub read-At :
      (f : File) (v : Contents) (s : S)
      → file_eq temporary f ≡ false
      → At v s
      → Ensures (λ x t. (v f ≡ some x) × At v t) (At v) (disk.read f s)
  read-At f v s h a =
      Ensures-mono (laws.read_law f s) (λ x t e. (sym (a f h) ∙ e.0, At-Equal v s t a e.1))
        (λ t e. At-Equal v s t a e)

  pub fsync-At :
      (f : File) (v : Contents) (s : S)
      → At v s
      → Ensures (λ _. At v) (At v) (disk.fsync_parent f s)
  fsync-At f v s a =
      Ensures-mono (laws.fsync_law f s) (λ _ t e. At-Equal v s t a e) (λ t e. At-Equal v s t a e)

  moved-At :
      (a b : File) (v : Contents) (s t : S)
      → file_eq temporary a ≡ false
      → At v s
      → Equal (moved a b (peek s)) (peek t)
      → At (moved a b v) t
  moved-At a b v s t h m e = λ j k.
      e j ∙ ap₂ (λ x y. if file_eq b j then x else if file_eq a j then none else y) (m a h) (m j k)

  pub rename-At :
      (a b : File) (v : Contents) (s : S)
      → file_eq temporary a ≡ false
      → At v s
      → Ensures (λ _. At (moved a b v)) (λ t. At v t ⊎ At (moved a b v) t) (disk.rename a b s)
  rename-At a b v s h m =
      Ensures-mono (laws.rename_law a b s) (λ _ t e. moved-At a b v s t h m e)
        (λ t e. elim e [
          | inl x ↦ inl (At-Equal v s t m x)
          | inr x ↦ inr (moved-At a b v s t h m x)
        ])

  removed-At :
      (f : File) (v : Contents) (s t : S)
      → At v s
      → Equal (put f none (peek s)) (peek t)
      → At (put f none v) t
  removed-At f v s t m e = λ j k. e j ∙ ap (λ y. if file_eq f j then none else y) (m j k)

  pub clear_file-At :
      (f : File) (v : Contents) (s : S)
      → At v s
      → Ensures (λ _. At (put f none v)) (λ t. At v t ⊎ At (put f none v) t) (clear_file disk f s)
  unfolding clear_file
  clear_file-At f v s m =
      continue-Ensures _ (laws.remove_law f s)
        (λ removed t e. elim (Bool-cases removed) [
          | inl h ↦ rw h (
              Ensures-mono (fsync-At f (put f none v) t (removed-At f v s t m e)) (λ _ t a. a)
                (λ t a. inr a))
          | inr h ↦ rw h (returned (removed-At f v s t m e))
        ])
        (λ t e. elim e [ inl x ↦ inl (At-Equal v s t m x) | inr x ↦ inr (removed-At f v s t m x) ])
