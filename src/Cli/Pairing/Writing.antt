-- ===== src/Cli/Pairing/Writing.antt =====
-- What `write_private_file` and `copy_private_file` do to the files that are seen.
use ferusa.Base.{
  ap₂, subst, ◌≡◌, sym, ap, ◌∙◌, false, none, some, Text, Result, if◌then◌else◌, ◌⊎◌, inl, inr,
}
use ferusa.Base.Action.{Ensures-both, Ensures, returned, failed, continue-Ensures, Ensures-mono}
use ferusa.Cli.Pairing.Files.{
  File, temporary, FileError, Disk, fill_and_rename, discard_on_error, write_private_file,
  copy_private_file,
}
use ferusa.Cli.Pairing.Sight.{
  file_eq, Contents, put, moved, Equal, DiskLaws, At, At-Equal, At-Alike, read-At, fsync-At,
}

module _ {S : Type 0} {disk : Disk S} (laws : DiskLaws disk) where
  open laws use {peek}

  -- The temporary file is full.
  abbrev Full : Text → Contents → S → Type 0
  Full contents v t = (peek t temporary ≡ some contents) × At laws v t

  same-Full :
      (contents : Text) (v : Contents) (s t : S)
      → Full contents v s
      → Equal (peek s) (peek t)
      → Full contents v t
  same-Full contents v s t f e = (e temporary ∙ f.0, At-Equal laws v s t f.1 e)

  untouched :
      (v : Contents) (s : S) (j : File)
      → At laws v s
      → file_eq temporary j ≡ false
      → (if file_eq temporary j then none else peek s j) ≡ v j
  untouched v s j m k = ap (λ b. if b then none else peek s j) k ∙ m j k

  renamed-At :
      (f : File) (contents : Text) (v : Contents) (s t : S)
      → Full contents v s
      → Equal (moved temporary f (peek s)) (peek t)
      → At laws (put f (some contents) v) t
  renamed-At f contents v s t m e =
      λ j k. e j ∙ ap₂ (λ x y. if file_eq f j then x else y) m.0 (untouched v s j m.1 k)

  -- Either what was there, or all of what was to be written.
  abbrev pub Written : File → Text → Contents → S → Type 0
  Written f contents v t = At laws v t ⊎ At laws (put f (some contents) v) t

  fill-At :
      (f : File) (contents : Text) (v : Contents) (s : S)
      → At laws v s
      → Ensures
          (λ _. At laws (put f (some contents) v))
          (Written f contents v)
          (fill_and_rename disk f contents s)
  unfolding fill_and_rename
  fill-At f contents v s m =
      continue-Ensures _ (laws.write_all_law contents s)
        (λ _ t w.
          continue-Ensures _ (laws.sync_all_law t)
            (λ _ t' e.
              let full = same-Full contents v t t' (w.0, At-Alike laws v s t m w.1) e in
              continue-Ensures _ (laws.restrict_law t')
                (λ _ t2 e2.
                  let full2 = same-Full contents v t' t2 full e2 in
                  continue-Ensures _ (laws.rename_law temporary f t2)
                    (λ _ t3 e3.
                      Ensures-mono
                        (fsync-At laws f (put f (some contents) v) t3
                          (renamed-At f contents v t2 t3 full2 e3))
                        (λ _ t a. a) (λ t a. inr a))
                    (λ t3 e3. elim e3 [
                      | inl x ↦ inl (At-Equal laws v t2 t3 full2.1 x)
                      | inr x ↦ inr (renamed-At f contents v t2 t3 full2 x)
                    ]))
                (λ t2 e2. inl (At-Equal laws v t' t2 full.1 e2)))
            (λ t' e. inl (At-Equal laws v t t' (At-Alike laws v s t m w.1) e)))
        (λ t w. inl (At-Alike laws v s t m w))

  discard_temporary :
      (v : Contents) (s : S) → At laws v s → At laws v (disk.remove_file temporary s).1
  discard_temporary v s m = Ensures-both (
      Ensures-mono (laws.remove_law temporary s) (λ _ t e. (λ j k. e j ∙ untouched v s j m k))
        (λ t e. elim e [
          | inl x ↦ At-Equal laws v s t m x
          | inr x ↦ (λ j k. x j ∙ untouched v s j m k)
        ]))

  discard-At :
      {Q : Unit {0} → S → Type 0} (v w : Contents) {x : Result FileError (Unit {0}) × S}
      → Ensures Q (λ t. At laws v t ⊎ At laws w t) x
      → Ensures Q (λ t. At laws v t ⊎ At laws w t) (discard_on_error disk x)
  unfolding discard_on_error
  discard-At v w (returned q) = returned q
  discard-At v w (failed (inl a)) = failed (inl (discard_temporary v _ a))
  discard-At v w (failed (inr a)) = failed (inr (discard_temporary w _ a))

  -- A private file is written whole or not at all, and no other file changes.
  pub write-At :
      (f : File) (contents : Text) (v : Contents) (s : S)
      → At laws v s
      → Ensures
          (λ _. At laws (put f (some contents) v))
          (Written f contents v)
          (write_private_file disk f contents s)
  unfolding write_private_file
  write-At f contents v s m =
      continue-Ensures _ (laws.create_new_law s)
        (λ _ t e.
          discard-At v (put f (some contents) v) (fill-At f contents v t (At-Alike laws v s t m e)))
        (λ t e. inl (At-Alike laws v s t m e))

  pub copy-At :
      (from to : File) (v : Contents) (s : S)
      → file_eq temporary from ≡ false
      → At laws v s
      → Ensures
          (λ _. At laws (put to (v from) v))
          (λ t. At laws v t ⊎ At laws (put to (v from) v) t)
          (copy_private_file disk from to s)
  unfolding copy_private_file
  copy-At from to v s h m =
      continue-Ensures _ (read-At laws from v s h m)
        (λ x t r.
          subst
            (λ o.
              Ensures (λ _. At laws (put to o v)) (λ t. At laws v t ⊎ At laws (put to o v) t)
                (write_private_file disk to x t))
            (sym r.0) (write-At to x v t r.1))
        (λ t a. inl a)
