-- ===== src/Cli/Pairing/Clearing.antt =====
-- What the loops that clear files do.
use ferusa.Base.{
  any, ◌≡◌, refl, ◌∙◌, Bool, false, none, List, [], ◌∷◌, if◌then◌else◌, arith, ◌⊎◌, inl, inr,
}
use ferusa.Base.Action.{Ensures, returned, continue-Ensures, Ensures-mono}
use ferusa.Cli.Pairing.Files.{File, Disk, clear_files}
use ferusa.Cli.Pairing.Sight.{file_eq, Contents, put, DiskLaws, At, clear_file-At}

abbrev pub listed : List File → File → Bool
listed fs j = any (λ f. file_eq f j) fs

module _ {S : Type 0} {disk : Disk S} (laws : DiskLaws disk) where
  open laws use {peek}

  -- Of the files that are not in the list none has changed; one in the list is as it was or gone.
  pub record Spared (fs : List File) (v : Contents) (t : S) : Type 0 where
    pub seen : Contents
    pub seen_at : At laws seen t
    pub spared : (j : File) → listed fs j ≡ false → seen j ≡ v j
    pub partly : (j : File) → (seen j ≡ v j) ⊎ (seen j ≡ none)

  put-partly : (f j : File) (v : Contents) → (put f none v j ≡ v j) ⊎ (put f none v j ≡ none)
  put-partly f j v = ground arith

  cleared :
      (f j : File) (fs : List File) (v : Contents)
      → (if listed fs j then none else put f none v j) ≡ (if listed (f ∷ fs) j then none else v j)
  cleared f j fs v = ground arith

  Spared-more :
      (f : File) (fs : List File) (v : Contents) (t : S)
      → Spared fs (put f none v) t
      → Spared (f ∷ fs) v t
  Spared-more f fs v t x = record {
    seen = x.seen;
    seen_at = x.seen_at;
    spared = λ j h. x.spared j (ground arith) ∙ ground arith;
    partly = λ j. elim (x.partly j) [
      | inr e ↦ inr e
      | inl e ↦ elim (put-partly f j v) [ inl d ↦ inl (e ∙ d) | inr d ↦ inr (e ∙ d) ]
    ];
  }

  pub clear_files-At :
      (fs : List File) (v : Contents) (s : S)
      → At laws v s
      → Ensures
          (λ _. At laws (λ j. if listed fs j then none else v j))
          (Spared fs v)
          (clear_files disk fs s)
  unfolding clear_files
  clear_files-At [] v s m = returned m
  clear_files-At (f ∷ fs) v s m =
      continue-Ensures _ (clear_file-At laws f v s m)
        (λ _ t a.
          Ensures-mono (clear_files-At fs (put f none v) t a)
            (λ _ t b. λ j k. b j k ∙ cleared f j fs v) (λ t x. Spared-more f fs v t x))
        (λ t a. elim a [
          | inl x ↦ record { seen = v; seen_at = x; spared = λ j h. refl; partly = λ j. inl refl }
          | inr x ↦ record {
            seen = put f none v;
            seen_at = x;
            spared = λ j h. ground arith;
            partly = λ j. put-partly f j v;
          }
        ])
