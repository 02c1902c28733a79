-- ===== src/Cli/Passwords/Generating.antt =====
-- The generator returns a password.
use ferusa.Base.{
  ℕ, zero, suc, ◌-◌, ◌<◌, ◌≤◌, ◌≡◌, refl, ap, Bool, true, false, ◌∷◌, ◌++◌, Text, length,
  length-append, one, get_elem?, count, contains, get_elem?-lt, contains-get_elem?, is_utf8-ascii,
  from_utf8, ltb, ok_or, err, arith, subst,
}
use ferusa.Base.Action.{lift, bail_if, pure, ◌>>=◌}
use ferusa.Base.Returning.{Returns, yields, continue-Returns}
use ferusa.Cli.Passwords.{
  PasswordGenConfig, GenerateError, Draw, too_short, panicked, upper, lower, digits, symbols,
  charset, required_classes, pick, pick_if, guaranteed, fill, generate,
}
use ferusa.Cli.Passwords.Shuffling.{random_range-Returns, shuffle-Returns}
use ferusa.Cli.Passwords.Policy.{
  IsPolicy, IsSure, sure-IsPolicy, Policy-Same, Policy-before, IsPolicy-ascii,
}

module _ {S : Type 0} (random_below : ℕ → S → ℕ × S)
    (below : (n : ℕ) (s : S) → 0 < n → (random_below n s).0 < n) where
  found-Returns :
      (class : Text) (i : ℕ) (s : S)
      → i < length class
      → Returns (λ c _. contains class c ≡ true) (lift (ok_or (get_elem? class i) panicked) s)
  found-Returns class i s h =
      let (x, e) = get_elem?-lt class i h in rw e (yields (contains-get_elem? class i x e))

  pick-Returns :
      (class : Text) (s : S)
      → 0 < length class
      → Returns (λ c _. contains class c ≡ true) (pick random_below class s)
  unfolding pick
  pick-Returns class s h =
      continue-Returns _ (random_range-Returns random_below below (length class) s h)
        (λ i t k. found-Returns class i t k)

  pick_if-Returns :
      (b : Bool) (class : Text) (s : S)
      → 0 < length class
      → Returns (λ l _. IsSure b class l) (pick_if random_below b class s)
  unfolding pick_if
  pick_if-Returns true class s h = continue-Returns _ (pick-Returns class s h) (λ c t k.
      yields (record {
        long = refl;
        only = omega (arith, ap one k);
        sure = λ _. omega (arith, ap one k);
      }))
  pick_if-Returns false class s h =
      yields (record { long = refl; only = refl; sure = λ k. ground arith })

  guaranteed-Returns :
      (cfg : PasswordGenConfig) (s : S)
      → Returns (λ l _. IsPolicy cfg (required_classes cfg) l) (guaranteed random_below cfg s)
  unfolding guaranteed
  guaranteed-Returns cfg s = continue-Returns _ (pick-Returns lower s (omega arith)) (λ l t hl.
      continue-Returns _ (pick_if-Returns cfg.uppercase upper t (omega arith)) (λ u t1 hu.
        continue-Returns _ (pick_if-Returns cfg.digits digits t1 (omega arith)) (λ d t2 hd.
          continue-Returns _ (pick_if-Returns cfg.symbols symbols t2 (omega arith))
            (λ y t3 hs. yields (sure-IsPolicy cfg l u d y hl hu hd hs)))))

  fill-Returns :
      (class : Text) (n : ℕ) (s : S)
      → 0 < length class
      → Returns
          (λ l _. (length l ≡ n) × (count (contains class) l ≡ length l))
          (fill random_below class n s)
  unfolding fill
  fill-Returns class zero s h = yields (refl, refl)
  fill-Returns class (suc n) s h =
      continue-Returns (λ c. fill random_below class n >>= λ rest. pure (c ∷ rest))
        (pick-Returns class s h)
        (λ c t k.
          continue-Returns (λ rest. pure (c ∷ rest)) (fill-Returns class n t h)
            (λ l u x. yields (omega (arith, x.0), omega (arith, x.1, ap one k))))

  passes-Returns :
      (b : Bool) (e : GenerateError) (s : S) → b ≡ false → Returns (λ _ _. Unit {0}) (bail_if b e s)
  passes-Returns b e s h = rw h (yields tt)

  refused :
      {A : Type 0} (f : Unit {0} → Draw S A) (b : Bool) (e : GenerateError) (s : S)
      → b ≡ true
      → (bail_if b e >>= f) s ≡ (err e, s)
  refused f b e s h = rw h refl

  printed-Returns :
      (cfg : PasswordGenConfig) (n : ℕ) (pw : Text) (s : S)
      → IsPolicy cfg n pw
      → Returns (λ q _. IsPolicy cfg n q) (lift (ok_or (from_utf8 pw) panicked) s)
  printed-Returns cfg n pw s p = rw (is_utf8-ascii pw (IsPolicy-ascii p)) (yields p)

  filled-IsPolicy :
      (cfg : PasswordGenConfig) (sure rest : Text)
      → required_classes cfg ≤ cfg.length
      → IsPolicy cfg (required_classes cfg) sure
      → length rest ≡ cfg.length - length sure
      → count (contains (charset cfg)) rest ≡ length rest
      → IsPolicy cfg cfg.length (rest ++ sure)
  filled-IsPolicy cfg sure rest h p k l =
      subst (λ n. IsPolicy cfg n (rest ++ sure)) (omega (arith, p.long))
        (Policy-before rest sure l p)

  generate-Returns :
      (cfg : PasswordGenConfig) (s : S)
      → required_classes cfg ≤ cfg.length
      → Returns (λ pw _. IsPolicy cfg cfg.length pw) (generate random_below cfg s)
  unfolding generate
  generate-Returns cfg s h =
      continue-Returns _ (passes-Returns (ltb cfg.length (required_classes cfg)) _ s (ground arith))
        (λ _ s1 _. continue-Returns _ (guaranteed-Returns cfg s1) (λ sure s2 p.
          continue-Returns _
            (passes-Returns (ltb cfg.length (length sure)) _ s2 (ground (arith, p.long)))
            (λ _ s3 _.
              continue-Returns _
                (fill-Returns (charset cfg) (cfg.length - length sure) s3 (omega arith))
                (λ rest s4 f.
                  let q = filled-IsPolicy cfg sure rest h p f.0 f.1 in
                  continue-Returns _
                    (shuffle-Returns random_below below (length (rest ++ sure) - 1) (rest ++ sure)
                      s4 (omega (arith, length-append rest sure, p.long)))
                    (λ pw s5 same. printed-Returns cfg cfg.length pw s5 (Policy-Same same q))))))

  -- A password is generated whenever the length has room for a byte of every enabled class: it has
  -- the length that was asked for, only bytes of the enabled classes, and one of each at least.
  -- Otherwise the generator refuses and draws nothing. It never panics.
  pub generate-total :
      (cfg : PasswordGenConfig) (s : S)
      → (required_classes cfg ≤ cfg.length
          → Returns (λ pw _. IsPolicy cfg cfg.length pw) (generate random_below cfg s))
        × (cfg.length < required_classes cfg
            → generate random_below cfg s ≡ (err (too_short cfg.length (required_classes cfg)), s))
  unfolding generate
  generate-total cfg s = (
    generate-Returns cfg s,
    λ h. refused _ (ltb cfg.length (required_classes cfg)) _ s (ground arith),
  )
