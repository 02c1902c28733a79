-- ===== src/Phone/Admission/Counted.antt =====
-- The limiter counts the permits that are held.
use mathlib.Core.Bool.{false≢true}
use ferusa.Base.{
  ℕ, zero, suc, ◌+◌, ◌-◌, ◌≡◌, ◌≤◌, ◌<◌, refl, sym, ap, Bool, true, false, Option, none, some, List,
  [], ◌∷◌, Text, text_eq, text_eq_sound, text_eq_refl, leb, ltb, ◌==◌, one, count, get_elem?,
  is_some, Bool-cases, Option-cases, inl, inr, arith, subst,
}
use ferusa.Phone.Admission.{
  or_zero, SourceAdmissionLimiter, SourceAdmissionPermit, new, try_acquire, drop_permit,
}

-- The limiter, and the sources of the permits that are held.
pub record Held : Type 0 where
  pub limiter : SourceAdmissionLimiter
  pub permits : List Text

abbrev pub without : List Text → ℕ → List Text
without [] i = []
without (x ∷ xs) zero = xs
without (x ∷ xs) (suc i) = x ∷ without xs i

abbrev pub acquired : Option SourceAdmissionPermit × SourceAdmissionLimiter → List Text → Held
acquired (none, l) permits = record { limiter = l; permits = permits }
acquired (some p, l) permits = record { limiter = l; permits = p.source ∷ permits }

-- A source asks for a permit, or the holder of one drops it.
pub data Step (h : Held) : Held → Type 0 where
  acquires : (source : Text) → Step h (acquired (try_acquire h.limiter source) h.permits)
  drops :
      (i : ℕ) (source : Text)
      → get_elem? h.permits i ≡ some source
      → Step h (record {
        limiter = drop_permit (record { source = source }) h.limiter;
        permits = without h.permits i;
      })

pub data Reach (h : Held) : Held → Type 0 where
  start : Reach h h
  next : {g k : Held} → Reach h g → Step g k → Reach h k

abbrev pub holds : List Text → Text → ℕ
holds permits t = count (text_eq t) permits

count-without :
    (p : Text → Bool) (xs : List Text) (i : ℕ) (x : Text)
    → get_elem? xs i ≡ some x
    → count p xs ≡ one (p x) + count p (without xs i)
count-without p [] i x h = ground arith
count-without p (z ∷ xs) zero x h = grind arith
count-without p (z ∷ xs) (suc i) x h = omega (arith, count-without p xs i x h)

-- What the limiter knows of one source.
pub record IsCounted (max : ℕ) (h : Held) (t : Text) : Type 0 where
  pub same_max : h.limiter.max_per_source ≡ max
  pub tally : or_zero (h.limiter.counts t) ≡ holds h.permits t
  pub bounded : holds h.permits t ≤ max
  pub no_leak : 0 < max → is_some (h.limiter.counts t) ≡ true → 0 < holds h.permits t

-- A step of the source itself, and one of another source.
own-or-other :
    (P : Text → Type 0) (source t : Text) → P source → (text_eq t source ≡ false → P t) → P t
own-or-other P source t own other = elim (Bool-cases (text_eq t source)) [
  | inl e ↦ subst P (sym (text_eq_sound t source e)) own
  | inr e ↦ other e
]

acquired-own :
    (max : ℕ) (h : Held) (source : Text)
    → IsCounted max h source
    → IsCounted max (acquired (try_acquire h.limiter source) h.permits) source
unfolding try_acquire
acquired-own max h source a =
    elim (Bool-cases (leb h.limiter.max_per_source (or_zero (h.limiter.counts source)))) [
      | inl e ↦ rw e (record {
        same_max = a.same_max;
        tally = rw (text_eq_refl source) a.tally;
        bounded = a.bounded;
        no_leak = λ k _. ground (arith, a.tally, a.same_max);
      })
      | inr e ↦ rw e (record {
        same_max = a.same_max;
        tally = rw (text_eq_refl source) (omega (arith, a.tally));
        bounded = rw (text_eq_refl source) (ground (arith, a.tally, a.same_max));
        no_leak = λ k _. rw (text_eq_refl source) (omega arith);
      })
    ]

acquired-other :
    (max : ℕ) (h : Held) (source t : Text)
    → IsCounted max h t
    → text_eq t source ≡ false
    → IsCounted max (acquired (try_acquire h.limiter source) h.permits) t
unfolding try_acquire
acquired-other max h source t b f =
    elim (Bool-cases (leb h.limiter.max_per_source (or_zero (h.limiter.counts source)))) [
      | inl e ↦ rw e (record {
        same_max = b.same_max;
        tally = rw f b.tally;
        bounded = b.bounded;
        no_leak = λ k i. b.no_leak k (rw f at i);
      })
      | inr e ↦ rw e (record {
        same_max = b.same_max;
        tally = rw f (omega (arith, b.tally));
        bounded = rw f (omega (arith, b.bounded));
        no_leak = λ k i. rw f (omega (arith, b.no_leak k (rw f at i)));
      })
    ]

module _ (max : ℕ) (h : Held) (i : ℕ) (source : Text)
    (e : get_elem? h.permits i ≡ some source) where
  abbrev Dropped : Text → Type 0
  Dropped = IsCounted max (record {
    limiter = drop_permit (record { source = source }) h.limiter;
    permits = without h.permits i;
  })

  one_less : holds h.permits source ≡ suc (holds (without h.permits i) source)
  one_less =
      omega
        (arith, count-without (text_eq source) h.permits i source e, ap one (text_eq_refl source))

  as_many :
      (t : Text) → text_eq t source ≡ false → holds h.permits t ≡ holds (without h.permits i) t
  as_many t f = omega (arith, count-without (text_eq t) h.permits i source e, ap one f)

  Dropped-own : IsCounted max h source → Dropped source
  unfolding drop_permit
  Dropped-own a = elim (Option-cases (h.limiter.counts source)) [
    | inl n ↦ absurd (omega (arith, one_less, a.tally, ap or_zero n))
    | inr (n, k) ↦ elim (Bool-cases (n - 1 == 0)) [
      | inl z ↦
          rw (k, z)
            (record {
              same_max = a.same_max;
              tally = rw (text_eq_refl source) (ground (arith, one_less, a.tally, ap or_zero k));
              bounded = omega (arith, one_less, a.bounded);
              no_leak = λ l o. absurd (false≢true (rw (text_eq_refl source) at o));
            })
      | inr z ↦
          rw (k, z)
            (record {
              same_max = a.same_max;
              tally = rw (text_eq_refl source) (omega (arith, one_less, a.tally, ap or_zero k));
              bounded = omega (arith, one_less, a.bounded);
              no_leak = λ l o. ground (arith, one_less, a.tally, ap or_zero k);
            })
    ]
  ]

  Dropped-other : (t : Text) → IsCounted max h t → text_eq t source ≡ false → Dropped t
  unfolding drop_permit
  Dropped-other t b f = elim (Option-cases (h.limiter.counts source)) [
    | inl n ↦ rw n (record {
      same_max = b.same_max;
      tally = omega (arith, b.tally, as_many t f);
      bounded = omega (arith, b.bounded, as_many t f);
      no_leak = λ l o. omega (arith, b.no_leak l o, as_many t f);
    })
    | inr (n, k) ↦ elim (Bool-cases (n - 1 == 0)) [
      | inl z ↦
          rw (k, z)
            (record {
              same_max = b.same_max;
              tally = rw f (omega (arith, b.tally, as_many t f));
              bounded = omega (arith, b.bounded, as_many t f);
              no_leak = λ l o. omega (arith, b.no_leak l (rw f at o), as_many t f);
            })
      | inr z ↦
          rw (k, z)
            (record {
              same_max = b.same_max;
              tally = rw f (omega (arith, b.tally, as_many t f));
              bounded = omega (arith, b.bounded, as_many t f);
              no_leak = λ l o. omega (arith, b.no_leak l (rw f at o), as_many t f);
            })
    ]
  ]

Step-IsCounted :
    (max : ℕ) {h k : Held}
    → Step h k
    → ((t : Text) → IsCounted max h t)
    → (t : Text) → IsCounted max k t
Step-IsCounted max {h} (acquires source) c t =
    own-or-other (IsCounted max (acquired (try_acquire h.limiter source) h.permits)) source t
      (acquired-own max h source (c source)) (acquired-other max h source t (c t))
Step-IsCounted max {h} (drops i source e) c t =
    own-or-other (Dropped max h i source e) source t (Dropped-own max h i source e (c source))
      (Dropped-other max h i source e t (c t))

abbrev pub started : ℕ → Held
started max = record { limiter = new max; permits = [] }

Reach-IsCounted : (max : ℕ) {h : Held} → Reach (started max) h → (t : Text) → IsCounted max h t
unfolding new
Reach-IsCounted max start t = record {
  same_max = refl;
  tally = refl;
  bounded = omega arith;
  no_leak = λ k o. absurd (false≢true o);
}
Reach-IsCounted max (next r s) t = Step-IsCounted max s (Reach-IsCounted max r) t

acquire_iff :
    (max : ℕ) (h : Held) (t : Text)
    → IsCounted max h t
    → is_some (try_acquire h.limiter t).0 ≡ ltb (holds h.permits t) max
unfolding try_acquire
acquire_iff max h t c = ground (arith, c.tally, c.same_max)

-- A limiter that is started with a bound, after any series of requests for permits and drops of
-- them: no source holds more permits than the bound, and a source gets another one exactly if it
-- holds fewer. With a bound above 0, the map has entries of the sources that hold permits only.
pub Reach-Admits :
    (max : ℕ) {h : Held} (t : Text)
    → Reach (started max) h
    → (holds h.permits t ≤ max)
      × (is_some (try_acquire h.limiter t).0 ≡ ltb (holds h.permits t) max)
      × (0 < max → is_some (h.limiter.counts t) ≡ true → 0 < holds h.permits t)
Reach-Admits max t r =
    let c = Reach-IsCounted max r t in (c.bounded, acquire_iff max _ t c, c.no_leak)
