-- ===== src/Phone/Pin/Rules.antt =====
-- `validate_pin` against a description of the PINs that it means to refuse.
use ferusa.Base.{
  ℕ, zero, suc, ◌+◌, ◌-◌, ◌≡◌, refl, ap, sym, ◌∙◌, ◌↔◌, ◌⊎◌, inl, inr, Bool, true, ◌||◌, List, [],
  ◌∷◌, Text, text_eq, text_eq_sound, text_eq_refl, ◌==◌, all, any, length, ok, arith, Bool-cases,
}
use ferusa.Phone.Pin.{
  is_ascii_digit, windows_all, byte_succ, known_common, is_trivial_pin, validate_pin,
}

-- `n` digits that are `d` each, that go up from `d`, or that go down from `d`.
abbrev pub repeated : ℕ → ℕ → Text
repeated d zero = []
repeated d (suc n) = d ∷ repeated d n

abbrev pub ascending : ℕ → ℕ → Text
ascending d zero = []
ascending d (suc n) = d ∷ ascending (d + 1) n

abbrev pub descending : ℕ → ℕ → Text
descending d zero = []
descending d (suc n) = d ∷ descending (d - 1) n

IsCommon : Text → List Text → Type 0
IsCommon pin [] = ⊥
IsCommon pin (t ∷ ts) = (pin ≡ t) ⊎ IsCommon pin ts

pub IsTrivial : Text → Type 0
IsTrivial pin =
    ((d : ℕ) × (pin ≡ repeated d (length pin)))
    ⊎ ((d : ℕ) × (pin ≡ ascending d (length pin)))
    ⊎ ((d : ℕ) × (pin ≡ descending d (length pin)))
    ⊎ IsCommon pin known_common

same_run :
    (a : ℕ) (s : Text)
    → windows_all (λ x y. x == y) (a ∷ s) ≡ true
    → a ∷ s ≡ repeated a (suc (length s))
unfolding windows_all
same_run a [] h = refl
same_run a (b ∷ s) h = ground (arith, same_run b s)

run_same : (d n : ℕ) → windows_all (λ x y. x == y) (repeated d n) ≡ true
unfolding windows_all
run_same d zero = refl
run_same d (suc zero) = refl
run_same d (suc (suc n)) = ground (arith, run_same d (suc n))

-- Digits are far from the largest byte.
up_run :
    (a : ℕ) (s : Text)
    → all is_ascii_digit (a ∷ s) ≡ true
    → windows_all (λ x y. y == byte_succ x) (a ∷ s) ≡ true
    → a ∷ s ≡ ascending a (suc (length s))
unfolding windows_all is_ascii_digit
up_run a [] h k = refl
up_run a (b ∷ s) h k = ground (arith, up_run b s)

down_run :
    (a : ℕ) (s : Text)
    → all is_ascii_digit (a ∷ s) ≡ true
    → windows_all (λ x y. byte_succ y == x) (a ∷ s) ≡ true
    → a ∷ s ≡ descending a (suc (length s))
unfolding windows_all is_ascii_digit
down_run a [] h k = refl
down_run a (b ∷ s) h k = ground (arith, down_run b s)

run_up :
    (d n : ℕ)
    → all is_ascii_digit (ascending d n) ≡ true
    → windows_all (λ x y. y == byte_succ x) (ascending d n) ≡ true
unfolding windows_all is_ascii_digit
run_up d zero h = refl
run_up d (suc zero) h = refl
run_up d (suc (suc n)) h = ground (arith, run_up (d + 1) (suc n))

run_down :
    (d n : ℕ)
    → all is_ascii_digit (descending d n) ≡ true
    → windows_all (λ x y. byte_succ y == x) (descending d n) ≡ true
unfolding windows_all is_ascii_digit
run_down d zero h = refl
run_down d (suc zero) h = refl
run_down d (suc (suc n)) h = ground (arith, run_down (d - 1) (suc n))

common : (pin : Text) (ts : List Text) → any (text_eq pin) ts ≡ true → IsCommon pin ts
unfolding IsCommon
common pin [] h = ground arith
common pin (t ∷ ts) h = elim (Bool-cases (text_eq pin t)) [
  | inl e ↦ inl (text_eq_sound pin t e)
  | inr e ↦ inr (common pin ts (ground arith))
]

of_common : (pin : Text) (ts : List Text) → IsCommon pin ts → any (text_eq pin) ts ≡ true
unfolding IsCommon
of_common pin [] h = absurd h
of_common pin (t ∷ ts) (inl e) = rw (e, text_eq_refl t)
of_common pin (t ∷ ts) (inr h) = ground (arith, of_common pin ts h)

length-repeated : (d n : ℕ) → length (repeated d n) ≡ n
length-repeated d zero = refl
length-repeated d (suc n) = ap suc (length-repeated d n)

is_trivial_pin-IsTrivial :
    (pin : Text) → all is_ascii_digit pin ≡ true → is_trivial_pin pin ≡ true → IsTrivial pin
unfolding is_trivial_pin IsTrivial
is_trivial_pin-IsTrivial [] h k = inl (0, refl)
is_trivial_pin-IsTrivial (a ∷ s) h k = elim (Bool-cases (windows_all (λ x y. x == y) (a ∷ s))) [
  | inl e ↦ inl (a, same_run a s e)
  | inr e ↦ elim (Bool-cases (windows_all (λ x y. y == byte_succ x) (a ∷ s))) [
    | inl f ↦ inr (inl (a, up_run a s h f))
    | inr f ↦ elim (Bool-cases (windows_all (λ x y. byte_succ y == x) (a ∷ s))) [
      | inl g ↦ inr (inr (inl (a, down_run a s h g)))
      | inr g ↦ inr (inr (inr (common (a ∷ s) known_common (ground arith))))
    ]
  ]
]

one_of_four :
    (p : Text → Bool) (q : Text → Bool) (r : Text → Bool) (c : Text → Bool) (s : Text)
    → (p s ≡ true) ⊎ (q s ≡ true) ⊎ (r s ≡ true) ⊎ (c s ≡ true)
    → (p s || q s || r s || c s) ≡ true
one_of_four p q r c s h = ground arith

is_trivial :
    (pin : Text) → all is_ascii_digit pin ≡ true → IsTrivial pin → is_trivial_pin pin ≡ true
unfolding is_trivial_pin IsTrivial
is_trivial pin h t =
    one_of_four (windows_all (λ a b. a == b)) (windows_all (λ a b. b == byte_succ a))
      (windows_all (λ a b. byte_succ b == a)) (λ s. any (text_eq s) known_common) pin
      (elim t [
        | inl (d, e) ↦ inl (ap (windows_all (λ x y. x == y)) e ∙ run_same d (length pin))
        | inr (inl (d, e)) ↦ inr (
            inl (
              ap (windows_all (λ x y. y == byte_succ x)) e
              ∙ run_up d (length pin) (ap (all is_ascii_digit) (sym e) ∙ h)))
        | inr (inr (inl (d, e))) ↦ inr (
            inr (
              inl (
                ap (windows_all (λ x y. byte_succ y == x)) e
                ∙ run_down d (length pin) (ap (all is_ascii_digit) (sym e) ∙ h))))
        | inr (inr (inr k)) ↦ inr (inr (inr (of_common pin known_common k)))
      ])

-- A PIN is accepted exactly if it has the length that is asked for, is made of digits only, and is
-- not one digit repeated, digits that go up by one or down by one, or one of the six listed PINs.
pub validate_pin_iff :
    (pin : Text) (n : ℕ)
    → (validate_pin pin n ≡ ok tt)
      ↔ ((length pin ≡ n) × (all is_ascii_digit pin ≡ true) × (IsTrivial pin → ⊥))
unfolding validate_pin
validate_pin_iff pin n = (
  λ h. (ground arith, ground arith, λ t. ground (arith, is_trivial pin (ground arith) t)),
  λ (l, d, t). elim (Bool-cases (is_trivial_pin pin)) [
    | inl e ↦ absurd (t (is_trivial_pin-IsTrivial pin d e))
    | inr e ↦ ground arith
  ],
)
