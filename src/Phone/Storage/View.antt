-- ===== src/Phone/Storage/View.antt =====
-- What the pairing code can see of the keystore: five slots that hold an id or nothing, and the
-- generations that are stored and pass the metadata check.
use mathlib.Core.Bool.{false≢true}
use ferusa.Base.{
  ℕ, ◌≡◌, refl, sym, ◌∙◌, ap, Bool, true, false, ◌&&◌, Option, none, some, Text, text_eq, ◌==◌,
  ==_iff, if◌then◌else◌, is_ok, is_some, Bool-cases, inl, inr, text_eq-append, text_eq_sound,
  text_eq_refl,
}
use ferusa.Phone.Storage.Types.{
  PairingGeneration, Crates, active_pairing_generation, staging_pairing_generation,
  pending_pairing_generation, committed_pairing_generation, retiring_pairing_generation,
  pairing_generation_key, pairing_generation_prefix,
}
use ferusa.Phone.Storage.Generation.{validate_generation_metadata}
use ferusa.Phone.Storage.Laws.{CrateLaws, Same, Written}

pub data Slot : Type 0 where
  active staging pending committed retiring : Slot

abbrev pub slot_key : Slot → Text
slot_key active = active_pairing_generation
slot_key staging = staging_pairing_generation
slot_key pending = pending_pairing_generation
slot_key committed = committed_pairing_generation
slot_key retiring = retiring_pairing_generation

abbrev pub slot_eq : Slot → Slot → Bool
slot_eq active active = true
slot_eq staging staging = true
slot_eq pending pending = true
slot_eq committed committed = true
slot_eq retiring retiring = true
slot_eq _ _ = false

pub record View : Type 0 where
  pub at : Slot → Option ℕ
  pub generation : ℕ → Option PairingGeneration

abbrev pub held : View → ℕ → Bool
held v u = is_some (v.generation u)

abbrev pub put : Slot → Option ℕ → View → View
put k o v = record v { at = λ j. if slot_eq k j then o else v.at j }

abbrev pub mark : ℕ → Option PairingGeneration → View → View
mark u o v = record v { generation = λ j. if u == j then o else v.generation j }

abbrev pub id_of : Crates → Option Text → Option ℕ
id_of c none = none
id_of c (some raw) = c.parse_id raw

-- A generation that was read under the key of `u`, if it is that of `u` and valid.
abbrev pub good : Crates → ℕ → Option PairingGeneration → Option PairingGeneration
good c u none = none
good c u (some g) =
    if g.pairing_id == u && is_ok (validate_generation_metadata c g) then some g else none

abbrev pub held_in : Crates → ℕ → Option Text → Option PairingGeneration
held_in c u none = none
held_in c u (some json) = good c u (c.from_json json)

-- A store that reads as `p` is seen as `v`.
pub record Sees (c : Crates) (p : Text → Option Text) (v : View) : Type 0 where
  pub slots : (k : Slot) → id_of c (p (slot_key k)) ≡ v.at k
  pub stored : (u : ℕ) → held_in c u (p (pairing_generation_key c u)) ≡ v.generation u

module _ {c : Crates} {p q : Text → Option Text} {v : View} where
  pub Sees-Same : Same p q → Sees c p v → Sees c q v
  Sees-Same h s = record {
    slots = λ k. ap (id_of c) (h (slot_key k)) ∙ s.slots k;
    stored = λ u. ap (held_in c u) (h (pairing_generation_key c u)) ∙ s.stored u;
  }

-- No two keys of the store are spelled alike.
slot_key-slot_key : (k j : Slot) → text_eq (slot_key k) (slot_key j) ≡ slot_eq k j
slot_key-slot_key active active = refl
slot_key-slot_key active staging = refl
slot_key-slot_key active pending = refl
slot_key-slot_key active committed = refl
slot_key-slot_key active retiring = refl
slot_key-slot_key staging active = refl
slot_key-slot_key staging staging = refl
slot_key-slot_key staging pending = refl
slot_key-slot_key staging committed = refl
slot_key-slot_key staging retiring = refl
slot_key-slot_key pending active = refl
slot_key-slot_key pending staging = refl
slot_key-slot_key pending pending = refl
slot_key-slot_key pending committed = refl
slot_key-slot_key pending retiring = refl
slot_key-slot_key committed active = refl
slot_key-slot_key committed staging = refl
slot_key-slot_key committed pending = refl
slot_key-slot_key committed committed = refl
slot_key-slot_key committed retiring = refl
slot_key-slot_key retiring active = refl
slot_key-slot_key retiring staging = refl
slot_key-slot_key retiring pending = refl
slot_key-slot_key retiring committed = refl
slot_key-slot_key retiring retiring = refl

slot_key-generation_key :
    (c : Crates) (k : Slot) (u : ℕ) → text_eq (slot_key k) (pairing_generation_key c u) ≡ false
unfolding pairing_generation_key
slot_key-generation_key c active u = refl
slot_key-generation_key c staging u = refl
slot_key-generation_key c pending u = refl
slot_key-generation_key c committed u = refl
slot_key-generation_key c retiring u = refl

generation_key-slot_key :
    (c : Crates) (u : ℕ) (k : Slot) → text_eq (pairing_generation_key c u) (slot_key k) ≡ false
unfolding pairing_generation_key
generation_key-slot_key c u active = refl
generation_key-slot_key c u staging = refl
generation_key-slot_key c u pending = refl
generation_key-slot_key c u committed = refl
generation_key-slot_key c u retiring = refl

module _ {c : Crates} (laws : CrateLaws c) where
  show_id-injective : (u w : ℕ) → c.show_id u ≡ c.show_id w → u ≡ w
  show_id-injective u w e = cc (laws.parse-show u, laws.parse-show w, ap c.parse_id e)

  generation_key-generation_key :
      (u w : ℕ) → text_eq (pairing_generation_key c u) (pairing_generation_key c w) ≡ (u == w)
  unfolding pairing_generation_key
  generation_key-generation_key u w =
      text_eq-append pairing_generation_prefix (c.show_id u) (c.show_id w) ∙ same_text
    where
      apart : (u == w) ≡ false → (b : Bool) → text_eq (c.show_id u) (c.show_id w) ≡ b → b ≡ false
      apart h true e =
          absurd (false≢true (sym h ∙ (==_iff u w).1 (show_id-injective u w (text_eq_sound _ _ e))))
      apart h false e = refl

      same_text : text_eq (c.show_id u) (c.show_id w) ≡ (u == w)
      same_text = elim (Bool-cases (u == w)) [
        | inl e ↦ rw (e, (==_iff u w).0 e) (text_eq_refl (c.show_id w))
        | inr e ↦ rw e (apart e (text_eq (c.show_id u) (c.show_id w)) refl)
      ]

id_of-if :
    (c : Crates) (b : Bool) (o o' : Option Text)
    → id_of c (if b then o else o') ≡ (if b then id_of c o else id_of c o')
id_of-if c true o o' = refl
id_of-if c false o o' = refl

held_in-if :
    (c : Crates) (u w : ℕ) (b : Bool) (o o' : Option Text)
    → (b ≡ true → u ≡ w)
    → held_in c w (if b then o else o') ≡ (if b then held_in c u o else held_in c w o')
held_in-if c u w true o o' h = rw (h refl)
held_in-if c u w false o o' h = refl

module _ {c : Crates} {p q : Text → Option Text} {v : View} where
  -- A slot is written.
  pub Sees-put :
      (laws : CrateLaws c) (k : Slot) (o : Option Text) {i : Option ℕ}
      → id_of c o ≡ i
      → Written (slot_key k) o p q
      → Sees c p v
      → Sees c q (put k i v)
  Sees-put laws k o {i} e h s = record {
    slots = λ j. rw (
      h (slot_key j),
      slot_key-slot_key k j,
      id_of-if c (slot_eq k j) o (p (slot_key j)),
      e,
      s.slots j,
    );
    stored = λ u. rw (h (pairing_generation_key c u), slot_key-generation_key c k u) (s.stored u);
  }

  -- A generation is written or deleted.
  pub Sees-mark :
      (laws : CrateLaws c) (u : ℕ) (o : Option Text) {b : Option PairingGeneration}
      → held_in c u o ≡ b
      → Written (pairing_generation_key c u) o p q
      → Sees c p v
      → Sees c q (mark u b v)
  Sees-mark laws u o {b} e h s = record {
    slots = λ j. rw (h (slot_key j), generation_key-slot_key c u j) (s.slots j);
    stored = λ w. rw (
      h (pairing_generation_key c w),
      generation_key-generation_key laws u w,
      held_in-if c u w (u == w) o (p (pairing_generation_key c w)) (==_iff u w).0,
      e,
      s.stored w,
    );
  }

  -- The attempt counters lie apart from slots and generations.
  pub Sees-pin :
      (key : Text) (o : Option Text)
      → ((k : Slot) → text_eq key (slot_key k) ≡ false)
      → ((u : ℕ) → text_eq key (pairing_generation_key c u) ≡ false)
      → Written key o p q
      → Sees c p v
      → Sees c q v
  Sees-pin key o f g h s = record {
    slots = λ j. rw (h (slot_key j), f j) (s.slots j);
    stored = λ w. rw (h (pairing_generation_key c w), g w) (s.stored w);
  }
