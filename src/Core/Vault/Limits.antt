-- ===== src/Core/Vault/Limits.antt =====
-- Which vaults are accepted.
use ferusa.Base.{
  ℕ, suc, ◌≤◌, ◌≡◌, refl, Bool, true, false, Option, none, some, List, [], ◌∷◌, Text, length, ok,
  err, and_then, arith, ◌↔◌,
}
use ferusa.Core.Vault.{
  vault_version, max_vault_entries, max_vault_field_bytes, max_vault_notes_bytes,
  max_vault_tags_per_entry, max_vault_tag_bytes, Entry, Vault, VaultError, Check, validate_field,
  validate_optional, validate_tags, validate_entry, validate_entries, validate, bail_on,
}

abbrev pub Optional : ℕ → Option Text → Type 0
Optional n none = Unit {0}
Optional n (some t) = length t ≤ n

abbrev pub AllShort : ℕ → List Text → Type 0
AllShort n [] = Unit {0}
AllShort n (t ∷ rest) = (length t ≤ n) × AllShort n rest

pub record IsEntry (e : Entry) : Type 0 where
  pub title_short : length e.title ≤ max_vault_field_bytes
  pub username_short : Optional max_vault_field_bytes e.username
  pub password_short : length e.password ≤ max_vault_field_bytes
  pub url_short : Optional max_vault_field_bytes e.url
  pub notes_short : Optional max_vault_notes_bytes e.notes
  pub tags_few : length e.tags ≤ max_vault_tags_per_entry
  pub tags_short : AllShort max_vault_tag_bytes e.tags

abbrev pub AllEntries : List Entry → Type 0
AllEntries [] = Unit {0}
AllEntries (e ∷ rest) = IsEntry e × AllEntries rest

and_then_ok : (c d : Check) → (and_then c (λ _. d) ≡ ok tt) ↔ ((c ≡ ok tt) × (d ≡ ok tt))
and_then_ok (ok tt) d = (λ h. (refl, h), λ h. h.1)
and_then_ok (err e) d = (λ h. absurd (no e h), λ h. absurd (no e h.0))
  where
    no : (e : VaultError) → ◌≡◌ {A = Check} (err e) (ok tt) → ⊥
    no e h = ground arith

field_iff : (i : ℕ) (f t : Text) (n : ℕ) → (validate_field i f t n ≡ ok tt) ↔ (length t ≤ n)
unfolding validate_field
field_iff i f t n = (λ h. ground arith, λ h. ground arith)

validate_optional_iff :
    (i : ℕ) (f : Text) (o : Option Text) (n : ℕ)
    → (validate_optional i f o n ≡ ok tt) ↔ Optional n o
validate_optional_iff i f none n = (λ h. tt, λ h. refl)
validate_optional_iff i f (some t) n = field_iff i f t n

bail_iff : (e : VaultError) (b : Bool) → (bail_on b e ≡ ok tt) ↔ (b ≡ false)
bail_iff e true = (λ h. ground arith, λ h. ground arith)
bail_iff e false = (λ h. refl, λ h. refl)

tags_iff : (i : ℕ) (l : List Text) → (validate_tags i l ≡ ok tt) ↔ AllShort max_vault_tag_bytes l
unfolding validate_tags
tags_iff i [] = (λ h. tt, λ h. refl)
tags_iff i (t ∷ rest) = (
  λ h. let x = (and_then_ok _ _).0 h in ((field_iff i _ t _).0 x.0, (tags_iff i rest).0 x.1),
  λ h. (and_then_ok _ _).1 ((field_iff i _ t _).1 h.0, (tags_iff i rest).1 h.1),
)

entry_iff : (i : ℕ) (e : Entry) → (validate_entry i e ≡ ok tt) ↔ IsEntry e
unfolding validate_entry
entry_iff i e = (
  λ h.
      let a = (and_then_ok _ _).0 h in
      let b = (and_then_ok _ _).0 a.1 in
      let c = (and_then_ok _ _).0 b.1 in
      let d = (and_then_ok _ _).0 c.1 in
      let f = (and_then_ok _ _).0 d.1 in
      let g = (and_then_ok _ _).0 f.1 in
      let few = (bail_iff _ _).0 g.0 in
      record {
        title_short = (field_iff i _ _ _).0 a.0;
        username_short = (validate_optional_iff i _ _ _).0 b.0;
        password_short = (field_iff i _ _ _).0 c.0;
        url_short = (validate_optional_iff i _ _ _).0 d.0;
        notes_short = (validate_optional_iff i _ _ _).0 f.0;
        tags_few = ground arith;
        tags_short = (tags_iff i _).0 g.1;
      },
  λ h.
      let few = h.tags_few in
      (and_then_ok _ _).1 (
        (field_iff i _ _ _).1 h.title_short,
        (and_then_ok _ _).1 (
          (validate_optional_iff i _ _ _).1 h.username_short,
          (and_then_ok _ _).1 (
            (field_iff i _ _ _).1 h.password_short,
            (and_then_ok _ _).1 (
              (validate_optional_iff i _ _ _).1 h.url_short,
              (and_then_ok _ _).1 (
                (validate_optional_iff i _ _ _).1 h.notes_short,
                (and_then_ok _ _).1
                    ((bail_iff _ _).1 (ground arith), (tags_iff i _).1 h.tags_short),
              ),
            ),
          ),
        ),
      ),
)

entries_iff : (i : ℕ) (l : List Entry) → (validate_entries i l ≡ ok tt) ↔ AllEntries l
unfolding validate_entries
entries_iff i [] = (λ h. tt, λ h. refl)
entries_iff i (e ∷ rest) = (
  λ h. let x = (and_then_ok _ _).0 h in ((entry_iff i e).0 x.0, (entries_iff (suc i) rest).0 x.1),
  λ h. (and_then_ok _ _).1 ((entry_iff i e).1 h.0, (entries_iff (suc i) rest).1 h.1),
)

-- A vault is accepted exactly if it has the one known version, at most 10000 entries, and in each
-- of them every field, the tags and their number keep to their limits.
pub validate_iff :
    (v : Vault)
    → (validate v ≡ ok tt) ↔ (
        (v.version ≡ vault_version) × (length v.entries ≤ max_vault_entries) × AllEntries v.entries)
unfolding validate
validate_iff v = (
  λ h. (ground arith, ground arith, (entries_iff 0 v.entries).0 (ground arith)),
  λ (a, b, c). ground (arith, (entries_iff 0 v.entries).1 c),
)
