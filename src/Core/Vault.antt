-- ===== src/Core/Vault.antt =====
-- `Vault::validate` of types.rs. A string is measured in bytes, as `len` does.
pub mod Limits
use ferusa.Base.{
  ℕ, suc, ◌+◌, Bool, true, false, not, Option, none, some, List, [], ◌∷◌, Text, codes, ltb, ◌==◌,
  if◌then◌else◌, length, Result, ok, err, and_then,
}

abbrev pub vault_version : ℕ
vault_version = 1

abbrev pub max_vault_entries : ℕ
max_vault_entries = 10000

abbrev pub max_vault_field_bytes : ℕ
max_vault_field_bytes = 65536

abbrev pub max_vault_notes_bytes : ℕ
max_vault_notes_bytes = 1048576

abbrev pub max_vault_tags_per_entry : ℕ
max_vault_tags_per_entry = 64

abbrev pub max_vault_tag_bytes : ℕ
max_vault_tag_bytes = 8192

pub record Entry : Type 0 where
  pub id : ℕ
  pub title : Text
  pub username : Option Text
  pub password : Text
  pub url : Option Text
  pub notes : Option Text
  pub tags : List Text
  pub created_at : ℕ
  pub updated_at : ℕ

pub record Vault : Type 0 where
  pub version : ℕ
  pub entries : List Entry

-- The messages, as what they are built from: the index of an entry, the name of a field, a limit.
pub data VaultError : Type 0 where
  unsupported_version : ℕ → VaultError
  too_many_entries : VaultError
  field_too_long : ℕ → Text → ℕ → VaultError
  too_many_tags : ℕ → VaultError

abbrev pub Check : Type 0
Check = Result VaultError (Unit {0})

unfoldable pub validate_field : ℕ → Text → Text → ℕ → Check
validate_field index field value max_bytes =
    if ltb max_bytes (length value) then err (field_too_long index field max_bytes) else ok tt

-- `if let Some(value)`.
abbrev pub validate_optional : ℕ → Text → Option Text → ℕ → Check
validate_optional index field none max_bytes = ok tt
validate_optional index field (some value) max_bytes = validate_field index field value max_bytes

unfoldable pub validate_tags : ℕ → List Text → Check
unfolding validate_field
validate_tags index [] = ok tt
validate_tags index (tag ∷ rest) =
    and_then (validate_field index (codes "tag") tag max_vault_tag_bytes)
      (λ _. validate_tags index rest)

abbrev pub bail_on : Bool → VaultError → Check
bail_on true e = err e
bail_on false e = ok tt

unfoldable pub validate_entry : ℕ → Entry → Check
unfolding validate_field validate_tags
validate_entry index e =
    and_then (validate_field index (codes "title") e.title max_vault_field_bytes) λ _.
      and_then (validate_optional index (codes "username") e.username max_vault_field_bytes) λ _.
        and_then (validate_field index (codes "password") e.password max_vault_field_bytes) λ _.
          and_then (validate_optional index (codes "url") e.url max_vault_field_bytes) λ _.
            and_then (validate_optional index (codes "notes") e.notes max_vault_notes_bytes) λ _.
              and_then
                (bail_on (ltb max_vault_tags_per_entry (length e.tags)) (too_many_tags index))
                λ _. validate_tags index e.tags

unfoldable pub validate_entries : ℕ → List Entry → Check
unfolding validate_entry
validate_entries index [] = ok tt
validate_entries index (e ∷ rest) =
    and_then (validate_entry index e) (λ _. validate_entries (suc index) rest)

unfoldable pub validate : Vault → Check
unfolding validate_entries
validate v =
    if not (v.version == vault_version)
    then err (unsupported_version v.version)
    else if ltb max_vault_entries (length v.entries)
    then err too_many_entries
    else validate_entries 0 v.entries
