-- ===== src/Phone/Storage/Laws.antt =====
-- What storage.rs relies on: the keystore behind `PairingStore`, and the crates.
use ferusa.Base.{ℕ, ◌≡◌, Option, none, some, Text, text_eq, if◌then◌else◌, ◌⊎◌}
use ferusa.Base.Action.{Ensures}
use ferusa.Phone.Storage.Types.{PairingGeneration, Crates, PairingStore}

-- Two readings of a store agree.
abbrev pub Same : (Text → Option Text) → (Text → Option Text) → Type 0
Same p q = (j : Text) → q j ≡ p j

-- The second reading is the first with `key` changed to `o`.
abbrev pub Written : Text → Option Text → (Text → Option Text) → (Text → Option Text) → Type 0
Written key o p q = (j : Text) → q j ≡ (if text_eq key j then o else p j)

-- A call that succeeds has its effect, and a write that fails has it or has none: the phone may
-- be stopped at any point. Approval keys lie beside the values.
pub record StoreLaws {S : Type 0} (store : PairingStore S) : Type 0 where
  pub peek : S → Text → Option Text
  pub get_law :
      (key : Text) (s : S)
      → Ensures
          (λ o t. (o ≡ peek s key) × Same (peek s) (peek t))
          (λ t. Same (peek s) (peek t))
          (store.get key s)
  pub save_law :
      (key value : Text) (s : S)
      → Ensures
          (λ _ t. Written key (some value) (peek s) (peek t))
          (λ t. Same (peek s) (peek t) ⊎ Written key (some value) (peek s) (peek t))
          (store.save key value s)
  pub delete_law :
      (key : Text) (s : S)
      → Ensures
          (λ _ t. Written key none (peek s) (peek t))
          (λ t. Same (peek s) (peek t) ⊎ Written key none (peek s) (peek t))
          (store.delete key s)
  pub sign_law :
      (alias payload : Text) (s : S)
      → Ensures
          (λ _ t. Same (peek s) (peek t))
          (λ t. Same (peek s) (peek t))
          (store.sign alias payload s)
  pub delete_approval_key_law :
      (alias : Text) (s : S)
      → Ensures
          (λ _ t. Same (peek s) (peek t))
          (λ t. Same (peek s) (peek t))
          (store.delete_approval_key alias s)

-- An id is read back from its text, and a generation from its JSON.
pub record CrateLaws (c : Crates) : Type 0 where
  pub parse-show : (u : ℕ) → c.parse_id (c.show_id u) ≡ some u
  pub from_json-to_json :
      (g : PairingGeneration) (t : Text) → c.to_json g ≡ some t → c.from_json t ≡ some g
