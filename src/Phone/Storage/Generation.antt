-- ===== src/Phone/Storage/Generation.antt =====
-- Reading, writing and checking ids and generations, app/src-tauri/src/storage.rs.
use ferusa.Base.{
  ℕ, Option, none, some, Bool, false, not, ◌||◌, List, [], ◌∷◌, Text, codes, text_eq, ◌==◌,
  if◌then◌else◌, Result, ok, err, ok_or, and_then, any, ◌++◌,
}
use ferusa.Base.Action.{pure, fail, lift, bail_if, attempt, ◌>>=◌, ◌>>◌}
use ferusa.Phone.Storage.Types.{
  PairingGeneration, PinHash, Crates, Failure, bad_id, bad_hash, not_argon2id, no_salt_or_hash,
  bad_version, empty_key, key_mismatch, not_serializable, not_in_store, bad_json, id_mismatch,
  Storage, PairingStore, pairing_generation_version, approval_key_alias, pairing_generation_key,
  canonical_pairing_ready_payload, verify_pairing_ready_signature,
}

-- `option == Some(id)`.
abbrev pub holds : Option ℕ → ℕ → Bool
holds none pairing_id = false
holds (some stored) pairing_id = stored == pairing_id

unfoldable pub push_unique_generation : List ℕ → ℕ → List ℕ
push_unique_generation ids pairing_id =
    if any (λ i. i == pairing_id) ids then ids else ids ++ pairing_id ∷ []

check_pin_hash : PinHash → Result Failure (Unit {0})
check_pin_hash parsed =
    if not (text_eq parsed.algorithm (codes "argon2id"))
    then err not_argon2id
    else if not parsed.has_salt || not parsed.has_hash
    then err no_salt_or_hash
    else ok tt

unfoldable pub validate_pin_hash : Crates → Text → Result Failure (Unit {0})
unfolding check_pin_hash
validate_pin_hash c hash = and_then (ok_or (c.parse_hash hash) bad_hash) check_pin_hash

unfoldable pub validate_generation_metadata : Crates → PairingGeneration → Result Failure (Unit {0})
validate_generation_metadata c generation =
    if not (generation.version == pairing_generation_version)
    then err bad_version
    else if text_eq generation.approval_public_key_der []
    then err empty_key
    else and_then (validate_pin_hash c generation.pin4_hash)
        λ _. validate_pin_hash c generation.pin6_hash

-- What `load_generation` does with the stored text.
unfoldable pub decode_generation : Crates → ℕ → Option Text → Result Failure PairingGeneration
decode_generation c pairing_id found = and_then (ok_or found not_in_store) λ json.
    and_then (ok_or (c.from_json json) bad_json)
      λ generation. if generation.pairing_id == pairing_id then ok generation else err id_mismatch

module _ {S : Type 0} (c : Crates) (store : PairingStore S) where
  unfoldable pub parse_generation_id : Option Text → Storage S (Option ℕ)
  parse_generation_id none = pure none
  parse_generation_id (some raw) = elim (c.parse_id raw) [
    | none ↦ fail bad_id
    | some u ↦ pure (some u)
  ]

  unfoldable pub load_generation_id : Text → Storage S (Option ℕ)
  unfolding parse_generation_id
  load_generation_id key = do raw ← store.get key; parse_generation_id raw

  unfoldable pub save_generation_id : Text → ℕ → Storage S (Unit {0})
  save_generation_id key pairing_id = store.save key (c.show_id pairing_id)

  unfoldable pub delete_entry_if_present : Text → Storage S (Unit {0})
  delete_entry_if_present key = attempt (store.delete key)

  unfoldable pub validate_generation_key_binding : PairingGeneration → Storage S (Unit {0})
  validate_generation_key_binding generation = do
    lift (validate_generation_metadata c generation)
    signature ←
        store.sign (approval_key_alias c generation.pairing_id)
          (canonical_pairing_ready_payload c generation.pairing_id)
    bail_if
        (not (
          verify_pairing_ready_signature c generation.approval_public_key_der generation.pairing_id
            signature))
        key_mismatch

  unfoldable pub store_generation : PairingGeneration → Storage S (Unit {0})
  store_generation generation = do
    json ← lift (ok_or (c.to_json generation) not_serializable)
    store.save (pairing_generation_key c generation.pairing_id) json

  unfoldable pub load_generation : ℕ → Storage S PairingGeneration
  unfolding decode_generation
  load_generation pairing_id = do
    found ← store.get (pairing_generation_key c pairing_id)
    lift (decode_generation c pairing_id found)

  unfoldable pub load_metadata_validated_generation : ℕ → Storage S PairingGeneration
  load_metadata_validated_generation pairing_id = do
    generation ← load_generation pairing_id
    lift (validate_generation_metadata c generation)
    pure generation

  unfoldable pub load_key_bound_generation : ℕ → Storage S PairingGeneration
  load_key_bound_generation pairing_id = do
    generation ← load_metadata_validated_generation pairing_id
    validate_generation_key_binding generation
    pure generation

  unfoldable pub remove_generation : ℕ → Storage S (Unit {0})
  remove_generation pairing_id = do
    store.delete_approval_key (approval_key_alias c pairing_id)
    store.delete (pairing_generation_key c pairing_id)
