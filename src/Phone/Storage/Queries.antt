-- ===== src/Phone/Storage/Queries.antt =====
-- Questions about the stored generations, app/src-tauri/src/storage.rs.
use ferusa.Base.{
  ℕ, Option, none, some, Bool, true, false, ◌||◌, List, [], ◌∷◌, Text, text_eq, if◌then◌else◌,
  ok_or,
}
use ferusa.Base.Action.{pure, lift, attempt, ◌>>=◌, ◌>>◌}
use ferusa.Phone.Storage.Types.{
  StoredSecrets, Crates, Storage, PairingStore, not_in_store, into_stored_secrets,
  active_pairing_generation, pending_pairing_generation, committed_pairing_generation,
}
use ferusa.Phone.Storage.Generation.{
  holds, load_generation_id, load_generation, load_metadata_validated_generation,
  load_key_bound_generation,
}
use ferusa.Phone.Storage.Cleanup.{cleanup_retiring_generation, finalize_active_activation}

module _ {S : Type 0} (c : Crates) (store : PairingStore S) where
  unfoldable pub pairing_generation_cli_node_id : ℕ → Storage S (Option Text)
  pairing_generation_cli_node_id pairing_id = do
    finalize_active_activation c store
    active ← load_generation_id c store active_pairing_generation
    pending ← load_generation_id c store pending_pairing_generation
    committed ← load_generation_id c store committed_pairing_generation
    if holds active pairing_id || holds pending pairing_id || holds committed pairing_id
        then (do
          generation ← load_generation c store pairing_id
          pure (some generation.cli_node_id))
        else pure none

  unfoldable pub node_matches : Option ℕ → Text → Storage S Bool
  node_matches none cli_node_id = pure false
  node_matches (some pairing_id) cli_node_id = do
    generation ← load_generation c store pairing_id
    pure (text_eq generation.cli_node_id cli_node_id)

  unfoldable pub any_slot_has_node : List Text → Text → Storage S Bool
  any_slot_has_node [] cli_node_id = pure false
  any_slot_has_node (key ∷ keys) cli_node_id = do
    stored ← load_generation_id c store key
    found ← node_matches stored cli_node_id
    if found then pure true else any_slot_has_node keys cli_node_id

  unfoldable pub is_referenced_pairing_cli_node_id : Text → Storage S Bool
  unfolding any_slot_has_node node_matches
  is_referenced_pairing_cli_node_id cli_node_id =
      any_slot_has_node
        (active_pairing_generation ∷ pending_pairing_generation ∷ committed_pairing_generation ∷ [])
        cli_node_id

  unfoldable pub check_active : Option ℕ → Storage S Bool
  check_active none = pure false
  check_active (some pairing_id) = do
    load_metadata_validated_generation c store pairing_id
    pure true

  unfoldable pub is_setup_in_store : Storage S Bool
  unfolding check_active
  is_setup_in_store = do
    finalize_active_activation c store
    attempt (cleanup_retiring_generation c store)
    active ← load_generation_id c store active_pairing_generation
    check_active active

  unfoldable pub load_secrets : Storage S StoredSecrets
  load_secrets = do
    attempt (cleanup_retiring_generation c store)
    active ← load_generation_id c store active_pairing_generation
    pairing_id ← lift (ok_or active not_in_store)
    generation ← load_key_bound_generation c store pairing_id
    pure (into_stored_secrets c generation)
