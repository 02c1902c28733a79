-- ===== src/Phone/Storage/Transaction.antt =====
-- The steps of a pairing transaction, app/src-tauri/src/storage.rs.
use ferusa.Base.{
  ℕ, Option, none, some, Bool, false, not, ◌||◌, Text, codes, text_eq, ◌==◌, if◌then◌else◌, is_some,
  ok_or,
}
use ferusa.Base.Action.{pure, bail_if, lift, ◌>>=◌, ◌>>◌}
use ferusa.Phone.Storage.Types.{
  PairingGeneration, StoredSecrets, Crates, Storage, PairingStore, not_in_store, pairing_is_pending,
  staging_mismatch, alias_mismatch, pending_mismatch, different_generation, commit_mismatch,
  pairing_generation_version, approval_key_alias, into_stored_secrets, active_pairing_generation,
  staging_pairing_generation, pending_pairing_generation, committed_pairing_generation,
  retiring_pairing_generation,
}
use ferusa.Phone.Storage.Generation.{
  holds, validate_generation_metadata, load_generation_id, save_generation_id,
  delete_entry_if_present, store_generation, load_metadata_validated_generation,
}
use ferusa.Phone.Storage.Cleanup.{
  cleanup_retiring_generation, cleanup_activation_metadata, finalize_active_activation,
  clear_uncommitted_pending,
}

-- `option.is_some_and(|stored| stored != id)`.
abbrev pub is_other : Option ℕ → ℕ → Bool
is_other none pairing_id = false
is_other (some stored) pairing_id = not (stored == pairing_id)

module _ {S : Type 0} (c : Crates) (store : PairingStore S) where
  unfoldable pub begin_pending_pairing : ℕ → Storage S (Unit {0})
  begin_pending_pairing pairing_id = do
    finalize_active_activation c store
    pending ← load_generation_id c store pending_pairing_generation
    bail_if (is_some pending) pairing_is_pending
    clear_uncommitted_pending c store
    save_generation_id c store staging_pairing_generation pairing_id

  -- The five value parameters of `store_pending_pairing_generation` come as the record that the
  -- function builds of them.
  unfoldable pub store_pending_pairing_generation :
      ℕ → Text → PairingGeneration → Storage S (Unit {0})
  store_pending_pairing_generation pairing_id approval_alias parts = do
    staging ← load_generation_id c store staging_pairing_generation
    bail_if (not (holds staging pairing_id)) staging_mismatch
    bail_if (not (text_eq approval_alias (approval_key_alias c pairing_id))) alias_mismatch
    let generation = record parts { version = pairing_generation_version; pairing_id = pairing_id }
    lift (validate_generation_metadata c generation)
    store_generation c store generation
    load_metadata_validated_generation c store pairing_id
    save_generation_id c store pending_pairing_generation pairing_id

  unfoldable pub commit_pending : ℕ → Storage S (Unit {0})
  commit_pending pairing_id = do
    pending ← load_generation_id c store pending_pairing_generation
    bail_if (not (holds pending pairing_id)) pending_mismatch
    load_metadata_validated_generation c store pairing_id
    save_generation_id c store committed_pairing_generation pairing_id

  -- The first early return, for the active generation.
  unfoldable pub finish_active : ℕ → Storage S PairingGeneration
  finish_active pairing_id = do
    generation ← load_metadata_validated_generation c store pairing_id
    finalize_active_activation c store
    pure generation

  -- The second, for a generation that is committed already.
  unfoldable pub recommit : ℕ → Storage S (Unit {0})
  recommit pairing_id = do load_metadata_validated_generation c store pairing_id; pure tt

  unfoldable pub commit_inactive : ℕ → Storage S (Unit {0})
  commit_inactive pairing_id = do
    committed ← load_generation_id c store committed_pairing_generation
    if holds committed pairing_id then recommit pairing_id else commit_pending pairing_id

  unfoldable pub commit_pending_generation : ℕ → Storage S (Unit {0})
  unfolding commit_inactive recommit commit_pending
  commit_pending_generation pairing_id = do
    active ← load_generation_id c store active_pairing_generation
    if holds active pairing_id
        then finish_active pairing_id >> pure tt
        else commit_inactive pairing_id

  unfoldable pub abort_unstarted_pairing : ℕ → Storage S (Unit {0})
  abort_unstarted_pairing pairing_id = do
    staging ← load_generation_id c store staging_pairing_generation
    bail_if (is_other staging pairing_id) different_generation
    pending ← load_generation_id c store pending_pairing_generation
    bail_if (is_other pending pairing_id) different_generation
    clear_uncommitted_pending c store

  unfoldable pub retire : Option ℕ → Storage S (Unit {0})
  retire none = pure tt
  retire (some old_active) = do
    retiring ← load_generation_id c store retiring_pairing_generation
    if is_other retiring old_active then cleanup_retiring_generation c store else pure tt
    save_generation_id c store retiring_pairing_generation old_active

  -- The body under `if old_active != Some(committed)`.
  unfoldable pub publish : Option ℕ → ℕ → Storage S (Unit {0})
  publish old_active committed = do
    retire old_active
    save_generation_id c store active_pairing_generation committed
    delete_entry_if_present c store (codes "pin4_attempt_state")
    delete_entry_if_present c store (codes "pin6_attempt_state")

  -- `activate_generation` once both slots are read.
  unfoldable pub activate_found : ℕ → ℕ → ℕ → Storage S StoredSecrets
  activate_found pairing_id pending committed = do
    bail_if (not (pending == committed) || not (committed == pairing_id)) commit_mismatch
    generation ← load_metadata_validated_generation c store committed
    old_active ← load_generation_id c store active_pairing_generation
    if holds old_active committed then pure tt else publish old_active committed
    cleanup_activation_metadata c store committed
    pure (into_stored_secrets c generation)

  unfoldable pub activate_pending : ℕ → Storage S StoredSecrets
  activate_pending pairing_id = do
    found ← load_generation_id c store pending_pairing_generation
    pending ← lift (ok_or found not_in_store)
    found' ← load_generation_id c store committed_pairing_generation
    committed ← lift (ok_or found' not_in_store)
    activate_found pairing_id pending committed

  unfoldable pub reactivate : ℕ → Storage S StoredSecrets
  reactivate pairing_id = do
    generation ← finish_active pairing_id
    pure (into_stored_secrets c generation)

  unfoldable pub activate_generation : ℕ → Storage S StoredSecrets
  unfolding activate_pending reactivate
  activate_generation pairing_id = do
    active ← load_generation_id c store active_pairing_generation
    if holds active pairing_id then reactivate pairing_id else activate_pending pairing_id
