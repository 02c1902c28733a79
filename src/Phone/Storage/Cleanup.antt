-- ===== src/Phone/Storage/Cleanup.antt =====
-- Retiring, finalizing and clearing, app/src-tauri/src/storage.rs.
use ferusa.Base.{ℕ, Option, none, some, List, [], ◌∷◌, Text, if◌then◌else◌, is_some}
use ferusa.Base.Action.{pure, bail_if, attempt, ◌>>=◌, ◌>>◌}
use ferusa.Phone.Storage.Types.{
  Crates, Storage, PairingStore, active_is_retiring, committed_is_pending,
  active_pairing_generation, staging_pairing_generation, pending_pairing_generation,
  committed_pairing_generation, retiring_pairing_generation,
}
use ferusa.Phone.Storage.Generation.{
  holds, push_unique_generation, load_generation_id, remove_generation,
}

module _ {S : Type 0} (c : Crates) (store : PairingStore S) where
  -- The body below `let Some(retiring) = … else`.
  unfoldable pub delete_retiring : Option ℕ → Storage S (Unit {0})
  delete_retiring none = pure tt
  delete_retiring (some retiring) = do
    active ← load_generation_id c store active_pairing_generation
    bail_if (holds active retiring) active_is_retiring
    remove_generation c store retiring
    store.delete retiring_pairing_generation

  unfoldable pub cleanup_retiring_generation : Storage S (Unit {0})
  cleanup_retiring_generation = do
    retiring ← load_generation_id c store retiring_pairing_generation
    delete_retiring retiring

  -- One round of the loop in `cleanup_activation_metadata`.
  unfoldable pub clear_if_holds : Text → ℕ → Storage S (Unit {0})
  clear_if_holds key pairing_id = do
    stored ← load_generation_id c store key
    if holds stored pairing_id then store.delete key else pure tt

  unfoldable pub clear_activation_keys : List Text → ℕ → Storage S (Unit {0})
  clear_activation_keys [] pairing_id = pure tt
  clear_activation_keys (key ∷ keys) pairing_id = do
    clear_if_holds key pairing_id
    clear_activation_keys keys pairing_id

  unfoldable pub cleanup_activation_metadata : ℕ → Storage S (Unit {0})
  unfolding clear_activation_keys
  cleanup_activation_metadata pairing_id = do
    clear_activation_keys
        (staging_pairing_generation ∷ pending_pairing_generation ∷ committed_pairing_generation
          ∷ [])
        pairing_id
    attempt cleanup_retiring_generation

  unfoldable pub finalize_if_equal : Option ℕ → Option ℕ → Storage S (Unit {0})
  finalize_if_equal (some active) committed =
      if holds committed active then cleanup_activation_metadata active else pure tt
  finalize_if_equal none committed = pure tt

  unfoldable pub finalize_active_activation : Storage S (Unit {0})
  unfolding finalize_if_equal
  finalize_active_activation = do
    active ← load_generation_id c store active_pairing_generation
    committed ← load_generation_id c store committed_pairing_generation
    finalize_if_equal active committed

  unfoldable pub push_candidate : List ℕ → Option ℕ → List ℕ
  push_candidate candidates none = candidates
  push_candidate candidates (some pairing_id) = push_unique_generation candidates pairing_id

  unfoldable pub remove_candidates : Option ℕ → List ℕ → Storage S (Unit {0})
  remove_candidates active [] = pure tt
  remove_candidates active (pairing_id ∷ rest) = do
    if holds active pairing_id then pure tt else remove_generation c store pairing_id
    remove_candidates active rest

  -- `clear_uncommitted_pending` behind the call that finalizes.
  unfoldable pub discard_pending : Storage S (Unit {0})
  unfolding push_candidate
  discard_pending = do
    committed ← load_generation_id c store committed_pairing_generation
    bail_if (is_some committed) committed_is_pending
    active ← load_generation_id c store active_pairing_generation
    staging ← load_generation_id c store staging_pairing_generation
    pending ← load_generation_id c store pending_pairing_generation
    remove_candidates active (push_candidate (push_candidate [] staging) pending)
    store.delete staging_pairing_generation
    store.delete pending_pairing_generation

  unfoldable pub clear_uncommitted_pending : Storage S (Unit {0})
  clear_uncommitted_pending = do finalize_active_activation; discard_pending
