-- ===== src/Phone/Storage/History.antt =====
-- Everything that happens to the pairing slots: the calls that the app makes, each of which may
-- fail at any of its steps, in any order.
use ferusa.Base.{ℕ, ◌≡◌, ap, ◌∙◌, sym, true, false, Option, some, is_some, Text}
use ferusa.Base.Action.{Ensures-mono, Ensures-both}
use ferusa.Phone.Storage.Types.{PairingGeneration, Crates, PairingStore, pairing_generation_key}
use ferusa.Phone.Storage.Generation.{holds}
use ferusa.Phone.Storage.Transaction.{
  begin_pending_pairing, store_pending_pairing_generation, commit_pending_generation,
  abort_unstarted_pairing, activate_generation,
}
use ferusa.Phone.Storage.Queries.{
  pairing_generation_cli_node_id, is_referenced_pairing_cli_node_id, is_setup_in_store,
  load_secrets,
}
use ferusa.Phone.Storage.Laws.{StoreLaws, CrateLaws}
use ferusa.Phone.Storage.View.{Slot, active, committed, retiring, slot_key, id_of, held_in}
use ferusa.Phone.Storage.Invariant.{covered}
use ferusa.Phone.Storage.Effects.{Safe}
use ferusa.Phone.Storage.Finalizing.{After-Safe, here}
use ferusa.Phone.Storage.Pairing.{
  Reached-Safe, begin-Ensures, abort-Ensures, store_pending_pairing_generation-Ensures,
}
use ferusa.Phone.Storage.Committing.{commit-Ensures}
use ferusa.Phone.Storage.Activating.{activate-Ensures}
use ferusa.Phone.Storage.Answers.{
  is_setup-Ensures, load_secrets-Ensures, is_referenced-Ensures, cli_node_id-Ensures,
}

module _ {S : Type 0} (c : Crates) (store : PairingStore S) (sl : StoreLaws store) where
  -- The id in a slot of the store.
  abbrev pub stored_id : S → Slot → Option ℕ
  stored_id s k = id_of c (sl.peek s (slot_key k))

  -- One call. `setup_complete` begins with a new random id, so with one that is not in use.
  pub data Step (s : S) : S → Type 0 where
    begins :
        (u : ℕ)
        → holds (stored_id s active) u ≡ false
        → holds (stored_id s retiring) u ≡ false
        → Step s (begin_pending_pairing c store u s).1
    stores :
        (u : ℕ) (alias : Text) (g : PairingGeneration)
        → Step s (store_pending_pairing_generation c store u alias g s).1
    commits : (u : ℕ) → Step s (commit_pending_generation c store u s).1
    aborts : (u : ℕ) → Step s (abort_unstarted_pairing c store u s).1
    activates : (u : ℕ) → Step s (activate_generation c store u s).1
    checks_setup : Step s (is_setup_in_store c store s).1
    loads : Step s (load_secrets c store s).1
    asks_node : (u : ℕ) → Step s (pairing_generation_cli_node_id c store u s).1
    asks_peer : (node : Text) → Step s (is_referenced_pairing_cli_node_id c store node s).1

  pub data Reach (s : S) : S → Type 0 where
    start : Reach s s
    next : {t u : S} → Reach s t → Step t u → Reach s u

  -- The generation that a slot names can be read back, and passes the metadata check.
  abbrev pub IsKept : S → Slot → Type 0
  IsKept s k =
      (u : ℕ)
      → stored_id s k ≡ some u
      → is_some (held_in c u (sl.peek s (pairing_generation_key c u))) ≡ true

  pub record IsRecoverable (s : S) : Type 0 where
    pub active_kept : IsKept s active
    pub committed_kept : IsKept s committed

module _ {S : Type 0} {c : Crates} {store : PairingStore S} (cl : CrateLaws c)
    (sl : StoreLaws store) where
  Safe-IsRecoverable : {s : S} → Safe c sl s → IsRecoverable c store sl s
  Safe-IsRecoverable r = record {
    active_kept = λ u e.
        ap is_some (r.now.stored u)
        ∙ ap (covered r.view) (sym e ∙ r.now.slots active)
        ∙ r.inv.active_held;
    committed_kept = λ u e.
        ap is_some (r.now.stored u)
        ∙ ap (covered r.view) (sym e ∙ r.now.slots committed)
        ∙ r.inv.committed_held;
  }

  Step-Safe : {s t : S} → Step c store sl s t → Safe c sl s → Safe c sl t
  Step-Safe {s} (begins u a b) r = Ensures-both (
      Ensures-mono
        (begin-Ensures cl sl u r.view s r.inv
          (
            ap (λ o. holds o u) (sym (r.now.slots active)) ∙ a,
            ap (λ o. holds o u) (sym (r.now.slots retiring)) ∙ b,
          )
          r.now)
        (λ _ t x. Reached-Safe cl sl x) (λ t x. x))
  Step-Safe {s} (stores u alias g) r = Ensures-both (
      Ensures-mono (store_pending_pairing_generation-Ensures cl sl u alias g r.view s r.inv r.now)
        (λ _ t x. Reached-Safe cl sl x) (λ t x. x))
  Step-Safe {s} (commits u) r = Ensures-both (
      Ensures-mono (commit-Ensures cl sl u r.view s r.inv r.now) (λ _ t x. Reached-Safe cl sl x)
        (λ t x. x))
  Step-Safe {s} (aborts u) r = Ensures-both (
      Ensures-mono (abort-Ensures cl sl u r.view s r.inv r.now) (λ _ t x. After-Safe cl sl x)
        (λ t x. x))
  Step-Safe {s} (activates u) r = Ensures-both (
      Ensures-mono (activate-Ensures cl sl u r.view s r.inv r.now) (λ _ t x. Reached-Safe cl sl x)
        (λ t x. x))
  Step-Safe {s} checks_setup r = Ensures-both (
      Ensures-mono (is_setup-Ensures cl sl r.view s r.inv r.now) (λ _ t x. Reached-Safe cl sl x)
        (λ t x. x))
  Step-Safe {s} loads r = Ensures-both (
      Ensures-mono (load_secrets-Ensures cl sl r.view s r.inv r.now) (λ _ t x. Reached-Safe cl sl x)
        (λ t x. x))
  Step-Safe {s} (asks_node u) r = Ensures-both (cli_node_id-Ensures cl sl u r.view s r.inv r.now)
  Step-Safe {s} (asks_peer node) r = Ensures-both (
      Ensures-mono (is_referenced-Ensures cl sl node r.view s r.now)
        (λ _ t. here cl sl r.view t r.inv) (λ t. here cl sl r.view t r.inv))

  pub Reach-Safe : {s t : S} → Reach c store sl s t → Safe c sl s → Safe c sl t
  Reach-Safe start r = r
  Reach-Safe (next h st) r = Step-Safe st (Reach-Safe h r)

  -- From a store that meets the invariant, after any series of calls, each of which may fail at any
  -- of its steps, the generations that the active and the committed slot name can be read back and
  -- pass the metadata check. Each new pairing begins with an id that is neither active nor retiring.
  pub Reach-IsRecoverable :
      {s t : S} → Safe c sl s → Reach c store sl s t → IsRecoverable c store sl t
  Reach-IsRecoverable r h = Safe-IsRecoverable (Reach-Safe h r)
