-- ===== src/Phone/Storage/Tests/Calls.antt =====
-- Each call of a first pairing, and the calls on the finished one.
use ferusa.Base.{◌≡◌, refl, none, some, []}
use ferusa.Base.Action.{Ensures}
use ferusa.Phone.Storage.Types.{approval_key_alias}
use ferusa.Phone.Storage.Transaction.{
  begin_pending_pairing, store_pending_pairing_generation, commit_pending_generation,
  activate_generation,
}
use ferusa.Phone.Storage.View.{active, staging, pending, committed}
use ferusa.Phone.Storage.Effects.{Safe}
use ferusa.Phone.Storage.History.{start, next, begins, stores, commits, activates, Reach-Safe}
use ferusa.Phone.Storage.Pairing.{
  Reached, Pending, as_stored, begin-Ensures, store_pending_pairing_generation-Ensures,
}
use ferusa.Phone.Storage.Committing.{Committed, commit-Ensures}
use ferusa.Phone.Storage.Activating.{Activated, activate-Ensures}
use ferusa.Phone.Storage.Tests.{
  crates, crate_laws, memory, memory_laws, empty, begun, stored, committed_store, activated, sample,
  empty-Safe, empty_view, empty-Inv, empty-Now,
}

begun_safe : Safe crates memory_laws (begun [])
begun_safe = Reach-Safe crate_laws memory_laws (next start (begins 7 refl refl)) (empty-Safe [])

stored_safe : Safe crates memory_laws (stored [])
stored_safe =
    Reach-Safe crate_laws memory_laws (next start (stores 7 (approval_key_alias crates 7) sample))
      begun_safe

committed_safe : Safe crates memory_laws (committed_store [])
committed_safe = Reach-Safe crate_laws memory_laws (next start (commits 7)) stored_safe

activated_safe : Safe crates memory_laws (activated [])
activated_safe = Reach-Safe crate_laws memory_laws (next start (activates 7)) committed_safe

begin-Ensures_example :
    Ensures
      (λ _. Reached crate_laws memory_laws (λ w.
        (w.at staging ≡ some 7)
        × (w.at pending ≡ none)
        × (w.at committed ≡ none)
        × (w.at active ≡ none)))
      (Safe crates memory_laws)
      (begin_pending_pairing crates memory 7 (empty []))
begin-Ensures_example =
    begin-Ensures crate_laws memory_laws 7 empty_view (empty []) empty-Inv (refl, refl)
      (empty-Now [])

store_pending_pairing_generation-Ensures_example :
    Ensures
      (λ _. Reached crate_laws memory_laws (
        Pending crate_laws memory_laws begun_safe.view 7
          (as_stored crate_laws memory_laws 7 sample)))
      (Safe crates memory_laws)
      (store_pending_pairing_generation crates memory 7
        (approval_key_alias crates 7)
        sample
        (begun []))
store_pending_pairing_generation-Ensures_example =
    store_pending_pairing_generation-Ensures crate_laws memory_laws 7 (approval_key_alias crates 7)
      sample begun_safe.view (begun []) begun_safe.inv begun_safe.now

commit-Ensures_example :
    Ensures
      (λ _. Reached crate_laws memory_laws (Committed crate_laws memory_laws stored_safe.view 7))
      (Safe crates memory_laws)
      (commit_pending_generation crates memory 7 (stored []))
commit-Ensures_example =
    commit-Ensures crate_laws memory_laws 7 stored_safe.view (stored []) stored_safe.inv
      stored_safe.now

activate-Ensures_example :
    Ensures
      (λ a.
        Reached crate_laws memory_laws (Activated crate_laws memory_laws committed_safe.view 7 a))
      (Safe crates memory_laws)
      (activate_generation crates memory 7 (committed_store []))
activate-Ensures_example =
    activate-Ensures crate_laws memory_laws 7 committed_safe.view (committed_store [])
      committed_safe.inv committed_safe.now
