-- ===== src/Phone/Storage/Tests/Refusing.antt =====
-- Calls that are refused while generation 7 is pending and committed.
use ferusa.Base.{
  ℕ, ◌≡◌, refl, false, Option, none, some, [], ◌∷◌, text_eq, if◌then◌else◌, inl, arith,
}
use ferusa.Phone.Storage.Generation.{holds}
use ferusa.Phone.Storage.Transaction.{begin_pending_pairing, activate_generation}
use ferusa.Phone.Storage.View.{
  Slot, active, retiring, staging, pending, committed, slot_key, View, id_of,
}
use ferusa.Phone.Storage.Types.{pairing_generation_key}
use ferusa.Phone.Storage.Effects.{Now}
use ferusa.Phone.Storage.Refusals.{Refused, begin-Refused, activate-Refused}
use ferusa.Phone.Storage.Tests.{MemoryStore, crates, crate_laws, memory, memory_laws}

abbrev busy : MemoryStore
busy = record {
  secrets = λ j.
      if text_eq (slot_key pending) j
      then some (7 ∷ [])
      else if text_eq (slot_key committed) j
      then some (7 ∷ [])
      else none;
  faults = [];
}

abbrev busy_at : Slot → Option ℕ
busy_at pending = some 7
busy_at committed = some 7
busy_at _ = none

abbrev busy_view : View
busy_view = record { at = busy_at; generation = λ u. none }

busy_slots : (k : Slot) → id_of crates (busy.secrets (slot_key k)) ≡ busy_at k
busy_slots active = refl
busy_slots staging = refl
busy_slots pending = refl
busy_slots committed = refl
busy_slots retiring = refl

busy-Now : Now crates memory_laws busy_view busy
unfolding pairing_generation_key
busy-Now = record { slots = busy_slots; stored = λ u. refl }

no_active : (u : ℕ) → busy_at active ≡ some u → holds (busy_at committed) u ≡ false
no_active u h = ground arith

begin-Refused_example :
    Refused crate_laws memory_laws busy_view (begin_pending_pairing crates memory 8 busy)
begin-Refused_example =
    begin-Refused crate_laws memory_laws 8 7 busy_view busy refl no_active busy-Now

activate-Refused_example :
    Refused crate_laws memory_laws busy_view (activate_generation crates memory 8 busy)
activate-Refused_example =
    activate-Refused crate_laws memory_laws 8 busy_view busy refl (inl refl) busy-Now
