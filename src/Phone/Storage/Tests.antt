-- ===== src/Phone/Storage/Tests.antt =====
-- A keystore in memory whose writes fail as told, crates that meet their laws, and runs of the
-- pairing code over them.
mod Calls
mod Refusing
use mathlib.Core.Option.{some-injective}
use ferusa.Base.{
  ℕ, ◌≡◌, refl, sym, ap, ◌∙◌, ap₂, Bool, true, false, Option, none, some, List, [], ◌∷◌, ◌++◌, ◌⊎◌,
  Text, codes, text_eq, if◌then◌else◌, length, take, drop, take-append, drop-append, Result, ok,
  err, inl, inr, is_ok,
}
use ferusa.Base.Action.{Ensures, returned, failed}
use ferusa.Phone.Storage.Types.{
  PairingGeneration, StoredSecrets, PinHash, Crates, Failure, backend, PairingStore, Storage,
  pairing_generation_key, approval_key_alias, into_stored_secrets, pairing_is_pending,
}
use ferusa.Phone.Storage.Generation.{
  validate_generation_metadata, validate_pin_hash, parse_generation_id, load_generation,
  push_unique_generation, load_generation_id, save_generation_id, store_generation,
  load_metadata_validated_generation, decode_generation, remove_generation, delete_entry_if_present,
}
use ferusa.Phone.Storage.Cleanup.{
  delete_retiring, clear_activation_keys, finalize_if_equal, push_candidate,
  cleanup_retiring_generation, clear_if_holds, cleanup_activation_metadata,
  finalize_active_activation, discard_pending, clear_uncommitted_pending, remove_candidates,
}
use ferusa.Phone.Storage.Transaction.{
  begin_pending_pairing, store_pending_pairing_generation, commit_pending_generation,
  activate_generation, activate_found, activate_pending, commit_inactive, commit_pending,
  reactivate, recommit, finish_active, publish, retire,
}
use ferusa.Phone.Storage.Laws.{StoreLaws, CrateLaws}
use ferusa.Phone.Storage.View.{View, Slot, active, Sees}
use ferusa.Phone.Storage.Invariant.{Inv}
use ferusa.Phone.Storage.Effects.{Safe, Now}
use ferusa.Phone.Storage.History.{
  Reach, start, next, begins, stores, commits, activates, IsRecoverable, Reach-IsRecoverable,
  stored_id,
}

record MemoryStore : Type 0 where
  secrets : Text → Option Text
  faults : List Bool

abbrev written : Text → Option Text → MemoryStore → MemoryStore
written key o s = record s { secrets = λ j. if text_eq key j then o else s.secrets j }

-- The next write fails if the list says so.
abbrev write : List Bool → Text → Option Text → Storage MemoryStore (Unit {0})
write (true ∷ rest) key o s = (err backend, record s { faults = rest })
write (false ∷ rest) key o s = (ok tt, record (written key o s) { faults = rest })
write [] key o s = (ok tt, written key o s)

abbrev memory : PairingStore MemoryStore
memory = record {
  save = λ key value s. write s.faults key (some value) s;
  get = λ key s. (ok (s.secrets key), s);
  delete = λ key s. write s.faults key none s;
  sign = λ alias payload s. (ok payload, s);
  delete_approval_key = λ alias s. (ok tt, s);
}

write_law :
    (fs : List Bool) (key : Text) (o : Option Text) (s : MemoryStore)
    → Ensures
        (λ _ t. (j : Text) → t.secrets j ≡ (if text_eq key j then o else s.secrets j))
        (λ t.
          ((j : Text) → t.secrets j ≡ s.secrets j)
          ⊎ ((j : Text) → t.secrets j ≡ (if text_eq key j then o else s.secrets j)))
        (write fs key o s)
write_law (true ∷ rest) key o s = failed (inl (λ j. refl))
write_law (false ∷ rest) key o s = returned (λ j. refl)
write_law [] key o s = returned (λ j. refl)

abbrev memory_laws : StoreLaws memory
memory_laws = record {
  peek = λ s. s.secrets;
  get_law = λ key s. returned (refl, λ j. refl);
  save_law = λ key value s. write_law s.faults key (some value) s;
  delete_law = λ key s. write_law s.faults key none s;
  sign_law = λ alias payload s. returned (λ j. refl);
  delete_approval_key_law = λ alias s. returned (λ j. refl);
}

-- A text with its length in front.
abbrev block : Text → Text → Text
block s rest = length s ∷ s ++ rest

abbrev unblock : Text → Text × Text
unblock [] = ([], [])
unblock (n ∷ rest) = (take n rest, drop n rest)

unblock-block : (s rest : Text) → unblock (block s rest) ≡ (s, rest)
unblock-block s rest =
    ap₂ {C = Text × Text} (λ a b. (a, b)) (take-append s rest) (drop-append s rest)

abbrev write_generation : PairingGeneration → Text
write_generation g =
    g.version
    ∷ g.pairing_id
    ∷ block g.approval_public_key_der
        (block g.phone_share (block g.pin4_hash (block g.pin6_hash (block g.cli_node_id []))))

abbrev read_fields : ℕ → ℕ → Text → PairingGeneration
read_fields v u t =
    let (a, t1) = unblock t in
    let (b, t2) = unblock t1 in
    let (d, t3) = unblock t2 in
    let (e, t4) = unblock t3 in
    let (f, t5) = unblock t4 in
    record {
      version = v;
      pairing_id = u;
      approval_public_key_der = a;
      phone_share = b;
      pin4_hash = d;
      pin6_hash = e;
      cli_node_id = f;
    }

abbrev read_generation : Text → Option PairingGeneration
read_generation (v ∷ u ∷ t) = some (read_fields v u t)
read_generation _ = none

read-write : (g : PairingGeneration) → read_generation (write_generation g) ≡ some g
read-write g = simp (take-append, drop-append)

abbrev parse : Text → Option ℕ
parse (u ∷ []) = some u
parse _ = none

abbrev crates : Crates
crates = record {
  show_id = λ u. u ∷ [];
  parse_id = parse;
  to_json = λ g. some (write_generation g);
  from_json = read_generation;
  parse_hash = λ t. some (record { algorithm = t; has_salt = true; has_hash = true });
  verify = λ key payload sig. text_eq payload sig;
}

json_law :
    (g : PairingGeneration) (t : Text) → crates.to_json g ≡ some t → crates.from_json t ≡ some g
json_law g t e = ap read_generation (some-injective _ _ (sym e)) ∙ read-write g

abbrev crate_laws : CrateLaws crates
crate_laws = record { parse-show = λ u. refl; from_json-to_json = json_law }

abbrev empty : List Bool → MemoryStore
empty fs = record { secrets = λ j. none; faults = fs }

abbrev sample : PairingGeneration
sample = record {
  version = 1;
  pairing_id = 7;
  approval_public_key_der = 4 ∷ [];
  phone_share = 5 ∷ [];
  pin4_hash = codes "argon2id";
  pin6_hash = codes "argon2id";
  cli_node_id = 6 ∷ [];
}

abbrev begun : List Bool → MemoryStore
begun fs = (begin_pending_pairing crates memory 7 (empty fs)).1

abbrev stored : List Bool → MemoryStore
stored fs =
    (store_pending_pairing_generation crates memory 7 (approval_key_alias crates 7) sample
      (begun fs)).1

abbrev committed_store : List Bool → MemoryStore
committed_store fs = (commit_pending_generation crates memory 7 (stored fs)).1

abbrev activated : List Bool → MemoryStore
activated fs = (activate_generation crates memory 7 (committed_store fs)).1

abbrev empty_view : View
empty_view = record { at = λ k. none; generation = λ u. none }

empty-Now : (fs : List Bool) → Now crates memory_laws empty_view (empty fs)
empty-Now fs = record { slots = λ k. refl; stored = λ u. refl }

empty-Inv : Inv empty_view
empty-Inv = record {
  active_held = refl;
  committed_held = refl;
  staging_kept = refl;
  pending_kept = refl;
  committed_kept = refl;
  staging_resumed = refl;
  pending_resumed = refl;
  one_pending = refl;
}

empty-Safe : (fs : List Bool) → Safe crates memory_laws (empty fs)
empty-Safe fs = record { view = empty_view; now = empty-Now fs; inv = empty-Inv }

-- The tenth write fails: the activation is cut short.
abbrev cut_short : List Bool
cut_short = false ∷ false ∷ false ∷ false ∷ false ∷ false ∷ false ∷ false ∷ false ∷ true ∷ []

history : (fs : List Bool) → Reach crates memory memory_laws (empty fs) (activated fs)
history fs =
    next
      (next (next (next start (begins 7 refl refl)) (stores 7 (approval_key_alias crates 7) sample))
        (commits 7))
      (activates 7)

Reach-IsRecoverable_example : IsRecoverable crates memory memory_laws (activated cut_short)
Reach-IsRecoverable_example =
    Reach-IsRecoverable crate_laws memory_laws (empty-Safe cut_short) (history cut_short)

activation_cut_short :
    ((activate_generation crates memory 7 (committed_store cut_short)).0 ≡ err backend)
    × (stored_id crates memory memory_laws (activated cut_short) active ≡ some 7)
unfolding begin_pending_pairing store_pending_pairing_generation commit_pending_generation
    activate_generation load_generation_id finalize_active_activation clear_uncommitted_pending
    discard_pending remove_candidates save_generation_id approval_key_alias
    validate_generation_metadata validate_pin_hash store_generation
    load_metadata_validated_generation load_generation pairing_generation_key activate_found publish
    retire delete_entry_if_present cleanup_activation_metadata cleanup_retiring_generation
    clear_activation_keys clear_if_holds delete_retiring finalize_if_equal push_candidate
    decode_generation parse_generation_id push_unique_generation remove_generation activate_pending
    commit_inactive commit_pending finish_active reactivate recommit into_stored_secrets
activation_cut_short = (refl, refl)
