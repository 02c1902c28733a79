-- ===== src/Cli/Pairing/Promotion.antt =====
-- The recovery of a transaction that the phone has committed, however often it is cut short.
use mathlib.Core.Option.{some-injective}
use ferusa.Base.{
  ℕ, ◌≡◌, refl, sym, ap, ◌∙◌, Bool, true, false, Option, none, some, Text, ok, ==_refl,
  if◌then◌else◌, is_some, inl, inr,
}
use ferusa.Base.Action.{Ensures, returned, failed, continue-Ensures, Ensures-mono, bail_if}
use ferusa.Cli.Pairing.Files.{
  File, vault_enc, pairing_state, pairing_transaction_state, temporary, pending_vault_enc,
  pending_pairing_state, FileError, Disk,
}
use ferusa.Cli.Pairing.Transaction.{
  PairingTxnPhase, phone_committed, locally_activated, PairingTxnFile, TxnJson, parse_transaction,
  read_pairing_transaction, promote_file,
}
use ferusa.Cli.Pairing.Sight.{
  number, file_eq, Contents, moved, DiskLaws, At, look-eq, read-At, rename-At, fsync-At,
}

-- The change that a transaction makes: the old files, which need not be there, and the new ones.
pub record Change : Type 0 where
  pub id : ℕ
  pub old_vault : Option Text
  pub new_vault : Text
  pub old_pairing : Option Text
  pub new_pairing : Text

abbrev pub transaction : Change → PairingTxnPhase → PairingTxnFile
transaction c phase = record {
  version = 2;
  phase = phase;
  pairing_id = c.id;
  had_live_vault = is_some c.old_vault;
  had_live_pairing = is_some c.old_pairing;
}

-- One of the two files: the new one waits, or has taken the place of the old one.
pub data Half (old : Option Text) (new : Text) (pending live : Option Text) : Type 0 where
  waiting : pending ≡ some new → live ≡ old → Half old new pending live
  promoted : pending ≡ none → live ≡ some new → Half old new pending live

pub record Recorded (json : TxnJson) (c : Change) (phase : PairingTxnPhase) (v : Contents)
    : Type 0 where
  pub raw : Text
  pub stored : v pairing_transaction_state ≡ some raw
  pub reads : json.from_json raw ≡ some (transaction c phase)

-- The phone has committed, and each file is the old one or the new one.
pub record Midway (json : TxnJson) (c : Change) (v : Contents) : Type 0 where
  pub recorded : Recorded json c phone_committed v
  pub vault : Half c.old_vault c.new_vault (v pending_vault_enc) (v vault_enc)
  pub pairing : Half c.old_pairing c.new_pairing (v pending_pairing_state) (v pairing_state)

-- Both new files are in place.
abbrev pub BothNew : Change → Contents → Type 0
BothNew c v =
    (v vault_enc ≡ some c.new_vault)
    × (v pending_vault_enc ≡ none)
    × (v pairing_state ≡ some c.new_pairing)
    × (v pending_pairing_state ≡ none)

abbrev pub Landed : TxnJson → Change → Contents → Type 0
Landed json c v = Recorded json c locally_activated v × BothNew c v

module _ {S : Type 0} {disk : Disk S} (laws : DiskLaws disk) (json : TxnJson)
    (back : (f : PairingTxnFile) (t : Text)
      → json.to_json f ≡ some t
      → json.from_json t ≡ some f) where
  pub record Seen (P : Contents → Type 0) (t : S) : Type 0 where
    pub seen : Contents
    pub seen_at : At laws seen t
    pub fact : P seen

  pub Seen-as : {P : Contents → Type 0} (v : Contents) (t : S) → P v → At laws v t → Seen P t
  Seen-as v t p a = record { seen = v; seen_at = a; fact = p }

  pub bail-At :
      (b : Bool) (e : FileError) (v : Contents) (s : S)
      → At laws v s
      → Ensures (λ _ t. (b ≡ false) × At laws v t) (At laws v) (bail_if b e s)
  bail-At true e v s a = failed a
  bail-At false e v s a = returned (refl, a)

  pub parse_recorded :
      (c : Change) (phase : PairingTxnPhase) (raw : Text)
      → json.from_json raw ≡ some (transaction c phase)
      → parse_transaction json raw ≡ ok (transaction c phase)
  unfolding parse_transaction
  parse_recorded c phase raw h = rw h refl

  pub read_txn :
      (c : Change) (phase : PairingTxnPhase) (v : Contents) (s : S)
      → Recorded json c phase v
      → At laws v s
      → Ensures
          (λ f t. (f ≡ transaction c phase) × At laws v t)
          (At laws v)
          (read_pairing_transaction json disk s)
  unfolding read_pairing_transaction
  read_txn c phase v s r a =
      continue-Ensures _ (read-At laws pairing_transaction_state v s refl a)
        (λ raw t x.
          let same = some-injective _ _ (sym r.stored ∙ x.0) in
          rw (parse_recorded c phase raw (ap json.from_json (sym same) ∙ r.reads))
            (returned (refl, x.1)))
        (λ t x. x)

  -- What is seen of a pending file and a live one, the other files being as they were.
  pub record Turned (pending live : File) (P : Option Text → Option Text → Type 0) (v : Contents)
      (t : S) : Type 0 where
    pub seen : Contents
    pub seen_at : At laws seen t
    pub fact : P (seen pending) (seen live)
    pub others : (j : File) → file_eq pending j ≡ false → file_eq live j ≡ false → seen j ≡ v j

  abbrev pub IsPromoted : Text → Option Text → Option Text → Type 0
  IsPromoted new p l = (p ≡ none) × (l ≡ some new)

  turned :
      (pending live : File) (new : Text) (v : Contents) (t : S)
      → file_eq live pending ≡ false
      → v pending ≡ some new
      → At laws (moved pending live v) t
      → Turned pending live (IsPromoted new) v t
  turned pending live new v t d e a = record {
    seen = moved pending live v;
    seen_at = a;
    fact = (
      ap (λ b. if b then v pending else if file_eq pending pending then none else v pending) d
          ∙ ap (λ b. if b then none else v pending) (==_refl (number pending)),
      ap (λ b. if b then v pending else if file_eq pending live then none else v live)
            (==_refl (number live))
          ∙ e,
    );
    others = λ j h k.
        ap (λ b. if b then v pending else if file_eq pending j then none else v j) k
        ∙ ap (λ b. if b then none else v j) h;
  }

  unturned :
      (pending live : File) {P : Option Text → Option Text → Type 0} (v : Contents) (t : S)
      → P (v pending) (v live)
      → At laws v t
      → Turned pending live P v t
  unturned pending live v t p a = record { seen = v; seen_at = a; fact = p; others = λ j h k. refl }

  abbrev pub half :
      (old : Option Text) (new : Text) (pending live : File) (v : Contents) (t : S)
      → Turned pending live (IsPromoted new) v t
      → Turned pending live (Half old new) v t
  half old new pending live v t x = record {
    seen = x.seen;
    seen_at = x.seen_at;
    fact = promoted x.fact.0 x.fact.1;
    others = x.others;
  }

  pub promote_file-Ensures :
      (pending live : File) (old : Option Text) (new : Text) (v : Contents) (s : S)
      → file_eq temporary pending ≡ false
      → file_eq temporary live ≡ false
      → file_eq live pending ≡ false
      → Half old new (v pending) (v live)
      → At laws v s
      → Ensures
          (λ _. Turned pending live (IsPromoted new) v)
          (Turned pending live (Half old new) v)
          (promote_file json disk pending live s)
  unfolding promote_file
  promote_file-Ensures pending live old new v s hp hl d (waiting e f) a =
      rw (look-eq laws pending v s hp a ∙ ap is_some e) (
        continue-Ensures _ (rename-At laws pending live v s hp a)
          (λ _ t b.
            Ensures-mono (fsync-At laws live (moved pending live v) t b)
              (λ _ t b. turned pending live new v t d e b)
              (λ t b. half old new pending live v t (turned pending live new v t d e b)))
          (λ t b. elim b [
            | inl x ↦ unturned pending live v t (waiting e f) x
            | inr x ↦ half old new pending live v t (turned pending live new v t d e x)
          ]))
  promote_file-Ensures pending live old new v s hp hl d (promoted e f) a =
      rw (look-eq laws pending v s hp a ∙ ap is_some e, look-eq laws live v s hl a ∙ ap is_some f)
        (returned (unturned pending live v s (e, f) a))

  pub same_half :
      {p p' l l' : Option Text} (old : Option Text) (new : Text)
      → p' ≡ p
      → l' ≡ l
      → Half old new p l
      → Half old new p' l'
  same_half old new e f (waiting g h) = waiting (e ∙ g) (f ∙ h)
  same_half old new e f (promoted g h) = promoted (e ∙ g) (f ∙ h)

  pub Recorded-as :
      (c : Change) (phase : PairingTxnPhase) (v w : Contents)
      → w pairing_transaction_state ≡ v pairing_transaction_state
      → Recorded json c phase v
      → Recorded json c phase w
  Recorded-as c phase v w e r = record { raw = r.raw; stored = e ∙ r.stored; reads = r.reads }

  pub vault-Midway :
      (c : Change) (v : Contents) (t : S)
      → Midway json c v
      → (x : Turned pending_vault_enc vault_enc (Half c.old_vault c.new_vault) v t)
      → Midway json c x.seen
  vault-Midway c v t m x = record {
    recorded =
        Recorded-as c phone_committed v x.seen (x.others pairing_transaction_state refl refl)
          m.recorded;
    vault = x.fact;
    pairing =
        same_half c.old_pairing c.new_pairing (x.others pending_pairing_state refl refl)
          (x.others pairing_state refl refl) m.pairing;
  }

  pub pairing-Midway :
      (c : Change) (v : Contents) (t : S)
      → Midway json c v
      → (x : Turned pending_pairing_state pairing_state (Half c.old_pairing c.new_pairing) v t)
      → Midway json c x.seen
  pairing-Midway c v t m x = record {
    recorded =
        Recorded-as c phone_committed v x.seen (x.others pairing_transaction_state refl refl)
          m.recorded;
    vault =
        same_half c.old_vault c.new_vault (x.others pending_vault_enc refl refl)
          (x.others vault_enc refl refl) m.vault;
    pairing = x.fact;
  }
