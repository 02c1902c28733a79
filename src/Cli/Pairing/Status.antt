-- ===== src/Cli/Pairing/Status.antt =====
-- `pairing.json`: how it is parsed, and what `Paths::pairing_status` says of the files. serde_json,
-- hex and iroh's check of a node id are parameters. Only ASCII white space is trimmed here.
use ferusa.Base.{
  is_ok, ◌↔◌, ℕ, ◌≡◌, refl, Bool, true, false, not, ◌&&◌, ◌||◌, Option, some, [], ◌∷◌, Text, all,
  length, Result, ok, err, ok_or, and_then, if◌then◌else◌, ◌==◌, leb, arith, text_eq,
}
use ferusa.Cli.Twofa.{PairingData}
use ferusa.Cli.Pairing.Files.{
  pairing_state, pairing_transaction_state, pending_pairing_state, phone_id, hmac_key, FileError,
  Disk,
}

pub record PairingFile : Type 0 where
  pub version : ℕ
  pub pairing_id : ℕ
  pub phone_node_id : Text
  pub approval_public_key_der : Text
  pub created_at_ms : ℕ

pub record PairingCodec : Type 0 where
  pub from_json : Text → Option PairingFile
  pub hex_encode : Text → Text
  pub hex_decode : Text → Option Text
  pub is_node_id : Text → Bool

-- `PairingReadError`: of the phone's id, or of the rest.
pub data PairingReadError : Type 0 where
  phone state : PairingReadError

pub data PairingStatus : Type 0 where
  ready pending missing_phone_id invalid_phone_id invalid_pairing : PairingStatus

abbrev pub is_space : ℕ → Bool
is_space c = c == 32 || (leb 9 c && leb c 13)

unfoldable pub trim_start : Text → Text
trim_start [] = []
trim_start (c ∷ s) = let rest = trim_start s in if is_space c then rest else c ∷ s

abbrev pub end_at : ℕ → Text → Text
end_at c [] = if is_space c then [] else c ∷ []
end_at c (d ∷ s) = c ∷ d ∷ s

unfoldable pub trim_end : Text → Text
trim_end [] = []
trim_end (c ∷ s) = end_at c (trim_end s)

-- `str::trim`.
unfoldable pub trim : Text → Text
unfolding trim_start trim_end
trim s = trim_end (trim_start s)

unfoldable pub checked_node_id : PairingCodec → Text → Result PairingReadError Text
checked_node_id codec bytes =
    if not (length bytes == 32)
    then err phone
    else if codec.is_node_id bytes
    then ok bytes
    else err phone

unfoldable pub parse_pairing_file : PairingCodec → PairingFile → Result PairingReadError PairingData
unfolding checked_node_id trim
parse_pairing_file codec file =
    if not (file.version == 3)
    then err state
    else and_then (ok_or (codec.hex_decode (trim file.phone_node_id)) phone) λ phone_bytes.
      and_then (checked_node_id codec phone_bytes) λ phone_node_id.
        and_then (ok_or (codec.hex_decode (trim file.approval_public_key_der)) state) λ key.
          if text_eq key []
          then err state
          else ok (record {
            pairing_id = file.pairing_id;
            phone_node_id = phone_node_id;
            approval_public_key_der = key;
            created_at_ms = file.created_at_ms;
          })

-- The file that `write_pairing_data` and `write_pending_pairing_data` print.
unfoldable pub pairing_file : PairingCodec → PairingData → PairingFile
pairing_file codec data_ = record {
  version = 3;
  pairing_id = data_.pairing_id;
  phone_node_id = codec.hex_encode data_.phone_node_id;
  approval_public_key_der = codec.hex_encode data_.approval_public_key_der;
  created_at_ms = data_.created_at_ms;
}

abbrev pub parsed_text : PairingCodec → Text → Result PairingReadError PairingData
parsed_text codec raw = and_then (ok_or (codec.from_json raw) state) (parse_pairing_file codec)

-- `read_pairing_data_from_state` on the outcome of the read.
unfoldable pub read_pairing_data :
    PairingCodec → Result FileError Text → Result PairingReadError PairingData
read_pairing_data codec (err e) = err state
read_pairing_data codec (ok raw) = parsed_text codec raw

abbrev pub status_of : Result PairingReadError PairingData → PairingStatus
status_of (ok d) = ready
status_of (err phone) = invalid_phone_id
status_of (err state) = invalid_pairing

unfoldable pub pairing_status : {S : Type 0} → PairingCodec → Disk S → S → PairingStatus
unfolding read_pairing_data
pairing_status codec disk s =
    if disk.exists pending_pairing_state s
    then pending
    else if disk.exists pairing_transaction_state s
    then pending
    else if disk.exists pairing_state s
    then status_of (read_pairing_data codec (disk.read pairing_state s).0)
    else if disk.exists phone_id s || disk.exists hmac_key s
    then invalid_pairing
    else missing_phone_id

trim_start_same : (s : Text) → all (λ c. not (is_space c)) s ≡ true → trim_start s ≡ s
unfolding trim_start
trim_start_same [] h = refl
trim_start_same (c ∷ s) h = ground arith

end_same : (c : ℕ) (s : Text) → is_space c ≡ false → end_at c s ≡ c ∷ s
end_same c [] h = rw h refl
end_same c (d ∷ s) h = refl

trim_end_same : (s : Text) → all (λ c. not (is_space c)) s ≡ true → trim_end s ≡ s
unfolding trim_end
trim_end_same [] h = refl
trim_end_same (c ∷ s) h = rw (trim_end_same s (ground arith)) (end_same c s (ground arith))

trim_same : (s : Text) → all (λ c. not (is_space c)) s ≡ true → trim s ≡ s
unfolding trim
trim_same s h = rw (trim_start_same s h) (trim_end_same s h)

-- What is needed of the parameters: hex digits contain no white space, and are decoded again.
pub record CodecLaws (codec : PairingCodec) : Type 0 where
  pub printed : (s : Text) → all (λ c. not (is_space c)) (codec.hex_encode s) ≡ true
  pub decode-encode : (s : Text) → codec.hex_decode (codec.hex_encode s) ≡ some s

-- A pairing with a valid node id of 32 bytes and a key that is not empty is read back from the file
-- that is written for it.
pub parse-pairing_file :
    (codec : PairingCodec) (laws : CodecLaws codec) (d : PairingData)
    → length d.phone_node_id ≡ 32
    → codec.is_node_id d.phone_node_id ≡ true
    → text_eq d.approval_public_key_der [] ≡ false
    → parse_pairing_file codec (pairing_file codec d) ≡ ok d
unfolding parse_pairing_file pairing_file checked_node_id
parse-pairing_file codec laws d h k l =
    rw
      (
        trim_same (codec.hex_encode d.phone_node_id) (laws.printed d.phone_node_id),
        trim_same (codec.hex_encode d.approval_public_key_der)
            (laws.printed d.approval_public_key_der),
        laws.decode-encode d.phone_node_id,
        laws.decode-encode d.approval_public_key_der,
        h,
        k,
        l,
      )
      refl

ready_status : (r : Result PairingReadError PairingData) → (status_of r ≡ ready) ↔ (is_ok r ≡ true)
ready_status (ok d) = (λ h. refl, λ h. refl)
ready_status (err phone) = (λ h. ground arith, λ h. ground arith)
ready_status (err state) = (λ h. ground arith, λ h. ground arith)

ready_cases :
    (a b c d : Bool) (r : Result PairingReadError PairingData)
    → ((if a
          then pending
          else if b
          then pending
          else if c
          then status_of r
          else if d
          then invalid_pairing
          else missing_phone_id)
        ≡ ready)
      ↔ ((a ≡ false) × (b ≡ false) × (c ≡ true) × (is_ok r ≡ true))
ready_cases true b c d r = (λ h. ground arith, λ h. ground arith)
ready_cases false true c d r = (λ h. ground arith, λ h. ground arith)
ready_cases false false true d r =
    (λ h. (refl, refl, refl, (ready_status r).0 h), λ h. (ready_status r).1 h.3)
ready_cases false false false true r = (λ h. ground arith, λ h. ground arith)
ready_cases false false false false r = (λ h. ground arith, λ h. ground arith)

-- A desktop is paired exactly if no change of pairing is under way and `pairing.json` is there and
-- can be read and parsed.
pub pairing_status-ready :
    {S : Type 0} (codec : PairingCodec) (disk : Disk S) (s : S)
    → (pairing_status codec disk s ≡ ready) ↔ (
        (disk.exists pending_pairing_state s ≡ false)
        × (disk.exists pairing_transaction_state s ≡ false)
        × (disk.exists pairing_state s ≡ true)
        × (is_ok (read_pairing_data codec (disk.read pairing_state s).0) ≡ true))
unfolding pairing_status
pairing_status-ready codec disk s =
    ready_cases (disk.exists pending_pairing_state s) (disk.exists pairing_transaction_state s)
      (disk.exists pairing_state s) (disk.exists phone_id s || disk.exists hmac_key s)
      (read_pairing_data codec (disk.read pairing_state s).0)
