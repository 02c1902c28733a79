-- ===== src/Core/Message.antt =====
-- The messages of auth.rs and transport.rs, and the vault actions of types.rs. A UUID and a u16 are
-- numbers, a byte array is the list of its bytes.
use ferusa.Base.{◌==◌, ℕ, Bool, Option, Text}

pub data VaultAction : Type 0 where
  unlock list read create update delete passwd pair : VaultAction

pub record AuthRequest : Type 0 where
  pub pairing_id : ℕ
  pub request_id : ℕ
  pub correlation_code : ℕ
  pub action : VaultAction
  pub entry_title : Option Text
  pub unlock_share_requested : Bool
  pub timestamp : ℕ

pub record AuthResponse : Type 0 where
  pub pairing_id : ℕ
  pub request_id : ℕ
  pub correlation_code : ℕ
  pub action : VaultAction
  pub approved : Bool
  pub unlock_share : Option Text
  pub timestamp : ℕ
  pub signature : Text

pub record PairingHello : Type 0 where
  pub pairing_id : ℕ
  pub approval_public_key_der : Text
  pub phone_share : Text
  pub verification_code : ℕ

-- `PairingPrepared`, `PairingCommit`, `PairingCommitAck`, `PairingActivate` and
-- `PairingActivateAck` hold a pairing id and nothing else.
pub data FerusaMessage : Type 0 where
  ping : FerusaMessage
  pong : Option Text → FerusaMessage
  request : AuthRequest → FerusaMessage
  response : AuthResponse → FerusaMessage
  pairing_hello : PairingHello → FerusaMessage
  pairing_prepared : ℕ → FerusaMessage
  pairing_ready : ℕ → Text → FerusaMessage
  pairing_commit pairing_commit_ack pairing_activate pairing_activate_ack : ℕ → FerusaMessage

abbrev pub discriminant : VaultAction → ℕ
discriminant unlock = 0
discriminant list = 1
discriminant read = 2
discriminant create = 3
discriminant update = 4
discriminant delete = 5
discriminant passwd = 6
discriminant pair = 7

-- The derived `==`.
abbrev pub action_eq : VaultAction → VaultAction → Bool
action_eq a b = discriminant a == discriminant b
