-- ===== src/Cli/Clipboard/Clearing.antt =====
-- The helper is told what to clear.
use ferusa.Base.{
  not_ltb, ℕ, ◌+◌, ◌≡◌, ◌≤◌, refl, ap, true, ◌||◌, List, ◌++◌, Text, ltb, length, length-append,
  take-append, drop-append, is_utf8, ok, inl, inr, Bool-cases, arith,
}
use ferusa.Core.Wire.{to_le_bytes}
use ferusa.Core.Wire.Framing.{le_bytes}
use ferusa.Cli.Clipboard.Command.{Chars, parse_clipboard_command}
use ferusa.Cli.Clipboard.Expiry.{expiry_commands}
use ferusa.Cli.Clipboard.Helper.{
  max_command_bytes, max_password_bytes, helper_payload, snapshot_of, snapshot_body,
  helper_snapshot,
}

-- A command that can be written to the settings and whose effect can be undone.
pub record IsClearable (command : Text) (argv : List Chars) : Type 0 where
  pub utf8 : is_utf8 command ≡ true
  pub parses : parse_clipboard_command command ≡ ok argv
  pub commands : List Chars × List Chars
  pub expires : expiry_commands argv ≡ ok commands

pub record Payload (password command payload : Text) : Type 0 where
  pub short_command : length command ≤ max_command_bytes
  pub short_password : length password ≤ max_password_bytes
  pub bytes : payload ≡ to_le_bytes (length command) ++ (command ++ password)

pub helper_payload_lem :
    (password command payload : Text)
    → helper_payload password command ≡ ok payload
    → Payload password command payload
unfolding helper_payload
helper_payload_lem password command payload h =
    elim (Bool-cases
      (ltb max_command_bytes (length command) || ltb max_password_bytes (length password))) [
        | inl e ↦ absurd (ground arith)
        | inr e ↦ record {
          short_command = ground arith;
          short_password = ground arith;
          bytes = ground arith;
        }
      ]

length-framed : (n : ℕ) (t : Text) → length (to_le_bytes n ++ t) ≡ 4 + length t
unfolding to_le_bytes
length-framed n t = omega arith

-- The helper reads enough of its input for every payload.
pub length-payload :
    (password command payload : Text)
    → helper_payload password command ≡ ok payload
    → length payload ≤ 4 + max_command_bytes + max_password_bytes + 1
length-payload password command payload h =
    let p = helper_payload_lem password command payload h in
    omega (
      arith,
      ap length p.bytes,
      length-framed (length command) (command ++ password),
      length-append command password,
      p.short_command,
      p.short_password,
    )

body-snapshot :
    (password command : Text) (argv : List Chars)
    → length command ≤ max_command_bytes
    → length password ≤ max_password_bytes
    → IsClearable command argv
    → snapshot_body (length command) (command ++ password) ≡ ok (argv, password)
unfolding snapshot_body snapshot_of
body-snapshot password command argv h k c =
    rw
      (
        not_ltb (length command) max_command_bytes h,
        not_ltb (length command) (length (command ++ password))
            (omega (arith, length-append command password)),
        take-append command password,
        c.utf8,
        drop-append command password,
        not_ltb (length password) max_password_bytes k,
        c.parses,
        c.expires,
      )
      refl

-- What the helper is sent for a command that can be undone, it reads as the command's arguments and
-- the password.
pub snapshot-payload :
    (password command payload : Text) (argv : List Chars)
    → IsClearable command argv
    → helper_payload password command ≡ ok payload
    → helper_snapshot payload ≡ ok (argv, password)
unfolding helper_snapshot to_le_bytes
snapshot-payload password command payload argv c h =
    let p = helper_payload_lem password command payload h in
    rw (p.bytes, le_bytes (length command) (omega (arith, p.short_command)))
      (body-snapshot password command argv p.short_command p.short_password c)
