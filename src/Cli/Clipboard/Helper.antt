-- ===== src/Cli/Clipboard/Helper.antt =====
-- The helper that clears a password away: what it is sent, and what it does. Processes, standard
-- input and the clock are calls of `Host`.
use ferusa.Base.{
  ℕ, suc, ◌+◌, ◌*◌, Bool, false, ◌||◌, List, [], ◌∷◌, ◌++◌, Text, codes, text_eq, ltb,
  if◌then◌else◌, length, take, drop, from_utf8, Result, ok, err, ok_or, and_then,
}
use ferusa.Base.Action.{Action, pure, lift, ◌>>=◌, ◌>>◌}
use ferusa.Core.Wire.{to_le_bytes, from_le_bytes}
use ferusa.Cli.Clipboard.Command.{
  Chars, ClipboardError, too_large, missing_header, not_utf8, bad_timeout, parse_clipboard_command,
}
use ferusa.Cli.Clipboard.Expiry.{expiry_commands}

abbrev pub max_clear_timeout_secs : ℕ
max_clear_timeout_secs = 60 * 60

abbrev pub max_command_bytes : ℕ
max_command_bytes = 4096

abbrev pub max_password_bytes : ℕ
max_password_bytes = 1024 * 1024

unfoldable pub validate_clear_timeout : ℕ → Result ClipboardError (Unit {0})
validate_clear_timeout seconds =
    if ltb max_clear_timeout_secs seconds then err bad_timeout else ok tt

unfoldable pub helper_payload : Text → Text → Result ClipboardError Text
helper_payload password command =
    if ltb max_command_bytes (length command) || ltb max_password_bytes (length password)
    then err too_large
    else ok (to_le_bytes (length command) ++ (command ++ password))

-- What `helper_snapshot` makes of a command of UTF-8 bytes and of the bytes behind it.
unfoldable pub snapshot_of : Text → Text → Result ClipboardError (List Chars × Text)
snapshot_of command expected =
    if ltb max_password_bytes (length expected)
    then err too_large
    else and_then (parse_clipboard_command command)
        (λ argv. and_then (expiry_commands argv) (λ _. ok (argv, expected)))

unfoldable pub snapshot_body : ℕ → Text → Result ClipboardError (List Chars × Text)
unfolding snapshot_of
snapshot_body len body =
    if ltb max_command_bytes len
    then err too_large
    else if ltb (length body) len
    then err missing_header
    else and_then (ok_or (from_utf8 (take len body)) not_utf8)
        (λ command. snapshot_of command (drop len body))

unfoldable pub helper_snapshot : Text → Result ClipboardError (List Chars × Text)
unfolding snapshot_body
helper_snapshot (a ∷ b ∷ c ∷ d ∷ body) = snapshot_body (from_le_bytes a b c d) body
helper_snapshot _ = err missing_header

abbrev pub OnHost : Type 0 → Type 0 → Type 0
OnHost S A = Action S ClipboardError A

-- `read_stdin` reads at most so many bytes, `read_output` runs a command and reads at most so many
-- bytes of what it prints, `status` runs a command, `pipe` also writes to it.
pub record Host (S : Type 0) : Type 0 where
  pub read_stdin : ℕ → OnHost S Text
  pub sleep : ℕ → S → S
  pub read_output : List Chars → ℕ → OnHost S Text
  pub status : List Chars → OnHost S (Unit {0})
  pub pipe : Text → List Chars → OnHost S (Unit {0})

-- Whether `argv[0]` is wl-copy; `argv` is not empty where this is asked.
abbrev pub is_wl_copy : List Chars → Bool
is_wl_copy [] = false
is_wl_copy (program ∷ args) = text_eq program (codes "wl-copy")

module _ {S : Type 0} (host : Host S) where
  unfoldable pub read_clipboard_value : List Chars → ℕ → OnHost S Text
  read_clipboard_value argv limit = do
    commands ← lift (expiry_commands argv)
    host.read_output commands.0 limit

  unfoldable pub clear_clipboard : List Chars → OnHost S (Unit {0})
  clear_clipboard argv = do
    commands ← lift (expiry_commands argv)
    if is_wl_copy argv then host.status commands.1 else host.pipe [] commands.1

  unfoldable pub wait_for : ℕ → OnHost S (Unit {0})
  wait_for after_secs s = (ok tt, host.sleep after_secs s)

  -- From the payload on; `clipboard_is_still_owned` is the comparison.
  unfoldable pub clear_unchanged : List Chars → Text → OnHost S (Unit {0})
  unfolding read_clipboard_value clear_clipboard
  clear_unchanged argv expected = do
    current ← read_clipboard_value argv (suc (length expected))
    if text_eq current expected then clear_clipboard argv else pure tt

  unfoldable pub run_clear_helper : ℕ → OnHost S (Unit {0})
  unfolding wait_for clear_unchanged
  run_clear_helper after_secs = do
    lift (validate_clear_timeout after_secs)
    payload ← host.read_stdin (4 + max_command_bytes + max_password_bytes + 1)
    snapshot ← lift (helper_snapshot payload)
    wait_for after_secs
    clear_unchanged snapshot.0 snapshot.1
