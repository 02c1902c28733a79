-- ===== src/Cli/Clipboard/Tests.antt =====
-- A password that is copied with xclip and cleared away.
use ferusa.Base.{
  ◌≡◌, ap, text_eq, if◌then◌else◌, refl, List, [], ◌∷◌, ◌++◌, Text, codes, take, is_utf8, true, ok,
  err,
}
use ferusa.Base.Action.{returned}
use ferusa.Core.Wire.{to_le_bytes, from_le_bytes}
use ferusa.Cli.Clipboard.Command.{
  Chars, metacharacter, parse_clipboard_command, checked_program, is_refused, is_control,
  is_whitespace,
}
use ferusa.Cli.Clipboard.Expiry.{
  expiry_commands, targets, tools, copy_option, wl_copy_option, xclip_option,
}
use ferusa.Cli.Clipboard.Helper.{
  helper_payload, helper_snapshot, Host, run_clear_helper, validate_clear_timeout, snapshot_body,
  snapshot_of, read_clipboard_value, clear_clipboard, wait_for, clear_unchanged,
}
use ferusa.Cli.Clipboard.Clearing.{IsClearable, snapshot-payload}
use ferusa.Cli.Clipboard.Emptying.{HostLaws}
use ferusa.Cli.Clipboard.Manual.{
  Tool, wl_clipboard, xclip, xsel, pasteboard, termux, writer, printing,
}

abbrev command : Text
command = codes "xclip -selection clipboard"

abbrev argv : List Chars
argv = codes "xclip" ∷ codes "-selection" ∷ codes "clipboard" ∷ []

abbrev payload : Text
payload = 26 ∷ 0 ∷ 0 ∷ 0 ∷ command ++ codes "secret"

command_parses : parse_clipboard_command command ≡ ok argv
unfolding parse_clipboard_command checked_program is_refused is_control is_whitespace
command_parses = refl

command_utf8 : is_utf8 command ≡ true
unfolding is_utf8
command_utf8 = refl

abbrev commands : List Chars × List Chars
commands = (
  codes "xclip" ∷ codes "-selection" ∷ codes "clipboard" ∷ codes "-o" ∷ [],
  codes "xclip" ∷ codes "-selection" ∷ codes "clipboard" ∷ [],
)

command_expires : expiry_commands argv ≡ ok commands
unfolding expiry_commands targets tools copy_option xclip_option
command_expires = refl

clearable : IsClearable command argv
clearable = record {
  utf8 = command_utf8;
  parses = command_parses;
  commands = commands;
  expires = command_expires;
}

sends : helper_payload (codes "secret") command ≡ ok payload
unfolding helper_payload to_le_bytes
sends = refl

snapshot-payload_example : helper_snapshot payload ≡ ok (argv, codes "secret")
snapshot-payload_example = snapshot-payload (codes "secret") command payload argv clearable sends

-- A clipboard for each program, whatever its options, and what waits on standard input.
record Screen : Type 0 where
  wayland : Text
  by_xclip : Text
  by_xsel : Text
  board : Text
  android : Text
  input : Text

abbrev held : Tool → Screen → Text
held wl_clipboard s = s.wayland
held xclip s = s.by_xclip
held xsel s = s.by_xsel
held pasteboard s = s.board
held termux s = s.android

-- A command that sets a clipboard.
abbrev set : Chars → Text → Screen → Screen
set program text s =
    if text_eq program (codes "wl-copy")
    then record s { wayland = text }
    else if text_eq program (codes "xclip")
    then record s { by_xclip = text }
    else if text_eq program (codes "xsel")
    then record s { by_xsel = text }
    else if text_eq program (codes "pbcopy")
    then record s { board = text }
    else if text_eq program (codes "termux-clipboard-set")
    then record s { android = text }
    else s

abbrev shown : Chars → Screen → Text
shown program s =
    if text_eq program (codes "wl-paste")
    then s.wayland
    else if text_eq program (codes "xclip")
    then s.by_xclip
    else if text_eq program (codes "xsel")
    then s.by_xsel
    else if text_eq program (codes "pbpaste")
    then s.board
    else if text_eq program (codes "termux-clipboard-get")
    then s.android
    else []

abbrev program_of : List Chars → Chars
program_of [] = []
program_of (program ∷ args) = program

abbrev screen : Host Screen
screen = record {
  read_stdin = λ limit s. (ok (take limit s.input), s);
  sleep = λ n s. s;
  read_output = λ c limit s. (ok (take limit (shown (program_of c) s)), s);
  status = λ c s. (ok tt, set (program_of c) [] s);
  pipe = λ text c s. (ok tt, set (program_of c) text s);
}

shown-held :
    (tool : Tool) (args : List Chars) (s : Screen)
    → shown (program_of (printing tool args)) s ≡ held tool s
shown-held wl_clipboard args s = refl
shown-held xclip args s = refl
shown-held xsel args s = refl
shown-held pasteboard args s = refl
shown-held termux args s = refl

held-set : (tool : Tool) (s : Screen) → held tool (set (writer tool) [] s) ≡ []
held-set wl_clipboard s = refl
held-set xclip s = refl
held-set xsel s = refl
held-set pasteboard s = refl
held-set termux s = refl

abbrev screen_laws : HostLaws screen
screen_laws = record {
  contents = λ tool settings s. held tool s;
  stdin = λ s. s.input;
  later = λ tool settings t. t;
  stdin_law = λ tool settings limit s. returned (refl, refl);
  sleep_law = λ tool settings n s. refl;
  printing_law =
      λ tool args settings c limit s. returned (ap (take limit) (shown-held tool args s), refl);
  clear_law = λ args settings c s. returned refl;
  pipe_law = λ tool args settings c s. returned (held-set tool s);
}

abbrev copied : Screen
copied = record {
  wayland = codes "else";
  by_xclip = codes "secret";
  by_xsel = [];
  board = [];
  android = [];
  input = payload;
}

-- A longer text that starts with the password is left alone.
left_alone :
    run_clear_helper screen 30 (record copied { by_xclip = codes "secrets" })
    ≡ (ok tt, record copied { by_xclip = codes "secrets" })
unfolding run_clear_helper validate_clear_timeout helper_snapshot snapshot_body snapshot_of
    from_le_bytes is_utf8 parse_clipboard_command checked_program is_refused is_control
    is_whitespace expiry_commands targets tools copy_option xclip_option read_clipboard_value
    clear_clipboard wait_for clear_unchanged
left_alone = refl

pipes_refused : parse_clipboard_command (codes "xclip | sh") ≡ err metacharacter
unfolding parse_clipboard_command is_refused is_control
pipes_refused = refl

seat_kept :
    expiry_commands (codes "wl-copy" ∷ codes "-p" ∷ codes "-s" ∷ codes "seat0" ∷ [])
    ≡ ok (
      codes "wl-paste"
          ∷ codes "--primary"
          ∷ codes "--seat"
          ∷ codes "seat0"
          ∷ codes "--no-newline"
          ∷ [],
      codes "wl-copy" ∷ codes "--primary" ∷ codes "--seat" ∷ codes "seat0" ∷ codes "--clear" ∷ [],
    )
unfolding expiry_commands targets tools copy_option wl_copy_option
seat_kept = refl
