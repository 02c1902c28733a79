-- ===== src/Cli/Clipboard/Plain.antt =====
-- No argument of a command that is accepted can be read otherwise by a shell.
use ferusa.Base.{ℕ, ◌≡◌, Bool, true, not, ◌&&◌, List, ◌∷◌, text_eq, any, all}
use ferusa.Cli.Clipboard.Command.{
  Chars, is_whitespace, is_empty, allowed_clipboard_programs, is_refused,
}

abbrev pub is_plain : ℕ → Bool
is_plain c = not (is_refused c) && not (is_whitespace c)

-- An argument has a character, and none that is a space, a control character or special to a shell.
abbrev pub is_argument : Chars → Bool
is_argument w = not (is_empty w) && all is_plain w

-- The arguments of an accepted command, the program among those that are allowed.
pub record IsAccepted (argv : List Chars) : Type 0 where
  pub arguments : all is_argument argv ≡ true
  pub program : Chars
  pub rest : List Chars
  pub split : argv ≡ program ∷ rest
  pub known : any (text_eq program) allowed_clipboard_programs ≡ true
