-- ===== src/Cli/Clipboard/Expiry.antt =====
-- `expiry_commands`: the commands that read and clear what a copy command has written.
use ferusa.Base.{
  Bool, true, List, [], ◌∷◌, ◌++◌, Text, codes, text_eq, starts_with, if◌then◌else◌, any, Result,
  ok, err, and_then,
}
use ferusa.Cli.Clipboard.Command.{
  Chars, ClipboardError, empty_command, unsupported_option, missing_value, unsupported_value,
  unsupported_program,
}

-- What an option of a copy command adds to the target: itself, or itself with the argument after
-- it, which must meet a test.
pub data CopyOption : Type 0 where
  keeps : List Chars → CopyOption
  with_value : Chars → (Chars → Bool) → CopyOption
  empty_value unsupported : CopyOption

abbrev one_of : List Text → Chars → Bool
one_of names arg = any (λ n. text_eq arg n) names

abbrev always : Chars → Bool
always arg = true

unfoldable pub wl_copy_option : Chars → CopyOption
wl_copy_option arg =
    if one_of (codes "-p" ∷ codes "--primary" ∷ []) arg
    then keeps (codes "--primary" ∷ [])
    else if one_of (codes "-s" ∷ codes "--seat" ∷ []) arg
    then with_value (codes "--seat") always
    else if starts_with arg (codes "--seat=")
    then if text_eq arg (codes "--seat=") then empty_value else keeps (arg ∷ [])
    else unsupported

unfoldable pub xclip_option : Chars → CopyOption
xclip_option arg =
    if text_eq arg (codes "-selection")
    then with_value arg (one_of (codes "primary" ∷ codes "secondary" ∷ codes "clipboard" ∷ []))
    else if text_eq arg (codes "-display")
    then with_value arg always
    else if one_of (codes "-i" ∷ codes "-in" ∷ []) arg
    then keeps []
    else unsupported

unfoldable pub xsel_option : Chars → CopyOption
xsel_option arg =
    if one_of (codes "-i" ∷ codes "--input" ∷ []) arg
    then keeps []
    else if one_of
        (codes "-p"
          ∷ codes "--primary"
          ∷ codes "-s"
          ∷ codes "--secondary"
          ∷ codes "-b"
          ∷ codes "--clipboard"
          ∷ [])
        arg
    then keeps (arg ∷ [])
    else if text_eq arg (codes "--display")
    then with_value arg always
    else unsupported

unfoldable pub pbcopy_option : Chars → CopyOption
pbcopy_option arg =
    if text_eq arg (codes "-pboard")
    then with_value arg
        (one_of (codes "general" ∷ codes "ruler" ∷ codes "find" ∷ codes "font" ∷ []))
    else unsupported

unfoldable pub copy_option : Chars → Chars → CopyOption
unfolding wl_copy_option xclip_option xsel_option pbcopy_option
copy_option program arg =
    if text_eq program (codes "wl-copy")
    then wl_copy_option arg
    else if text_eq program (codes "xclip")
    then xclip_option arg
    else if text_eq program (codes "xsel")
    then xsel_option arg
    else if text_eq program (codes "pbcopy")
    then pbcopy_option arg
    else unsupported

abbrev Targets : Type 0
Targets = Result ClipboardError (List Chars)

-- An option that is the last argument.
abbrev last_option : CopyOption → Targets
last_option (keeps args) = ok args
last_option (with_value name test) = err missing_value
last_option empty_value = err missing_value
last_option unsupported = err unsupported_option

-- An option with the argument after it, what follows the option and what follows that argument.
abbrev next_option : CopyOption → Chars → Targets → Targets → Targets
next_option (keeps args) value rest after = and_then rest (λ l. ok (args ++ l))
next_option (with_value name test) value rest after =
    if test value then and_then after (λ l. ok (name ∷ value ∷ l)) else err unsupported_value
next_option empty_value value rest after = err missing_value
next_option unsupported value rest after = err unsupported_option

-- The `while` loop over the arguments.
unfoldable pub targets : Chars → List Chars → Targets
unfolding copy_option
targets program [] = ok []
targets program (arg ∷ []) = last_option (copy_option program arg)
targets program (arg ∷ value ∷ rest) =
    next_option (copy_option program arg) value (targets program (value ∷ rest))
      (targets program rest)

-- The reader, and the last arguments for reading and for clearing.
pub record Tools : Type 0 where
  pub reader : Chars
  pub read_option : List Chars
  pub clear_option : List Chars

unfoldable pub tools : Chars → Result ClipboardError Tools
tools program =
    if text_eq program (codes "wl-copy")
    then ok (record {
      reader = codes "wl-paste";
      read_option = codes "--no-newline" ∷ [];
      clear_option = codes "--clear" ∷ [];
    })
    else if text_eq program (codes "xclip")
    then ok (record { reader = codes "xclip"; read_option = codes "-o" ∷ []; clear_option = [] })
    else if text_eq program (codes "xsel")
    then ok
        (record { reader = codes "xsel"; read_option = codes "--output" ∷ []; clear_option = [] })
    else if text_eq program (codes "pbcopy")
    then ok (record { reader = codes "pbpaste"; read_option = []; clear_option = [] })
    else if text_eq program (codes "termux-clipboard-set")
    then ok (record { reader = codes "termux-clipboard-get"; read_option = []; clear_option = [] })
    else err unsupported_program

unfoldable pub expiry_commands : List Chars → Result ClipboardError (List Chars × List Chars)
unfolding targets tools
expiry_commands [] = err empty_command
expiry_commands (program ∷ args) = and_then (targets program args) (λ target.
    and_then (tools program)
      (λ t. ok (t.reader ∷ target ++ t.read_option, program ∷ target ++ t.clear_option)))
