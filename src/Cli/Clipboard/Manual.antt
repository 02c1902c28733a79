-- ===== src/Cli/Clipboard/Manual.antt =====
-- What the manuals of the clipboard programs say, which a copy command may name: which clipboard the
-- options choose, and the commands that print and empty that clipboard. The programs are not part
-- of the repository.
use ferusa.Base.{ℕ, List, [], ◌∷◌, ◌++◌, codes}
use ferusa.Cli.Clipboard.Command.{Chars}

pub data Tool : Type 0 where
  wl_clipboard xclip xsel pasteboard termux : Tool

abbrev pub writer : Tool → Chars
writer wl_clipboard = codes "wl-copy"
writer xclip = codes "xclip"
writer xsel = codes "xsel"
writer pasteboard = codes "pbcopy"
writer termux = codes "termux-clipboard-set"

-- What an option chooses.
pub data Setting : Type 0 where
  selection display seat board : Chars → Setting

abbrev pub primary : List Setting
primary = selection (codes "primary") ∷ []

abbrev pub secondary : List Setting
secondary = selection (codes "secondary") ∷ []

abbrev pub clipboard : List Setting
clipboard = selection (codes "clipboard") ∷ []

-- The options that stand alone, and what they choose. Those for reading from standard input choose
-- nothing: a copy command does so anyway.
pub data Flag : Tool → Chars → List Setting → Type 0 where
  wl_p : Flag wl_clipboard (codes "-p") primary
  wl_primary : Flag wl_clipboard (codes "--primary") primary
  wl_seat_is :
      (b : ℕ) (x : Chars) → Flag wl_clipboard (codes "--seat=" ++ (b ∷ x)) (seat (b ∷ x) ∷ [])
  xclip_i : Flag xclip (codes "-i") []
  xclip_in : Flag xclip (codes "-in") []
  xsel_i : Flag xsel (codes "-i") []
  xsel_input : Flag xsel (codes "--input") []
  xsel_p : Flag xsel (codes "-p") primary
  xsel_primary : Flag xsel (codes "--primary") primary
  xsel_s : Flag xsel (codes "-s") secondary
  xsel_secondary : Flag xsel (codes "--secondary") secondary
  xsel_b : Flag xsel (codes "-b") clipboard
  xsel_clipboard : Flag xsel (codes "--clipboard") clipboard

-- The options with a value behind them, the value, and what they choose.
pub data Valued : Tool → Chars → Chars → List Setting → Type 0 where
  wl_s : (x : Chars) → Valued wl_clipboard (codes "-s") x (seat x ∷ [])
  wl_seat : (x : Chars) → Valued wl_clipboard (codes "--seat") x (seat x ∷ [])
  xclip_primary : Valued xclip (codes "-selection") (codes "primary") primary
  xclip_secondary : Valued xclip (codes "-selection") (codes "secondary") secondary
  xclip_clipboard : Valued xclip (codes "-selection") (codes "clipboard") clipboard
  xclip_display : (x : Chars) → Valued xclip (codes "-display") x (display x ∷ [])
  xsel_display : (x : Chars) → Valued xsel (codes "--display") x (display x ∷ [])
  board_general :
      Valued pasteboard (codes "-pboard") (codes "general") (board (codes "general") ∷ [])
  board_ruler : Valued pasteboard (codes "-pboard") (codes "ruler") (board (codes "ruler") ∷ [])
  board_find : Valued pasteboard (codes "-pboard") (codes "find") (board (codes "find") ∷ [])
  board_font : Valued pasteboard (codes "-pboard") (codes "font") (board (codes "font") ∷ [])

-- The arguments choose these settings, from left to right.
pub data Chooses (tool : Tool) : List Chars → List Setting → Type 0 where
  no_more : Chooses tool [] []
  flag :
      {arg : Chars} {args : List Chars} {o settings : List Setting}
      → Flag tool arg o
      → Chooses tool args settings
      → Chooses tool (arg ∷ args) (o ++ settings)
  valued :
      {arg value : Chars} {args : List Chars} {o settings : List Setting}
      → Valued tool arg value o
      → Chooses tool args settings
      → Chooses tool (arg ∷ value ∷ args) (o ++ settings)

-- Such a command prints the clipboard that the arguments choose.
abbrev pub printing : Tool → List Chars → List Chars
printing wl_clipboard args = codes "wl-paste" ∷ args ++ (codes "--no-newline" ∷ [])
printing xclip args = codes "xclip" ∷ args ++ (codes "-o" ∷ [])
printing xsel args = codes "xsel" ∷ args ++ (codes "--output" ∷ [])
printing pasteboard args = codes "pbpaste" ∷ args
printing termux args = codes "termux-clipboard-get" ∷ args

-- With nothing to read from standard input, such a command empties the clipboard that the arguments
-- choose. That of wl-copy does not read standard input at all.
abbrev pub emptying : Tool → List Chars → List Chars
emptying wl_clipboard args = codes "wl-copy" ∷ args ++ (codes "--clear" ∷ [])
emptying tool args = writer tool ∷ args
