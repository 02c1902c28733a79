-- ===== src/Cli/Clipboard/Command.antt =====
-- `parse_clipboard_command`. A command is the bytes of a string, its arguments are lists of
-- characters.
use ferusa.Base.{
  ℕ, zero, suc, ◌+◌, ◌-◌, ◌*◌, Bool, true, false, not, ◌&&◌, ◌||◌, List, [], ◌∷◌, Text, codes, ltb,
  leb, ◌==◌, if◌then◌else◌, text_eq, any, Result, ok, err,
}

abbrev pub Chars : Type 0
Chars = List ℕ

pub data ClipboardError : Type 0 where
  metacharacter empty_command not_bare unsupported_program : ClipboardError
  unsupported_option missing_value unsupported_value : ClipboardError
  too_large missing_header not_utf8 : ClipboardError
  bad_timeout process_failed : ClipboardError

-- What the first byte of a character beyond ASCII counts, and how many bytes follow it.
abbrev lead : ℕ → ℕ
lead b = if ltb b 224 then b - 192 else if ltb b 240 then b - 224 else b - 240

abbrev more : ℕ → ℕ
more b = if ltb b 224 then 1 else if ltb b 240 then 2 else 3

abbrev decoded : ℕ → ℕ → Text → Chars
decoded acc n [] = []
decoded acc zero (b ∷ t) = elim (ltb b 128) [
  | true ↦ b ∷ decoded 0 0 t
  | false ↦ decoded (lead b) (more b) t
]
decoded acc (suc zero) (b ∷ t) = (acc * 64 + (b - 128)) ∷ decoded 0 0 t
decoded acc (suc (suc n)) (b ∷ t) = decoded (acc * 64 + (b - 128)) (suc n) t

-- `str::chars`, of bytes that are UTF-8.
abbrev pub chars : Text → Chars
chars t = decoded 0 0 t

-- `char::is_control` and `char::is_whitespace`.
unfoldable pub is_control : ℕ → Bool
is_control c = ltb c 32 || leb 127 c && ltb c 160

unfoldable pub is_whitespace : ℕ → Bool
is_whitespace c =
    leb 9 c && leb c 13
    || c == 32
    || c == 133
    || c == 160
    || c == 5760
    || leb 8192 c && leb c 8202
    || c == 8232
    || c == 8233
    || c == 8239
    || c == 8287
    || c == 12288

abbrev pub is_empty : Chars → Bool
is_empty [] = true
is_empty (c ∷ cs) = false

abbrev pub trim_start : Chars → Chars
trim_start [] = []
trim_start (c ∷ cs) = elim (is_whitespace c) [ true ↦ trim_start cs | false ↦ c ∷ cs ]

abbrev pub before_space : ℕ → Chars → Chars
before_space c [] = if is_whitespace c then [] else c ∷ []
before_space c (d ∷ cs) = c ∷ d ∷ cs

abbrev pub trim_end : Chars → Chars
trim_end [] = []
trim_end (c ∷ cs) = before_space c (trim_end cs)

abbrev pub trim : Chars → Chars
trim cs = trim_end (trim_start cs)

abbrev pub word : Chars → List Chars → List Chars
word [] ws = ws
word (c ∷ cs) ws = (c ∷ cs) ∷ ws

-- The characters up to the first space, and the words after it.
abbrev pub cut : Chars → Chars × List Chars
cut [] = ([], [])
cut (c ∷ cs) = let (w, ws) = cut cs in if is_whitespace c then ([], word w ws) else (c ∷ w, ws)

abbrev pub split_whitespace : Chars → List Chars
split_whitespace cs = let (w, ws) = cut cs in word w ws

abbrev pub allowed_clipboard_programs : List Text
allowed_clipboard_programs =
    codes "wl-copy"
    ∷ codes "xclip"
    ∷ codes "xsel"
    ∷ codes "pbcopy"
    ∷ codes "clip"
    ∷ codes "clip.exe"
    ∷ codes "termux-clipboard-set"
    ∷ []

abbrev shell_characters : Text
shell_characters = codes ";&|<>`$()"

unfoldable pub is_refused : ℕ → Bool
unfolding is_control
is_refused c = is_control c || any (λ s. s == c) shell_characters

-- `argv` is not empty: of no word but its first can this be asked.
unfoldable pub checked_program : List Chars → Result ClipboardError (List Chars)
checked_program [] = err empty_command
checked_program (program ∷ args) =
    if any (λ c. c == 47 || c == 92) program
    then err not_bare
    else if not (any (text_eq program) allowed_clipboard_programs)
    then err unsupported_program
    else ok (program ∷ args)

unfoldable pub parse_clipboard_command : Text → Result ClipboardError (List Chars)
unfolding checked_program is_refused
parse_clipboard_command command =
    if any is_refused (chars command)
    then err metacharacter
    else if is_empty (trim (chars command))
    then err empty_command
    else checked_program (split_whitespace (trim (chars command)))
