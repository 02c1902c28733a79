-- ===== src/Cli/Clipboard/Running.antt =====
-- The helper clears what it was told to clear, and nothing else.
use ferusa.Base.{◌≡◌, ◌≢◌, List, [], ◌∷◌, Text, ◌⊎◌}
use ferusa.Cli.Clipboard.Command.{Chars}
use ferusa.Cli.Clipboard.Manual.{Tool, writer, Setting}
use ferusa.Cli.Clipboard.Helper.{Host}
use ferusa.Cli.Clipboard.Emptying.{HostLaws}

-- A copy command of the manual, and the clipboard that it writes to.
module _ {S : Type 0} (host : Host S) (laws : HostLaws host) (tool : Tool) (args : List Chars)
    (settings : List Setting) where
  open laws use {stdin}

  abbrev pub argv : List Chars
  argv = writer tool ∷ args

  abbrev pub contents : S → Text
  contents = laws.contents tool settings

  abbrev pub later : Text → Text
  later = laws.later tool settings

  -- The password is cleared away, and anything else is left.
  abbrev pub Cleared : Text → Text → S → Type 0
  Cleared found password t =
      ((found ≡ password) × (contents t ≡ [])) ⊎ ((found ≢ password) × (contents t ≡ found))

  abbrev pub Spared : Text → Text → S → Type 0
  Spared found password t = (contents t ≡ found) ⊎ ((found ≡ password) × (contents t ≡ []))
