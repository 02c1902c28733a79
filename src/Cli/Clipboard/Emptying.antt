-- ===== src/Cli/Clipboard/Emptying.antt =====
-- What is relied on of a host of the helper, and that the helper empties the clipboard of each
-- program.
use ferusa.Base.{ℕ, ◌≡◌, List, [], ◌∷◌, Text, take, ◌⊎◌, ◌++◌, codes}
use ferusa.Base.Action.{Ensures}
use ferusa.Cli.Clipboard.Command.{Chars}
use ferusa.Cli.Clipboard.Manual.{
  Tool, wl_clipboard, xclip, xsel, pasteboard, termux, writer, Setting, Chooses, printing,
}
use ferusa.Cli.Clipboard.Aiming.{Aimed}
use ferusa.Cli.Clipboard.Helper.{Host, clear_clipboard}

-- The clipboards of the host, by the program and by the settings that its options choose, what waits
-- on standard input, and what others make of a clipboard while the helper sleeps. The commands of
-- the manual do what it says of them, for whatever arguments; one that fails may have done it.
pub record HostLaws {S : Type 0} (host : Host S) : Type 0 where
  pub contents : Tool → List Setting → S → Text
  pub stdin : S → Text
  pub later : Tool → List Setting → Text → Text
  pub stdin_law :
      (tool : Tool) (settings : List Setting) (limit : ℕ) (s : S)
      → Ensures
          (λ x t.
            (x ≡ take limit (stdin s)) × (contents tool settings t ≡ contents tool settings s))
          (λ t. contents tool settings t ≡ contents tool settings s)
          (host.read_stdin limit s)
  pub sleep_law :
      (tool : Tool) (settings : List Setting) (n : ℕ) (s : S)
      → contents tool settings (host.sleep n s) ≡ later tool settings (contents tool settings s)
  pub printing_law :
      (tool : Tool) (args : List Chars) (settings : List Setting)
      → Chooses tool args settings
      → (limit : ℕ) (s : S)
      → Ensures
          (λ x t.
            (x ≡ take limit (contents tool settings s))
            × (contents tool settings t ≡ contents tool settings s))
          (λ t. contents tool settings t ≡ contents tool settings s)
          (host.read_output (printing tool args) limit s)
  pub clear_law :
      (args : List Chars) (settings : List Setting)
      → Chooses wl_clipboard args settings
      → (s : S)
      → Ensures
          (λ _ t. contents wl_clipboard settings t ≡ [])
          (λ t.
            (contents wl_clipboard settings t ≡ contents wl_clipboard settings s)
            ⊎ (contents wl_clipboard settings t ≡ []))
          (host.status (codes "wl-copy" ∷ args ++ (codes "--clear" ∷ [])) s)
  pub pipe_law :
      (tool : Tool) (args : List Chars) (settings : List Setting)
      → Chooses tool args settings
      → (s : S)
      → Ensures
          (λ _ t. contents tool settings t ≡ [])
          (λ t.
            (contents tool settings t ≡ contents tool settings s) ⊎ (contents tool settings t ≡ []))
          (host.pipe [] (writer tool ∷ args) s)

-- How the helper empties the clipboard of each program.
pub empties_of :
    {S : Type 0} (host : Host S) (laws : HostLaws host) (tool : Tool) (args : List Chars)
    (settings : List Setting)
    → Aimed tool args settings
    → (s : S)
    → Ensures
        (λ _ t. laws.contents tool settings t ≡ [])
        (λ t.
          (laws.contents tool settings t ≡ laws.contents tool settings s)
          ⊎ (laws.contents tool settings t ≡ []))
        (clear_clipboard host (writer tool ∷ args) s)
unfolding clear_clipboard
empties_of host laws wl_clipboard args settings a s =
    rw a.computed (laws.clear_law a.target settings a.same_choice s)
empties_of host laws xclip args settings a s =
    rw a.computed (laws.pipe_law xclip a.target settings a.same_choice s)
empties_of host laws xsel args settings a s =
    rw a.computed (laws.pipe_law xsel a.target settings a.same_choice s)
empties_of host laws pasteboard args settings a s =
    rw a.computed (laws.pipe_law pasteboard a.target settings a.same_choice s)
empties_of host laws termux args settings a s =
    rw a.computed (laws.pipe_law termux a.target settings a.same_choice s)
