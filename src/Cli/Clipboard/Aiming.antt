-- ===== src/Cli/Clipboard/Aiming.antt =====
-- The commands of `expiry_commands` are for the clipboard that the copy command writes to.
use mathlib.Core.List.{append-nil}
use ferusa.Base.{◌≡◌, refl, sym, ap, ◌∙◌, true, Bool, List, [], ◌∷◌, ◌++◌, codes, ok, and_then}
use ferusa.Cli.Clipboard.Command.{Chars}
use ferusa.Cli.Clipboard.Expiry.{
  keeps, with_value, wl_copy_option, xclip_option, xsel_option, pbcopy_option, copy_option, targets,
  tools, expiry_commands,
}
use ferusa.Cli.Clipboard.Manual.{
  Tool, wl_clipboard, xclip, xsel, pasteboard, termux, writer, Setting, Flag, wl_p, wl_primary,
  wl_seat_is, xclip_i, xclip_in, xsel_i, xsel_input, xsel_p, xsel_primary, xsel_s, xsel_secondary,
  xsel_b, xsel_clipboard, Valued, wl_s, wl_seat, xclip_primary, xclip_secondary, xclip_clipboard,
  xclip_display, xsel_display, board_general, board_ruler, board_find, board_font, Chooses, no_more,
  flag, valued, printing, emptying,
}

-- What the code makes of a flag chooses what the flag chooses.
record Kept (tool : Tool) (arg : Chars) (o : List Setting) : Type 0 where
  args : List Chars
  keeps_args : copy_option (writer tool) arg ≡ keeps args
  same_choice :
      (rest : List Chars) (settings : List Setting)
      → Chooses tool rest settings
      → Chooses tool (args ++ rest) (o ++ settings)

one :
    {tool : Tool} {arg : Chars} {o : List Setting} (to : Chars)
    → Flag tool to o
    → copy_option (writer tool) arg ≡ keeps (to ∷ [])
    → Kept tool arg o
one to f e = record { args = to ∷ []; keeps_args = e; same_choice = λ r s c. flag f c }

none : {tool : Tool} {arg : Chars} → copy_option (writer tool) arg ≡ keeps [] → Kept tool arg []
none e = record { args = []; keeps_args = e; same_choice = λ r s c. c }

Flag-Kept : (tool : Tool) (arg : Chars) (o : List Setting) → Flag tool arg o → Kept tool arg o
unfolding copy_option wl_copy_option xclip_option xsel_option
Flag-Kept _ _ _ wl_p = one (codes "--primary") wl_primary refl
Flag-Kept _ _ _ wl_primary = one (codes "--primary") wl_primary refl
Flag-Kept _ _ _ (wl_seat_is b x) = one (codes "--seat=" ++ (b ∷ x)) (wl_seat_is b x) refl
Flag-Kept _ _ _ xclip_i = none refl
Flag-Kept _ _ _ xclip_in = none refl
Flag-Kept _ _ _ xsel_i = none refl
Flag-Kept _ _ _ xsel_input = none refl
Flag-Kept _ _ _ xsel_p = one (codes "-p") xsel_p refl
Flag-Kept _ _ _ xsel_primary = one (codes "--primary") xsel_primary refl
Flag-Kept _ _ _ xsel_s = one (codes "-s") xsel_s refl
Flag-Kept _ _ _ xsel_secondary = one (codes "--secondary") xsel_secondary refl
Flag-Kept _ _ _ xsel_b = one (codes "-b") xsel_b refl
Flag-Kept _ _ _ xsel_clipboard = one (codes "--clipboard") xsel_clipboard refl

-- The same of an option with its value.
record Passed (tool : Tool) (arg value : Chars) (o : List Setting) : Type 0 where
  name : Chars
  test : Chars → Bool
  takes_value : copy_option (writer tool) arg ≡ with_value name test
  accepted : test value ≡ true
  same_choice : Valued tool name value o

with_name :
    {tool : Tool} {arg value : Chars} {o : List Setting} {test : Chars → Bool} (name : Chars)
    → Valued tool name value o
    → copy_option (writer tool) arg ≡ with_value name test
    → test value ≡ true
    → Passed tool arg value o
with_name {test = test} name v e h = record {
  name = name;
  test = test;
  takes_value = e;
  accepted = h;
  same_choice = v;
}

Valued-Passed :
    (tool : Tool) (arg value : Chars) (o : List Setting)
    → Valued tool arg value o
    → Passed tool arg value o
unfolding copy_option wl_copy_option xclip_option xsel_option pbcopy_option
Valued-Passed _ _ _ _ (wl_s x) = with_name (codes "--seat") (wl_seat x) refl refl
Valued-Passed _ _ _ _ (wl_seat x) = with_name (codes "--seat") (wl_seat x) refl refl
Valued-Passed _ _ _ _ xclip_primary = with_name (codes "-selection") xclip_primary refl refl
Valued-Passed _ _ _ _ xclip_secondary = with_name (codes "-selection") xclip_secondary refl refl
Valued-Passed _ _ _ _ xclip_clipboard = with_name (codes "-selection") xclip_clipboard refl refl
Valued-Passed _ _ _ _ (xclip_display x) = with_name (codes "-display") (xclip_display x) refl refl
Valued-Passed _ _ _ _ (xsel_display x) = with_name (codes "--display") (xsel_display x) refl refl
Valued-Passed _ _ _ _ board_general = with_name (codes "-pboard") board_general refl refl
Valued-Passed _ _ _ _ board_ruler = with_name (codes "-pboard") board_ruler refl refl
Valued-Passed _ _ _ _ board_find = with_name (codes "-pboard") board_find refl refl
Valued-Passed _ _ _ _ board_font = with_name (codes "-pboard") board_font refl refl

targets-keeps :
    (program arg : Chars) (args rest target : List Chars)
    → copy_option program arg ≡ keeps args
    → targets program rest ≡ ok target
    → targets program (arg ∷ rest) ≡ ok (args ++ target)
unfolding targets
targets-keeps program arg args [] target e f =
    rw e (sym (ap ok (append-nil args)) ∙ ap (λ r. and_then r (λ l. ok (args ++ l))) f)
targets-keeps program arg args (v ∷ rest) target e f = rw (e, f) refl

targets-with_value :
    (program arg name value : Chars) (test : Chars → Bool) (rest target : List Chars)
    → copy_option program arg ≡ with_value name test
    → test value ≡ true
    → targets program rest ≡ ok target
    → targets program (arg ∷ value ∷ rest) ≡ ok (name ∷ value ∷ target)
unfolding targets
targets-with_value program arg name value test rest target e h f = rw (e, h, f) refl

-- The target options choose what the arguments choose.
record Target (tool : Tool) (args : List Chars) (settings : List Setting) : Type 0 where
  target : List Chars
  computed : targets (writer tool) args ≡ ok target
  same_choice : Chooses tool target settings

targets-Target :
    (tool : Tool) (args : List Chars) (settings : List Setting)
    → Chooses tool args settings
    → Target tool args settings
unfolding targets
targets-Target tool _ _ no_more = record { target = []; computed = refl; same_choice = no_more }
targets-Target tool _ _ (flag {arg} {args} {o} {settings} f c) =
    let t = targets-Target tool args settings c in
    let k = Flag-Kept tool arg o f in
    record {
      target = k.args ++ t.target;
      computed = targets-keeps (writer tool) arg k.args args t.target k.keeps_args t.computed;
      same_choice = k.same_choice t.target settings t.same_choice;
    }
targets-Target tool _ _ (valued {arg} {value} {args} {o} {settings} v c) =
    let t = targets-Target tool args settings c in
    let k = Valued-Passed tool arg value o v in
    record {
      target = k.name ∷ value ∷ t.target;
      computed =
          targets-with_value (writer tool) arg k.name value k.test args t.target k.takes_value
            k.accepted t.computed;
      same_choice = valued k.same_choice t.same_choice;
    }

-- The commands that `expiry_commands` gives print and empty the clipboard of the settings.
pub record Aimed (tool : Tool) (args : List Chars) (settings : List Setting) : Type 0 where
  pub target : List Chars
  pub computed :
      expiry_commands (writer tool ∷ args) ≡ ok (printing tool target, emptying tool target)
  pub same_choice : Chooses tool target settings

commands_of :
    (tool : Tool) (args target : List Chars)
    → targets (writer tool) args ≡ ok target
    → expiry_commands (writer tool ∷ args) ≡ ok (printing tool target, emptying tool target)
unfolding expiry_commands tools
commands_of wl_clipboard args target e = rw e refl
commands_of xclip args target e = rw (e, append-nil target) refl
commands_of xsel args target e = rw (e, append-nil target) refl
commands_of pasteboard args target e = rw (e, append-nil target) refl
commands_of termux args target e = rw (e, append-nil target) refl

-- If the manual says what the arguments of a copy command choose, then its clipboard is read by a
-- command that prints, and cleared by one that empties, the clipboard of the same settings.
pub expiry_commands-Aimed :
    (tool : Tool) (args : List Chars) (settings : List Setting)
    → Chooses tool args settings
    → Aimed tool args settings
expiry_commands-Aimed tool args settings c =
    let t = targets-Target tool args settings c in
    record {
      target = t.target;
      computed = commands_of tool args t.target t.computed;
      same_choice = t.same_choice;
    }
