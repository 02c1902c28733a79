-- ===== src/Base/Utf8.antt =====
-- `String::from_utf8` and `str::from_utf8`: which bytes are a string.
use Prim.Native.Nat.{ℕ}
use mathlib.Core.Path.{◌≡◌, refl}
use mathlib.Core.Bool.{Bool, true, false, ◌&&◌}
use mathlib.Core.Option.{Option, none, some}
use mathlib.Core.List.{List, [], ◌∷◌}
use native.Mathlib.Omega.{arith}
use ferusa.Base.Tests.{ltb, leb, ◌==◌, if◌then◌else◌}
use ferusa.Base.Lists.{all}
use ferusa.Base.Bytes.{Text}

-- The bounds of the bytes that follow a first byte.
abbrev Tail : Type 0
Tail = List (ℕ × ℕ)

abbrev continuation : ℕ × ℕ
continuation = (128, 191)

abbrev tail_of : ℕ → Option Tail
tail_of b =
    if ltb b 128
    then some []
    else if ltb b 194
    then none
    else if ltb b 224
    then some (continuation ∷ [])
    else if b == 224
    then some ((160, 191) ∷ continuation ∷ [])
    else if b == 237
    then some ((128, 159) ∷ continuation ∷ [])
    else if ltb b 240
    then some (continuation ∷ continuation ∷ [])
    else if b == 240
    then some ((144, 191) ∷ continuation ∷ continuation ∷ [])
    else if ltb b 244
    then some (continuation ∷ continuation ∷ continuation ∷ [])
    else if b == 244
    then some ((128, 143) ∷ continuation ∷ continuation ∷ [])
    else none

-- What may follow after a byte, where `tail` was to follow before it.
abbrev step : Tail → ℕ → Option Tail
step [] b = tail_of b
step (r ∷ tail) b = if leb r.0 b && leb b r.1 then some tail else none

abbrev continues : Option Tail → Text → Bool
continues none t = false
continues (some []) [] = true
continues (some (r ∷ tail)) [] = false
continues (some tail) (b ∷ t) = continues (step tail b) t

unfoldable pub is_utf8 : Text → Bool
is_utf8 t = continues (some []) t

abbrev pub is_ascii : ℕ → Bool
is_ascii b = ltb b 128

abbrev pub from_utf8 : Text → Option Text
from_utf8 t = if is_utf8 t then some t else none

pub is_utf8-ascii : (t : Text) → all is_ascii t ≡ true → is_utf8 t ≡ true
unfolding is_utf8
is_utf8-ascii [] h = refl
is_utf8-ascii (b ∷ t) h = grind (arith, is_utf8-ascii t)
