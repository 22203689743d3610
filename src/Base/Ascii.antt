-- ===== src/Base/Ascii.antt =====
-- `str.lower`, `str.upper` and `str.strip` on ASCII text; other characters stay as they are, but
-- for the two Latin-1 spaces, which `strip` takes off as Python does.

use Prim.Native.Char.{Char, code}
use Prim.Native.String.{String}
use mathlib.Core.Bool.{Bool, ◌&&◌, ◌||◌}
use otto_q_core.Base.Tests.{leb, ◌==◌, if◌then◌else◌}

-- The character at the same place of the second text.
pub shift : String → String → Char → Char
shift String.[] t c = c
shift (String.◌∷◌ a s) String.[] c = c
shift (String.◌∷◌ a s) (String.◌∷◌ b t) c = if code c == code a then b else shift s t c

abbrev small_letters : String
small_letters = "abcdefghijklmnopqrstuvwxyz"

abbrev capital_letters : String
capital_letters = "ABCDEFGHIJKLMNOPQRSTUVWXYZ"

abbrev pub map_chars : (Char → Char) → String → String
map_chars f String.[] = String.[]
map_chars f (String.◌∷◌ c s) = String.◌∷◌ (f c) (map_chars f s)

unfoldable pub lower : String → String
unfolding shift
lower = map_chars (shift capital_letters small_letters)

unfoldable pub upper : String → String
unfolding shift
upper = map_chars (shift small_letters capital_letters)

pub is_space : Char → Bool
is_space c =
    let n = code c in (leb 9 n && leb n 13) || (leb 28 n && leb n 32) || n == 133 || n == 160

pub lstrip : String → String
unfolding is_space
lstrip String.[] = String.[]
lstrip (String.◌∷◌ c s) = elim (is_space c) [ Bool.true ↦ lstrip s | Bool.false ↦ String.◌∷◌ c s ]

pub rstrip : String → String
unfolding is_space
rstrip String.[] = String.[]
rstrip (String.◌∷◌ c s) = elim (rstrip s) [
  | String.[] ↦ if is_space c then String.[] else String.◌∷◌ c String.[]
  | String.◌∷◌ d r ↦ String.◌∷◌ c (String.◌∷◌ d r)
]

unfoldable pub strip : String → String
unfolding lstrip rstrip
strip s = rstrip (lstrip s)
