-- ===== src/Base/Split.antt =====
-- `str.split` and `str.join` on one separator character.
use Prim.Native.Nat.{ℕ}
use Prim.Native.Char.{Char, code}
use Prim.Native.String.{String, ◌++◌ as str_append}
use mathlib.Core.Path.{◌≡◌, refl, ap, ◌∙◌}
use mathlib.Core.Bool.{Bool, false, ◌||◌}
use mathlib.Core.List.{List, [], ◌∷◌}
use native.Mathlib.Omega.{arith}
use text.Mathlib.TextLemmas.{nil-append, cons-append}
use otto_q_core.Base.Tests.{◌==◌, if◌then◌else◌}
use otto_q_core.Base.Lists.{All}

-- `sep in s`, for a one-character separator.
abbrev pub has_char : ℕ → String → Bool
has_char sep String.[] = false
has_char sep (String.◌∷◌ c s) = code c == sep || has_char sep s

-- `s.split(sep, 1)[0]`
unfoldable pub before_sep : ℕ → String → String
before_sep sep String.[] = String.[]
before_sep sep (String.◌∷◌ c s) =
    if code c == sep then String.[] else String.◌∷◌ c (before_sep sep s)

-- `s.split(sep, 1)[1]`, empty where there is no separator.
unfoldable pub after_sep : ℕ → String → String
after_sep sep String.[] = String.[]
after_sep sep (String.◌∷◌ c s) = if code c == sep then s else after_sep sep s

-- One more character before the first part.
abbrev pub cons_first : Char → List String → List String
cons_first c [] = String.◌∷◌ c String.[] ∷ []
cons_first c (p ∷ ps) = String.◌∷◌ c p ∷ ps

-- `s.split(sep)`
unfoldable pub split : ℕ → String → List String
split sep String.[] = String.[] ∷ []
split sep (String.◌∷◌ c s) =
    let rest = split sep s in if code c == sep then String.[] ∷ rest else cons_first c rest

-- `sep.join(parts)`
abbrev pub join : Char → List String → String
join sep [] = String.[]
join sep (p ∷ []) = p
join sep (p ∷ q ∷ ps) = str_append p (String.◌∷◌ sep (join sep (q ∷ ps)))

pub before_sep-append :
    (sep : Char) (s t : String)
    → has_char (code sep) s ≡ false
    → before_sep (code sep) (str_append s (String.◌∷◌ sep t)) ≡ s
unfolding before_sep
before_sep-append sep String.[] t h = rw nil-append (ground arith)
before_sep-append sep (String.◌∷◌ c s) t h =
    rw cons-append (ground (arith, before_sep-append sep s t))

pub after_sep-append :
    (sep : Char) (s t : String)
    → has_char (code sep) s ≡ false
    → after_sep (code sep) (str_append s (String.◌∷◌ sep t)) ≡ t
unfolding after_sep
after_sep-append sep String.[] t h = rw nil-append (ground arith)
after_sep-append sep (String.◌∷◌ c s) t h =
    rw cons-append (ground (arith, after_sep-append sep s t))

split_whole : (sep : ℕ) (s : String) → has_char sep s ≡ false → split sep s ≡ s ∷ []
unfolding split
split_whole sep String.[] h = refl
split_whole sep (String.◌∷◌ c s) h = ground (arith, split_whole sep s)

split-append :
    (sep : Char) (s t : String)
    → has_char (code sep) s ≡ false
    → split (code sep) (str_append s (String.◌∷◌ sep t)) ≡ s ∷ split (code sep) t
unfolding split
split-append sep String.[] t h = rw nil-append (ground arith)
split-append sep (String.◌∷◌ c s) t h = rw cons-append (ground (arith, split-append sep s t))

-- What was joined from parts without the separator splits into those parts.
pub split-join :
    (sep : Char) (p : String) (ps : List String)
    → All (λ s. has_char (code sep) s ≡ false) (p ∷ ps)
    → split (code sep) (join sep (p ∷ ps)) ≡ p ∷ ps
split-join sep p [] h = split_whole (code sep) p h.0
split-join sep p (q ∷ ps) h =
    split-append sep p (join sep (q ∷ ps)) h.0 ∙ ap (◌∷◌ p) (split-join sep q ps h.1)
