-- ===== src/Pareto.antt =====
-- The policies that no other beats on both axes (policies/cost.py: `_pareto`). The two dicts hold
-- whole numbers of minutes and of cents; a missing key raises, with the key as the exception.
pub mod Front
use otto_q_core.Base.Sort.{sort}
use otto_q_core.Base.{
  ℕ, String, Bool, true, false, ◌&&◌, ◌||◌, Option, none, some, List, [], ◌∷◌, ltb, leb, str_eq,
  str_le, if◌then◌else◌, Dict, lookup, keys, Raises, ◌>>=◌, raises, returns,
}

value_or_raise : String → Option ℕ → Raises String ℕ
value_or_raise k (some v) = returns v
value_or_raise k none = raises k

-- `d[k]`
unfoldable pub item : Dict ℕ → String → Raises String ℕ
unfolding value_or_raise
item d k = value_or_raise k (lookup k d)

module _ (tardy cost : Dict ℕ) where
  -- The test of `any`: a name that beats `a`. It reads a cost only where tardiness allows.
  unfoldable pub beats : String → String → Raises String Bool
  beats a b =
      if str_eq b a
      then returns false
      else (item tardy b >>= λ tb. item tardy a >>= λ ta.
          if leb tb ta
          then (item cost b >>= λ cb.
              item cost a >>= λ ca. returns (leb cb ca && (ltb tb ta || ltb cb ca)))
          else returns false)

  -- `any(...)` stops at the first name that beats `a`.
  unfoldable pub is_dominated : String → List String → Raises String Bool
  is_dominated a [] = returns false
  is_dominated a (b ∷ bs) =
      beats a b >>= λ won. let rest = is_dominated a bs in if won then returns true else rest

  -- The loop over the names.
  unfoldable pub keep_undominated : List String → List String → Raises String (List String)
  keep_undominated names [] = returns []
  keep_undominated names (a ∷ later) = is_dominated a names >>= λ dominated.
      keep_undominated names later >>= λ keep. returns (if dominated then keep else a ∷ keep)

  unfoldable pub pareto : Raises String (List String)
  pareto = let names = sort str_le (keys tardy) in keep_undominated names names
