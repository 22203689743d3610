-- ===== src/Intent.antt =====
-- The commander's intent (intent/intent.py): the artifact's objectives and regimes, and the
-- resolver that picks the active regime from the clock and the signals.
--
-- An objective keeps the fields that the resolver could read; `dollar_value`, its detail and the
-- wiring and provenance notes are prose or numbers that no function reads, and are left out.
-- Hours are naturals. A regime's `match` is its hour range and its signals; `[]` stands for an
-- absent list of signals, which the code reads alike.
pub mod Solve
pub mod Signals
pub mod Learn
pub mod Order
pub mod Floors
pub mod Regimes
use otto_q_core.Base.{
  ℕ, ◌%◌, String, Bool, true, false, not, ◌&&◌, ◌||◌, Option, none, some, List, [], ◌∷◌, ◌++◌, ltb,
  leb, str_eq, str_le, if◌then◌else◌, filter, all, elem, Dict, lookup, keys,
}
use otto_q_core.Base.Sort.{sort}

pub record Objective : Type 0 where
  pub tier : ℕ
  pub label : String
  pub metric : String
  pub direction : String
  pub kind : String

pub record Match : Type 0 where
  pub hour_range : Option (ℕ × ℕ)
  pub signals : List String

pub record Regime : Type 0 where
  pub key : String
  pub label : String
  pub match : Match
  pub priority : List String
  pub rationale : String

pub record Intent : Type 0 where
  pub objectives : Dict Objective
  pub regimes : List Regime
  pub fingerprint : String
  pub version : ℕ

pub record ActiveIntent : Type 0 where
  pub regime_key : String
  pub regime_label : String
  pub priority : List String
  pub floors : List String
  pub objectives : List String
  pub rationale : String

pub data Error : Type 0 where
  unknown_signals : List String → Error
  no_regime : Error

pub data Result {ℓ} (A : Type ℓ) : Type ℓ where
  ok : A → Result A
  err : Error → Result A

-- `known_signals`: every signal that some regime matches on.
unfoldable pub known_signals : List Regime → List String
known_signals [] = []
known_signals (r ∷ rs) = r.match.signals ++ known_signals rs

-- The hour test of `_matches`: a range may wrap across midnight.
pub in_range : Option (ℕ × ℕ) → ℕ → Bool
in_range none h = true
in_range (some (lo, hi)) h = if leb lo hi then leb lo h && ltb h hi else leb lo h || ltb h hi

-- `_matches`
pub matches : Regime → ℕ → List String → Bool
unfolding in_range
matches r h signals = in_range r.match.hour_range h && all (λ s. elem s signals) r.match.signals

-- `CANONICAL_FLOOR_ORDER`
abbrev pub canonical_floor_order : List String
canonical_floor_order = "readiness" ∷ "service_completion" ∷ []

-- `intent.objectives[k].kind == kind`, false where the key is absent.
unfoldable pub has_kind : String → Dict Objective → String → Bool
has_kind kind objectives k = elim (lookup k objectives) [
  | none ↦ false
  | some o ↦ str_eq o.kind kind
]

abbrev pub item_le : String × Objective → String × Objective → Bool
item_le a b = str_le a.0 b.0

-- `_floors_of`: the two canonical names first, then every other floor by name.
pub floors_of : Dict Objective → List String
unfolding has_kind
floors_of objectives =
    filter (has_kind "floor" objectives) canonical_floor_order
    ++ keys (
        filter (λ e. str_eq e.1.kind "floor" && not (elem e.0 canonical_floor_order))
          (sort item_le objectives))

-- The loop of `_dedupe` on what was seen so far.
pub dedupe_from : List String → List String → List String
dedupe_from seen [] = []
dedupe_from seen (x ∷ xs) = elim (elem x seen) [
  | true ↦ dedupe_from seen xs
  | false ↦ x ∷ dedupe_from (x ∷ seen) xs
]

pub dedupe : List String → List String
unfolding dedupe_from
dedupe = dedupe_from []

-- The regime's own priorities that are declared and are no floor.
pub soft_of : Dict Objective → List String → List String
unfolding floors_of
soft_of objectives priority =
    filter (λ k. elem k (keys objectives) && not (elem k (floors_of objectives))) priority

-- `_build_active`
unfoldable pub build_active : Intent → Regime → ActiveIntent
unfolding floors_of soft_of dedupe has_kind
build_active i r =
    let priority = dedupe (floors_of i.objectives ++ soft_of i.objectives r.priority) in
    record {
      regime_key = r.key;
      regime_label = r.label;
      priority = priority;
      floors = filter (has_kind "floor" i.objectives) priority;
      objectives = filter (has_kind "objective" i.objectives) priority;
      rationale = r.rationale;
    }

-- `bool(regime.match.get("signals"))`
pub needs_signal : Regime → Bool
needs_signal r = elim r.match.signals [ [] ↦ false | _ ∷ _ ↦ true ]

-- The first regime, in declaration order, of the signal pass (`true`) or of the clock pass.
pub first_match : Bool → List Regime → ℕ → List String → Option Regime
unfolding needs_signal matches
first_match true [] h signals = none
first_match false [] h signals = none
first_match true (r ∷ rs) h signals =
    if needs_signal r && matches r h signals then some r else first_match true rs h signals
first_match false (r ∷ rs) h signals =
    if not (needs_signal r) && matches r h signals then some r else first_match false rs h signals

-- Pass 1, then pass 2, of `resolve_intent`.
pub pick_regime : List Regime → ℕ → List String → Option Regime
unfolding first_match
pick_regime rs h signals = elim (first_match true rs h signals) [
  | some r ↦ some r
  | none ↦ first_match false rs h signals
]

pub unknown_signals_of : Intent → List String → List String
unfolding known_signals
unknown_signals_of i signals = filter (λ s. not (elem s (known_signals i.regimes))) signals

unfoldable pub resolve_intent : Intent → ℕ → List String → Result ActiveIntent
unfolding unknown_signals_of pick_regime build_active
resolve_intent i hour_of_day signals = elim (unknown_signals_of i signals) [
  | s ∷ rest ↦ err (unknown_signals (sort str_le (s ∷ rest)))
  | [] ↦ elim (pick_regime i.regimes (hour_of_day % 24) signals) [
    | none ↦ err no_regime
    | some r ↦ ok (build_active i r)
  ]
]
