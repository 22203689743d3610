-- ===== src/Intent/Solve.antt =====
-- The pass sequencer (intent/solve.py): which solver pass realises each objective, and the
-- ordered passes of an active intent.
pub mod Passes
use otto_q_core.Base.{
  String, Bool, true, false, Option, none, some, List, [], ◌∷◌, elem, Dict, lookup,
}
use otto_q_core.Intent.{ActiveIntent}

-- The objective modes of the solver.
pub data Mode : Type 0 where
  weighted min_tardy min_peak min_flow : Mode

abbrev pub mode_eq : Mode → Mode → Bool
mode_eq weighted weighted = true
mode_eq min_tardy min_tardy = true
mode_eq min_peak min_peak = true
mode_eq min_flow min_flow = true
mode_eq _ _ = false

abbrev pub has_mode : Mode → List Mode → Bool
has_mode m [] = false
has_mode m (x ∷ xs) = elim (mode_eq m x) [ true ↦ true | false ↦ has_mode m xs ]

-- What realises an objective: a solver pass, or the deterministic shield.
pub data Realised : Type 0 where
  pass : Mode → Realised
  shield : Realised

-- `SOLVER_PASS`; `none` is the entry `None`.
abbrev pub solver_pass : Dict (Option Realised)
solver_pass =
    ("readiness", some (pass min_tardy))
    ∷ ("service_completion", some shield)
    ∷ ("throughput", some (pass min_flow))
    ∷ ("energy_cost", some (pass min_peak))
    ∷ ("bess_peak_shave", some (pass min_peak))
    ∷ ("degradation", none)
    ∷ ("dwell", some (pass min_flow))
    ∷ ("deadhead", none)
    ∷ ("staging", none)
    ∷ ("staff", none)
    ∷ ("risk_hedge", none)
    ∷ []

-- `SOLVER_PASS.get(key)`
pub pass_of : String → Option Realised
pass_of k = elim (lookup k solver_pass) [ none ↦ none | some r ↦ r ]

-- The loop of `pass_sequence` on the modes seen so far.
pub pass_sequence_from : List Mode → List String → List Mode
pass_sequence_from seen [] = []
pass_sequence_from seen (k ∷ ks) = elim (pass_of k) [
  | none ↦ pass_sequence_from seen ks
  | some shield ↦ pass_sequence_from seen ks
  | some (pass m) ↦ elim (has_mode m seen) [
    | true ↦ pass_sequence_from seen ks
    | false ↦ m ∷ pass_sequence_from (m ∷ seen) ks
  ]
]

pub pass_sequence : ActiveIntent → List Mode
unfolding pass_sequence_from
pass_sequence a = pass_sequence_from [] a.priority

-- The loop of `unmodeled`: keys with no pass at all, each once.
pub unmodeled_from : List String → List String → List String
unmodeled_from seen [] = []
unmodeled_from seen (k ∷ ks) = elim (pass_of k) [
  | some _ ↦ unmodeled_from seen ks
  | none ↦ elim (elem k seen) [
    | true ↦ unmodeled_from seen ks
    | false ↦ k ∷ unmodeled_from (k ∷ seen) ks
  ]
]

pub unmodeled : ActiveIntent → List String
unfolding unmodeled_from
unmodeled a = unmodeled_from [] a.priority

-- The loop of `shielded`.
pub shielded_from : List String → List String → List String
shielded_from seen [] = []
shielded_from seen (k ∷ ks) = elim (pass_of k) [
  | none ↦ shielded_from seen ks
  | some (pass _) ↦ shielded_from seen ks
  | some shield ↦ elim (elem k seen) [
    | true ↦ shielded_from seen ks
    | false ↦ k ∷ shielded_from (k ∷ seen) ks
  ]
]

pub shielded : ActiveIntent → List String
unfolding shielded_from
shielded a = shielded_from [] a.priority
