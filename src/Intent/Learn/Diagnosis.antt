-- ===== src/Intent/Learn/Diagnosis.antt =====
-- What a solver's status means (intent/learn.py: `diagnose_solver`).

use otto_q_core.Base.{
  String, Bool, true, false, ◌&&◌, Option, none, some, [], ◌∷◌, str_eq, if◌then◌else◌, Dict, lookup,
}

-- What a solver's status means, and what to do next.
pub data SolverKind : Type 0 where
  solved solved_bounded intractable model_bug unknown_status : SolverKind

pub data NextAction : Type 0 where
  nothing_to_learn raise_for_stronger inspect_scenario feed_back_capacity : NextAction
  raise_or_retain retained_raise fix_model inspect_vocabulary : NextAction

pub record SolverDiagnosis : Type 0 where
  pub status : String
  pub kind : SolverKind
  pub next_action : NextAction
  pub recognized : Bool

-- `SOLVER_DIAGNOSES`
pub solver_diagnoses : Dict (SolverKind × NextAction)
solver_diagnoses =
    ("OPTIMAL", (solved, nothing_to_learn))
    ∷ ("FEASIBLE", (solved_bounded, raise_for_stronger))
    ∷ ("INFEASIBLE", (intractable, inspect_scenario))
    ∷ ("UNKNOWN", (intractable, raise_or_retain))
    ∷ ("MODEL_INVALID", (model_bug, fix_model))
    ∷ []

-- The two statuses whose action depends on the call.
pub refined : String → Bool → Bool → NextAction → NextAction
refined status allow_rejection has_previous_plan action =
    let first =
      if str_eq status "INFEASIBLE" && allow_rejection then feed_back_capacity else action in
    if str_eq status "UNKNOWN" && has_previous_plan then retained_raise else first

pub diagnosis : String → Bool → Bool → Option (SolverKind × NextAction) → SolverDiagnosis
diagnosis status allow_rejection has_previous_plan none = record {
  status = status;
  kind = unknown_status;
  next_action = inspect_vocabulary;
  recognized = false;
}
diagnosis status allow_rejection has_previous_plan (some d) = record {
  status = status;
  kind = d.0;
  next_action = refined status allow_rejection has_previous_plan d.1;
  recognized = true;
}

pub diagnose_solver : String → Bool → Bool → SolverDiagnosis
diagnose_solver status allow_rejection has_previous_plan =
    diagnosis status allow_rejection has_previous_plan (lookup status solver_diagnoses)
