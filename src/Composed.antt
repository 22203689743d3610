-- ===== src/Composed.antt =====
-- The parts put together: the chain of policies/forward.py and the proposer of
-- proposer/forward_proposer.py run on the constraint model of solvers/cpsat/model.py and on plans
-- read back from it. Of CP-SAT itself only `SearchLaw` is assumed, or nothing.
use otto_q_core.Proposer.Held.{plannable_in}
use otto_q_core.Proposer.Propose.Laws.{CoversLaw, Says, propose-Says}
use otto_q_core.Proposer.Measure.{measure_plan, check_optima}
use otto_q_core.Proposer.Frame.{Vehicle, Frame}
use otto_q_core.Proposer.Held as Population
use otto_q_core.Proposer.Propose.{Call, Fire, propose, done}
use otto_q_core.Chain.Served.{lexicographic_solve_traced-serves}
use otto_q_core.Chain.Passes.{lexicographic_solve_traced-honours}
use otto_q_core.Solver.Solution.Listed.{extract-lists}
use otto_q_core.Solver.Solution.{solve_model-CpSatLaws}
use otto_q_core.Solver.Build.{CpModel}
use otto_q_core.Solver.Extract.{Found, SearchLaw, solve_model}
use otto_q_core.Intent.Solve.{Mode, has_mode, min_tardy}
use otto_q_core.Plan.{Plan, served_names}
use otto_q_core.Scenario.{Scenario}
use otto_q_core.Solver.{ok, Budget, build_and_solve, ServesAll, request}
use otto_q_core.Chain.{Outcome, lexicographic_solve_traced}
use otto_q_core.Base.{◌≡◌, Bool, true, false, none, List, [], ◌∷◌, map, filter, IsDistinct, count}

module _ (search : CpModel → Budget → Found) where
  module _ (law : SearchLaw search) (sc : Scenario) (budget : Budget) where
    -- Where the values that CP-SAT reports satisfy the constraints that it was given, and with one
    -- tardiness pass, at the head: the plan that the chain ships, measured off its own rows,
    -- honours every optimum that the chain reports.
    pub chain-honours :
        (modes : List Mode) (o : Outcome)
        → has_mode min_tardy modes ≡ false
        → lexicographic_solve_traced (solve_model search) sc budget (min_tardy ∷ modes) ≡ ok o
        → check_optima (measure_plan o.plan) o.optima ≡ none
    chain-honours =
        lexicographic_solve_traced-honours (solve_model search) (solve_model-CpSatLaws search law)
          sc budget

    -- Where the values that CP-SAT reports satisfy the constraints that it was given, with
    -- rejection allowed and one tardiness pass, at the head: the plan that the chain ships serves
    -- every asset that the plan of the tardiness pass serves.
    pub chain-serves :
        (modes : List Mode) (first : Plan) (o : Outcome)
        → budget.allow_rejection ≡ true
        → has_mode min_tardy modes ≡ false
        → build_and_solve (solve_model search) sc (request min_tardy budget) ≡ ok first
        → lexicographic_solve_traced (solve_model search) sc budget (min_tardy ∷ modes) ≡ ok o
        → ServesAll (served_names first.assets) o.plan
    chain-serves =
        lexicographic_solve_traced-serves (solve_model search) (solve_model-CpSatLaws search law) sc
          budget

  solve_model-CoversLaw : CoversLaw (solve_model search)
  unfolding solve_model
  solve_model-CoversLaw sc r solved k =
      extract-lists (record { sc = sc; asked = r; t_now = 0; blocked = [] }) _ k

  -- Whatever CP-SAT answers, where no vehicle stands twice in the frame and `propose` returns: each
  -- vehicle that is planned for has exactly one row and no other vehicle has any, and the counts of
  -- planned and abstained rows add up to the rows.
  pub propose-Accounts :
      (call : Call) (frame : Frame) {f : Fire}
      → IsDistinct (map (λ v. Vehicle.id v) frame.vehicles)
      → propose (solve_model search) call frame ≡ done f
      → (plannable : Vehicle → Bool) × (Population.plannable_in call.serviceable_states
          ≡ Population.ok plannable)
        × Says (λ k. count k (map (λ v. Vehicle.id v) (filter plannable frame.vehicles))) f
  propose-Accounts = propose-Says (solve_model search) solve_model-CoversLaw
