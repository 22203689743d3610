-- ===== src/Chain/Total.antt =====
-- That the chain ends in a plan (policies/forward.py and solvers/cpsat/model.py): once its first
-- pass has a plan, no later pass can fail, since each has the plan before it to retain.
use otto_q_core.Chain.Honoured.{retain_flag}
use otto_q_core.Base.{
  ℕ, ◌≡◌, refl, ◌∙◌, inl, inr, true, false, ◌&&◌, ◌||◌, Option, none, some, List, [], ◌∷◌, leb,
  Bool-cases, if-true, if-false, All,
}
use otto_q_core.Intent.Solve.{mode_eq, min_tardy, min_peak, min_flow, Mode, weighted}
use otto_q_core.Solver.{
  Request, rejection_saving_ceiling, rejection_penalty_of, build_and_solve, CpSatLaws, Budget,
  request, ok,
}
use otto_q_core.Solver.Laws.{build_and_solve-total, build_and_solve-Comes, Comes}
use otto_q_core.Plan.{Status, tardy_total, Plan}
use otto_q_core.Chain.{
  ChainState, flow_plan, tardy_request, soft_request, after_tardy, peak_value, after_peak,
  after_flow, Outcome, pass_over, run_pass, run_passes, lexicographic_solve_traced, start, outcome,
}
use otto_q_core.Scenario.{Scenario}

-- A soft objective, with the penalty of a rejection above what one can save there.
abbrev pub Solvable : Scenario → Budget → Mode → Type 0
Solvable sc budget mode =
    ((mode_eq mode min_peak || mode_eq mode min_flow) ≡ true)
    × ((budget.allow_rejection && leb (rejection_penalty_of sc) (rejection_saving_ceiling sc mode))
        ≡ false)

-- What every pass needs: a plan to retain and a tardiness ceiling.
record Ready (st : ChainState) : Type 0 where
  plan_of : (p : Plan) × (st.plan ≡ some p)
  tardy_of : (n : ℕ) × (st.max_tardy ≡ some n)

module _ (cp_sat : Scenario → Request → Status × Plan) (sc : Scenario) where
  module _ (laws : CpSatLaws cp_sat) (budget : Budget) where
    peak_value-total :
        (st : ChainState) (plan : Plan)
        → Comes sc (soft_request min_peak budget st) plan
        → (v : Option ℕ) × (peak_value plan ≡ ok v)
    unfolding peak_value soft_request request
    peak_value-total st plan (inl sol) =
        let (kw, reported, bounded) = sol.peak_reported refl in
        (some kw, rw (sol.fresh, reported) refl)
    peak_value-total st plan (inr (s, q, e, made)) =
        (none, rw (made, retain_flag s (soft_request min_peak budget st) q) refl)

    run_pass-total :
        (mode : Mode) (st : ChainState)
        → Solvable sc budget mode
        → Ready st
        → (r : Plan × ChainState) × (run_pass cp_sat sc budget mode st ≡ ok r)
          × Ready (pass_over mode r.1 r.0)
    unfolding run_pass soft_request request pass_over after_peak after_flow
    run_pass-total weighted st s ready = cc
    run_pass-total min_tardy st s ready = cc
    run_pass-total min_peak st s ready =
        let (plan, solved) =
          build_and_solve-total cp_sat sc (soft_request min_peak budget st) ready.plan_of.0
            ready.tardy_of.0 ready.plan_of.1 ready.tardy_of.1 s.1 in
        let (value, read) =
          peak_value-total st plan (build_and_solve-Comes cp_sat laws sc _ solved) in
        (
          (plan, after_peak st plan value),
          rw (solved, read) refl,
          record { plan_of = (plan, refl); tardy_of = ready.tardy_of },
        )
    run_pass-total min_flow st s ready =
        let (plan, solved) =
          build_and_solve-total cp_sat sc (soft_request min_flow budget st) ready.plan_of.0
            ready.tardy_of.0 ready.plan_of.1 ready.tardy_of.1 s.1 in
        (
          (flow_plan st.plan plan, after_flow st (flow_plan st.plan plan)),
          rw solved refl,
          record { plan_of = (flow_plan st.plan plan, refl); tardy_of = ready.tardy_of },
        )

    first-Ready :
        (p : Plan) → Ready (pass_over min_tardy (after_tardy budget.allow_rejection start p) p)
    unfolding pass_over after_tardy
    first-Ready p = record { plan_of = (p, refl); tardy_of = (tardy_total p.assets, refl) }

    run_passes-total :
        (modes : List Mode) (st : ChainState) (p : Plan)
        → All (Solvable sc budget) modes
        → Ready st
        → (o : Outcome) × (run_passes cp_sat sc budget modes st p ≡ ok o)
    unfolding run_passes
    run_passes-total [] st p s ready = (outcome st p, refl)
    run_passes-total (mode ∷ modes) st p s ready =
        let (r, ran, ready') = run_pass-total mode st s.0 ready in
        let (o, rest) = run_passes-total modes (pass_over mode r.1 r.0) r.0 s.1 ready' in
        elim (Bool-cases r.0.retained_previous) [
          | inl flag ↦ (outcome (pass_over mode r.1 r.0) r.0, rw ran (if-true _ _ flag))
          | inr fresh ↦ (o, rw ran (if-false _ _ fresh ∙ rest))
        ]

    -- Where the tardiness pass has a plan and every later mode is a soft one whose rejection
    -- penalty is high enough, the chain returns a plan, whatever the later searches answer.
    pub lexicographic_solve_traced-total :
        (modes : List Mode) (first : Plan)
        → build_and_solve cp_sat sc (request min_tardy budget) ≡ ok first
        → All (Solvable sc budget) modes
        → (o : Outcome) × (lexicographic_solve_traced cp_sat sc budget (min_tardy ∷ modes) ≡ ok o)
    unfolding lexicographic_solve_traced run_pass tardy_request
    lexicographic_solve_traced-total modes first solved s =
        let st = pass_over min_tardy (after_tardy budget.allow_rejection start first) first in
        let (o, rest) = run_passes-total modes st first s (first-Ready first) in
        elim (Bool-cases first.retained_previous) [
          | inl flag ↦ (outcome st first, rw solved (if-true _ _ flag))
          | inr fresh ↦ (o, rw solved (if-false _ _ fresh ∙ rest))
        ]
