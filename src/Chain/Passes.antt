-- ===== src/Chain/Passes.antt =====
-- The whole chain (policies/forward.py: `lexicographic_solve_traced`): its plan honours the optima.
use otto_q_core.Proposer.Measure.Optima.{Linked-check}
use otto_q_core.Proposer.Measure.{measure_plan, check_optima}
use otto_q_core.Base.{
  ◌≡◌, refl, sym, subst, ◌∙◌, inl, inr, false, none, List, [], ◌∷◌, arith, if-true, if-false,
}
use otto_q_core.Intent.Solve.{has_mode, min_tardy, min_peak, min_flow, Mode, mode_eq, weighted}
use otto_q_core.Solver.{Request, build_and_solve, CpSatLaws, Budget, ok, request}
use otto_q_core.Solver.Laws.{>>=-eq-ok, ok-inj, build_and_solve-Comes}
use otto_q_core.Plan.{Status, Plan}
use otto_q_core.Chain.{
  set_optimum, tardy_request, after_tardy, lexicographic_solve_traced, ChainState, flow_plan,
  soft_request, peak_value, after_flow, Outcome, pass_over, run_pass, run_passes, outcome, start,
}
use otto_q_core.Chain.Honoured.{Good, StepGood, flow_step, peak_step, Inv, ceil}
use otto_q_core.Scenario.{Scenario}

tardy_Inv :
    (budget : Budget) (plan : Plan)
    → plan.retained_previous ≡ false
    → Inv (pass_over min_tardy (after_tardy budget.allow_rejection start plan) plan) plan
unfolding pass_over after_tardy start measure_plan set_optimum
tardy_Inv budget plan fresh = record {
  held = refl;
  fresh = fresh;
  under = (omega arith, tt, tt);
  linked = rw fresh (refl, refl, tt);
}

module _ (cp_sat : Scenario → Request → Status × Plan) (laws : CpSatLaws cp_sat) (sc : Scenario)
    (budget : Budget) where
  -- A later pass.
  run_pass-StepGood :
      (mode : Mode) (st : ChainState) (p : Plan) (r : Plan × ChainState)
      → Inv st p
      → mode_eq mode min_tardy ≡ false
      → run_pass cp_sat sc budget mode st ≡ ok r
      → StepGood (pass_over mode r.1 r.0) r.0
  unfolding run_pass flow_plan
  run_pass-StepGood weighted st p r inv late e = cc
  run_pass-StepGood min_tardy st p r inv late e = cc
  run_pass-StepGood min_peak st p r inv late e =
      let (plan, solved, rest) =
        >>=-eq-ok (build_and_solve cp_sat sc (soft_request min_peak budget st)) _ e in
      let (value, read, made) = >>=-eq-ok (peak_value plan) _ rest in
      subst (λ s. StepGood (pass_over min_peak s.1 s.0) s.0) (ok-inj made)
        (peak_step budget st p inv plan value (build_and_solve-Comes cp_sat laws sc _ solved) read)
  run_pass-StepGood min_flow st p r inv late e =
      let (plan, solved, made) =
        >>=-eq-ok (build_and_solve cp_sat sc (soft_request min_flow budget st)) _ e in
      let held =
        subst (λ o. ok (flow_plan o plan, after_flow st (flow_plan o plan)) ≡ ok r) inv.held made in
      subst (λ s. StepGood (pass_over min_flow s.1 s.0) s.0) (ok-inj held)
        (flow_step budget st p inv plan (build_and_solve-Comes cp_sat laws sc _ solved))

  StepGood-Good : (st : ChainState) (p : Plan) → StepGood st p → Good st p
  StepGood-Good st p (inl inv) =
      Linked-check (measure_plan p) (ceil st) st.optima inv.under inv.linked
  StepGood-Good st p (inr (flag, good)) = good

  run_passes-Good :
      (modes : List Mode) (st : ChainState) (p : Plan) (o : Outcome)
      → Inv st p
      → has_mode min_tardy modes ≡ false
      → run_passes cp_sat sc budget modes st p ≡ ok o
      → check_optima (measure_plan o.plan) o.optima ≡ none
  unfolding run_passes outcome
  run_passes-Good [] st p o inv late e =
      subst (λ x. check_optima (measure_plan x.plan) x.optima ≡ none) (ok-inj e)
        (StepGood-Good st p (inl inv))
  run_passes-Good (mode ∷ modes) st p o inv late e =
      let (r, ran, rest) = >>=-eq-ok (run_pass cp_sat sc budget mode st) _ e in
      elim (run_pass-StepGood mode st p r inv (ground arith) ran) [
        | inl inv' ↦
            run_passes-Good modes (pass_over mode r.1 r.0) r.0 o inv' (ground arith)
              (sym (if-false _ _ inv'.fresh) ∙ rest)
        | inr (flag, good) ↦
            subst (λ x. check_optima (measure_plan x.plan) x.optima ≡ none)
              (ok-inj (sym (if-true _ _ flag) ∙ rest)) good
      ]

  -- The first pass has no plan to retain: its plan is a solution, and its state is `Inv`.
  first-Inv :
      (r : Plan × ChainState)
      → run_pass cp_sat sc budget min_tardy start ≡ ok r
      → Inv (pass_over min_tardy r.1 r.0) r.0
  unfolding run_pass tardy_request request start
  first-Inv r e =
      let (plan, solved, made) =
        >>=-eq-ok (build_and_solve cp_sat sc (request min_tardy budget)) _ e in
      elim (build_and_solve-Comes cp_sat laws sc (request min_tardy budget) solved) [
        | inl sol ↦
            subst (λ s. Inv (pass_over min_tardy s.1 s.0) s.0) (ok-inj made)
              (tardy_Inv budget plan sol.fresh)
        | inr (s, q, none_before, kept) ↦ cc
      ]

  -- With one tardiness pass, at the head, the plan that the chain returns honours every optimum that it reports.
  pub lexicographic_solve_traced-honours :
      (modes : List Mode) (o : Outcome)
      → has_mode min_tardy modes ≡ false
      → lexicographic_solve_traced cp_sat sc budget (min_tardy ∷ modes) ≡ ok o
      → check_optima (measure_plan o.plan) o.optima ≡ none
  unfolding lexicographic_solve_traced
  lexicographic_solve_traced-honours modes o once e =
      let (r, ran, rest) = >>=-eq-ok (run_pass cp_sat sc budget min_tardy start) _ e in
      let inv = first-Inv r ran in
      run_passes-Good modes (pass_over min_tardy r.1 r.0) r.0 o inv once
        (sym (if-false _ _ inv.fresh) ∙ rest)
