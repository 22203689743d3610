-- ===== src/Chain/Covered.antt =====
-- What every plan of the search has in its assets, the chain's plan has too (policies/forward.py):
-- retaining a plan, and shipping the one that was held, leave the assets as they are.
use otto_q_core.Chain.Honoured.{some-eq}
use otto_q_core.Base.{
  ◌≡◌, refl, sym, subst, ◌∙◌, inl, inr, true, Option, none, some, List, [], ◌∷◌, Bool-cases,
  if-true, if-false,
}
use otto_q_core.Intent.Solve.{mode_eq, min_tardy, min_peak, min_flow, Mode, weighted}
use otto_q_core.Solver.{Request, has_solution, build_and_solve, Budget, request, retain, ok}
use otto_q_core.Solver.Laws.{>>=-eq-ok, ok-inj, build_and_solve-FromSearch}
use otto_q_core.Plan.{AssetPlan, Status, Plan}
use otto_q_core.Chain.{
  ChainState, keep_held, is_better, flow_plan, tardy_request, soft_request, after_tardy, peak_value,
  after_peak, after_flow, Outcome, pass_over, run_pass, run_passes, lexicographic_solve_traced,
  better_flow, start, outcome,
}
use otto_q_core.Scenario.{Scenario}

module _ (cp_sat : Scenario → Request → Status × Plan) (sc : Scenario) (P : List AssetPlan → Type 0)
    (solution : (r : Request)
      → has_solution (cp_sat sc r).0 ≡ true
      → P (cp_sat sc r).1.assets) where
  pub build_and_solve-P :
      (r : Request) (p : Plan)
      → ((q : Plan) → r.previous_plan ≡ some q → P q.assets)
      → build_and_solve cp_sat sc r ≡ ok p
      → P p.assets
  unfolding retain
  build_and_solve-P r p before e = elim (build_and_solve-FromSearch cp_sat sc r e) [
    | inl (solved, same_plan) ↦ subst (λ x. P x.assets) same_plan (solution r solved)
    | inr (s, q, held, kept) ↦ subst (λ x. P x.assets) (sym kept) (before q held)
  ]

  flow_plan-P :
      (o : Option Plan) (plan : Plan)
      → ((q : Plan) → o ≡ some q → P q.assets)
      → P plan.assets
      → P (flow_plan o plan).assets
  unfolding flow_plan better_flow keep_held
  flow_plan-P none plan before here = here
  flow_plan-P (some held) plan before here = elim (Bool-cases (is_better held plan)) [
    | inl better ↦ rw better (before held refl)
    | inr worse ↦ rw worse here
  ]

  module _ (budget : Budget) where
    run_pass-P :
        (mode : Mode) (st : ChainState) (r : Plan × ChainState)
        → ((q : Plan) → st.plan ≡ some q → P q.assets)
        → run_pass cp_sat sc budget mode st ≡ ok r
        → P r.0.assets × ((pass_over mode r.1 r.0).plan ≡ some r.0)
    unfolding run_pass tardy_request soft_request request pass_over after_tardy after_peak
        after_flow
    run_pass-P weighted st r before e = cc
    run_pass-P min_tardy st r before e =
        let (plan, solved, made) =
          >>=-eq-ok (build_and_solve cp_sat sc (tardy_request budget)) _ e in
        let here = build_and_solve-P (tardy_request budget) plan (λ q h. cc) solved in
        subst (λ s. P s.0.assets × (s.1.plan ≡ some s.0)) (ok-inj made) (here, refl)
    run_pass-P min_peak st r before e =
        let (plan, solved, rest) =
          >>=-eq-ok (build_and_solve cp_sat sc (soft_request min_peak budget st)) _ e in
        let (value, read, made) = >>=-eq-ok (peak_value plan) _ rest in
        let here = build_and_solve-P (soft_request min_peak budget st) plan before solved in
        subst (λ s. P s.0.assets × (s.1.plan ≡ some s.0)) (ok-inj made) (here, refl)
    run_pass-P min_flow st r before e =
        let (plan, solved, made) =
          >>=-eq-ok (build_and_solve cp_sat sc (soft_request min_flow budget st)) _ e in
        let here = build_and_solve-P (soft_request min_flow budget st) plan before solved in
        subst (λ s. P s.0.assets × (s.1.plan ≡ some s.0)) (ok-inj made)
          (flow_plan-P st.plan plan before here, refl)

    run_passes-P :
        (modes : List Mode) (st : ChainState) (p : Plan) (o : Outcome)
        → P p.assets
        → st.plan ≡ some p
        → run_passes cp_sat sc budget modes st p ≡ ok o
        → P o.plan.assets
    unfolding run_passes outcome
    run_passes-P [] st p o here held e = subst (λ x. P x.plan.assets) (ok-inj e) here
    run_passes-P (mode ∷ modes) st p o here held e =
        let (r, ran, rest) = >>=-eq-ok (run_pass cp_sat sc budget mode st) _ e in
        let before : (q : Plan) → st.plan ≡ some q → P q.assets =
          λ q h. subst (λ x. P x.assets) (some-eq (sym held ∙ h)) here in
        let (here', held') = run_pass-P mode st r before ran in
        elim (Bool-cases r.0.retained_previous) [
          | inl flag ↦ subst (λ x. P x.plan.assets) (ok-inj (sym (if-true _ _ flag) ∙ rest)) here'
          | inr fresh ↦
              run_passes-P modes (pass_over mode r.1 r.0) r.0 o here' held'
                (sym (if-false _ _ fresh) ∙ rest)
        ]

    pub lexicographic_solve_traced-P :
        (modes : List Mode) (o : Outcome)
        → lexicographic_solve_traced cp_sat sc budget modes ≡ ok o
        → P o.plan.assets
    unfolding lexicographic_solve_traced start outcome
    lexicographic_solve_traced-P [] o e = cc
    lexicographic_solve_traced-P (mode ∷ modes) o e = elim (Bool-cases (mode_eq mode min_tardy)) [
      | inr other ↦ cc (rw other at e)
      | inl floor ↦
          let (r, ran, rest) = >>=-eq-ok (run_pass cp_sat sc budget mode start) _ (rw floor at e) in
          let (here, held) = run_pass-P mode start r (λ q h. cc) ran in
          elim (Bool-cases r.0.retained_previous) [
            | inl flag ↦ subst (λ x. P x.plan.assets) (ok-inj (sym (if-true _ _ flag) ∙ rest)) here
            | inr fresh ↦
                run_passes-P modes (pass_over mode r.1 r.0) r.0 o here held
                  (sym (if-false _ _ fresh) ∙ rest)
          ]
    ]
