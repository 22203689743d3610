-- ===== src/Chain/Served.antt =====
-- The served set along the chain (policies/forward.py: `served_floor` and the plan that the flow
-- pass ships).
use otto_q_core.Chain.Honoured.{some-eq}
use otto_q_core.Solver.Laws.{Comes, build_and_solve-Comes, >>=-eq-ok, ok-inj}
use otto_q_core.Intent.Solve.{Mode, mode_eq, has_mode, min_tardy, min_peak, min_flow, weighted}
use otto_q_core.Scenario.{Scenario}
use otto_q_core.Solver.{
  names_of, Budget, Request, build_and_solve, ServesAll, ServesRequired, CpSatLaws, request, retain,
  ok,
}
use otto_q_core.Base.{
  ◌≤◌, String, ◌≡◌, refl, sym, subst, ◌∙◌, inl, inr, true, false, some, List, [], ◌∷◌, arith,
  eq_iff, str_eq, if◌then◌else◌, Bool-cases, if-true, if-false, same_bool, elem,
}
use otto_q_core.Plan.{Status, flow_total, served_names, Plan}
use otto_q_core.Chain.{
  ChainState, flow_plan, tardy_request, soft_request, after_tardy, peak_value, after_peak,
  after_flow, Outcome, pass_over, run_pass, run_passes, lexicographic_solve_traced, same_served,
  keep_held, is_better, better_flow, subset, start, outcome,
}

all-elem :
    (names xs : List String) (k : String)
    → subset names xs ≡ true
    → elem k names ≡ true
    → elem k xs ≡ true
unfolding subset
all-elem [] xs k h e = cc
all-elem (n ∷ names) xs k h e = elim (Bool-cases (str_eq k n)) [
  | inl hit ↦ subst (λ x. elem x xs ≡ true) (sym ((eq_iff k n).0 hit)) (ground arith)
  | inr miss ↦ all-elem names xs k (ground arith) (ground arith)
]

-- The flow pass, handed a plan, ships one that serves the same assets as the solver's own plan.
-- It finishes them no later in sum and, unless the solver retained, no later than the plan handed
-- to it, if that serves the same assets.
pub better_flow-no_worse :
    (held plan : Plan)
    → ((k : String)
        → elem k (served_names (better_flow held plan).assets) ≡ elem k (served_names plan.assets))
      × (flow_total (better_flow held plan).assets ≤ flow_total plan.assets)
      × (plan.retained_previous ≡ false
          → same_served held plan ≡ true
          → flow_total (better_flow held plan).assets ≤ flow_total held.assets)
unfolding better_flow is_better keep_held same_served
better_flow-no_worse held plan = elim (Bool-cases (is_better held plan)) [
  | inl better ↦ rw better (
    λ k. same_bool _ _ (all-elem _ _ k (ground arith)) (all-elem _ _ k (ground arith)),
    ground arith,
    λ f s. omega arith,
  )
  | inr worse ↦ rw worse (λ k. refl, omega arith, λ f s. ground arith)
]

-- What the loop holds between passes when rejection is allowed: the plan serves the floor.
record Floor (names : List String) (st : ChainState) (p : Plan) : Type 0 where
  held : st.plan ≡ some p
  floor : st.served_floor ≡ some names
  serves : ServesAll names p

module _ (sc : Scenario) (names : List String) (budget : Budget)
    (known : (k : String) → elem k names ≡ true → elem k (names_of sc) ≡ true)
    (allowed : budget.allow_rejection ≡ true) where
  soft-ServesAll :
      (mode : Mode) (st : ChainState) (p plan : Plan)
      → Floor names st p
      → Comes sc (soft_request mode budget st) plan
      → ServesAll names plan
  unfolding soft_request request retain
  soft-ServesAll mode st p plan f (inl sol) = (λ k h.
      subst (λ o. ServesRequired sc o plan) f.floor (sol.required_served allowed) k h (known k h))
  soft-ServesAll mode st p plan f (inr (s, q, e, made)) =
      subst (ServesAll names) (sym made)
        (subst (ServesAll names) (some-eq (sym f.held ∙ e)) f.serves)

  module _ (cp_sat : Scenario → Request → Status × Plan) (laws : CpSatLaws cp_sat) where
    run_pass-Floor :
        (mode : Mode) (st : ChainState) (p : Plan) (r : Plan × ChainState)
        → Floor names st p
        → mode_eq mode min_tardy ≡ false
        → run_pass cp_sat sc budget mode st ≡ ok r
        → Floor names (pass_over mode r.1 r.0) r.0
    unfolding run_pass flow_plan pass_over after_peak after_flow
    run_pass-Floor weighted st p r f late e = cc
    run_pass-Floor min_tardy st p r f late e = cc
    run_pass-Floor min_peak st p r f late e =
        let (plan, solved, rest) =
          >>=-eq-ok (build_and_solve cp_sat sc (soft_request min_peak budget st)) _ e in
        let (value, read, made) = >>=-eq-ok (peak_value plan) _ rest in
        let serves =
          soft-ServesAll min_peak st p plan f (build_and_solve-Comes cp_sat laws sc _ solved) in
        subst (λ s. Floor names (pass_over min_peak s.1 s.0) s.0) (ok-inj made)
          record { held = refl; floor = f.floor; serves = serves }
    run_pass-Floor min_flow st p r f late e =
        let (plan, solved, made) =
          >>=-eq-ok (build_and_solve cp_sat sc (soft_request min_flow budget st)) _ e in
        let serves =
          soft-ServesAll min_flow st p plan f (build_and_solve-Comes cp_sat laws sc _ solved) in
        let shipped =
          subst (λ o. ok (flow_plan o plan, after_flow st (flow_plan o plan)) ≡ ok r) f.held made in
        subst (λ s. Floor names (pass_over min_flow s.1 s.0) s.0) (ok-inj shipped)
          record {
            held = refl;
            floor = f.floor;
            serves = λ k h. (better_flow-no_worse p plan).0 k ∙ serves k h;
          }

    run_passes-ServesAll :
        (modes : List Mode) (st : ChainState) (p : Plan) (o : Outcome)
        → Floor names st p
        → has_mode min_tardy modes ≡ false
        → run_passes cp_sat sc budget modes st p ≡ ok o
        → ServesAll names o.plan
    unfolding run_passes outcome
    run_passes-ServesAll [] st p o f late e =
        subst (λ x. ServesAll names x.plan) (ok-inj e) f.serves
    run_passes-ServesAll (mode ∷ modes) st p o f late e =
        let (r, ran, rest) = >>=-eq-ok (run_pass cp_sat sc budget mode st) _ e in
        let f' = run_pass-Floor mode st p r f (ground arith) ran in
        elim (Bool-cases r.0.retained_previous) [
          | inl flag ↦
              subst (λ x. ServesAll names x.plan) (ok-inj (sym (if-true _ _ flag) ∙ rest)) f'.serves
          | inr fresh ↦
              run_passes-ServesAll modes (pass_over mode r.1 r.0) r.0 o f' (ground arith)
                (sym (if-false _ _ fresh) ∙ rest)
        ]

first_Floor :
    (budget : Budget) (first : Plan)
    → budget.allow_rejection ≡ true
    → Floor
        (served_names first.assets)
        (pass_over min_tardy (after_tardy budget.allow_rejection start first) first)
        first
unfolding pass_over after_tardy
first_Floor budget first allowed = record {
  held = refl;
  floor = rw allowed refl;
  serves = λ k s. s;
}

-- The first plan lists assets of the scenario: it is no retained one.
first_known :
    (sc : Scenario) (budget : Budget) (first : Plan)
    → Comes sc (request min_tardy budget) first
    → (k : String) → elem k (served_names first.assets) ≡ true
    → elem k (names_of sc) ≡ true
unfolding request
first_known sc budget first (inl sol) k h = sol.listed k h
first_known sc budget first (inr (s, q, held, made)) k h = cc

begin :
    (cp_sat : Scenario → Request → Status × Plan) (sc : Scenario) (budget : Budget)
    (modes : List Mode) (first : Plan) {o : Outcome}
    → build_and_solve cp_sat sc (request min_tardy budget) ≡ ok first
    → lexicographic_solve_traced cp_sat sc budget (min_tardy ∷ modes) ≡ ok o
    → (let st = pass_over min_tardy (after_tardy budget.allow_rejection start first) first in
        if first.retained_previous
        then ok (outcome st first)
        else run_passes cp_sat sc budget modes st first)
      ≡ ok o
unfolding lexicographic_solve_traced run_pass tardy_request request
begin cp_sat sc budget modes first e h = rw e at h

-- With rejection allowed and one tardiness pass, at the head: the plan that the chain returns
-- serves every asset that the plan of the tardiness pass serves.
pub lexicographic_solve_traced-serves :
    (cp_sat : Scenario → Request → Status × Plan)
    → CpSatLaws cp_sat
    → (sc : Scenario) (budget : Budget) (modes : List Mode) (first : Plan) (o : Outcome)
    → budget.allow_rejection ≡ true
    → has_mode min_tardy modes ≡ false
    → build_and_solve cp_sat sc (request min_tardy budget) ≡ ok first
    → lexicographic_solve_traced cp_sat sc budget (min_tardy ∷ modes) ≡ ok o
    → ServesAll (served_names first.assets) o.plan
unfolding outcome
lexicographic_solve_traced-serves cp_sat laws sc budget modes first o allowed once e h =
    let st = pass_over min_tardy (after_tardy budget.allow_rejection start first) first in
    let begun = begin cp_sat sc budget modes first e h in
    elim (Bool-cases first.retained_previous) [
      | inl flag ↦
          subst (λ x. ServesAll (served_names first.assets) x.plan)
            (ok-inj (sym (if-true _ _ flag) ∙ begun)) (λ k s. s)
      | inr fresh ↦
          run_passes-ServesAll sc (served_names first.assets) budget
            (first_known sc budget first (build_and_solve-Comes cp_sat laws sc _ e)) allowed cp_sat
            laws modes st first o (first_Floor budget first allowed) once
            (sym (if-false _ _ fresh) ∙ begun)
    ]
