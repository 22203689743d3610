-- ===== src/Chain/Honoured.antt =====
-- The plan that the chain returns honours every optimum that the chain reports.
use otto_q_core.Scenario.{Scenario}
use otto_q_core.Solver.Laws.{Comes}
use otto_q_core.Proposer.Measure.{
  Measured, charge_segments_of, peak_of, Within, measure_plan, check_optima,
}
use otto_q_core.Plan.{tardy_total, flow_total, Status, Plan}
use otto_q_core.Solver.{Budget, Request, IsSolution, request, retain, ok}
use otto_q_core.Intent.Solve.Passes.{mode_eq_refl, mode_eq-eq, mode_eq_sym}
use otto_q_core.Proposer.Measure.Optima.{Under, Linked-check, EntryOf, Ceilings, Linked, has_key}
use otto_q_core.Base.{
  ℕ, ◌≡◌, refl, sym, ap, subst, ◌∙◌, ◌⊎◌, inl, inr, true, false, ◌||◌, Option, none, some, [], ◌∷◌,
  arith, if◌then◌else◌, Bool-cases,
}
use otto_q_core.Intent.Solve.{Mode, mode_eq, weighted, min_tardy, min_peak, min_flow}
use otto_q_core.Chain.{
  keep_held, is_better, better_flow, after_flow, ChainState, Optima, set_optimum, soft_request,
  peak_value, after_peak, pass_over,
}

mode_eq_trans : (m n k : Mode) → mode_eq m n ≡ true → mode_eq k m ≡ mode_eq k n
mode_eq_trans m n k h = ap (mode_eq k) (mode_eq-eq m n h)

has_key-set_optimum :
    (k m : Mode) (v : Option ℕ) (o : Optima)
    → has_key k (set_optimum m v o) ≡ (mode_eq k m || has_key k o)
unfolding set_optimum
has_key-set_optimum k m v [] = refl
has_key-set_optimum k m v ((n, x) ∷ rest) =
    ground (arith, has_key-set_optimum k m v rest, mode_eq_trans m n k)

module _ (c d : Ceilings) (m : Mode) (agree : (n : Mode) → mode_eq m n ≡ false → d n ≡ c n) where
  Linked-absent : (o : Optima) → has_key m o ≡ false → Linked c o → Linked d o
  Linked-absent [] a l = tt
  Linked-absent ((n, v) ∷ rest) a l = (
    subst (λ x. EntryOf x v) (sym (agree n (ground arith))) l.0,
    l.1,
    Linked-absent rest (ground arith) l.2,
  )

  Linked-set :
      (v : Option ℕ) (o : Optima) → EntryOf (d m) v → Linked c o → Linked d (set_optimum m v o)
  unfolding set_optimum
  Linked-set v [] e l = (e, refl, tt)
  Linked-set v ((n, x) ∷ rest) e l = elim (Bool-cases (mode_eq m n)) [
    | inl hit ↦
        rw (hit, set_optimum)
          (
            subst (λ k. EntryOf (d k) v) (mode_eq-eq m n hit) e,
            l.1,
            Linked-absent rest (subst (λ k. has_key k rest ≡ false) (sym (mode_eq-eq m n hit)) l.1)
                l.2,
          )
    | inr miss ↦
        rw (miss, set_optimum)
          (
            subst (λ x'. EntryOf x' x) (sym (agree n miss)) l.0,
            ground (arith, has_key-set_optimum n m v rest, mode_eq_sym m n),
            Linked-set v rest e l.2,
          )
  ]

-- The ceilings that the loop holds.
abbrev pub ceil : ChainState → Ceilings
ceil st min_tardy = st.max_tardy
ceil st min_peak = st.max_peak
ceil st min_flow = st.max_flow
ceil st weighted = none

-- Between passes: the current plan is fresh and under every ceiling that was recorded.
pub record Inv (st : ChainState) (p : Plan) : Type 0 where
  pub held : st.plan ≡ some p
  pub fresh : p.retained_previous ≡ false
  pub under : Under (measure_plan p) (ceil st)
  pub linked : Linked (ceil st) st.optima

-- The check of the optima passes on what would be returned now.
abbrev pub Good : ChainState → Plan → Type 0
Good st p = check_optima (measure_plan p) st.optima ≡ none

abbrev pub StepGood : ChainState → Plan → Type 0
StepGood st p = Inv st p ⊎ ((p.retained_previous ≡ true) × Good st p)

-- A retained plan has the figures of the plan before it.
retained-Good :
    (s : Status) (r : Request) (st : ChainState) (p plan : Plan) (c : Ceilings) (o : Optima)
    → Under (measure_plan p) c
    → Linked c o
    → plan ≡ retain s r p
    → check_optima (measure_plan plan) o ≡ none
unfolding measure_plan retain
retained-Good s r st p plan c o u l e = rw e (Linked-check (measure_plan (retain s r p)) c o u l)

pub retain_flag : (s : Status) (r : Request) (p : Plan) → (retain s r p).retained_previous ≡ true
unfolding retain
retain_flag s r p = refl

pub some-eq {ℓ} : {A : Type ℓ} {a b : A} → some a ≡ some b → a ≡ b
some-eq h = cc

ok_value : {a b : Option ℕ} → ok a ≡ ok b → a ≡ b
ok_value h = cc

peak_value_fresh :
    (p : Plan) (kw : ℕ) {v : Option ℕ}
    → p.retained_previous ≡ false
    → p.site_peak_kw ≡ some kw
    → peak_value p ≡ ok v
    → v ≡ some kw
unfolding peak_value
peak_value_fresh p kw f e h = ground arith

EntryOf-self : (v : Option ℕ) → EntryOf v v
EntryOf-self none = tt
EntryOf-self (some v) = refl

EntryOf-none : (c : Option ℕ) → EntryOf c none
EntryOf-none c = tt

-- The ceilings with that of one mode replaced.
abbrev with_ceiling : Mode → Option ℕ → Ceilings → Ceilings
with_ceiling m v c n = if mode_eq m n then v else c n

Linked-cleared :
    (c : Ceilings) (m : Mode) (v : Option ℕ) (o : Optima)
    → Linked c o
    → Linked (with_ceiling m none c) (set_optimum m none (set_optimum m v o))
Linked-cleared c m v o l =
    Linked-set (with_ceiling m v c) (with_ceiling m none c) m (λ n h. rw h) none (set_optimum m v o)
      tt
      (Linked-set c (with_ceiling m v c) m (λ n h. rw h) v o (rw (mode_eq_refl m) (EntryOf-self v))
        l)

Under-without :
    (f : Measured) (m : Mode) (c : Ceilings) → Under f c → Under f (with_ceiling m none c)
Under-without f weighted c u = u
Under-without f min_tardy c u = (tt, u.1, u.2)
Under-without f min_peak c u = (u.0, tt, u.2)
Under-without f min_flow c u = (u.0, u.1, tt)

-- What a pass leaves of the ceilings of the other modes.
peak_agree :
    (st : ChainState) (plan : Plan) (v : Option ℕ) (n : Mode)
    → mode_eq min_peak n ≡ false
    → ceil (pass_over min_peak (after_peak st plan v) plan) n ≡ ceil st n
unfolding pass_over after_peak
peak_agree st plan v weighted h = refl
peak_agree st plan v min_tardy h = refl
peak_agree st plan v min_peak h = cc
peak_agree st plan v min_flow h = refl

flow_agree :
    (st : ChainState) (plan : Plan) (n : Mode)
    → mode_eq min_flow n ≡ false
    → ceil (pass_over min_flow (after_flow st plan) plan) n ≡ ceil st n
unfolding pass_over after_flow
flow_agree st plan weighted h = refl
flow_agree st plan min_tardy h = refl
flow_agree st plan min_peak h = refl
flow_agree st plan min_flow h = cc

module _ (budget : Budget) (st : ChainState) (p : Plan) (inv : Inv st p) where
  peak_solved :
      {sc : Scenario} (plan : Plan) (value : Option ℕ)
      → IsSolution sc (soft_request min_peak budget st) plan
      → peak_value plan ≡ ok value
      → Inv (pass_over min_peak (after_peak st plan value) plan) plan
  unfolding soft_request request pass_over after_peak measure_plan
  peak_solved plan value sol e =
      let (kw, reported, bounded) = sol.peak_reported refl in
      let v = peak_value_fresh plan kw sol.fresh reported e in
      record {
        held = refl;
        fresh = sol.fresh;
        under = (sol.tardy_held, rw v bounded, sol.flow_held);
        linked = rw sol.fresh (
            Linked-set (ceil st) (ceil (pass_over min_peak (after_peak st plan value) plan))
              min_peak (peak_agree st plan value) value st.optima (EntryOf-self value) inv.linked);
      }

  flow_solved :
      (plan : Plan)
      → plan.retained_previous ≡ false
      → Within (tardy_total plan.assets) st.max_tardy
      → Within (peak_of (charge_segments_of plan.assets)) st.max_peak
      → Inv (pass_over min_flow (after_flow st plan) plan) plan
  unfolding pass_over after_flow measure_plan
  flow_solved plan fresh tardy peak = record {
    held = refl;
    fresh = fresh;
    under = (tardy, peak, omega arith);
    linked = rw fresh (
        Linked-set (ceil st) (ceil (pass_over min_flow (after_flow st plan) plan)) min_flow
          (flow_agree st plan) (some (flow_total plan.assets)) st.optima refl inv.linked);
  }

  -- The plan that a retained pass returns is the current one.
  previous_is :
      (mode : Mode) (q : Plan) → (soft_request mode budget st).previous_plan ≡ some q → p ≡ q
  unfolding soft_request
  previous_is mode q e = some-eq (sym inv.held ∙ e)

  peak_retained :
      (s : Status) (q plan : Plan) (value : Option ℕ)
      → p ≡ q
      → plan ≡ retain s (soft_request min_peak budget st) q
      → (plan.retained_previous ≡ true)
        × Good (pass_over min_peak (after_peak st plan value) plan) plan
  unfolding pass_over after_peak measure_plan
  peak_retained s q plan value pq e =
      let flag : plan.retained_previous ≡ true =
        rw e (retain_flag s (soft_request min_peak budget st) q) in
      (
        flag,
        rw flag (
            retained-Good s (soft_request min_peak budget st) st q plan
              (with_ceiling min_peak none (ceil st)) _
              (Under-without (measure_plan q) min_peak (ceil st)
                (subst (λ x. Under (measure_plan x) (ceil st)) pq inv.under))
              (Linked-cleared (ceil st) min_peak value st.optima inv.linked) e),
      )

  flow_retained :
      (s : Status) (q plan : Plan)
      → p ≡ q
      → plan ≡ retain s (soft_request min_flow budget st) q
      → (plan.retained_previous ≡ true) × Good (pass_over min_flow (after_flow st plan) plan) plan
  unfolding pass_over after_flow measure_plan
  flow_retained s q plan pq e =
      let flag : plan.retained_previous ≡ true =
        rw e (retain_flag s (soft_request min_flow budget st) q) in
      (
        flag,
        rw flag (
            retained-Good s (soft_request min_flow budget st) st q plan
              (with_ceiling min_flow none (ceil st)) _
              (Under-without (measure_plan q) min_flow (ceil st)
                (subst (λ x. Under (measure_plan x) (ceil st)) pq inv.under))
              (Linked-cleared (ceil st) min_flow (some (flow_total plan.assets)) st.optima
                inv.linked)
              e),
      )

  kept-Inv :
      {sc : Scenario} (solved : Plan)
      → IsSolution sc (soft_request min_flow budget st) solved
      → Inv
          (pass_over min_flow (after_flow st (better_flow p solved)) (better_flow p solved))
          (better_flow p solved)
  unfolding soft_request request better_flow keep_held measure_plan
  kept-Inv solved sol = elim (Bool-cases (is_better p solved)) [
    | inl better ↦ rw better (flow_solved (keep_held p solved) inv.fresh inv.under.0 inv.under.1)
    | inr worse ↦ rw worse (flow_solved solved sol.fresh sol.tardy_held sol.peak_held)
  ]

  better_flow_retained :
      (held plan : Plan) → plan.retained_previous ≡ true → better_flow held plan ≡ plan
  unfolding better_flow is_better
  better_flow_retained held plan h = rw h refl

  pub flow_step :
      {sc : Scenario} (solved : Plan)
      → Comes sc (soft_request min_flow budget st) solved
      → StepGood
          (pass_over min_flow (after_flow st (better_flow p solved)) (better_flow p solved))
          (better_flow p solved)
  flow_step solved (inl sol) = inl (kept-Inv solved sol)
  flow_step solved (inr (s, q, e, made)) =
      let same_plan = better_flow_retained p solved (rw made (retain_flag s _ q)) in
      rw same_plan (inr (flow_retained s q solved (previous_is min_flow q e) made))

  pub peak_step :
      {sc : Scenario} (plan : Plan) (value : Option ℕ)
      → Comes sc (soft_request min_peak budget st) plan
      → peak_value plan ≡ ok value
      → StepGood (pass_over min_peak (after_peak st plan value) plan) plan
  peak_step plan value (inl sol) e = inl (peak_solved plan value sol e)
  peak_step plan value (inr (s, q, held, made)) e =
      inr (peak_retained s q plan value (previous_is min_peak q held) made)
