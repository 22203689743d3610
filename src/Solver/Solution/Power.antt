-- ===== src/Solver/Solution/Power.antt =====
-- The charging load of an extracted plan is what the model's power intervals demand
-- (solvers/cpsat/model.py: `power_intervals` of `build_and_solve`).
use otto_q_core.Solver.Build.{power_of, block, blocks}
use otto_q_core.Proposer.Measure.{charge_segments_of, op_segments}
use otto_q_core.Solver.Build.Charge.{seg_interval, seg_power, power}
use otto_q_core.Solver.Build.Jobs.{Input, Candidate, candidates}
use otto_q_core.Solver.Segments.{ChargeSegment}
use otto_q_core.Solver.Model.{Work, Interval, Assignment, demand, chosen, wash, inspect}
use otto_q_core.Solver.Extract.{
  is_refused, refused_plan, served_plan, plan_le, charge_op, beside_ops, point_of_first, work_op,
  work_ops, ops_of, asset_plan, asset_plans, op_le, segs_of, charge_ops,
}
use otto_q_core.Plan.{AssetPlan, Segment, Op, is_charge}
use otto_q_core.Scenario.{Asset}
use otto_q_core.Proposer.Measure.Peak.{load}
use otto_q_core.Base.Sort.{sort, additive-sort}
use otto_q_core.Base.{
  ℕ, suc, ◌+◌, ◌≤◌, String, ◌≡◌, refl, ◌⊎◌, inl, inr, true, false, Option, List, [], ◌∷◌, ◌++◌,
  arith, ◌==◌, if◌then◌else◌, Bool-cases, if-true, if-false,
}

-- An asset's plan is that of a refused or of a served asset.
pub asset_plan-cases :
    (inp : Input) (σ : Assignment) (a : Asset) (n : ℕ)
    → ((is_refused inp σ n ≡ true) × (asset_plan inp σ a n ≡ refused_plan inp σ a))
      ⊎ ((is_refused inp σ n ≡ false) × (asset_plan inp σ a n ≡ served_plan inp σ a n))
unfolding asset_plan
asset_plan-cases inp σ a n = elim (Bool-cases (is_refused inp σ n)) [
  | inl e ↦ inl (e, if-true _ _ e)
  | inr e ↦ inr (e, if-false _ _ e)
]

load-append : (t : ℕ) (xs ys : List Segment) → load t (xs ++ ys) ≡ load t xs + load t ys
unfolding load
load-append t [] ys = omega arith
load-append t (s ∷ xs) ys = omega (arith, load-append t xs ys)

-- What an operation, or a list of them, draws.
op_load : ℕ → Op → ℕ
op_load t o = if is_charge o then load t o.segments else 0

ops_load : ℕ → List Op → ℕ
ops_load t ops = load t (op_segments ops)

ops_load-cons :
    (t : ℕ) (o : Op) (ops : List Op) → ops_load t (o ∷ ops) ≡ op_load t o + ops_load t ops
unfolding ops_load op_load op_segments
ops_load-cons t o ops = elim (Bool-cases (is_charge o)) [
  | inl e ↦ rw e (load-append t o.segments (op_segments ops))
  | inr e ↦ rw e (omega arith)
]

ops_load-none : (t : ℕ) → ops_load t [] ≡ 0
unfolding ops_load op_segments load
ops_load-none t = refl

ops_load-append : (t : ℕ) (xs ys : List Op) → ops_load t (xs ++ ys) ≡ ops_load t xs + ops_load t ys
unfolding ops_load op_segments load
ops_load-append t [] ys = omega arith
ops_load-append t (x ∷ xs) ys =
    omega (arith, ops_load-cons t x (xs ++ ys), ops_load-cons t x xs, ops_load-append t xs ys)

ops_load-sort : (t : ℕ) (ops : List Op) → ops_load t (sort op_le ops) ≡ ops_load t ops
ops_load-sort t = additive-sort op_le (ops_load t) (op_load t) (ops_load-cons t)

demand-append :
    (σ : Assignment) (t : ℕ) (xs ys : List (Interval × ℕ))
    → demand σ t (xs ++ ys) ≡ demand σ t xs + demand σ t ys
demand-append σ t [] ys = omega arith
demand-append σ t (x ∷ xs) ys = omega (arith, demand-append σ t xs ys)

module _ (inp : Input) (σ : Assignment) (t : ℕ) (a : Asset) (n : ℕ) where
  seg_power-load :
      (j i : ℕ) (segs : List ChargeSegment)
      → (σ (chosen n j) == 1) ≡ true
      → load t (segs_of σ n j i segs) ≡ demand σ t (seg_power inp a n j i segs)
  unfolding load segs_of seg_power seg_interval
  seg_power-load j i [] h = refl
  seg_power-load j i (seg ∷ segs) h = ground (arith, seg_power-load j (suc i) segs h)

  charge_op-load :
      (j : ℕ) (c : Candidate)
      → (σ (chosen n j) == 1) ≡ true
      → op_load t (charge_op σ n j c) ≡ demand σ t (seg_power inp a n j 0 c.segs)
  unfolding op_load charge_op is_charge
  charge_op-load j c h = seg_power-load j 0 c.segs h

  charge_ops-load :
      (j : ℕ) (cs : List Candidate)
      → ops_load t (charge_ops σ n j cs) ≤ demand σ t (power inp a n j cs)
  unfolding charge_ops power
  charge_ops-load j [] = omega (arith, ops_load-none t)
  charge_ops-load j (c ∷ cs) = elim (Bool-cases (σ (chosen n j) == 1)) [
    | inl e ↦ rw e (
        omega (
          arith,
          demand-append σ t (seg_power inp a n j 0 c.segs) (power inp a n (suc j) cs),
          ops_load-cons t (charge_op σ n j c) (charge_ops σ n (suc j) cs),
          charge_op-load j c e,
          charge_ops-load (suc j) cs,
        ))
    | inr e ↦ rw e (
        omega (
          arith,
          demand-append σ t (seg_power inp a n j 0 c.segs) (power inp a n (suc j) cs),
          charge_ops-load (suc j) cs,
        ))
  ]

  beside_ops-load :
      (point : Option String) (k : ℕ) (ops : List String)
      → ops_load t (beside_ops σ n point k ops) ≡ 0
  unfolding beside_ops ops_load op_segments load
  beside_ops-load point k [] = refl
  beside_ops-load point k (op ∷ ops) = ground (arith, beside_ops-load point (suc k) ops)

  work_ops-load : (w : Work) → ops_load t (work_ops inp σ w a n) ≡ 0
  unfolding work_ops work_op ops_load op_segments load
  work_ops-load w = ground arith

  ops_of-load : ops_load t (ops_of inp σ a n) ≤ demand σ t (power inp a n 0 (candidates inp a))
  unfolding ops_of
  ops_of-load =
      let charge = charge_ops σ n 0 (candidates inp a) in
      let beside = beside_ops σ n (point_of_first charge) 0 a.parallel_ops in
      let washing = work_ops inp σ wash a n in
      let inspecting = work_ops inp σ inspect a n in
      omega (
        arith,
        ops_load-append t charge (beside ++ (washing ++ inspecting)),
        ops_load-append t beside (washing ++ inspecting),
        ops_load-append t washing inspecting,
        charge_ops-load 0 (candidates inp a),
        beside_ops-load (point_of_first charge) 0 a.parallel_ops,
        work_ops-load wash,
        work_ops-load inspect,
      )

  asset_plan-load :
      load t (op_segments (AssetPlan.ops (asset_plan inp σ a n)))
      ≤ demand σ t (power inp a n 0 (candidates inp a))
  unfolding refused_plan served_plan ops_load load op_segments
  asset_plan-load = elim (asset_plan-cases inp σ a n) [
    | inl (_, e) ↦ rw e (omega arith)
    | inr (_, e) ↦ rw e (omega (arith, ops_load-sort t (ops_of inp σ a n), ops_of-load))
  ]

module _ (inp : Input) (σ : Assignment) (t : ℕ) where
  pub asset_plans-load :
      (n : ℕ) (assets : List Asset)
      → load t (charge_segments_of (asset_plans inp σ n assets))
        ≤ demand σ t (power_of (blocks inp n assets))
  unfolding charge_segments_of asset_plans blocks power_of block load
  asset_plans-load n [] = omega arith
  asset_plans-load n (a ∷ rest) = omega (
    arith,
    load-append t (op_segments (AssetPlan.ops (asset_plan inp σ a n)))
        (charge_segments_of (asset_plans inp σ (suc n) rest)),
    demand-append σ t (power inp a n 0 (candidates inp a)) (power_of (blocks inp (suc n) rest)),
    asset_plan-load inp σ t a n,
    asset_plans-load (suc n) rest,
  )

pub charge_segments_of-sort :
    (t : ℕ) (plans : List AssetPlan)
    → load t (charge_segments_of (sort plan_le plans)) ≡ load t (charge_segments_of plans)
unfolding charge_segments_of
charge_segments_of-sort t =
    additive-sort plan_le (λ ps. load t (charge_segments_of ps))
      (λ p. load t (op_segments (AssetPlan.ops p)))
      (λ p ps. load-append t (op_segments (AssetPlan.ops p)) (charge_segments_of ps))
