-- ===== src/Solver/Solution/Forward.antt =====
-- The segments of an extracted plan do not end before they start: a chosen candidate's intervals
-- span their minutes (solvers/cpsat/model.py: `iv` in the loop over the segments).
use otto_q_core.Proposer.Measure.{op_segments, charge_segments_of}
use otto_q_core.Solver.Build.Charge.{
  seg_interval, seg_constraints, candidate_constraints, chain_constraints, served_domain,
  charge_constraints, joins, onpeak, choice, floor, pins,
}
use otto_q_core.Solver.Build.Jobs.{Input, Candidate, pinned, candidates}
use otto_q_core.Solver.Solution.Power.{asset_plan-cases}
use otto_q_core.Solver.Segments.{ChargeSegment}
use otto_q_core.Solver.Build.{Block, own_of, block, blocks}
use otto_q_core.Solver.Model.{Work, Satisfies, Assignment, Holds, wash, inspect, chosen}
use otto_q_core.Solver.Extract.{
  op_le, plan_le, segs_of, charge_ops, beside_ops, work_op, work_ops, ops_of, refused_plan,
  served_plan, asset_plan, asset_plans, charge_op,
}
use otto_q_core.Plan.{Segment, Op, AssetPlan, is_charge}
use otto_q_core.Scenario.{Asset}
use otto_q_core.Base.Sort.{sort, All-sort}
use otto_q_core.Base.{
  ℕ, suc, ◌≤◌, String, ◌≡◌, inl, inr, true, Option, List, [], ◌∷◌, arith, ◌==◌, Bool-cases, All,
  All-append, All-split,
}

abbrev pub IsForward : Segment → Type 0
IsForward s = s.start ≤ s.finish

pub own-charge :
    (inp : Input) (σ : Assignment) (a : Asset) (n : ℕ)
    → Satisfies σ (Block.own (block inp a n))
    → Satisfies σ (charge_constraints inp a n (candidates inp a))
unfolding block
own-charge inp σ a n h = (All-split (Holds σ) (charge_constraints inp a n (candidates inp a)) _ h).0

module _ (inp : Input) (σ : Assignment) (a : Asset) (n : ℕ) where
  -- The parts of the constraints of the charge behind the domains.
  pub charge-choice :
      (cs : List Candidate)
      → Satisfies σ (charge_constraints inp a n cs)
      → Satisfies σ (choice inp a n cs)
        × Satisfies σ (floor inp a n)
        × Satisfies σ (pins inp a n (pinned inp a.aid "charge") 0 cs)
        × Satisfies σ (chain_constraints inp a n 0 cs)
  unfolding charge_constraints
  charge-choice cs (_, (_, (_, (_, h)))) =
      let r1 = (All-split (Holds σ) (served_domain inp a n) _ h).1 in
      let r2 = All-split (Holds σ) (choice inp a n cs) _ r1 in
      let r3 = All-split (Holds σ) (floor inp a n) _ r2.1 in
      let r4 = All-split (Holds σ) (pins inp a n (pinned inp a.aid "charge") 0 cs) _ r3.1 in
      (r2.0, r3.0, r4.0, r4.1)

  pub candidate-segs :
      (j : ℕ) (c : Candidate)
      → Satisfies σ (candidate_constraints inp a n j c)
      → Satisfies σ (seg_constraints inp a n j 0 c.segs)
  unfolding candidate_constraints
  candidate-segs j c (_, (_, (_, (_, (_, (_, (_, h))))))) = h

  segs_of-IsForward :
      (j i : ℕ) (segs : List ChargeSegment)
      → (σ (chosen n j) == 1) ≡ true
      → Satisfies σ (seg_constraints inp a n j i segs)
      → All IsForward (segs_of σ n j i segs)
  unfolding segs_of seg_constraints seg_interval
  segs_of-IsForward j i [] e h = tt
  segs_of-IsForward j i (seg ∷ segs) e (_, (_, (spans, h))) =
      let later = (All-split (Holds σ) (joins n j i) _ h).1 in
      (
        omega (arith, spans e),
        segs_of-IsForward j (suc i) segs e (All-split (Holds σ) (onpeak inp n j i) _ later).1,
      )

  abbrev Segments : Op → Type 0
  Segments o = All IsForward o.segments

  charge_ops-IsForward :
      (j : ℕ) (cs : List Candidate)
      → Satisfies σ (chain_constraints inp a n j cs)
      → All Segments (charge_ops σ n j cs)
  unfolding charge_ops charge_op chain_constraints
  charge_ops-IsForward j [] h = tt
  charge_ops-IsForward j (c ∷ cs) h =
      let parts = All-split (Holds σ) (candidate_constraints inp a n j c) _ h in
      elim (Bool-cases (σ (chosen n j) == 1)) [
        | inl e ↦ rw e (
          segs_of-IsForward j 0 c.segs e (candidate-segs j c parts.0),
          charge_ops-IsForward (suc j) cs parts.1,
        )
        | inr e ↦ rw e (charge_ops-IsForward (suc j) cs parts.1)
      ]

  beside_ops-IsForward :
      (point : Option String) (k : ℕ) (ops : List String)
      → All Segments (beside_ops σ n point k ops)
  unfolding beside_ops
  beside_ops-IsForward point k [] = tt
  beside_ops-IsForward point k (op ∷ ops) = (tt, beside_ops-IsForward point (suc k) ops)

  work_ops-IsForward : (w : Work) → All Segments (work_ops inp σ w a n)
  unfolding work_ops work_op
  work_ops-IsForward w = ground arith

  ops_of-IsForward : Satisfies σ (Block.own (block inp a n)) → All Segments (ops_of inp σ a n)
  unfolding ops_of
  ops_of-IsForward h =
      let parts = charge-choice (candidates inp a) (own-charge inp σ a n h) in
      All-append Segments _ _ (charge_ops-IsForward 0 (candidates inp a) parts.3) (
        All-append Segments _ _ (beside_ops-IsForward _ 0 a.parallel_ops)
          (All-append Segments _ _ (work_ops-IsForward wash) (work_ops-IsForward inspect)))

op_segments-IsForward :
    (ops : List Op) → All (λ o. All IsForward (Op.segments o)) ops → All IsForward (op_segments ops)
unfolding op_segments
op_segments-IsForward [] h = tt
op_segments-IsForward (o ∷ ops) h = elim (Bool-cases (is_charge o)) [
  | inl e ↦ rw e (All-append IsForward o.segments _ h.0 (op_segments-IsForward ops h.1))
  | inr e ↦ rw e (op_segments-IsForward ops h.1)
]

abbrev PlanForward : AssetPlan → Type 0
PlanForward p = All IsForward (op_segments p.ops)

charge_segments_of-IsForward :
    (plans : List AssetPlan) → All PlanForward plans → All IsForward (charge_segments_of plans)
unfolding charge_segments_of
charge_segments_of-IsForward [] h = tt
charge_segments_of-IsForward (p ∷ plans) h =
    All-append IsForward (op_segments p.ops) _ h.0 (charge_segments_of-IsForward plans h.1)

module _ (inp : Input) (σ : Assignment) where
  asset_plan-IsForward :
      (a : Asset) (n : ℕ)
      → Satisfies σ (Block.own (block inp a n))
      → PlanForward (asset_plan inp σ a n)
  unfolding refused_plan served_plan op_segments
  asset_plan-IsForward a n h = elim (asset_plan-cases inp σ a n) [
    | inl (_, e) ↦ rw e tt
    | inr (_, e) ↦ rw e (
        op_segments-IsForward (sort op_le (ops_of inp σ a n)) (
          All-sort op_le (λ o. All IsForward (Op.segments o)) (ops_of inp σ a n)
            (ops_of-IsForward inp σ a n h)))
  ]

  asset_plans-IsForward :
      (n : ℕ) (assets : List Asset)
      → Satisfies σ (own_of (blocks inp n assets))
      → All PlanForward (asset_plans inp σ n assets)
  unfolding asset_plans blocks own_of
  asset_plans-IsForward n [] h = tt
  asset_plans-IsForward n (a ∷ rest) h =
      let parts = All-split (Holds σ) (Block.own (block inp a n)) _ h in
      (asset_plan-IsForward a n parts.0, asset_plans-IsForward (suc n) rest parts.1)

  pub extracted-IsForward :
      (assets : List Asset)
      → Satisfies σ (own_of (blocks inp 0 assets))
      → All IsForward (charge_segments_of (sort plan_le (asset_plans inp σ 0 assets)))
  extracted-IsForward assets h =
      charge_segments_of-IsForward _
        (All-sort plan_le PlanForward _ (asset_plans-IsForward 0 assets h))
