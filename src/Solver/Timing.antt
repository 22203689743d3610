-- ===== src/Solver/Timing.antt =====
-- When an extracted plan says that an asset is ready (solvers/cpsat/model.py: `stay_end`, the moves
-- and `finish` of `build_and_solve`, and `_extract`).
mod Finishing
use otto_q_core.Solver.Timing.Finishing.{IsServed, work-held, ready-held, inspect-later}
use otto_q_core.Solver.Solution.Forward.{own-charge, charge-choice}
use otto_q_core.Solver.Solution.Power.{asset_plan-cases}
use otto_q_core.Solver.Solution.Figures.{own-ready}
use otto_q_core.Solver.Solution.Held.{own_held}
use otto_q_core.Base.Sort.{All-sort}
use otto_q_core.Solver.Build.{CpModel, Block, own_of, build_model, block, blocks}
use otto_q_core.Solver.Build.Charge.{charge_constraints, candidate_constraints, chain_constraints}
use otto_q_core.Solver.Build.Jobs.{Input, Candidate, candidates}
use otto_q_core.Solver.Build.Finish.{
  op_constraints, one_at_a_time, parallel_constraints, work_constraints, op_ends, needs, before,
}
use otto_q_core.Solver.Model.{
  Work, Satisfies, charge_end, work_start, work_end, Assignment, value, Holds, stay, finished,
  chosen, wash, inspect, tardy,
}
use otto_q_core.Solver.Extract.{
  Found, op_le, plan_le, ops_of, is_refused, refused_plan, served_plan, asset_plan, asset_plans,
  work_op, work_ops, charge_ops, beside_ops, charge_op, extract,
}
use otto_q_core.Plan.{Plan, Op, AssetPlan, is_charge}
use otto_q_core.Scenario.{Asset}
use otto_q_core.Base.{
  ℕ, suc, ◌+◌, ◌≤◌, String, ◌≡◌, refl, inl, inr, Bool, true, false, not, ◌||◌, Option, none, some,
  List, [], ◌∷◌, arith, ◌==◌, Bool-cases, All, All-append, All-split, All-map, Cross,
}

-- An operation on the charge point: the charge, or one beside it.
abbrev pub stays : Op → Bool
stays o = is_charge o || o.parallel

-- The work at a point of its own, with a move before it.
abbrev pub is_work : Op → Bool
is_work o = not (stays o)

abbrev pub Moves : ℕ → Op → Op → Type 0
Moves move_min o w = stays o ≡ true → is_work w ≡ true → o.finish + move_min ≤ w.start

-- All operations end by the time that the asset is ready, no later than its tardiness says, and a
-- move fits between what it does on its charge point and any other work; a refused asset does
-- nothing.
abbrev pub Timed : ℕ → Option ℕ → Option ℕ → ℕ → List Op → Type 0
Timed move_min (some ready) (some late) ready_by ops =
    All (λ o. o.finish ≤ ready) ops × (ready ≤ ready_by + late) × Cross (Moves move_min) ops ops
Timed move_min none late ready_by ops = ops ≡ []
Timed move_min (some ready) none ready_by ops = ⊥

abbrev pub IsTimed : ℕ → AssetPlan → Type 0
IsTimed move_min p = Timed move_min p.finish p.tardy_min p.ready_by p.ops

module _ (inp : Input) (σ : Assignment) (a : Asset) (n : ℕ) where
  -- What the asset is bound by once it is served.
  abbrev ByStay : Op → Type 0
  ByStay o = (stays o ≡ true → o.finish ≤ σ (stay n)) × (o.finish ≤ σ (finished n))

  abbrev AfterStay : Op → Type 0
  AfterStay o = is_work o ≡ true → σ (stay n) + inp.sc.site.move_duration_min ≤ o.start

  abbrev Bound : Op → Type 0
  Bound o = ByStay o × AfterStay o

  charge_ops-Bound :
      (j : ℕ) (cs : List Candidate)
      → σ (charge_end n) ≤ σ (stay n)
      → σ (stay n) ≤ σ (finished n)
      → Satisfies σ (chain_constraints inp a n j cs)
      → All Bound (charge_ops σ n j cs)
  unfolding charge_ops charge_op chain_constraints candidate_constraints is_charge
  charge_ops-Bound j [] s f h = tt
  charge_ops-Bound j (c ∷ cs) s f h =
      let parts = All-split (Holds σ) (candidate_constraints inp a n j c) _ h in
      let (_, (_, (_, (_, (_, (_, (ends, _))))))) = parts.0 in
      elim (Bool-cases (σ (chosen n j) == 1)) [
        | inl e ↦
            let is_one : σ (chosen n j) ≡ 1 = ground arith in
            rw e (
              (((λ k. omega (arith, ends is_one)), omega (arith, ends is_one)), λ k. cc),
              charge_ops-Bound (suc j) cs s f parts.1,
            )
        | inr e ↦ rw e (charge_ops-Bound (suc j) cs s f parts.1)
      ]

  beside_ops-Bound :
      (point : Option String) (k : ℕ) (ops : List String)
      → All (λ s. value σ s ≤ σ (stay n)) (op_ends inp a n k ops)
      → σ (stay n) ≤ σ (finished n)
      → All Bound (beside_ops σ n point k ops)
  unfolding beside_ops op_ends is_charge
  beside_ops-Bound point k [] h f = tt
  beside_ops-Bound point k (op ∷ ops) h f = (
    (((λ e. omega (arith, h.0)), omega (arith, h.0)), λ e. ground arith),
    beside_ops-Bound point (suc k) ops h.1 f,
  )

  work_op-stays : (w : Work) → stays (work_op inp σ w a n) ≡ false
  unfolding work_op is_charge
  work_op-stays wash = refl
  work_op-stays inspect = refl

  work_ops-Bound :
      (w : Work)
      → (needs a w ≡ true
          → (σ (stay n) + inp.sc.site.move_duration_min ≤ σ (work_start w n))
            × (σ (work_end w n) ≤ σ (finished n)))
      → All Bound (work_ops inp σ w a n)
  unfolding work_ops work_op is_charge
  work_ops-Bound w h = elim (Bool-cases (needs a w)) [
    | inl e ↦ rw e ((((λ k. cc (work_op-stays w)), (h e).1), λ k. (h e).0), tt)
    | inr e ↦ rw e tt
  ]

  ops_of-Bound :
      IsServed inp σ a n
      → Satisfies σ (Block.own (block inp a n))
      → All Bound (ops_of inp σ a n) × (σ (finished n) ≤ a.ready_by_min + σ (tardy n))
  unfolding ops_of block parallel_constraints before
  ops_of-Bound s h =
      let ready = ready-held inp σ a n (own-ready inp σ a n h) in
      let after_charge =
        (All-split (Holds σ) (charge_constraints inp a n (candidates inp a)) _ h).1 in
      let ops = All-split (Holds σ) (parallel_constraints inp a n) _ after_charge in
      let washing = All-split (Holds σ) (work_constraints inp a n wash) _ ops.1 in
      let inspecting = All-split (Holds σ) (work_constraints inp a n inspect) _ washing.1 in
      let serial = All-split (Holds σ) (op_constraints inp a n 0 a.parallel_ops) _ ops.0 in
      let ends = (All-split (Holds σ) (one_at_a_time inp a n) _ serial.1).1.0.0 in
      let parts = charge-choice inp σ a n (candidates inp a) (own-charge inp σ a n h) in
      (
        All-append Bound _ _
            (charge_ops-Bound 0 (candidates inp a) (omega (arith, ends.0)) ready.0 parts.3)
            (All-append Bound _ _ (beside_ops-Bound _ 0 a.parallel_ops ends.1 ready.0) (
              All-append Bound _ _
                (work_ops-Bound wash (λ e. ((work-held inp σ a n wash s e washing.0).0, ready.1 e)))
                (work_ops-Bound inspect
                  (λ e. (inspect-later inp σ a n s e washing.0 inspecting.0, ready.2 e))))),
        ready.3,
      )

  Bound-Cross :
      (xs ys : List Op)
      → All Bound xs
      → All Bound ys
      → Cross (Moves inp.sc.site.move_duration_min) xs ys
  Bound-Cross [] ys h k = tt
  Bound-Cross (x ∷ xs) ys h k = (Bound-All ys k, Bound-Cross xs ys h.1 k)
    where
      Bound-All : (zs : List Op) → All Bound zs → All (Moves inp.sc.site.move_duration_min x) zs
      Bound-All [] b = tt
      Bound-All (z ∷ zs) b =
          ((λ at_x at_z. omega (arith, h.0.0.0 at_x, b.0.1 at_z)), Bound-All zs b.1)

  is_refused-served : is_refused inp σ n ≡ false → IsServed inp σ a n
  unfolding is_refused
  is_refused-served e allowed = ground arith

  asset_plan-IsTimed :
      Satisfies σ (Block.own (block inp a n))
      → IsTimed inp.sc.site.move_duration_min (asset_plan inp σ a n)
  unfolding refused_plan served_plan
  asset_plan-IsTimed h = elim (asset_plan-cases inp σ a n) [
    | inl (_, e) ↦ rw e refl
    | inr (kept, e) ↦
        let (bound, late) = ops_of-Bound (is_refused-served kept) h in
        let sorted = All-sort op_le Bound (ops_of inp σ a n) bound in
        rw e (All-map Bound _ _ (λ o b. b.0.1) sorted, late, Bound-Cross _ _ sorted sorted)
  ]

asset_plans-IsTimed :
    (inp : Input) (σ : Assignment) (n : ℕ) (assets : List Asset)
    → Satisfies σ (own_of (blocks inp n assets))
    → All (IsTimed inp.sc.site.move_duration_min) (asset_plans inp σ n assets)
unfolding asset_plans blocks own_of
asset_plans-IsTimed inp σ n [] h = tt
asset_plans-IsTimed inp σ n (a ∷ rest) h =
    let parts = All-split (Holds σ) (Block.own (block inp a n)) _ h in
    (asset_plan-IsTimed inp σ a n parts.0, asset_plans-IsTimed inp σ (suc n) rest parts.1)

-- In a plan that is read back from values that satisfy the model, every asset that is served ends
-- all its operations by the time that it is reported ready, that time is at most its tardiness
-- beyond its deadline, and a whole move fits between each operation on its charge point and any
-- wash or inspection; an asset that is refused has no operation.
pub extract-IsTimed :
    (inp : Input) (found : Found)
    → Satisfies found.values (CpModel.constraints (build_model inp))
    → All (IsTimed inp.sc.site.move_duration_min) (Plan.assets (extract inp found))
unfolding extract
extract-IsTimed inp found h =
    All-sort plan_le _ _
      (asset_plans-IsTimed inp found.values 0 inp.sc.assets (own_held inp found.values h))
