-- ===== src/Solver/Points/Blocks.antt =====
-- The operations of all assets are covered by the intervals of the model, and how this carries over
-- to the sorted plans (solvers/cpsat/model.py: `per_point_intervals`, and `_extract`).

use otto_q_core.Solver.Build.Charge.{charge_constraints, occupancies}
use otto_q_core.Solver.Build.Jobs.{
  candidates_in, has_segs, Input, points_for, Candidate, candidates_from, class_of, candidate,
  candidates,
}
use otto_q_core.Solver.Build.Finish.{
  work_name, work_kind, one_at_a_time, op_constraints, parallel_constraints, work_constraints, bays,
}
use otto_q_core.Solver.Solution.Forward.{own-charge, charge-choice}
use otto_q_core.Solver.Build.{own_of, occupied_of, Block, bays_of, intervals_at, block, blocks}
use otto_q_core.Solver.Model.{Work, Satisfies, charge_end, Assignment, Holds, wash, inspect, stay}
use otto_q_core.Solver.Extract.{asset_plans, op_le, ops_of, is_refused, asset_plan}
use otto_q_core.Plan.{Op, AssetPlan}
use otto_q_core.Scenario.{AssetClass, ServicePoint, Asset}
use otto_q_core.Base.Sort.{sort, All-sort, Pairwise-sort}
use otto_q_core.Solver.Points.Apartness.{
  Embeds, Embeds-append, Embeds-nil, Separate, Separate-sym, done, Undisturbed,
}
use otto_q_core.Solver.Points.Stays.{
  Rests, intervals_at-append, charge_ops-Embeds, beside_ops-Embeds, work_ops-Embeds,
}
use otto_q_core.Base.{
  ℕ, suc, ◌≤◌, String, ◌≡◌, sym, subst, inl, inr, Option, none, some, List, [], ◌∷◌, ◌++◌, map,
  arith, if◌then◌else◌, Bool-cases, All, Pairwise, All-append, All-split, All-map, All-filter,
  Cross, Pairwise-split,
}

-- The operations of an asset before they are sorted.
raw_ops : Input → Assignment → Asset → ℕ → List Op
raw_ops inp σ a n = if is_refused inp σ n then [] else ops_of inp σ a n

pub raw_from : Input → Assignment → ℕ → List Asset → List Op
raw_from inp σ n [] = []
raw_from inp σ n (a ∷ rest) = raw_ops inp σ a n ++ raw_from inp σ (suc n) rest

asset_plan-ops :
    (inp : Input) (σ : Assignment) (a : Asset) (n : ℕ)
    → AssetPlan.ops (asset_plan inp σ a n) ≡ sort op_le (raw_ops inp σ a n)
unfolding asset_plan raw_ops
asset_plan-ops inp σ a n = elim (Bool-cases (is_refused inp σ n)) [
  | inl e ↦ ground arith
  | inr e ↦ ground arith
]

module _ (inp : Input) (gap : ℕ) (id : String)
    (rests : All (Rests gap id) inp.sc.service_points) where
  points_for-Rests : (aid name kind : String) → All (Rests gap id) (points_for inp aid name kind)
  unfolding points_for
  points_for-Rests aid name kind = All-filter (Rests gap id) _ inp.sc.service_points rests

  abbrev CandidateRests : Candidate → Type 0
  CandidateRests c = Rests gap id c.point

  candidate-Rests :
      (a : Asset) (cls : AssetClass) (kind : String) (ps : List ServicePoint)
      → All (Rests gap id) ps
      → All CandidateRests (map (candidate inp a cls kind) ps)
  unfolding candidate
  candidate-Rests a cls kind [] r = tt
  candidate-Rests a cls kind (p ∷ ps) r = (r.0, candidate-Rests a cls kind ps r.1)

  candidates_from-Rests :
      (a : Asset) (cls : AssetClass) (kinds : List String)
      → All CandidateRests (candidates_from inp a cls kinds)
  unfolding candidates_from
  candidates_from-Rests a cls [] = tt
  candidates_from-Rests a cls (kind ∷ kinds) =
      All-append CandidateRests _ _
        (candidate-Rests a cls kind _ (points_for-Rests a.aid "charge" kind))
        (candidates_from-Rests a cls kinds)

  candidates_in-Rests :
      (a : Asset) (o : Option AssetClass) → All CandidateRests (candidates_in inp a o)
  unfolding candidates_in
  candidates_in-Rests a none = tt
  candidates_in-Rests a (some cls) =
      All-filter CandidateRests has_segs _ (candidates_from-Rests a cls cls.charge_kinds)

  candidates-Rests : (a : Asset) → All CandidateRests (candidates inp a)
  unfolding candidates
  candidates-Rests a = candidates_in-Rests a (class_of a.cls inp.sc.asset_classes)

  bays-Rests : (a : Asset) (n : ℕ) (w : Work) → All (Rests gap id) (bays inp a n w)
  unfolding bays
  bays-Rests a n w = points_for-Rests a.aid (work_name w) (work_kind w)

  module _ (σ : Assignment) where
    own-stay :
        (a : Asset) (n : ℕ)
        → Satisfies σ (Block.own (block inp a n))
        → (σ (charge_end n) ≤ σ (stay n))
          × Satisfies σ (work_constraints inp a n wash)
          × Satisfies σ (work_constraints inp a n inspect)
    unfolding block parallel_constraints
    own-stay a n h =
        let after_charge =
          (All-split (Holds σ) (charge_constraints inp a n (candidates inp a)) _ h).1 in
        let ops = All-split (Holds σ) (parallel_constraints inp a n) _ after_charge in
        let washing = All-split (Holds σ) (work_constraints inp a n wash) _ ops.1 in
        let inspecting = All-split (Holds σ) (work_constraints inp a n inspect) _ washing.1 in
        let serial = All-split (Holds σ) (op_constraints inp a n 0 a.parallel_ops) _ ops.0 in
        let last = (All-split (Holds σ) (one_at_a_time inp a n) _ serial.1).1 in
        (omega (arith, last.0.0.0), washing.0, inspecting.0)

    raw_ops-Embeds :
        (a : Asset) (n : ℕ)
        → Satisfies σ (Block.own (block inp a n))
        → Embeds σ id gap (raw_ops inp σ a n) (intervals_at id (Block.occupied (block inp a n)))
    unfolding raw_ops ops_of block
    raw_ops-Embeds a n h = elim (Bool-cases (is_refused inp σ n)) [
      | inl e ↦ rw e (Embeds-nil σ id gap _)
      | inr e ↦
          let (stays, washing, inspecting) = own-stay a n h in
          let parts = charge-choice inp σ a n (candidates inp a) (own-charge inp σ a n h) in
          rw
            (
              e,
              intervals_at-append id (occupancies inp a n 0 (candidates inp a))
                  (bays_of inp a n wash ++ bays_of inp a n inspect),
              intervals_at-append id (bays_of inp a n wash) (bays_of inp a n inspect),
            )
            (Embeds-append σ id gap
              (charge_ops-Embeds inp σ id gap a n 0 (candidates inp a) (candidates-Rests a) stays
                parts.3)
              (Embeds-append σ id gap (beside_ops-Embeds inp σ id gap a n _ 0 a.parallel_ops) (
                Embeds-append σ id gap
                  (work_ops-Embeds inp σ id gap a n wash (bays-Rests a n wash) washing)
                  (work_ops-Embeds inp σ id gap a n inspect (bays-Rests a n inspect) inspecting))))
    ]

    pub raw_from-Embeds :
        (n : ℕ) (assets : List Asset)
        → Satisfies σ (own_of (blocks inp n assets))
        → Embeds σ id gap
            (raw_from inp σ n assets)
            (intervals_at id (occupied_of (blocks inp n assets)))
    unfolding raw_from blocks own_of occupied_of intervals_at
    raw_from-Embeds n [] h = done
    raw_from-Embeds n (a ∷ rest) h =
        let parts = All-split (Holds σ) (Block.own (block inp a n)) _ h in
        rw
          (intervals_at-append id (Block.occupied (block inp a n))
            (occupied_of (blocks inp (suc n) rest)))
          (Embeds-append σ id gap (raw_ops-Embeds a n parts.0)
            (raw_from-Embeds (suc n) rest parts.1))

    abbrev ApartOps : List Op → List Op → Type 0
    ApartOps = Cross (Separate id gap)

    Cross-sort : (xs ys : List Op) → ApartOps xs ys → ApartOps (sort op_le xs) (sort op_le ys)
    Cross-sort xs ys h =
        All-sort op_le (λ x. All (Separate id gap x) (sort op_le ys)) xs
          (All-map _ _ xs (λ x. All-sort op_le (Separate id gap x) ys) h)

    -- Operations that are apart from those of all later assets are so from each.
    Cross-each :
        (xs : List Op) (n : ℕ) (assets : List Asset)
        → ApartOps xs (raw_from inp σ n assets)
        → All (λ q. ApartOps (sort op_le xs) (AssetPlan.ops q)) (asset_plans inp σ n assets)
    unfolding raw_from asset_plans
    Cross-each xs n [] h = tt
    Cross-each xs n (a ∷ rest) h =
        let near =
          All-map _ _ xs
            (λ x. All-split (Separate id gap x) (raw_ops inp σ a n) (raw_from inp σ (suc n) rest))
            h in
        (
          subst (ApartOps (sort op_le xs)) (sym (asset_plan-ops inp σ a n))
              (Cross-sort xs (raw_ops inp σ a n) (All-map _ _ xs (λ x k. k.0) near)),
          Cross-each xs (suc n) rest (All-map _ _ xs (λ x k. k.1) near),
        )

    pub asset_plans-Undisturbed :
        (n : ℕ) (assets : List Asset)
        → Pairwise (Separate id gap) (raw_from inp σ n assets)
        → Undisturbed id gap (asset_plans inp σ n assets)
    unfolding raw_from asset_plans
    asset_plans-Undisturbed n [] h = (tt, tt)
    asset_plans-Undisturbed n (a ∷ rest) h =
        let (own, later, across) =
          Pairwise-split (Separate id gap) (raw_ops inp σ a n) (raw_from inp σ (suc n) rest) h in
        let tail = asset_plans-Undisturbed (suc n) rest later in
        let same_ops = asset_plan-ops inp σ a n in
        (
          (
            subst (Pairwise (Separate id gap)) (sym same_ops)
                (Pairwise-sort op_le (Separate id gap) (Separate-sym id gap) _ own),
            tail.0,
          ),
          (
            subst (λ os. All (λ q. ApartOps os (AssetPlan.ops q)) (asset_plans inp σ (suc n) rest))
                (sym same_ops) (Cross-each (raw_ops inp σ a n) (suc n) rest across),
            tail.1,
          ),
        )
