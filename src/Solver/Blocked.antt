-- ===== src/Solver/Blocked.antt =====
-- A blocked point takes no new work (solvers/cpsat/model.py: `blocked_points` of `build_and_solve`).
use otto_q_core.Solver.Solution.Power.{asset_plan-cases}
use otto_q_core.Solver.Build.Jobs.{
  started_op, started_in, Input, Candidate, pinned, accepts_work, points_for, candidate, candidates,
  candidates_from, candidates_in, has_segs, class_of,
}
use otto_q_core.Solver.Build.Finish.{needs, bays, work_name, work_kind}
use otto_q_core.Solver.Model.{Assignment, Work, wash, inspect, chosen, work_at}
use otto_q_core.Solver.Extract.{
  Found, op_le, plan_le, bay_of, charge_op, charge_ops, point_of_first, beside_ops, work_op,
  work_ops, ops_of, refused_plan, served_plan, asset_plan, asset_plans, extract,
}
use otto_q_core.Plan.{Plan, Op, AssetPlan}
use otto_q_core.Scenario.{Asset, AssetClass, ServicePoint}
use otto_q_core.Base.Sort.{All-sort}
use otto_q_core.Base.{
  ℕ, suc, String, ◌≡◌, refl, inl, inr, Bool, true, false, not, ◌&&◌, ◌||◌, Option, none, some, List,
  [], ◌∷◌, map, arith, ltb, ◌==◌, str_eq, if◌then◌else◌, Bool-cases, Option-cases, same, filter,
  any, All, elem, All-append, All-filter,
}

-- What an operation takes its point for: one that runs beside the charge stands where that does.
abbrev pub taken_for : Op → String
taken_for o = if o.parallel then "charge" else o.op

-- The plan has work of that name for the asset that starts before `t_now`.
abbrev pub began : String → String → ℕ → List AssetPlan → Bool
began aid name t_now = any (λ p.
    str_eq (AssetPlan.aid p) aid
    && any (λ o. str_eq (Op.op o) name && ltb (Op.start o) t_now) (AssetPlan.ops p))

-- The same of the previous plan, where there is one.
abbrev pub began_before : Input → String → String → Bool
began_before inp aid name = elim inp.asked.previous_plan [
  | none ↦ false
  | some p ↦ began aid name inp.t_now p.assets
]

started_op-began :
    (name : String) (t_now : ℕ) (ops : List Op)
    → elim (started_op name t_now ops) [ none ↦ false | some _ ↦ true ] ≡ true
    → any (λ o. str_eq (Op.op o) name && ltb (Op.start o) t_now) ops ≡ true
unfolding started_op
started_op-began name t_now [] h = h
started_op-began name t_now (o ∷ ops) h = elim (Option-cases (started_op name t_now ops)) [
  | inl e ↦ ground (arith, (rw e at h))
  | inr (later, e) ↦ ground (arith, started_op-began name t_now ops (rw e refl))
]

started_in-began :
    (aid name : String) (t_now : ℕ) (plans : List AssetPlan)
    → elim (started_in aid name t_now plans) [ none ↦ false | some _ ↦ true ] ≡ true
    → began aid name t_now plans ≡ true
unfolding started_in
started_in-began aid name t_now [] h = h
started_in-began aid name t_now (p ∷ rest) h =
    elim (Option-cases (started_in aid name t_now rest)) [
      | inl e ↦ elim (Bool-cases (str_eq p.aid aid)) [
        | inl same ↦ ground (arith, same, started_op-began name t_now p.ops (rw (e, same) at h))
        | inr other ↦ cc (rw (e, other) at h)
      ]
      | inr (later, e) ↦ ground (arith, started_in-began aid name t_now rest (rw e refl))
    ]

pinned-began :
    (inp : Input) (aid name : String)
    → elim (pinned inp aid name) [ none ↦ false | some _ ↦ true ] ≡ true
    → began_before inp aid name ≡ true
unfolding pinned
pinned-began inp aid name h = elim (Option-cases inp.asked.previous_plan) [
  | inl e ↦ cc (rw e at h)
  | inr (p, e) ↦ rw e (started_in-began aid name inp.t_now p.assets (rw e at h))
]

-- There is no point, or it is not blocked, or the asset's work of that name has started.
abbrev pub stands_open : Input → String → String → Option String → Bool
stands_open inp aid name point = elim point [
  | none ↦ true
  | some id ↦ not (elem id inp.blocked) || began_before inp aid name
]

abbrev pub is_open : Input → String → Op → Bool
is_open inp aid o = stands_open inp aid (taken_for o) o.point

abbrev pub IsOpen : Input → AssetPlan → Type 0
IsOpen inp p = All (λ o. is_open inp p.aid o ≡ true) p.ops

module _ (inp : Input) where
  Accepts : String → String → ServicePoint → Type 0
  Accepts aid name p = stands_open inp aid name (some p.id) ≡ true

  accepts_work-Accepts :
      (aid name : String) (p : ServicePoint)
      → accepts_work inp aid name p ≡ true
      → Accepts aid name p
  unfolding accepts_work Accepts
  accepts_work-Accepts aid name p h = ground (arith, pinned-began inp aid name)

  points_for-Accepts :
      (aid name kind : String) → All (Accepts aid name) (points_for inp aid name kind)
  unfolding points_for
  points_for-Accepts aid name kind = kept inp.sc.service_points
    where
      kept :
          (ps : List ServicePoint)
          → All
              (Accepts aid name)
              (filter (λ p. str_eq p.kind kind && accepts_work inp aid name p) ps)
      kept [] = tt
      kept (p ∷ ps) = elim (Bool-cases (str_eq p.kind kind && accepts_work inp aid name p)) [
        | inl e ↦ rw e (accepts_work-Accepts aid name p (ground arith), kept ps)
        | inr e ↦ rw e (kept ps)
      ]

  module _ (a : Asset) where
    CandidateAccepts : Candidate → Type 0
    CandidateAccepts c = Accepts a.aid "charge" c.point

    candidate-Accepts :
        (cls : AssetClass) (kind : String) (ps : List ServicePoint)
        → All (Accepts a.aid "charge") ps
        → All CandidateAccepts (map (candidate inp a cls kind) ps)
    unfolding candidate CandidateAccepts
    candidate-Accepts cls kind [] h = tt
    candidate-Accepts cls kind (p ∷ ps) h = (h.0, candidate-Accepts cls kind ps h.1)

    candidates_from-Accepts :
        (cls : AssetClass) (kinds : List String)
        → All CandidateAccepts (candidates_from inp a cls kinds)
    unfolding candidates_from
    candidates_from-Accepts cls [] = tt
    candidates_from-Accepts cls (kind ∷ kinds) =
        All-append CandidateAccepts _ _
          (candidate-Accepts cls kind _ (points_for-Accepts a.aid "charge" kind))
          (candidates_from-Accepts cls kinds)

    candidates_in-Accepts : (o : Option AssetClass) → All CandidateAccepts (candidates_in inp a o)
    unfolding candidates_in
    candidates_in-Accepts none = tt
    candidates_in-Accepts (some cls) =
        All-filter CandidateAccepts has_segs _ (candidates_from-Accepts cls cls.charge_kinds)

    module _ (σ : Assignment) (n : ℕ) where
      abbrev Open : Op → Type 0
      Open o = is_open inp a.aid o ≡ true

      charge_ops-Open :
          (j : ℕ) (cs : List Candidate) → All CandidateAccepts cs → All Open (charge_ops σ n j cs)
      unfolding charge_ops charge_op CandidateAccepts Accepts
      charge_ops-Open j [] h = tt
      charge_ops-Open j (c ∷ cs) h = elim (Bool-cases (σ (chosen n j) == 1)) [
        | inl e ↦ rw e (h.0, charge_ops-Open (suc j) cs h.1)
        | inr e ↦ rw e (charge_ops-Open (suc j) cs h.1)
      ]

      -- The point that the operations beside the charge take over.
      charge_point :
          (j : ℕ) (cs : List Candidate)
          → All CandidateAccepts cs
          → stands_open inp a.aid "charge" (point_of_first (charge_ops σ n j cs)) ≡ true
      unfolding charge_ops charge_op CandidateAccepts Accepts
      charge_point j [] h = refl
      charge_point j (c ∷ cs) h = elim (Bool-cases (σ (chosen n j) == 1)) [
        | inl e ↦ rw e h.0
        | inr e ↦ rw e (charge_point (suc j) cs h.1)
      ]

      beside_ops-Open :
          (point : Option String) (k : ℕ) (ops : List String)
          → stands_open inp a.aid "charge" point ≡ true
          → All Open (beside_ops σ n point k ops)
      unfolding beside_ops
      beside_ops-Open point k [] h = tt
      beside_ops-Open point k (op ∷ ops) h = (h, beside_ops-Open point (suc k) ops h)

      bay_of-open :
          (w : Work) (j : ℕ) (ps : List ServicePoint)
          → All (Accepts a.aid (work_name w)) ps
          → stands_open inp a.aid (work_name w) (bay_of σ w n j ps) ≡ true
      unfolding bay_of Accepts
      bay_of-open w j [] h = refl
      bay_of-open w j (p ∷ ps) h = elim (Bool-cases (σ (work_at w n j) == 1)) [
        | inl e ↦ rw e h.0
        | inr e ↦ rw e (bay_of-open w (suc j) ps h.1)
      ]

      work_ops-Open : (w : Work) → All Open (work_ops inp σ w a n)
      unfolding work_ops work_op bays
      work_ops-Open w = elim (Bool-cases (needs a w)) [
        | inl e ↦ rw e (
          bay_of-open w 0 (bays inp a n w) (points_for-Accepts a.aid (work_name w) (work_kind w)),
          tt,
        )
        | inr e ↦ rw e tt
      ]

      ops_of-Open : All Open (ops_of inp σ a n)
      unfolding ops_of candidates
      ops_of-Open =
          let cs = candidates_in-Accepts (class_of a.cls inp.sc.asset_classes) in
          All-append Open _ _ (charge_ops-Open 0 (candidates inp a) cs) (
            All-append Open _ _
              (beside_ops-Open _ 0 a.parallel_ops (charge_point 0 (candidates inp a) cs))
              (All-append Open _ _ (work_ops-Open wash) (work_ops-Open inspect)))

      asset_plan-IsOpen : IsOpen inp (asset_plan inp σ a n)
      unfolding refused_plan served_plan
      asset_plan-IsOpen = elim (asset_plan-cases inp σ a n) [
        | inl (_, e) ↦ rw e tt
        | inr (_, e) ↦ rw e (All-sort op_le Open (ops_of inp σ a n) ops_of-Open)
      ]

  asset_plans-IsOpen :
      (σ : Assignment) (n : ℕ) (assets : List Asset) → All (IsOpen inp) (asset_plans inp σ n assets)
  unfolding asset_plans
  asset_plans-IsOpen σ n [] = tt
  asset_plans-IsOpen σ n (a ∷ rest) = (asset_plan-IsOpen a σ n, asset_plans-IsOpen σ (suc n) rest)

-- Whatever values a plan is read back from: an operation of it stands at a blocked point only where
-- the previous plan has work of the same asset and name, or its charge for an operation beside the
-- charge, that started before `t_now`.
pub extract-IsOpen :
    (inp : Input) (found : Found) → All (IsOpen inp) (Plan.assets (extract inp found))
unfolding extract
extract-IsOpen inp found =
    All-sort plan_le (IsOpen inp) _ (asset_plans-IsOpen inp found.values 0 inp.sc.assets)
