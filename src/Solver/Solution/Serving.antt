-- ===== src/Solver/Solution/Serving.antt =====
-- Whom an extracted plan serves (solvers/cpsat/model.py: `served_vars` and `require_served` of
-- `build_and_solve`, and `_extract`).
use otto_q_core.Solver.Build.Charge.{is_required, floor}
use otto_q_core.Solver.Build.Jobs.{Input, candidates}
use otto_q_core.Solver.Solution.Forward.{own-charge, charge-choice}
use otto_q_core.Solver.Build.{Block, own_of, block, blocks}
use otto_q_core.Solver.Model.{Satisfies, Assignment, Holds}
use otto_q_core.Solver.Extract.{plan_le, is_refused, asset_plan, asset_plans}
use otto_q_core.Plan.{AssetPlan, is_served, served_names}
use otto_q_core.Scenario.{Asset}
use otto_q_core.Base.Sort.{sort, any-sort}
use otto_q_core.Base.{
  ℕ, suc, String, ◌≡◌, refl, sym, subst, ◌∙◌, inl, inr, Bool, true, ◌&&◌, some, List, [], ◌∷◌, map,
  arith, eq_iff, str_eq, Bool-cases, any, elem, All-split,
}

abbrev serves : String → AssetPlan → Bool
serves k p = is_served p && str_eq k p.aid

served_names-any :
    (k : String) (plans : List AssetPlan) → elem k (served_names plans) ≡ any (serves k) plans
unfolding served_names
served_names-any k [] = refl
served_names-any k (p ∷ plans) = ground (arith, served_names-any k plans)

pub served_names-sort :
    (k : String) (plans : List AssetPlan)
    → elem k (served_names (sort plan_le plans)) ≡ elem k (served_names plans)
served_names-sort k plans =
    served_names-any k (sort plan_le plans)
    ∙ any-sort plan_le (serves k) plans
    ∙ sym (served_names-any k plans)

module _ (inp : Input) (σ : Assignment) where
  asset_plan-aid : (a : Asset) (n : ℕ) → AssetPlan.aid (asset_plan inp σ a n) ≡ a.aid
  unfolding asset_plan
  asset_plan-aid a n = ground arith

  -- The plans are those of the assets.
  pub asset_plans-listed :
      (k : String) (n : ℕ) (assets : List Asset)
      → elem k (served_names (asset_plans inp σ n assets)) ≡ true
      → elem k (map (λ a. Asset.aid a) assets) ≡ true
  unfolding asset_plans served_names
  asset_plans-listed k n [] h = h
  asset_plans-listed k n (a ∷ rest) h =
      ground (arith, asset_plan-aid a n, asset_plans-listed k (suc n) rest)

  -- An asset on the floor is served.
  floor-serves :
      (a : Asset) (n : ℕ)
      → is_required inp a n ≡ true
      → Satisfies σ (Block.own (block inp a n))
      → is_served (asset_plan inp σ a n) ≡ true
  unfolding asset_plan is_served floor is_refused
  floor-serves a n required h =
      let parts = charge-choice inp σ a n (candidates inp a) (own-charge inp σ a n h) in
      ground (arith, parts.1)

  is_required-known :
      (a : Asset) (n : ℕ) (names : List String)
      → inp.asked.budget.allow_rejection ≡ true
      → inp.asked.require_served ≡ some names
      → elem a.aid names ≡ true
      → is_required inp a n ≡ true
  unfolding is_required
  is_required-known a n names allowed asked known = rw (allowed, asked) known

  pub asset_plans-required :
      (names : List String) (k : String) (n : ℕ) (assets : List Asset)
      → inp.asked.budget.allow_rejection ≡ true
      → inp.asked.require_served ≡ some names
      → elem k names ≡ true
      → Satisfies σ (own_of (blocks inp n assets))
      → elem k (map (λ a. Asset.aid a) assets) ≡ true
      → elem k (served_names (asset_plans inp σ n assets)) ≡ true
  unfolding asset_plans served_names blocks own_of is_required
  asset_plans-required names k n [] allowed asked known h e = e
  asset_plans-required names k n (a ∷ rest) allowed asked known h e =
      let parts = All-split (Holds σ) (Block.own (block inp a n)) _ h in
      elim (Bool-cases (str_eq k a.aid)) [
        | inl hit ↦
            let required =
              is_required-known a n names allowed asked
                (subst (λ x. elem x names ≡ true) ((eq_iff k a.aid).0 hit) known) in
            ground (arith, floor-serves a n required parts.0, asset_plan-aid a n)
        | inr miss ↦ ground (
          arith,
          asset_plans-required names k (suc n) rest allowed asked known parts.1 (ground arith),
        )
      ]
