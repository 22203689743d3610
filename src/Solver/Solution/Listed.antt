-- ===== src/Solver/Solution/Listed.antt =====
-- An extracted plan lists the assets of its scenario, each once (solvers/cpsat/model.py:
-- `assets_out` of `_extract`).
use otto_q_core.Solver.Model.{Assignment}
use otto_q_core.Solver.Build.Jobs.{Input}
use otto_q_core.Solver.Extract.{Found, plan_le, asset_plan, asset_plans, extract}
use otto_q_core.Plan.{AssetPlan, Plan}
use otto_q_core.Scenario.{Asset}
use otto_q_core.Solver.{names_of}
use otto_q_core.Base.Sort.{sort, additive-sort}
use otto_q_core.Base.{
  ℕ, suc, String, ◌≡◌, refl, ◌∙◌, List, [], ◌∷◌, map, arith, str_eq, if◌then◌else◌, count,
}

abbrev aid_count : String → List AssetPlan → ℕ
aid_count k plans = count k (map (λ a. AssetPlan.aid a) plans)

aid_count-sort :
    (k : String) (plans : List AssetPlan) → aid_count k (sort plan_le plans) ≡ aid_count k plans
aid_count-sort k =
    additive-sort plan_le (aid_count k) (λ a. if str_eq k a.aid then 1 else 0)
      (λ a xs. ground arith)

asset_plans-count :
    (inp : Input) (σ : Assignment) (k : String) (n : ℕ) (assets : List Asset)
    → aid_count k (asset_plans inp σ n assets) ≡ count k (map (λ a. Asset.aid a) assets)
unfolding asset_plans asset_plan
asset_plans-count inp σ k n [] = refl
asset_plans-count inp σ k n (a ∷ rest) = ground (arith, asset_plans-count inp σ k (suc n) rest)

pub extract-lists :
    (inp : Input) (found : Found) (k : String)
    → count k (map (λ a. AssetPlan.aid a) (Plan.assets (extract inp found)))
      ≡ count k (names_of inp.sc)
unfolding extract
extract-lists inp found k =
    aid_count-sort k (asset_plans inp found.values 0 inp.sc.assets)
    ∙ asset_plans-count inp found.values k 0 inp.sc.assets
