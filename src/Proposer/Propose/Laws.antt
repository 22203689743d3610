-- ===== src/Proposer/Propose/Laws.antt =====
-- Every vehicle of the population has its row (proposer/forward_proposer.py: `propose`).
use otto_q_core.Proposer.Batch.Laws.{count-IsDistinct, keep_chosen-count}
use otto_q_core.Proposer.Translate.Laws.{frame_to_scenario-Accounted}
use otto_q_core.Proposer.Held.{serviceable_predicate, plannable_in}
use otto_q_core.Proposer.Translate.{frame_to_scenario}
use otto_q_core.Proposer.Measure.{measure_plan, check_optima}
use otto_q_core.Proposer.Frame.{Vehicle, Frame}
use otto_q_core.Chain.Covered.{build_and_solve-P, lexicographic_solve_traced-P}
use otto_q_core.Chain.Honoured.{some-eq}
use otto_q_core.Intent.Solve.{pass_sequence, min_tardy}
use otto_q_core.Intent.{Intent, resolve_intent, ok, err}
use otto_q_core.Base.{
  ℕ, ◌+◌, ◌≤◌, String, ◌≡◌, refl, ap, subst, ◌∙◌, inl, inr, Bool, true, false, not, Option, none,
  some, List, [], ◌∷◌, ◌++◌, map, arith, eq_iff, Option-cases, length, filter, length-append,
  length-filter_split, elem, IsDistinct, count, count-append, map-append,
}
use otto_q_core.Plan.{AssetPlan, Status, Plan}
use otto_q_core.Scenario.{Asset, ServicePoint, Scenario}
use otto_q_core.Solver.{Request, Result, has_solution, build_and_solve, Budget, request}
use otto_q_core.Chain.{lexicographic_solve_traced}
use otto_q_core.Proposer.Rows.{is_abstain, plan_to_proposals, Row, entity, abstain, assign}
use otto_q_core.Proposer.Rows.Laws.{plan_to_proposals-RowsOf, RowsOf}
use otto_q_core.Proposer.Batch.{keep_chosen, aids, choose}
use otto_q_core.Proposer.Propose.{
  bound_of, fire_assets, two_pass_optima, Fire, ready_by_used, with_assets, fire_batch, ◌>>=◌, Call,
  Try, of_frame, of_intent, of_solver, of_rows, SolverRecord, second_request, two_pass,
  regime_aware, checked, solve, done, failed, fire, propose,
}
use otto_q_core.Proposer.Held as Population
use otto_q_core.Intent as Doctrine
use otto_q_core.Solver as Cp

-- What the search promises of its plans: they list the assets of the scenario.
abbrev pub Lists : Scenario → List AssetPlan → Type 0
Lists sc assets =
    (k : String) → count k (map (λ a. AssetPlan.aid a) assets) ≡ count k (aids sc.assets)

abbrev pub CoversLaw : (Scenario → Request → Status × Plan) → Type 0
CoversLaw cp_sat =
    (sc : Scenario) (r : Request)
    → Cp.has_solution (cp_sat sc r).0 ≡ true
    → Lists sc (cp_sat sc r).1.assets

bind-eq-done {ℓ κ} :
    {A : Type ℓ} {B : Type κ} (m : Try A) (f : A → Try B) {b : B}
    → (m >>= f) ≡ done b
    → (a : A) × (m ≡ done a) × (f a ≡ done b)
bind-eq-done (done a) f h = (a, refl, h)
bind-eq-done (failed e) f h = cc

done-inj {ℓ} : {A : Type ℓ} {a b : A} → done a ≡ done b → a ≡ b
done-inj h = cc

of_frame-eq {ℓ} :
    {A : Type ℓ} (m : Population.Result A) {a : A} → of_frame m ≡ done a → m ≡ Population.ok a
of_frame-eq (Population.ok a) h = ap Population.ok (done-inj h)
of_frame-eq (Population.err e) h = cc

of_solver-eq {ℓ} : {A : Type ℓ} (m : Cp.Result A) {a : A} → of_solver m ≡ done a → m ≡ Cp.ok a
of_solver-eq (Cp.ok a) h = ap Cp.ok (done-inj h)
of_solver-eq (Cp.err e) h = cc

of_rows-eq : (m : Option (List Row)) {rows : List Row} → of_rows m ≡ done rows → m ≡ some rows
of_rows-eq none h = cc
of_rows-eq (some rows) h = ap some (done-inj h)

RowsOf-count :
    (points : List ServicePoint) (assets : List AssetPlan) (rows : List Row) (k : String)
    → RowsOf points assets rows
    → count k (map entity rows) ≡ count k (map (λ a. AssetPlan.aid a) assets)
RowsOf-count points [] [] k h = refl
RowsOf-count points [] (row ∷ rows) k h = absurd h
RowsOf-count points (a ∷ assets) [] k h = absurd h
RowsOf-count points (a ∷ assets) (abstain id r ∷ rows) k h =
    rw h.0.0 (ground (arith, RowsOf-count points assets rows k h.1))
RowsOf-count points (a ∷ assets) (assign x ∷ rows) k h =
    rw h.0.0 (ground (arith, RowsOf-count points assets rows k h.1))

module _ (cp_sat : Scenario → Request → Status × Plan) (covers : CoversLaw cp_sat) (budget : Budget)
    (sc : Scenario) where
  two_pass-Lists :
      {solved : Plan × SolverRecord}
      → two_pass cp_sat budget sc ≡ done solved
      → Lists sc solved.0.assets
  unfolding two_pass second_request request
  two_pass-Lists e =
      let (pass1, ran1, rest1) =
        bind-eq-done (of_solver (build_and_solve cp_sat sc (request min_tardy budget))) _ e in
      let (pass2, ran2, rest2) =
        bind-eq-done (of_solver (build_and_solve cp_sat sc (second_request cp_sat budget sc pass1)))
          _ rest1 in
      let (ok_optima, checks, made) =
        bind-eq-done
          (checked
            (check_optima (measure_plan pass2) (two_pass_optima cp_sat budget sc pass1 pass2)))
          _ rest2 in
      let first =
        build_and_solve-P cp_sat sc (Lists sc) (covers sc) (request min_tardy budget) pass1
          (λ q h. cc) (of_solver-eq _ ran1) in
      let second =
        build_and_solve-P cp_sat sc (Lists sc) (covers sc) (second_request cp_sat budget sc pass1)
          pass2 (λ q h. subst (λ x. Lists sc x.assets) (some-eq h) first) (of_solver-eq _ ran2) in
      subst (λ s. Lists sc s.0.assets) (done-inj made) second

  regime_aware-Lists :
      (intent : Intent) (hour : ℕ) (signals : List String) {solved : Plan × SolverRecord}
      → regime_aware cp_sat budget sc intent hour signals ≡ done solved
      → Lists sc solved.0.assets
  unfolding regime_aware
  regime_aware-Lists intent hour signals e =
      let (active, resolved, rest1) =
        bind-eq-done (of_intent (Doctrine.resolve_intent intent hour signals)) _ e in
      let (o, ran, rest2) =
        bind-eq-done
          (of_solver (lexicographic_solve_traced cp_sat sc budget (pass_sequence active))) _
          rest1 in
      let (ok_optima, checks, made) =
        bind-eq-done (checked (check_optima (measure_plan o.plan) o.optima)) _ rest2 in
      let here =
        lexicographic_solve_traced-P cp_sat sc (Lists sc) (covers sc) budget (pass_sequence active)
          o (of_solver-eq _ ran) in
      subst (λ s. Lists sc s.0.assets) (done-inj made) here

  solve-Lists :
      (call : Call) {solved : Plan × SolverRecord}
      → solve cp_sat budget sc call ≡ done solved
      → Lists sc solved.0.assets
  unfolding solve
  solve-Lists call e = elim (Option-cases call.hour_of_day) [
    | inl absent ↦ two_pass-Lists (rw absent at e)
    | inr (hour, h) ↦ regime_aware-Lists call.intent hour call.signals (rw h at e)
  ]

IsDistinct-of_count : (xs : List String) → ((k : String) → count k xs ≤ 1) → IsDistinct xs
IsDistinct-of_count [] h = tt
IsDistinct-of_count (x ∷ xs) h = (
  absent x xs (ground (arith, h x, eq_iff x x)),
  IsDistinct-of_count xs (λ k. ground (arith, h k)),
)
  where
    absent : (k : String) (ys : List String) → count k ys ≤ 0 → elem k ys ≡ false
    absent k [] e = refl
    absent k (y ∷ ys) e = ground (arith, absent k ys)

count-filter-le :
    (k : String) (p : Vehicle → Bool) (vs : List Vehicle)
    → count k (map (λ v. Vehicle.id v) (filter p vs)) ≤ count k (map (λ v. Vehicle.id v) vs)
count-filter-le k p [] = omega arith
count-filter-le k p (v ∷ vs) = ground (arith, count-filter-le k p vs)

-- The rows of a fire, counted.
count-rows :
    (xs ys zs : List Row) (k : String)
    → count k (map entity (xs ++ ys ++ zs))
      ≡ count k (map entity xs) + count k (map entity ys) + count k (map entity zs)
count-rows xs ys zs k =
    let inner = ap (count k) (map-append entity xs ys) in
    ap (count k) (map-append entity (xs ++ ys) zs)
    ∙ omega (
      arith,
      count-append k (map entity (xs ++ ys)) (map entity zs),
      inner,
      count-append k (map entity xs) (map entity ys),
    )

length-rows :
    (xs ys zs : List Row)
    → length (filter (λ r. not (is_abstain r)) xs)
        + (length ys + length zs + length (filter is_abstain xs))
      ≡ length (xs ++ ys ++ zs)
length-rows xs ys zs =
    omega
      (arith, length-append (xs ++ ys) zs, length-append xs ys, length-filter_split is_abstain xs)

fire_rows :
    (frame : Frame) (base : Vehicle → Bool) (xs ys zs : List Row) (s : Option SolverRecord)
    (k : String)
    → (count k (map entity (fire frame base xs ys zs s).proposals)
        ≡ count k (map entity xs) + count k (map entity ys) + count k (map entity zs))
      × ((fire frame base xs ys zs s).planned + (fire frame base xs ys zs s).abstained
          ≡ length (fire frame base xs ys zs s).proposals)
unfolding fire
fire_rows frame base xs ys zs s k = (count-rows xs ys zs k, length-rows xs ys zs)

-- What a fire says: how often each vehicle has a row, and its two counts.
pub record Says (expected : String → ℕ) (f : Fire) : Type 0 where
  pub rows : (k : String) → count k (map entity f.proposals) ≡ expected k
  pub counted : f.planned + f.abstained ≡ length f.proposals

module _ (cp_sat : Scenario → Request → Status × Plan) (covers : CoversLaw cp_sat) (call : Call)
    (frame : Frame) (base : Vehicle → Bool) (sc : Scenario) (abstentions deferred : List Row) where
  fire_batch-Says :
      (assets : List Asset) {f : Fire}
      → fire_batch cp_sat call frame base sc abstentions deferred assets ≡ done f
      → Says
          (λ k.
            count k (aids assets)
            + count k (map entity abstentions)
            + count k (map entity deferred))
          f
  unfolding fire_batch with_assets
  fire_batch-Says [] e = subst (Says _) (done-inj e) (record {
    rows = λ k. (fire_rows frame base [] abstentions deferred none k).0;
    counted = (fire_rows frame base [] abstentions deferred none "").1;
  })
  fire_batch-Says (a ∷ rest) e =
      let sc' = with_assets sc (a ∷ rest) in
      let (solved, ran, rest1) = bind-eq-done (solve cp_sat call.budget sc' call) _ e in
      let (rows, read, made) =
        bind-eq-done (of_rows (plan_to_proposals solved.0 sc' (ready_by_used call (a ∷ rest)))) _
          rest1 in
      let shaped = plan_to_proposals-RowsOf solved.0 sc' _ (of_rows-eq _ read) in
      let listed = solve-Lists cp_sat covers call.budget sc' call ran in
      subst (Says _) (done-inj made) (record {
        rows = λ k. omega (
          arith,
          (fire_rows frame base rows abstentions deferred (some solved.1) k).0,
          RowsOf-count sc'.service_points solved.0.assets rows k shaped,
          listed k,
        );
        counted = (fire_rows frame base rows abstentions deferred (some solved.1) "").1;
      })

module _ (cp_sat : Scenario → Request → Status × Plan) (covers : CoversLaw cp_sat) (call : Call)
    (frame : Frame) (base : Vehicle → Bool) (sc : Scenario) (abstentions : List Row) where
  fire_assets-Says :
      (assets : List Asset) {f : Fire}
      → IsDistinct (aids assets)
      → fire_assets cp_sat call frame base sc abstentions assets ≡ done f
      → Says (λ k. count k (aids assets) + count k (map entity abstentions)) f
  unfolding fire_assets
  fire_assets-Says [] d e = subst (Says _) (done-inj e) (record {
    rows = λ k. (fire_rows frame base [] abstentions [] none k).0 ∙ omega arith;
    counted = (fire_rows frame base [] abstentions [] none "").1;
  })
  fire_assets-Says (a ∷ rest) d e =
      let (bound, allowed, ran) = bind-eq-done (bound_of call.max_assets) _ e in
      let batch = choose call.priority bound (a ∷ rest) in
      let says =
        fire_batch-Says cp_sat covers call frame base sc abstentions batch.deferred
          (keep_chosen batch.kept (a ∷ rest)) ran in
      record {
        rows =
            λ k. omega (arith, says.rows k, keep_chosen-count call.priority bound (a ∷ rest) k d);
        counted = says.counted;
      }

-- Where the plans of the search list the assets of their scenario and no vehicle stands twice in
-- the frame: when `propose` returns, each vehicle that is planned for has exactly one row and no
-- other vehicle has any, and the counts of planned and abstained rows add up to the rows.
pub propose-Says :
    (cp_sat : Scenario → Request → Status × Plan)
    → CoversLaw cp_sat
    → (call : Call) (frame : Frame) {f : Fire} → IsDistinct (map (λ v. Vehicle.id v) frame.vehicles)
    → propose cp_sat call frame ≡ done f
    → (plannable : Vehicle → Bool) × (Population.plannable_in call.serviceable_states
        ≡ Population.ok plannable)
      × Says (λ k. count k (map (λ v. Vehicle.id v) (filter plannable frame.vehicles))) f
unfolding propose
propose-Says cp_sat covers call frame d e =
    let (plannable, population, rest1) =
      bind-eq-done (of_frame (Population.plannable_in call.serviceable_states)) _ e in
    let (translated, read, rest2) =
      bind-eq-done (of_frame (frame_to_scenario call.options plannable frame)) _ rest1 in
    let (base, based, rest3) =
      bind-eq-done (of_frame (Population.serviceable_predicate call.serviceable_states)) _ rest2 in
    let (once, chargeable) =
      frame_to_scenario-Accounted call.options plannable frame (of_frame-eq _ read) in
    let vehicles : (k : String) → count k (map (λ v. Vehicle.id v) frame.vehicles) ≤ 1 =
      λ k. count-IsDistinct k _ d in
    let distinct =
      IsDistinct-of_count (aids translated.0.assets)
        (λ k. omega (arith, once k, vehicles k, count-filter-le k plannable frame.vehicles)) in
    let says =
      fire_assets-Says cp_sat covers call frame base translated.0 translated.1 translated.0.assets
        distinct rest3 in
    (
      plannable,
      of_frame-eq _ population,
      record { rows = λ k. says.rows k ∙ once k; counted = says.counted },
    )
