-- ===== src/Proposer/Propose.antt =====
-- One fire of the proposer (proposer/forward_proposer.py: `propose`).
--
-- The record of the solve keeps every figure that the code publishes but the texts of its
-- optimizer and of the branch without a plan. `hour_of_day` absent is the two-pass branch.
pub mod Laws
use otto_q_core.Proposer.Offer.{sum_values}
use otto_q_core.Proposer.Held.{
  vehicle_is_held, FrameError, serviceable_predicate, plannable_in, Result, ok, err,
}
use otto_q_core.Base.{
  ℕ, ◌+◌, String, Bool, true, false, not, ◌&&◌, Option, none, some, List, [], ◌∷◌, ◌++◌, map, ◌==◌,
  if◌then◌else◌, length, filter, all, Dict, lookup,
}
use otto_q_core.Intent.{ActiveIntent, resolve_intent, Intent, Error}
use otto_q_core.Intent.Solve.{mode_eq, pass_sequence, min_tardy, min_peak, Mode}
use otto_q_core.Plan.{Status, tardy_total, is_reproducible, work_of, Plan, optimal}
use otto_q_core.Scenario.{Asset, Scenario}
use otto_q_core.Solver.{Request, build_and_solve, Budget, request}
use otto_q_core.Chain.{Outcome, lexicographic_solve_traced, PassTrace}
use otto_q_core.Proposer.Frame.{Frame, frame_facts_version, Vehicle}
use otto_q_core.Proposer.Measure.{measure_plan, Optima, ChainError, check_optima, Measured}
use otto_q_core.Proposer.Rows.{is_abstain, plan_to_proposals, Row}
use otto_q_core.Proposer.Translate.{frame_to_scenario, Options}
use otto_q_core.Proposer.Batch.{keep_chosen, choose}
use otto_q_core.Solver as Cp
use otto_q_core.Proposer.Offer
use otto_q_core.Intent as Doctrine
use otto_q_core.Proposer.Held as Population

pub record Call : Type 0 where
  pub options : Options
  pub serviceable_states : Option (List String)
  pub priority : Option (List String)
  pub max_assets : Option ℕ
  pub budget : Budget
  pub hour_of_day : Option ℕ
  pub signals : List String
  pub intent : Intent

pub data Failure : Type 0 where
  bad_frame : Population.FrameError → Failure
  bad_max_assets : ℕ → Failure
  bad_intent : Doctrine.Error → Failure
  unsolved : Cp.Error → Failure
  broken : ChainError → Failure
  bad_plan : Failure

pub data Try {ℓ} (A : Type ℓ) : Type ℓ where
  done : A → Try A
  failed : Failure → Try A

infixl 5 ◌>>=◌
abbrev pub ◌>>=◌ {ℓ κ} : {A : Type ℓ} {B : Type κ} → Try A → (A → Try B) → Try B
done found >>= next = next found
failed why >>= next = failed why

-- The failures of the parts as failures of the fire.
abbrev pub of_frame {ℓ} : {A : Type ℓ} → Population.Result A → Try A
of_frame (Population.ok a) = done a
of_frame (Population.err e) = failed (bad_frame e)

abbrev pub of_intent {ℓ} : {A : Type ℓ} → Doctrine.Result A → Try A
of_intent (Doctrine.ok a) = done a
of_intent (Doctrine.err e) = failed (bad_intent e)

abbrev pub of_solver {ℓ} : {A : Type ℓ} → Cp.Result A → Try A
of_solver (Cp.ok a) = done a
of_solver (Cp.err e) = failed (unsolved e)

abbrev pub of_rows : Option (List Row) → Try (List Row)
of_rows none = failed bad_plan
of_rows (some rows) = done rows

-- `_check_optima`, which raises.
abbrev pub checked : Option ChainError → Try (Unit {0})
checked none = done tt
checked (some e) = failed (broken e)

pub record Identity : Type 0 where
  pub ortools_version : Option String
  pub det_budget : Option ℕ
  pub wall_limit : Option ℕ

pub record SolverRecord : Type 0 where
  pub regime : Option (String × String)
  pub pass_modes : List Mode
  pub passes : List PassTrace
  pub pass_statuses : List Status
  pub measured : Measured
  pub optima_reached : Optima
  pub retained_previous : Bool
  pub complete : Bool
  pub reproducible : Bool
  pub rejected : List String
  pub deterministic_time : ℕ
  pub identity : Identity

pub record Fire : Type 0 where
  pub proposals : List Row
  pub planned : ℕ
  pub abstained : ℕ
  pub deferred : ℕ
  pub solver : Option SolverRecord
  pub stalls_busy : ℕ
  pub stalls_blocked : Dict ℕ
  pub vehicles_held : ℕ
  pub facts_version : Option ℕ

-- `_repro_identity`: the keys `_REPRO_KEYS` of the first plan that carries a repro block.
pub repro_identity : List Plan → Identity
repro_identity [] = record { ortools_version = none; det_budget = none; wall_limit = none }
repro_identity (p ∷ ps) = elim p.repro [
  | none ↦ repro_identity ps
  | some r ↦ record {
    ortools_version = r.ortools_version;
    det_budget = r.det_budget;
    wall_limit = r.wall_limit;
  }
]

abbrev pub is_optimal : Status → Bool
is_optimal optimal = true
is_optimal _ = false

-- `optima.get(m) is not None`
pub reached : Optima → Mode → Bool
reached [] m = false
reached ((n, v) ∷ rest) m =
    if mode_eq n m then elim v [ none ↦ false | some _ ↦ true ] else reached rest m

pub total_time : List PassTrace → ℕ
total_time [] = 0
total_time (p ∷ ps) = elim p.deterministic_time [ none ↦ 0 | some n ↦ n ] + total_time ps

module _ (cp_sat : Scenario → Request → Status × Plan) (budget : Budget) (sc : Scenario) where
  -- The second request of the two-pass branch, which prices churn as a tick does.
  pub second_request : Plan → Request
  second_request pass1 = record (request min_peak budget) {
    previous_plan = some pass1;
    max_tardy_total = some (tardy_total pass1.assets);
  }

  pub two_pass_optima : Plan → Plan → Optima
  two_pass_optima pass1 pass2 =
      (min_tardy, some (tardy_total pass1.assets))
      ∷ (min_peak, if pass2.retained_previous then none else pass2.site_peak_kw)
      ∷ []

  pub two_pass_record : Plan → Plan → SolverRecord
  unfolding two_pass_optima repro_identity
  two_pass_record pass1 pass2 = record {
    regime = none;
    pass_modes = [];
    passes = [];
    pass_statuses = pass1.solver_status ∷ pass2.solver_status ∷ [];
    measured = measure_plan pass2;
    optima_reached = two_pass_optima pass1 pass2;
    retained_previous = pass2.retained_previous;
    complete =
        not pass2.retained_previous
        && is_optimal pass1.solver_status
        && is_optimal pass2.solver_status;
    reproducible = not pass2.retained_previous && is_reproducible pass1 && is_reproducible pass2;
    rejected = pass2.rejected;
    deterministic_time = work_of pass1 + work_of pass2;
    identity = repro_identity (pass2 ∷ pass1 ∷ []);
  }

  pub two_pass : Try (Plan × SolverRecord)
  unfolding second_request two_pass_record two_pass_optima
  two_pass = do
    pass1 ← of_solver (build_and_solve cp_sat sc (request min_tardy budget))
    pass2 ← of_solver (build_and_solve cp_sat sc (second_request pass1))
    _ ← checked (check_optima (measure_plan pass2) (two_pass_optima pass1 pass2))
    done (pass2, two_pass_record pass1 pass2)

  pub regime_record : ActiveIntent → List Mode → Outcome → SolverRecord
  unfolding reached total_time repro_identity
  regime_record active modes o = record {
    regime = some (active.regime_key, active.regime_label);
    pass_modes = modes;
    passes = o.passes;
    pass_statuses = [];
    measured = measure_plan o.plan;
    optima_reached = o.optima;
    retained_previous = o.plan.retained_previous;
    complete =
        length o.passes == length modes
        && all (λ p. PassTrace.proven p) o.passes
        && all (reached o.optima) modes;
    reproducible = not o.plan.retained_previous && all (λ p. PassTrace.reproducible p) o.passes;
    rejected = o.plan.rejected;
    deterministic_time = total_time o.passes;
    identity = repro_identity (o.plan ∷ []);
  }

  pub regime_aware : Intent → ℕ → List String → Try (Plan × SolverRecord)
  unfolding regime_record
  regime_aware intent hour signals = do
    active ← of_intent (resolve_intent intent hour signals)
    o ← of_solver (lexicographic_solve_traced cp_sat sc budget (pass_sequence active))
    _ ← checked (check_optima (measure_plan o.plan) o.optima)
    done (o.plan, regime_record active (pass_sequence active) o)

  pub solve : Call → Try (Plan × SolverRecord)
  unfolding two_pass regime_aware
  solve call = elim call.hour_of_day [
    | none ↦ two_pass
    | some hour ↦ regime_aware call.intent hour call.signals
  ]

-- `ready_by_used`
pub ready_by_used : Call → List Asset → Dict String
ready_by_used call = map λ a. (
  Asset.aid a,
  elim (lookup (Asset.aid a) call.options.ready_by_min) [ none ↦ "default" | some _ ↦ "explicit" ],
)

-- `max_assets < 1`, which raises.
pub bound_of : Option ℕ → Try (Option ℕ)
bound_of none = done none
bound_of (some n) = if n == 0 then failed (bad_max_assets n) else done (some n)

-- The counts that every fire carries, around its rows.
pub fire : Frame → (Vehicle → Bool) → List Row → List Row → List Row → Option SolverRecord → Fire
fire frame base rows abstentions deferred solver = record {
  proposals = rows ++ abstentions ++ deferred;
  planned = length (filter (λ r. not (is_abstain r)) rows);
  abstained = length abstentions + length deferred + length (filter is_abstain rows);
  deferred = length deferred;
  solver = solver;
  stalls_busy = sum_values (Offer.stalls_blocked frame.stalls);
  stalls_blocked = Offer.stalls_blocked frame.stalls;
  vehicles_held = length (filter (λ v. base v && vehicle_is_held v) frame.vehicles);
  facts_version = frame_facts_version frame;
}

-- The scenario of a batch.
pub with_assets : Scenario → List Asset → Scenario
with_assets sc assets = record sc { assets = assets }

module _ (cp_sat : Scenario → Request → Status × Plan) (call : Call) (frame : Frame) where
  -- The rest of a fire, once the batch is chosen.
  pub fire_batch : (Vehicle → Bool) → Scenario → List Row → List Row → List Asset → Try Fire
  unfolding solve fire ready_by_used with_assets
  fire_batch base sc abstentions deferred [] = done (fire frame base [] abstentions deferred none)
  fire_batch base sc abstentions deferred (a ∷ rest) =
      let sc' = with_assets sc (a ∷ rest) in
      solve cp_sat call.budget sc' call >>= λ solved.
      of_rows (plan_to_proposals solved.0 sc' (ready_by_used call (a ∷ rest))) >>= λ rows.
      done (fire frame base rows abstentions deferred (some solved.1))

  -- The fire of a scenario with these assets.
  pub fire_assets : (Vehicle → Bool) → Scenario → List Row → List Asset → Try Fire
  unfolding bound_of fire_batch fire
  fire_assets base sc abstentions [] = done (fire frame base [] abstentions [] none)
  fire_assets base sc abstentions (a ∷ rest) = bound_of call.max_assets >>= λ bound.
      let batch = choose call.priority bound (a ∷ rest) in
      fire_batch base sc abstentions batch.deferred (keep_chosen batch.kept (a ∷ rest))

  unfoldable pub propose : Try Fire
  unfolding fire_assets
  propose = do
    plannable ← of_frame (plannable_in call.serviceable_states)
    translated ← of_frame (frame_to_scenario call.options plannable frame)
    base ← of_frame (serviceable_predicate call.serviceable_states)
    fire_assets base translated.0 translated.1 translated.0.assets
