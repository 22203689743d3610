-- ===== src/Lib.antt =====
-- The scheduling core of OTTO-Q: which stalls and vehicles a decision frame offers, how they become
-- a scenario of the solver, how the commander's intent orders the solver's passes, how the passes
-- hold each other's optima, and what rows come out; and beside it the signals that a forecast raises,
-- what refusals teach, the tariff that bills a load curve, the adapters to foreign protocols, and the
-- recall decision.
--
-- How the parts interact. A fire of the proposer (proposer/forward_proposer.py: `propose`) reads a
-- frame, picks the vehicles to plan for, translates them and the offered stalls to a scenario,
-- chooses a batch, and solves: with two passes, or with the passes of the active regime. The regime
-- comes from the intent (intent/intent.py: `resolve_intent`), its passes from intent/solve.py
-- (`pass_sequence`), and the chain (policies/forward.py: `lexicographic_solve_traced`) runs each pass
-- through `build_and_solve` (solvers/cpsat/model.py). The published figures are measured off the
-- plan that ships, and the plan becomes one row for each vehicle.
--
-- Files. Each module names its functions as the source does, without a leading underscore.
--   Intent, Intent/Order, Intent/Floors, Intent/Regimes: intent/intent.py.
--   Intent/Solve, Intent/Solve/Passes: intent/solve.py.
--   Intent/Signals and its children: intent/signals.py, thresholds, forecast checks and signals.
--   Intent/Learn and its children: intent/learn.py, what a batch of refusals teaches.
--   Tariff, with Meter, Energy, Bill and Load: sites/tariff.py; Windows, Ladder, Rates and the
--     children of the others hold their laws.
--   Scenario, Plan: the scenario and the plan, dicts of solvers/cpsat/model.py.
--   Solver, Solver/Laws: `build_and_solve` around its search; Solver/Segments: the charge segments.
--   Solver/Model: variables, constraints and what satisfies them; Solver/Build: what
--     `build_and_solve` adds for an asset (Jobs, Charge, Finish, Costs) and for the site;
--     Solver/Extract: `_extract`; Solver/Solution, Points, Timing, Pinned, Blocked: what holds of
--     a plan that is read back.
--   Composed: the chain and a fire of the proposer on the constraint model.
--   Chain and its children: the lexicographic chain of policies/forward.py.
--   Proposer/Frame, Offer, Held, Inlets, Points, Translate, Batch, Rows, Measure, Propose, each with
--     its laws: proposer/forward_proposer.py.
--   Adapters, Adapters/Vda5050, Adapters/Ocpi: the files of those names under adapters/.
--   Curve, Curve/Draws: the load curve of policies/cost.py; Pareto, Pareto/Front: its frontier, on
--     whole minutes and cents.
--   Recall, with Inputs, Ladder and Cycle: recall/recall_decision.py.
--   Base and its children: Boolean tests, lists, dicts, code that raises, stable sorting,
--     ASCII text and splitting.
--   Tests: concrete inputs on which the theorems with hypotheses are applied.
--
-- Choices. Numbers are naturals: minutes and kW of the solver are whole, percentages, powers and
-- energies of a frame are thousandths, and where the source rounds the rounding is written out. A
-- dict is a list of its items in insertion order; a key that may be absent is an option. An exception
-- is an error value. Reasons and statuses are constructors with the values that their texts print;
-- prose, hashes and constant fields of the outputs are left out. Loops run over a list, or over the
-- minutes or hours that are left, and are structural recursion; only the meter's loop over intervals
-- has fuel, one pass for each minute of the curve, which is enough when an interval has a minute; a
-- `range` is the number of its items.
-- `segment_kw` multiplies a power and a fraction exactly, where the code's float product may come out
-- a little lower and be rounded to the next kW below. A scenario names each asset once, as the code's
-- dict of an asset's variables wants it. The floats of the OCPI mapping are a parameter.
-- A tariff counts in watts, minutes and watt-minutes, its load points on whole minutes; averages and
-- the ratchet's floor are rounded down to a watt.
--
-- The constraint model is data: `build_model` of Solver/Build lists the constraints and the terms of
-- the objective that `build_and_solve` adds, over named variables, and `Holds` of Solver/Model says
-- when an assignment satisfies a constraint. A variable is a natural number; the one that the code
-- lets go below nought, the raw overlap with the on-peak window, is stated by its difference. The
-- search for an assignment is CP-SAT, a library, and the parameter `search`; what is relied on is
-- `SearchLaw` of Solver/Extract: values that are reported as a solution satisfy the constraints. That
-- a plan is the best is not relied on. Solver/Extract reads a plan back from the values. The chain
-- and a fire are stated for any function `cp_sat` from a request to a plan with the laws `CpSatLaws`
-- of Solver and `CoversLaw` of Proposer/Propose/Laws, which Solver/Solution and Composed prove of
-- `solve_model`: CP-SAT between the constraint model and the reading back.
--
-- Not modelled: hints to the search, its seed and limits, the proposals inside a plan and its hash,
-- and the generator of assets that draws from a random source; loading and hashing artifacts; the
-- class checks of adapters/base.py, the contract, the bridge, the charging station system, load,
-- sizing and wear; rounding for reports; and the laboratory, conformance and database tooling
-- around the program.
pub mod Base
pub mod Intent
pub mod Plan
pub mod Scenario
pub mod Proposer
pub mod Solver
pub mod Chain
pub mod Recall
pub mod Tariff
pub mod Adapters
pub mod Pareto
pub mod Curve
pub mod Composed
mod Tests
