-- ===== src/Solver/Build/Jobs.antt =====
-- What `build_and_solve` looks up for an asset before it makes constraints
-- (solvers/cpsat/model.py): the work that has started, the points that may take new work, and the
-- candidates of a charge.
--
-- Three lookups raise a KeyError in the code on a scenario that lacks what it names: an asset of an
-- unknown class, which has no candidates here, a dcfc point on a site without a cooldown, which has
-- none, and an unknown parallel operation, which takes no time. The proposer refuses a frame with
-- either of the first two and asks for no parallel operations.
use otto_q_core.Solver.Segments.{ChargeSegment, charge_segments}
use otto_q_core.Plan.{Op, AssetPlan}
use otto_q_core.Scenario.{AssetClass, ServicePoint, ClassName, Asset, Scenario}
use otto_q_core.Solver.{Request}
use otto_q_core.Proposer.Translate.{name_eq}
use otto_q_core.Base.{
  ℕ, String, Bool, true, false, not, ◌&&◌, ◌||◌, Option, none, some, List, [], ◌∷◌, ◌++◌, map, ltb,
  str_eq, if◌then◌else◌, filter, elem,
}

-- The arguments of `build_and_solve`.
pub record Input : Type 0 where
  pub sc : Scenario
  pub asked : Request
  pub t_now : ℕ
  pub blocked : List String

-- The last of the operations of that name that started before `t_now`.
unfoldable pub started_op : String → ℕ → List Op → Option Op
started_op name t_now [] = none
started_op name t_now (o ∷ ops) = elim (started_op name t_now ops) [
  | some later ↦ some later
  | none ↦ if ltb o.start t_now && str_eq o.op name then some o else none
]

unfoldable pub started_in : String → String → ℕ → List AssetPlan → Option Op
unfolding started_op
started_in aid name t_now [] = none
started_in aid name t_now (a ∷ rest) = elim (started_in aid name t_now rest) [
  | some later ↦ some later
  | none ↦ if str_eq a.aid aid then started_op name t_now a.ops else none
]

-- `pinned.get((aid, name))`
unfoldable pub pinned : Input → String → String → Option Op
unfolding started_in
pinned inp aid name = elim inp.asked.previous_plan [
  | none ↦ none
  | some p ↦ started_in aid name inp.t_now p.assets
]

-- A blocked point takes no new work.
unfoldable pub accepts_work : Input → String → String → ServicePoint → Bool
accepts_work inp aid name p =
    not (elem p.id inp.blocked) || elim (pinned inp aid name) [ none ↦ false | some _ ↦ true ]

unfoldable pub points_for : Input → String → String → String → List ServicePoint
unfolding accepts_work
points_for inp aid name kind =
    filter (λ p. str_eq p.kind kind && accepts_work inp aid name p) inp.sc.service_points

pub record Candidate : Type 0 where
  pub kind : String
  pub point : ServicePoint
  pub segs : List ChargeSegment

unfoldable pub class_of : ClassName → List (ClassName × AssetClass) → Option AssetClass
class_of name [] = none
class_of name ((n, c) ∷ rest) = if name_eq name n then some c else class_of name rest

unfoldable pub candidate : Input → Asset → AssetClass → String → ServicePoint → Candidate
candidate inp a cls kind p = record {
  kind = kind;
  point = p;
  segs =
      charge_segments inp.sc.site cls a.soc a.target_soc
        (ltb a.pack_temp_c inp.sc.site.cold_start_below_c) p.kw;
}

unfoldable pub candidates_from : Input → Asset → AssetClass → List String → List Candidate
candidates_from inp a cls [] = []
candidates_from inp a cls (kind ∷ kinds) =
    map (candidate inp a cls kind) (points_for inp a.aid "charge" kind)
    ++ candidates_from inp a cls kinds

abbrev pub has_segs : Candidate → Bool
has_segs c = elim c.segs [ [] ↦ false | _ ∷ _ ↦ true ]

unfoldable pub candidates_in : Input → Asset → Option AssetClass → List Candidate
candidates_in inp a none = []
candidates_in inp a (some cls) = filter has_segs (candidates_from inp a cls cls.charge_kinds)

-- The candidate points, in the order of the class's kinds; `charge_segments` is empty for an asset
-- that is at its target.
unfoldable pub candidates : Input → Asset → List Candidate
unfolding candidates_in
candidates inp a = candidates_in inp a (class_of a.cls inp.sc.asset_classes)

-- The gap on the point behind a charge: its own, or the cooldown of a dcfc point.
unfoldable pub cool : Input → Candidate → ℕ
cool inp c = elim c.point.min_gap_min [
  | some gap ↦ gap
  | none ↦
      if str_eq c.kind "dcfc"
      then elim inp.sc.site.dcfc_cooldown_min [ none ↦ 0 | some gap ↦ gap ]
      else 0
]
