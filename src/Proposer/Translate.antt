-- ===== src/Proposer/Translate.antt =====
-- The vehicles of a frame as assets of the scenario (proposer/forward_proposer.py: the second loop
-- of `frame_to_scenario`, and its result).
--
-- `class_of` reads the field that `class_key` names. The text of a class's name is the record
-- `ClassName`, which keeps its three parts apart. A null `inlet_max_kw` and a zero one mean the
-- class's power, as `or` has it.
pub mod Classes
pub mod Laws
use otto_q_core.Proposer.Rows.{
  Reason, no_soc, no_inlet, at_target, no_class, no_point, Row, abstain,
}
use otto_q_core.Proposer.Points.{Offered, offered_points}
use otto_q_core.Proposer.Inlets.{capability_kind, capability_inlets, connector}
use otto_q_core.Base.Sort.{sort}
use otto_q_core.Base.{
  ℕ, ◌+◌, ◌/◌, ◌%◌, min, String, Bool, true, false, not, ◌&&◌, Option, none, some, List, [], ◌∷◌,
  ◌++◌, map, ltb, leb, ◌==◌, str_eq, str_le, if◌then◌else◌, filter, elem, set_of, Dict, lookup,
}
use otto_q_core.Proposer.Frame.{Frame, Vehicle}
use otto_q_core.Proposer.Held.{◌>>=◌, resolved_target_soc, no_charge_kinds, Result, ok, err}
use otto_q_core.Scenario.{
  Site, Weights, CurveStep, AssetClass, ServicePoint, Asset, Scenario, ClassName,
}

-- A row of the class table; powers and energies in thousandths.
pub record ClassRow : Type 0 where
  pub battery_kwh : ℕ
  pub max_charge_kw : ℕ
  pub charge_kinds : Option (List String)
  pub energy_curve : Option (List CurveStep)

pub record Options : Type 0 where
  pub site : Site
  pub horizon_min : ℕ
  pub ready_by_min : Dict ℕ
  pub default_ready_delta_min : ℕ
  pub class_of : Vehicle → Option String
  pub class_table : Dict ClassRow

-- `int(round(x))` of a number in thousandths: a half goes to the even neighbour.
pub round_half_even : ℕ → ℕ
round_half_even n =
    let q = n / 1000 in
    let r = n % 1000 in
    if ltb r 500 then q else if ltb 500 r then q + 1 else if q % 2 == 0 then q else q + 1

-- What becomes of a vehicle that is looked at.
pub data Verdict : Type 0 where
  abstains : Reason → Verdict
  plans : ClassName → AssetClass → Asset → Verdict

-- `caps`: the capabilities on site that the class may use and that take the inlet, sorted.
pub takes : List String → String → String → Bool
takes kinds inlet cap = elem (capability_kind cap) kinds && elem inlet (capability_inlets cap)

pub caps_for : List ServicePoint → List String → String → List String
unfolding takes
caps_for points kinds inlet =
    sort str_le (filter (takes kinds inlet) (set_of (map (λ p. ServicePoint.kind p) points)))

-- The plugs that the site accepts for some kinds.
pub plugs_of : List String → List (String × List String) → List String
plugs_of kinds [] = []
plugs_of kinds ((kind, inlets) ∷ rest) =
    let others = plugs_of kinds rest in if elem kind kinds then inlets ++ others else others

-- `min(cls["max_charge_kw"], v.get("inlet_max_kw") or cls["max_charge_kw"])`
pub eff_kw : ClassRow → Vehicle → ℕ
eff_kw cls v = elim v.inlet_max_kw [
  | none ↦ cls.max_charge_kw
  | some kw ↦ if kw == 0 then cls.max_charge_kw else min cls.max_charge_kw kw
]

-- The curve of a class that declares none: full power at every level.
pub curve_of : ClassRow → List CurveStep
curve_of cls = elim cls.energy_curve [
  | some curve ↦ curve
  | none ↦ record { above_soc_pct = 0; accept_frac = 1000 } ∷ []
]

module _ (opts : Options) (offered : Offered) where
  -- The class and the asset of a vehicle that some point takes.
  pub planned : Vehicle → ℕ → ℕ → ClassRow → String → List String → Verdict
  unfolding eff_kw curve_of
  planned v soc target cls inlet caps =
      let kw = eff_kw cls v in
      let name : ClassName = record { key = opts.class_of v; kw = kw / 1000; inlet = inlet } in
      plans name
        (record {
          battery_kwh = cls.battery_kwh;
          max_charge_kw = kw;
          inlet = inlet;
          charge_kinds = caps;
          energy_curve = curve_of cls;
        })
        (record {
          aid = v.id;
          cls = name;
          arrival_min = 0;
          soc = soc;
          target_soc = target;
          ready_by_min = elim (lookup v.id opts.ready_by_min) [
            | none ↦ opts.default_ready_delta_min
            | some n ↦ n
          ];
          pack_temp_c = 18;
          needs_wash = false;
          needs_inspect = false;
          parallel_ops = [];
        })

  pub judge_caps : Vehicle → ℕ → ℕ → ClassRow → List String → String → List String → Verdict
  unfolding planned plugs_of
  judge_caps v soc target cls kinds inlet [] =
      abstains (no_point inlet kinds (sort str_le (set_of (plugs_of kinds offered.connectors))))
  judge_caps v soc target cls kinds inlet (cap ∷ caps) = planned v soc target cls inlet (cap ∷ caps)

  pub judge_inlet : Vehicle → ℕ → ℕ → ClassRow → List String → Option String → Verdict
  unfolding judge_caps caps_for
  judge_inlet v soc target cls kinds none = abstains no_inlet
  judge_inlet v soc target cls kinds (some inlet) =
      judge_caps v soc target cls kinds inlet (caps_for offered.points kinds inlet)

  -- `class_table.get(ckey)`
  pub class_row : Option String → Option ClassRow
  class_row none = none
  class_row (some key) = lookup key opts.class_table

  -- `cls["charge_kinds"]`, which has no default.
  pub judge_kinds : Vehicle → ℕ → ℕ → ClassRow → Option (List String) → Result Verdict
  unfolding judge_inlet
  judge_kinds v soc target cls none = err (no_charge_kinds (opts.class_of v))
  judge_kinds v soc target cls (some kinds) =
      ok (judge_inlet v soc target cls kinds (connector v.inlet_type))

  pub judge_class : Vehicle → ℕ → ℕ → Option ClassRow → Result Verdict
  unfolding judge_kinds
  judge_class v soc target none = ok (abstains (no_class (opts.class_of v)))
  judge_class v soc target (some cls) = judge_kinds v soc target cls cls.charge_kinds

  pub judge_need : Vehicle → ℕ → ℕ → Result Verdict
  unfolding judge_class class_row
  judge_need v soc target =
      if leb target soc
      then ok (abstains (at_target target soc))
      else judge_class v soc target (class_row (opts.class_of v))

  pub judge_soc : Vehicle → Option ℕ → Result Verdict
  unfolding judge_need round_half_even
  judge_soc v none = ok (abstains no_soc)
  judge_soc v (some level) =
      judge_need v (round_half_even level) (round_half_even (resolved_target_soc v))

  -- The body of the loop over the vehicles.
  pub judge : Vehicle → Result Verdict
  unfolding judge_soc
  judge v = judge_soc v v.soc

-- `==` of two class names.
pub key_eq : Option String → Option String → Bool
key_eq none none = true
key_eq none (some y) = false
key_eq (some x) none = false
key_eq (some x) (some y) = str_eq x y

unfoldable pub name_eq : ClassName → ClassName → Bool
unfolding key_eq
name_eq a b = key_eq a.key b.key && (a.kw == b.kw) && str_eq a.inlet b.inlet

-- `classes.setdefault(name, c)`
pub setdefault :
    ClassName → AssetClass → List (ClassName × AssetClass) → List (ClassName × AssetClass)
unfolding name_eq
setdefault n c [] = (n, c) ∷ []
setdefault n c ((m, d) ∷ rest) = if name_eq n m then (m, d) ∷ rest else (m, d) ∷ setdefault n c rest

-- `classes`, `explicit` and `abstentions`.
pub record Translated : Type 0 where
  pub classes : List (ClassName × AssetClass)
  pub explicit : List Asset
  pub abstentions : List Row

pub note : Translated → Vehicle → Verdict → Translated
unfolding setdefault
note acc v (abstains r) = record acc { abstentions = acc.abstentions ++ abstain v.id r ∷ [] }
note acc v (plans n c a) = record acc {
  classes = setdefault n c acc.classes;
  explicit = acc.explicit ++ a ∷ [];
}

module _ (opts : Options) (offered : Offered) (serviceable : Vehicle → Bool) where
  pub translate_from : Translated → List Vehicle → Result Translated
  unfolding judge note
  translate_from acc [] = ok acc
  translate_from acc (v ∷ vs) =
      if not (serviceable v)
      then translate_from acc vs
      else judge opts offered v >>= λ verdict. translate_from (note acc v verdict) vs

pub no_vehicles : Translated
no_vehicles = record { classes = []; explicit = []; abstentions = [] }

-- `objective_weights` of the scenario.
pub frame_weights : Weights
frame_weights = record {
  tardiness_per_min = 10;
  onpeak_kw_min = 0;
  peak_excess_per_kw = 0;
  per_move = 0;
  rejection_penalty = none;
  churn_per_change = none;
}

-- `frame_to_scenario`
unfoldable pub frame_to_scenario : Options → (Vehicle → Bool) → Frame → Result (Scenario × List Row)
unfolding translate_from frame_weights no_vehicles
frame_to_scenario opts serviceable frame = do
  offered ← offered_points opts.site frame.stalls
  t ← translate_from opts offered serviceable no_vehicles frame.vehicles
  ok (
    record {
      horizon_min = opts.horizon_min;
      site = opts.site;
      weights = frame_weights;
      asset_classes = t.classes;
      service_points = offered.points;
      parallel_ops_menu = [];
      assets = t.explicit;
    },
    t.abstentions,
  )
