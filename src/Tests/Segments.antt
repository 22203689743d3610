-- ===== src/Tests/Segments.antt =====
-- A charge over a curve of two steps (solvers/cpsat/model.py: `charge_segments`).
use otto_q_core.Base.{refl, true, none, List, [], ◌∷◌, arith}
use otto_q_core.Scenario.{Site, CurveStep, AssetClass}
use otto_q_core.Solver.Segments.{charge_segments}
use otto_q_core.Solver.Segments.Laws.{Charges, charge_segments-Charges}

abbrev yard : Site
yard = record {
  power_cap_kw_hard = 300;
  onpeak_window_min = none;
  dcfc_cooldown_min = none;
  cold_start_below_c = 5;
  cold_start_penalty_min = 8;
  power_soft_target_kw = 450;
  path_capacity = 2;
  move_duration_min = 4;
  wash_min = none;
  inspect_min = none;
}

abbrev taper : List CurveStep
taper =
    record { above_soc_pct = 80; accept_frac = 400 }
    ∷ record { above_soc_pct = 0; accept_frac = 1000 }
    ∷ []

abbrev pod : AssetClass
pod = record {
  battery_kwh = 75_000;
  max_charge_kw = 120_000;
  inlet = "ccs";
  charge_kinds = "dcfc" ∷ [];
  energy_curve = taper;
}

charge_segments-Charges_example : Charges pod 150 30 90 (charge_segments yard pod 30 90 true 150)
charge_segments-Charges_example =
    charge_segments-Charges yard pod record { above_soc_pct = 80; accept_frac = 400 }
      (record { above_soc_pct = 0; accept_frac = 1000 } ∷ []) 30 90 true 150 refl
      (omega arith, (omega arith, tt)) (omega arith) (omega arith)
