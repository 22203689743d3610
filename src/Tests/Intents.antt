-- ===== src/Tests/Intents.antt =====
-- A small intent (intent/intent.py, intent/solve.py) and the theorems applied to it.
use otto_q_core.Base.{ℕ, String, refl, none, some, [], ◌∷◌}
use otto_q_core.Intent.{
  Objective, Regime, ActiveIntent, has_kind, build_active, resolve_intent, Intent, ok,
}
use otto_q_core.Intent.Regimes.{Resolves, resolve_intent-Resolves}
use otto_q_core.Intent.Floors.{build_active-KeepsFloors, KeepsFloors}
use otto_q_core.Intent.Solve.Passes.{pass_sequence-SoundPasses, SoundPasses}

abbrev objective : ℕ → String → Objective
objective tier kind = record {
  tier = tier;
  label = "l";
  metric = "m";
  direction = "min";
  kind = kind;
}

abbrev night : Regime
night = record {
  key = "night";
  label = "Night";
  match = record { hour_range = some (22, 6); signals = [] };
  priority = "energy_cost" ∷ "readiness" ∷ "throughput" ∷ [];
  rationale = "";
}

abbrev peak : Regime
peak = record {
  key = "peak";
  label = "Grid peak";
  match = record { hour_range = none; signals = "grid_peak_imminent" ∷ [] };
  priority = "energy_cost" ∷ [];
  rationale = "";
}

abbrev intent : Intent
intent = record {
  objectives =
      ("throughput", objective 2 "objective")
      ∷ ("energy_cost", objective 2 "objective")
      ∷ ("safety", objective 1 "floor")
      ∷ ("readiness", objective 1 "floor")
      ∷ [];
  regimes = night ∷ peak ∷ [];
  fingerprint = "f";
  version = 1;
}

-- At 23 h with the grid signal, the signal's regime wins over the clock's.
abbrev active : ActiveIntent
active = record {
  regime_key = "peak";
  regime_label = "Grid peak";
  priority = "readiness" ∷ "safety" ∷ "energy_cost" ∷ [];
  floors = "readiness" ∷ "safety" ∷ [];
  objectives = "energy_cost" ∷ [];
  rationale = "";
}

resolve_intent-Resolves_example : Resolves intent 23 ("grid_peak_imminent" ∷ []) (ok active)
unfolding resolve_intent
resolve_intent-Resolves_example = resolve_intent-Resolves intent 23 ("grid_peak_imminent" ∷ [])

build_active-KeepsFloors_example : KeepsFloors intent active
unfolding build_active
build_active-KeepsFloors_example = build_active-KeepsFloors intent peak

pass_sequence-SoundPasses_example : SoundPasses active
unfolding resolve_intent has_kind
pass_sequence-SoundPasses_example =
    pass_sequence-SoundPasses intent 23 ("grid_peak_imminent" ∷ []) refl refl
