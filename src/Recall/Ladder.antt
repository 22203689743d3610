-- ===== src/Recall/Ladder.antt =====
-- The order of the rungs (recall/recall_decision.py: `NaiveThresholdRecall.decide`).
use otto_q_core.Base.{
  ℕ, ◌+◌, ◌*◌, ◌≤◌, ◌≡◌, ◌≢◌, ◌↔◌, ◌⊎◌, inl, inr, Bool, true, false, ◌||◌, Option, none, some,
  arith, leb, ◌==◌, Bool-cases, elem,
}
use otto_q_core.Recall.{
  is_critical, is_major_fault, is_low, is_stale, decide_naive, burn_guard, routine_rungs, out,
  bundle_charge, calibration_due, service_bundle_due,
}
use otto_q_core.Recall.Inputs.{
  no_recall, AssetState, SiteForecast, Thresholds, wash_cadence, critical, urgent,
}

-- The last word of an asset is at least that old.
abbrev pub Silent : ℕ → Option ℕ → Type 0
Silent limit none = ⊥
Silent limit (some age) = limit ≤ age

module _ (c : Thresholds) (asset : AssetState) (site : SiteForecast) where
  -- What the asset may burn on the way and over the horizon can take it to its reserve.
  abbrev pub MayRunDry : Type 0
  MayRunDry =
      1000 * asset.soc_pct
      ≤ 1000 * asset.reserve_soc_pct + c.p99_burn_pct_per_min * (site.eta_min + c.horizon_min)

  -- A safety-critical fault, or a charge that may not last.
  abbrev pub InDanger : Type 0
  InDanger = MayRunDry ⊎ (asset.worst_fault_rank ≡ 0)

  -- A major fault or many faults, a charge near the reserve, or no word for long.
  abbrev pub InNeed : Type 0
  InNeed =
      (asset.worst_fault_rank ≡ 1)
      ⊎ (c.dtc_debt_threshold ≤ asset.open_fault_count)
      ⊎ (asset.soc_pct ≤ asset.reserve_soc_pct + c.reserve_margin_pct)
      ⊎ Silent c.comms_stale_min asset.comms_age_min

  is_critical_iff : (is_critical c asset site ≡ true) ↔ MayRunDry
  unfolding is_critical burn_guard
  is_critical_iff = ground arith

  is_stale_iff : (is_stale c asset site ≡ true) ↔ Silent c.comms_stale_min asset.comms_age_min
  unfolding is_stale
  is_stale_iff = old_iff asset.comms_age_min
    where
      old_iff :
          (age : Option ℕ)
          → (elim age [ none ↦ false | some n ↦ leb c.comms_stale_min n ] ≡ true)
            ↔ Silent c.comms_stale_min age
      old_iff none = ((λ h. ground arith), λ h. ground arith)
      old_iff (some n) = ground arith

  -- The two groups of rungs as tests.
  abbrev danger : Bool
  danger = is_critical c asset site || asset.worst_fault_rank == 0

  abbrev need : Bool
  need = is_major_fault c asset site || is_low c asset site || is_stale c asset site

  danger_iff : (danger ≡ true) ↔ InDanger
  danger_iff = (
    (λ h. ground (arith, is_critical_iff.0)),
    λ h. elim h [ inl e ↦ ground (arith, is_critical_iff.1 e) | inr e ↦ ground arith ],
  )

  need_iff : (need ≡ true) ↔ InNeed
  unfolding is_major_fault is_low
  need_iff = (
    (λ h. ground (arith, is_stale_iff.0)),
    λ h. elim h [
      | inl e ↦ ground arith
      | inr (inl e) ↦ ground arith
      | inr (inr (inl e)) ↦ ground arith
      | inr (inr (inr e)) ↦ ground (arith, is_stale_iff.1 e)
    ],
  )

  decided :
      ((decide_naive c asset site).urgency ≡ critical ↔ danger ≡ true)
      × ((decide_naive c asset site).urgency ≡ urgent ↔ (danger ≡ false) × (need ≡ true))
      × ((danger || need) ≡ true
          → ((decide_naive c asset site).recall ≡ true)
            × ((decide_naive c asset site).recall_time ≡ some (site.sim_min_now + 0)))
      × ((decide_naive c asset site).deferrable ≡ some true
          → (danger ≡ false) × (need ≡ false) × (site.congestion_wait_min ≤ 30_000))
  unfolding decide_naive
  decided = (ground arith, ground arith, ground arith, ground arith)

  -- The ladder is critical exactly for an asset in danger, and urgent exactly for one that is in
  -- need but not in danger, whatever the wait at the site is; either is recalled at once. A
  -- deferrable recall is of an asset that is neither, and then the wait is at most 30 minutes.
  pub decide_naive-urgency :
      ((decide_naive c asset site).urgency ≡ critical ↔ InDanger)
      × ((decide_naive c asset site).urgency ≡ urgent ↔ (¬ InDanger) × InNeed)
      × (InDanger ⊎ InNeed
          → ((decide_naive c asset site).recall ≡ true)
            × ((decide_naive c asset site).recall_time ≡ some (site.sim_min_now + 0)))
      × ((decide_naive c asset site).deferrable ≡ some true
          → (¬ InDanger) × (¬ InNeed) × (site.congestion_wait_min ≤ 30_000))
  decide_naive-urgency =
      let (is_danger, is_need, at_once, deferred) = decided in
      (
        ((λ h. danger_iff.0 (is_danger.0 h)), λ h. is_danger.1 (danger_iff.1 h)),
        (
          (λ h. (no_danger (is_need.0 h).0, need_iff.0 (is_need.0 h).1)),
          λ h. is_need.1 (safe h.0, need_iff.1 h.1),
        ),
        (λ h. at_once (elim h [
          | inl e ↦ ground (arith, danger_iff.1 e)
          | inr e ↦ ground (arith, need_iff.1 e)
        ])),
        λ h. (no_danger (deferred h).0, no_need (deferred h).1, (deferred h).2),
      )
    where
      no_danger : danger ≡ false → ¬ InDanger
      no_danger h d = cc (h, danger_iff.1 d)

      no_need : need ≡ false → ¬ InNeed
      no_need h d = cc (h, need_iff.1 d)

      safe : ¬ InDanger → danger ≡ false
      safe h = elim (Bool-cases danger) [ inl e ↦ absurd (h (danger_iff.0 e)) | inr e ↦ e ]

  -- Where the wash threshold is not below the sensor threshold, the ladder never asks for a wash:
  -- no outcome has it for a trigger or in its bundle.
  pub decide_naive-no_wash :
      c.sensor_soil_threshold ≤ c.wash_soil_threshold
      → ((decide_naive c asset site).trigger ≢ some wash_cadence)
        × (elem "exterior_wash" (decide_naive c asset site).service_bundle ≡ false)
  unfolding decide_naive routine_rungs out bundle_charge calibration_due service_bundle_due
      no_recall
  decide_naive-no_wash h = (ground arith, ground arith)
