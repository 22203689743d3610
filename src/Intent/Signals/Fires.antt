-- ===== src/Intent/Signals/Fires.antt =====
-- No signal fires on nothing (intent/signals.py: `forecast_signals`).
use otto_q_core.Base.{
  ℕ, zero, suc, ◌*◌, ◌/◌, ◌≤◌, ◌<◌, ◌≡◌, refl, inl, inr, Bool, true, false, ◌&&◌, List, arith, ltb,
  leb, Bool-cases, leb→le, ltb→lt, Returned, Returned->>=, Returned-after, Returned-if,
}
use otto_q_core.Intent.Signals.{
  valid_hour, peak_signal, valid_target, Query, signals_from, forecast_signals, is_some_hour,
  surge_of, peak_reason, Reason, SignalAssessment, surge_reason, assessment,
}
use otto_q_core.Intent.Signals.Windows.{
  require_section, hour_map, window_from, sum_arrivals, max_load, HourMap, Hour,
}
use otto_q_core.Intent.Signals.Thresholds.{
  Value, below_zero, not_finite, not_number, no_baseline, in_domain, Effective, window_kind,
  ratio_kind, threshold, number,
}
use otto_q_core.Intent.Signals.Domains.{apply_overrides-InDomains, InDomains}

-- A window is a whole number of hours, from one to a day.
abbrev pub IsWindow : ℕ → Type 0
IsWindow n = (1 ≤ n) × (n ≤ 24)

-- What an assessment guarantees. A surge has arrivals and a baseline, a grid peak has load, and both
-- looked ahead at least an hour and at most a day.
abbrev pub IsGrounded : SignalAssessment → Type 0
IsGrounded a =
    (a.surge.triggered ≡ true → (0 < a.surge.value) × (0 < a.surge.baseline))
    × (a.grid_peak.triggered ≡ true → 0 < a.grid_peak.value)
    × IsWindow a.surge.window_hours
    × IsWindow a.grid_peak.window_hours

positive-mul : (a b : ℕ) → 0 < a → 0 < b → 0 < a * b
positive-mul (suc a) (suc b) h k = omega arith
positive-mul zero b h k = omega arith
positive-mul (suc a) zero h k = omega arith

pub window_kind-IsWindow : (v : ℕ) → in_domain window_kind v ≡ true → IsWindow (v / 1000)
unfolding in_domain
window_kind-IsWindow v h = ground arith

ratio-positive : (v : ℕ) → in_domain ratio_kind v ≡ true → 0 < v
unfolding in_domain
ratio-positive v h = ground arith

-- A multiple of something is not reached by nothing.
reached : (m b x : ℕ) → 0 < m → 0 < b → m * b ≤ 1000 * x → 0 < x
reached m b x h k l = omega (arith, positive-mul m b h k)

three : (a b c : Bool) → (a && b && c) ≡ true → (b ≡ true) × (c ≡ true)
three true true true h = (refl, refl)
three true true false h = ground arith
three true false c h = ground arith
three false b c h = ground arith

two : (a b : Bool) → (a && b) ≡ true → b ≡ true
two true b h = h
two false b h = ground arith

surge_reason-fires :
    (e : Effective) (hs : List Hour) (sums : ℕ × ℕ)
    → InDomains e
    → (surge_reason e hs sums).triggered ≡ true
    → (0 < sums.0) × (0 < sums.1)
unfolding surge_reason
surge_reason-fires e hs sums d h =
    let bar = threshold "surge_multiplier" e * sums.1 in
    let k = three (is_some_hour hs) (ltb 0 sums.1) (leb bar (1000 * sums.0)) h in
    let b = ltb→lt 0 sums.1 k.0 in
    (
      reached (threshold "surge_multiplier" e) sums.1 sums.0
          (ratio-positive (threshold "surge_multiplier" e) d.0) b (leb→le bar (1000 * sums.0) k.1),
      b,
    )

peak_reason-fires :
    (e : Effective) (target : ℕ) (hs : List Hour) (peak : ℕ)
    → InDomains e
    → 0 < target
    → (peak_reason e target hs peak).triggered ≡ true
    → 0 < peak
unfolding peak_reason
peak_reason-fires e target hs peak d g h =
    let bar = threshold "peak_fraction" e * target in
    reached (threshold "peak_fraction" e) target peak
      (ratio-positive (threshold "peak_fraction" e) d.2) g
      (leb→le bar (1000 * peak) (two (is_some_hour hs) (leb bar (1000 * peak)) h))

-- What a surge's reason guarantees.
abbrev SurgeGrounded : Reason → Type 0
SurgeGrounded r = (r.triggered ≡ true → (0 < r.value) × (0 < r.baseline)) × IsWindow r.window_hours

abbrev PeakGrounded : Reason → Type 0
PeakGrounded r = (r.triggered ≡ true → 0 < r.value) × IsWindow r.window_hours

surge_reason-Grounded :
    (e : Effective) (hs : List Hour) (sums : ℕ × ℕ)
    → InDomains e
    → SurgeGrounded (surge_reason e hs sums)
unfolding surge_reason
surge_reason-Grounded e hs sums d =
    (surge_reason-fires e hs sums d, window_kind-IsWindow (threshold "surge_window_hours" e) d.1)

peak_reason-Grounded :
    (e : Effective) (target : ℕ) (hs : List Hour) (peak : ℕ)
    → InDomains e
    → 0 < target
    → PeakGrounded (peak_reason e target hs peak)
unfolding peak_reason
peak_reason-Grounded e target hs peak d g = (
  peak_reason-fires e target hs peak d g,
  window_kind-IsWindow (threshold "peak_window_hours" e) d.3,
)

surge_of-Grounded :
    (e : Effective) (now : ℕ) (m : HourMap)
    → InDomains e
    → Returned SurgeGrounded (surge_of e now m)
unfolding surge_of
surge_of-Grounded e now m d =
    Returned-after SurgeGrounded (window_from m now (threshold "surge_window_hours" e / 1000)) _
      λ hs. Returned-after SurgeGrounded (sum_arrivals hs) _ λ sums.
        Returned-if SurgeGrounded (leb sums.1 0) no_baseline (surge_reason e hs sums)
          (surge_reason-Grounded e hs sums d)

peak_signal-Grounded :
    (e : Effective) (target now : ℕ) (m : HourMap)
    → InDomains e
    → 0 < target
    → Returned PeakGrounded (peak_signal e target now m)
unfolding peak_signal
peak_signal-Grounded e target now m d g =
    Returned-after PeakGrounded (window_from m now (threshold "peak_window_hours" e / 1000)) _ λ hs.
      Returned-after PeakGrounded (max_load hs) _ λ peak. peak_reason-Grounded e target hs peak d g

valid_target-positive : (v : Value) → Returned (λ x. 0 < x) (valid_target v)
unfolding valid_target
valid_target-positive (number v) = elim (Bool-cases (leb v 0)) [
  | inl e ↦ rw e tt
  | inr e ↦ rw e (ground arith)
]
valid_target-positive (below_zero v) = tt
valid_target-positive not_finite = tt
valid_target-positive not_number = tt

signals_from-IsGrounded :
    (q : Query) (now target : ℕ) (e : Effective)
    → InDomains e
    → 0 < target
    → Returned IsGrounded (signals_from q now target e)
unfolding signals_from assessment
signals_from-IsGrounded q now target e d g =
    Returned-after IsGrounded (require_section "arrivals" q.forecast.arrivals) _ λ arrivals.
      Returned-after IsGrounded (require_section "load" q.forecast.load) _ λ load.
        Returned-after IsGrounded (hour_map "arrivals" arrivals) _ λ amap.
          Returned-after IsGrounded (hour_map "load" load) _ λ lmap.
            Returned->>= SurgeGrounded IsGrounded _ _ (surge_of-Grounded e now amap d) λ s hs.
              Returned->>= PeakGrounded IsGrounded _ _ (peak_signal-Grounded e target now lmap d g)
                λ p hp. (hs.0, hp.0, hs.1, hp.1)

-- No signal fires on nothing. Whatever the forecast, the target and the overrides are, an assessment
-- that is returned looked ahead at least one hour and at most a day for either signal; a surge in it
-- has arrivals above nought against a baseline above nought, and a grid peak has a load above nought.
pub forecast_signals-IsGrounded : (q : Query) → Returned IsGrounded (forecast_signals q)
unfolding forecast_signals
forecast_signals-IsGrounded q = Returned-after IsGrounded (valid_hour q.now_hour) _ λ now.
    Returned->>= (λ x. 0 < x) IsGrounded _ _ (valid_target-positive q.site_power_target_kw)
      λ target g.
        Returned->>= InDomains IsGrounded _ _ (apply_overrides-InDomains q.thresholds)
          λ e d. signals_from-IsGrounded q now target e d g
