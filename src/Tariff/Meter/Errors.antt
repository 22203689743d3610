-- ===== src/Tariff/Meter/Errors.antt =====
-- When the meter raises nothing (sites/tariff.py: `_interval_peaks`, `_peak_for`).
use otto_q_core.Base.{
  ℕ, ◌≤◌, String, ◌≡◌, sym, ◌∙◌, inl, inr, true, false, not, ◌&&◌, Option, none, some, List, [],
  ◌∷◌, arith, ltb, ◌==◌, str_eq, Bool-cases, if-true, Succeeds, Succeeds->>=,
}
use otto_q_core.Tariff.{TouWindow, DemandComponent, or_empty, is_none, Tariff, window}
use otto_q_core.Tariff.Meter.{
  end_of, sorted_points, interval_peaks, coincident_peak, window_peak, peak_by, peak_for, Load,
}
use otto_q_core.Tariff.Load.{has_window}

pub interval_peaks-Succeeds : (load : Load) (i : ℕ) → 1 ≤ i → Succeeds (interval_peaks load i)
unfolding interval_peaks
interval_peaks-Succeeds load i h = rw (positive (end_of (sorted_points load)) i h) tt
  where
    positive : (end i : ℕ) → 1 ≤ i → (ltb 0 end && i == 0) ≡ false
    positive end i h = ground arith

window_peak-Succeeds :
    (label : String) (w : Option TouWindow) (rs : List (ℕ × ℕ))
    → not (is_none w) ≡ true
    → Succeeds (window_peak label w rs)
unfolding window_peak is_none
window_peak-Succeeds label none rs h = ground arith
window_peak-Succeeds label (some w) rs h = tt

peak_by-Succeeds :
    (comp : DemandComponent) (t : Tariff) (minutes : List ℕ) (rs : List (ℕ × ℕ))
    → has_window t comp ≡ true
    → Succeeds (peak_by comp t (some minutes) rs)
unfolding peak_by has_window coincident_peak
peak_by-Succeeds comp t minutes [] h = tt
peak_by-Succeeds comp t minutes (r ∷ rs) h = elim (Bool-cases (str_eq comp.basis "CP")) [
  | inl e ↦ rw e tt
  | inr e ↦ elim (Bool-cases (str_eq comp.basis "TOU")) [
    | inl k ↦ rw e (
        rw k (
          window_peak-Succeeds comp.label (window t (or_empty comp.tou_window)) (r ∷ rs)
            (sym (if-true _ _ k) ∙ h)))
    | inr k ↦ rw e (rw k tt)
  ]
]

pub peak_for-Succeeds :
    (load : Load) (comp : DemandComponent) (t : Tariff) (minutes : List ℕ)
    → 1 ≤ comp.interval_min
    → has_window t comp ≡ true
    → Succeeds (peak_for load comp t (some minutes))
unfolding peak_for
peak_for-Succeeds load comp t minutes h k =
    Succeeds->>= _ _ (interval_peaks-Succeeds load comp.interval_min h)
      λ rs. peak_by-Succeeds comp t minutes rs k
