-- ===== src/Tariff/Bill/Errors.antt =====
-- When billing raises nothing (sites/tariff.py: `Tariff.bill` on what `load_tariff` returns).
use otto_q_core.Tariff.Meter.Errors.{interval_peaks-Succeeds, peak_for-Succeeds}
use otto_q_core.Base.{
  ℕ, ◌≤◌, String, ◌≡◌, refl, ap, ◌∙◌, inl, inr, true, Option, none, some, List, [], ◌∷◌, arith,
  Bool-cases, any, find, All, find-any, Dict, Succeeds, Succeeds->>=, Succeeds-if, returns,
}
use otto_q_core.Tariff.{
  Billing, DemandComponent, EnergyRate, HoursUseBlocks, season_of, season_applies, is_exact,
  is_general, energy_rate, Tariff,
}
use otto_q_core.Tariff.Meter.{Load}
use otto_q_core.Tariff.Rates.{rate_or, energy_rate-first}
use otto_q_core.Tariff.Load.Laws.{HasWindows, load_tariff-IsChecked}
use otto_q_core.Tariff.Load.{TariffDoc, load_tariff}
use otto_q_core.Tariff.Bill.{
  bill_by, Line, bill_window, Period, bill_energy, Demand, bill_demand, hours_use_interval,
  bill_hours_use, no_demand, demand_part, bill_apart, bill,
}

-- Every component is read over at least a minute.
abbrev pub HasIntervals : List DemandComponent → Type 0
HasIntervals = All λ c. 1 ≤ c.interval_min

-- Some rate applies in the season to all windows.
abbrev pub HasRate : Tariff → String → Type 0
HasRate t season = any (is_general season) t.energy ≡ true

rate_or-some : (o : Option EnergyRate) (r : ℕ) → (q : ℕ) × (rate_or o (some r) ≡ some q)
rate_or-some none r = (r, refl)
rate_or-some (some e) r = (e.rate_per_kwh, refl)

anything : (es : List EnergyRate) → All (λ e. Unit {0}) es
anything [] = tt
anything (e ∷ es) = (tt, anything es)

-- A rate for all windows leaves no window without a rate.
energy_rate-some :
    (t : Tariff) (season name : String)
    → HasRate t season
    → (q : ℕ) × (energy_rate t season name ≡ some q)
energy_rate-some t season name h =
    let e = find-any (λ e. Unit {0}) (is_general season) t.energy (anything t.energy) h in
    let q = rate_or-some (find (is_exact season name) t.energy) e.0.rate_per_kwh in
    (
      q.0,
      energy_rate-first t season name
          ∙ ap (λ o. rate_or (find (is_exact season name) t.energy) (rate_or o none)) e.1
          ∙ q.1,
    )

bill_window-Succeeds :
    (season name : String) (kwh : ℕ) (o : Option ℕ) (rest : Billing (ℕ × List Line))
    → (q : ℕ) × (o ≡ some q)
    → Succeeds rest
    → Succeeds (bill_window season name kwh o rest)
unfolding bill_window
bill_window-Succeeds season name kwh none rest q h = ground (arith, q.1)
bill_window-Succeeds season name kwh (some r) rest q h = Succeeds->>= _ _ h λ x. tt

bill_energy-Succeeds :
    (t : Tariff) (season : String) (es : Dict ℕ)
    → HasRate t season
    → Succeeds (bill_energy t season es)
unfolding bill_energy
bill_energy-Succeeds t season [] h = tt
bill_energy-Succeeds t season (e ∷ es) h =
    bill_window-Succeeds season e.0 e.1 _ _ (energy_rate-some t season e.0 h)
      (bill_energy-Succeeds t season es h)

bill_demand-Succeeds :
    (t : Tariff) (load : Load) (period : Period) (season : String) (minutes : List ℕ)
    (comps : List DemandComponent) (so_far : Demand)
    → HasIntervals comps
    → HasWindows t comps
    → period.coincident_minutes ≡ some minutes
    → Succeeds (bill_demand t load period season comps so_far)
unfolding bill_demand
bill_demand-Succeeds t load period season minutes [] so_far h k m = tt
bill_demand-Succeeds t load period season minutes (c ∷ cs) so_far h k m =
    elim (Bool-cases (season_applies c.season season)) [
      | inl e ↦ rw e (
          rw m (
            Succeeds->>= _ _ (peak_for-Succeeds load c t minutes h.0 k.0)
              λ x. bill_demand-Succeeds t load period season minutes cs _ h.1 k.1 m))
      | inr e ↦ rw e (bill_demand-Succeeds t load period season minutes cs so_far h.1 k.1 m)
    ]

demand_part-Succeeds :
    (t : Tariff) (load : Load) (period : Period) (minutes : List ℕ)
    → HasIntervals t.demand
    → HasWindows t t.demand
    → period.coincident_minutes ≡ some minutes
    → Succeeds (demand_part t load period)
unfolding demand_part
demand_part-Succeeds t load period minutes h k m =
    Succeeds-if t.demand_charge_free _ _ tt (
      bill_demand-Succeeds t load period (season_of t period.month) minutes t.demand no_demand h k
        m)

hours_use_interval-positive :
    (cs : List DemandComponent) → HasIntervals cs → 1 ≤ hours_use_interval cs
unfolding hours_use_interval
hours_use_interval-positive [] h = omega arith
hours_use_interval-positive (c ∷ cs) h = h.0

bill_by-Succeeds :
    (t : Tariff) (load : Load) (period : Period) (minutes : List ℕ) (o : Option HoursUseBlocks)
    → HasIntervals t.demand
    → HasWindows t t.demand
    → HasRate t (season_of t period.month)
    → period.coincident_minutes ≡ some minutes
    → Succeeds (bill_by o t load period)
unfolding bill_by bill_apart bill_hours_use
bill_by-Succeeds t load period minutes none h k r m =
    Succeeds->>= _ _ (bill_energy-Succeeds t _ _ r)
      λ e. Succeeds->>= _ _ (demand_part-Succeeds t load period minutes h k m) λ d. tt
bill_by-Succeeds t load period minutes (some hub) h k r m =
    Succeeds->>= _ _
      (interval_peaks-Succeeds load (hours_use_interval t.demand) (hours_use_interval-positive _ h))
      λ rs. tt

-- What loads can be billed: a tariff that `load_tariff` returned, whose components are read over at
-- least a minute, and which has a rate for all windows in the season billed, bills every load curve
-- without an error once the coincident minutes are supplied. In particular the undefined window that
-- billing raises for is never met, since loading refused it.
pub bill-Succeeds :
    (doc : TariffDoc) (t : Tariff) (load : Load) (period : Period) (minutes : List ℕ)
    → load_tariff doc ≡ returns t
    → HasIntervals t.demand
    → HasRate t (season_of t period.month)
    → period.coincident_minutes ≡ some minutes
    → Succeeds (bill t load period)
unfolding bill
bill-Succeeds doc t load period minutes l h r m =
    bill_by-Succeeds t load period minutes t.hours_use_blocks h (load_tariff-IsChecked doc t l).1 r
      m
