-- ===== src/Tariff/Rates.antt =====
-- Which energy rate counts (sites/tariff.py: `_energy_rate`).
use otto_q_core.Base.{
  ℕ, String, ◌≡◌, refl, inl, inr, Option, none, some, List, [], ◌∷◌, Bool-cases, find,
}
use otto_q_core.Tariff.{
  or_rate, EnergyRate, Tariff, is_exact, is_general, energy_rate_from, energy_rate,
}

-- The rate found, or else another.
abbrev pub rate_or : Option EnergyRate → Option ℕ → Option ℕ
rate_or none o = o
rate_or (some e) o = some e.rate_per_kwh

energy_rate_from-some :
    (season name : String) (es : List EnergyRate) (r : ℕ)
    → energy_rate_from season name es (some r) ≡ rate_or (find (is_exact season name) es) (some r)
unfolding energy_rate_from or_rate
energy_rate_from-some season name [] r = refl
energy_rate_from-some season name (e ∷ es) r = elim (Bool-cases (is_exact season name e)) [
  | inl h ↦ rw h refl
  | inr h ↦ elim (Bool-cases (is_general season e)) [
    | inl k ↦ rw h (rw k (energy_rate_from-some season name es r))
    | inr k ↦ rw h (rw k (energy_rate_from-some season name es r))
  ]
]

energy_rate_from-none :
    (season name : String) (es : List EnergyRate)
    → energy_rate_from season name es none
      ≡ rate_or (find (is_exact season name) es) (rate_or (find (is_general season) es) none)
unfolding energy_rate_from or_rate
energy_rate_from-none season name [] = refl
energy_rate_from-none season name (e ∷ es) = elim (Bool-cases (is_exact season name e)) [
  | inl h ↦ rw h refl
  | inr h ↦ elim (Bool-cases (is_general season e)) [
    | inl k ↦ rw h (rw k (energy_rate_from-some season name es e.rate_per_kwh))
    | inr k ↦ rw h (rw k (energy_rate_from-none season name es))
  ]
]

-- The rate of a window in a season is the first rate that applies in the season and names the
-- window, wherever it stands; where there is none, the first one that applies in the season to all
-- windows; and there is no rate exactly where both are missing.
pub energy_rate-first :
    (t : Tariff) (season name : String)
    → energy_rate t season name
      ≡ rate_or
          (find (is_exact season name) t.energy)
          (rate_or (find (is_general season) t.energy) none)
unfolding energy_rate
energy_rate-first t season name = energy_rate_from-none season name t.energy
