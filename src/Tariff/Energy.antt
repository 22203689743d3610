-- ===== src/Tariff/Energy.antt =====
-- Energy split by time-of-use window (sites/tariff.py: `_energy_by_window`).
pub mod Conserves
use otto_q_core.Base.{
  ℕ, zero, suc, ◌+◌, ◌-◌, String, Option, none, some, List, [], ◌∷◌, if◌then◌else◌, Dict, lookup,
  insert,
}
use otto_q_core.Tariff.{TouWindow, Tariff, contains}
use otto_q_core.Tariff.Meter.{Step, steps_of, sorted_points, Load}

-- The first window that contains the minute, else `all`.
pub window_name : List TouWindow → ℕ → String
window_name [] m = "all"
window_name (w ∷ ws) m = if contains w m then w.name else window_name ws m

-- `out.get(name, 0.0)`
pub energy_of : Option ℕ → ℕ
energy_of none = 0
energy_of (some e) = e

pub add_energy : String → ℕ → Dict ℕ → Dict ℕ
add_energy name e out = insert name (energy_of (lookup name out) + e) out

-- The loop over the minutes of a step, with as many passes as it has minutes.
pub add_minutes : List TouWindow → ℕ → ℕ → ℕ → Dict ℕ → Dict ℕ
add_minutes ws zero m kw out = out
add_minutes ws (suc n) m kw out = add_minutes ws n (m + 1) kw (add_energy (window_name ws m) kw out)

pub add_steps : List TouWindow → List Step → Dict ℕ → Dict ℕ
add_steps ws [] out = out
add_steps ws (s ∷ ss) out = add_steps ws ss (add_minutes ws (s.till - s.from) s.from s.kw out)

-- `_energy_by_window`
pub energy_by_window : Load → Tariff → Dict ℕ
energy_by_window load t = add_steps t.tou_windows (steps_of (sorted_points load)) []

-- `sum(_energy_by_window(...).values())`
pub sum_kwh : Dict ℕ → ℕ
sum_kwh [] = 0
sum_kwh (e ∷ es) = e.1 + sum_kwh es
