-- ===== src/Tariff/Energy/Conserves.antt =====
-- The windows share out the energy of the curve (sites/tariff.py: `_energy_by_window`).
use otto_q_core.Base.{
  ℕ, zero, suc, ◌+◌, ◌-◌, ◌*◌, String, ◌≡◌, List, [], ◌∷◌, arith, Dict, lookup, insert,
}
use otto_q_core.Tariff.{TouWindow, Tariff}
use otto_q_core.Tariff.Meter.{Step, steps_of, sorted_points, Load}
use otto_q_core.Tariff.Energy.{
  sum_kwh, window_name, energy_of, add_energy, add_minutes, add_steps, energy_by_window,
}

-- The energy under the curve: each step's power over its length.
abbrev pub curve_energy : List Step → ℕ
curve_energy [] = 0
curve_energy (s ∷ ss) = s.kw * (s.till - s.from) + curve_energy ss

sum_kwh-insert :
    (k : String) (v : ℕ) (d : Dict ℕ)
    → sum_kwh (insert k (energy_of (lookup k d) + v) d) ≡ sum_kwh d + v
unfolding energy_of sum_kwh
sum_kwh-insert k v [] = omega arith
sum_kwh-insert k v ((j, w) ∷ d) = ground (arith, sum_kwh-insert k v d)

sum_kwh-add : (k : String) (v : ℕ) (d : Dict ℕ) → sum_kwh (add_energy k v d) ≡ sum_kwh d + v
unfolding add_energy
sum_kwh-add k v d = sum_kwh-insert k v d

add_minutes-sum :
    (ws : List TouWindow) (n m kw : ℕ) (out : Dict ℕ)
    → sum_kwh (add_minutes ws n m kw out) ≡ sum_kwh out + kw * n
unfolding add_minutes
add_minutes-sum ws zero m kw out = omega arith
add_minutes-sum ws (suc n) m kw out = omega (
  arith,
  add_minutes-sum ws n (m + 1) kw (add_energy (window_name ws m) kw out),
  sum_kwh-add (window_name ws m) kw out,
)

add_steps-sum :
    (ws : List TouWindow) (ss : List Step) (out : Dict ℕ)
    → sum_kwh (add_steps ws ss out) ≡ sum_kwh out + curve_energy ss
unfolding add_steps
add_steps-sum ws [] out = omega arith
add_steps-sum ws (s ∷ ss) out = omega (
  arith,
  add_steps-sum ws ss (add_minutes ws (s.till - s.from) s.from s.kw out),
  add_minutes-sum ws (s.till - s.from) s.from s.kw out,
)

-- Whatever the windows are, also where they overlap or leave gaps, the energies of the windows sum to
-- the energy under the curve: no minute is priced twice or left out.
pub energy_by_window-conserves :
    (load : Load) (t : Tariff)
    → sum_kwh (energy_by_window load t) ≡ curve_energy (steps_of (sorted_points load))
unfolding energy_by_window sum_kwh
energy_by_window-conserves load t =
    omega (arith, add_steps-sum t.tou_windows (steps_of (sorted_points load)) [])
