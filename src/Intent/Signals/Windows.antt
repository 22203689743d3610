-- ===== src/Intent/Signals/Windows.antt =====
-- The checks of a forecast and the windows that the signals look ahead (intent/signals.py:
-- `_require`, `_hour_map`, `_window`).
use otto_q_core.Intent.Signals.Thresholds.{
  Value, Assessed, number, below_zero, not_finite, not_number, missing_section, missing_hours,
  malformed_hour, not_covered, missing_field, bad_number,
}
use otto_q_core.Base.{
  ℕ, zero, suc, ◌+◌, ◌%◌, max, String, Option, none, some, List, [], ◌∷◌, ◌==◌, if◌then◌else◌,
  ◌>>=◌, raises, returns,
}

-- One hour of a section; a field that is absent is none.
pub record Hour : Type 0 where
  pub hour_of_day : ℕ
  pub expected_arrivals : Option Value
  pub baseline_arrivals : Option Value
  pub total_kw_p90 : Option Value

-- A section: missing or no object, or an object with its `hours`, which may be no list. An entry
-- without an hour is none.
pub data Section : Type 0 where
  no_section : Section
  section : Option (List (Option Hour)) → Section

pub record Forecast : Type 0 where
  pub arrivals : Section
  pub load : Section

-- `_require`
unfoldable pub require_section : String → Section → Assessed (Option (List (Option Hour)))
require_section key no_section = raises (missing_section key)
require_section key (section hours) = returns hours

-- `_number`
unfoldable pub number_of : String → Value → Assessed ℕ
number_of field (number v) = returns v
number_of field (below_zero v) = raises (bad_number field)
number_of field not_finite = raises (bad_number field)
number_of field not_number = raises (bad_number field)

-- The hours by their hour of day.
abbrev pub HourMap : Type 0
HourMap = List (ℕ × Hour)

unfoldable pub lookup_hour : ℕ → HourMap → Option Hour
lookup_hour k [] = none
lookup_hour k (e ∷ m) = if k == e.0 then some e.1 else lookup_hour k m

-- `out.setdefault(k, h)`
unfoldable pub set_hour : ℕ → Hour → HourMap → HourMap
set_hour k h [] = (k, h) ∷ []
set_hour k h (e ∷ m) = if k == e.0 then e ∷ m else e ∷ set_hour k h m

-- The loop of `_hour_map`.
unfoldable pub hours_from : String → List (Option Hour) → HourMap → Assessed HourMap
hours_from key [] out = returns out
hours_from key (none ∷ hs) out = raises (malformed_hour key)
hours_from key (some h ∷ hs) out = hours_from key hs (set_hour h.hour_of_day h out)

-- `_hour_map`
unfoldable pub hour_map : String → Option (List (Option Hour)) → Assessed HourMap
hour_map key none = raises (missing_hours key)
hour_map key (some []) = raises (missing_hours key)
hour_map key (some (h ∷ hs)) = hours_from key (h ∷ hs) []

unfoldable pub covered : ℕ → Option Hour → Assessed Hour
covered hod none = raises (not_covered hod)
covered hod (some h) = returns h

-- The loop of `_window` over the hours left, from an hour on.
unfoldable pub window_from : HourMap → ℕ → ℕ → Assessed (List Hour)
window_from m hour zero = returns []
window_from m hour (suc n) = covered (hour % 24) (lookup_hour (hour % 24) m) >>= λ h.
    window_from m (hour + 1) n >>= λ hs. returns (h ∷ hs)

-- A field that must be there, as a number.
unfoldable pub field_of : String → Option Value → Assessed ℕ
field_of field none = raises (missing_field field)
field_of field (some v) = number_of field v

-- A field that must be there.
unfoldable pub present : String → Option Value → Assessed Value
present field none = raises (missing_field field)
present field (some v) = returns v

-- One hour's arrivals and baseline, before those of the rest.
unfoldable pub add_arrivals : Option Value → Option Value → Assessed (ℕ × ℕ) → Assessed (ℕ × ℕ)
add_arrivals expected_arrivals baseline_arrivals rest =
    present "expected_arrivals" expected_arrivals >>= λ e.
    present "baseline_arrivals" baseline_arrivals >>= λ b. number_of "expected_arrivals" e >>= λ x.
    number_of "baseline_arrivals" b >>= λ y. rest >>= λ r. returns (x + r.0, y + r.1)

-- The loop over the arrivals of the window: the sums of `_vals` and `_base`.
unfoldable pub sum_arrivals : List Hour → Assessed (ℕ × ℕ)
sum_arrivals [] = returns (0, 0)
sum_arrivals (h ∷ hs) = add_arrivals h.expected_arrivals h.baseline_arrivals (sum_arrivals hs)

-- The loop over the loads of the window: the highest of `_p90`.
unfoldable pub max_load : List Hour → Assessed ℕ
max_load [] = returns 0
max_load (h ∷ hs) =
    field_of "total_kw_p90" h.total_kw_p90 >>= λ x. max_load hs >>= λ r. returns (max x r)
