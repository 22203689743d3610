-- ===== src/Proposer/Measure/Optima.antt =====
-- When the check of the optima finds nothing to report.
use otto_q_core.Base.{ℕ, ◌≡◌, refl, Bool, false, ◌||◌, Option, none, some, [], ◌∷◌, arith}
use otto_q_core.Intent.Solve.{Mode, weighted, min_tardy, min_peak, min_flow, mode_eq}
use otto_q_core.Proposer.Measure.{Optima, Within, Measured, optimum_of, check_optima}

-- A ceiling for each mode.
abbrev pub Ceilings : Type 0
Ceilings = Mode → Option ℕ

abbrev pub has_key : Mode → Optima → Bool
has_key m [] = false
has_key m ((n, v) ∷ rest) = mode_eq m n || has_key m rest

-- An entry with a value is the ceiling of its mode.
abbrev pub EntryOf : Option ℕ → Option ℕ → Type 0
EntryOf c none = Unit
EntryOf c (some v) = c ≡ some v

-- The optima record ceilings, each mode once.
abbrev pub Linked : Ceilings → Optima → Type 0
Linked c [] = Unit
Linked c ((m, v) ∷ rest) = EntryOf (c m) v × (has_key m rest ≡ false) × Linked c rest

abbrev pub Under : Measured → Ceilings → Type 0
Under m c =
    Within m.total_tardy_min (c min_tardy)
    × Within m.site_peak_kw (c min_peak)
    × Within m.total_flow_min (c min_flow)

-- Figures under the ceilings that the optima record pass the check.
pub Linked-check :
    (m : Measured) (c : Ceilings) (o : Optima) → Under m c → Linked c o → check_optima m o ≡ none
unfolding check_optima optimum_of
Linked-check m c [] u l = refl
Linked-check m c ((mode, none) ∷ rest) u l = Linked-check m c rest u l.2
Linked-check m c ((weighted, some v) ∷ rest) u l = Linked-check m c rest u l.2
Linked-check m c ((min_tardy, some v) ∷ rest) u l = ground (arith, Linked-check m c rest u l.2)
Linked-check m c ((min_peak, some v) ∷ rest) u l = ground (arith, Linked-check m c rest u l.2)
Linked-check m c ((min_flow, some v) ∷ rest) u l = ground (arith, Linked-check m c rest u l.2)
