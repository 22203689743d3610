-- ===== src/Tests/Fronts.antt =====
-- Three policies, of which one is later and more costly than another (policies/cost.py: `_pareto`).
use otto_q_core.Base.{
  ℕ, String, ◌≡◌, refl, List, [], ◌∷◌, str_eq, if◌then◌else◌, Dict, keys, raises, returns,
}
use otto_q_core.Pareto.{pareto, keep_undominated, is_dominated, beats, item}
use otto_q_core.Pareto.Front.{IsFrontier, pareto-IsFrontier}

abbrev minutes : Dict ℕ
minutes = ("otto", 10) ∷ ("fifo", 40) ∷ ("edf", 50) ∷ []

abbrev bills : Dict ℕ
bills = ("fifo", 90_000) ∷ ("edf", 95_000) ∷ ("otto", 99_000) ∷ []

abbrev minutes_of : String → ℕ
minutes_of k = if str_eq k "otto" then 10 else if str_eq k "fifo" then 40 else 50

abbrev bill_of : String → ℕ
bill_of k = if str_eq k "fifo" then 90_000 else if str_eq k "edf" then 95_000 else 99_000

frontier : pareto minutes bills ≡ returns ("fifo" ∷ "otto" ∷ [])
unfolding pareto keep_undominated is_dominated beats item
frontier = refl

-- A policy without a cost is an error as soon as its cost is compared.
no_bill : pareto minutes (("fifo", 90_000) ∷ []) ≡ raises "edf"
unfolding pareto keep_undominated is_dominated beats item
no_bill = refl

pareto-IsFrontier_example :
    (front : List String) × (pareto minutes bills ≡ returns front)
    × IsFrontier minutes_of bill_of (keys minutes) front
pareto-IsFrontier_example =
    pareto-IsFrontier minutes_of bill_of minutes bills (refl, (refl, (refl, tt)))
      (refl, (refl, (refl, tt)))
