-- ===== src/Intent/Signals/Hours.antt =====
-- The hours of a section and of a window (intent/signals.py: `_hour_map`, `_window`).

use otto_q_core.Base.{
  ℕ, zero, suc, ◌+◌, ◌%◌, ◌<◌, String, ◌≡◌, refl, ap, ◌∙◌, inl, inr, Bool, true, false, Option,
  none, some, List, [], ◌∷◌, map, arith, ◌==◌, if◌then◌else◌, Option-cases, length, any, find, All,
  find-any, ◌>>=◌, returns,
}
use otto_q_core.Intent.Signals.Windows.{
  hours_from, window_from, Hour, HourMap, lookup_hour, set_hour, covered,
}
use otto_q_core.Intent.Signals.Thresholds.{Assessed, Value, number}

-- A field that is a number.
abbrev pub IsNumber : Option Value → Type 0
IsNumber o = (x : ℕ) × (o ≡ some (number x))

-- An hour with its arrivals, against a baseline above nought.
abbrev pub IsArrivals : Hour → Type 0
IsArrivals h =
    IsNumber h.expected_arrivals × ((y : ℕ) × (h.baseline_arrivals ≡ some (number y)) × (0 < y))

-- An hour with its load.
abbrev pub IsLoad : Hour → Type 0
IsLoad h = IsNumber h.total_kw_p90

-- The first hour, or else the second.
abbrev or_hour : Option Hour → Option Hour → Option Hour
or_hour none o = o
or_hour (some h) o = some h

-- The hour of day is this one.
abbrev pub at : ℕ → Hour → Bool
at k h = k == h.hour_of_day

lookup_hour-set_hour :
    (j k : ℕ) (h : Hour) (m : HourMap)
    → lookup_hour j (set_hour k h m) ≡ or_hour (lookup_hour j m) (if j == k then some h else none)
unfolding lookup_hour set_hour
lookup_hour-set_hour j k h [] = refl
lookup_hour-set_hour j k h (e ∷ m) = ground (arith, lookup_hour-set_hour j k h m)

-- The map that the loop builds.
abbrev pub hours_into : List Hour → HourMap → HourMap
hours_into [] m = m
hours_into (h ∷ hs) m = hours_into hs (set_hour h.hour_of_day h m)

pub hours_from-into :
    (key : String) (hs : List Hour) (m : HourMap)
    → hours_from key (map some hs) m ≡ returns (hours_into hs m)
unfolding hours_from
hours_from-into key [] m = refl
hours_from-into key (h ∷ hs) m = hours_from-into key hs (set_hour h.hour_of_day h m)

or_hour-step :
    (o : Option Hour) (b : Bool) (h : Hour) (r : Option Hour)
    → or_hour (or_hour o (if b then some h else none)) r ≡ or_hour o (if b then some h else r)
or_hour-step none true h r = refl
or_hour-step none false h r = refl
or_hour-step (some g) b h r = refl

-- The first entry of an hour counts.
lookup_hour-into :
    (j : ℕ) (hs : List Hour) (m : HourMap)
    → lookup_hour j (hours_into hs m) ≡ or_hour (lookup_hour j m) (find (at j) hs)
lookup_hour-into j [] m = elim (Option-cases (lookup_hour j m)) [
  | inl e ↦ rw e refl
  | inr e ↦ rw e.1 refl
]
lookup_hour-into j (h ∷ hs) m =
    lookup_hour-into j hs (set_hour h.hour_of_day h m)
    ∙ ap (λ o. or_hour o (find (at j) hs)) (lookup_hour-set_hour j h.hour_of_day h m)
    ∙ or_hour-step (lookup_hour j m) (at j h) h (find (at j) hs)

-- Every hour of the day has an entry.
abbrev pub Covers : List Hour → Type 0
Covers hs = (k : ℕ) → k < 24 → any (at k) hs ≡ true

-- The hours of a window, each keeping the contract.
abbrev pub Windowed : (Hour → Type 0) → ℕ → Assessed (List Hour) → Type 0
Windowed P n m = (hs : List Hour) × (m ≡ returns hs) × All P hs × (length hs ≡ n)

pub window_from-Windowed :
    (P : Hour → Type 0) (hs : List Hour) (now n : ℕ)
    → All P hs
    → Covers hs
    → Windowed P n (window_from (hours_into hs []) now n)
unfolding window_from covered lookup_hour
window_from-Windowed P hs now zero g c = ([], refl, tt, refl)
window_from-Windowed P hs now (suc n) g c =
    let k = now % 24 in
    let found = find-any P (at k) hs g (c k (omega arith)) in
    let rest = window_from-Windowed P hs (now + 1) n g c in
    (
      found.0 ∷ rest.0,
      ap
            (λ o. covered k o >>= λ h.
              window_from (hours_into hs []) (now + 1) n >>= λ r. returns (h ∷ r))
            (lookup_hour-into k hs [] ∙ found.1)
          ∙ ap (λ m. m >>= λ r. returns (found.0 ∷ r)) rest.1,
      (found.2, rest.2),
      ap suc rest.3,
    )
