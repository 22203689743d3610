-- ===== src/Tariff/Load/Laws.antt =====
-- What loading a tariff guarantees (sites/tariff.py: `load_tariff`).
use otto_q_core.Base.{
  ℕ, String, ◌≡◌, refl, subst, ◌≢◌, ◌⊎◌, inl, inr, Bool, true, false, not, ◌&&◌, Option, none, some,
  List, [], ◌∷◌, map, arith, eq_iff, str_eq, Bool-cases, Option-cases, any, find, All, elem,
  Returned, Returned->>=, Returned-map, returns,
}
use otto_q_core.Tariff.{
  or_empty, Tier, TouWindow, is_none, Tariff, TariffError, DemandComponent, window,
}
use otto_q_core.Tariff.Load.{
  TariffDoc, load_tier, tariff_of, is_empty, add_row, checked_tariff, load_tariff, raw_tiers,
  tiers_from, names_window, load_interval, load_component, load_demand, has_window, check_windows,
  TierDoc, or_default, checked_tiers, tiers_of, DemandDoc, has_inner_unbounded, load_rest, seasons,
  bases, periods, require, component,
}

-- A component that the checks let through.
abbrev pub IsBillable : DemandComponent → Type 0
IsBillable c =
    (elem c.basis bases ≡ true)
    × (elem c.season seasons ≡ true)
    × (elem c.period periods ≡ true)
    × (has_inner_unbounded c.tiers ≡ false)
    × (names_window c.basis c.tou_window ≡ true)

require-Returned : (b : Bool) (e : TariffError) → Returned (λ u. b ≡ true) (require b e)
require-Returned true e = refl
require-Returned false e = tt

checked_tiers-Returned :
    (label : String) (raw : List TierDoc)
    → Returned (λ ts. has_inner_unbounded ts ≡ false) (checked_tiers label raw)
unfolding checked_tiers
checked_tiers-Returned label raw =
    let ts = map load_tier raw in
    elim (Bool-cases (has_inner_unbounded ts)) [ inl e ↦ rw e tt | inr e ↦ rw e e ]

tiers_from-Returned :
    (label : String) (o : Option (List TierDoc))
    → Returned (λ ts. has_inner_unbounded ts ≡ false) (tiers_from label o)
unfolding tiers_from
tiers_from-Returned label none = tt
tiers_from-Returned label (some raw) = checked_tiers-Returned label raw

Passes : Bool → Unit {0} → Type 0
Passes b u = b ≡ true

load_rest-IsBillable :
    (d : DemandDoc) (label : String) (i : ℕ) → Returned IsBillable (load_rest d label i)
unfolding load_rest component tiers_of Passes
load_rest-IsBillable d label i =
    let basis = elem (or_default "NCP" d.basis) bases in
    let season = elem (or_default "all" d.season) seasons in
    let period = elem (or_default "month" d.period) periods in
    let named = names_window (or_default "NCP" d.basis) d.tou_window in
    Returned->>= (Passes basis) IsBillable _ _ (require-Returned basis _) λ u a.
      Returned->>= (Passes season) IsBillable _ _ (require-Returned season _) λ u b.
        Returned->>= (Passes period) IsBillable _ _ (require-Returned period _) λ u c.
          Returned->>= (Passes named) IsBillable _ _ (require-Returned named _) λ u e.
            Returned->>= (λ ts. has_inner_unbounded ts ≡ false) IsBillable _ _
              (tiers_from-Returned label (raw_tiers d)) λ ts f. (a, b, c, f, e)

load_interval-IsBillable :
    (d : DemandDoc) (label : String) (o : Option ℕ) → Returned IsBillable (load_interval d label o)
unfolding load_interval
load_interval-IsBillable d label none = tt
load_interval-IsBillable d label (some i) = load_rest-IsBillable d label i

load_demand-IsBillable : (ds : List DemandDoc) → Returned (All IsBillable) (load_demand ds)
unfolding load_demand load_component
load_demand-IsBillable [] = tt
load_demand-IsBillable (d ∷ ds) =
    Returned->>= IsBillable (All IsBillable) _ _
      (load_interval-IsBillable d (or_default "?" d.label) d.interval_min)
      λ c h.
        Returned->>= (All IsBillable) (All IsBillable) _ _ (load_demand-IsBillable ds)
          λ cs hs. (h, hs)

-- Every component on a window has its window.
abbrev pub HasWindows : Tariff → List DemandComponent → Type 0
HasWindows t = All λ c. has_window t c ≡ true

check_windows-Returned :
    (t : Tariff) (cs : List DemandComponent) → Returned (λ u. HasWindows t cs) (check_windows t cs)
unfolding check_windows Passes
check_windows-Returned t [] = tt
check_windows-Returned t (c ∷ cs) =
    Returned->>= (Passes (has_window t c)) _ _ _ (require-Returned (has_window t c) _) λ u h.
      Returned-map (λ u. HasWindows t cs) (λ u. HasWindows t (c ∷ cs)) _ (λ u hs. (h, hs))
        (check_windows-Returned t cs)

-- What the checks of the loader leave.
abbrev pub IsChecked : Tariff → Type 0
IsChecked t = All IsBillable t.demand × HasWindows t t.demand × (is_empty t.energy ≡ false)

add_row-IsChecked :
    (t : Tariff)
    → All IsBillable t.demand
    → HasWindows t t.demand
    → not (is_empty t.energy && is_none t.hours_use_blocks) ≡ true
    → IsChecked (add_row (not (is_none t.hours_use_blocks) && is_empty t.energy) t)
unfolding add_row is_empty has_window window
add_row-IsChecked t a b h =
    elim (Bool-cases (not (is_none t.hours_use_blocks) && is_empty t.energy)) [
      | inl e ↦ rw e (a, b, refl)
      | inr e ↦ rw e (a, b, ground arith)
    ]

checked_tariff-IsChecked :
    (t : Tariff) → All IsBillable t.demand → Returned IsChecked (checked_tariff t)
unfolding checked_tariff Passes
checked_tariff-IsChecked t a =
    let some_energy = not (is_empty t.energy && is_none t.hours_use_blocks) in
    Returned->>= (λ u. HasWindows t t.demand) IsChecked _ _ (check_windows-Returned t t.demand)
      λ u b.
        Returned->>= (Passes some_energy) IsChecked _ _ (require-Returned some_energy _)
          λ u c. add_row-IsChecked t a b c

pub load_tariff-IsChecked :
    (doc : TariffDoc) (t : Tariff) → load_tariff doc ≡ returns t → IsChecked t
unfolding load_tariff tariff_of
load_tariff-IsChecked doc t h = subst (Returned IsChecked) h (
    Returned->>= (All IsBillable) IsChecked _ _ (load_demand-IsBillable doc.demand)
      λ cs a. checked_tariff-IsChecked (tariff_of doc cs) a)

-- The tiers but the last.
abbrev pub inner : List Tier → List Tier
inner [] = []
inner (t ∷ []) = []
inner (t ∷ u ∷ ts) = t ∷ inner (u ∷ ts)

inner-bounded :
    (ts : List Tier) → has_inner_unbounded ts ≡ false → All (λ t. Tier.up_to_kw t ≢ none) (inner ts)
unfolding has_inner_unbounded is_none
inner-bounded [] h = tt
inner-bounded (t ∷ []) h = tt
inner-bounded (t ∷ u ∷ ts) h =
    (bounded t.up_to_kw (ground arith), inner-bounded (u ∷ ts) (ground arith))
  where
    bounded : (o : Option ℕ) → is_none o ≡ false → o ≢ none
    bounded none e = absurd (ground arith)
    bounded (some n) e = λ q. absurd (ground arith)

-- A component that is measured in a time-of-use window names one that the tariff has.
abbrev pub Measurable : Tariff → DemandComponent → Type 0
Measurable t c =
    (c.basis ≢ "TOU")
    ⊎ ((name : String) × (c.tou_window ≡ some name)
        × (any (λ w. str_eq (TouWindow.name w) name) t.tou_windows ≡ true))

-- What loading promises of a component and of a tariff.
abbrev pub IsSound : Tariff → DemandComponent → Type 0
IsSound t c =
    (elem c.basis ("NCP" ∷ "CP" ∷ "TOU" ∷ []) ≡ true)
    × (elem c.season ("all" ∷ "summer" ∷ "winter" ∷ "transition" ∷ "summer_peak" ∷ []) ≡ true)
    × (elem c.period ("month" ∷ "day" ∷ []) ≡ true)
    × All (λ tier. Tier.up_to_kw tier ≢ none) (inner c.tiers)
    × Measurable t c

abbrev pub IsLoaded : Tariff → Type 0
IsLoaded t = All (IsSound t) t.demand × (t.energy ≢ [])

find-named :
    (name : String) (ws : List TouWindow)
    → is_none (find (λ w. str_eq (TouWindow.name w) name) ws) ≡ false
    → any (λ w. str_eq (TouWindow.name w) name) ws ≡ true
unfolding is_none
find-named name [] h = ground arith
find-named name (w ∷ ws) h = elim (Bool-cases (str_eq w.name name)) [
  | inl e ↦ ground arith
  | inr e ↦ ground (arith, find-named name ws (rw e at h))
]

measurable :
    (t : Tariff) (c : DemandComponent)
    → names_window c.basis c.tou_window ≡ true
    → has_window t c ≡ true
    → Measurable t c
unfolding names_window has_window window or_empty
measurable t c named has = elim (Bool-cases (str_eq c.basis "TOU")) [
  | inr e ↦ inl λ q. absurd (ground (arith, eq_iff c.basis "TOU"))
  | inl e ↦ inr (elim (Option-cases c.tou_window) [
    | inl n ↦ absurd (ground (arith, rw (e, n) at named))
    | inr (name, n) ↦ (name, n, find-named name t.tou_windows (ground (arith, rw (e, n) at has)))
  ])
]

IsChecked-IsSound :
    (t : Tariff) (cs : List DemandComponent)
    → All IsBillable cs
    → HasWindows t cs
    → All (IsSound t) cs
IsChecked-IsSound t [] h k = tt
IsChecked-IsSound t (c ∷ cs) h k =
    let (basis, season, period, bounded, named) = h.0 in
    (
      (basis, season, period, inner-bounded c.tiers bounded, measurable t c named k.0),
      IsChecked-IsSound t cs h.1 k.1,
    )

-- In a tariff that loads, the basis, season and period of each component are known ones, only its
-- last tier may be unbounded, each component on a time-of-use basis names a window that the tariff
-- has, and there is an energy rate.
pub load_tariff-IsLoaded : (doc : TariffDoc) (t : Tariff) → load_tariff doc ≡ returns t → IsLoaded t
unfolding is_empty
load_tariff-IsLoaded doc t h =
    let (billable, windows, energy) = load_tariff-IsChecked doc t h in
    (IsChecked-IsSound t t.demand billable windows, λ e. absurd (ground (arith, rw e at energy)))
