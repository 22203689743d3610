-- ===== src/Tariff.antt =====
-- A tariff and its parts (sites/tariff.py): seasons, time-of-use windows, tier ladders, rates.
--
-- Powers are whole watts, times whole minutes, energies watt-minutes; hours of use are counted in
-- minutes. A rate is in money per unit of what it prices, fine enough that every rate is whole. No
-- amount is negative. Fields that no operation reads, such as the utility's name, are left out.
pub mod Windows
pub mod Ladder
pub mod Rates
pub mod Meter
pub mod Energy
pub mod Bill
pub mod Load
use otto_q_core.Base.{
  ℕ, ◌+◌, ◌-◌, ◌*◌, ◌/◌, ◌%◌, min, String, Bool, true, false, ◌&&◌, ◌||◌, Option, none, some, List,
  [], ◌∷◌, ltb, leb, ◌==◌, str_eq, if◌then◌else◌, any, find, Raises,
}

-- `TariffError` with what its text names, and the division by an interval of no length.
pub data TariffError : Type 0 where
  no_energy_rate : String → String → TariffError
  needs_coincident_minutes undefined_window needs_tiers inner_tier_unbounded : String → TariffError
  needs_interval bad_basis bad_season bad_period needs_window : String → TariffError
  no_energy division_by_zero : TariffError

-- A value or an exception of billing.
abbrev pub Billing {ℓ} : Type ℓ → Type ℓ
Billing A = Raises TariffError A

-- `up_to_kw` is none on the tier that runs to infinity.
pub record Tier : Type 0 where
  pub up_to_kw : Option ℕ
  pub rate : ℕ

pub record TouWindow : Type 0 where
  pub name : String
  pub ranges : List (ℕ × ℕ)

pub record DemandComponent : Type 0 where
  pub label : String
  pub basis : String
  pub interval_min : ℕ
  pub tiers : List Tier
  pub tou_window : Option String
  pub season : String
  pub period : String

pub record EnergyRate : Type 0 where
  pub season : String
  pub tou_window : Option String
  pub rate_per_kwh : ℕ

-- A tail block ends at its hours of use, or nowhere. Blocks stand in the order of their hours.
pub record HoursUseBlocks : Type 0 where
  pub base_hours : ℕ
  pub first_blocks : List Tier
  pub tail_blocks : List (Option ℕ × ℕ)
  pub min_bill_fixed : ℕ
  pub min_bill_per_kw : ℕ

pub record Ratchet : Type 0 where
  pub percent : ℕ
  pub lookback_months : ℕ

pub record Tariff : Type 0 where
  pub tariff_id : String
  pub fixed_charge_per_month : ℕ
  pub demand : List DemandComponent
  pub energy : List EnergyRate
  pub ratchet : Option Ratchet
  pub hours_use_blocks : Option HoursUseBlocks
  pub tou_windows : List TouWindow
  pub summer_months : List ℕ
  pub winter_months : List ℕ
  pub demand_charge_free : Bool

-- One range of a window at a minute of the day; one with start after end wraps past midnight.
pub range_contains : ℕ → ℕ × ℕ → Bool
range_contains m r = if leb r.0 r.1 then leb r.0 m && ltb m r.1 else leb r.0 m || ltb m r.1

-- `TouWindow.contains`
pub contains : TouWindow → ℕ → Bool
contains w minute_of_day = any (range_contains (minute_of_day % 1440)) w.ranges

-- One pass over a tier from the end of the one before, and the rest where the tier is not enough.
pub price_tier : Option ℕ → ℕ → (ℕ → ℕ → ℕ) → ℕ → ℕ → ℕ
price_tier none rate rest lower_kw billed = (billed - lower_kw) * rate
price_tier (some u) rate rest lower_kw billed =
    (min billed u - lower_kw) * rate + (if leb billed u then 0 else rest u billed)

-- The loop over a tier ladder.
pub price_from : List Tier → ℕ → ℕ → ℕ
price_from [] lower_kw billed = 0
price_from (t ∷ ts) lower_kw billed = price_tier t.up_to_kw t.rate (price_from ts) lower_kw billed

-- `DemandComponent.price`
pub price : DemandComponent → ℕ → ℕ
price c billed_kw = price_from c.tiers 0 billed_kw

-- `Ratchet.floor_kw`
pub floor_kw : Ratchet → ℕ → ℕ
floor_kw r historical_peak_kw = r.percent * historical_peak_kw / 100

module _ (t : Tariff) where
  unfoldable pub season_of : ℕ → String
  season_of month =
      if any (◌==◌ month) t.summer_months
      then "summer"
      else if any (◌==◌ month) t.winter_months
      then "winter"
      else "transition"

  unfoldable pub window : String → Option TouWindow
  window name = find (λ w. str_eq w.name name) t.tou_windows

unfoldable pub season_applies : String → String → Bool
season_applies declared actual =
    if str_eq declared "all"
    then true
    else if str_eq declared "summer_peak"
    then str_eq actual "summer"
    else str_eq declared actual

-- The rate is in season and for the window by name.
pub is_exact : String → String → EnergyRate → Bool
is_exact season window e =
    season_applies e.season season && elim e.tou_window [ none ↦ false | some w ↦ str_eq w window ]

-- The rate is in season and for all windows.
unfoldable pub is_general : String → EnergyRate → Bool
is_general season e =
    season_applies e.season season && elim e.tou_window [ none ↦ true | some w ↦ false ]

-- The first general rate stays the best one.
pub or_rate : Option ℕ → EnergyRate → Option ℕ
or_rate none e = some e.rate_per_kwh
or_rate (some r) e = some r

-- The loop of `_energy_rate` with its `best`.
pub energy_rate_from : String → String → List EnergyRate → Option ℕ → Option ℕ
energy_rate_from season window [] best = best
energy_rate_from season window (e ∷ es) best =
    if is_exact season window e
    then some e.rate_per_kwh
    else energy_rate_from season window es (if is_general season e then or_rate best e else best)

pub energy_rate : Tariff → String → String → Option ℕ
energy_rate t season window = energy_rate_from season window t.energy none

-- `name or ""`
unfoldable pub or_empty : Option String → String
or_empty none = ""
or_empty (some s) = s

unfoldable pub is_none {ℓ} : {A : Type ℓ} → Option A → Bool
is_none none = true
is_none (some x) = false
