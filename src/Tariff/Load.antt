-- ===== src/Tariff/Load.antt =====
-- Loading a tariff from its document (sites/tariff.py: `load_tariff`).
pub mod Laws
use otto_q_core.Base.{
  ℕ, String, Bool, true, false, not, ◌&&◌, ◌||◌, Option, none, some, List, [], ◌∷◌, map, str_eq,
  if◌then◌else◌, elem, ◌>>=◌, raises, returns,
}
use otto_q_core.Tariff.{
  Billing, TariffError, Tier, TouWindow, DemandComponent, EnergyRate, HoursUseBlocks, Ratchet,
  or_empty, is_none, undefined_window, needs_tiers, inner_tier_unbounded, needs_interval, bad_basis,
  bad_season, bad_period, needs_window, no_energy, Tariff, window,
}

-- A document: a key that may be absent is an option. The numbers are those that the conversions of
-- the source read, and the keys that it reads without a default are there.
pub record TierDoc : Type 0 where
  pub up_to_kw : Option ℕ
  pub rate : ℕ

pub record DemandDoc : Type 0 where
  pub label : Option String
  pub basis : Option String
  pub interval_min : Option ℕ
  pub tiers : Option (List TierDoc)
  pub rate_per_kw : Option ℕ
  pub tou_window : Option String
  pub season : Option String
  pub period : Option String

pub record EnergyDoc : Type 0 where
  pub season : Option String
  pub tou_window : Option String
  pub rate_per_kwh : ℕ

pub record TariffDoc : Type 0 where
  pub tariff_id : String
  pub fixed_charge_per_month : Option ℕ
  pub demand : List DemandDoc
  pub energy : List EnergyDoc
  pub ratchet : Option Ratchet
  pub hours_use_blocks : Option HoursUseBlocks
  pub tou_windows : List TouWindow
  pub summer_months : Option (List ℕ)
  pub winter_months : Option (List ℕ)
  pub demand_charge_free : Option Bool

-- `d.get(key, default)`
abbrev pub or_default {ℓ} : {A : Type ℓ} → A → Option A → A
or_default d none = d
or_default d (some x) = x

-- `SEASONS`, `BASES`, `PERIODS`
abbrev pub seasons : List String
seasons = "all" ∷ "summer" ∷ "winter" ∷ "transition" ∷ "summer_peak" ∷ []

abbrev pub bases : List String
bases = "NCP" ∷ "CP" ∷ "TOU" ∷ []

abbrev pub periods : List String
periods = "month" ∷ "day" ∷ []

-- Some tier before the last one is unbounded.
unfoldable pub has_inner_unbounded : List Tier → Bool
has_inner_unbounded [] = false
has_inner_unbounded (t ∷ []) = false
has_inner_unbounded (t ∷ u ∷ ts) = is_none t.up_to_kw || has_inner_unbounded (u ∷ ts)

unfoldable pub load_tier : TierDoc → Tier
load_tier r = record { up_to_kw = r.up_to_kw; rate = r.rate }

unfoldable pub checked_tiers : String → List TierDoc → Billing (List Tier)
checked_tiers label raw =
    let ts = map load_tier raw in
    if has_inner_unbounded ts then raises (inner_tier_unbounded label) else returns ts

-- The raw tiers: those of the document, or one unbounded tier at its rate.
unfoldable pub raw_tiers : DemandDoc → Option (List TierDoc)
raw_tiers d = elim d.tiers [
  | some raw ↦ some raw
  | none ↦ elim d.rate_per_kw [
    | none ↦ none
    | some rate ↦ some (record { up_to_kw = none; rate = rate } ∷ [])
  ]
]

unfoldable pub tiers_from : String → Option (List TierDoc) → Billing (List Tier)
tiers_from label none = raises (needs_tiers label)
tiers_from label (some raw) = checked_tiers label raw

-- `tiers_of`
unfoldable pub tiers_of : DemandDoc → String → Billing (List Tier)
tiers_of d label = tiers_from label (raw_tiers d)

unfoldable pub component :
    DemandDoc → String → ℕ → String → String → String → List Tier → DemandComponent
component d label interval basis season period ts = record {
  label = label;
  basis = basis;
  interval_min = interval;
  tiers = ts;
  tou_window = d.tou_window;
  season = season;
  period = period;
}

-- `if not cond: raise`
abbrev pub require : Bool → TariffError → Billing {0} Unit
require cond e = if cond then returns tt else raises e

-- `TOU` needs a window with a name.
unfoldable pub names_window : String → Option String → Bool
names_window basis w = if str_eq basis "TOU" then not (str_eq (or_empty w) "") else true

-- The checks of one component after its interval, in the order of the source.
unfoldable pub load_rest : DemandDoc → String → ℕ → Billing DemandComponent
load_rest d label interval =
    let basis = or_default "NCP" d.basis in
    let season = or_default "all" d.season in
    let period = or_default "month" d.period in
    require (elem basis bases) (bad_basis label) >>= λ u.
    require (elem season seasons) (bad_season label) >>= λ u.
    require (elem period periods) (bad_period label) >>= λ u.
    require (names_window basis d.tou_window) (needs_window label) >>= λ u.
    tiers_of d label >>= λ ts. returns (component d label interval basis season period ts)

-- The interval comes first: it is required.
unfoldable pub load_interval : DemandDoc → String → Option ℕ → Billing DemandComponent
load_interval d label none = raises (needs_interval label)
load_interval d label (some interval) = load_rest d label interval

unfoldable pub load_component : DemandDoc → Billing DemandComponent
load_component d = load_interval d (or_default "?" d.label) d.interval_min

-- The loop over the demand components.
unfoldable pub load_demand : List DemandDoc → Billing (List DemandComponent)
load_demand [] = returns []
load_demand (d ∷ ds) = load_component d >>= λ c. load_demand ds >>= λ cs. returns (c ∷ cs)

unfoldable pub load_energy : EnergyDoc → EnergyRate
load_energy e = record {
  season = or_default "all" e.season;
  tou_window = e.tou_window;
  rate_per_kwh = e.rate_per_kwh;
}

unfoldable pub tariff_of : TariffDoc → List DemandComponent → Tariff
tariff_of doc demand = record {
  tariff_id = doc.tariff_id;
  fixed_charge_per_month = or_default 0 doc.fixed_charge_per_month;
  demand = demand;
  energy = map load_energy doc.energy;
  ratchet = doc.ratchet;
  hours_use_blocks = doc.hours_use_blocks;
  tou_windows = doc.tou_windows;
  summer_months = or_default (6 ∷ 7 ∷ 8 ∷ 9 ∷ []) doc.summer_months;
  winter_months = or_default (12 ∷ 1 ∷ 2 ∷ 3 ∷ []) doc.winter_months;
  demand_charge_free = or_default false doc.demand_charge_free;
}

-- A component on a window has the window in the tariff.
unfoldable pub has_window : Tariff → DemandComponent → Bool
has_window t comp =
    if str_eq comp.basis "TOU" then not (is_none (window t (or_empty comp.tou_window))) else true

-- The loop that checks the windows.
unfoldable pub check_windows : Tariff → List DemandComponent → Billing {0} Unit
check_windows t [] = returns tt
check_windows t (c ∷ cs) =
    require (has_window t c) (undefined_window c.label) >>= λ u. check_windows t cs

unfoldable pub is_empty : List EnergyRate → Bool
is_empty [] = true
is_empty (e ∷ es) = false

-- The tariff with a row without a rate, which keeps the accounting of energy alive.
unfoldable pub add_row : Bool → Tariff → Tariff
add_row false t = t
add_row true t = record {
  tariff_id = t.tariff_id;
  fixed_charge_per_month = t.fixed_charge_per_month;
  demand = t.demand;
  energy = record { season = "all"; tou_window = none; rate_per_kwh = 0 } ∷ [];
  ratchet = t.ratchet;
  hours_use_blocks = t.hours_use_blocks;
  tou_windows = t.tou_windows;
  summer_months = t.summer_months;
  winter_months = t.winter_months;
  demand_charge_free = t.demand_charge_free;
}

-- The checks of the whole tariff.
unfoldable pub checked_tariff : Tariff → Billing Tariff
checked_tariff t = check_windows t t.demand >>= λ u.
    require (not (is_empty t.energy && is_none t.hours_use_blocks)) no_energy >>= λ u.
    returns (add_row (not (is_none t.hours_use_blocks) && is_empty t.energy) t)

unfoldable pub load_tariff : TariffDoc → Billing Tariff
load_tariff doc = load_demand doc.demand >>= λ demand. checked_tariff (tariff_of doc demand)
