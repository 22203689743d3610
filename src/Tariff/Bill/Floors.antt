-- ===== src/Tariff/Bill/Floors.antt =====
-- What the ratchet does to a bill (sites/tariff.py: `Ratchet.floor_kw` in `Tariff.bill`).

use otto_q_core.Tariff.Energy.{energy_by_window}
use otto_q_core.Base.Sort.{sort}
use otto_q_core.Tariff.Bill.{
  bill_by, item_le, Line, bill_energy, no_demand, demand_part, bill_apart, Period, ratchet_of,
  Demand, periods_of, bill_demand, charge, statement, bill,
}
use otto_q_core.Tariff.Meter.{Load, peak_for}
use native.Mathlib.Nat.{mul-le-mul_right, mul-le-mul_left}
use otto_q_core.Base.{
  ℕ, ◌-◌, ◌≤◌, min, max, String, ◌≡◌, refl, sym, subst, inl, inr, Bool, true, false, Option, none,
  some, List, [], ◌∷◌, arith, if◌then◌else◌, Bool-cases, ◌>>=◌, raises, returns,
}
use otto_q_core.Tariff.{
  Billing, season_of, DemandComponent, Tariff, season_applies, Tier, Ratchet, price_tier,
  price_from, floor_kw, price,
}

price_tier_mono :
    (o : Option ℕ) (r : ℕ) (f : ℕ → ℕ → ℕ) (m a b : ℕ)
    → a ≤ b
    → ((u : ℕ) → f u a ≤ f u b)
    → price_tier o r f m a ≤ price_tier o r f m b
unfolding price_tier
price_tier_mono none r f m a b h step = mul-le-mul_right {m = a - m} {n = b - m} r (omega arith)
price_tier_mono (some u) r f m a b h step =
    ground (arith, mul-le-mul_right {m = min a u - m} {n = min b u - m} r (omega arith), step u)

price_from_mono : (ts : List Tier) (m a b : ℕ) → a ≤ b → price_from ts m a ≤ price_from ts m b
unfolding price_from
price_from_mono [] m a b h = omega arith
price_from_mono (t ∷ ts) m a b h =
    price_tier_mono t.up_to_kw t.rate (price_from ts) m a b h (λ u. price_from_mono ts u a b h)

floor_kw_mono : (r : Ratchet) (a b : ℕ) → a ≤ b → floor_kw r a ≤ floor_kw r b
unfolding floor_kw
floor_kw_mono r a b h = omega (arith, mul-le-mul_left r.percent h)

-- The same period with another peak on record.
abbrev pub with_peak : Period → ℕ → Period
with_peak p kw = record {
  month = p.month;
  days = p.days;
  historical_peak_kw = kw;
  coincident_minutes = p.coincident_minutes;
}

-- Both raise the same, or the first amount is at most the second.
abbrev pub AtMostAs {ℓ} : {A : Type ℓ} → (A → ℕ) → Billing A → Billing A → Type 0
AtMostAs f (returns x) (returns y) = f x ≤ f y
AtMostAs f (raises e) (raises e2) = e ≡ e2
AtMostAs f m n = ⊥

AtMostAs-same {ℓ} : {A : Type ℓ} (f : A → ℕ) (m : Billing A) → AtMostAs f m m
AtMostAs-same f (returns x) = omega arith
AtMostAs-same f (raises e) = refl

AtMostAs->>= {ℓ κ} :
    {A : Type ℓ} {B : Type κ} (f : B → ℕ) (m : Billing A) (j k : A → Billing B)
    → ((x : A) → AtMostAs f (j x) (k x))
    → AtMostAs f (m >>= j) (m >>= k)
AtMostAs->>= f (returns x) j k h = h x
AtMostAs->>= f (raises e) j k h = refl

ratchet_of_mono :
    (o : Option Ratchet) (c : DemandComponent) (a b : ℕ)
    → a ≤ b
    → ratchet_of o c a ≤ ratchet_of o c b
unfolding ratchet_of
ratchet_of_mono none c a b h = omega arith
ratchet_of_mono (some r) c a b h = ground (arith, floor_kw_mono r a b h)

charge_mono :
    (t : Tariff) (p : Period) (c : DemandComponent) (measured a b : ℕ) (d e : Demand)
    → a ≤ b
    → d.cost ≤ e.cost
    → (charge t (with_peak p a) c measured d).cost ≤ (charge t (with_peak p b) c measured e).cost
unfolding charge price price_from periods_of
charge_mono t p c measured a b d e h k =
    let low = max measured (ratchet_of t.ratchet c a) in
    let high = max measured (ratchet_of t.ratchet c b) in
    let grows =
      price_from_mono c.tiers 0 low high (omega (arith, ratchet_of_mono t.ratchet c a b h)) in
    omega (arith, k, mul-le-mul_right (periods_of p c) grows)

bill_demand_mono :
    (t : Tariff) (load : Load) (p : Period) (season : String) (a b : ℕ) (cs : List DemandComponent)
    (d e : Demand)
    → a ≤ b
    → d.cost ≤ e.cost
    → AtMostAs
        (λ x. x.cost)
        (bill_demand t load (with_peak p a) season cs d)
        (bill_demand t load (with_peak p b) season cs e)
unfolding bill_demand
bill_demand_mono t load p season a b [] d e h k = k
bill_demand_mono t load p season a b (c ∷ cs) d e h k =
    elim (Bool-cases (season_applies c.season season)) [
      | inl s ↦ rw s (
          AtMostAs->>= (λ x. x.cost) (peak_for load c t p.coincident_minutes) _ _
            λ measured.
              bill_demand_mono t load p season a b cs _ _ h
                (charge_mono t p c measured a b d e h k))
      | inr s ↦ rw s (bill_demand_mono t load p season a b cs d e h k)
    ]

AtMostAs-if {ℓ} :
    {A : Type ℓ} (f : A → ℕ) (c : Bool) (x m n : Billing A)
    → AtMostAs f m n
    → AtMostAs f (if c then x else m) (if c then x else n)
AtMostAs-if f true x m n h = AtMostAs-same f x
AtMostAs-if f false x m n h = h

demand_part_mono :
    (t : Tariff) (load : Load) (p : Period) (a b : ℕ)
    → a ≤ b
    → AtMostAs
        (λ x. x.cost)
        (demand_part t load (with_peak p a))
        (demand_part t load (with_peak p b))
unfolding demand_part
demand_part_mono t load p a b h =
    AtMostAs-if (λ x. x.cost) t.demand_charge_free (returns no_demand) _ _
      (bill_demand_mono t load p (season_of t p.month) a b t.demand no_demand no_demand h
        (omega arith))

statement_mono :
    (t : Tariff) (p q : Period) (energy : ℕ × List Line) (m n : Billing Demand)
    → AtMostAs (λ x. x.cost) m n
    → AtMostAs
        (λ x. x.total)
        (m >>= λ d. returns (statement t p energy d))
        (n >>= λ d. returns (statement t q energy d))
unfolding statement
statement_mono t p q energy (returns d) (returns e) h = omega (arith, h)
statement_mono t p q energy (raises d) (raises e) h = h
statement_mono t p q energy (returns d) (raises e) h = h
statement_mono t p q energy (raises d) (returns e) h = h

bill_apart_mono :
    (t : Tariff) (load : Load) (p : Period) (a b : ℕ)
    → a ≤ b
    → AtMostAs
        (λ x. x.total)
        (bill_apart t load (with_peak p a))
        (bill_apart t load (with_peak p b))
unfolding bill_apart
bill_apart_mono t load p a b h =
    AtMostAs->>= (λ x. x.total)
      (bill_energy t (season_of t p.month) (sort item_le (energy_by_window load t))) _ _
      λ energy.
        statement_mono t (with_peak p a) (with_peak p b) energy _ _
          (demand_part_mono t load p a b h)

-- A higher peak on record never makes a bill without hours-use blocks smaller, whatever the tiers,
-- the ratchet and the curve: the same error is raised, or the total is at least as high.
pub bill-ratchet :
    (t : Tariff) (load : Load) (p : Period) (a b : ℕ)
    → t.hours_use_blocks ≡ none
    → a ≤ b
    → AtMostAs (λ x. x.total) (bill t load (with_peak p a)) (bill t load (with_peak p b))
unfolding bill bill_by
bill-ratchet t load p a b h k =
    subst
      (λ o.
        AtMostAs (λ x. x.total) (bill_by o t load (with_peak p a))
          (bill_by o t load (with_peak p b)))
      (sym h) (bill_apart_mono t load p a b k)
