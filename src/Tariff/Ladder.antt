-- ===== src/Tariff/Ladder.antt =====
-- The tier ladder as a price for each unit (sites/tariff.py: `DemandComponent.price`).
use otto_q_core.Base.Ascii.{lower}
use otto_q_core.Base.{
  ℕ, zero, suc, ◌+◌, ◌-◌, ◌*◌, ◌≤◌, ◌<◌, min, ◌≡◌, refl, ap, ◌∙◌, inl, inr, Option, none, some,
  List, [], ◌∷◌, arith, ltb, if◌then◌else◌, Bool-cases, le→leb, ltb→lt, ltb→le,
}
use otto_q_core.Tariff.{DemandComponent, price_tier, price_from, Tier, price}

-- A tier that ends does so above the one before, and an unbounded one is the last.
abbrev pub FitsTier : Option ℕ → List Tier → (ℕ → Type 0) → ℕ → Type 0
FitsTier none ts Rest lower = ts ≡ []
FitsTier (some u) ts Rest lower = (lower ≤ u) × Rest u

-- The tiers end above one another, from a lower bound, and only the last one is unbounded.
abbrev pub IsLadder : List Tier → ℕ → Type 0
IsLadder [] lower = Unit
IsLadder (t ∷ ts) lower = FitsTier t.up_to_kw ts (IsLadder ts) lower

abbrev pub tier_rate : Option ℕ → ℕ → ℕ → ℕ → ℕ
tier_rate none rate rest k = rate
tier_rate (some u) rate rest k = if ltb k u then rate else rest

-- The rate of the tier that a unit of power falls in: of the first that ends above it.
abbrev pub rate_at : List Tier → ℕ → ℕ
rate_at [] k = 0
rate_at (t ∷ ts) k = tier_rate t.up_to_kw t.rate (rate_at ts k) k

-- Each unit at its own rate.
abbrev pub price_by_unit : List Tier → ℕ → ℕ
price_by_unit ts zero = 0
price_by_unit ts (suc n) = price_by_unit ts n + rate_at ts n

sub_self : (n : ℕ) → n - n ≡ 0
sub_self n = omega arith

no_span : (n u : ℕ) → min n u - n ≡ 0
no_span n u = omega arith

suc-sub : (n m : ℕ) → m ≤ n → suc n - m ≡ suc (n - m)
suc-sub n m h = omega arith

span-suc : (n m r : ℕ) → m ≤ n → (suc n - m) * r ≡ (n - m) * r + r
span-suc n m r h = rw (suc-sub n m h) (omega arith)

price_tier-start :
    (o : Option ℕ) (r : ℕ) (ts : List Tier) (f : ℕ → ℕ → ℕ) (Rest : ℕ → Type 0) (m : ℕ)
    → FitsTier o ts Rest m
    → price_tier o r f m m ≡ 0
unfolding price_tier
price_tier-start none r ts f Rest m h = rw (sub_self m) (omega arith)
price_tier-start (some u) r ts f Rest m h = rw (no_span m u) (rw (le→leb m u h.0) (omega arith))

-- Nothing is charged where the ladder starts.
price_from-start : (ts : List Tier) (m : ℕ) → IsLadder ts m → price_from ts m m ≡ 0
unfolding price_from
price_from-start [] m h = refl
price_from-start (t ∷ ts) m h =
    price_tier-start t.up_to_kw t.rate ts (price_from ts) (IsLadder ts) m h

min-inside : (n u : ℕ) → n < u → (min (suc n) u ≡ suc n) × (min n u ≡ n)
min-inside n u h = (omega arith, omega arith)

min-beyond : (n u : ℕ) → u ≤ n → (min (suc n) u ≡ u) × (min n u ≡ u)
min-beyond n u h = (omega arith, omega arith)

capped-inside : (n u m r : ℕ) → m ≤ n → n < u → (min (suc n) u - m) * r ≡ (min n u - m) * r + r
capped-inside n u m r h k = rw (min-inside n u k).0 (rw (min-inside n u k).1 (span-suc n m r h))

capped-beyond : (n u m r : ℕ) → u ≤ n → (min (suc n) u - m) * r ≡ (min n u - m) * r
capped-beyond n u m r h = rw (min-beyond n u h).0 (rw (min-beyond n u h).1 refl)

-- A unit inside a tier, on its end, and beyond.
price_tier-suc :
    (o : Option ℕ) (r : ℕ) (ts : List Tier) (f : ℕ → ℕ → ℕ) (Rest : ℕ → Type 0) (g : ℕ → ℕ)
    (m n : ℕ)
    → FitsTier o ts Rest m
    → m ≤ n
    → ((u : ℕ) → Rest u → f u u ≡ 0)
    → ((u k : ℕ) → Rest u → u ≤ k → f u (suc k) ≡ f u k + g k)
    → price_tier o r f m (suc n) ≡ price_tier o r f m n + tier_rate o r (g n) n
unfolding price_tier
price_tier-suc none r ts f Rest g m n h k start step = span-suc n m r k
price_tier-suc (some u) r ts f Rest g m n h k start step = elim (Bool-cases (ltb n u)) [
  | inl e ↦ ground (arith, capped-inside n u m r k (ltb→lt n u e))
  | inr e ↦
      let k2 = ltb→le n u e in
      ground (arith, capped-beyond n u m r k2, start u h.1, step u n h.1 k2)
]

price_from-suc :
    (ts : List Tier) (m n : ℕ)
    → IsLadder ts m
    → m ≤ n
    → price_from ts m (suc n) ≡ price_from ts m n + rate_at ts n
unfolding price_from
price_from-suc [] m n h k = refl
price_from-suc (t ∷ ts) m n h k =
    price_tier-suc t.up_to_kw t.rate ts (price_from ts) (IsLadder ts) (rate_at ts) m n h k
      (price_from-start ts) (price_from-suc ts)

price_from-by_unit :
    (ts : List Tier) (n : ℕ) → IsLadder ts 0 → price_from ts 0 n ≡ price_by_unit ts n
price_from-by_unit ts zero h = price_from-start ts 0 h
price_from-by_unit ts (suc n) h =
    price_from-suc ts 0 n h (omega arith) ∙ ap (λ x. x + rate_at ts n) (price_from-by_unit ts n h)

-- On tiers that end above one another, of which only the last is unbounded, the price of a demand is
-- the sum over its units of the rate of the tier that each unit falls in, so that no unit is charged
-- in two tiers, and units beyond a bounded last tier are free.
pub price-by_unit :
    (c : DemandComponent) (n : ℕ) → IsLadder c.tiers 0 → price c n ≡ price_by_unit c.tiers n
unfolding price
price-by_unit c n h = price_from-by_unit c.tiers n h
