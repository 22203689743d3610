-- ===== src/Tariff/Windows.antt =====
-- What a window covers (sites/tariff.py: `TouWindow.contains`).
use otto_q_core.Base.{ℕ, ◌+◌, ◌-◌, ◌%◌, ◌<◌, ◌≡◌, refl, Bool, List, [], ◌∷◌, arith, ltb, any, All}
use otto_q_core.Tariff.{TouWindow, range_contains, contains}

-- The minutes from one minute of the day round the clock to another.
abbrev pub minutes_after : ℕ → ℕ → ℕ
minutes_after m lo = (m + 1440 - lo) % 1440

-- Within the length of the range from its start, counted round the clock.
abbrev pub covers : ℕ → ℕ × ℕ → Bool
covers m r = ltb (minutes_after m r.0) (minutes_after r.1 r.0)

-- Both ends are minutes of the day.
abbrev pub IsRange : ℕ × ℕ → Type 0
IsRange r = (r.0 < 1440) × (r.1 < 1440)

range_contains-covers : (m : ℕ) (r : ℕ × ℕ) → m < 1440 → IsRange r → range_contains m r ≡ covers m r
unfolding range_contains
range_contains-covers m r h k = ground arith

any-covers :
    (m : ℕ) (rs : List (ℕ × ℕ))
    → m < 1440
    → All IsRange rs
    → any (range_contains m) rs ≡ any (covers m) rs
any-covers m [] h k = refl
any-covers m (r ∷ rs) h k = rw (range_contains-covers m r h k.0) (rw (any-covers m rs h k.1) refl)

-- A window whose ranges start and end on minutes of the day contains a minute exactly when, counted
-- round the clock, it comes less far after the start of one of the ranges than the end does: a range
-- that wraps past midnight is one stretch, and one that ends where it starts is empty.
pub contains-covers :
    (w : TouWindow) (minute_of_day : ℕ)
    → All IsRange w.ranges
    → contains w minute_of_day ≡ any (covers (minute_of_day % 1440)) w.ranges
unfolding contains
contains-covers w m h = any-covers (m % 1440) w.ranges (omega arith) h
