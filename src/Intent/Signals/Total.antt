-- ===== src/Intent/Signals/Total.antt =====
-- A forecast that keeps its contract is assessed (intent/signals.py: `forecast_signals`).
use otto_q_core.Base.{
  ℕ, ◌+◌, ◌/◌, ◌≤◌, ◌<◌, String, ◌≡◌, refl, sym, ap, subst, ◌∙◌, true, false, Option, some, List,
  [], ◌∷◌, map, arith, leb, le→leb, if-true, if-false, length, All, Dict, lookup, ◌>>=◌, Succeeds,
  Succeeds->>=, Succeeds-with, returns,
}
use otto_q_core.Intent.Signals.{
  surge_of, peak_signal, valid_hour, valid_target, Query, signals_from, forecast_signals,
}
use otto_q_core.Intent.Signals.Windows.{
  Hour, Section, require_section, number_of, hour_map, window_from, field_of, add_arrivals,
  sum_arrivals, max_load, present, section,
}
use otto_q_core.Intent.Signals.Thresholds.{
  Assessed, Threshold, signal_thresholds, in_domain, validated_override, Effective, apply_overrides,
  Value, override, threshold, number, defaults,
}
use otto_q_core.Intent.Signals.Domains.{apply_overrides-InDomains, InDomains}
use otto_q_core.Intent.Signals.Fires.{window_kind-IsWindow}
use otto_q_core.Intent.Signals.Hours.{
  IsNumber, IsArrivals, IsLoad, hours_into, hours_from-into, window_from-Windowed, Covers,
}

add_arrivals-returns :
    (o p : Option Value) (m : Assessed (ℕ × ℕ)) (x y : ℕ) (r : ℕ × ℕ)
    → o ≡ some (number x)
    → p ≡ some (number y)
    → m ≡ returns r
    → add_arrivals o p m ≡ returns (x + r.0, y + r.1)
unfolding add_arrivals present number_of
add_arrivals-returns o p m x y r e b s =
    ap (λ o. add_arrivals o p m) e
    ∙ ap (λ p. add_arrivals (some (number x)) p m) b
    ∙ ap (λ m. add_arrivals (some (number x)) (some (number y)) m) s

sum_arrivals-returns :
    (hs : List Hour)
    → All IsArrivals hs
    → (sums : ℕ × ℕ) × (sum_arrivals hs ≡ returns sums) × (1 ≤ length hs → 0 < sums.1)
unfolding sum_arrivals
sum_arrivals-returns [] g = ((0, 0), refl, λ l. omega arith)
sum_arrivals-returns (h ∷ hs) g =
    let rest = sum_arrivals-returns hs g.1 in
    let e = g.0.0 in
    let b = g.0.1 in
    (
      (e.0 + rest.0.0, b.0 + rest.0.1),
      add_arrivals-returns h.expected_arrivals h.baseline_arrivals (sum_arrivals hs) e.0 b.0 rest.0
          e.1 b.1 rest.1,
      λ l. omega (arith, b.2),
    )

field_of-Succeeds : (field : String) (o : Option Value) → IsNumber o → Succeeds (field_of field o)
unfolding field_of number_of
field_of-Succeeds field o g = subst (λ o. Succeeds (field_of field o)) (sym g.1) tt

max_load-Succeeds : (hs : List Hour) → All IsLoad hs → Succeeds (max_load hs)
unfolding max_load
max_load-Succeeds [] g = tt
max_load-Succeeds (h ∷ hs) g =
    Succeeds->>= _ _ (field_of-Succeeds "total_kw_p90" h.total_kw_p90 g.0)
      λ x. Succeeds->>= _ _ (max_load-Succeeds hs g.1) λ r. tt

Succeeds-returns {ℓ} : {A : Type ℓ} (m : Assessed A) (x : A) → m ≡ returns x → Succeeds m
Succeeds-returns m x e = subst Succeeds (sym e) tt

-- After a value that is known.
Succeeds-known {ℓ κ} :
    {A : Type ℓ} {B : Type κ} (m : Assessed A) (k : A → Assessed B) (x : A)
    → m ≡ returns x
    → Succeeds (k x)
    → Succeeds (m >>= k)
Succeeds-known m k x e h = subst (λ m. Succeeds (m >>= k)) (sym e) h

surge_of-Succeeds :
    (e : Effective) (now : ℕ) (hs : List Hour)
    → InDomains e
    → All IsArrivals hs
    → Covers hs
    → Succeeds (surge_of e now (hours_into hs []))
unfolding surge_of
surge_of-Succeeds e now hs d g c =
    let n = threshold "surge_window_hours" e / 1000 in
    let w = window_from-Windowed IsArrivals hs now n g c in
    let sums = sum_arrivals-returns w.0 w.2 in
    let long = window_kind-IsWindow (threshold "surge_window_hours" e) d.1 in
    Succeeds-known (window_from (hours_into hs []) now n) _ w.0 w.1 (
      Succeeds-known (sum_arrivals w.0) _ sums.0 sums.1
        (rw (above sums.0.1 (sums.2 (omega (arith, long.0, w.3)))) tt))
  where
    above : (n : ℕ) → 0 < n → leb n 0 ≡ false
    above n h = ground arith

peak_signal-Succeeds :
    (e : Effective) (target now : ℕ) (hs : List Hour)
    → All IsLoad hs
    → Covers hs
    → Succeeds (peak_signal e target now (hours_into hs []))
unfolding peak_signal
peak_signal-Succeeds e target now hs g c =
    let n = threshold "peak_window_hours" e / 1000 in
    let w = window_from-Windowed IsLoad hs now n g c in
    Succeeds-known (window_from (hours_into hs []) now n) _ w.0 w.1
      (Succeeds->>= _ _ (max_load-Succeeds w.0 w.2) λ peak. tt)

-- A section with the entries.
abbrev pub of_hours : List Hour → Section
of_hours hs = section (some (map some hs))

hour_map-into :
    (key : String) (hs : List Hour)
    → Covers hs
    → hour_map key (some (map some hs)) ≡ returns (hours_into hs [])
unfolding hour_map
hour_map-into key [] c = ground (arith, c 0)
hour_map-into key (h ∷ hs) c = hours_from-into key (h ∷ hs) []

-- An override of a known threshold by a number in its domain.
abbrev pub IsOverride : String × Value → Type 0
IsOverride o =
    (spec : Threshold) × (x : ℕ) × (lookup o.0 signal_thresholds ≡ some spec)
    × (o.1 ≡ number x)
    × (in_domain spec.kind x ≡ true)

override-Succeeds :
    (k : String) (v : Value) (o : Option Threshold) (e : Effective) (spec : Threshold) (x : ℕ)
    → o ≡ some spec
    → v ≡ number x
    → in_domain spec.kind x ≡ true
    → Succeeds (override k v o e)
unfolding override validated_override
override-Succeeds k v o e spec x ho hv hx =
    subst (λ o. Succeeds (override k v o e)) (sym ho)
      (subst (λ v. Succeeds (override k v (some spec) e)) (sym hv) (rw hx tt))

apply_overrides-Succeeds :
    (os : Dict Value) (e : Effective) → All IsOverride os → Succeeds (apply_overrides os e)
unfolding apply_overrides
apply_overrides-Succeeds [] e g = tt
apply_overrides-Succeeds (o ∷ os) e g =
    Succeeds->>= _ _ (override-Succeeds o.0 o.1 _ e g.0.0 g.0.1 g.0.2 g.0.3 g.0.4)
      λ e2. apply_overrides-Succeeds os e2 g.1

signals_from-Succeeds :
    (q : Query) (now target : ℕ) (e : Effective) (arrivals load : List Hour)
    → InDomains e
    → q.forecast.arrivals ≡ of_hours arrivals
    → q.forecast.load ≡ of_hours load
    → All IsArrivals arrivals × Covers arrivals
    → All IsLoad load × Covers load
    → Succeeds (signals_from q now target e)
unfolding signals_from require_section
signals_from-Succeeds q now target e arrivals load d ha hl ga gl =
    Succeeds-known (require_section "arrivals" q.forecast.arrivals) _ (some (map some arrivals))
      (ap (require_section "arrivals") ha)
      (Succeeds-known (require_section "load" q.forecast.load) _ (some (map some load))
        (ap (require_section "load") hl)
        (Succeeds-known (hour_map "arrivals" (some (map some arrivals))) _ (hours_into arrivals [])
          (hour_map-into "arrivals" arrivals ga.1)
          (Succeeds-known (hour_map "load" (some (map some load))) _ (hours_into load [])
            (hour_map-into "load" load gl.1)
            (Succeeds->>= _ _ (surge_of-Succeeds e now arrivals d ga.0 ga.1) λ surge.
              Succeeds->>= _ _ (peak_signal-Succeeds e target now load gl.0 gl.1) λ peak. tt))))

in_day : (h : ℕ) → h ≤ 23 → leb h 23 ≡ true
in_day h l = le→leb h 23 l

some_power : (v : ℕ) → 0 < v → leb v 0 ≡ false
some_power v h = ground arith

-- A contract that is kept is honoured. Where each section has an entry for every hour of the day, each
-- arrivals entry numbers above a baseline of nought and each load entry a number, the hour is one of
-- the day, the target is above nought and every override is a known threshold in its domain, the
-- forecast is assessed without an error, whichever hour comes first.
pub forecast_signals-Succeeds :
    (q : Query) (now target : ℕ) (arrivals load : List Hour)
    → q.now_hour ≡ some now
    → now ≤ 23
    → q.site_power_target_kw ≡ number target
    → 0 < target
    → All IsOverride q.thresholds
    → q.forecast.arrivals ≡ of_hours arrivals
    → q.forecast.load ≡ of_hours load
    → All IsArrivals arrivals × Covers arrivals
    → All IsLoad load × Covers load
    → Succeeds (forecast_signals q)
unfolding forecast_signals valid_hour valid_target
forecast_signals-Succeeds q now target arrivals load hn ln ht lt ho ha hl ga gl =
    Succeeds-known (valid_hour q.now_hour) _ now (ap valid_hour hn ∙ if-true _ _ (in_day now ln)) (
      Succeeds-known (valid_target q.site_power_target_kw) _ target
        (ap valid_target ht ∙ if-false _ _ (some_power target lt))
        (Succeeds-with InDomains (apply_overrides q.thresholds defaults) _
          (apply_overrides-Succeeds q.thresholds defaults ho)
          (apply_overrides-InDomains q.thresholds)
          λ e d. signals_from-Succeeds q now target e arrivals load d ha hl ga gl))
