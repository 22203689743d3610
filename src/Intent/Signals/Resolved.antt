-- ===== src/Intent/Signals/Resolved.antt =====
-- The signals of a forecast in the resolver (intent/signals.py into intent/intent.py).
use otto_q_core.Intent.Regimes.{Resolves, resolve_intent-Resolves}
use otto_q_core.Base.{
  ℕ, String, ◌≡◌, refl, ap, ◌∙◌, Bool, true, false, not, List, [], ◌++◌, if-false, elem, Returned,
  Returned-after, Returned-map,
}
use otto_q_core.Intent.{
  Result, ActiveIntent, no_regime, resolve_intent, unknown_signals, known_signals,
  unknown_signals_of, Intent, err, ok,
}
use otto_q_core.Intent.Signals.{
  surge_of, peak_signal, valid_hour, valid_target, signals_from, SignalAssessment, Query,
  forecast_signals, named, assessment,
}
use otto_q_core.Intent.Signals.Windows.{require_section, hour_map}
use otto_q_core.Intent.Signals.Thresholds.{Effective, apply_overrides, defaults}

-- The intent has a regime for each of the three signals.
abbrev pub KnowsSignals : Intent → Type 0
KnowsSignals i =
    (elem "demand_surge" (known_signals i.regimes) ≡ true)
    × (elem "grid_peak_imminent" (known_signals i.regimes) ≡ true)
    × (elem "weather_hold" (known_signals i.regimes) ≡ true)

unknown-named :
    (i : Intent) (b : Bool) (s : String) (rest : List String)
    → elem s (known_signals i.regimes) ≡ true
    → unknown_signals_of i (named b s ++ rest) ≡ unknown_signals_of i rest
unfolding unknown_signals_of named
unknown-named i true s rest h = if-false _ _ (ap not h)
unknown-named i false s rest h = refl

named-known :
    (i : Intent) (a b c : Bool)
    → KnowsSignals i
    → unknown_signals_of i
        (named a "demand_surge" ++ (named b "grid_peak_imminent" ++ named c "weather_hold"))
      ≡ []
unfolding unknown_signals_of named
named-known i a b c k =
    unknown-named i a "demand_surge" (named b "grid_peak_imminent" ++ named c "weather_hold") k.0
    ∙ unknown-named i b "grid_peak_imminent" (named c "weather_hold") k.1
    ∙ unknown-last c
  where
    unknown-last : (c : Bool) → unknown_signals_of i (named c "weather_hold") ≡ []
    unknown-last true = if-false _ _ (ap not k.2)
    unknown-last false = refl

-- Nothing among the signals is unknown to the intent.
abbrev pub AreKnown : Intent → SignalAssessment → Type 0
AreKnown i a = unknown_signals_of i a.signals ≡ []

signals_from-AreKnown :
    (i : Intent) (q : Query) (now target : ℕ) (e : Effective)
    → KnowsSignals i
    → Returned (AreKnown i) (signals_from q now target e)
unfolding signals_from assessment
signals_from-AreKnown i q now target e k =
    Returned-after (AreKnown i) (require_section "arrivals" q.forecast.arrivals) _ λ arrivals.
      Returned-after (AreKnown i) (require_section "load" q.forecast.load) _ λ load.
        Returned-after (AreKnown i) (hour_map "arrivals" arrivals) _ λ amap.
          Returned-after (AreKnown i) (hour_map "load" load) _ λ lmap.
            Returned-after (AreKnown i) (surge_of e now amap) _ λ surge.
              Returned-after (AreKnown i) (peak_signal e target now lmap) _
                λ peak. named-known i surge.triggered peak.triggered q.weather_hold k

forecast_signals-AreKnown :
    (i : Intent) (q : Query) → KnowsSignals i → Returned (AreKnown i) (forecast_signals q)
unfolding forecast_signals
forecast_signals-AreKnown i q k = Returned-after (AreKnown i) (valid_hour q.now_hour) _ λ now.
    Returned-after (AreKnown i) (valid_target q.site_power_target_kw) _ λ target.
      Returned-after (AreKnown i) (apply_overrides q.thresholds defaults) _
        λ e. signals_from-AreKnown i q now target e k

-- The resolver refused the signals as unknown.
abbrev pub refused_signals : Result ActiveIntent → Bool
refused_signals (err (unknown_signals names)) = true
refused_signals (err no_regime) = false
refused_signals (ok a) = false

known-taken :
    (i : Intent) (hour : ℕ) (signals : List String) (r : Result ActiveIntent)
    → unknown_signals_of i signals ≡ []
    → Resolves i hour signals r
    → refused_signals r ≡ false
known-taken i hour signals (ok a) k h = refl
known-taken i hour signals (err no_regime) k h = refl
known-taken i hour signals (err (unknown_signals names)) k h = absurd (h.0 k)

-- An intent with a regime for each of the three signals never refuses the signals of a forecast as
-- unknown: what `forecast_signals` returns, `resolve_intent` takes at every hour.
pub resolve_intent-forecast_signals :
    (i : Intent) (q : Query) (hour : ℕ)
    → KnowsSignals i
    → Returned (λ a. refused_signals (resolve_intent i hour a.signals) ≡ false) (forecast_signals q)
resolve_intent-forecast_signals i q hour k =
    Returned-map (AreKnown i) (λ a. refused_signals (resolve_intent i hour a.signals) ≡ false)
      (forecast_signals q)
      (λ a h. known-taken i hour a.signals _ h (resolve_intent-Resolves i hour a.signals))
      (forecast_signals-AreKnown i q k)
