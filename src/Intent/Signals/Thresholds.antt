-- ===== src/Intent/Signals/Thresholds.antt =====
-- The thresholds of the signals with their domains, and a caller's overrides (intent/signals.py:
-- `SIGNAL_THRESHOLDS`, `_validated_override`).
use otto_q_core.Base.{
  ℕ, ◌*◌, ◌%◌, String, Bool, not, ◌&&◌, Option, none, some, [], ◌∷◌, map, leb, ◌==◌, if◌then◌else◌,
  Dict, lookup, insert, Raises, ◌>>=◌, raises, returns,
}

-- What a caller or a forecast may hand over: a number, one below zero, one that is not finite, or
-- something that is no number.
pub data Value : Type 0 where
  number below_zero : ℕ → Value
  not_finite not_number : Value

-- `ForecastContractError` with the section or field that it names, and `ValueError`.
pub data SignalError : Type 0 where
  missing_section missing_hours malformed_hour : String → SignalError
  not_covered : ℕ → SignalError
  missing_field bad_number : String → SignalError
  no_baseline : SignalError
  bad_now_hour bad_target : SignalError
  unknown_threshold bad_threshold : String → SignalError

abbrev pub Assessed {ℓ} : Type ℓ → Type ℓ
Assessed A = Raises SignalError A

pub data Kind : Type 0 where
  window_kind ratio_kind : Kind

pub record Threshold : Type 0 where
  pub default : ℕ
  pub evidence_label : String
  pub kind : Kind

-- `SIGNAL_THRESHOLDS`
abbrev pub signal_thresholds : Dict Threshold
signal_thresholds =
    (
      "surge_multiplier",
      record { default = 2_000; evidence_label = "inference"; kind = ratio_kind },
    )
    ∷ (
      "surge_window_hours",
      record { default = 3_000; evidence_label = "inference"; kind = window_kind },
    )
    ∷ ("peak_fraction", record { default = 900; evidence_label = "inference"; kind = ratio_kind })
    ∷ (
      "peak_window_hours",
      record { default = 6_000; evidence_label = "inference"; kind = window_kind },
    )
    ∷ []

-- `MAX_WINDOW_HOURS` and `OVERRIDE_LABEL`
abbrev pub max_window_hours : ℕ
max_window_hours = 24

abbrev pub override_label : String
override_label = "operator-override"

-- `_validated_override` on a finite number that is not negative, by the kind.
unfoldable pub in_domain : Kind → ℕ → Bool
in_domain window_kind v = v % 1000 == 0 && leb 1000 v && leb v (1000 * max_window_hours)
in_domain ratio_kind v = not (leb v 0)

-- `_validated_override`
unfoldable pub validated_override : String → Value → Kind → Assessed ℕ
validated_override name (number v) kind =
    if in_domain kind v then returns v else raises (bad_threshold name)
validated_override name (below_zero v) kind = raises (bad_threshold name)
validated_override name not_finite kind = raises (bad_threshold name)
validated_override name not_number kind = raises (bad_threshold name)

-- `eff` and `prov`
pub record Effective : Type 0 where
  pub eff : Dict ℕ
  pub prov : Dict String

unfoldable pub defaults : Effective
defaults = record {
  eff = map (λ e. (e.0, e.1.default)) signal_thresholds;
  prov = map (λ e. (e.0, e.1.evidence_label)) signal_thresholds;
}

-- One override of a threshold that may be unknown.
unfoldable pub override : String → Value → Option Threshold → Effective → Assessed Effective
override name v none e = raises (unknown_threshold name)
override name v (some spec) e = validated_override name v spec.kind >>= λ x.
    returns record { eff = insert name x e.eff; prov = insert name override_label e.prov }

-- The loop over the overrides.
unfoldable pub apply_overrides : Dict Value → Effective → Assessed Effective
apply_overrides [] e = returns e
apply_overrides (o ∷ os) e =
    override o.0 o.1 (lookup o.0 signal_thresholds) e >>= λ e. apply_overrides os e

-- `eff[name]`, for a name of `SIGNAL_THRESHOLDS`
unfoldable pub or_zero : Option ℕ → ℕ
or_zero none = 0
or_zero (some v) = v

unfoldable pub threshold : String → Effective → ℕ
threshold name e = or_zero (lookup name e.eff)
