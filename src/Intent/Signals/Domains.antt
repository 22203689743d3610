-- ===== src/Intent/Signals/Domains.antt =====
-- The domains of the thresholds in force (intent/signals.py: `_validated_override`).
use otto_q_core.Base.{
  ℕ, String, ◌≡◌, refl, sym, ap, subst, ◌∙◌, inl, inr, true, Option, none, some, [], ◌∷◌, map,
  arith, eq_iff, str_eq, Bool-cases, if-true, if-false, All, Dict, lookup, insert, lookup-insert,
  Returned, Returned->>=, Returned-map,
}
use otto_q_core.Intent.Signals.Thresholds.{
  apply_overrides, window_kind, ratio_kind, Threshold, signal_thresholds, Kind, in_domain,
  validated_override, Effective, or_zero, below_zero, not_finite, not_number, Value, threshold,
  number, defaults, override,
}

-- Each threshold in force lies in the domain of its kind.
abbrev pub IsEffective : Effective → Type 0
IsEffective e =
    (name : String) (spec : Threshold)
    → lookup name signal_thresholds ≡ some spec
    → in_domain spec.kind (threshold name e) ≡ true

validated_override-InDomain :
    (name : String) (v : Value) (kind : Kind)
    → Returned (λ x. in_domain kind x ≡ true) (validated_override name v kind)
unfolding validated_override
validated_override-InDomain name (number v) kind = elim (Bool-cases (in_domain kind v)) [
  | inl e ↦ rw e e
  | inr e ↦ rw e tt
]
validated_override-InDomain name (below_zero v) kind = tt
validated_override-InDomain name not_finite kind = tt
validated_override-InDomain name not_number kind = tt

unspec : (s t : Threshold) → some s ≡ some t → s ≡ t
unspec s t h = ap (λ o. from o) h
  where
    from : Option Threshold → Threshold
    from none = s
    from (some x) = x

insert-InDomain :
    (k n : String) (x : ℕ) (d : Dict ℕ) (spec told : Threshold)
    → lookup k signal_thresholds ≡ some spec
    → in_domain spec.kind x ≡ true
    → lookup n signal_thresholds ≡ some told
    → in_domain told.kind (or_zero (lookup n d)) ≡ true
    → in_domain told.kind (or_zero (lookup n (insert k x d))) ≡ true
unfolding or_zero
insert-InDomain k n x d spec told hk hx hn h = elim (Bool-cases (str_eq k n)) [
  | inl e ↦
      let same_spec =
        unspec spec told (sym hk ∙ ap (λ j. lookup j signal_thresholds) ((eq_iff k n).0 e) ∙ hn) in
      rw (lookup-insert k n x d)
        (rw e (subst (λ (s : Threshold). in_domain s.kind x ≡ true) same_spec hx))
  | inr e ↦ rw (lookup-insert k n x d) (rw e h)
]

override-IsEffective :
    (k : String) (v : Value) (o : Option Threshold) (e : Effective)
    → lookup k signal_thresholds ≡ o
    → IsEffective e
    → Returned IsEffective (override k v o e)
unfolding override threshold
override-IsEffective k v none e h g = tt
override-IsEffective k v (some spec) e h g =
    Returned->>= (λ x. in_domain spec.kind x ≡ true) IsEffective _ _
      (validated_override-InDomain k v spec.kind)
      λ x hx n told hn. insert-InDomain k n x e.eff spec told h hx hn (g n told hn)

apply_overrides-IsEffective :
    (os : Dict Value) (e : Effective) → IsEffective e → Returned IsEffective (apply_overrides os e)
unfolding apply_overrides
apply_overrides-IsEffective [] e g = g
apply_overrides-IsEffective (o ∷ os) e g =
    Returned->>= IsEffective IsEffective _ _ (override-IsEffective o.0 o.1 _ e refl g)
      λ e2 g2. apply_overrides-IsEffective os e2 g2

-- The four thresholds lie in their domains.
abbrev pub InDomains : Effective → Type 0
InDomains e =
    (in_domain ratio_kind (threshold "surge_multiplier" e) ≡ true)
    × (in_domain window_kind (threshold "surge_window_hours" e) ≡ true)
    × (in_domain ratio_kind (threshold "peak_fraction" e) ≡ true)
    × (in_domain window_kind (threshold "peak_window_hours" e) ≡ true)

IsEffective-InDomains : (e : Effective) → IsEffective e → InDomains e
IsEffective-InDomains e g = (
  g "surge_multiplier" _ refl,
  g "surge_window_hours" _ refl,
  g "peak_fraction" _ refl,
  g "peak_window_hours" _ refl,
)

default-InDomain :
    (ts : Dict Threshold) (n : String) (spec : Threshold)
    → All (λ e. in_domain e.1.kind e.1.default ≡ true) ts
    → lookup n ts ≡ some spec
    → in_domain spec.kind (or_zero (lookup n (map (λ e. (e.0, e.1.default)) ts))) ≡ true
unfolding or_zero
default-InDomain [] n spec g h = ground arith
default-InDomain (t ∷ ts) n spec g h = elim (Bool-cases (str_eq n t.0)) [
  | inl e ↦ rw e (
      subst (λ (s : Threshold). in_domain s.kind t.1.default ≡ true)
        (unspec t.1 spec (sym (if-true _ _ e) ∙ h)) g.0)
  | inr e ↦ rw e (default-InDomain ts n spec g.1 (sym (if-false _ _ e) ∙ h))
]

defaults-IsEffective : IsEffective defaults
unfolding defaults threshold in_domain
defaults-IsEffective n spec h =
    default-InDomain signal_thresholds n spec (refl, (refl, (refl, (refl, tt)))) h

pub apply_overrides-InDomains : (os : Dict Value) → Returned InDomains (apply_overrides os defaults)
apply_overrides-InDomains os =
    Returned-map IsEffective InDomains _ IsEffective-InDomains
      (apply_overrides-IsEffective os defaults defaults-IsEffective)
