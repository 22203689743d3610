-- ===== src/Proposer/Translate/Classes.antt =====
-- The dict of classes that `frame_to_scenario` fills (proposer/forward_proposer.py).
use otto_q_core.Proposer.Inlets.{capability_inlets}
use otto_q_core.Base.{
  ◌/◌, String, ◌≡◌, refl, sym, ap, subst, ◌≢◌, inl, inr, true, Option, none, some, List, [], ◌∷◌,
  map, arith, eq_iff, if◌then◌else◌, Bool-cases, All, elem,
}
use otto_q_core.Scenario.{AssetClass, ServicePoint, ClassName}
use otto_q_core.Proposer.Translate.{key_eq, name_eq, setdefault}

-- `asset_classes[name]`
abbrev pub class_of_name : ClassName → List (ClassName × AssetClass) → Option AssetClass
class_of_name n [] = none
class_of_name n ((m, c) ∷ rest) = if name_eq n m then some c else class_of_name n rest

key_eq-eq : (a b : Option String) → key_eq a b ≡ true → a ≡ b
unfolding key_eq
key_eq-eq none none h = refl
key_eq-eq none (some y) h = cc
key_eq-eq (some x) none h = cc
key_eq-eq (some x) (some y) h = ap some ((eq_iff x y).0 h)

name_eq-eq : (a b : ClassName) → name_eq a b ≡ true → a ≡ b
unfolding name_eq
name_eq-eq a b h =
    let d : a.key ≡ b.key = key_eq-eq a.key b.key (ground arith) in
    let e : a.kw ≡ b.kw = ground arith in
    let f : a.inlet ≡ b.inlet = ground (arith, eq_iff a.inlet b.inlet) in cc

key_eq_refl : (a : Option String) → key_eq a a ≡ true
unfolding key_eq
key_eq_refl none = refl
key_eq_refl (some x) = (eq_iff x x).1 refl

name_eq_refl : (n : ClassName) → name_eq n n ≡ true
unfolding name_eq
name_eq_refl n = ground (arith, eq_iff n.inlet n.inlet, key_eq_refl n.key)

class_of_setdefault :
    (n k : ClassName) (c : AssetClass) {x : AssetClass} (d : List (ClassName × AssetClass))
    → class_of_name k d ≡ some x
    → class_of_name k (setdefault n c d) ≡ some x
unfolding setdefault
class_of_setdefault n k c [] e = cc
class_of_setdefault n k c {x} ((m, y) ∷ d) e = elim (Bool-cases (name_eq n m)) [
  | inl hit ↦ rw hit e
  | inr miss ↦ rw miss (elim (Bool-cases (name_eq k m)) [
    | inl here ↦ rw here (rw here at e)
    | inr past ↦ rw past (class_of_setdefault n k c d (rw past at e))
  ])
]

-- A class that suits its name: the plug and the power of the name, and at least one capability,
-- each of which is on site and takes the plug.
pub record ClassFits (points : List ServicePoint) (n : ClassName) (c : AssetClass) : Type 0 where
  pub plug : c.inlet ≡ n.inlet
  pub power : c.max_charge_kw / 1000 ≡ n.kw
  pub usable : c.charge_kinds ≢ []
  pub on_site :
      All
        (λ cap.
          (elem cap (map (λ p. ServicePoint.kind p) points) ≡ true)
          × (elem n.inlet (capability_inlets cap) ≡ true))
        c.charge_kinds

-- The name is in the dict, with a class that suits it.
abbrev pub Known : List ServicePoint → List (ClassName × AssetClass) → ClassName → Type 0
Known points d n = (c : AssetClass) × (class_of_name n d ≡ some c) × ClassFits points n c

abbrev pub AllFit : List ServicePoint → List (ClassName × AssetClass) → Type 0
AllFit points d = All (λ e. ClassFits points e.0 e.1) d

module _ (points : List ServicePoint) (n : ClassName) (c : AssetClass)
    (fits : ClassFits points n c) where
  pub setdefault-AllFit :
      (d : List (ClassName × AssetClass)) → AllFit points d → AllFit points (setdefault n c d)
  unfolding setdefault
  setdefault-AllFit [] h = (fits, tt)
  setdefault-AllFit ((m, x) ∷ d) h = elim (Bool-cases (name_eq n m)) [
    | inl hit ↦ rw hit h
    | inr miss ↦ rw miss (h.0, setdefault-AllFit d h.1)
  ]

  -- The new name is known, by its own class or by the one that was there before.
  pub setdefault-Known :
      (d : List (ClassName × AssetClass)) → AllFit points d → Known points (setdefault n c d) n
  unfolding setdefault
  setdefault-Known [] h = (c, rw (name_eq_refl n) refl, fits)
  setdefault-Known ((m, x) ∷ d) h = elim (Bool-cases (name_eq n m)) [
    | inl hit ↦
        rw hit (x, rw hit refl, subst (λ k. ClassFits points k x) (sym (name_eq-eq n m hit)) h.0)
    | inr miss ↦ let (y, e, f) = setdefault-Known d h.1 in rw miss (y, rw miss e, f)
  ]

  pub Known-setdefault :
      (d : List (ClassName × AssetClass)) (k : ClassName)
      → Known points d k
      → Known points (setdefault n c d) k
  Known-setdefault d k (x, e, f) = (x, class_of_setdefault n k c d e, f)
