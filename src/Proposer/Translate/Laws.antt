-- ===== src/Proposer/Translate/Laws.antt =====
-- Every vehicle that is looked at is accounted for, and every asset can be charged
-- (proposer/forward_proposer.py: `frame_to_scenario`).
use otto_q_core.Proposer.Points.{offered_points, Offered}
use otto_q_core.Proposer.Inlets.{capability_inlets, connector}
use otto_q_core.Base.Sort.{All-sort}
use otto_q_core.Base.{
  ℕ, ◌+◌, ◌<◌, String, ◌≡◌, refl, sym, ap, subst, ◌∙◌, inl, inr, Bool, true, Option, none, some,
  List, [], ◌∷◌, ◌++◌, map, arith, eq_iff, leb, str_le, Bool-cases, if-true, if-false, filter, all,
  All, elem, set_of, count, count-append, map-append, All-append, All-map,
}
use otto_q_core.Proposer.Frame.{Frame, Vehicle}
use otto_q_core.Proposer.Held.{>>=-eq-ok, ok-inj, ok}
use otto_q_core.Scenario.{Asset, Scenario, ServicePoint}
use otto_q_core.Proposer.Translate.{
  translate_from, no_vehicles, frame_to_scenario, judge_kinds, judge_need, judge_soc, Translated,
  ClassRow, Options, Verdict, caps_for, judge_caps, judge_inlet, judge_class, takes, planned,
  abstains, plans, setdefault, note, judge,
}
use otto_q_core.Proposer.Rows.{Row, entity, abstain}
use otto_q_core.Proposer.Translate.Classes.{
  Known, AllFit, setdefault-AllFit, setdefault-Known, Known-setdefault, ClassFits,
}

-- What the judgement of a vehicle promises.
abbrev Judged : List ServicePoint → Vehicle → Verdict → Type 0
Judged points v (abstains r) = Unit
Judged points v (plans n c a) =
    (a.aid ≡ v.id) × (a.cls ≡ n) × (a.soc < a.target_soc) × ClassFits points n c

-- The capabilities that are picked are on site and take the plug.
filter-takes :
    (kinds : List String) (inlet : String) (all caps : List String)
    → ((k : String) → elem k caps ≡ true → elem k all ≡ true)
    → All
        (λ cap. (elem cap all ≡ true) × (elem inlet (capability_inlets cap) ≡ true))
        (filter (takes kinds inlet) caps)
unfolding takes
filter-takes kinds inlet all [] h = tt
filter-takes kinds inlet all (cap ∷ caps) h =
    let rest = filter-takes kinds inlet all caps (λ k e. h k (ground arith)) in
    let here = h cap (ground (arith, eq_iff cap cap)) in ground arith

elem-set_of : (k : String) (xs : List String) → elem k (set_of xs) ≡ elem k xs
elem-set_of k [] = refl
elem-set_of k (x ∷ xs) = ground (arith, elem-set_of k xs, elem-set_of x xs, eq_iff k x)

caps_for-on_site :
    (points : List ServicePoint) (kinds : List String) (inlet : String)
    → All
        (λ cap.
          (elem cap (map (λ p. ServicePoint.kind p) points) ≡ true)
          × (elem inlet (capability_inlets cap) ≡ true))
        (caps_for points kinds inlet)
unfolding caps_for
caps_for-on_site points kinds inlet =
    let all = map (λ p. ServicePoint.kind p) points in
    All-sort str_le _ _
      (filter-takes kinds inlet all (set_of all) (λ k e. sym (elem-set_of k all) ∙ e))

module _ (opts : Options) (offered : Offered) (v : Vehicle) (soc target : ℕ)
    (need : soc < target) where
  judge_caps-Judged :
      (cls : ClassRow) (kinds : List String) (inlet : String) (caps : List String)
      → All
          (λ cap.
            (elem cap (map (λ p. ServicePoint.kind p) offered.points) ≡ true)
            × (elem inlet (capability_inlets cap) ≡ true))
          caps
      → Judged offered.points v (judge_caps opts offered v soc target cls kinds inlet caps)
  unfolding judge_caps planned
  judge_caps-Judged cls kinds inlet [] h = tt
  judge_caps-Judged cls kinds inlet (cap ∷ caps) h =
      (refl, refl, need, record { plug = refl; power = refl; usable = λ e. cc; on_site = h })

  judge_inlet-Judged :
      (cls : ClassRow) (kinds : List String) (plug : Option String)
      → Judged offered.points v (judge_inlet opts offered v soc target cls kinds plug)
  unfolding judge_inlet
  judge_inlet-Judged cls kinds none = tt
  judge_inlet-Judged cls kinds (some inlet) =
      judge_caps-Judged cls kinds inlet (caps_for offered.points kinds inlet)
        (caps_for-on_site offered.points kinds inlet)

  judge_kinds-Judged :
      (cls : ClassRow) (kinds : Option (List String)) {verdict : Verdict}
      → judge_kinds opts offered v soc target cls kinds ≡ ok verdict
      → Judged offered.points v verdict
  unfolding judge_kinds
  judge_kinds-Judged cls none h = cc
  judge_kinds-Judged cls (some kinds) h =
      subst (Judged offered.points v) (ok-inj h)
        (judge_inlet-Judged cls kinds (connector v.inlet_type))

  judge_class-Judged :
      (row : Option ClassRow) {verdict : Verdict}
      → judge_class opts offered v soc target row ≡ ok verdict
      → Judged offered.points v verdict
  unfolding judge_class
  judge_class-Judged none h = subst (Judged offered.points v) (ok-inj h) tt
  judge_class-Judged (some cls) h = judge_kinds-Judged cls cls.charge_kinds h

module _ (opts : Options) (offered : Offered) (v : Vehicle) where
  judge_need-Judged :
      (soc target : ℕ) {verdict : Verdict}
      → judge_need opts offered v soc target ≡ ok verdict
      → Judged offered.points v verdict
  unfolding judge_need
  judge_need-Judged soc target h = elim (Bool-cases (leb target soc)) [
    | inl full ↦ subst (Judged offered.points v) (ok-inj (sym (if-true _ _ full) ∙ h)) tt
    | inr need ↦
        judge_class-Judged opts offered v soc target (ground arith) _ (sym (if-false _ _ need) ∙ h)
  ]

  judge_soc-Judged :
      (soc : Option ℕ) {verdict : Verdict}
      → judge_soc opts offered v soc ≡ ok verdict
      → Judged offered.points v verdict
  unfolding judge_soc
  judge_soc-Judged none h = subst (Judged offered.points v) (ok-inj h) tt
  judge_soc-Judged (some level) h = judge_need-Judged _ _ h

All-both {ℓ κ μ ν} :
    {A : Type ℓ} {P : A → Type κ} {Q : A → Type μ} {R : A → Type ν} (xs : List A)
    → ((x : A) → P x → Q x → R x)
    → All P xs
    → All Q xs
    → All R xs
All-both [] f h k = tt
All-both (x ∷ xs) f h k = (f x h.0 k.0, All-both xs f h.1 k.1)

-- An asset that can be charged in its scenario.
pub record Chargeable (sc : Scenario) (a : Asset) : Type 0 where
  pub needs : a.soc < a.target_soc
  pub known : Known sc.service_points sc.asset_classes a.cls

-- What a translated population promises about the vehicles that were looked at.
record Accounted (points : List ServicePoint) (seen : List String) (t : Translated) : Type 0 where
  once :
      (k : String)
      → count k (map (λ a. Asset.aid a) t.explicit) + count k (map entity t.abstentions)
        ≡ count k seen
  fit : AllFit points t.classes
  needs : All (λ a. Asset.soc a < Asset.target_soc a) t.explicit
  known : All (λ a. Known points t.classes (Asset.cls a)) t.explicit

note-Accounted :
    (points : List ServicePoint) (seen : List String) (t : Translated) (v : Vehicle)
    (verdict : Verdict)
    → Judged points v verdict
    → Accounted points seen t
    → Accounted points (seen ++ v.id ∷ []) (note t v verdict)
unfolding note
note-Accounted points seen t v (abstains r) j a = record {
  once = λ k. rw (map-append entity t.abstentions (abstain v.id r ∷ [])) (
      omega (
        arith,
        a.once k,
        count-append k (map entity t.abstentions) (v.id ∷ []),
        count-append k seen (v.id ∷ []),
      ));
  fit = a.fit;
  needs = a.needs;
  known = a.known;
}
note-Accounted points seen t v (plans n c x) (same_id, same_class, need, fits) a = record {
  once = λ k.
      rw (map-append (λ a. Asset.aid a) t.explicit (x ∷ []), same_id)
        (omega (
          arith,
          a.once k,
          count-append k (map (λ a. Asset.aid a) t.explicit) (v.id ∷ []),
          count-append k seen (v.id ∷ []),
        ));
  fit = setdefault-AllFit points n c fits t.classes a.fit;
  needs = All-append _ t.explicit (x ∷ []) a.needs (need, tt);
  known =
      All-append _ t.explicit (x ∷ [])
        (All-map _ _ t.explicit (λ y. Known-setdefault points n c fits t.classes (Asset.cls y))
          a.known)
        (
          subst (Known points (setdefault n c t.classes)) (sym same_class)
              (setdefault-Known points n c fits t.classes a.fit),
          tt,
        );
}

append_assoc_one :
    (xs : List String) (x : String) (ys : List String) → (xs ++ x ∷ []) ++ ys ≡ xs ++ x ∷ ys
append_assoc_one [] x ys = refl
append_assoc_one (y ∷ xs) x ys = ap (◌∷◌ y) (append_assoc_one xs x ys)

append_nil : (xs : List String) → xs ++ [] ≡ xs
append_nil [] = refl
append_nil (x ∷ xs) = ap (◌∷◌ x) (append_nil xs)

translate_from-Accounted :
    (opts : Options) (offered : Offered) (serviceable : Vehicle → Bool) (vs : List Vehicle)
    (seen : List String) (t : Translated) {u : Translated}
    → Accounted offered.points seen t
    → translate_from opts offered serviceable t vs ≡ ok u
    → Accounted offered.points (seen ++ map (λ v. Vehicle.id v) (filter serviceable vs)) u
unfolding translate_from judge
translate_from-Accounted opts offered serviceable [] seen t {u} a e =
    subst (λ xs. Accounted offered.points xs u) (sym (append_nil seen))
      (subst (Accounted offered.points seen) (ok-inj e) a)
translate_from-Accounted opts offered serviceable (v ∷ vs) seen t {u} a e =
    elim (Bool-cases (serviceable v)) [
      | inr skipped ↦
          rw skipped
            (translate_from-Accounted opts offered serviceable vs seen t a (rw skipped at e))
      | inl looked_at ↦
          let (verdict, judged, rest) = >>=-eq-ok (judge opts offered v) _ (rw looked_at at e) in
          let noted =
            note-Accounted offered.points seen t v verdict
              (judge_soc-Judged opts offered v v.soc judged) a in
          rw looked_at (
            subst (λ xs. Accounted offered.points xs u) (append_assoc_one seen v.id _)
              (translate_from-Accounted opts offered serviceable vs (seen ++ v.id ∷ [])
                (note t v verdict) noted rest))
    ]

-- When `frame_to_scenario` returns, each vehicle that was looked at has exactly one asset or one
-- abstention for each time it stands in the frame, and no other vehicle has any. Each asset needs
-- charge, and its class carries its plug and power and at least one capability, all of which are
-- those of points on site that accept the plug.
pub frame_to_scenario-Accounted :
    (opts : Options) (serviceable : Vehicle → Bool) (frame : Frame) {sc : Scenario}
    {rows : List Row}
    → frame_to_scenario opts serviceable frame ≡ ok (sc, rows)
    → ((k : String)
        → count k (map (λ a. Asset.aid a) sc.assets) + count k (map entity rows)
          ≡ count k (map (λ v. Vehicle.id v) (filter serviceable frame.vehicles)))
      × All (Chargeable sc) sc.assets
unfolding frame_to_scenario no_vehicles
frame_to_scenario-Accounted opts serviceable frame {sc} {rows} e =
    let (offered, found, rest) = >>=-eq-ok (offered_points opts.site frame.stalls) _ e in
    let (t, translated, made) =
      >>=-eq-ok (translate_from opts offered serviceable no_vehicles frame.vehicles) _ rest in
    let a =
      translate_from-Accounted opts offered serviceable frame.vehicles [] no_vehicles
        (record { once = λ k. refl; fit = tt; needs = tt; known = tt }) translated in
    subst
      (λ r.
        ((k : String)
          → count k (map (λ a. Asset.aid a) r.0.assets) + count k (map entity r.1)
            ≡ count k (map (λ v. Vehicle.id v) (filter serviceable frame.vehicles)))
        × All (Chargeable r.0) r.0.assets)
      (ok-inj made)
      (
        a.once,
        All-both t.explicit (λ x need known. record { needs = need; known = known }) a.needs
            a.known,
      )
