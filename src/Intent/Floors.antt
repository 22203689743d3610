-- ===== src/Intent/Floors.antt =====
-- Floors are structural: no regime can drop a floor or put an objective before one.
use otto_q_core.Base.{
  String, ◌≡◌, refl, sym, ◌∙◌, inl, inr, Bool, true, false, not, ◌&&◌, List, [], ◌∷◌, ◌++◌, arith,
  eq_iff, str_eq, Bool-cases, filter, any, All, elem, IsDistinct, elem-append, elem-filter, Dict,
  keys,
}
use mathlib.Core.Bool.{or-true}
use otto_q_core.Base.Sort.{sort, any-sort}
use otto_q_core.Intent.Order.{
  elem-dedupe, dedupe-IsDistinct, seen_after, dedupe-append, elem-dedupe_from, All-of_elem,
}
use otto_q_core.Intent.{
  Intent, Objective, Regime, ActiveIntent, has_kind, floors_of, soft_of, item_le,
  canonical_floor_order, build_active, dedupe, dedupe_from,
}

-- An item of the dict under the name `k` that the filter keeps.
abbrev kept_item : String → String × Objective → Bool
kept_item k e = str_eq k e.0 && str_eq e.1.kind "floor" && not (elem e.0 canonical_floor_order)

elem-keys-filter :
    (k : String) (d : Dict Objective)
    → elem k
        (keys (filter (λ e. str_eq e.1.kind "floor" && not (elem e.0 canonical_floor_order)) d))
      ≡ any (kept_item k) d
elem-keys-filter k [] = refl
elem-keys-filter k (e ∷ d) = ground (arith, elem-keys-filter k d)

any-kept_item :
    (k : String) (d : Dict Objective)
    → has_kind "floor" d k ≡ true
    → elem k canonical_floor_order ≡ false
    → any (kept_item k) d ≡ true
unfolding has_kind
any-kept_item k [] f c = cc
any-kept_item k ((j, o) ∷ d) f c = ground (arith, eq_iff k j, any-kept_item k d)

-- Every objective that the artifact declares a floor is among the floors.
pub floors_of_complete :
    (d : Dict Objective) (k : String) → has_kind "floor" d k ≡ true → elem k (floors_of d) ≡ true
unfolding floors_of
floors_of_complete d k f = elim (Bool-cases (elem k canonical_floor_order)) [
  | inl named ↦ rw (elem-append, elem-filter k (has_kind "floor" d) canonical_floor_order, named, f)
  | inr other ↦
      rw
        (
          elem-append,
          elem-keys-filter k (sort item_le d),
          any-sort item_le (kept_item k) d,
          any-kept_item k d f other,
        )
        (or-true _)
]

-- The artifact declares an objective of that name a floor.
abbrev pub is_floor : Dict Objective → String → Bool
is_floor d k = any (λ e. str_eq k e.0 && str_eq e.1.kind "floor") d

has_kind-is_floor :
    (d : Dict Objective) (k : String) → has_kind "floor" d k ≡ true → is_floor d k ≡ true
unfolding has_kind
has_kind-is_floor [] k h = cc
has_kind-is_floor ((j, o) ∷ d) k h = ground (arith, has_kind-is_floor d k)

kept_item-is_floor :
    (d : Dict Objective) (k : String) → any (kept_item k) d ≡ true → is_floor d k ≡ true
kept_item-is_floor [] k h = h
kept_item-is_floor (e ∷ d) k h = ground (arith, kept_item-is_floor d k)

-- Nothing else is among the floors.
floors_of_only :
    (d : Dict Objective) (k : String) → elem k (floors_of d) ≡ true → is_floor d k ≡ true
unfolding floors_of
floors_of_only d k h = elim (Bool-cases (any (kept_item k) d)) [
  | inl e ↦ kept_item-is_floor d k e
  | inr e ↦ has_kind-is_floor d k (
      ground (
        arith,
        e,
        h,
        elem-append k (filter (has_kind "floor" d) canonical_floor_order) (
            keys (
              filter (λ e. str_eq e.1.kind "floor" && not (elem e.0 canonical_floor_order))
                (sort item_le d))),
        elem-filter k (has_kind "floor" d) canonical_floor_order,
        elem-keys-filter k (sort item_le d),
        any-sort item_le (kept_item k) d,
      ))
]

elem-soft_of :
    (d : Dict Objective) (p : List String) (k : String)
    → elem k (soft_of d p) ≡ (elem k p && (elem k (keys d) && not (elem k (floors_of d))))
unfolding soft_of
elem-soft_of d p k = elem-filter k (λ k. elem k (keys d) && not (elem k (floors_of d))) p

-- What follows the floors in an active intent.
abbrev after_floors : Intent → Regime → List String
after_floors i r =
    dedupe_from (seen_after [] (floors_of i.objectives)) (soft_of i.objectives r.priority)

after_floors_no_floor :
    (i : Intent) (r : Regime) (k : String)
    → elem k (after_floors i r) ≡ true
    → has_kind "floor" i.objectives k ≡ false
after_floors_no_floor i r k e = ground (
  arith,
  elem-dedupe_from k (seen_after [] (floors_of i.objectives)) (soft_of i.objectives r.priority),
  elem-soft_of i.objectives r.priority k,
  floors_of_complete i.objectives k,
)

-- What an active intent says of the artifact's floors: all are there, each name once, it starts with
-- floors only, and no floor stands behind an objective.
pub record KeepsFloors (i : Intent) (a : ActiveIntent) : Type 0 where
  pub complete : (k : String) → has_kind "floor" i.objectives k ≡ true → elem k a.priority ≡ true
  pub distinct : IsDistinct a.priority
  pub later : List String
  pub floors_only : All (λ k. is_floor i.objectives k ≡ true) (dedupe (floors_of i.objectives))
  pub split : a.priority ≡ dedupe (floors_of i.objectives) ++ later
  pub later_no_floor : All (λ k. has_kind "floor" i.objectives k ≡ false) later

-- Whatever regime an intent is built from, it names every floor of the artifact, names nothing
-- twice, starts with names that the artifact declares floors, and has no floor behind these.
pub build_active-KeepsFloors : (i : Intent) (r : Regime) → KeepsFloors i (build_active i r)
unfolding build_active
build_active-KeepsFloors i r =
    let fs = floors_of i.objectives in
    let soft = soft_of i.objectives r.priority in
    record {
      complete = λ k f. ground (
        arith,
        elem-dedupe k (fs ++ soft),
        elem-append k fs soft,
        floors_of_complete i.objectives k,
      );
      distinct = dedupe-IsDistinct (fs ++ soft);
      later = after_floors i r;
      floors_only =
          All-of_elem (λ k. is_floor i.objectives k ≡ true) (dedupe fs)
            (λ k e. floors_of_only i.objectives k (sym (elem-dedupe k fs) ∙ e));
      split = dedupe-append fs soft;
      later_no_floor =
          All-of_elem (λ k. has_kind "floor" i.objectives k ≡ false) (after_floors i r)
            (after_floors_no_floor i r);
    }

-- A readiness floor is the very first priority.
pub readiness_first :
    (d : Dict Objective)
    → has_kind "floor" d "readiness" ≡ true
    → (ks : List String) × (dedupe (floors_of d) ≡ "readiness" ∷ ks)
unfolding floors_of dedupe dedupe_from
readiness_first d f = (
  dedupe_from ("readiness" ∷ []) (
      filter (has_kind "floor" d) ("service_completion" ∷ [])
      ++ keys (
          filter (λ e. str_eq e.1.kind "floor" && not (elem e.0 canonical_floor_order))
            (sort item_le d))),
  rw f,
)
