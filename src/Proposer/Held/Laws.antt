-- ===== src/Proposer/Held/Laws.antt =====
-- Laws of the population tests.
use otto_q_core.Base.{
  ℕ, ◌<◌, String, ◌≡◌, refl, sym, ap, ◌∙◌, ◌↔◌, ◌⊎◌, Bool, true, false, not, ◌&&◌, none, some, List,
  [], ◌∷◌, arith, eq_iff, filter, elem,
}
use otto_q_core.Proposer.Frame.{Vehicle, text_true}
use otto_q_core.Proposer.Held.{
  >>=-eq-ok, ok-inj, default_serviceable_states, vehicle_is_held, resolved_target_soc, ok,
  serviceable_pred, serviceable_in, serviceable_predicate, plannable_in, checked_states,
}

-- A vehicle is held exactly for one of four reasons: it has a live proposal, it overstays on a
-- charge stall, the frame says it holds a charge place, or the frame does not say and it has a
-- reservation or a booking. So an overstaying vehicle is held though the frame says it holds no
-- place, and a vehicle that only holds a staging place is not held by its reservation.
pub vehicle_is_held_iff :
    (v : Vehicle)
    → (vehicle_is_held v ≡ true) ↔ (
        (v.has_live_holds_tick_proposal ≡ some (some true))
        ⊎ (v.occupies_charge_stall_unbooked ≡ true)
        ⊎ (v.holds_charge_place ≡ some (some true))
        ⊎ ((v.holds_charge_place ≡ none)
            × ((text_true v.reserved_stall_id ≡ true) ⊎ (v.has_live_booking ≡ true))))
unfolding vehicle_is_held
vehicle_is_held_iff v = (ground arith, ground arith)

elem-of_subset :
    (k : String) (xs ys : List String)
    → filter (λ s. not (elem s ys)) xs ≡ []
    → elem k xs ≡ true
    → elem k ys ≡ true
elem-of_subset k [] ys e h = ground arith
elem-of_subset k (x ∷ xs) ys e h = ground (arith, eq_iff k x, elem-of_subset k xs ys)

checked_states_ok :
    (unknown states : List String) {p : Vehicle → Bool}
    → checked_states unknown states ≡ ok p
    → (unknown ≡ []) × (serviceable_pred states ≡ p)
unfolding checked_states
checked_states_ok (s ∷ unknown) states e = cc
checked_states_ok [] [] e = cc
checked_states_ok [] (s ∷ states) e = (refl, ok-inj e)

plannable_in_ok :
    (states : List String) {p : Vehicle → Bool}
    → plannable_in (some states) ≡ ok p
    → (filter (λ s. not (elem s default_serviceable_states)) states ≡ [])
      × ((v : Vehicle) → p v ≡ (serviceable_pred states v && not (vehicle_is_held v)))
unfolding plannable_in serviceable_predicate serviceable_in
plannable_in_ok states e =
    let (base, checked, same) = >>=-eq-ok (serviceable_in states) _ e in
    let (known, same') = checked_states_ok _ states checked in
    (
      known,
      λ v. sym (ap (λ f. f v) (ok-inj same)) ∙ ap (λ f. f v && not (vehicle_is_held v)) (sym same'),
    )

-- Whatever states a caller names, a vehicle that is planned for is in one of them and in a
-- serviceable state, is below its target or has no readable charge level, and is not held.
pub plannable_in_sound :
    (states : List String) {plannable : Vehicle → Bool} (v : Vehicle)
    → plannable_in (some states) ≡ ok plannable
    → plannable v ≡ true
    → (elem v.state states ≡ true)
      × (elem v.state default_serviceable_states ≡ true)
      × ((v.soc ≡ none) ⊎ ((soc : ℕ) × (v.soc ≡ some soc) × (soc < resolved_target_soc v)))
      × (vehicle_is_held v ≡ false)
unfolding serviceable_pred
plannable_in_sound states v e p =
    let (known, same) = plannable_in_ok states e in
    ground (arith, same v, elem-of_subset v.state states default_serviceable_states known)
