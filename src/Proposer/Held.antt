-- ===== src/Proposer/Held.antt =====
-- Which vehicles are planned for (proposer/forward_proposer.py: `vehicle_is_held`, the
-- serviceable predicates and `_plannable_in`).
pub mod Laws
use otto_q_core.Base.Sort.{sort}
use otto_q_core.Base.{
  ℕ, String, ◌≡◌, refl, Bool, true, false, not, ◌&&◌, Option, none, some, List, [], ◌∷◌, ltb,
  str_le, if◌then◌else◌, filter, elem, Dict,
}
use otto_q_core.Proposer.Frame.{Vehicle, text_true, flag_true}

-- `DEFAULT_SERVICEABLE_STATES`
abbrev pub default_serviceable_states : List String
default_serviceable_states =
    "arrived_at_gate" ∷ "staged_awaiting_service" ∷ "charging_dcfc" ∷ "charging_l2" ∷ []

-- `DEFAULT_TARGET_SOC_PCT`, in thousandths of a percent.
abbrev pub default_target_soc : ℕ
default_target_soc = 100_000

-- `vehicle_has_live_proposal`
pub vehicle_has_live_proposal : Vehicle → Bool
vehicle_has_live_proposal v = elim v.has_live_holds_tick_proposal [
  | none ↦ false
  | some verdict ↦ flag_true verdict
]

-- The charge-place fact of `vehicle_is_held`, or the older pair where the key is absent.
pub holds_place : Vehicle → Bool
holds_place v = elim v.holds_charge_place [
  | some verdict ↦ flag_true verdict
  | none ↦ if text_true v.reserved_stall_id then true else v.has_live_booking
]

unfoldable pub vehicle_is_held : Vehicle → Bool
unfolding vehicle_has_live_proposal holds_place
vehicle_is_held v =
    if vehicle_has_live_proposal v
    then true
    else if v.occupies_charge_stall_unbooked
    then true
    else holds_place v

-- `_resolved_target_soc`
unfoldable pub resolved_target_soc : Vehicle → ℕ
resolved_target_soc v = elim v.target_soc [ none ↦ default_target_soc | some t ↦ t ]

-- The `pred` that `_serviceable_in` returns.
unfoldable pub serviceable_pred : List String → Vehicle → Bool
unfolding resolved_target_soc
serviceable_pred states v =
    if not (elem v.state states)
    then false
    else elim v.soc [ none ↦ true | some soc ↦ ltb soc (resolved_target_soc v) ]

pub data FrameError : Type 0 where
  widens_states : List String → FrameError
  no_states no_cooldown no_accepted_inlet : FrameError
  none_offerable : Dict ℕ → FrameError
  no_charge_kinds : Option String → FrameError

pub data Result {ℓ} (A : Type ℓ) : Type ℓ where
  ok : A → Result A
  err : FrameError → Result A

infixl 5 ◌>>=◌
abbrev pub ◌>>=◌ {ℓ κ} : {A : Type ℓ} {B : Type κ} → Result A → (A → Result B) → Result B
ok found >>= next = next found
err why >>= next = err why

-- The checks of `_serviceable_in`, on the states that are outside the default set.
unfoldable pub checked_states : List String → List String → Result (Vehicle → Bool)
unfolding serviceable_pred
checked_states (s ∷ unknown) states = err (widens_states (sort str_le (s ∷ unknown)))
checked_states [] [] = err no_states
checked_states [] (s ∷ states) = ok (serviceable_pred (s ∷ states))

-- `_serviceable_in`: states may only narrow the default set, and at least one is named.
unfoldable pub serviceable_in : List String → Result (Vehicle → Bool)
unfolding checked_states
serviceable_in states =
    checked_states (filter (λ s. not (elem s default_serviceable_states)) states) states

-- `serviceable_predicate`: the default set where no states are given.
unfoldable pub serviceable_predicate : Option (List String) → Result (Vehicle → Bool)
unfolding serviceable_in
serviceable_predicate none = ok (serviceable_pred default_serviceable_states)
serviceable_predicate (some states) = serviceable_in states

-- `_plannable_in`
unfoldable pub plannable_in : Option (List String) → Result (Vehicle → Bool)
unfolding serviceable_predicate vehicle_is_held
plannable_in states = do
  base ← serviceable_predicate states
  ok (λ v. base v && not (vehicle_is_held v))

-- Inversion of a successful step.
pub >>=-eq-ok {ℓ κ} :
    {A : Type ℓ} {B : Type κ} (first : Result A) (next : A → Result B) {last : B}
    → (first >>= next) ≡ ok last
    → (found : A) × (first ≡ ok found) × (next found ≡ ok last)
>>=-eq-ok (ok found) next h = (found, refl, h)
>>=-eq-ok (err why) next h = cc

pub ok-inj {ℓ} : {A : Type ℓ} {a b : A} → ok a ≡ ok b → a ≡ b
ok-inj h = cc
