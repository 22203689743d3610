-- ===== src/Proposer/Offer/Laws.antt =====
-- Laws of the stall tests.
use otto_q_core.Base.{
  ℕ, ◌+◌, String, ◌≡◌, refl, ◌≢◌, ◌↔◌, ◌⊎◌, inl, inr, Bool, true, false, not, ◌&&◌, none, some,
  List, [], ◌∷◌, arith, eq_iff, Option-cases, length, filter, Dict,
}
use otto_q_core.Proposer.Frame.{Stall, text_true}
use otto_q_core.Proposer.Offer.{
  is_charge_stall, free_stall_status, stall_is_free, stall_block_reason, door_reason, bump,
  tally_from, sum_values, occupied, not_free, reason_text, stalls_blocked,
}

-- A stall is offered exactly when both layers would take it: its status is absent or
-- `available`, and the door's verdict is yes or, where the frame carries none, no vehicle is on it.
pub stall_is_free_iff :
    (st : Stall)
    → (stall_is_free st ≡ true) ↔ (
        ((st.status ≡ none) ⊎ (st.status ≡ some free_stall_status))
        × ((st.offerable ≡ some (some true))
            ⊎ ((st.offerable ≡ none) × (text_true st.vehicle_id ≡ false))))
unfolding stall_is_free
stall_is_free_iff st = elim (Option-cases st.status) [
  | inl absent ↦ ground arith
  | inr (s, e) ↦ ground (arith, eq_iff s "available")
]

-- A reason is given for every stall that is not free and for no other; `not_free` is never given;
-- a stall with a vehicle on it is `occupied`, whatever else holds of it.
pub stall_block_reason_total :
    (st : Stall)
    → ((stall_block_reason st ≡ none) ↔ (stall_is_free st ≡ true))
      × (stall_block_reason st ≢ some not_free)
      × (stall_is_free st ≡ false
          → text_true st.vehicle_id ≡ true
          → stall_block_reason st ≡ some occupied)
unfolding stall_block_reason stall_is_free door_reason
stall_block_reason_total st = (ground arith, ground arith, ground arith)

is_blocked : Stall → Bool
is_blocked st = elim (stall_block_reason st) [ none ↦ false | some _ ↦ true ]

sum_values-bump : (k : String) (d : Dict ℕ) → sum_values (bump k d) ≡ sum_values d + 1
sum_values-bump k [] = ground arith
sum_values-bump k ((j, n) ∷ d) = ground (arith, sum_values-bump k d)

sum_values-tally_from :
    (sts : List Stall) (d : Dict ℕ)
    → sum_values (tally_from d sts) ≡ sum_values d + length (filter is_blocked sts)
unfolding tally_from is_blocked
sum_values-tally_from [] d = omega arith
sum_values-tally_from (st ∷ sts) d = elim (Option-cases (stall_block_reason st)) [
  | inl free ↦ rw (free, tally_from, is_blocked) (sum_values-tally_from sts d)
  | inr (r, e) ↦
      rw (e, tally_from, is_blocked)
        (omega (
          arith,
          sum_values-tally_from sts (bump (reason_text r) d),
          sum_values-bump (reason_text r) d,
        ))
]

is_blocked_iff : (st : Stall) → is_blocked st ≡ not (stall_is_free st)
unfolding is_blocked stall_block_reason
is_blocked_iff st = ground arith

length-filter_twice :
    (sts : List Stall)
    → length (filter is_blocked (filter is_charge_stall sts))
      ≡ length (filter (λ st. is_charge_stall st && not (stall_is_free st)) sts)
length-filter_twice [] = refl
length-filter_twice (st ∷ sts) = ground (arith, is_blocked_iff st, length-filter_twice sts)

-- The tally by reason adds up to the number of charge-capable stalls that are not free.
pub sum_values-stalls_blocked :
    (sts : List Stall)
    → sum_values (stalls_blocked sts)
      ≡ length (filter (λ st. is_charge_stall st && not (stall_is_free st)) sts)
unfolding stalls_blocked
sum_values-stalls_blocked sts =
    omega (arith, sum_values-tally_from (filter is_charge_stall sts) [], length-filter_twice sts)
