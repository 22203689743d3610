-- ===== src/Proposer/Offer.antt =====
-- Which stalls the site offers this tick, and why not (proposer/forward_proposer.py:
-- `stall_is_free`, `stall_block_reason`, and the tally in `propose`).
pub mod Laws
use otto_q_core.Base.{
  ℕ, ◌+◌, String, Bool, false, not, ◌&&◌, Option, none, some, List, [], ◌∷◌, ltb, if◌then◌else◌,
  filter, elem, Dict, lookup, insert,
}
use otto_q_core.Base.Ascii.{lower}
use otto_q_core.Proposer.Frame.{Stall, text_true, flag_true, differs, text_or}
use Prim.Native.String.{◌++◌ as str_append}

-- `FREE_STALL_STATUS`
abbrev pub free_stall_status : String
free_stall_status = "available"

-- `NON_CHARGING_TYPES`
abbrev pub non_charging_types : List String
non_charging_types = "staging" ∷ []

unfoldable pub stall_is_free : Stall → Bool
stall_is_free st = if differs st.status free_stall_status then false else elim st.offerable [
  | some verdict ↦ flag_true verdict
  | none ↦ not (text_true st.vehicle_id)
]

-- The reasons of `stall_block_reason`; a status and a charger state keep their text.
pub data Reason : Type 0 where
  occupied not_free no_charger charger_stale reserved calendar_held not_offerable : Reason
  status charger : String → Reason

-- The text that the code returns for a reason.
unfoldable pub reason_text : Reason → String
reason_text occupied = "occupied"
reason_text (status s) = str_append "status_" (lower s)
reason_text not_free = "not_free"
reason_text no_charger = "no_charger"
reason_text (charger s) = str_append "charger_" (lower s)
reason_text charger_stale = "charger_stale"
reason_text reserved = "reserved"
reason_text calendar_held = "calendar_held"
reason_text not_offerable = "not_offerable"

-- The tail of `stall_block_reason`, for a frame that carries the door's facts.
pub door_reason : Stall → Reason
door_reason st =
    if not (text_true st.ocpp_charger_id)
    then no_charger
    else if differs st.charger_state "Available"
    then charger (text_or st.charger_state)
    else elim st.charger_fresh [
      | some false ↦ charger_stale
      | _ ↦
          if st.reservation_live
          then reserved
          else if text_true st.calendar_held_by
          then calendar_held
          else not_offerable
    ]

unfoldable pub stall_block_reason : Stall → Option Reason
unfolding stall_is_free door_reason
stall_block_reason st =
    if stall_is_free st
    then none
    else if text_true st.vehicle_id
    then some occupied
    else if differs st.status free_stall_status
    then some (status (text_or st.status))
    else elim st.offerable [ none ↦ some not_free | some _ ↦ some (door_reason st) ]

-- A stall that could charge something: its type charges and it has power.
unfoldable pub is_charge_stall : Stall → Bool
is_charge_stall st =
    not (elem st.type non_charging_types)
    && ltb 0 (elim st.connector_max_kw [ none ↦ 0 | some kw ↦ kw ])

-- `counts[k] = counts.get(k, 0) + 1`
abbrev pub bump : String → Dict ℕ → Dict ℕ
bump k d = insert k (elim (lookup k d) [ none ↦ 0 | some n ↦ n ] + 1) d

-- The loop over `charge_stalls` in `propose`.
pub tally_from : Dict ℕ → List Stall → Dict ℕ
unfolding stall_block_reason reason_text
tally_from counts [] = counts
tally_from counts (st ∷ sts) =
    tally_from
      (elim (stall_block_reason st) [ none ↦ counts | some r ↦ bump (reason_text r) counts ]) sts

unfoldable pub stalls_blocked : List Stall → Dict ℕ
unfolding is_charge_stall tally_from
stalls_blocked sts = tally_from [] (filter is_charge_stall sts)

-- `sum(counts.values())`
abbrev pub sum_values : Dict ℕ → ℕ
sum_values [] = 0
sum_values ((_, n) ∷ d) = n + sum_values d
