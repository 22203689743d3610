-- ===== src/Proposer/Points.antt =====
-- The stalls of a frame as points of the scenario (proposer/forward_proposer.py: the first loop of
-- `frame_to_scenario`). `connectors` has an entry for each point, its stall type and its plugs,
-- where the code joins the plugs of a type in one set.
use otto_q_core.Proposer.Offer.{reason_text, stall_block_reason, is_charge_stall, bump}
use otto_q_core.Proposer.Inlets.{accepted_inlets, capability}
use otto_q_core.Base.{
  ℕ, ◌/◌, String, true, false, not, none, some, List, [], ◌∷◌, ◌++◌, str_eq, if◌then◌else◌, Dict,
}
use otto_q_core.Proposer.Frame.{Stall}
use otto_q_core.Proposer.Held.{
  no_cooldown, no_accepted_inlet, none_offerable, Result, ◌>>=◌, ok, err,
}
use otto_q_core.Scenario.{Site, ServicePoint}

pub record Offered : Type 0 where
  pub points : List ServicePoint
  pub connectors : List (String × List String)
  pub blocked : Dict ℕ

pub nothing_offered : Offered
nothing_offered = record { points = []; connectors = []; blocked = [] }

-- The declared minimum gap: a dcfc point needs the site's cooldown.
pub gap_of : Site → String → Result ℕ
gap_of site kind = elim (str_eq kind "dcfc") [
  | true ↦ elim site.dcfc_cooldown_min [ none ↦ err no_cooldown | some gap ↦ ok gap ]
  | false ↦ ok 0
]

pub point_of : Stall → List String → ℕ → ServicePoint
point_of st inlets gap = record {
  id = st.id;
  kind = capability st.type inlets;
  kw = elim st.connector_max_kw [ none ↦ 0 | some kw ↦ kw ] / 1000;
  min_gap_min = some gap;
  stall_type = st.type;
}

-- A stall that is offered, once its plugs are known.
unfoldable pub offer_free : Site → Offered → Stall → List String → Result Offered
unfolding gap_of point_of
offer_free site acc st [] = ok acc
offer_free site acc st (inlet ∷ inlets) = gap_of site st.type >>= λ gap. ok (record acc {
  points = acc.points ++ point_of st (inlet ∷ inlets) gap ∷ [];
  connectors = acc.connectors ++ (st.type, inlet ∷ inlets) ∷ [];
})

unfoldable pub offer : Site → Offered → Stall → Result Offered
unfolding offer_free
offer site acc st = if not (is_charge_stall st) then ok acc else elim (stall_block_reason st) [
  | some r ↦ ok (record acc { blocked = bump (reason_text r) acc.blocked })
  | none ↦ offer_free site acc st (accepted_inlets st)
]

unfoldable pub offers_from : Site → Offered → List Stall → Result Offered
unfolding offer
offers_from site acc [] = ok acc
offers_from site acc (st ∷ sts) = offer site acc st >>= λ acc'. offers_from site acc' sts

-- The refusal of a frame without a point.
pub some_points : Offered → Result Offered
some_points o = elim o.points [
  | _ ∷ _ ↦ ok o
  | [] ↦ elim o.blocked [ [] ↦ err no_accepted_inlet | _ ∷ _ ↦ err (none_offerable o.blocked) ]
]

unfoldable pub offered_points : Site → List Stall → Result Offered
unfolding offers_from some_points nothing_offered
offered_points site sts = offers_from site nothing_offered sts >>= some_points
