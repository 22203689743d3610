-- ===== src/Tests/Adapters.antt =====
-- A robot's state and a charge detail record (adapters/vda5050/adapter.py, adapters/ocpi/adapter.py).
use otto_q_core.Base.{ℕ, ◌*◌, ◌/◌, ◌≡◌, refl, false, none, some, [], returns}
use otto_q_core.Adapters.{ServiceIntent}
use otto_q_core.Adapters.Vda5050.{ref_of, StateMessage, Order, identity_of, inbound, outbound}
use otto_q_core.Adapters.Vda5050.Addresses.{Addressed, outbound-inbound}
use otto_q_core.Adapters.Ocpi.{Floats, cdr_to_sdr, Cdr, sdr_to_cdr, text}
use otto_q_core.Adapters.Ocpi.Lossless.{sdr_to_cdr-cdr_to_sdr}

abbrev robot : StateMessage
robot = record {
  manufacturer = some "acme";
  serial_number = some "r/7";
  timestamp = some "2026-01-01T00:00:00Z";
  last_node_id = some "n1";
  last_node_sequence_id = none;
  order_id = none;
  order_update_id = none;
  header_id = none;
  version = some "2.0";
  driving = some false;
  paused = none;
  battery_charge = some 41_000;
  voltage = none;
  current = none;
  active_emergency_stop = some "NONE";
  field_violation = none;
  node_states = [];
}

abbrev go_charge : ServiceIntent
go_charge = record {
  asset_ref = "acme/r/7";
  operation_code = "charge_l2";
  service_point_ref = "p1";
  not_before = "t0";
  not_after = "t1";
  reason = "";
}

same_robot : go_charge.asset_ref ≡ (inbound robot).asset_ref
unfolding inbound identity_of ref_of
same_robot = refl

outbound-inbound_example :
    (o : Order) × (outbound go_charge ≡ returns o) × Addressed robot go_charge o
outbound-inbound_example = outbound-inbound robot go_charge same_robot refl refl

-- Numbers that are rounded down to a whole one.
abbrev rounded : Floats ℕ
rounded = record { times = λ a b. a * b; over = λ a b. a / b; sixty = 60 }

abbrev settled : Cdr ℕ
settled = record {
  id = text "c1";
  start_date_time = text "t0";
  end_date_time = text "t1";
  session_id = none;
  total_energy = some 31_500;
  total_cost = some 9_200;
  currency = text "USD";
  total_time = some 750;
  cdr_token = text "fleet";
  tariff_id = none;
  signed_data = none;
  last_updated = text "t2";
  cdr_location = some record { depot_id = text "d1"; stall_id = some "s4" };
}

sdr_to_cdr-cdr_to_sdr_example :
    sdr_to_cdr rounded (cdr_to_sdr rounded settled "charge" "av" "class") ≡ settled
sdr_to_cdr-cdr_to_sdr_example =
    sdr_to_cdr-cdr_to_sdr rounded settled "charge" "av" "class"
      (refl, refl, refl, refl, refl, refl, refl)
