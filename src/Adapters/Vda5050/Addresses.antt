-- ===== src/Adapters/Vda5050/Addresses.antt =====
-- An order goes to the robot that reported (adapters/vda5050/adapter.py).
use otto_q_core.Adapters.{get_or, ServiceIntent}
use otto_q_core.Base.Split.{has_char, before_sep-append, after_sep-append}
use otto_q_core.Base.{◌≡◌, refl, ap, ◌∙◌, false, some, str_eq, lookup, ◌>>=◌, returns}
use otto_q_core.Adapters.Vda5050.{
  StateMessage, Order, identity_of, order_of, Vda5050Identity, ref_of, from_asset_ref, inbound,
  outbound,
}

-- The parts of an identity that a reference can carry: no slash in the manufacturer, and a serial.
abbrev IsReferable : Vda5050Identity → Type 0
IsReferable i = (has_char b'/' i.manufacturer ≡ false) × (str_eq i.serial_number "" ≡ false)

from_asset_ref-ref_of :
    (i : Vda5050Identity) → IsReferable i → from_asset_ref (ref_of i) ≡ returns i
unfolding from_asset_ref ref_of
from_asset_ref-ref_of i h =
    rw (after_sep-append "/" i.manufacturer i.serial_number h.0)
      (rw (before_sep-append "/" i.manufacturer i.serial_number h.0) (rw h.1 refl))

-- The order is to the robot of the message, and asks for the operation of the intent where and when
-- the intent wants it.
pub record Addressed (m : StateMessage) (i : ServiceIntent) (o : Order) : Type 0 where
  pub same_manufacturer : o.manufacturer ≡ get_or "" m.manufacturer
  pub same_serial : o.serial_number ≡ get_or "" m.serial_number
  pub same_place : o.node_id ≡ i.service_point_ref
  pub same_operation :
      lookup "ottoq.operationCode" o.action.action_parameters ≡ some i.operation_code
  pub not_before : lookup "ottoq.notBefore" o.action.action_parameters ≡ some i.not_before
  pub not_after : lookup "ottoq.notAfter" o.action.action_parameters ≡ some i.not_after

order_of-Addressed :
    (m : StateMessage) (i : ServiceIntent) → Addressed m i (order_of i (identity_of m))
unfolding order_of identity_of
order_of-Addressed m i = record {
  same_manufacturer = refl;
  same_serial = refl;
  same_place = refl;
  same_operation = refl;
  not_before = refl;
  not_after = refl;
}

-- An order reaches the robot that reported. For a robot whose manufacturer has no slash in it and
-- whose serial number is not empty, an intent for the asset of its state message becomes, without an
-- error, an order to exactly the manufacturer and serial number of the message, with the operation,
-- the service point and the two times of the intent.
pub outbound-inbound :
    (m : StateMessage) (i : ServiceIntent)
    → i.asset_ref ≡ (inbound m).asset_ref
    → has_char b'/' (get_or "" m.manufacturer) ≡ false
    → str_eq (get_or "" m.serial_number) "" ≡ false
    → (o : Order) × (outbound i ≡ returns o) × Addressed m i o
unfolding outbound inbound identity_of
outbound-inbound m i e slash serial = (
  order_of i (identity_of m),
  ap (λ r. r >>= λ ident. returns (order_of i ident))
      (ap from_asset_ref e ∙ from_asset_ref-ref_of (identity_of m) (slash, serial)),
  order_of-Addressed m i,
)
