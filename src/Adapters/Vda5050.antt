-- ===== src/Adapters/Vda5050.antt =====
-- The VDA 5050 adapter (adapters/vda5050/adapter.py): a robot's state as a fact, an intent as an order.
--
-- A message's key that may be absent is an option; values that are only passed on are their texts.
pub mod Addresses
use Prim.Native.Char.{code}
use Prim.Native.String.{◌++◌ as str_append}
use otto_q_core.Base.Split.{before_sep, after_sep}
use otto_q_core.Base.{
  ℕ, String, Bool, true, false, not, ◌&&◌, ◌||◌, Option, none, some, List, [], ◌∷◌, ◌++◌, ◌==◌,
  str_eq, if◌then◌else◌, Dict, lookup, Raises, ◌>>=◌, raises, returns,
}
use otto_q_core.Adapters.{get_or, AssetFact, ServiceIntent}

pub record Vda5050Identity : Type 0 where
  pub manufacturer : String
  pub serial_number : String

-- `Vda5050Identity.asset_ref`
unfoldable pub ref_of : Vda5050Identity → String
ref_of i = str_append i.manufacturer (String.◌∷◌ "/" i.serial_number)

-- The `ValueError` of `from_asset_ref`, with the reference.
pub data RefError : Type 0 where
  no_serial : String → RefError

-- `asset_ref.partition("/")`.
pub from_asset_ref : String → Raises RefError Vda5050Identity
from_asset_ref asset_ref =
    let serial = after_sep b'/' asset_ref in
    if str_eq serial ""
    then raises (no_serial asset_ref)
    else returns record { manufacturer = before_sep b'/' asset_ref; serial_number = serial }

pub record ActionState : Type 0 where
  pub action_id : Option String
  pub action_type : Option String
  pub action_state : Option String

-- A `/state` message.
pub record StateMessage : Type 0 where
  pub manufacturer : Option String
  pub serial_number : Option String
  pub timestamp : Option String
  pub last_node_id : Option String
  pub last_node_sequence_id : Option String
  pub order_id : Option String
  pub order_update_id : Option String
  pub header_id : Option String
  pub version : Option String
  pub driving : Option Bool
  pub paused : Option Bool
  pub battery_charge : Option ℕ
  pub voltage : Option String
  pub current : Option String
  pub active_emergency_stop : Option String
  pub field_violation : Option Bool
  pub node_states : List (List ActionState)

unfoldable pub identity_of : StateMessage → Vda5050Identity
identity_of m = record {
  manufacturer = get_or "" m.manufacturer;
  serial_number = get_or "" m.serial_number;
}

-- An emergency stop other than NONE, or a field violation.
pub is_faulted : StateMessage → Bool
is_faulted m =
    not (str_eq (get_or "NONE" m.active_emergency_stop) "NONE") || get_or false m.field_violation

-- Paused, or not driving.
pub is_blocked : StateMessage → Bool
is_blocked m = get_or false m.paused || not (get_or false m.driving)

-- `if key in message: extra.append(...)`
pub carried : String → Option String → List (String × String)
carried key none = []
carried key (some v) = (key, v) ∷ []

pub starts_with : String → String → Bool
starts_with String.[] t = true
starts_with (String.◌∷◌ c s) String.[] = false
starts_with (String.◌∷◌ c s) (String.◌∷◌ d t) = code c == code d && starts_with s t

pub is_present : Option String → Bool
is_present none = false
is_present (some v) = true

-- `str(None)` is the text `None`.
pub action_of : ActionState → List (String × String)
action_of a =
    if starts_with "ottoq." (get_or "" a.action_type) || is_present a.action_id
    then ((str_append "action:" (get_or "None" a.action_id), get_or "None" a.action_state) ∷ [])
    else []

pub actions_of : List ActionState → List (String × String)
actions_of [] = []
actions_of (a ∷ as_) = action_of a ++ actions_of as_

pub node_actions : List (List ActionState) → List (String × String)
node_actions [] = []
node_actions (n ∷ ns) = actions_of n ++ node_actions ns

pub extra_of : StateMessage → List (String × String)
extra_of m =
    carried "last_node_sequence_id" m.last_node_sequence_id
    ++ carried "order_id" m.order_id
    ++ carried "order_update_id" m.order_update_id
    ++ carried "header_id" m.header_id
    ++ carried "protocol_version_reported" m.version
    ++ carried "battery_voltage_v" m.voltage
    ++ carried "battery_current_a" m.current
    ++ node_actions m.node_states

-- `inbound`: one message, one fact.
unfoldable pub inbound : StateMessage → AssetFact
inbound m = record {
  asset_ref = ref_of (identity_of m);
  observed_at = get_or "" m.timestamp;
  soc_pct = m.battery_charge;
  faulted = some (is_faulted m);
  blocked = some (is_blocked m);
  position_ref = m.last_node_id;
  extra = extra_of m;
}

-- `OPERATION_TO_ACTION_TYPE`
pub operation_to_action_type : Dict String
operation_to_action_type =
    ("charge_dcfc", "ottoq.startCharging")
    ∷ ("charge_l2", "ottoq.startCharging")
    ∷ ("battery_swap", "ottoq.batterySwap")
    ∷ ("opportunity_charge", "ottoq.startCharging")
    ∷ ("inspection", "ottoq.presentForInspection")
    ∷ ("park", "ottoq.park")
    ∷ []

-- `SERVICE_BLOCKING_TYPE`
abbrev pub service_blocking_type : String
service_blocking_type = "HARD"

pub record Action : Type 0 where
  pub action_id : String
  pub action_type : String
  pub blocking_type : String
  pub action_parameters : List (String × String)

pub record Order : Type 0 where
  pub manufacturer : String
  pub serial_number : String
  pub timestamp : String
  pub order_id : String
  pub node_id : String
  pub released : Bool
  pub action : Action

pub order_id_of : ServiceIntent → String
order_id_of i = str_append "ottoq:" (
    str_append i.asset_ref
      (str_append ":" (str_append i.operation_code (str_append ":" i.not_before))))

pub order_of : ServiceIntent → Vda5050Identity → Order
order_of i ident = record {
  manufacturer = ident.manufacturer;
  serial_number = ident.serial_number;
  timestamp = i.not_before;
  order_id = order_id_of i;
  node_id = i.service_point_ref;
  released = true;
  action = record {
    action_id = str_append (order_id_of i) "#a0";
    action_type =
        get_or (str_append "ottoq." i.operation_code)
          (lookup i.operation_code operation_to_action_type);
    blocking_type = service_blocking_type;
    action_parameters =
        ("ottoq.operationCode", i.operation_code)
        ∷ ("ottoq.notBefore", i.not_before)
        ∷ ("ottoq.notAfter", i.not_after)
        ∷ ("ottoq.reason", i.reason)
        ∷ [];
  };
}

-- `outbound`
pub outbound : ServiceIntent → Raises RefError Order
outbound i = from_asset_ref i.asset_ref >>= λ ident. returns (order_of i ident)
