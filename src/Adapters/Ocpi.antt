-- ===== src/Adapters/Ocpi.antt =====
-- The OCPI adapter's settlement mapping (adapters/ocpi/adapter.py): charge detail records and service
-- detail records. An energy, a cost or a time is a float of Python, whose type and two operations are
-- parameters: nothing is assumed of how they round.
pub mod Lossless
use otto_q_core.Base.{String, Option, none, some}

-- The floats, with the operations that the conversions use, and the literal `60.0`.
pub record Floats (Float : Type 0) : Type 0 where
  pub times : Float → Float → Float
  pub over : Float → Float → Float
  pub sixty : Float

-- A key of a record that should hold a text: absent, null or a text.
pub data TextField : Type 0 where
  absent null : TextField
  text : String → TextField

-- `str(cdr.get(key, ""))`
pub str_of : TextField → String
str_of absent = ""
str_of null = "None"
str_of (text s) = s

-- `cdr_location`, where its keys are read.
pub record CdrLocation : Type 0 where
  pub depot_id : TextField
  pub stall_id : Option String

-- A charge detail record. A key that may be null is an option, since one that is absent reads alike.
pub record Cdr (Float : Type 0) : Type 0 where
  pub id : TextField
  pub start_date_time : TextField
  pub end_date_time : TextField
  pub session_id : Option String
  pub total_energy : Option Float
  pub total_cost : Option Float
  pub currency : TextField
  pub total_time : Option Float
  pub cdr_token : TextField
  pub tariff_id : Option String
  pub signed_data : Option String
  pub last_updated : TextField
  pub cdr_location : Option CdrLocation

pub record SdrView (Float : Type 0) : Type 0 where
  pub sdr_id : String
  pub started_at : String
  pub ended_at : String
  pub ocpp_session_id : Option String
  pub energy_kwh : Option Float
  pub total_cost_usd : Option Float
  pub currency : String
  pub duration_min : Option Float
  pub fleet_operator_id : String
  pub tariff_id : Option String
  pub signature : Option String
  pub issued_at : String
  pub depot_id : String
  pub stall_id : Option String
  pub operation_code : String
  pub pack_id : String
  pub asset_class_code : String

-- `cdr.get("cdr_location") or {}`
pub location_of : Option CdrLocation → CdrLocation
location_of none = record { depot_id = absent; stall_id = none }
location_of (some loc) = loc

module _ {Float : Type 0} (floats : Floats Float) where
  -- `_min_to_ocpi_time`, in hours
  pub min_to_ocpi_time : Option Float → Option Float
  min_to_ocpi_time none = none
  min_to_ocpi_time (some duration_min) = some (floats.over duration_min floats.sixty)

  -- `_ocpi_time_to_min`, from hours
  pub ocpi_time_to_min : Option Float → Option Float
  ocpi_time_to_min none = none
  ocpi_time_to_min (some total_time) = some (floats.times total_time floats.sixty)

  pub sdr_to_cdr : SdrView Float → Cdr Float
  sdr_to_cdr sdr = record {
    id = text sdr.sdr_id;
    start_date_time = text sdr.started_at;
    end_date_time = text sdr.ended_at;
    session_id = sdr.ocpp_session_id;
    total_energy = sdr.energy_kwh;
    total_cost = sdr.total_cost_usd;
    currency = text sdr.currency;
    total_time = min_to_ocpi_time sdr.duration_min;
    cdr_token = text sdr.fleet_operator_id;
    tariff_id = sdr.tariff_id;
    signed_data = sdr.signature;
    last_updated = text sdr.issued_at;
    cdr_location = some record { depot_id = text sdr.depot_id; stall_id = sdr.stall_id };
  }

  pub cdr_to_sdr : Cdr Float → String → String → String → SdrView Float
  cdr_to_sdr cdr operation_code pack_id asset_class_code =
      let loc = location_of cdr.cdr_location in
      record {
        sdr_id = str_of cdr.id;
        started_at = str_of cdr.start_date_time;
        ended_at = str_of cdr.end_date_time;
        ocpp_session_id = cdr.session_id;
        energy_kwh = cdr.total_energy;
        total_cost_usd = cdr.total_cost;
        currency = str_of cdr.currency;
        duration_min = ocpi_time_to_min cdr.total_time;
        fleet_operator_id = str_of cdr.cdr_token;
        tariff_id = cdr.tariff_id;
        signature = cdr.signed_data;
        issued_at = str_of cdr.last_updated;
        depot_id = str_of loc.depot_id;
        stall_id = loc.stall_id;
        operation_code = operation_code;
        pack_id = pack_id;
        asset_class_code = asset_class_code;
      }
