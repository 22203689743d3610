-- ===== src/Proposer/Frame.antt =====
-- The rows of a decision frame as `proposer/forward_proposer.py` reads them.
--
-- A field that the code reads by `row.get(k)` is an `Option`, `none` for an absent key and for a
-- null. A field whose key's presence is itself a fact (`KEY in row`) is an `Option (Option _)`, the
-- outer one for the key. A flag that is only tested for truth is a `Bool`. Percentages and powers
-- are naturals in thousandths; text in such a field, which `float` may or may not read, is
-- outside the model, and a value that cannot be read is `none`.
use otto_q_core.Base.{ℕ, String, Bool, false, not, Option, none, some, List, str_eq}

pub record Stall : Type 0 where
  pub id : String
  pub type : String
  pub status : Option String
  pub vehicle_id : Option String
  pub offerable : Option (Option Bool)
  pub ocpp_charger_id : Option String
  pub charger_state : Option String
  pub charger_fresh : Option Bool
  pub reservation_live : Bool
  pub calendar_held_by : Option String
  pub connector_type : Option String
  pub supported_inlet_types : List (Option String)
  pub connector_max_kw : Option ℕ

pub record Vehicle : Type 0 where
  pub id : String
  pub state : String
  pub soc : Option ℕ
  pub target_soc : Option ℕ
  pub class_code : Option String
  pub inlet_type : Option String
  pub inlet_max_kw : Option ℕ
  pub reserved_stall_id : Option String
  pub has_live_booking : Bool
  pub holds_charge_place : Option (Option Bool)
  pub has_live_holds_tick_proposal : Option (Option Bool)
  pub occupies_charge_stall_unbooked : Bool

-- The `selector` block: `none` where it is absent or is no dict, then its `facts_version` where
-- `int` can read it.
pub record Frame : Type 0 where
  pub stalls : List Stall
  pub vehicles : List Vehicle
  pub selector : Option (Option ℕ)

-- The text of a value that is known to be there.
abbrev pub text_or : Option String → String
text_or none = ""
text_or (some s) = s

-- Truth of an optional text: null and the empty text are false.
abbrev pub text_true : Option String → Bool
text_true none = false
text_true (some s) = not (str_eq s "")

-- Truth of a nullable flag.
abbrev pub flag_true : Option Bool → Bool
flag_true none = false
flag_true (some b) = b

-- `x is not None and str(x) != wanted`
abbrev pub differs : Option String → String → Bool
differs none wanted = false
differs (some s) wanted = not (str_eq s wanted)

-- `frame_facts_version`
unfoldable pub frame_facts_version : Frame → Option ℕ
frame_facts_version f = elim f.selector [ none ↦ none | some version ↦ version ]
