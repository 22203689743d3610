-- ===== src/Intent/Learn/Taxonomy.antt =====
-- The refusal taxonomy and the reading of refusals (intent/learn.py: `REFUSAL_TAXONOMY`,
-- `_normalize`).

use otto_q_core.Base.{ℕ, suc, String, Bool, Option, none, some, List, [], ◌∷◌, elem, Dict, keys}

pub data RefusalKind : Type 0 where
  transient live_world solver_gap : RefusalKind

-- The feed that a code arrives on: the commands' column or the events' payload.
pub data Channel : Type 0 where
  commands_channel events_channel : Channel

pub record RefusalClass : Type 0 where
  pub kind : RefusalKind
  pub learned_constraint : Option String
  pub channel : Channel

abbrev pub refusal_class : RefusalKind → Option String → RefusalClass
refusal_class kind learned = record {
  kind = kind;
  learned_constraint = learned;
  channel = commands_channel;
}

-- `REFUSAL_TAXONOMY`
unfoldable pub refusal_taxonomy : Dict RefusalClass
refusal_taxonomy =
    ("target_occupied", refusal_class live_world (some "refresh_occupancy"))
    ∷ ("resource_faulted", refusal_class live_world (some "block_points"))
    ∷ ("target_unknown", refusal_class solver_gap (some "reconcile_frame"))
    ∷ ("vehicle_unresponsive", refusal_class live_world (some "refresh_vehicle_state"))
    ∷ ("vehicle_state_incompatible", refusal_class live_world (some "refresh_vehicle_state"))
    ∷ ("command_malformed", refusal_class solver_gap (some "fix_emitter"))
    ∷ (
      "no_capacity",
      record {
        kind = solver_gap;
        learned_constraint = some "tighten_capacity";
        channel = events_channel;
      },
    )
    ∷ ("superseded", refusal_class transient none)
    ∷ ("run_ended", refusal_class transient none)
    ∷ ("vehicle_declined", refusal_class live_world (some "vehicle_override"))
    ∷ []

-- A refusal as it is read; what is no text is none.
pub record Refusal : Type 0 where
  pub reason_code : Option String
  pub entity_id : Option String
  pub rule_code : Option String

-- A record with a code.
pub record Triple : Type 0 where
  pub code : String
  pub entity : Option String
  pub rule : Option String

-- One record before the triples of the rest and the number that could not be read.
unfoldable pub normalize_one : Option String → Refusal → List Triple × ℕ → List Triple × ℕ
normalize_one none r rest = (rest.0, suc rest.1)
normalize_one (some rc) r rest =
    (record { code = rc; entity = r.entity_id; rule = r.rule_code } ∷ rest.0, rest.1)

-- `_normalize`
unfoldable pub normalize : List Refusal → List Triple × ℕ
normalize [] = ([], 0)
normalize (r ∷ rs) = normalize_one r.reason_code r (normalize rs)

-- `rc in REFUSAL_TAXONOMY`
unfoldable pub is_known : String → Bool
is_known rc = elem rc (keys refusal_taxonomy)
