-- ===== src/Adapters.antt =====
-- What passes the adapter boundary (adapters/base.py): facts inward, decided intents outward.
pub mod Vda5050
pub mod Ocpi
use otto_q_core.Base.{ℕ, String, Bool, Option, none, some, List}

-- Charge levels and energies are in thousandths.
pub record AssetFact : Type 0 where
  pub asset_ref : String
  pub observed_at : String
  pub soc_pct : Option ℕ
  pub faulted : Option Bool
  pub blocked : Option Bool
  pub position_ref : Option String
  pub extra : List (String × String)

pub record ServiceIntent : Type 0 where
  pub asset_ref : String
  pub operation_code : String
  pub service_point_ref : String
  pub not_before : String
  pub not_after : String
  pub reason : String

-- `message.get(key, default)`
abbrev pub get_or {ℓ} : {A : Type ℓ} → A → Option A → A
get_or d none = d
get_or d (some x) = x
