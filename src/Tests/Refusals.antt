-- ===== src/Tests/Refusals.antt =====
-- A stuck charger among other refusals (intent/learn.py), and the theorems on it.
use otto_q_core.Base.{
  String, ◌≡◌, not, ◌&&◌, none, some, List, [], ◌∷◌, length, filter, any, All, elem, lookup,
}
use otto_q_core.Intent.Learn.{or_nought, reconcile_refusals, Settings}
use otto_q_core.Intent.Learn.Taxonomy.{is_known, Refusal}
use otto_q_core.Intent.Learn.Counts.{
  is_unread, known_times, reconcile_refusals-counts, carries, times,
}
use otto_q_core.Intent.Learn.Blocks.{WithinCap, reconcile_refusals-WithinCap}
use otto_q_core.Intent.Learn.Evidence.{IsWarranted, reconcile_refusals-Grounded}

abbrev fault : String → Refusal
fault entity = record {
  reason_code = some "resource_faulted";
  entity_id = some entity;
  rule_code = some "R7";
}

abbrev batch : List Refusal
batch =
    fault "p1"
    ∷ fault "p1"
    ∷ fault "p2"
    ∷ fault "p1"
    ∷ record { reason_code = some "drifted"; entity_id = none; rule_code = none }
    ∷ record { reason_code = none; entity_id = none; rule_code = none }
    ∷ []

abbrev settings : Settings
settings = record {
  entity_repeat_threshold = 2;
  capable_entities = ("block_points", 4) ∷ [];
  max_block_fraction = 500;
  run_id = none;
}

reconcile_refusals-counts_example :
    (or_nought (lookup "resource_faulted" (reconcile_refusals batch settings).counts)
      ≡ known_times (is_known "resource_faulted") (times "resource_faulted" batch))
    × (elem "resource_faulted" (reconcile_refusals batch settings).unknown_codes ≡ (
        not (is_known "resource_faulted")
        && any (λ r. carries "resource_faulted" r.reason_code) batch))
    × ((reconcile_refusals batch settings).unreadable
        ≡ length (filter (λ r. is_unread r.reason_code) batch))
reconcile_refusals-counts_example = reconcile_refusals-counts batch settings "resource_faulted"

reconcile_refusals-WithinCap_example :
    All (WithinCap settings) (reconcile_refusals batch settings).learned_constraints
reconcile_refusals-WithinCap_example = reconcile_refusals-WithinCap batch settings

reconcile_refusals-Grounded_example :
    All
      (λ c. All (IsWarranted 2 batch c.0) c.1)
      (reconcile_refusals batch settings).learned_constraints
reconcile_refusals-Grounded_example = reconcile_refusals-Grounded batch settings
