-- ===== src/Recall/Cycle.antt =====
-- What a cycle records (recall/recall_decision.py: `run_recall_cycle`).
use otto_q_core.Base.{◌≡◌, Bool, true, not, ◌&&◌, ◌||◌, [], ◌∷◌, ◌++◌, if◌then◌else◌}
use otto_q_core.Recall.{RecallDecision, RecallRecord, Resolve, World}
use otto_q_core.Recall.Inputs.{AssetState, WorkSideSignals, SiteForecast, RecallOutcome}

module _ (impl : RecallDecision) (asset : AssetState) (work : WorkSideSignals)
    (site : SiteForecast) where
  -- The record of a decision: what it was taken on, and whether the work side refused it.
  abbrev pub record_of : World → Bool → RecallOutcome → RecallRecord
  record_of w refused o = record {
    refused = refused;
    sim_run_id = w.sim_run_id;
    implementation = impl.name;
    asset = asset;
    work = work;
    site = site;
    decision = o;
  }

  -- The call that asks to solve again for the asset, once its mission is over.
  abbrev pub resolve_of : Resolve
  resolve_of = record { asset_id = asset.asset_id; retry_after_min = work.mission_min_remaining }

  -- What a cycle adds for a decision, and what it hands back.
  abbrev pub Settled : Bool → RecallOutcome → World → RecallOutcome × World → Type 0
  Settled accepted o w after =
      (after.1.records ≡ w.records ++ (if o.recall then record_of w (not accepted) o ∷ [] else []))
      × (after.1.resolves
          ≡ w.resolves ++ (if o.recall && not accepted then resolve_of ∷ [] else []))
      × (after.0.recall ≡ (o.recall && accepted))
      × ((not o.recall || accepted) ≡ true → after.0 ≡ o)
