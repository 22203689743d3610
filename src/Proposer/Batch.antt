-- ===== src/Proposer/Batch.antt =====
-- Which of the assets one fire plans (proposer/forward_proposer.py: the batch of `propose`): the
-- kernel's queue, where the caller has it, and the bound on the batch.
pub mod Laws
use otto_q_core.Base.Sort.{sort}
use otto_q_core.Base.{
  ℕ, ◌+◌, ◌-◌, String, Bool, true, false, not, ◌&&◌, ◌||◌, Option, none, some, List, [], ◌∷◌, ◌++◌,
  map, ltb, leb, ◌==◌, str_eq, str_le, if◌then◌else◌, length, filter, elem,
}
use otto_q_core.Scenario.{Asset}
use otto_q_core.Proposer.Rows.{not_in_queue, outside_batch, Row, abstain}

pub record Batch : Type 0 where
  pub kept : List Asset
  pub deferred : List Row

abbrev pub aids : List Asset → List String
aids = map λ a. a.aid

-- `{str(aid): i for i, aid in enumerate(priority)}`: the last index of a name.
pub last_index : String → List String → Option ℕ
last_index k [] = none
last_index k (x ∷ xs) = elim (last_index k xs) [
  | some i ↦ some (i + 1)
  | none ↦ if str_eq k x then some 0 else none
]

-- `order[name]`, of a name that the queue has.
pub place_of : List String → Asset → ℕ
unfolding last_index
place_of names a = elim (last_index a.aid names) [ none ↦ 0 | some n ↦ n ]

-- The order by place and then by name.
pub queue_le : List String → Asset → Asset → Bool
unfolding place_of
queue_le names a b =
    ltb (place_of names a) (place_of names b)
    || (place_of names a == place_of names b && str_le a.aid b.aid)

-- The order by deadline, then charge level, then name.
pub urgency_le : Asset → Asset → Bool
urgency_le a b =
    ltb a.ready_by_min b.ready_by_min
    || (a.ready_by_min == b.ready_by_min
        && (ltb a.soc b.soc || (a.soc == b.soc && str_le a.aid b.aid)))

-- The part that `priority` decides.
pub queued : Option (List String) → List Asset → Batch
queued none assets = record { kept = assets; deferred = [] }
queued (some names) assets = record {
  kept = filter (λ a. elem a.aid names) assets;
  deferred =
      map (λ a. abstain (Asset.aid a) not_in_queue) (filter (λ a. not (elem a.aid names)) assets);
}

abbrev pub take {ℓ} : {A : Type ℓ} → ℕ → List A → List A
take n [] = []
take n (x ∷ xs) = if n == 0 then [] else x ∷ take (n - 1) xs

abbrev pub drop {ℓ} : {A : Type ℓ} → ℕ → List A → List A
drop n [] = []
drop n (x ∷ xs) = if n == 0 then x ∷ xs else drop (n - 1) xs

-- The part that `max_assets` decides, on the ranked assets.
pub split_at : Bool → ℕ → Batch → List Asset → Batch
split_at by_queue n b ranked = record {
  kept = take n ranked;
  deferred =
      b.deferred
      ++ map
          (λ a.
            abstain (Asset.aid a) (outside_batch n by_queue (Asset.ready_by_min a) (Asset.soc a)))
          (drop n ranked);
}

pub bounded : Bool → (Asset → Asset → Bool) → Option ℕ → Batch → Batch
unfolding split_at
bounded by_queue le none b = b
bounded by_queue le (some n) b =
    if leb (length b.kept) n then b else split_at by_queue n b (sort le b.kept)

unfoldable pub choose : Option (List String) → Option ℕ → List Asset → Batch
unfolding queued bounded urgency_le queue_le
choose none max_assets assets = bounded false urgency_le max_assets (queued none assets)
choose (some names) max_assets assets =
    bounded true (queue_le names) max_assets (queued (some names) assets)

-- The assets that stay in the scenario, in its own order.
unfoldable pub keep_chosen : List Asset → List Asset → List Asset
keep_chosen kept assets =
    if length kept == length assets then assets else filter (λ a. elem a.aid (aids kept)) assets
