-- ===== src/Proposer/Batch/Laws.antt =====
-- The batch neither loses an asset nor keeps one twice (proposer/forward_proposer.py: `propose`).
use otto_q_core.Base.Sort.{sort, place}
use otto_q_core.Base.{
  ℕ, ◌+◌, ◌-◌, ◌≤◌, String, ◌≡◌, refl, ap, ◌∙◌, inl, inr, Bool, true, false, not, Option, none,
  some, List, [], ◌∷◌, ◌++◌, map, arith, eq_iff, leb, ◌==◌, str_eq, if◌then◌else◌, Bool-cases,
  length, filter, length-map, elem, IsDistinct, count, map-append,
}
use otto_q_core.Scenario.{Asset}
use otto_q_core.Proposer.Rows.{Reason, not_in_queue, outside_batch, entity, abstain}
use otto_q_core.Proposer.Batch.{
  keep_chosen, queue_le, urgency_le, split_at, Batch, aids, queued, take, drop, bounded, choose,
}

-- A sum over names: with weight 1 a length, with the weight of one name a count.
abbrev total : (String → ℕ) → List String → ℕ
total w [] = 0
total w (x ∷ xs) = w x + total w xs

module _ (w : String → ℕ) where
  total-append : (xs ys : List String) → total w (xs ++ ys) ≡ total w xs + total w ys
  total-append [] ys = omega arith
  total-append (x ∷ xs) ys = omega (arith, total-append xs ys)

  total-entity :
      (f : Asset → Reason) (xs : List Asset)
      → total w (map entity (map (λ a. abstain (Asset.aid a) (f a)) xs)) ≡ total w (aids xs)
  total-entity f [] = refl
  total-entity f (x ∷ xs) = ap (◌+◌ (w x.aid)) (total-entity f xs)

  total-filter :
      (p : Asset → Bool) (xs : List Asset)
      → total w (aids (filter p xs)) + total w (aids (filter (λ a. not (p a)) xs))
        ≡ total w (aids xs)
  total-filter p [] = refl
  total-filter p (x ∷ xs) = ground (arith, total-filter p xs)

  total-place :
      (le : Asset → Asset → Bool) (x : Asset) (xs : List Asset)
      → total w (aids (place le x xs)) ≡ w x.aid + total w (aids xs)
  total-place le x [] = refl
  total-place le x (y ∷ ys) = ground (arith, total-place le x ys)

  total-sort :
      (le : Asset → Asset → Bool) (xs : List Asset)
      → total w (aids (sort le xs)) ≡ total w (aids xs)
  total-sort le [] = refl
  total-sort le (x ∷ xs) = omega (arith, total-place le x (sort le xs), total-sort le xs)

  total-take :
      (n : ℕ) (xs : List Asset)
      → total w (aids (take n xs)) + total w (aids (drop n xs)) ≡ total w (aids xs)
  total-take n [] = refl
  total-take n (x ∷ xs) = ground (arith, total-take (n - 1) xs)

  -- A batch weighs what its kept and deferred assets weigh.
  abbrev weight : Batch → ℕ
  weight b = total w (aids b.kept) + total w (map entity b.deferred)

  weight-queued :
      (names : Option (List String)) (xs : List Asset)
      → weight (queued names xs) ≡ total w (aids xs)
  unfolding queued
  weight-queued none xs = omega arith
  weight-queued (some names) xs = omega (
    arith,
    total-filter (λ a. elem a.aid names) xs,
    total-entity (λ a. not_in_queue) (filter (λ a. not (elem a.aid names)) xs),
  )

  weight-split_at :
      (q : Bool) (n : ℕ) (b : Batch) (xs : List Asset)
      → weight (split_at q n b xs) ≡ total w (aids xs) + total w (map entity b.deferred)
  unfolding split_at
  weight-split_at q n b xs =
      let late : Asset → Reason = λ a. outside_batch n q (Asset.ready_by_min a) (Asset.soc a) in
      rw (map-append entity b.deferred (map (λ a. abstain (Asset.aid a) (late a)) (drop n xs))) (
        omega (
          arith,
          total-append (map entity b.deferred)
              (map entity (map (λ a. abstain (Asset.aid a) (late a)) (drop n xs))),
          total-entity late (drop n xs),
          total-take n xs,
        ))

  weight-bounded :
      (q : Bool) (le : Asset → Asset → Bool) (n : Option ℕ) (b : Batch)
      → weight (bounded q le n b) ≡ weight b
  unfolding bounded
  weight-bounded q le none b = refl
  weight-bounded q le (some n) b = elim (Bool-cases (leb (length b.kept) n)) [
    | inl fits ↦ rw fits refl
    | inr over ↦
        rw over (omega (arith, weight-split_at q n b (sort le b.kept), total-sort le b.kept))
  ]

  weight-choose :
      (names : Option (List String)) (n : Option ℕ) (xs : List Asset)
      → weight (choose names n xs) ≡ total w (aids xs)
  unfolding choose
  weight-choose none n xs =
      weight-bounded false urgency_le n (queued none xs) ∙ weight-queued none xs
  weight-choose (some names) n xs =
      weight-bounded true (queue_le names) n (queued (some names) xs)
      ∙ weight-queued (some names) xs

-- Lengths and counts as sums.
abbrev one : String → ℕ
one x = 1

abbrev hit : String → String → ℕ
hit k x = if str_eq k x then 1 else 0

total-one : (xs : List String) → total one xs ≡ length xs
total-one [] = refl
total-one (x ∷ xs) = omega (arith, total-one xs)

total-hit : (k : String) (xs : List String) → total (hit k) xs ≡ count k xs
total-hit k [] = refl
total-hit k (x ∷ xs) = ground (arith, total-hit k xs)

count-le_length : (k : String) (xs : List String) → count k xs ≤ length xs
count-le_length k [] = omega arith
count-le_length k (x ∷ xs) = ground (arith, count-le_length k xs)

count-absent : (k : String) (xs : List String) → elem k xs ≡ false → count k xs ≡ 0
count-absent k [] h = refl
count-absent k (x ∷ xs) h = ground (arith, count-absent k xs)

count-present : (k : String) (xs : List String) → elem k xs ≡ true → 1 ≤ count k xs
count-present k [] h = cc
count-present k (x ∷ xs) h = ground (arith, count-present k xs)

pub count-IsDistinct : (k : String) (xs : List String) → IsDistinct xs → count k xs ≤ 1
count-IsDistinct k [] d = omega arith
count-IsDistinct k (x ∷ xs) d =
    ground (arith, eq_iff k x, count-absent k xs, count-IsDistinct k xs d.1)

count-filter-elem :
    (k : String) (names : List String) (xs : List Asset)
    → count k (aids (filter (λ a. elem a.aid names) xs))
      ≡ (if elem k names then count k (aids xs) else 0)
count-filter-elem k names [] = ground arith
count-filter-elem k names (x ∷ xs) = ground (arith, eq_iff k x.aid, count-filter-elem k names xs)

length-aids : (xs : List Asset) → length (aids xs) ≡ length xs
length-aids xs = length-map (λ a. Asset.aid a) xs

-- For assets with different names, each one stays in the scenario or is deferred, not both.
pub keep_chosen-count :
    (names : Option (List String)) (n : Option ℕ) (xs : List Asset) (k : String)
    → IsDistinct (aids xs)
    → count k (aids (keep_chosen (choose names n xs).kept xs))
        + count k (map entity (choose names n xs).deferred)
      ≡ count k (aids xs)
unfolding keep_chosen
keep_chosen-count names n xs k d =
    let b = choose names n xs in
    let counted : count k (aids b.kept) + count k (map entity b.deferred) ≡ count k (aids xs) =
      omega (
        arith,
        weight-choose (hit k) names n xs,
        total-hit k (aids b.kept),
        total-hit k (map entity b.deferred),
        total-hit k (aids xs),
      ) in
    let sized : length (aids b.kept) + length (map entity b.deferred) ≡ length (aids xs) = omega (
      arith,
      weight-choose one names n xs,
      total-one (aids b.kept),
      total-one (map entity b.deferred),
      total-one (aids xs),
    ) in
    elim (Bool-cases (length b.kept == length xs)) [
      | inl all_kept ↦ rw all_kept (
          ground
            (arith, length-aids xs, length-aids b.kept, count-le_length k (map entity b.deferred)))
      | inr some_dropped ↦
          rw (some_dropped, count-filter-elem k (aids b.kept) xs)
            (ground (
              arith,
              count-IsDistinct k (aids xs) d,
              count-absent k (aids b.kept),
              count-present k (aids b.kept),
            ))
    ]
