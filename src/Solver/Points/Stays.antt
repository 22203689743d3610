-- ===== src/Solver/Points/Stays.antt =====
-- The operations of an asset are covered by its intervals (solvers/cpsat/model.py: `occ`, the bays
-- of the wash and of the inspection, and `_point_gap_interval`).
use otto_q_core.Solver.Build.Charge.{
  one_if_served, candidate_constraints, chain_constraints, occupancy, occupancies,
}
use otto_q_core.Solver.Build.Jobs.{Input, Candidate, cool}
use otto_q_core.Solver.Build.Finish.{
  work_pins, bay_occupancies, work_constraints, work_interval, gap_interval, work_occupancy,
  bay_constraints, declared_gap, needs, bays,
}
use otto_q_core.Solver.Points.Apartness.{Embeds-nil, is_at, Embeds, Covers, done, both, spare, away}
use otto_q_core.Solver.Build.{bays_of, intervals_at}
use otto_q_core.Solver.Model.{
  Work, work_start, work_end, work_at, Interval, Satisfies, charge_end, Assignment, Holds, stay,
  chosen,
}
use otto_q_core.Solver.Extract.{bay_of, work_op, work_ops, beside_ops, charge_ops, charge_op}
use otto_q_core.Plan.{Op}
use otto_q_core.Scenario.{ServicePoint, Asset}
use otto_q_core.Base.{
  ℕ, suc, ◌≤◌, String, ◌≡◌, refl, sym, ap, ◌∙◌, inl, inr, true, false, Option, some, List, [], ◌∷◌,
  ◌++◌, arith, ◌==◌, str_eq, Bool-cases, if-true, if-false, All, All-split,
}

-- The points of that name declare at least this gap.
abbrev pub Rests : ℕ → String → ServicePoint → Type 0
Rests gap id p = str_eq p.id id ≡ true → gap ≤ declared_gap p

pub intervals_at-append :
    (id : String) (xs ys : List (String × Interval))
    → intervals_at id (xs ++ ys) ≡ intervals_at id xs ++ intervals_at id ys
unfolding intervals_at
intervals_at-append id [] ys = refl
intervals_at-append id ((pid, iv) ∷ xs) ys = elim (Bool-cases (str_eq pid id)) [
  | inl e ↦ rw e (ap (◌∷◌ iv) (intervals_at-append id xs ys))
  | inr e ↦ rw e (intervals_at-append id xs ys)
]

declared_gap-le-cool : (inp : Input) (c : Candidate) → declared_gap c.point ≤ cool inp c
unfolding cool
declared_gap-le-cool inp c = ground arith

module _ (inp : Input) (σ : Assignment) (id : String) (gap : ℕ) where
  is_at-away :
      (o : Op) (pid : String) → o.point ≡ some pid → str_eq pid id ≡ false → is_at id gap o ≡ false
  is_at-away o pid place e = ground arith

  at-point :
      (o : Op) (pid : String) → o.point ≡ some pid → is_at id gap o ≡ true → str_eq pid id ≡ true
  at-point o pid place h = ground arith

  -- A covered operation, or one elsewhere, with its interval, or one of another point.
  module _ {ops : List Op} (ivs : List (String × Interval))
      (rest : Embeds σ id gap ops (intervals_at id ivs)) where
    taken :
        (o : Op) (pid : String) (iv : Interval)
        → o.point ≡ some pid
        → Covers σ id gap o iv
        → Embeds σ id gap (o ∷ ops) (intervals_at id ((pid, iv) ∷ ivs))
    unfolding intervals_at
    taken o pid iv place c = elim (Bool-cases (str_eq pid id)) [
      | inl e ↦ rw e (both o iv c rest)
      | inr e ↦ rw e (away o (is_at-away o pid place e) rest)
    ]

    idle : (pid : String) (iv : Interval) → Embeds σ id gap ops (intervals_at id ((pid, iv) ∷ ivs))
    unfolding intervals_at
    idle pid iv = elim (Bool-cases (str_eq pid id)) [
      | inl e ↦ rw e (spare iv rest)
      | inr e ↦ rw e rest
    ]

  module _ (a : Asset) (n : ℕ) where
    -- The stay lasts beyond the charge, and the point is taken for it and the gap.
    occupancy-Covers :
        (j : ℕ) (c : Candidate)
        → Rests gap id c.point
        → σ (charge_end n) ≤ σ (stay n)
        → (σ (chosen n j) == 1) ≡ true
        → Satisfies σ (candidate_constraints inp a n j c)
        → Covers σ id gap (charge_op σ n j c) (occupancy inp a n j)
    unfolding charge_op occupancy candidate_constraints
    occupancy-Covers j c rests stays e (_, (_, (until, (_, (_, (_, (ends, _))))))) at_id =
        let is_one : σ (chosen n j) ≡ 1 = ground arith in
        (e, refl, omega (arith, until is_one, ends is_one, rests at_id, declared_gap-le-cool inp c))

    charge_op-point : (j : ℕ) (c : Candidate) → (charge_op σ n j c).point ≡ some c.point.id
    unfolding charge_op
    charge_op-point j c = refl

    pub charge_ops-Embeds :
        (j : ℕ) (cs : List Candidate)
        → All (λ c. Rests gap id (Candidate.point c)) cs
        → σ (charge_end n) ≤ σ (stay n)
        → Satisfies σ (chain_constraints inp a n j cs)
        → Embeds σ id gap (charge_ops σ n j cs) (intervals_at id (occupancies inp a n j cs))
    unfolding charge_ops occupancies chain_constraints intervals_at
    charge_ops-Embeds j [] r stays h = done
    charge_ops-Embeds j (c ∷ cs) r stays h =
        let parts = All-split (Holds σ) (candidate_constraints inp a n j c) _ h in
        let rest = charge_ops-Embeds (suc j) cs r.1 stays parts.1 in
        elim (Bool-cases (σ (chosen n j) == 1)) [
          | inl e ↦ rw e (
              taken _ rest (charge_op σ n j c) c.point.id (occupancy inp a n j)
                (charge_op-point j c) (occupancy-Covers j c r.0 stays e parts.0))
          | inr e ↦ rw e (idle _ rest c.point.id (occupancy inp a n j))
        ]

    pub beside_ops-Embeds :
        (point : Option String) (k : ℕ) (ops : List String)
        → Embeds σ id gap (beside_ops σ n point k ops) []
    unfolding beside_ops
    beside_ops-Embeds point k [] = done
    beside_ops-Embeds point k (op ∷ ops) = away _ refl (beside_ops-Embeds point (suc k) ops)

    module _ (w : Work) where
      -- The bay is taken for the work and the gap that the bay declares.
      work_occupancy-Covers :
          (o : Op) (j : ℕ) (p : ServicePoint)
          → Rests gap id p
          → o.point ≡ some p.id
          → o.start ≡ σ (work_start w n)
          → o.finish ≡ σ (work_end w n)
          → (σ (work_at w n j) == 1) ≡ true
          → (ps : List ServicePoint) → Satisfies σ (bay_constraints inp a n w j (p ∷ ps))
          → Covers σ id gap o (work_occupancy inp a n w j p)
      unfolding work_occupancy work_interval gap_interval bay_constraints
      work_occupancy-Covers o j p rests place starts ends e ps (_, (spans, later)) at_id =
          let rest : gap ≤ declared_gap p = rests (at-point o p.id place at_id) in
          elim (Bool-cases (declared_gap p == 0)) [
            | inl none_declared ↦ rw none_declared (e, sym starts, ground arith)
            | inr declared ↦ rw declared (
                let held = rw declared at later in
                (e, sym starts, omega (arith, spans e, held.1.0 e, ends, starts, rest)))
          ]

      later_bays :
          (j : ℕ) (p : ServicePoint) (ps : List ServicePoint)
          → Satisfies σ (bay_constraints inp a n w j (p ∷ ps))
          → Satisfies σ (bay_constraints inp a n w (suc j) ps)
      unfolding bay_constraints
      later_bays j p ps (_, (_, h)) = (All-split (Holds σ) _ _ h).1

      bay_occupancies-Embeds :
          (o : Op) (j : ℕ) (ps : List ServicePoint)
          → All (Rests gap id) ps
          → o.point ≡ bay_of σ w n j ps
          → o.start ≡ σ (work_start w n)
          → o.finish ≡ σ (work_end w n)
          → Satisfies σ (bay_constraints inp a n w j ps)
          → Embeds σ id gap (o ∷ []) (intervals_at id (bay_occupancies inp a n w j ps))
      unfolding bay_occupancies bay_of intervals_at
      bay_occupancies-Embeds o j [] r place starts ends h = away o (ground arith) done
      bay_occupancies-Embeds o j (p ∷ ps) r place starts ends h =
          elim (Bool-cases (σ (work_at w n j) == 1)) [
            | inl e ↦
                taken _
                  (Embeds-nil σ id gap (intervals_at id (bay_occupancies inp a n w (suc j) ps))) o
                  p.id (work_occupancy inp a n w j p) (place ∙ if-true _ _ e)
                  (work_occupancy-Covers o j p r.0 (place ∙ if-true _ _ e) starts ends e ps h)
            | inr e ↦
                idle _
                  (bay_occupancies-Embeds o (suc j) ps r.1 (place ∙ if-false _ _ e) starts ends
                    (later_bays j p ps h))
                  p.id (work_occupancy inp a n w j p)
          ]

      work_op-point : (work_op inp σ w a n).point ≡ bay_of σ w n 0 (bays inp a n w)
      unfolding work_op
      work_op-point = refl

      bays_held :
          needs a w ≡ true
          → Satisfies σ (work_constraints inp a n w)
          → Satisfies σ (bay_constraints inp a n w 0 (bays inp a n w))
      unfolding work_constraints
      bays_held e h =
          let (_, (_, (_, (_, (_, (_, (_, rest))))))) = rw e at h in
          let pinned_or_bays = (All-split (Holds σ) (one_if_served inp a n _) _ rest).1 in
          (All-split (Holds σ) (work_pins inp a n w (bays inp a n w)) _ pinned_or_bays).1

      -- The work of an asset, with the bays that it may take.
      pub work_ops-Embeds :
          All (Rests gap id) (bays inp a n w)
          → Satisfies σ (work_constraints inp a n w)
          → Embeds σ id gap (work_ops inp σ w a n) (intervals_at id (bays_of inp a n w))
      unfolding work_ops work_op bays_of work_constraints intervals_at
      work_ops-Embeds r h = elim (Bool-cases (needs a w)) [
        | inl e ↦ rw e (
            bay_occupancies-Embeds (work_op inp σ w a n) 0 (bays inp a n w) r work_op-point refl
              refl (bays_held e h))
        | inr e ↦ rw e done
      ]
