-- ===== src/Solver/Build/Charge.antt =====
-- The constraints of an asset's charge (solvers/cpsat/model.py: the loop over the candidates in
-- `build_and_solve`, the choice among them, and the pin of work that has started). `AddHint` only
-- suggests where to search, and constrains nothing.
use otto_q_core.Solver.Build.Jobs.{Input, Candidate, pinned, cool}
use otto_q_core.Solver.Segments.{ChargeSegment}
use otto_q_core.Solver.Model.{
  Var, Interval, Constraint, charge_start, charge_end, occupied_until, occupied_for, seg_start,
  seg_end, overlap_from, overlap_to, at_most, is_max, is_min, is_difference, only_if, var, num,
  plus, stay, served, chosen, overlap, gated, lit, negated, within, equal, interval,
}
use otto_q_core.Plan.{Op}
use otto_q_core.Scenario.{Asset}
use otto_q_core.Base.{
  ℕ, zero, suc, ◌+◌, ◌-◌, min, String, Bool, false, ◌&&◌, Option, none, some, List, [], ◌∷◌, ◌++◌,
  ltb, str_eq, if◌then◌else◌, length, elem,
}

unfoldable pub seg_interval : ℕ → ℕ → ℕ → ChargeSegment → Interval
seg_interval n j i seg = record {
  start = seg_start n j i;
  size = num seg.minutes;
  end = seg_end n j i;
  present = some (chosen n j);
}

-- A segment starts where the one before it ended.
unfoldable pub joins : ℕ → ℕ → ℕ → List Constraint
joins n j zero = []
joins n j (suc i) =
    only_if (lit (chosen n j)) (equal (var (seg_start n j (suc i))) (var (seg_end n j i))) ∷ []

-- The overlap with the on-peak window, clamped to the horizon; 0 unless the candidate is chosen.
unfoldable pub onpeak : Input → ℕ → ℕ → ℕ → List Constraint
onpeak inp n j i = elim inp.sc.site.onpeak_window_min [
  | none ↦ []
  | some (w0, w1) ↦
      let h = inp.sc.horizon_min in
      if ltb (min w0 h) (min w1 h)
      then within (overlap_from n j i) 0 h
        ∷ within (overlap_to n j i) 0 h
        ∷ is_max (overlap_from n j i) (var (seg_start n j i) ∷ num (min w0 h) ∷ [])
        ∷ is_min (overlap_to n j i) (var (seg_end n j i) ∷ num (min w1 h) ∷ [])
        ∷ is_difference (overlap n j i) (overlap_to n j i) (overlap_from n j i)
        ∷ within (overlap n j i) 0 h
        ∷ within (gated n j i) 0 h
        ∷ only_if (lit (chosen n j)) (equal (var (gated n j i)) (var (overlap n j i)))
        ∷ only_if (negated (chosen n j)) (equal (var (gated n j i)) (num 0))
        ∷ []
      else []
]

-- `p["id"] == prev["point"]`
unfoldable pub is_place : Op → String → Bool
is_place o id = elim o.point [ none ↦ false | some at ↦ str_eq id at ]

module _ (inp : Input) (a : Asset) (n : ℕ) where
  unfoldable pub seg_constraints : ℕ → ℕ → List ChargeSegment → List Constraint
  seg_constraints j i [] = []
  seg_constraints j i (seg ∷ segs) =
      within (seg_start n j i) a.arrival_min inp.sc.horizon_min
      ∷ within (seg_end n j i) a.arrival_min inp.sc.horizon_min
      ∷ interval (seg_interval n j i seg)
      ∷ (joins n j i ++ (onpeak inp n j i ++ seg_constraints j (suc i) segs))

  -- The point is taken from the start of the charge to the end of the stay and the gap behind it.
  unfoldable pub occupancy : ℕ → Interval
  occupancy j = record {
    start = seg_start n j 0;
    size = var (occupied_for n j);
    end = occupied_until n j;
    present = some (chosen n j);
  }

  unfoldable pub candidate_constraints : ℕ → Candidate → List Constraint
  candidate_constraints j c =
      within (chosen n j) 0 1
      ∷ within (occupied_until n j) 0 (inp.sc.horizon_min + cool inp c)
      ∷ only_if (lit (chosen n j)) (equal (var (occupied_until n j)) (plus (stay n) (cool inp c)))
      ∷ within (occupied_for n j) 0 (inp.sc.horizon_min + cool inp c)
      ∷ interval (occupancy j)
      ∷ only_if (lit (chosen n j)) (equal (var (charge_start n)) (var (seg_start n j 0)))
      ∷ only_if (lit (chosen n j))
          (equal (var (charge_end n)) (var (seg_end n j (length c.segs - 1))))
      ∷ seg_constraints j 0 c.segs

  unfoldable pub chain_constraints : ℕ → List Candidate → List Constraint
  chain_constraints j [] = []
  chain_constraints j (c ∷ cs) = candidate_constraints j c ++ chain_constraints (suc j) cs

  unfoldable pub lits : ℕ → List Candidate → List Var
  lits j [] = []
  lits j (c ∷ cs) = chosen n j ∷ lits (suc j) cs

  -- The power that each segment of each candidate would draw.
  unfoldable pub seg_power : ℕ → ℕ → List ChargeSegment → List (Interval × ℕ)
  seg_power j i [] = []
  seg_power j i (seg ∷ segs) = (seg_interval n j i seg, seg.kw) ∷ seg_power j (suc i) segs

  unfoldable pub power : ℕ → List Candidate → List (Interval × ℕ)
  power j [] = []
  power j (c ∷ cs) = seg_power j 0 c.segs ++ power (suc j) cs

  unfoldable pub occupancies : ℕ → List Candidate → List (String × Interval)
  occupancies j [] = []
  occupancies j (c ∷ cs) = (c.point.id, occupancy j) ∷ occupancies (suc j) cs

  -- One candidate if the asset is served, none if it is not.
  unfoldable pub one_if_served : List Var → List Constraint
  one_if_served vs =
      if inp.asked.budget.allow_rejection
      then only_if (lit (served n)) (equal (record { terms = vs; constant = 0 }) (num 1))
        ∷ only_if (negated (served n)) (equal (record { terms = vs; constant = 0 }) (num 0))
        ∷ []
      else equal (record { terms = vs; constant = 0 }) (num 1) ∷ []

  -- There is a literal for being served only with rejection on.
  unfoldable pub served_domain : List Constraint
  served_domain = if inp.asked.budget.allow_rejection then within (served n) 0 1 ∷ [] else []

  -- Without a candidate nothing on the charge can be refused, and the stay is anchored at arrival.
  unfoldable pub choice : List Candidate → List Constraint
  choice [] =
      (if inp.asked.budget.allow_rejection then equal (var (served n)) (num 1) ∷ [] else [])
      ++ (equal (var (charge_start n)) (num a.arrival_min)
          ∷ equal (var (charge_end n)) (num a.arrival_min)
          ∷ [])
  choice (c ∷ cs) = one_if_served (lits 0 (c ∷ cs))

  -- The served set of an earlier pass.
  unfoldable pub is_required : Bool
  is_required =
      inp.asked.budget.allow_rejection
      && elim inp.asked.require_served [ none ↦ false | some names ↦ elem a.aid names ]

  unfoldable pub floor : List Constraint
  floor = if is_required then equal (var (served n)) (num 1) ∷ [] else []

  unfoldable pub pins : Option Op → ℕ → List Candidate → List Constraint
  pins none j cs = []
  pins (some o) j [] = []
  pins (some o) j (c ∷ cs) =
      (if is_place o c.point.id
        then equal (var (chosen n j)) (num 1) ∷ equal (var (seg_start n j 0)) (num o.start) ∷ []
        else [])
      ++ pins (some o) (suc j) cs

  unfoldable pub charge_constraints : List Candidate → List Constraint
  charge_constraints cs =
      within (stay n) 0 inp.sc.horizon_min
      ∷ within (charge_start n) 0 inp.sc.horizon_min
      ∷ within (charge_end n) 0 inp.sc.horizon_min
      ∷ at_most (num a.arrival_min) (var (charge_start n))
      ∷ (served_domain
          ++ (choice cs
              ++ (floor ++ (pins (pinned inp a.aid "charge") 0 cs ++ chain_constraints 0 cs))))
