-- ===== src/Solver/Timing/Finishing.antt =====
-- What the model makes of an asset that is served: its wash, its inspection, the moves to them, and
-- when it is ready (solvers/cpsat/model.py: `build_and_solve`).

use otto_q_core.Solver.Build.{need_flow}
use otto_q_core.Solver.Build.Charge.{one_if_served}
use otto_q_core.Solver.Build.Jobs.{Input}
use otto_q_core.Solver.Build.Finish.{
  finish_candidates, ready_constraints, move_interval, work_pins, work_constraints, work_interval,
  bay_constraints, bay_lits, needs, bays, before,
}
use otto_q_core.Solver.Model.{
  Sum, Var, move_start, move_end, Work, Satisfies, work_start, work_end, work_at, Assignment, total,
  value, Holds, stay, finished, served, interval, var, wash, inspect, tardy,
}
use otto_q_core.Scenario.{ServicePoint, Asset}
use otto_q_core.Base.{
  ℕ, suc, ◌+◌, ◌≤◌, ◌≡◌, refl, ap, inl, inr, Bool, true, List, [], ◌∷◌, arith, ◌==◌, if◌then◌else◌,
  Bool-cases, if-true, if-false, All-split,
}

module _ (inp : Input) (σ : Assignment) (a : Asset) (n : ℕ) where
  abbrev pub IsServed : Type 0
  IsServed = inp.asked.budget.allow_rejection ≡ true → σ (served n) ≡ 1

  -- With one bay taken, the work lasts its minutes.
  bay-spans :
      (w : Work) (j : ℕ) (ps : List ServicePoint)
      → Satisfies σ (bay_constraints inp a n w j ps)
      → 1 ≤ total σ (bay_lits inp a n w j ps)
      → σ (work_start w n) ≤ σ (work_end w n)
  unfolding bay_lits bay_constraints work_interval
  bay-spans w j [] h one = ground arith
  bay-spans w j (p ∷ ps) (domain, (spans, later)) one = elim (Bool-cases (σ (work_at w n j) == 1)) [
    | inl e ↦ omega (arith, spans e)
    | inr e ↦ bay-spans w (suc j) ps (All-split (Holds σ) _ _ later).1 (ground arith)
  ]

  -- Of the literals of a served asset one is chosen.
  one-chosen : (vs : List Var) → IsServed → Satisfies σ (one_if_served inp a n vs) → 1 ≤ total σ vs
  unfolding one_if_served
  one-chosen vs s h = elim (Bool-cases inp.asked.budget.allow_rejection) [
    | inl e ↦ let held = rw e at h in omega (arith, held.0 (s e))
    | inr e ↦ let held = rw e at h in omega (arith, held.0)
  ]

  -- A move that is made takes its minutes.
  move-spans :
      (w : Work)
      → IsServed
      → Holds σ (interval (move_interval inp a n w))
      → σ (move_start w n) + inp.sc.site.move_duration_min ≡ σ (move_end w n)
  unfolding move_interval
  move-spans w s h = elim (Bool-cases inp.asked.budget.allow_rejection) [
    | inl e ↦ omega (arith, h (rw e (ground (arith, s e))))
    | inr e ↦ omega (arith, h (rw e refl))
  ]

  -- What the constraints of the work give a served asset.
  pub work-held :
      (w : Work)
      → IsServed
      → needs a w ≡ true
      → Satisfies σ (work_constraints inp a n w)
      → (σ (before inp a n w) + inp.sc.site.move_duration_min ≤ σ (work_start w n))
        × (σ (work_start w n) ≤ σ (work_end w n))
  unfolding work_constraints
  work-held w s e h =
      let (_, (_, (_, (_, (move, (leaves_after, (arrives, rest))))))) = rw e at h in
      let chosen_bay =
        All-split (Holds σ) (one_if_served inp a n (bay_lits inp a n w 0 (bays inp a n w))) _
          rest in
      let spans = (All-split (Holds σ) (work_pins inp a n w (bays inp a n w)) _ chosen_bay.1).1 in
      (
        omega (arith, move-spans w s move, leaves_after, arrives),
        bay-spans w 0 (bays inp a n w) spans (one-chosen _ s chosen_bay.0),
      )

  -- When an asset is ready.
  pub ready-held :
      Satisfies σ (ready_constraints inp a n (need_flow inp.asked))
      → (σ (stay n) ≤ σ (finished n))
        × (needs a wash ≡ true → σ (work_end wash n) ≤ σ (finished n))
        × (needs a inspect ≡ true → σ (work_end inspect n) ≤ σ (finished n))
        × (σ (finished n) ≤ a.ready_by_min + σ (tardy n))
  unfolding ready_constraints finish_candidates
  ready-held (_, (maximum, (_, (late, _)))) =
      let works = maximum.0.1 in
      let both = All-split (λ s. value σ s ≤ σ (finished n)) (washed (needs a wash)) _ works in
      (
        omega (arith, maximum.0.0),
        (λ e. let held = rw e at both.0 in omega (arith, held.0)),
        (λ e. let held = rw e at both.1 in omega (arith, held.0)),
        omega (arith, late),
      )
    where
      washed : Bool → List Sum
      washed b = if b then var (work_end wash n) ∷ [] else []

  pub inspect-later :
      IsServed
      → needs a inspect ≡ true
      → Satisfies σ (work_constraints inp a n wash)
      → Satisfies σ (work_constraints inp a n inspect)
      → σ (stay n) + inp.sc.site.move_duration_min ≤ σ (work_start inspect n)
  unfolding before needs
  inspect-later s e hw hi = elim (Bool-cases a.needs_wash) [
    | inl first ↦
        let washing = work-held wash s first hw in
        let inspecting = work-held inspect s e hi in
        let at = if-true (work_end wash n) (stay n) first in
        omega (arith, washing.0, washing.1, inspecting.0, ap σ at)
    | inr only ↦
        let inspecting = work-held inspect s e hi in
        let at = if-false (work_end wash n) (stay n) only in omega (arith, inspecting.0, ap σ at)
  ]
