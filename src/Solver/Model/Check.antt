-- ===== src/Solver/Model/Check.antt =====
-- Checking an assignment against a model of CP-SAT's language (solvers/cpsat/model.py:
-- `solver.Solve`): a search that reports a solution only after this check keeps its promise.
use otto_q_core.Proposer.Measure.{peak_of}
use otto_q_core.Solver.Model.{
  Lit, Sum, Interval, Constraint, Apart, Reaches, Satisfies, at_most, is_max, is_min, is_difference,
  no_overlap, only_if, Assignment, value, is_present, demand, Holds, lit, negated, within, equal,
  interval, cumulative,
}
use otto_q_core.Plan.{Segment}
use otto_q_core.Proposer.Measure.Peak.{peak_of-le_iff, load}
use otto_q_core.Base.{
  ℕ, ◌+◌, ◌-◌, ◌≤◌, ◌≡◌, refl, inl, inr, Bool, true, false, not, ◌&&◌, ◌||◌, List, [], ◌∷◌, arith,
  leb, ◌==◌, if◌then◌else◌, Bool-cases, any, all, All, Pairwise,
}

module _ (σ : Assignment) where
  -- The intervals that are there, as segments of load.
  loads : List (Interval × ℕ) → List Segment
  loads [] = []
  loads ((iv, kw) ∷ rest) =
      let later = loads rest in
      if is_present σ iv
      then record {
        kw = kw;
        minutes = 0;
        start = σ iv.start;
        finish = σ iv.end;
        cold_start = false;
      }
        ∷ later
      else later

  forward : Segment → Bool
  forward s = leb s.start s.finish

  apart : Interval → Interval → Bool
  apart a b =
      not (is_present σ a && is_present σ b)
      || (leb (σ a.end) (σ b.start) || leb (σ b.end) (σ a.start))

  all_apart : List Interval → Bool
  all_apart [] = true
  all_apart (iv ∷ ivs) = all (apart iv) ivs && all_apart ivs

  is_true : Lit → Bool
  is_true (lit v) = σ v == 1
  is_true (negated v) = σ v == 0

  unfoldable pub check : Constraint → Bool
  unfolding loads forward apart all_apart is_true
  check (within v lo hi) = leb lo (σ v) && leb (σ v) hi
  check (at_most s t) = leb (value σ s) (value σ t)
  check (equal s t) = value σ s == value σ t
  check (is_max v ss) = all (λ s. leb (value σ s) (σ v)) ss && any (λ s. σ v == value σ s) ss
  check (is_min v ss) = all (λ s. leb (σ v) (value σ s)) ss && any (λ s. σ v == value σ s) ss
  check (is_difference v a b) = σ v == (σ a - σ b)
  check (interval iv) = not (is_present σ iv) || ((σ iv.start + value σ iv.size) == σ iv.end)
  check (no_overlap ivs) = all_apart ivs
  check (cumulative ds capacity) =
      all forward (loads ds) && leb (peak_of (loads ds)) (value σ capacity)
  check (only_if l c) = let inner = check c in not (is_true l) || inner

  load-demand : (t : ℕ) (ds : List (Interval × ℕ)) → load t (loads ds) ≡ demand σ t ds
  unfolding load loads
  load-demand t [] = refl
  load-demand t ((iv, kw) ∷ rest) = ground (arith, load-demand t rest)

  forward_sound : (ss : List Segment) → all forward ss ≡ true → All (λ s. s.start ≤ s.finish) ss
  unfolding forward
  forward_sound [] h = tt
  forward_sound (s ∷ ss) h = ground (arith, forward_sound ss)

  all_apart_sound : (ivs : List Interval) → all_apart ivs ≡ true → Pairwise (Apart σ) ivs
  unfolding all_apart apart
  all_apart_sound [] h = tt
  all_apart_sound (iv ∷ ivs) h = (from ivs (ground arith), all_apart_sound ivs (ground arith))
    where
      from : (js : List Interval) → all (apart iv) js ≡ true → All (Apart σ iv) js
      from [] e = tt
      from (j ∷ js) e = ((λ a b. ground arith), from js (ground arith))

  at_most-all :
      (n : ℕ) (ss : List Sum) → all (λ s. leb (value σ s) n) ss ≡ true → All (λ s. value σ s ≤ n) ss
  at_most-all n [] h = tt
  at_most-all n (s ∷ ss) h = ground (arith, at_most-all n ss)

  at_least-all :
      (n : ℕ) (ss : List Sum) → all (λ s. leb n (value σ s)) ss ≡ true → All (λ s. n ≤ value σ s) ss
  at_least-all n [] h = tt
  at_least-all n (s ∷ ss) h = ground (arith, at_least-all n ss)

  Reaches-any : (n : ℕ) (ss : List Sum) → any (λ s. n == value σ s) ss ≡ true → Reaches σ n ss
  Reaches-any n [] h = cc
  Reaches-any n (s ∷ ss) h = elim (Bool-cases (n == value σ s)) [
    | inl e ↦ inl (ground arith)
    | inr e ↦ inr (Reaches-any n ss (ground arith))
  ]

  check-Holds : (c : Constraint) → check c ≡ true → Holds σ c
  unfolding check is_true
  check-Holds (within v lo hi) h = ground arith
  check-Holds (at_most s t) h = ground arith
  check-Holds (equal s t) h = ground arith
  check-Holds (is_max v ss) h =
      (at_most-all (σ v) ss (ground arith), Reaches-any (σ v) ss (ground arith))
  check-Holds (is_min v ss) h =
      (at_least-all (σ v) ss (ground arith), Reaches-any (σ v) ss (ground arith))
  check-Holds (is_difference v a b) h = ground arith
  check-Holds (interval iv) h = λ e. ground arith
  check-Holds (no_overlap ivs) h = all_apart_sound ivs h
  check-Holds (cumulative ds capacity) h = λ t. omega (
    arith,
    load-demand t ds,
    (peak_of-le_iff (value σ capacity) (loads ds) (forward_sound (loads ds) (ground arith))).0
        (ground arith) t,
  )
  check-Holds (only_if (lit v) c) h = λ e. check-Holds c (ground arith)
  check-Holds (only_if (negated v) c) h = λ e. check-Holds c (ground arith)

  -- An assignment that passes the check satisfies the constraints.
  pub check-Satisfies : (cs : List Constraint) → all check cs ≡ true → Satisfies σ cs
  check-Satisfies [] h = tt
  check-Satisfies (c ∷ cs) h = (check-Holds c (ground arith), check-Satisfies cs (ground arith))
