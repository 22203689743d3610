-- ===== src/Solver/Model.antt =====
-- The language of CP-SAT (the calls of `cp_model.CpModel` in solvers/cpsat/model.py) with the
-- meaning that its documentation gives it. The library is not part of the repository.
--
-- A variable is named by what it stands for: the position of the asset in the scenario, of the
-- candidate point among the asset's candidates and of the segment in the charge; so that, as in
-- CP-SAT, two calls never make the same variable. Every variable is at least 0 here: the code's
-- only other one, the signed overlap with the on-peak window, is written as a truncated difference.
pub mod Check
use otto_q_core.Base.{
  ℕ, ◌+◌, ◌-◌, ◌≤◌, ◌≡◌, ◌⊎◌, Bool, true, ◌&&◌, Option, none, some, List, [], ◌∷◌, ltb, leb, ◌==◌,
  if◌then◌else◌, All, Pairwise,
}

-- The work behind the charge, each with the move to it.
pub data Work : Type 0 where
  wash inspect : Work

pub data Var : Type 0 where
  stay served charge_start charge_end finished tardy charged_tardy charged_finish moves : ℕ → Var
  chosen occupied_until occupied_for : ℕ → ℕ → Var
  seg_start seg_end overlap_from overlap_to overlap gated : ℕ → ℕ → ℕ → Var
  op_start op_end : ℕ → ℕ → Var
  work_start work_end move_start move_end : Work → ℕ → Var
  work_at gap_until : Work → ℕ → ℕ → Var
  peak_excess site_peak : Var

abbrev pub Assignment : Type 0
Assignment = Var → ℕ

-- A Boolean variable or its negation.
pub data Lit : Type 0 where
  lit negated : Var → Lit

-- A sum of variables and a constant.
pub record Sum : Type 0 where
  pub terms : List Var
  pub constant : ℕ

abbrev pub var : Var → Sum
var v = record { terms = v ∷ []; constant = 0 }

abbrev pub num : ℕ → Sum
num n = record { terms = []; constant = n }

abbrev pub plus : Var → ℕ → Sum
plus v n = record { terms = v ∷ []; constant = n }

-- An interval; with a literal it is optional.
pub record Interval : Type 0 where
  pub start : Var
  pub size : Sum
  pub end : Var
  pub present : Option Var

pub data Constraint : Type 0 where
  within : Var → ℕ → ℕ → Constraint
  at_most equal : Sum → Sum → Constraint
  is_max is_min : Var → List Sum → Constraint
  is_difference : Var → Var → Var → Constraint
  interval : Interval → Constraint
  no_overlap : List Interval → Constraint
  cumulative : List (Interval × ℕ) → Sum → Constraint
  only_if : Lit → Constraint → Constraint

module _ (σ : Assignment) where
  abbrev pub total : List Var → ℕ
  total [] = 0
  total (v ∷ vs) = σ v + total vs

  abbrev pub value : Sum → ℕ
  value s = total s.terms + s.constant

  abbrev pub IsTrue : Lit → Type 0
  IsTrue (lit v) = σ v ≡ 1
  IsTrue (negated v) = σ v ≡ 0

  abbrev pub has : Option Var → Bool
  has none = true
  has (some v) = σ v == 1

  abbrev pub is_present : Interval → Bool
  is_present iv = has iv.present

  -- One ends before the other starts, if both are there.
  abbrev pub Apart : Interval → Interval → Type 0
  Apart a b =
      is_present a ≡ true → is_present b ≡ true → (σ a.end ≤ σ b.start) ⊎ (σ b.end ≤ σ a.start)

  -- The demand at a time.
  abbrev pub demand : ℕ → List (Interval × ℕ) → ℕ
  demand t [] = 0
  demand t ((iv, kw) ∷ rest) =
      (if is_present iv && (leb (σ iv.start) t && ltb t (σ iv.end)) then kw else 0) + demand t rest

  abbrev pub Reaches : ℕ → List Sum → Type 0
  Reaches n [] = ⊥
  Reaches n (s ∷ ss) = (n ≡ value s) ⊎ Reaches n ss

  abbrev pub Holds : Constraint → Type 0
  Holds (within v lo hi) = (lo ≤ σ v) × (σ v ≤ hi)
  Holds (at_most s t) = value s ≤ value t
  Holds (equal s t) = value s ≡ value t
  Holds (is_max v ss) = All (λ s. value s ≤ σ v) ss × Reaches (σ v) ss
  Holds (is_min v ss) = All (λ s. σ v ≤ value s) ss × Reaches (σ v) ss
  Holds (is_difference v a b) = σ v ≡ σ a - σ b
  Holds (interval iv) = is_present iv ≡ true → σ iv.start + value iv.size ≡ σ iv.end
  Holds (no_overlap ivs) = Pairwise Apart ivs
  Holds (cumulative ds capacity) = (t : ℕ) → demand t ds ≤ value capacity
  Holds (only_if l c) = IsTrue l → Holds c

  -- What the search says of its assignment.
  abbrev pub Satisfies : List Constraint → Type 0
  Satisfies = All Holds
