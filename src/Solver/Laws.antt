-- ===== src/Solver/Laws.antt =====
-- Laws of `build_and_solve`.
use otto_q_core.Base.{
  ℕ, ◌≡◌, refl, sym, subst, ◌∙◌, ◌⊎◌, inl, inr, true, false, ◌&&◌, Option, none, some, leb,
  Bool-cases, if-true, if-false,
}
use otto_q_core.Scenario.{Scenario}
use otto_q_core.Solver.{
  rejection_saving_ceiling, rejection_penalty_of, IsSolution, CpSatLaws, Request, Result, ok, err,
  ◌>>=◌, has_solution, solve_or_retain, build_and_solve, retain, or_retain, lacks_ceiling,
}
use otto_q_core.Plan.{Status, Plan}

-- Inversion of a successful step.
pub >>=-eq-ok {ℓ κ} :
    {A : Type ℓ} {B : Type κ} (first : Result A) (next : A → Result B) {last : B}
    → (first >>= next) ≡ ok last
    → (found : A) × (first ≡ ok found) × (next found ≡ ok last)
>>=-eq-ok (ok found) next h = (found, refl, h)
>>=-eq-ok (err why) next h = cc

pub ok-inj {ℓ} : {A : Type ℓ} {a b : A} → ok a ≡ ok b → a ≡ b
ok-inj h = cc

-- A plan that `build_and_solve` returned is a solution, or the previous plan retained.
abbrev pub Comes : Scenario → Request → Plan → Type 0
Comes sc r p =
    IsSolution sc r p
    ⊎ ((s : Status) × (q : Plan) × (r.previous_plan ≡ some q) × (p ≡ retain s r q))

-- Where a plan came from: the search, which said that it is a solution, or the previous plan.
abbrev pub FromSearch : (Scenario → Request → Status × Plan) → Scenario → Request → Plan → Type 0
FromSearch cp_sat sc r p =
    ((has_solution (cp_sat sc r).0 ≡ true) × ((cp_sat sc r).1 ≡ p))
    ⊎ ((s : Status) × (q : Plan) × (r.previous_plan ≡ some q) × (p ≡ retain s r q))

or_retain_from :
    (cp_sat : Scenario → Request → Status × Plan) (sc : Scenario) (s : Status) (r : Request)
    (o : Option Plan) {p : Plan}
    → r.previous_plan ≡ o
    → or_retain s r o ≡ ok p
    → FromSearch cp_sat sc r p
unfolding or_retain
or_retain_from cp_sat sc s r none e h = cc
or_retain_from cp_sat sc s r (some q) e h = inr (s, q, e, sym (ok-inj h))

solve_or_retain-FromSearch :
    (cp_sat : Scenario → Request → Status × Plan) (sc : Scenario) (r : Request) {p : Plan}
    → solve_or_retain cp_sat sc r ≡ ok p
    → FromSearch cp_sat sc r p
unfolding solve_or_retain
solve_or_retain-FromSearch cp_sat sc r h = elim (Bool-cases (has_solution (cp_sat sc r).0)) [
  | inl solved ↦ inl (solved, ok-inj (rw solved at h))
  | inr unsolved ↦
      or_retain_from cp_sat sc (cp_sat sc r).0 r r.previous_plan refl (rw unsolved at h)
]

pub build_and_solve-FromSearch :
    (cp_sat : Scenario → Request → Status × Plan) (sc : Scenario) (r : Request) {p : Plan}
    → build_and_solve cp_sat sc r ≡ ok p
    → FromSearch cp_sat sc r p
unfolding build_and_solve
build_and_solve-FromSearch cp_sat sc r h = elim (Bool-cases (lacks_ceiling r)) [
  | inl lacks ↦ cc (rw lacks at h)
  | inr has ↦
      elim (Bool-cases (
        r.budget.allow_rejection
        && leb (rejection_penalty_of sc) (rejection_saving_ceiling sc r.mode))) [
          | inl low ↦ cc (rw (has, low) at h)
          | inr high ↦ solve_or_retain-FromSearch cp_sat sc r (rw (has, high) at h)
        ]
]

-- Whatever `build_and_solve` returns is a solution of the model, or the previous plan retained.
pub build_and_solve-Comes :
    (cp_sat : Scenario → Request → Status × Plan)
    → CpSatLaws cp_sat
    → (sc : Scenario) (r : Request) {p : Plan} → build_and_solve cp_sat sc r ≡ ok p
    → Comes sc r p
build_and_solve-Comes cp_sat laws sc r h = elim (build_and_solve-FromSearch cp_sat sc r h) [
  | inl (solved, same_plan) ↦ inl (subst (IsSolution sc r) same_plan (laws sc r solved))
  | inr kept ↦ inr kept
]

or_retain_total :
    (s : Status) (r : Request) (o : Option Plan) (p : Plan)
    → o ≡ some p
    → (q : Plan) × (or_retain s r o ≡ ok q)
unfolding or_retain
or_retain_total s r none p e = cc
or_retain_total s r (some q) p e = (retain s r q, refl)

lacks_ceiling-some : (r : Request) {n : ℕ} → r.max_tardy_total ≡ some n → lacks_ceiling r ≡ false
unfolding lacks_ceiling
lacks_ceiling-some r e = rw e refl

-- With a plan to retain, a tardiness ceiling and a sufficient penalty, `build_and_solve` returns.
module _ (cp_sat : Scenario → Request → Status × Plan) (sc : Scenario) where
  pub build_and_solve-total :
      (r : Request) (p : Plan) (n : ℕ)
      → r.previous_plan ≡ some p
      → r.max_tardy_total ≡ some n
      → (r.budget.allow_rejection
          && leb (rejection_penalty_of sc) (rejection_saving_ceiling sc r.mode))
        ≡ false
      → (q : Plan) × (build_and_solve cp_sat sc r ≡ ok q)
  unfolding build_and_solve lacks_ceiling solve_or_retain
  build_and_solve-total r p n held ceiling priced =
      let asked = if-false _ _ (lacks_ceiling-some r ceiling) ∙ if-false _ _ priced in
      elim (Bool-cases (has_solution (cp_sat sc r).0)) [
        | inl solved ↦ ((cp_sat sc r).1, asked ∙ if-true _ _ solved)
        | inr unsolved ↦
            let (q, kept) = or_retain_total (cp_sat sc r).0 r r.previous_plan p held in
            (q, asked ∙ if-false _ _ unsolved ∙ kept)
      ]
