-- ===== src/Solver/Pinned.antt =====
-- Work that has started keeps its point and its start (solvers/cpsat/model.py: `pinned`).
use otto_q_core.Solver.Solution.Held.{own_held}
use otto_q_core.Solver.Solution.Forward.{own-charge, charge-choice}
use otto_q_core.Solver.Solution.Power.{asset_plan-cases}
use otto_q_core.Solver.Build.{CpModel, own_of, build_model, Block, block, blocks}
use otto_q_core.Solver.Build.Charge.{
  is_place, one_if_served, served_domain, charge_constraints, lits, choice, pins,
}
use otto_q_core.Solver.Build.Jobs.{Input, Candidate, pinned, candidates}
use otto_q_core.Solver.Model.{
  Holds, seg_start, Satisfies, Assignment, total, chosen, served, wash, inspect,
}
use otto_q_core.Solver.Extract.{
  Found, op_le, plan_le, beside_ops, point_of_first, work_ops, asset_plans, ops_of, refused_plan,
  served_plan, asset_plan, is_refused, charge_ops, charge_op, extract,
}
use otto_q_core.Plan.{Plan, Op, AssetPlan, is_charge}
use otto_q_core.Scenario.{Asset}
use otto_q_core.Base.Sort.{any-sort, place}
use otto_q_core.Base.{
  ℕ, suc, ◌≤◌, String, ◌≡◌, refl, sym, subst, ◌∙◌, ◌≢◌, inl, inr, Bool, true, false, ◌&&◌, none,
  some, List, [], ◌∷◌, ◌++◌, arith, eq_iff, ◌==◌, str_eq, Bool-cases, if-true, any, All-split,
}

-- A charge at that point with that start.
abbrev pub is_charge_at : String → ℕ → Op → Bool
is_charge_at id start o =
    is_charge o && (elim o.point [ none ↦ false | some pid ↦ str_eq pid id ] && o.start == start)

abbrev pub has_charge_at : String → String → ℕ → AssetPlan → Bool
has_charge_at aid id start p = str_eq p.aid aid && any (is_charge_at id start) p.ops

abbrev pub candidate_at : String → Candidate → Bool
candidate_at id c = str_eq c.point.id id

any-append_left {ℓ} :
    {A : Type ℓ} (p : A → Bool) (xs ys : List A) → any p xs ≡ true → any p (xs ++ ys) ≡ true
any-append_left p [] ys h = cc
any-append_left p (x ∷ xs) ys h = elim (Bool-cases (p x)) [
  | inl e ↦ rw e refl
  | inr e ↦ ground (arith, any-append_left p xs ys)
]

module _ (inp : Input) (σ : Assignment) (a : Asset) (n : ℕ) (o : Op) (id : String)
    (place : o.point ≡ some id) where
  is_place-id : (c : Candidate) → is_place o c.point.id ≡ candidate_at id c
  unfolding is_place
  is_place-id c = rw place refl

  -- A pinned candidate is chosen, and starts at the start.
  charge_op-at :
      (j : ℕ) (c : Candidate)
      → candidate_at id c ≡ true
      → σ (seg_start n j 0) ≡ o.start
      → is_charge_at id o.start (charge_op σ n j c) ≡ true
  unfolding charge_op is_charge
  charge_op-at j c hit starts = ground arith

  pins-chosen :
      (j : ℕ) (cs : List Candidate)
      → any (candidate_at id) cs ≡ true
      → Satisfies σ (pins inp a n (some o) j cs)
      → any (is_charge_at id o.start) (charge_ops σ n j cs) ≡ true
  unfolding pins charge_ops
  pins-chosen j [] known h = cc
  pins-chosen j (c ∷ cs) known h = elim (Bool-cases (candidate_at id c)) [
    | inl hit ↦
        let held = rw (is_place-id c, hit) at h in
        let one : (σ (chosen n j) == 1) ≡ true = ground (arith, held.0) in
        rw one (ground (arith, charge_op-at j c hit (omega (arith, held.1.0))))
    | inr miss ↦
        let later = rw (is_place-id c, miss) at h in
        let rest = pins-chosen (suc j) cs (ground arith) later in ground (arith, rest)
  ]

  -- An asset with a pinned candidate is served.
  pins-total :
      (j : ℕ) (cs : List Candidate)
      → any (candidate_at id) cs ≡ true
      → Satisfies σ (pins inp a n (some o) j cs)
      → 1 ≤ total σ (lits inp a n j cs)
  unfolding pins lits
  pins-total j [] known h = cc
  pins-total j (c ∷ cs) known h = elim (Bool-cases (candidate_at id c)) [
    | inl hit ↦ let held = rw (is_place-id c, hit) at h in omega (arith, held.0)
    | inr miss ↦
        let later = rw (is_place-id c, miss) at h in
        omega (arith, pins-total (suc j) cs (ground arith) later)
  ]

  served-le :
      (cs : List Candidate)
      → inp.asked.budget.allow_rejection ≡ true
      → Satisfies σ (charge_constraints inp a n cs)
      → σ (served n) ≤ 1
  unfolding charge_constraints served_domain
  served-le cs allowed (_, (_, (_, (_, h)))) =
      let domain = rw allowed at (All-split (Holds σ) (served_domain inp a n) _ h).0 in
      omega (arith, domain.0)

  served-choice :
      (c : Candidate) (cs : List Candidate)
      → inp.asked.budget.allow_rejection ≡ true
      → Satisfies σ (choice inp a n (c ∷ cs))
      → 1 ≤ total σ (lits inp a n 0 (c ∷ cs))
      → σ (served n) ≢ 0
  unfolding choice one_if_served
  served-choice c cs allowed h some_one refused =
      let held = subst (Satisfies σ) (if-true _ _ allowed) h in
      absurd (omega (arith, held.1.0 refused, some_one))

  pinned-served :
      (cs : List Candidate)
      → any (candidate_at id) cs ≡ true
      → Satisfies σ (charge_constraints inp a n cs)
      → pinned inp a.aid "charge" ≡ some o
      → is_refused inp σ n ≡ false
  unfolding is_refused
  pinned-served [] known h started = cc
  pinned-served (c ∷ cs) known h started = elim (Bool-cases inp.asked.budget.allow_rejection) [
    | inl allowed ↦
        let parts = charge-choice inp σ a n (c ∷ cs) h in
        let pinned_held = subst (λ p. Satisfies σ (pins inp a n p 0 (c ∷ cs))) started parts.2 in
        ground (
          arith,
          served-le (c ∷ cs) allowed h,
          served-choice c cs allowed parts.0 (pins-total 0 (c ∷ cs) known pinned_held),
        )
    | inr forced ↦ rw forced refl
  ]

  asset_plan-pinned :
      any (candidate_at id) (candidates inp a) ≡ true
      → pinned inp a.aid "charge" ≡ some o
      → Satisfies σ (Block.own (block inp a n))
      → has_charge_at a.aid id o.start (asset_plan inp σ a n) ≡ true
  unfolding refused_plan served_plan ops_of
  asset_plan-pinned known started h =
      let charge = own-charge inp σ a n h in
      let parts = charge-choice inp σ a n (candidates inp a) charge in
      let pinned_held =
        subst (λ p. Satisfies σ (pins inp a n p 0 (candidates inp a))) started parts.2 in
      elim (asset_plan-cases inp σ a n) [
        | inl (refused, e) ↦ cc (pinned-served (candidates inp a) known charge started)
        | inr (_, e) ↦ rw e (
            ground (
              arith,
              eq_iff a.aid a.aid,
              any-sort op_le (is_charge_at id o.start) (ops_of inp σ a n),
              any-append_left (is_charge_at id o.start) (charge_ops σ n 0 (candidates inp a))
                  (beside_ops σ n (point_of_first (charge_ops σ n 0 (candidates inp a))) 0
                      a.parallel_ops
                    ++ (work_ops inp σ wash a n ++ work_ops inp σ inspect a n))
                  (pins-chosen 0 (candidates inp a) known pinned_held),
            ))
      ]

-- The plans of the assets, from a position on.
asset_plans-pinned :
    (inp : Input) (σ : Assignment) (o : Op) (id : String) (aid : String) (n : ℕ)
    (assets : List Asset)
    → o.point ≡ some id
    → pinned inp aid "charge" ≡ some o
    → Satisfies σ (own_of (blocks inp n assets))
    → any (λ a. str_eq (Asset.aid a) aid && any (candidate_at id) (candidates inp a)) assets ≡ true
    → any (has_charge_at aid id o.start) (asset_plans inp σ n assets) ≡ true
unfolding asset_plans blocks own_of
asset_plans-pinned inp σ o id aid n [] place started h known = known
asset_plans-pinned inp σ o id aid n (a ∷ rest) place started h known =
    let parts = All-split (Holds σ) (Block.own (block inp a n)) _ h in
    elim (Bool-cases (str_eq a.aid aid && any (candidate_at id) (candidates inp a))) [
      | inl hit ↦
          let same_aid : a.aid ≡ aid = (eq_iff a.aid aid).0 (ground arith) in
          let kept =
            asset_plan-pinned inp σ a n o id place (ground arith)
              (subst (λ x. pinned inp x "charge" ≡ some o) (sym same_aid) started) parts.0 in
          ground (
            arith,
            subst (λ x. has_charge_at x id o.start (asset_plan inp σ a n) ≡ true) same_aid kept,
          )
      | inr miss ↦ ground (
        arith,
        asset_plans-pinned inp σ o id aid (suc n) rest place started parts.1 (ground arith),
      )
    ]

-- Where the previous plan has a charge of an asset that started before `t_now`, the asset is in the
-- scenario and the point of that charge is one of its candidates: the plan that is read back from
-- values that satisfy the model serves the asset by a charge at that point with that start.
pub extract-keeps :
    (inp : Input) (found : Found) (aid id : String) (o : Op)
    → Satisfies found.values (CpModel.constraints (build_model inp))
    → pinned inp aid "charge" ≡ some o
    → o.point ≡ some id
    → any (λ a. str_eq (Asset.aid a) aid && any (candidate_at id) (candidates inp a)) inp.sc.assets
      ≡ true
    → any (has_charge_at aid id o.start) (Plan.assets (extract inp found)) ≡ true
unfolding extract
extract-keeps inp found aid id o h started place known =
    any-sort plan_le (has_charge_at aid id o.start) (asset_plans inp found.values 0 inp.sc.assets)
    ∙ asset_plans-pinned inp found.values o id aid 0 inp.sc.assets place started
        (own_held inp found.values h) known
